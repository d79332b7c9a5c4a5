-- ===== src/Json/RoundTrip.antt =====
-- What `jx_write` of mcp/json.c writes, `jx_parse` reads back.
pub mod Steps
use mathlib.Core.List.{append_assoc, append-nil}
use asterism_asper.Base.{
  ℕ, zero, suc, ◌+◌, ◌*◌, ◌≤◌, ◌<◌, ◌≡◌, refl, sym, ap, ◌∙◌, subst, Bool, true, false, not, ◌&&◌,
  ◌||◌, List, [], ◌∷◌, ◌++◌, Option, none, some, leb, ◌==◌, if◌then◌else◌, length, drop, arith,
  char_at, max, inl, inr, Bool-cases, IsBytes, IsText,
}
use asterism_asper.Base.Int.{ℤ, pos, negsuc}
use asterism_asper.Base.Maybe.{◌>>=◌}
use asterism_asper.Base.Text.{codes, until_zero, until_zero_text}
use asterism_asper.Json.Text.{quote, w_string, p_string_raw, utf8_valid}
use asterism_asper.Json.Text.RoundTrip.{p_string_raw-w_string}
use asterism_asper.Json.Value.{Value, Items, Members, Number, items_push, obj_put, obj_get}
use asterism_asper.Json.Value.Laws.{
  items_append, items_append-push, items_append-nil, members_append, members_append-end,
  members_append-put, Apart, Apart-end, Apart-put, Apart-new,
}
use asterism_asper.Json.Parse.{
  p_value, p_items, p_members, skip_ws, kind_at, Kind, p_number, isdig, jx_parse, max_depth,
}
use asterism_asper.Json.Write.{
  Printing, w_value, w_items, w_members, w_number, print_int, w_nl_indent, jx_write,
}
use asterism_asper.Json.Writable.Cost.{cost_le}
use asterism_asper.Json.Numbers.{p_number-print_int, stops, IsReadable, IsSmall, digits_shape}
use asterism_asper.Json.Writable.{
  IsWritable, height, cost, starts, skip_ws-starts, skip_ws-w_nl_indent, p_lit-append, value_start,
  AreWritable, height_items, cost_items, HasWritable, height_members, cost_members,
}
use asterism_asper.Json.RoundTrip.Steps.{
  skip_ws-w_value, closing, not_bracket, p_value-digits, array_body, p_value-nil, p_value-cons,
  p_items-last, p_items-more, p_value-end, p_value-member, p_members-last, p_members-more,
  room_left, cost_pos, stops-closing, colon, behind_colon, member_body, p_value-null,
  p_value-boolean, p_value-string, kind_digits, digit_start, p_value-number, closing_byte,
  brace_byte, string_starts, string_not_brace, comma_byte, IsText-IsBytes,
}

module _ {D : Type 0} (strtod : List ℕ → Option D) (printing : Printing D) (pretty : Bool) where
  mutual
    unfolding w_value IsWritable height cost items_append members_append w_string

    read_value :
        (v : Value D) (rounds depth level : ℕ) (p rest : List ℕ)
        → skip_ws p ≡ w_value printing pretty level v ++ rest
        → IsWritable strtod v
        → cost v ≤ rounds
        → depth + height v ≤ 64
        → stops (char_at rest 0) ≡ true
        → p_value strtod rounds depth p ≡ some (v, rest)
    read_value v zero depth level p rest e w c h s =
        absurd (omega (arith, c, cost_pos strtod printing pretty v))
    read_value Value.null (suc rounds) depth level p rest e w c h s =
        p_value-null strtod printing pretty rounds depth p rest e
    read_value (Value.boolean b) (suc rounds) depth level p rest e w c h s =
        p_value-boolean strtod printing pretty b rounds depth p rest e
    read_value (Value.number n) (suc rounds) depth level p rest e w c h s =
        p_value-number strtod printing pretty n rounds depth p rest e w s
    read_value (Value.string t) (suc rounds) depth level p rest e w c h s =
        p_value-string strtod printing pretty t rounds depth p rest e w.0 w.1
    read_value (Value.array Items.nil) (suc rounds) depth level p rest e w c h s =
        p_value-nil strtod printing pretty rounds depth p rest e
          (room_left strtod printing pretty depth 0 h)
    read_value (Value.array (Items.cons x xs)) (suc rounds) depth level p rest e w c h s =
        let tail : List ℕ = w_items printing pretty level xs in
        let text : List ℕ = w_value printing pretty (suc level) x ++ (tail ++ rest) in
        p_value-cons strtod printing pretty rounds depth p
          ((w_nl_indent pretty (suc level) ++ (w_value printing pretty (suc level) x ++ tail))
            ++ rest)
          text e (room_left strtod printing pretty depth (height_items (Items.cons x xs)) h)
          (array_body strtod printing pretty x level tail rest w.0)
          (not_bracket strtod printing pretty x (suc level) 0x5d (tail ++ rest) w.0 refl)
        ∙ read_items x xs Items.nil rounds (suc depth) level text rest
            (skip_ws-w_value strtod printing pretty x (suc level) (tail ++ rest) w.0) w.0 w.1
            (omega (arith, c)) (omega (arith, h)) (omega (arith, h))
    read_value (Value.object Members.end) (suc rounds) depth level p rest e w c h s =
        p_value-end strtod printing pretty rounds depth p rest e
          (room_left strtod printing pretty depth 0 h)
    read_value (Value.object (Members.member k x ms)) (suc rounds) depth level p rest e w c h s =
        let tail : List ℕ = w_members printing pretty level ms in
        let sep : List ℕ = colon strtod printing pretty in
        let text : List ℕ =
          w_string k ++ (sep ++ (w_value printing pretty (suc level) x ++ (tail ++ rest))) in
        p_value-member strtod printing pretty rounds depth p
          ((w_nl_indent pretty (suc level)
              ++ (w_string k ++ (sep ++ (w_value printing pretty (suc level) x ++ tail))))
            ++ rest)
          text e (room_left strtod printing pretty depth (height_members (Members.member k x ms)) h)
          (member_body strtod printing pretty k x level tail rest)
          (string_not_brace k (sep ++ (w_value printing pretty (suc level) x ++ (tail ++ rest))))
        ∙ read_members k x ms Members.end rounds (suc depth) level text rest
            (string_starts k (sep ++ (w_value printing pretty (suc level) x ++ (tail ++ rest)))) w
            (omega (arith, c)) (omega (arith, h)) (omega (arith, h))
            (Apart-end (Members.member k x ms))

    read_items :
        (x : Value D) (xs acc : Items D) (rounds depth level : ℕ) (p rest : List ℕ)
        → skip_ws p
          ≡ w_value printing pretty (suc level) x ++ (w_items printing pretty level xs ++ rest)
        → IsWritable strtod x
        → AreWritable strtod xs
        → suc (cost x + cost_items xs) ≤ rounds
        → depth + height x ≤ 64
        → depth + height_items xs ≤ 64
        → p_items strtod rounds depth acc p
          ≡ some (Value.array (items_append acc (Items.cons x xs)), rest)
    read_items x xs acc zero depth level p rest e w ws c h k = absurd (omega (arith, c))
    read_items x Items.nil acc (suc rounds) depth level p rest e w ws c h k =
        let tail : List ℕ = w_items printing pretty level Items.nil ++ rest in
        let one =
          read_value x rounds depth (suc level) p tail e w (omega (arith, c)) h
            (stops-closing strtod printing pretty level 0x5d rest refl) in
        let close = closing strtod printing pretty level 0x5d rest (closing_byte rest) in
        p_items-last strtod printing pretty rounds depth acc x p tail rest one close
        ∙ ap (λ t. some (Value.array t, rest))
            (sym (items_append-nil (items_push acc x)) ∙ items_append-push acc Items.nil x)
    read_items x (Items.cons y ys) acc (suc rounds) depth level p rest e w ws c h k =
        let after : List ℕ =
          (w_nl_indent pretty (suc level)
            ++ (w_value printing pretty (suc level) y ++ w_items printing pretty level ys))
          ++ rest in
        let one =
          read_value x rounds depth (suc level) p (0x2c ∷ after) e w (omega (arith, c)) h refl in
        p_items-more strtod printing pretty rounds depth acc x p (0x2c ∷ after) after one
          (comma_byte after)
        ∙ read_items y ys (items_push acc x) rounds depth level after rest
            (array_body strtod printing pretty y level (w_items printing pretty level ys) rest ws.0)
            ws.0 ws.1 (omega (arith, c)) (omega (arith, k)) (omega (arith, k))
        ∙ ap (λ t. some (Value.array t, rest)) (items_append-push acc (Items.cons y ys) x)

    read_members :
        (k : List ℕ) (x : Value D) (ms acc : Members D) (rounds depth level : ℕ) (p rest : List ℕ)
        → skip_ws p
          ≡ w_string k
            ++ (colon strtod printing pretty
                ++ (w_value printing pretty (suc level) x
                    ++ (w_members printing pretty level ms ++ rest)))
        → HasWritable strtod (Members.member k x ms)
        → suc (cost x + cost_members ms) ≤ rounds
        → depth + height x ≤ 64
        → depth + height_members ms ≤ 64
        → Apart acc (Members.member k x ms)
        → p_members strtod rounds depth acc p
          ≡ some (Value.object (members_append acc (Members.member k x ms)), rest)
    read_members k x ms acc zero depth level p rest e w c h j a = absurd (omega (arith, c))
    read_members k x Members.end acc (suc rounds) depth level p rest e (t, u, new, w, ws) c h j a =
        let tail : List ℕ = w_members printing pretty level Members.end ++ rest in
        let text : List ℕ = w_value printing pretty (suc level) x ++ tail in
        let (q, sep, same) = behind_colon strtod printing pretty text in
        let one =
          read_value x rounds depth (suc level) q tail
            (same ∙ skip_ws-w_value strtod printing pretty x (suc level) tail w) w
            (omega (arith, c)) h (stops-closing strtod printing pretty level 0x7d rest refl) in
        p_members-last strtod printing pretty rounds depth acc k x p _ _ q tail rest e
          (p_string_raw-w_string k (colon strtod printing pretty ++ text) (IsText-IsBytes k t) u)
          sep one (closing strtod printing pretty level 0x7d rest (brace_byte rest))
        ∙ ap (λ y. some (Value.object (obj_put acc y x), rest)) (until_zero_text k t)
        ∙ ap (λ y. some (Value.object y, rest))
            (sym (members_append-end (obj_put acc k x))
              ∙ members_append-put acc Members.end k x (Apart-new acc Members.end k x a))
    read_members k x (Members.member l y ms) acc (suc rounds) depth level p rest e
          (t, u, new, w, ws) c h j a =
        let after : List ℕ =
          (w_nl_indent pretty (suc level)
            ++ (w_string l
                ++ (colon strtod printing pretty
                    ++ (w_value printing pretty (suc level) y
                        ++ w_members printing pretty level ms))))
          ++ rest in
        let text : List ℕ = w_value printing pretty (suc level) x ++ (0x2c ∷ after) in
        let (q, sep, same) = behind_colon strtod printing pretty text in
        let one =
          read_value x rounds depth (suc level) q (0x2c ∷ after)
            (same ∙ skip_ws-w_value strtod printing pretty x (suc level) (0x2c ∷ after) w) w
            (omega (arith, c)) h refl in
        p_members-more strtod printing pretty rounds depth acc k x p _ _ q (0x2c ∷ after) after e
          (p_string_raw-w_string k (colon strtod printing pretty ++ text) (IsText-IsBytes k t) u)
          sep one (comma_byte after)
        ∙ ap (λ z. p_members strtod rounds depth (obj_put acc z x) after) (until_zero_text k t)
        ∙ read_members l y ms (obj_put acc k x) rounds depth level after rest
            (member_body strtod printing pretty l y level (w_members printing pretty level ms) rest)
            ws (omega (arith, c)) (omega (arith, j)) (omega (arith, j))
            (Apart-put acc (Members.member l y ms) k x a new)
        ∙ ap (λ z. some (Value.object z, rest))
            (members_append-put acc (Members.member l y ms) k x
              (Apart-new acc (Members.member l y ms) k x a))

  -- A value is read back from its text, plain or indented, where it nests at most 64 deep, its
  -- strings are UTF-8, its keys are UTF-8 without a zero byte and differ in each object, and its
  -- numbers are 64-bit integers whose text `strtod` reads as their double.
  pub jx_parse-jx_write :
      (v : Value D)
      → IsWritable strtod v
      → height v ≤ 64
      → jx_parse strtod (jx_write printing v pretty) ≡ some v
  unfolding jx_parse skip_ws
  jx_parse-jx_write v w h =
      let text : List ℕ = w_value printing pretty 0 v in
      let whole : skip_ws text ≡ text ++ [] =
        ap (λ t. skip_ws t) (sym (append-nil text))
        ∙ skip_ws-w_value strtod printing pretty v 0 [] w in
      let read =
        read_value v (length text * 2 + 2) 0 0 text [] whole w
          (omega (arith, cost_le printing pretty v 0)) (omega (arith, h)) refl in
      rw (jx_parse, read) refl
