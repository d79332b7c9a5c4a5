-- ===== src/Json/RoundTrip/Steps.antt =====
-- The steps of the parser of mcp/json.c at the texts that its writer writes.
use mathlib.Core.List.{append_assoc}
use asterism_asper.Base.{
  ℕ, suc, ◌+◌, ◌≤◌, ◌≡◌, refl, sym, ap, ◌∙◌, subst, Bool, true, false, ◌||◌, List, [], ◌∷◌, ◌++◌,
  Option, some, leb, ◌==◌, if◌then◌else◌, arith, char_at, inl, inr, Bool-cases, IsBytes, IsText,
}
use asterism_asper.Base.Int.{ℤ, pos, negsuc}
use asterism_asper.Base.Maybe.{◌>>=◌}
use asterism_asper.Base.Text.{codes, until_zero}
use asterism_asper.Json.Text.{quote, w_string, p_string_raw, utf8_valid}
use asterism_asper.Json.Text.RoundTrip.{p_string_raw-w_string}
use asterism_asper.Json.Value.{Value, Items, Members, Number, items_push, obj_put}
use asterism_asper.Json.Parse.{
  p_value, p_items, p_members, skip_ws, kind_at, Kind, p_number, isdig, max_depth,
}
use asterism_asper.Json.Write.{Printing, w_value, w_number, print_int, w_nl_indent}
use asterism_asper.Json.Numbers.{p_number-print_int, stops, IsReadable, IsSmall, digits_shape}
use asterism_asper.Json.Writable.{
  IsWritable, cost, skip_ws-starts, skip_ws-w_nl_indent, p_lit-append, value_start,
}

module _ {D : Type 0} (strtod : List ℕ → Option D) (printing : Printing D) (pretty : Bool) where
  pub skip_ws-w_value :
      (v : Value D) (level : ℕ) (rest : List ℕ)
      → IsWritable strtod v
      → skip_ws (w_value printing pretty level v ++ rest) ≡ w_value printing pretty level v ++ rest
  skip_ws-w_value v level rest w =
      let (c, t, e, s) = value_start strtod printing pretty v level w in
      subst (λ x. skip_ws (x ++ rest) ≡ x ++ rest) (sym e) (skip_ws-starts c (t ++ rest) s)

  -- The closing byte of an array or object.
  pub closing :
      (level b : ℕ) (rest : List ℕ)
      → skip_ws (b ∷ rest) ≡ b ∷ rest
      → skip_ws ((w_nl_indent pretty level ++ (b ∷ [])) ++ rest) ≡ b ∷ rest
  closing level b rest e =
      ap (λ t. skip_ws t) (append_assoc (w_nl_indent pretty level) (b ∷ []) rest)
      ∙ skip_ws-w_nl_indent pretty level (b ∷ rest)
      ∙ e

  pub not_bracket :
      (v : Value D) (level b : ℕ) (rest : List ℕ)
      → IsWritable strtod v
      → ((b == 0x5d) || (b == 0x7d)) ≡ true
      → (char_at (w_value printing pretty level v ++ rest) 0 == b) ≡ false
  not_bracket v level b rest w h =
      let (c, t, e, s) = value_start strtod printing pretty v level w in
      subst (λ x. (char_at (x ++ rest) 0 == b) ≡ false) (sym e) (ground (arith, s, h))

  pub p_value-digits :
      (rounds depth c : ℕ) (p t rest : List ℕ) (n : Number D)
      → skip_ws p ≡ c ∷ t
      → kind_at c ≡ Kind.digits
      → p_number strtod (c ∷ t) ≡ some (n, rest)
      → p_value strtod (suc rounds) depth p ≡ some (Value.number n, rest)
  unfolding p_value
  p_value-digits rounds depth c p t rest n e k q = rw (p_value, e, k, e, q) refl

  -- The items of an array, in front of its first value.
  pub array_body :
      (x : Value D) (level : ℕ) (c rest : List ℕ)
      → IsWritable strtod x
      → skip_ws
          ((w_nl_indent pretty (suc level) ++ (w_value printing pretty (suc level) x ++ c)) ++ rest)
        ≡ w_value printing pretty (suc level) x ++ (c ++ rest)
  array_body x level c rest w =
      ap (λ t. skip_ws t)
        (append_assoc (w_nl_indent pretty (suc level)) (w_value printing pretty (suc level) x ++ c)
          rest)
      ∙ skip_ws-w_nl_indent pretty (suc level)
          ((w_value printing pretty (suc level) x ++ c) ++ rest)
      ∙ ap (λ t. skip_ws t) (append_assoc (w_value printing pretty (suc level) x) c rest)
      ∙ skip_ws-w_value x (suc level) (c ++ rest) w

  pub p_value-nil :
      (rounds depth : ℕ) (p rest : List ℕ)
      → skip_ws p ≡ codes "[]" ++ rest
      → leb max_depth depth ≡ false
      → p_value strtod (suc rounds) depth p ≡ some (Value.array Items.nil, rest)
  unfolding p_value skip_ws
  p_value-nil rounds depth p rest e room = rw (p_value, e, room, e, e) refl

  pub p_value-cons :
      (rounds depth : ℕ) (p t q : List ℕ)
      → skip_ws p ≡ 0x5b ∷ t
      → leb max_depth depth ≡ false
      → skip_ws t ≡ q
      → (char_at q 0 == 0x5d) ≡ false
      → p_value strtod (suc rounds) depth p ≡ p_items strtod rounds (suc depth) Items.nil q
  unfolding p_value
  p_value-cons rounds depth p t q e room k n = rw (p_value, e, room, e, k, n, e, k) refl

  pub p_items-last :
      (rounds depth : ℕ) (acc : Items D) (v : Value D) (p left rest : List ℕ)
      → p_value strtod rounds depth p ≡ some (v, left)
      → skip_ws left ≡ 0x5d ∷ rest
      → p_items strtod (suc rounds) depth acc p ≡ some (Value.array (items_push acc v), rest)
  unfolding p_items
  p_items-last rounds depth acc v p left rest e k = rw (p_items, e, ◌>>=◌, k, k) refl

  pub p_items-more :
      (rounds depth : ℕ) (acc : Items D) (v : Value D) (p left rest : List ℕ)
      → p_value strtod rounds depth p ≡ some (v, left)
      → skip_ws left ≡ 0x2c ∷ rest
      → p_items strtod (suc rounds) depth acc p
        ≡ p_items strtod rounds depth (items_push acc v) rest
  unfolding p_items
  p_items-more rounds depth acc v p left rest e k = rw (p_items, e, ◌>>=◌, k, k) refl

  pub p_value-end :
      (rounds depth : ℕ) (p rest : List ℕ)
      → skip_ws p ≡ codes "{}" ++ rest
      → leb max_depth depth ≡ false
      → p_value strtod (suc rounds) depth p ≡ some (Value.object Members.end, rest)
  unfolding p_value skip_ws
  p_value-end rounds depth p rest e room = rw (p_value, e, room, e, e) refl

  pub p_value-member :
      (rounds depth : ℕ) (p t q : List ℕ)
      → skip_ws p ≡ 0x7b ∷ t
      → leb max_depth depth ≡ false
      → skip_ws t ≡ q
      → (char_at q 0 == 0x7d) ≡ false
      → p_value strtod (suc rounds) depth p ≡ p_members strtod rounds (suc depth) Members.end q
  unfolding p_value
  p_value-member rounds depth p t q e room k n = rw (p_value, e, room, e, k, n, e, k) refl

  pub p_members-last :
      (rounds depth : ℕ) (acc : Members D) (key : List ℕ) (v : Value D) (p q r u left rest : List ℕ)
      → skip_ws p ≡ quote ∷ q
      → p_string_raw q ≡ some (key, r)
      → skip_ws r ≡ 0x3a ∷ u
      → p_value strtod rounds depth u ≡ some (v, left)
      → skip_ws left ≡ 0x7d ∷ rest
      → p_members strtod (suc rounds) depth acc p
        ≡ some (Value.object (obj_put acc (until_zero key) v), rest)
  unfolding p_members
  p_members-last rounds depth acc key v p q r u left rest e k c w o =
      rw (p_members, e, ◌>>=◌, k, ◌>>=◌, c, ◌>>=◌, w, ◌>>=◌, o, o) refl

  pub p_members-more :
      (rounds depth : ℕ) (acc : Members D) (key : List ℕ) (v : Value D) (p q r u left rest : List ℕ)
      → skip_ws p ≡ quote ∷ q
      → p_string_raw q ≡ some (key, r)
      → skip_ws r ≡ 0x3a ∷ u
      → p_value strtod rounds depth u ≡ some (v, left)
      → skip_ws left ≡ 0x2c ∷ rest
      → p_members strtod (suc rounds) depth acc p
        ≡ p_members strtod rounds depth (obj_put acc (until_zero key) v) rest
  unfolding p_members
  p_members-more rounds depth acc key v p q r u left rest e k c w o =
      rw (p_members, e, ◌>>=◌, k, ◌>>=◌, c, ◌>>=◌, w, ◌>>=◌, o, o) refl

  pub room_left : (depth h : ℕ) → depth + suc h ≤ 64 → leb max_depth depth ≡ false
  room_left depth h e = ground (arith, e)

  pub cost_pos : (v : Value D) → 1 ≤ cost v
  unfolding cost
  cost_pos Value.null = omega arith
  cost_pos (Value.boolean b) = omega arith
  cost_pos (Value.number n) = omega arith
  cost_pos (Value.string t) = omega arith
  cost_pos (Value.array xs) = omega arith
  cost_pos (Value.object ms) = omega arith

  pub stops-closing :
      (level b : ℕ) (rest : List ℕ)
      → stops b ≡ true
      → stops (char_at ((w_nl_indent pretty level ++ (b ∷ [])) ++ rest) 0) ≡ true
  stops-closing level b rest h = elim (Bool-cases pretty) [
    | inl wide ↦ rw wide refl
    | inr narrow ↦ rw narrow h
  ]

  abbrev pub colon : List ℕ
  colon = if pretty then 0x3a ∷ 0x20 ∷ [] else 0x3a ∷ []

  pub behind_colon :
      (t : List ℕ) → (u : List ℕ) × (skip_ws (colon ++ t) ≡ 0x3a ∷ u) × (skip_ws u ≡ skip_ws t)
  unfolding skip_ws
  behind_colon t = elim (Bool-cases pretty) [
    | inl wide ↦ rw wide (0x20 ∷ t, refl, refl)
    | inr narrow ↦ rw narrow (t, refl, refl)
  ]

  -- The members of an object, in front of a key.
  pub member_body :
      (k : List ℕ) (x : Value D) (level : ℕ) (c rest : List ℕ)
      → skip_ws (
          (w_nl_indent pretty (suc level)
            ++ (w_string k ++ (colon ++ (w_value printing pretty (suc level) x ++ c))))
          ++ rest)
        ≡ w_string k ++ (colon ++ (w_value printing pretty (suc level) x ++ (c ++ rest)))
  unfolding w_string
  member_body k x level c rest =
      let v = w_value printing pretty (suc level) x in
      let inner : (w_string k ++ (colon ++ (v ++ c))) ++ rest
          ≡ w_string k ++ (colon ++ (v ++ (c ++ rest))) =
        append_assoc (w_string k) (colon ++ (v ++ c)) rest
        ∙ ap (λ t. w_string k ++ t)
            (append_assoc colon (v ++ c) rest ∙ ap (λ t. colon ++ t) (append_assoc v c rest)) in
      ap (λ t. skip_ws t)
        (append_assoc (w_nl_indent pretty (suc level)) (w_string k ++ (colon ++ (v ++ c))) rest)
      ∙ skip_ws-w_nl_indent pretty (suc level) ((w_string k ++ (colon ++ (v ++ c))) ++ rest)
      ∙ ap (λ t. skip_ws t) inner
      ∙ skip_ws-starts quote _ refl

  pub p_value-null :
      (rounds depth : ℕ) (p rest : List ℕ)
      → skip_ws p ≡ codes "null" ++ rest
      → p_value strtod (suc rounds) depth p ≡ some (Value.null, rest)
  unfolding p_value
  p_value-null rounds depth p rest e = rw (p_value, e, e, p_lit-append (codes "null") rest) refl

  pub p_value-boolean :
      (b : Bool) (rounds depth : ℕ) (p rest : List ℕ)
      → skip_ws p ≡ (if b then codes "true" else codes "false") ++ rest
      → p_value strtod (suc rounds) depth p ≡ some (Value.boolean b, rest)
  unfolding p_value
  p_value-boolean true rounds depth p rest e =
      rw (p_value, e, e, p_lit-append (codes "true") rest) refl
  p_value-boolean false rounds depth p rest e =
      rw (p_value, e, e, p_lit-append (codes "false") rest) refl

  pub p_value-string :
      (t : List ℕ) (rounds depth : ℕ) (p rest : List ℕ)
      → skip_ws p ≡ w_string t ++ rest
      → IsBytes t
      → utf8_valid t ≡ true
      → p_value strtod (suc rounds) depth p ≡ some (Value.string t, rest)
  unfolding p_value w_string
  p_value-string t rounds depth p rest e b u =
      rw (p_value, e, e, p_string_raw-w_string t rest b u) refl

  pub kind_digits : (c : ℕ) → ((c == 0x2d) || isdig c) ≡ true → kind_at c ≡ Kind.digits
  kind_digits c e = ground (arith, e)

  pub digit_start :
      (i : ℤ)
      → IsSmall i
      → (c : ℕ) × (t : List ℕ) × (print_int i ≡ c ∷ t) × (((c == 0x2d) || isdig c) ≡ true)
  unfolding print_int
  digit_start (pos n) h =
      let (c, t, e, k) = digits_shape n (omega arith) in (c, t, e, ground (arith, k))
  digit_start (negsuc n) h = (0x2d, _, refl, refl)

  pub p_value-number :
      (n : Number D) (rounds depth : ℕ) (p rest : List ℕ)
      → skip_ws p ≡ w_number printing n ++ rest
      → IsReadable strtod n
      → stops (char_at rest 0) ≡ true
      → p_value strtod (suc rounds) depth p ≡ some (Value.number n, rest)
  unfolding w_number
  p_value-number n rounds depth p rest e v s =
      let (c, t, eq, k) = digit_start n.i v.small in
      let text : w_number printing n ≡ print_int n.i = rw (w_number, v.int) refl in
      p_value-digits rounds depth c p (t ++ rest) rest n (e ∙ ap (λ x. x ++ rest) (text ∙ eq))
        (kind_digits c k)
        (subst (λ x. p_number strtod (x ++ rest) ≡ some (n, rest)) eq
          (p_number-print_int strtod n rest v s))

pub closing_byte : (rest : List ℕ) → skip_ws (0x5d ∷ rest) ≡ 0x5d ∷ rest
unfolding skip_ws
closing_byte rest = refl

pub brace_byte : (rest : List ℕ) → skip_ws (0x7d ∷ rest) ≡ 0x7d ∷ rest
unfolding skip_ws
brace_byte rest = refl

pub string_starts : (k t : List ℕ) → skip_ws (w_string k ++ t) ≡ w_string k ++ t
unfolding w_string
string_starts k t = skip_ws-starts quote _ refl

pub string_not_brace : (k t : List ℕ) → (char_at (w_string k ++ t) 0 == 0x7d) ≡ false
unfolding w_string
string_not_brace k t = refl

pub comma_byte : (rest : List ℕ) → skip_ws (0x2c ∷ rest) ≡ 0x2c ∷ rest
unfolding skip_ws
comma_byte rest = refl

pub IsText-IsBytes : (s : List ℕ) → IsText s → IsBytes s
IsText-IsBytes [] t = tt
IsText-IsBytes (c ∷ s) ((h, l), t) = (l, IsText-IsBytes s t)
