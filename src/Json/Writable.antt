-- ===== src/Json/Writable.antt =====
-- The values that a text of mcp/json.c can hold, and the white space around them.
pub mod Cost
use mathlib.Core.List.{append_assoc}
use asterism_asper.Base.{
  ℕ, zero, suc, ◌+◌, ◌*◌, ◌≤◌, ◌<◌, ◌≡◌, refl, sym, ap, ◌∙◌, subst, Bool, true, false, not, ◌&&◌,
  ◌||◌, List, [], ◌∷◌, ◌++◌, Option, none, some, leb, ◌==◌, if◌then◌else◌, length, take, drop,
  arith, IsBytes, IsText, char_at, max, Bool-cases, inl, inr, length-append,
}
use asterism_asper.Base.Int.{ℤ, pos, negsuc}
use asterism_asper.Base.Text.{str_eq, str_eq_refl, codes}
use asterism_asper.Json.Text.{utf8_valid, w_string}
use asterism_asper.Json.Value.{Value, Items, Members, Number, obj_get}
use asterism_asper.Json.Parse.{skip_ws, p_lit, isdig}
use asterism_asper.Json.Write.{
  Printing, w_value, w_items, w_members, w_number, print_int, w_nl_indent, indents,
}
use asterism_asper.Json.Numbers.{IsReadable, IsSmall, stops, digits_shape}

-- Strings are UTF-8, keys are so without a zero byte and stand once, and numbers are integers of 64
-- bits that `strtod` reads.
unfoldable mutual
  pub IsWritable : {D : Type 0} → (List ℕ → Option D) → Value D → Type 0
  IsWritable strtod Value.null = Unit
  IsWritable strtod (Value.boolean b) = Unit
  IsWritable strtod (Value.number n) = IsReadable strtod n
  IsWritable strtod (Value.string s) = IsBytes s × (utf8_valid s ≡ true)
  IsWritable strtod (Value.array xs) = AreWritable strtod xs
  IsWritable strtod (Value.object ms) = HasWritable strtod ms

  pub AreWritable : {D : Type 0} → (List ℕ → Option D) → Items D → Type 0
  AreWritable strtod Items.nil = Unit
  AreWritable strtod (Items.cons x xs) = IsWritable strtod x × AreWritable strtod xs

  pub HasWritable : {D : Type 0} → (List ℕ → Option D) → Members D → Type 0
  HasWritable strtod Members.end = Unit
  HasWritable strtod (Members.member k x ms) =
      IsText k
      × (utf8_valid k ≡ true)
      × (obj_get ms k ≡ none)
      × IsWritable strtod x
      × HasWritable strtod ms

-- How deep arrays and objects nest.
unfoldable mutual
  pub height : {D : Type 0} → Value D → ℕ
  height Value.null = 0
  height (Value.boolean b) = 0
  height (Value.number n) = 0
  height (Value.string s) = 0
  height (Value.array xs) = suc (height_items xs)
  height (Value.object ms) = suc (height_members ms)

  pub height_items : {D : Type 0} → Items D → ℕ
  height_items Items.nil = 0
  height_items (Items.cons x xs) = max (height x) (height_items xs)

  pub height_members : {D : Type 0} → Members D → ℕ
  height_members Members.end = 0
  height_members (Members.member k x ms) = max (height x) (height_members ms)

-- Rounds that are enough to read a value.
unfoldable mutual
  pub cost : {D : Type 0} → Value D → ℕ
  cost Value.null = 1
  cost (Value.boolean b) = 1
  cost (Value.number n) = 1
  cost (Value.string s) = 1
  cost (Value.array xs) = suc (cost_items xs)
  cost (Value.object ms) = suc (cost_members ms)

  pub cost_items : {D : Type 0} → Items D → ℕ
  cost_items Items.nil = 0
  cost_items (Items.cons x xs) = suc (cost x + cost_items xs)

  pub cost_members : {D : Type 0} → Members D → ℕ
  cost_members Members.end = 0
  cost_members (Members.member k x ms) = suc (cost x + cost_members ms)

-- A byte that a value starts with.
abbrev pub starts : ℕ → Bool
starts c =
    (c == 0x22)
    || (c == 0x5b)
    || (c == 0x7b)
    || (c == 0x6e)
    || (c == 0x74)
    || (c == 0x66)
    || (c == 0x2d)
    || isdig c

pub skip_ws-starts : (c : ℕ) (t : List ℕ) → starts c ≡ true → skip_ws (c ∷ t) ≡ c ∷ t
unfolding skip_ws
skip_ws-starts c t e =
    let visible : ((c == 0x20) || (c == 0x09) || (c == 0x0a) || (c == 0x0d)) ≡ false =
      ground (arith, e) in
    rw (skip_ws, visible) refl

skip_ws-indents : (level : ℕ) (t : List ℕ) → skip_ws (indents level ++ t) ≡ skip_ws t
unfolding skip_ws indents
skip_ws-indents zero t = refl
skip_ws-indents (suc level) t = skip_ws-indents level t

pub skip_ws-w_nl_indent :
    (pretty : Bool) (level : ℕ) (t : List ℕ) → skip_ws (w_nl_indent pretty level ++ t) ≡ skip_ws t
unfolding skip_ws
skip_ws-w_nl_indent true level t = skip_ws-indents level t
skip_ws-w_nl_indent false level t = refl

take-append : (xs ys : List ℕ) → take (length xs) (xs ++ ys) ≡ xs
take-append [] ys = refl
take-append (x ∷ xs) ys = ap (λ t. x ∷ t) (take-append xs ys)

drop-append : (xs ys : List ℕ) → drop (length xs) (xs ++ ys) ≡ ys
drop-append [] ys = refl
drop-append (x ∷ xs) ys = drop-append xs ys

pub p_lit-append : (lit rest : List ℕ) → p_lit lit (lit ++ rest) ≡ some rest
unfolding p_lit
p_lit-append lit rest =
    let long : leb (length lit) (length (lit ++ rest)) ≡ true =
      ground (arith, length-append lit rest) in
    rw (p_lit, long, take-append lit rest, str_eq_refl lit, drop-append lit rest) refl

module _ {D : Type 0} (strtod : List ℕ → Option D) (printing : Printing D) (pretty : Bool) where
  number_start :
      (i : ℤ) → IsSmall i → (c : ℕ) × (t : List ℕ) × (print_int i ≡ c ∷ t) × (starts c ≡ true)
  unfolding print_int
  number_start (pos n) h =
      let (c, t, e, k) = digits_shape n (omega arith) in (c, t, e, ground (arith, k))
  number_start (negsuc n) h = (0x2d, _, refl, refl)

  pub value_start :
      (v : Value D) (level : ℕ)
      → IsWritable strtod v
      → (c : ℕ) × (t : List ℕ) × (w_value printing pretty level v ≡ c ∷ t) × (starts c ≡ true)
  unfolding w_value IsWritable w_number w_string
  value_start Value.null level w = (_, _, refl, refl)
  value_start (Value.boolean true) level w = (_, _, refl, refl)
  value_start (Value.boolean false) level w = (_, _, refl, refl)
  value_start (Value.number n) level w =
      let (c, t, e, k) = number_start n.i w.small in (c, t, rw (w_number, w.int) e, k)
  value_start (Value.string s) level w = (_, _, refl, refl)
  value_start (Value.array Items.nil) level w = (_, _, refl, refl)
  value_start (Value.array (Items.cons x xs)) level w = (_, _, refl, refl)
  value_start (Value.object Members.end) level w = (_, _, refl, refl)
  value_start (Value.object (Members.member k x ms)) level w = (_, _, refl, refl)
