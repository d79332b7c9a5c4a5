-- ===== src/Json/Write.antt =====
-- The writer of mcp/json.c.
use asterism_asper.Base.{
  ℕ, zero, suc, ◌+◌, ◌/◌, ◌%◌, Bool, true, false, List, [], ◌∷◌, ◌++◌, ltb, if◌then◌else◌,
}
use asterism_asper.Base.Int.{ℤ, pos, negsuc}
use asterism_asper.Base.Text.{codes}
use asterism_asper.Json.Text.{w_string}
use asterism_asper.Json.Value.{Value, Items, Members, Number}

-- The digits of a number before those in `acc`, and `%lld`. Twenty digits hold every 64-bit value.
unfoldable pub digits_before : ℕ → ℕ → List ℕ → List ℕ
digits_before zero n acc = acc
digits_before (suc rounds) n acc = elim (ltb n 10) [
  | true ↦ (0x30 + n) ∷ acc
  | false ↦ digits_before rounds (n / 10) ((0x30 + n % 10) ∷ acc)
]

unfoldable pub print_int : ℤ → List ℕ
print_int (pos n) = digits_before 20 n []
print_int (negsuc n) = 0x2d ∷ digits_before 20 (suc n) []

-- What the code asks of doubles as text: `%.15g`, `%.17g`, and whether `strtod` reads a text as the
-- double.
pub record Printing (D : Type 0) : Type 0 where
  pub short : D → List ℕ
  pub long : D → List ℕ
  pub reads_as : List ℕ → D → Bool

module _ {D : Type 0} (printing : Printing D) where
  unfoldable pub w_number : Number D → List ℕ
  w_number n =
      if n.is_int
      then print_int n.i
      else if printing.reads_as (printing.short n.d) n.d
      then printing.short n.d
      else printing.long n.d

unfoldable pub indents : ℕ → List ℕ
indents zero = []
indents (suc level) = 0x20 ∷ 0x20 ∷ indents level

abbrev pub w_nl_indent : Bool → ℕ → List ℕ
w_nl_indent pretty level = if pretty then 0x0a ∷ indents level else []

unfoldable mutual
  pub w_value : {D : Type 0} → Printing D → Bool → ℕ → Value D → List ℕ
  w_value printing pretty level Value.null = codes "null"
  w_value printing pretty level (Value.boolean b) = if b then codes "true" else codes "false"
  w_value printing pretty level (Value.number n) = w_number printing n
  w_value printing pretty level (Value.string s) = w_string s
  w_value printing pretty level (Value.array Items.nil) = codes "[]"
  w_value printing pretty level (Value.array (Items.cons x xs)) =
      0x5b
      ∷ (w_nl_indent pretty (suc level)
          ++ (w_value printing pretty (suc level) x ++ w_items printing pretty level xs))
  w_value printing pretty level (Value.object Members.end) = codes "{}"
  w_value printing pretty level (Value.object (Members.member k x ms)) =
      0x7b
      ∷ (w_nl_indent pretty (suc level)
          ++ (w_string k
              ++ ((if pretty then 0x3a ∷ 0x20 ∷ [] else 0x3a ∷ [])
                  ++ (w_value printing pretty (suc level) x
                      ++ w_members printing pretty level ms))))

  -- The items behind the first, and the end of the array.
  pub w_items : {D : Type 0} → Printing D → Bool → ℕ → Items D → List ℕ
  w_items printing pretty level Items.nil = w_nl_indent pretty level ++ (0x5d ∷ [])
  w_items printing pretty level (Items.cons x xs) =
      0x2c
      ∷ (w_nl_indent pretty (suc level)
          ++ (w_value printing pretty (suc level) x ++ w_items printing pretty level xs))

  -- The members behind the first, and the end of the object.
  pub w_members : {D : Type 0} → Printing D → Bool → ℕ → Members D → List ℕ
  w_members printing pretty level Members.end = w_nl_indent pretty level ++ (0x7d ∷ [])
  w_members printing pretty level (Members.member k x ms) =
      0x2c
      ∷ (w_nl_indent pretty (suc level)
          ++ (w_string k
              ++ ((if pretty then 0x3a ∷ 0x20 ∷ [] else 0x3a ∷ [])
                  ++ (w_value printing pretty (suc level) x
                      ++ w_members printing pretty level ms))))

-- `jx_write`.
abbrev pub jx_write : {D : Type 0} → Printing D → Value D → Bool → List ℕ
jx_write printing v pretty = w_value printing pretty 0 v
