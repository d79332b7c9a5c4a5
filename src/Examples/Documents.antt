-- ===== src/Examples/Documents.antt =====
-- JSON values and texts at concrete inputs.
use asterism_asper.Base.{
  ℕ, ◌≡◌, ◌≤◌, refl, true, false, List, [], ◌∷◌, ◌++◌, Option, some, arith, if◌then◌else◌, drop,
  IsBytes,
}
use asterism_asper.Base.Text.{codes, str_eq}
use asterism_asper.Json.Text.{utf8_valid, valid_loop, utf8_seq, p_string_raw, w_string}
use asterism_asper.Json.Text.RoundTrip.{p_string_raw-w_string}
use asterism_asper.Json.Value.{
  Number, Value, Items, Members, jx_object_set, jx_object_get, jx_clone, obj_put, obj_get,
}
use asterism_asper.Base.Int.{negsuc}
use asterism_asper.Json.Parse.{p_number}
use asterism_asper.Json.Write.{print_int, digits_before}
use asterism_asper.Json.Numbers.{IsReadable, p_number-print_int}
use asterism_asper.Json.Parse.{jx_parse}
use asterism_asper.Json.Write.{Printing, jx_write}
use asterism_asper.Json.Writable.{IsWritable, height}
use asterism_asper.Json.RoundTrip.{jx_parse-jx_write}
use asterism_asper.Json.Value.Laws.{jx_object_get-jx_object_set, jx_clone_lem, IsDistinct}

-- A quote, a newline, the unit separator, and a letter of two bytes.
abbrev mixed : List ℕ
mixed = 0x22 ∷ 0x0a ∷ 0x1f ∷ 0xc3 ∷ 0xa9 ∷ []

mixed-IsBytes : IsBytes mixed
mixed-IsBytes = omega arith

mixed_valid : utf8_valid mixed ≡ true
unfolding utf8_valid valid_loop utf8_seq
mixed_valid = refl

p_string_raw-w_string_example :
    p_string_raw (drop 1 (w_string mixed ++ codes ", 1]")) ≡ some (mixed, codes ", 1]")
p_string_raw-w_string_example = p_string_raw-w_string mixed (codes ", 1]") mixed-IsBytes mixed_valid

abbrev flag : Value ℕ
flag = Value.object (Members.member (codes "locked") (Value.boolean false) Members.end)

abbrev raised : Value ℕ
raised = Value.object (Members.member (codes "locked") (Value.boolean true) Members.end)

raised_lem : jx_object_set flag (codes "locked") (Value.boolean true) ≡ some raised
unfolding obj_put str_eq
raised_lem = refl

jx_object_get-jx_object_set_example : jx_object_get raised (codes "id") ≡ (
    if str_eq (codes "locked") (codes "id")
    then some (Value.boolean true)
    else jx_object_get flag (codes "id"))
jx_object_get-jx_object_set_example =
    jx_object_get-jx_object_set flag raised (Value.boolean true) (codes "locked") (codes "id")
      raised_lem

raised-IsDistinct : IsDistinct raised
unfolding IsDistinct obj_get
raised-IsDistinct = (refl, tt, tt)

jx_clone_lem_example : jx_clone raised ≡ raised
jx_clone_lem_example = jx_clone_lem raised raised-IsDistinct

-- The texts stand for the doubles themselves.
abbrev as_text : List ℕ → Option (List ℕ)
as_text s = some s

abbrev minus_twenty : Number (List ℕ)
minus_twenty = record { d = codes "-20"; i = negsuc 19; is_int = true }

minus_twenty-IsReadable : IsReadable as_text minus_twenty
unfolding print_int digits_before
minus_twenty-IsReadable = record { int = refl; small = omega arith; double = refl }

p_number-print_int_example :
    p_number as_text (print_int (negsuc 19) ++ codes ", 1]") ≡ some (minus_twenty, codes ", 1]")
p_number-print_int_example =
    p_number-print_int as_text minus_twenty (codes ", 1]") minus_twenty-IsReadable refl

abbrev printed : Printing (List ℕ)
printed = record { short = λ d. d; long = λ d. d; reads_as = λ s d. true }

-- `{"n": [-20, true], "s": "..."}`
abbrev settings : Value (List ℕ)
settings = Value.object (
    Members.member (codes "n")
      (Value.array
        (Items.cons (Value.number minus_twenty) (Items.cons (Value.boolean true) Items.nil)))
      (Members.member (codes "s") (Value.string mixed) Members.end))

settings-IsWritable : IsWritable as_text settings
unfolding IsWritable obj_get utf8_valid valid_loop utf8_seq str_eq
settings-IsWritable = (
  omega arith,
  refl,
  refl,
  (minus_twenty-IsReadable, (tt, tt)),
  (omega arith, refl, refl, (mixed-IsBytes, refl), tt),
)

settings_low : height settings ≤ 64
unfolding height
settings_low = omega arith

jx_parse-jx_write_example : jx_parse as_text (jx_write printed settings true) ≡ some settings
jx_parse-jx_write_example =
    jx_parse-jx_write as_text printed true settings settings-IsWritable settings_low
