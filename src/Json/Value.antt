-- ===== src/Json/Value.antt =====
-- The values of mcp/json.c and the operations on them, where memory lasts.
pub mod Laws
use asterism_asper.Base.{
  ℕ, zero, suc, ◌+◌, Bool, true, false, ◌&&◌, List, [], ◌∷◌, ◌++◌, Option, none, some,
  if◌then◌else◌, length, take,
}
use asterism_asper.Base.Int.{ℤ, pos}
use asterism_asper.Base.Maybe.{◌>>=◌}
use asterism_asper.Base.Text.{str_eq}
use asterism_asper.Json.Text.{utf8_valid}

-- `u.num`. `D` stands for the doubles.
pub record Number (D : Type 0) : Type 0 where
  pub d : D
  pub i : ℤ
  pub is_int : Bool

-- What the code asks of the doubles: `(double)i`, `(long long)d`, `isfinite` and `0.0`.
pub record Casts (D : Type 0) : Type 0 where
  pub of_int : ℤ → D
  pub to_int : D → ℤ
  pub is_finite : D → Bool
  pub zero_double : D

-- `jx_value`, with the items of an array and the members of an object in their order.
mutual
  pub data Value (D : Type 0) : Type 0 where
    null : Value D
    boolean : Bool → Value D
    number : Number D → Value D
    string : List ℕ → Value D
    array : Items D → Value D
    object : Members D → Value D

  pub data Items (D : Type 0) : Type 0 where
    nil : Items D
    cons : Value D → Items D → Items D

  pub data Members (D : Type 0) : Type 0 where
    end : Members D
    member : List ℕ → Value D → Members D → Members D

pub data JxType : Type 0 where
  null boolean number string array object : JxType

module _ {D : Type 0} where
  -- A null pointer is `none`.
  abbrev pub jx_typeof : Option (Value D) → JxType
  jx_typeof none = JxType.null
  jx_typeof (some Value.null) = JxType.null
  jx_typeof (some (Value.boolean b)) = JxType.boolean
  jx_typeof (some (Value.number n)) = JxType.number
  jx_typeof (some (Value.string s)) = JxType.string
  jx_typeof (some (Value.array xs)) = JxType.array
  jx_typeof (some (Value.object ms)) = JxType.object

  abbrev pub jx_int : Casts D → ℤ → Value D
  jx_int ops i = Value.number (record { d = ops.of_int i; i = i; is_int = true })

  abbrev pub jx_double : Casts D → D → Option (Value D)
  jx_double ops d =
      if ops.is_finite d
      then some (Value.number (record { d = d; i = pos 0; is_int = false }))
      else none

  abbrev pub jx_string : List ℕ → Option (Value D)
  jx_string utf8 = if utf8_valid utf8 then some (Value.string utf8) else none

  abbrev pub jx_bool_value : Value D → Bool
  jx_bool_value (Value.boolean b) = b
  jx_bool_value _ = false

  abbrev pub jx_is_int : Value D → Bool
  jx_is_int (Value.number n) = n.is_int
  jx_is_int _ = false

  abbrev pub jx_int_value : Casts D → Value D → ℤ
  jx_int_value ops (Value.number n) = if n.is_int then n.i else ops.to_int n.d
  jx_int_value ops _ = pos 0

  abbrev pub jx_double_value : Casts D → Value D → D
  jx_double_value ops (Value.number n) = n.d
  jx_double_value ops _ = ops.zero_double

  abbrev pub jx_string_value : Value D → Option (List ℕ)
  jx_string_value (Value.string s) = some s
  jx_string_value _ = none

  abbrev pub jx_string_length : Value D → ℕ
  jx_string_length (Value.string s) = length s
  jx_string_length _ = 0

  unfoldable pub items_push : Items D → Value D → Items D
  items_push Items.nil v = Items.cons v Items.nil
  items_push (Items.cons x xs) v = Items.cons x (items_push xs v)

  unfoldable pub items_len : Items D → ℕ
  items_len Items.nil = 0
  items_len (Items.cons x xs) = suc (items_len xs)

  unfoldable pub items_at : Items D → ℕ → Option (Value D)
  items_at Items.nil i = none
  items_at (Items.cons x xs) zero = some x
  items_at (Items.cons x xs) (suc i) = items_at xs i

  -- `none` is the result -1.
  abbrev pub jx_array_push : Value D → Value D → Option (Value D)
  jx_array_push (Value.array xs) v = some (Value.array (items_push xs v))
  jx_array_push _ v = none

  abbrev pub jx_array_len : Value D → ℕ
  jx_array_len (Value.array xs) = items_len xs
  jx_array_len _ = 0

  abbrev pub jx_array_at : Value D → ℕ → Option (Value D)
  jx_array_at (Value.array xs) i = items_at xs i
  jx_array_at _ i = none

  -- The value of a key that is there is replaced, a new key stands last.
  unfoldable pub obj_put : Members D → List ℕ → Value D → Members D
  obj_put Members.end key v = Members.member key v Members.end
  obj_put (Members.member k x ms) key v =
      let rest = obj_put ms key v in
      if str_eq k key then Members.member k v ms else Members.member k x rest

  unfoldable pub obj_get : Members D → List ℕ → Option (Value D)
  obj_get Members.end key = none
  obj_get (Members.member k x ms) key =
      let rest = obj_get ms key in if str_eq k key then some x else rest

  unfoldable pub obj_count : Members D → ℕ
  obj_count Members.end = 0
  obj_count (Members.member k x ms) = suc (obj_count ms)

  unfoldable pub member_at : Members D → ℕ → Option (List ℕ × Value D)
  member_at Members.end i = none
  member_at (Members.member k x ms) zero = some (k, x)
  member_at (Members.member k x ms) (suc i) = member_at ms i

  abbrev pub jx_object_set : Value D → List ℕ → Value D → Option (Value D)
  jx_object_set (Value.object ms) key v = some (Value.object (obj_put ms key v))
  jx_object_set _ key v = none

  abbrev pub jx_object_get : Value D → List ℕ → Option (Value D)
  jx_object_get (Value.object ms) key = obj_get ms key
  jx_object_get _ key = none

  abbrev pub jx_object_count : Value D → ℕ
  jx_object_count (Value.object ms) = obj_count ms
  jx_object_count _ = 0

  abbrev pub jx_object_at : Value D → ℕ → Option (List ℕ × Value D)
  jx_object_at (Value.object ms) i = member_at ms i
  jx_object_at _ i = none

-- `jx_clone`: arrays are pushed and objects are set, member by member.
unfoldable mutual
  pub jx_clone : {D : Type 0} → Value D → Value D
  jx_clone Value.null = Value.null
  jx_clone (Value.boolean b) = Value.boolean b
  jx_clone (Value.number n) = Value.number n
  jx_clone (Value.string s) = Value.string s
  jx_clone (Value.array xs) = Value.array (clone_items Items.nil xs)
  jx_clone (Value.object ms) = Value.object (clone_members Members.end ms)

  pub clone_items : {D : Type 0} → Items D → Items D → Items D
  clone_items acc Items.nil = acc
  clone_items acc (Items.cons x xs) = clone_items (items_push acc (jx_clone x)) xs

  pub clone_members : {D : Type 0} → Members D → Members D → Members D
  clone_members acc Members.end = acc
  clone_members acc (Members.member k x ms) = clone_members (obj_put acc k (jx_clone x)) ms
