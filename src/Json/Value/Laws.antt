-- ===== src/Json/Value/Laws.antt =====
-- Objects as maps, arrays as sequences, and clones.
use mathlib.Core.Bool.{false≢true}
use mathlib.Core.Option.{some-ne-none}
use asterism_asper.Base.{
  ℕ, ◌≡◌, refl, sym, ap, ◌∙◌, subst, true, false, List, none, some, if◌then◌else◌, some_inj,
  Bool-cases, inl, inr, ◌⊎◌,
}
use asterism_asper.Base.Text.{str_eq, str_eq→≡, str_eq_refl}
use asterism_asper.Json.Value.{
  Value, Items, Members, items_push, obj_put, obj_get, jx_object_set, jx_object_get, jx_clone,
  clone_items, clone_members,
}

other_key : (k key q : List ℕ) → str_eq k key ≡ false → str_eq k q ≡ true → str_eq key q ≡ false
other_key k key q other here = elim (Bool-cases (str_eq key q)) [
  | inl same ↦
      let eq : k ≡ key = str_eq→≡ k q here ∙ sym (str_eq→≡ key q same) in
      absurd (false≢true (sym other ∙ rw eq (str_eq_refl key)))
  | inr apart ↦ apart
]

module _ {D : Type 0} where
  obj_get-obj_put :
      (ms : Members D) (key q : List ℕ) (v : Value D)
      → obj_get (obj_put ms key v) q ≡ (if str_eq key q then some v else obj_get ms q)
  unfolding obj_get obj_put
  obj_get-obj_put Members.end key q v = refl
  obj_get-obj_put (Members.member k x ms) key q v = elim (Bool-cases (str_eq k key)) [
    | inl same ↦
        rw (obj_put, same, sym (str_eq→≡ k key same))
          (elim (Bool-cases (str_eq k q)) [
            | inl here ↦ rw (obj_get, here) refl
            | inr there ↦ rw (obj_get, there) refl
          ])
    | inr other ↦ elim (Bool-cases (str_eq k q)) [
      | inl here ↦
          let apart : str_eq key q ≡ false = other_key k key q other here in
          rw (obj_put, other, obj_get, here, apart) refl
      | inr there ↦ rw (obj_put, other, obj_get, there) (obj_get-obj_put ms key q v)
    ]
  ]

  -- After a member is set, its key answers the new value and every other key answers as before.
  pub jx_object_get-jx_object_set :
      (obj obj' v : Value D) (key q : List ℕ)
      → jx_object_set obj key v ≡ some obj'
      → jx_object_get obj' q ≡ (if str_eq key q then some v else jx_object_get obj q)
  jx_object_get-jx_object_set (Value.object ms) obj' v key q e =
      subst (λ o. jx_object_get o q ≡ (if str_eq key q then some v else obj_get ms q)) (some_inj e)
        (obj_get-obj_put ms key q v)
  jx_object_get-jx_object_set Value.null obj' v key q e = cc
  jx_object_get-jx_object_set (Value.boolean b) obj' v key q e = cc
  jx_object_get-jx_object_set (Value.number n) obj' v key q e = cc
  jx_object_get-jx_object_set (Value.string s) obj' v key q e = cc
  jx_object_get-jx_object_set (Value.array xs) obj' v key q e = cc

  unfoldable pub items_append : Items D → Items D → Items D
  items_append Items.nil ys = ys
  items_append (Items.cons x xs) ys = Items.cons x (items_append xs ys)

  unfoldable pub members_append : Members D → Members D → Members D
  members_append Members.end ns = ns
  members_append (Members.member k x ms) ns = Members.member k x (members_append ms ns)

  pub items_append-nil : (xs : Items D) → items_append xs Items.nil ≡ xs
  unfolding items_append
  items_append-nil Items.nil = refl
  items_append-nil (Items.cons x xs) = ap (λ t. Items.cons x t) (items_append-nil xs)

  pub members_append-end : (ms : Members D) → members_append ms Members.end ≡ ms
  unfolding members_append
  members_append-end Members.end = refl
  members_append-end (Members.member k x ms) =
      ap (λ t. Members.member k x t) (members_append-end ms)

  pub items_append-push :
      (xs ys : Items D) (v : Value D)
      → items_append (items_push xs v) ys ≡ items_append xs (Items.cons v ys)
  unfolding items_append items_push
  items_append-push Items.nil ys v = refl
  items_append-push (Items.cons x xs) ys v = ap (λ t. Items.cons x t) (items_append-push xs ys v)

  -- A member of a new key stands last.
  pub members_append-put :
      (ms ns : Members D) (key : List ℕ) (v : Value D)
      → obj_get ms key ≡ none
      → members_append (obj_put ms key v) ns ≡ members_append ms (Members.member key v ns)
  unfolding members_append obj_put obj_get
  members_append-put Members.end ns key v e = refl
  members_append-put (Members.member k x ms) ns key v e = elim (Bool-cases (str_eq k key)) [
    | inl same ↦ absurd (some-ne-none x (sym (rw (obj_get, same) refl) ∙ e))
    | inr other ↦
        let rest : obj_get ms key ≡ none = sym (rw (obj_get, other) refl) ∙ e in
        rw (obj_put, other) (ap (λ t. Members.member k x t) (members_append-put ms ns key v rest))
  ]

-- No object of the value has a key twice.
unfoldable mutual
  pub IsDistinct : {D : Type 0} → Value D → Type 0
  IsDistinct Value.null = Unit
  IsDistinct (Value.boolean b) = Unit
  IsDistinct (Value.number n) = Unit
  IsDistinct (Value.string s) = Unit
  IsDistinct (Value.array xs) = AreDistinct xs
  IsDistinct (Value.object ms) = HasDistinct ms

  pub AreDistinct : {D : Type 0} → Items D → Type 0
  AreDistinct Items.nil = Unit
  AreDistinct (Items.cons x xs) = IsDistinct x × AreDistinct xs

  pub HasDistinct : {D : Type 0} → Members D → Type 0
  HasDistinct Members.end = Unit
  HasDistinct (Members.member k x ms) = (obj_get ms k ≡ none) × IsDistinct x × HasDistinct ms

-- No key of the one stands in the other.
abbrev pub Apart : {D : Type 0} → Members D → Members D → Type 0
Apart ms ns = (q : List ℕ) → (obj_get ms q ≡ none) ⊎ (obj_get ns q ≡ none)

module _ {D : Type 0} where
  pub Apart-put :
      (acc ms : Members D) (k : List ℕ) (x : Value D)
      → Apart acc (Members.member k x ms)
      → obj_get ms k ≡ none
      → Apart (obj_put acc k x) ms
  unfolding obj_get
  Apart-put acc ms k x a e q = elim (Bool-cases (str_eq k q)) [
    | inl same ↦ inr (subst (λ t. obj_get ms t ≡ none) (str_eq→≡ k q same) e)
    | inr other ↦ elim (a q) [
      | inl left ↦ inl (obj_get-obj_put acc k q x ∙ rw other left)
      | inr right ↦ inr (sym (rw (obj_get, other) refl) ∙ right)
    ]
  ]

  pub Apart-new :
      (acc ms : Members D) (k : List ℕ) (x : Value D)
      → Apart acc (Members.member k x ms)
      → obj_get acc k ≡ none
  unfolding obj_get
  Apart-new acc ms k x a = elim (a k) [
    | inl left ↦ left
    | inr right ↦ absurd (some-ne-none x (sym (rw (obj_get, str_eq_refl k) refl) ∙ right))
  ]

pub Apart-end : {D : Type 0} (ms : Members D) → Apart Members.end ms
unfolding obj_get
Apart-end ms q = inl refl

mutual
  unfolding jx_clone IsDistinct items_append members_append

  clone_value_lem : {D : Type 0} (v : Value D) → IsDistinct v → jx_clone v ≡ v
  clone_value_lem Value.null d = refl
  clone_value_lem (Value.boolean b) d = refl
  clone_value_lem (Value.number n) d = refl
  clone_value_lem (Value.string s) d = refl
  clone_value_lem (Value.array xs) d = ap (λ t. Value.array t) (clone_items_lem Items.nil xs d)
  clone_value_lem (Value.object ms) d =
      ap (λ t. Value.object t) (clone_members_lem Members.end ms d (Apart-end ms))

  clone_items_lem :
      {D : Type 0} (acc xs : Items D) → AreDistinct xs → clone_items acc xs ≡ items_append acc xs
  clone_items_lem acc Items.nil d = sym (items_append-nil acc)
  clone_items_lem acc (Items.cons x xs) (d, ds) =
      clone_items_lem (items_push acc (jx_clone x)) xs ds
      ∙ items_append-push acc xs (jx_clone x)
      ∙ ap (λ t. items_append acc (Items.cons t xs)) (clone_value_lem x d)

  clone_members_lem :
      {D : Type 0} (acc ms : Members D)
      → HasDistinct ms
      → Apart acc ms
      → clone_members acc ms ≡ members_append acc ms
  clone_members_lem acc Members.end d a = sym (members_append-end acc)
  clone_members_lem acc (Members.member k x ms) (new, d, ds) a =
      ap (λ t. clone_members (obj_put acc k t) ms) (clone_value_lem x d)
      ∙ clone_members_lem (obj_put acc k x) ms ds (Apart-put acc ms k x a new)
      ∙ members_append-put acc ms k x (Apart-new acc ms k x a)

-- A clone of a value without a repeated key is the value.
pub jx_clone_lem : {D : Type 0} (v : Value D) → IsDistinct v → jx_clone v ≡ v
jx_clone_lem v d = clone_value_lem v d
