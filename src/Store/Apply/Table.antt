-- ===== src/Store/Apply/Table.antt =====
-- The record table of src/record_table.c as what the operations of src/store.c use of a table.
use asterism_asper.Base.{
  ℕ, ◌≡◌, refl, sym, ap, ◌∙◌, true, List, Option, some, if◌then◌else◌, Bool-cases, Result-cases,
  inl, inr, Result, ok, err, some_inj, ok_inj,
}
use asterism_asper.Base.Text.{str_eq, str_eq→≡, str_eq_refl}
use asterism_asper.Record.{Record}
use asterism_asper.RecordTable.{Table, table_get, table_add, table_write}
use asterism_asper.RecordTable.Find.{IsValid, table_get-hit, table_get-miss, id-cases}
use asterism_asper.RecordTable.Add.{table_add_lem}
use asterism_asper.RecordTable.Write.{table_write_lem, table_write-missing}
use asterism_asper.Store.Apply.{TableOps}

-- A table that is valid.
pub record ValidTable (D : Type 0) : Type 0 where
  pub table : Table D
  pub valid : IsValid table

str_eq_sym : (a b : List ℕ) → str_eq a b ≡ str_eq b a
str_eq_sym a b = elim (Bool-cases (str_eq a b)) [
  | inl same ↦ rw (str_eq→≡ a b same) refl
  | inr other ↦ elim (Bool-cases (str_eq b a)) [
    | inl same ↦ rw (str_eq→≡ b a same) refl
    | inr too ↦ other ∙ sym too
  ]
]

module _ {D : Type 0} where
  abbrev pub valid_get : ValidTable D → List ℕ → Option (Record D)
  valid_get t id = table_get t.table id

  add_result : Result (Unit {0}) → ValidTable D → Result (ValidTable D)
  add_result (ok done) t = ok t
  add_result (err code) t = err code

  -- `asper_table_add` where memory lasts: a call that fails leaves the table as it was.
  pub valid_add : ValidTable D → Record D → Result (ValidTable D)
  valid_add t r = add_result (table_add true true t.table r).0 (record {
    table = (table_add true true t.table r).1;
    valid = (table_add_lem true true t.table r r.id t.valid).0;
  })

  -- The callers change no id, and another change is not carried out.
  kept_write : Table D → List ℕ → Record D → Table D
  kept_write t id r = if str_eq r.id id then table_write t id r else t

  kept_write-IsValid :
      (t : Table D) (id : List ℕ) (r : Record D) → IsValid t → IsValid (kept_write t id r)
  unfolding kept_write
  kept_write-IsValid t id r v = elim (Bool-cases (str_eq r.id id)) [
    | inr other ↦ rw other v
    | inl same ↦ elim (id-cases t v id) [
      | inl (i, x, found, there, own) ↦
          rw same
            (table_write_lem t id x r v (table_get-hit t v id i x there own)
              (str_eq→≡ r.id id same)).0
      | inr (missing, none_has) ↦ rw (same, table_write-missing t id r missing) v
    ]
  ]

  pub valid_write : ValidTable D → List ℕ → Record D → ValidTable D
  valid_write t id r = record {
    table = kept_write t.table id r;
    valid = kept_write-IsValid t.table id r t.valid;
  }

  pub valid_get-id :
      (t : ValidTable D) (id : List ℕ) (r : Record D) → valid_get t id ≡ some r → r.id ≡ id
  valid_get-id t id r e = elim (id-cases t.table t.valid id) [
    | inl (i, x, found, there, own) ↦
        ap (λ (y : Record D). y.id)
          (some_inj (sym e ∙ table_get-hit t.table t.valid id i x there own))
        ∙ own
    | inr (missing, none_has) ↦ absurd (cc (sym (table_get-miss t.table t.valid id none_has) ∙ e))
  ]

  pub valid_get-write :
      (t : ValidTable D) (id q : List ℕ) (old r : Record D)
      → valid_get t id ≡ some old
      → r.id ≡ id
      → valid_get (valid_write t id r) q ≡ (if str_eq q id then some r else valid_get t q)
  unfolding valid_write kept_write
  valid_get-write t id q old r e k =
      let same : str_eq r.id id ≡ true = rw k (str_eq_refl id) in
      rw same ((table_write_lem t.table id old r t.valid e k).1 q)

  pub valid_get-add :
      (t t' : ValidTable D) (r : Record D) (q : List ℕ)
      → valid_add t r ≡ ok t'
      → valid_get t' q ≡ (if str_eq q r.id then some r else valid_get t q)
  unfolding valid_add add_result
  valid_get-add t t' r q e =
      let found = (table_add_lem true true t.table r q t.valid).1 in
      elim (Result-cases (table_add true true t.table r).0) [
        | inl (code, bad) ↦ absurd (cc (rw bad at e))
        | inr (done, good) ↦
            ap (λ (u : ValidTable D). valid_get u q) (sym (ok_inj (rw good at e)))
            ∙ found
            ∙ rw (good, str_eq_sym q r.id) refl
      ]

  -- The program's own table keeps the laws that the operations rely on.
  abbrev pub table_ops : TableOps D (ValidTable D)
  table_ops = record {
    get = valid_get;
    add = valid_add;
    write = valid_write;
    get-id = valid_get-id;
    get-write = valid_get-write;
    get-add = valid_get-add;
  }
