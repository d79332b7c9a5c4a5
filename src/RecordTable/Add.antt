-- ===== src/RecordTable/Add.antt =====
-- Adding a record to the table, `asper_table_add` of src/record_table.c.
use asterism_asper.Base.{
  ℕ, ◌≡◌, refl, sym, ◌∙◌, subst, Bool, ◌&&◌, List, [], ◌∷◌, ◌++◌, some, if◌then◌else◌, length,
  get_elem?, arith, Bool-cases, inl, inr, get_elem?-lt, get_elem?-snoc, Result, is_ok,
}
use mathlib.Core.Bool.{false≢true}
use asterism_asper.Base.Text.{str_eq, str_eq→≡, str_eq_refl}
use asterism_asper.Record.{Record}
use asterism_asper.RecordTable.{Table, table_get, table_add}
use asterism_asper.RecordTable.Append.{Outcome, snoc-cases, table_add-Outcome}
use asterism_asper.RecordTable.Find.{IsValid, table_get-hit, table_get-miss, id-cases}

module _ {D : Type 0} where
  IsValid-same : (t u : Table D) → u.recs ≡ t.recs → u.idmap ≡ t.idmap → IsValid t → IsValid u
  IsValid-same t u e k v = record {
    small = rw e v.small;
    named = rw e v.named;
    distinct = rw e v.distinct;
    mapped = λ m has. rw e (v.mapped m (sym k ∙ has));
  }

  -- What a table answers depends on its records only.
  table_get-same :
      (t u : Table D) (id : List ℕ)
      → IsValid t
      → IsValid u
      → u.recs ≡ t.recs
      → table_get u id ≡ table_get t id
  table_get-same t u id v w e = elim (id-cases t v id) [
    | inl (i, q, found, there, same) ↦
        table_get-hit u w id i q (rw e there) same ∙ sym (table_get-hit t v id i q there same)
    | inr (missing, none_has) ↦
        table_get-miss u w id (rw e none_has) ∙ sym (table_get-miss t v id none_has)
  ]

  table_get-snoc :
      (t u : Table D) (r : Record D) (id : List ℕ)
      → IsValid t
      → IsValid u
      → u.recs ≡ t.recs ++ r ∷ []
      → table_get u id ≡ (if str_eq r.id id then some r else table_get t id)
  table_get-snoc t u r id v w e =
      let last : get_elem? u.recs (length t.recs) ≡ some r =
        rw e (ground (arith, get_elem?-snoc t.recs r (length t.recs))) in
      elim (Bool-cases (str_eq r.id id)) [
        | inl same ↦
            table_get-hit u w id (length t.recs) r last (str_eq→≡ r.id id same) ∙ rw same refl
        | inr other ↦ elim (id-cases t v id) [
          | inl (i, q, found, there, same) ↦
              rw (other, table_get-hit t v id i q there same)
                (table_get-hit u w id i q
                  (rw e (
                    ground
                      (arith, get_elem?-snoc t.recs r i, get_elem?-lt t.recs i q there, there)))
                  same)
          | inr (missing, none_has) ↦
              rw (other, table_get-miss t v id none_has)
                (table_get-miss u w id λ i q k same.
                  elim (snoc-cases t.recs r q i (subst (λ x. get_elem? x i ≡ some q) e k)) [
                    | inl (at, own) ↦ false≢true (sym other ∙ rw (sym same, own) (str_eq_refl r.id))
                    | inr old ↦ none_has i q old same
                  ])
        ]
      ]

  answered :
      (t u : Table D) (r : Record D) (out : Result (Unit {0})) (id : List ℕ)
      → IsValid t
      → Outcome t r (out, u)
      → IsValid u
        × (table_get u id ≡ (if is_ok out && str_eq r.id id then some r else table_get t id))
  answered t u r out id v (inl (e, bad, recs, map')) =
      let w = IsValid-same t u recs map' v in (w, rw bad (table_get-same t u id v w recs))
  answered t u r out id v (inr (good, recs, w)) = (w, rw good (table_get-snoc t u r id v w recs))

  -- Adding a record keeps a table valid, and answers success exactly where it stores the record:
  -- then its id answers the record. Every other id answers as before, and every id where the call
  -- fails.
  pub table_add_lem :
      (granted mapped : Bool) (t : Table D) (r : Record D) (id : List ℕ)
      → IsValid t
      → let (out, t') = table_add granted mapped t r in
        IsValid t'
        × (table_get t' id ≡ (if is_ok out && str_eq r.id id then some r else table_get t id))
  table_add_lem granted mapped t r id v =
      answered t (table_add granted mapped t r).1 r (table_add granted mapped t r).0 id v
        (table_add-Outcome granted mapped t r v)
