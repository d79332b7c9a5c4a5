-- ===== src/RecordTable/Remove.antt =====
-- Removing a record from the table, `asper_table_remove` of src/record_table.c.
use asterism_asper.Base.{
  ℕ, zero, suc, ◌-◌, ◌<◌, ◌≡◌, ◌≢◌, refl, sym, ap, ◌∙◌, subst, Bool, true, false, List, [], ◌∷◌,
  none, some, ltb, ◌==◌, if◌then◌else◌, length, get_elem?, arith, Bool-cases, inl, inr,
  get_elem?-lt, some_inj, ◌⊎◌,
}
use asterism_asper.Base.Text.{str_eq, str_eq→≡, str_eq_refl}
use asterism_asper.Record.{Record}
use asterism_asper.RecordTable.{IdMap, Table, table_get, table_remove, rehashed, without}
use asterism_asper.RecordTable.Map.{IsMap, rehashed-IsMap}
use asterism_asper.RecordTable.Find.{IsValid, table_get-hit, table_get-miss, id-cases}
use mathlib.Core.Bool.{false≢true}
use mathlib.Core.Option.{some-ne-none}

-- Where a record behind the removed one, or before it, stands afterwards.
abbrev moved : ℕ → ℕ → ℕ
moved i j = if ltb j i then j else j - 1

module _ {D : Type 0} where
  get_elem?-without :
      (recs : List (Record D)) (i j : ℕ)
      → get_elem? (without recs i) j ≡ get_elem? recs (if ltb j i then j else suc j)
  get_elem?-without [] zero j = ground arith
  get_elem?-without [] (suc i) j = ground arith
  get_elem?-without (x ∷ xs) zero j = ground arith
  get_elem?-without (x ∷ xs) (suc i) zero = ground arith
  get_elem?-without (x ∷ xs) (suc i) (suc j) = ground (arith, get_elem?-without xs i j)

  length-without :
      (recs : List (Record D)) (i : ℕ)
      → i < length recs
      → suc (length (without recs i)) ≡ length recs
  length-without [] i h = absurd (omega arith)
  length-without (x ∷ xs) zero h = refl
  length-without (x ∷ xs) (suc i) h = ap suc (length-without xs i (omega arith))

  get_elem?-moved :
      (recs : List (Record D)) (i j : ℕ)
      → j ≢ i
      → get_elem? (without recs i) (moved i j) ≡ get_elem? recs j
  get_elem?-moved recs i j h =
      get_elem?-without recs i (moved i j) ∙ ap (λ k. get_elem? recs k) (ground arith)

  module _ (t : Table D) (v : IsValid t) (i : ℕ) (r : Record D)
      (e : get_elem? t.recs i ≡ some r) where
    -- The table without the record is valid, whatever its map is, as long as that is of its records.
    without-IsValid :
        (u : Table D)
        → u.recs ≡ without t.recs i
        → ((m : IdMap) → u.idmap ≡ some m → IsMap u.recs (length u.recs) m)
        → IsValid u
    without-IsValid u eq w =
        let back : (j : ℕ) (a : Record D)
            → get_elem? u.recs j ≡ some a
            → get_elem? t.recs (if ltb j i then j else suc j) ≡ some a =
          λ j a k. sym (get_elem?-without t.recs i j) ∙ ap (λ x. get_elem? x j) (sym eq) ∙ k in
        let size = length-without t.recs i (get_elem?-lt t.recs i r e) in
        let size' : length u.recs ≡ length (without t.recs i) = ap (λ x. length x) eq in
        record {
          small = omega (arith, size, size', v.small);
          named = λ j a k. v.named (if ltb j i then j else suc j) a (back j a k);
          distinct = λ j k a b x y same.
              let one =
                v.distinct (if ltb j i then j else suc j) (if ltb k i then k else suc k) a b
                  (back j a x) (back k b y) same in
              ground (arith, one);
          mapped = w;
        }

    table_get-without :
        (u : Table D) (q : List ℕ)
        → IsValid u
        → u.recs ≡ without t.recs i
        → table_get u q ≡ (if str_eq r.id q then none else table_get t q)
    table_get-without u q w eq = elim (Bool-cases (str_eq r.id q)) [
      | inl same ↦
          table_get-miss u w q (λ j a k bad.
            let there = sym (get_elem?-without t.recs i j) ∙ ap (λ x. get_elem? x j) (sym eq) ∙ k in
            let one =
              v.distinct (if ltb j i then j else suc j) i a r there e
                (bad ∙ sym (str_eq→≡ r.id q same)) in
            ground (arith, one))
          ∙ rw same refl
      | inr other ↦ elim (id-cases t v q) [
        | inl (j, a, found, there, same) ↦
            rw (other, table_get-hit t v q j a there same)
              (table_get-hit u w q (moved i j) a
                (ap (λ x. get_elem? x (moved i j)) eq
                  ∙ get_elem?-moved t.recs i j (λ at.
                    let own : r ≡ a =
                      some_inj (sym e ∙ ap (λ k. get_elem? t.recs k) (sym at) ∙ there) in
                    false≢true (sym other ∙ rw (sym same, own) (str_eq_refl a.id)))
                  ∙ there)
                same)
        | inr (missing, none_has) ↦
            rw (other, table_get-miss t v q none_has)
              (table_get-miss u w q λ j a k.
                none_has (if ltb j i then j else suc j) a
                  (sym (get_elem?-without t.recs i j) ∙ ap (λ x. get_elem? x j) (sym eq) ∙ k))
      ]
    ]

  -- The table that a removal goes on with, `u` being the table without the record.
  abbrev settled : Bool → Table D → Table D
  settled mapped u =
      let n = length u.recs in
      if mapped then rehashed u (if n == 0 then 1 else n) else record u { idmap = none }

  settled-IsValid :
      (mapped : Bool) (t : Table D) (v : IsValid t) (i : ℕ) (r : Record D)
      → get_elem? t.recs i ≡ some r
      → (u : Table D) → u.recs ≡ without t.recs i
      → IsValid (settled mapped u) × ((settled mapped u).recs ≡ without t.recs i)
  settled-IsValid mapped t v i r e u is = elim (Bool-cases mapped) [
    | inl there ↦
        let size = length-without t.recs i (get_elem?-lt t.recs i r e) in
        let size' : length u.recs ≡ length (without t.recs i) = ap (λ x. length x) is in
        let (m, eq, w, room) =
          rehashed-IsMap u (if length u.recs == 0 then 1 else length u.recs) (ground arith)
            (ground (arith, size, size', v.small)) in
        rw (there, eq)
          (
            without-IsValid t v i r e (record u { idmap = some m }) is
                (λ m' h. subst (IsMap u.recs (length u.recs)) (some_inj h) w),
            is,
          )
    | inr missing ↦ rw missing (
      without-IsValid t v i r e (record u { idmap = none }) is
          (λ m h. absurd (some-ne-none m (sym h))),
      is,
    )
  ]

  -- Removing an id keeps a table valid, memory or not, and answers true exactly where the id was
  -- there. Afterwards the id answers nothing, and every other id answers as before.
  pub table_remove_lem :
      (mapped : Bool) (t : Table D) (id q : List ℕ)
      → IsValid t
      → let (out, t') = table_remove mapped t id in
        IsValid t'
        × (((out ≡ true) × (r : Record D) × (table_get t id ≡ some r))
            ⊎ ((out ≡ false) × (table_get t id ≡ none)))
        × (table_get t' q ≡ (if str_eq id q then none else table_get t q))
  unfolding table_remove
  table_remove_lem mapped t id q v = elim (id-cases t v id) [
    | inl (i, r, found, there, same) ↦
        let u : Table D = record t { recs = without t.recs i } in
        let (w, eq) = settled-IsValid mapped t v i r there u refl in
        rw (table_remove, found)
          (
            w,
            inl (refl, r, table_get-hit t v id i r there same),
            subst
                (λ x. table_get (settled mapped u) q ≡ (if str_eq x q then none else table_get t q))
                same (table_get-without t v i r there (settled mapped u) q w eq),
          )
    | inr (missing, none_has) ↦
        let gone = table_get-miss t v id none_has in
        rw (table_remove, missing)
          (
            v,
            inr (refl, gone),
            elim (Bool-cases (str_eq id q)) [
              | inl same ↦ rw (same, sym (str_eq→≡ id q same)) gone
              | inr other ↦ rw other refl
            ],
          )
  ]
