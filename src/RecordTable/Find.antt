-- ===== src/RecordTable/Find.antt =====
-- A lookup over the id map finds what a scan of the records finds.
use asterism_asper.Base.{
  ℕ, zero, suc, ◌≤◌, ◌<◌, ◌≡◌, ◌≢◌, refl, sym, ap, ◌∙◌, subst, true, false, ◌||◌, List, [], ◌∷◌,
  none, some, ltb, ◌==◌, length, get_or, get_elem?, arith, Bool-cases, Option-cases, inl, inr,
  get_elem?-lt, lt-get_elem?, some_inj, ◌⊎◌,
}
use mathlib.Core.Option.{some-ne-none}
use mathlib.Core.Bool.{false≢true}
use asterism_asper.Base.Text.{str_eq, str_eq→≡, str_eq_refl}
use asterism_asper.Record.{Record}
use asterism_asper.RecordTable.{
  record_limit, home, IdMap, Table, scan, find_slot, table_find, table_get,
}
use asterism_asper.RecordTable.Slots.{
  home-lt, cap_pos, walk, after, after-lt, next_slot-after, zero_or_suc,
}
use asterism_asper.RecordTable.Map.{IsMap}

module _ {D : Type 0} where
  -- The ids are not empty and differ from each other, and the map, if any, is of these records.
  pub record IsValid (t : Table D) : Type 0 where
    pub small : length t.recs ≤ record_limit
    pub named : (i : ℕ) (r : Record D) → get_elem? t.recs i ≡ some r → 0 < length r.id
    pub distinct :
        (i j : ℕ) (a b : Record D)
        → get_elem? t.recs i ≡ some a
        → get_elem? t.recs j ≡ some b
        → a.id ≡ b.id
        → i ≡ j
    pub mapped : (m : IdMap) → t.idmap ≡ some m → IsMap t.recs (length t.recs) m

  pub scan-some :
      (recs : List (Record D)) (id : List ℕ) (i : ℕ)
      → scan recs id ≡ some i
      → (r : Record D) × (get_elem? recs i ≡ some r) × (r.id ≡ id)
  unfolding scan
  scan-some [] id i e = cc
  scan-some (x ∷ xs) id i e = elim (Bool-cases (str_eq x.id id)) [
    | inl same ↦
        let here : i ≡ 0 = sym (some_inj (sym (rw (same, scan) refl) ∙ e)) in
        (x, rw here refl, str_eq→≡ x.id id same)
    | inr other ↦ elim (Option-cases (scan xs id)) [
      | inl missing ↦ absurd (some-ne-none i (sym e ∙ rw (other, scan, missing) refl))
      | inr (j, found) ↦
          let (r, there, same) = scan-some xs id j found in
          let here : i ≡ suc j = sym (some_inj (sym (rw (other, scan, found) refl) ∙ e)) in
          (r, rw here there, same)
    ]
  ]

  other_cons :
      (x : Record D) (xs : List (Record D)) (id : List ℕ)
      → str_eq x.id id ≡ false
      → ((i : ℕ) (r : Record D) → get_elem? xs i ≡ some r → r.id ≢ id)
      → (i : ℕ) (r : Record D) → get_elem? (x ∷ xs) i ≡ some r
      → r.id ≢ id
  other_cons x xs id other rest zero r k same =
      let eq : x.id ≡ id = ap (λ q. q.id) (some_inj k) ∙ same in
      false≢true (sym other ∙ rw eq (str_eq_refl id))
  other_cons x xs id other rest (suc i) r k same = rest i r k same

  pub scan-none :
      (recs : List (Record D)) (id : List ℕ)
      → scan recs id ≡ none
      → (i : ℕ) (r : Record D) → get_elem? recs i ≡ some r
      → r.id ≢ id
  unfolding scan
  scan-none [] id e i r k = cc
  scan-none (x ∷ xs) id e i r k = elim (Bool-cases (str_eq x.id id)) [
    | inl same ↦ absurd (some-ne-none 0 (sym (rw (same, scan) refl) ∙ e))
    | inr other ↦ elim (Option-cases (scan xs id)) [
      | inl missing ↦ other_cons x xs id other (scan-none xs id missing) i r k
      | inr (j, found) ↦ absurd (some-ne-none (suc j) (sym (rw (other, scan, found) refl) ∙ e))
    ]
  ]

  module _ (t : Table D) (v : IsValid t) where
    -- A record with the id is where the scan stops.
    pub scan_unique :
        (id : List ℕ) (i : ℕ) (r : Record D)
        → get_elem? t.recs i ≡ some r
        → r.id ≡ id
        → scan t.recs id ≡ some i
    scan_unique id i r e k = elim (Option-cases (scan t.recs id)) [
      | inl missing ↦ absurd (scan-none t.recs id missing i r e k)
      | inr (j, found) ↦
          let (q, there, same) = scan-some t.recs id j found in
          found ∙ ap some (v.distinct j i q r there e (same ∙ sym k))
    ]

    module _ (m : IdMap) (w : IsMap t.recs (length t.recs) m) (id : List ℕ) where
      find_slot-hit :
          (rounds pos k i : ℕ) (r : Record D)
          → get_elem? t.recs i ≡ some r
          → r.id ≡ id
          → pos < length m.slots
          → k < rounds
          → get_or m.slots (walk (length m.slots) k pos) 0 ≡ suc i
          → ((j : ℕ) → j < k → get_or m.slots (walk (length m.slots) j pos) 0 ≢ 0)
          → find_slot rounds t.recs m.slots id pos ≡ some i
      unfolding find_slot
      find_slot-hit zero pos k i r e same h l here passed = absurd (omega arith)
      find_slot-hit (suc rounds) pos zero i r e same h l here passed =
          let found : str_eq r.id id ≡ true = rw same (str_eq_refl id) in
          rw (here, find_slot, e, found) refl
      find_slot-hit (suc rounds) pos (suc k) i r e same h l here passed =
          elim (zero_or_suc (get_or m.slots pos 0)) [
            | inl z ↦ absurd (passed 0 (omega arith) z)
            | inr (p, u) ↦
                let (x, there) = lt-get_elem? t.recs p (w.sound pos p u) in
                elim (Bool-cases (str_eq x.id id)) [
                  | inl also ↦
                      rw (u, find_slot, there, also)
                        (ap some (v.distinct p i x r there e (str_eq→≡ x.id id also ∙ sym same)))
                  | inr other ↦
                      rw (u, find_slot, there, other, next_slot-after (length m.slots) pos w.cap h)
                        (find_slot-hit rounds (after (length m.slots) pos) k i r e same
                          (after-lt (length m.slots) pos h) (omega arith) here
                          (λ j lt. passed (suc j) (omega arith)))
                ]
          ]

      find_slot-miss :
          (rounds pos : ℕ)
          → ((i : ℕ) (r : Record D) → get_elem? t.recs i ≡ some r → r.id ≢ id)
          → find_slot rounds t.recs m.slots id pos ≡ none
      unfolding find_slot
      find_slot-miss zero pos h = refl
      find_slot-miss (suc rounds) pos h = elim (zero_or_suc (get_or m.slots pos 0)) [
        | inl z ↦ rw (z, find_slot) refl
        | inr (p, u) ↦
            let (x, there) = lt-get_elem? t.recs p (w.sound pos p u) in
            elim (Bool-cases (str_eq x.id id)) [
              | inl also ↦ absurd (h p x there (str_eq→≡ x.id id also))
              | inr other ↦ rw (u, find_slot, there, other) (find_slot-miss rounds _ h)
            ]
      ]

      find_slot-scan :
          find_slot (length m.slots) t.recs m.slots id (home (length m.slots) id) ≡ scan t.recs id
      find_slot-scan = elim (Option-cases (scan t.recs id)) [
        | inl missing ↦
            find_slot-miss (length m.slots) _ (scan-none t.recs id missing) ∙ sym missing
        | inr (i, found) ↦
            let (r, there, same) = scan-some t.recs id i found in
            let at = w.reached i r (get_elem?-lt t.recs i r there) there in
            find_slot-hit (length m.slots) (home (length m.slots) id) at.steps i r there same
              (home-lt (length m.slots) id w.cap) at.few
              (subst
                (λ x.
                  get_or m.slots (walk (length m.slots) at.steps (home (length m.slots) x)) 0
                  ≡ suc i)
                same at.here)
              (subst
                (λ x.
                  (j : ℕ)
                  → j < at.steps
                  → get_or m.slots (walk (length m.slots) j (home (length m.slots) x)) 0 ≢ 0)
                same at.passed)
            ∙ sym found
      ]

    none_found :
        (id : List ℕ) → ((length id == 0) || (length t.recs == 0)) ≡ true → scan t.recs id ≡ none
    none_found id e = elim (Option-cases (scan t.recs id)) [
      | inl missing ↦ missing
      | inr (i, found) ↦
          let (r, there, same) = scan-some t.recs id i found in
          let long : 0 < length id = subst (λ x. 0 < length x) same (v.named i r there) in
          absurd (ground (arith, e, long, get_elem?-lt t.recs i r there))
    ]

    -- In a valid table, a lookup answers as a scan of all records does.
    pub table_find-scan : (id : List ℕ) → table_find t id ≡ scan t.recs id
    unfolding table_find
    table_find-scan id = elim (Bool-cases ((length id == 0) || (length t.recs == 0))) [
      | inl empty ↦ rw (table_find, empty) (sym (none_found id empty))
      | inr some_left ↦ elim (Option-cases t.idmap) [
        | inl no_map ↦ rw (table_find, some_left, no_map) refl
        | inr (m, has) ↦
            let w = v.mapped m has in
            let large : ltb 0 (length m.slots) ≡ true =
              ground (arith, cap_pos (length m.slots) w.cap) in
            rw (table_find, some_left, has, large) (find_slot-scan m w id)
      ]
    ]

    -- A lookup answers the record with the id, and nothing where there is none.
    pub table_get-hit :
        (id : List ℕ) (i : ℕ) (r : Record D)
        → get_elem? t.recs i ≡ some r
        → r.id ≡ id
        → table_get t id ≡ some r
    unfolding table_get
    table_get-hit id i r e same = rw (table_get, table_find-scan id, scan_unique id i r e same) e

    pub table_get-miss :
        (id : List ℕ)
        → ((i : ℕ) (r : Record D) → get_elem? t.recs i ≡ some r → r.id ≢ id)
        → table_get t id ≡ none
    unfolding table_get
    table_get-miss id h = elim (Option-cases (scan t.recs id)) [
      | inl missing ↦ rw (table_get, table_find-scan id, missing) refl
      | inr (i, found) ↦
          let (r, there, same) = scan-some t.recs id i found in absurd (h i r there same)
    ]

    -- Either a record has the id, or none has.
    pub id-cases :
        (id : List ℕ)
        → ((i : ℕ) × (r : Record D) × (table_find t id ≡ some i)
            × (get_elem? t.recs i ≡ some r)
            × (r.id ≡ id))
          ⊎ ((table_find t id ≡ none)
              × ((i : ℕ) (r : Record D) → get_elem? t.recs i ≡ some r → r.id ≢ id))
    id-cases id = elim (Option-cases (scan t.recs id)) [
      | inl missing ↦ inr (table_find-scan id ∙ missing, scan-none t.recs id missing)
      | inr (i, found) ↦
          let (r, there, same) = scan-some t.recs id i found in
          inl (i, r, table_find-scan id ∙ found, there, same)
    ]
