-- ===== src/RecordTable/Write.antt =====
-- A change of a record in place, through the pointer that `asper_table_get` of src/record_table.c
-- answers.
use asterism_asper.Base.{
  ℕ, ◌≡◌, ◌≢◌, refl, sym, ap, ◌∙◌, ◌&&◌, List, none, some, ltb, ◌==◌, if◌then◌else◌, length,
  length-set, get_elem?, set, arith, Bool-cases, inl, inr, ◌⊎◌, get_elem?-lt, get_elem?-set,
  some_inj,
}
use mathlib.Core.Bool.{false≢true}
use asterism_asper.Base.Text.{str_eq, str_eq→≡, str_eq_refl}
use asterism_asper.Record.{Record}
use asterism_asper.RecordTable.{IdMap, Table, table_get, table_find, table_write}
use asterism_asper.RecordTable.Map.{IsMap}
use asterism_asper.RecordTable.Find.{IsValid, table_get-hit, table_get-miss, id-cases}

module _ {D : Type 0} where
  -- What stands in a list behind a write, place by place.
  set-cases :
      (recs : List (Record D)) (i j : ℕ) (r q : Record D)
      → get_elem? (set recs i r) j ≡ some q
      → ((i ≡ j) × (r ≡ q)) ⊎ (get_elem? recs j ≡ some q)
  set-cases recs i j r q e =
      let out = sym (get_elem?-set recs i j r) ∙ e in
      elim (Bool-cases ((i == j) && ltb j (length recs))) [
        | inl here ↦ inl (ground (arith, here), some_inj (rw here at out))
        | inr other ↦ inr (rw other at out)
      ]

  -- Each record behind a write that keeps the id at its place has the id of one before it.
  set-id :
      (recs : List (Record D)) (i j : ℕ) (old r q : Record D)
      → get_elem? recs i ≡ some old
      → r.id ≡ old.id
      → get_elem? (set recs i r) j ≡ some q
      → (p : Record D) × (get_elem? recs j ≡ some p) × (p.id ≡ q.id)
  set-id recs i j old r q there same e = elim (set-cases recs i j r q e) [
    | inl (at, own) ↦ (
      old,
      ap (λ k. get_elem? recs k) (sym at) ∙ there,
      sym same ∙ ap (λ (x : Record D). x.id) own,
    )
    | inr kept ↦ (q, kept, refl)
  ]

  module _ (t : Table D) (i : ℕ) (old r : Record D) (v : IsValid t)
      (there : get_elem? t.recs i ≡ some old) (same : r.id ≡ old.id) where
    abbrev changed : Table D
    changed = record t { recs = set t.recs i r }

    changed-IsMap :
        (m : IdMap) → IsMap t.recs (length t.recs) m → IsMap changed.recs (length t.recs) m
    changed-IsMap m w = record {
      cap = w.cap;
      used = w.used;
      count = w.count;
      load = w.load;
      sound = w.sound;
      reached = λ j q h e.
          let (p, before, ids) = set-id t.recs i j old r q there same e in
          rw (sym ids) (w.reached j p h before);
    }

    changed-IsValid : IsValid changed
    changed-IsValid = record {
      small = rw (length-set t.recs i r) v.small;
      named = λ j q e.
          let (p, before, ids) = set-id t.recs i j old r q there same e in
          rw (sym ids) (v.named j p before);
      distinct = λ j k a b e f eq.
          let (a', before_a, ids_a) = set-id t.recs i j old r a there same e in
          let (b', before_b, ids_b) = set-id t.recs i k old r b there same f in
          v.distinct j k a' b' before_a before_b (ids_a ∙ eq ∙ sym ids_b);
      mapped = λ m has. rw (length-set t.recs i r) (changed-IsMap m (v.mapped m has));
    }

    changed-here : get_elem? changed.recs i ≡ some r
    changed-here = ground (arith, get_elem?-set t.recs i i r, get_elem?-lt t.recs i old there)

    changed-else : (j : ℕ) → i ≢ j → get_elem? changed.recs j ≡ get_elem? t.recs j
    changed-else j ne = ground (arith, get_elem?-set t.recs i j r)

    table_get-changed :
        (q : List ℕ) → table_get changed q ≡ (if str_eq q old.id then some r else table_get t q)
    table_get-changed q = elim (Bool-cases (str_eq q old.id)) [
      | inl found ↦
          table_get-hit changed changed-IsValid q i r changed-here
            (same ∙ sym (str_eq→≡ q old.id found))
          ∙ rw found refl
      | inr other ↦ elim (id-cases t v q) [
        | inl (j, x, found, at, own) ↦
            let apart : i ≢ j = λ e. false≢true (
              sym other
              ∙ rw
                  (sym own
                    ∙ ap (λ (y : Record D). y.id)
                        (some_inj (sym at ∙ ap (λ k. get_elem? t.recs k) (sym e) ∙ there)))
                  (str_eq_refl old.id)) in
            rw (other, table_get-hit t v q j x at own)
              (table_get-hit changed changed-IsValid q j x (changed-else j apart ∙ at) own)
        | inr (missing, none_has) ↦
            rw (other, table_get-miss t v q none_has)
              (table_get-miss changed changed-IsValid q λ j x e own.
                let (p, before, ids) = set-id t.recs i j old r x there same e in
                none_has j p before (ids ∙ own))
      ]
    ]

  -- A change in place that keeps the id of the record leaves a valid table valid, and from then on
  -- the id answers the changed record and every other id answers as before.
  pub table_write_lem :
      (t : Table D) (id : List ℕ) (old r : Record D)
      → IsValid t
      → table_get t id ≡ some old
      → r.id ≡ id
      → IsValid (table_write t id r)
        × ((q : List ℕ)
            → table_get (table_write t id r) q ≡ (if str_eq q id then some r else table_get t q))
  unfolding table_write
  table_write_lem t id old r v e k = elim (id-cases t v id) [
    | inr (missing, none_has) ↦ absurd (cc (sym (table_get-miss t v id none_has) ∙ e))
    | inl (i, x, found, at, own) ↦
        rw (table_write, found)
          (
            changed-IsValid t i x r v at (k ∙ sym own),
            λ q. table_get-changed t i x r v at (k ∙ sym own) q ∙ rw own refl,
          )
  ]

  pub table_write-missing :
      (t : Table D) (id : List ℕ) (r : Record D) → table_find t id ≡ none → table_write t id r ≡ t
  unfolding table_write
  table_write-missing t id r e = rw (table_write, e) refl
