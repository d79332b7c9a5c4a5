-- ===== src/RecordTable/Append.antt =====
-- What an addition to the table leaves behind, on every branch of `asper_table_add` of
-- src/record_table.c.
use asterism_asper.Base.{
  ℕ, ◌+◌, ◌*◌, ◌≤◌, ◌<◌, ◌≡◌, ◌≢◌, refl, sym, ap, ◌∙◌, subst, Bool, false, not, ◌&&◌, List, [], ◌∷◌,
  ◌++◌, Option, none, some, leb, ◌==◌, if◌then◌else◌, length, get_elem?, arith, Bool-cases, inl,
  inr, get_elem?-snoc, some_inj, length-append, Result, ok, err, Error, ◌⊎◌,
}
use asterism_asper.Record.{Record}
use asterism_asper.RecordTable.{
  record_limit, IdMap, Table, table_add, appended, rehashed, grown, crowded, idmap_insert,
}
use asterism_asper.RecordTable.Map.{IsMap, idmap_insert-IsMap, rehashed-IsMap}
use asterism_asper.RecordTable.Find.{IsValid, id-cases}

-- Where a map is not crowded, it is there and has room.
crowded-room :
    (o : Option IdMap)
    → crowded o ≡ false
    → (m : IdMap) × (o ≡ some m) × ((m.used + 1) * 10 ≤ length m.slots * 7)
crowded-room none e = absurd (ground arith)
crowded-room (some m) e = (m, refl, ground (arith, e))

module _ {D : Type 0} where
  -- A map of the first records stays one where a record is added behind them.
  IsMap-snoc :
      (recs : List (Record D)) (r : Record D) (m : IdMap)
      → IsMap recs (length recs) m
      → IsMap (recs ++ r ∷ []) (length recs) m
  IsMap-snoc recs r m v = record {
    cap = v.cap;
    used = v.used;
    count = v.count;
    load = v.load;
    sound = v.sound;
    reached = λ i q h k. v.reached i q h (ground (arith, get_elem?-snoc recs r i, k));
  }

  -- A place of the longer list is a place of the shorter one, or the last.
  pub snoc-cases :
      (recs : List (Record D)) (r q : Record D) (i : ℕ)
      → get_elem? (recs ++ r ∷ []) i ≡ some q
      → ((i ≡ length recs) × (q ≡ r)) ⊎ (get_elem? recs i ≡ some q)
  snoc-cases recs r q i e = elim (Bool-cases (i == length recs)) [
    | inl last ↦ inl (ground arith, some_inj (sym e ∙ get_elem?-snoc recs r i ∙ rw last refl))
    | inr old ↦ inr (sym (get_elem?-snoc recs r i ∙ rw old refl) ∙ e)
  ]

  module _ (t : Table D) (r : Record D) (v : IsValid t) (named : 0 < length r.id)
      (new : (i : ℕ) (q : Record D) → get_elem? t.recs i ≡ some q → q.id ≢ r.id)
      (more : length t.recs < record_limit) where
    -- The record stands last, under a map that has room for it.
    appended-IsValid :
        (m : IdMap)
        → IsMap t.recs (length t.recs) m
        → (length t.recs + 1) * 10 ≤ length m.slots * 7
        → (c : ℕ) → IsValid (appended (record { recs = t.recs; cap = c; idmap = some m }) r)
    appended-IsValid m w room c =
        let last : get_elem? (t.recs ++ r ∷ []) (length t.recs) ≡ some r =
          ground (arith, get_elem?-snoc t.recs r (length t.recs)) in
        let size = length-append t.recs (r ∷ []) in
        record {
          small = omega (arith, size, more);
          named = λ i q e. elim (snoc-cases t.recs r q i e) [
            | inl (at, same) ↦ subst (λ (x : Record D). 0 < length x.id) (sym same) named
            | inr old ↦ v.named i q old
          ];
          distinct = λ i j a b e k same. elim (snoc-cases t.recs r a i e) [
            | inl (at, own) ↦ elim (snoc-cases t.recs r b j k) [
              | inl (at', own') ↦ at ∙ sym at'
              | inr old ↦ absurd (new j b old (sym same ∙ ap (λ x. x.id) own))
            ]
            | inr old ↦ elim (snoc-cases t.recs r b j k) [
              | inl (at, own) ↦ absurd (new i a old (same ∙ ap (λ x. x.id) own))
              | inr old' ↦ v.distinct i j a b old old' same
            ]
          ];
          mapped = λ m' e.
              subst (IsMap (t.recs ++ r ∷ []) (length (t.recs ++ r ∷ []))) (some_inj e) (
                subst (λ k. IsMap (t.recs ++ r ∷ []) k (idmap_insert m r.id (length t.recs)))
                  (omega (arith, size))
                  (idmap_insert-IsMap (t.recs ++ r ∷ []) (length t.recs) m (IsMap-snoc t.recs r m w)
                    r last room));
        }

  -- An addition fails and leaves records and map alone, or the record stands last in a valid table.
  abbrev pub Outcome : Table D → Record D → Result (Unit {0}) × Table D → Type 0
  Outcome t r (out, t') =
      ((e : Error) × (out ≡ err e) × (t'.recs ≡ t.recs) × (t'.idmap ≡ t.idmap))
      ⊎ ((out ≡ ok tt) × (t'.recs ≡ t.recs ++ r ∷ []) × IsValid t')

  grown-cap :
      (t : Table D) → (c : ℕ) × (grown t ≡ record { recs = t.recs; cap = c; idmap = t.idmap })
  grown-cap t = elim (Bool-cases (length t.recs == t.cap)) [
    | inl full ↦ (if t.cap == 0 then 32 else t.cap * 2, rw full refl)
    | inr room ↦ (t.cap, rw room refl)
  ]

  module _ (t : Table D) (r : Record D) (v : IsValid t) (named : 0 < length r.id)
      (new : (i : ℕ) (q : Record D) → get_elem? t.recs i ≡ some q → q.id ≢ r.id)
      (more : length t.recs < record_limit) (c : ℕ) where
    stored_mapped :
        (m : IdMap)
        → t.idmap ≡ some m
        → (m.used + 1) * 10 ≤ length m.slots * 7
        → Outcome t r (ok tt, appended (record { recs = t.recs; cap = c; idmap = t.idmap }) r)
    stored_mapped m has room =
        let w = v.mapped m has in
        rw has
          (inr (refl, refl, appended-IsValid t r v named new more m w (omega (arith, w.used)) c))

    stored_rehashed : Outcome t r (
      ok tt,
      appended
          (rehashed (record { recs = t.recs; cap = c; idmap = t.idmap }) (length t.recs + 1))
          r,
    )
    stored_rehashed =
        let u : Table D = record { recs = t.recs; cap = c; idmap = t.idmap } in
        let (m, eq, w, room) = rehashed-IsMap u (length t.recs + 1) (omega arith) (omega arith) in
        subst (λ x. Outcome t r (ok tt, appended x r)) (sym eq)
          (inr (refl, refl, appended-IsValid t r v named new more m w (omega arith) c))

    -- What the call goes on to where nothing refuses it, on the table it has by then.
    abbrev storing : Bool → Table D → Result (Unit {0}) × Table D
    storing mapped u =
        if crowded t.idmap
        then (if mapped
            then (ok tt, appended (rehashed u (length t.recs + 1)) r)
            else (err Error.nomem, u))
        else (ok tt, appended u r)

    stored :
        (mapped : Bool) (u : Table D)
        → u ≡ record { recs = t.recs; cap = c; idmap = t.idmap }
        → Outcome t r (storing mapped u)
    stored mapped u is =
        subst (λ x. Outcome t r (storing mapped x)) (sym is)
          (elim (Bool-cases (crowded t.idmap)) [
            | inl full ↦ elim (Bool-cases mapped) [
              | inl there ↦ rw (full, there) stored_rehashed
              | inr missing ↦ rw (full, missing) (inl (Error.nomem, refl, refl, refl))
            ]
            | inr room ↦
                let (m, has, enough) = crowded-room t.idmap room in
                rw room (stored_mapped m has enough)
          ])

  pub table_add-Outcome :
      (granted mapped : Bool) (t : Table D) (r : Record D)
      → IsValid t
      → Outcome t r (table_add granted mapped t r)
  unfolding table_add
  table_add-Outcome granted mapped t r v = elim (Bool-cases (length r.id == 0)) [
    | inl nameless ↦ rw (table_add, nameless) (inl (Error.invalid, refl, refl, refl))
    | inr named ↦ elim (id-cases t v r.id) [
      | inl (i, q, found, there, same) ↦
          rw (table_add, named, found) (inl (Error.invalid, refl, refl, refl))
      | inr (missing, new) ↦ elim (Bool-cases (leb record_limit (length t.recs))) [
        | inl full ↦ rw (table_add, named, missing, full) (inl (Error.limit, refl, refl, refl))
        | inr more ↦ elim (Bool-cases ((length t.recs == t.cap) && not granted)) [
          | inl refused ↦
              rw (table_add, named, missing, more, refused) (inl (Error.nomem, refl, refl, refl))
          | inr room ↦
              let (c, grew) = grown-cap t in
              rw (table_add, named, missing, more, room)
                (stored t r v (ground arith) new (ground (arith, more)) c mapped (grown t) grew)
        ]
      ]
    ]
  ]
