-- ===== src/RecordTable/Map.antt =====
-- The id map holds the place of every record, in reach of the record's home slot.
use native.Mathlib.Nat.{pow-suc}
use asterism_asper.Base.{
  ℕ, zero, suc, ◌+◌, ◌*◌, ◌^◌, ◌≤◌, ◌<◌, ◌≡◌, ◌≢◌, refl, sym, ap, ◌∙◌, subst, List, [], ◌∷◌, some,
  ltb, ◌==◌, length, get_or, get_elem?, set, arith, Bool-cases, inl, inr, length-set,
  length-replicate, some_inj,
}
use asterism_asper.Record.{Record}
use asterism_asper.RecordTable.{
  home, free_slot, idmap_insert, IdMap, insert_all, map_cap, Table, rehashed,
}
use asterism_asper.RecordTable.Slots.{
  IsCap, home-lt, walk, walk-lt, get_or-set, filled, filled-set, filled-replicate, get_or-no_slots,
  no_slots, IsFree, free_slot-IsFree,
}

-- The place stands in a slot that the walk from the home slot of the id reaches over used slots.
pub record IsReached (slots : List ℕ) (id : List ℕ) (place : ℕ) : Type 0 where
  pub steps : ℕ
  pub few : steps < length slots
  pub here : get_or slots (walk (length slots) steps (home (length slots) id)) 0 ≡ suc place
  pub passed :
      (j : ℕ) → j < steps → get_or slots (walk (length slots) j (home (length slots) id)) 0 ≢ 0

-- A write into an empty slot leaves what was reached in reach.
IsReached-set :
    (slots id : List ℕ) (place p v : ℕ)
    → get_or slots p 0 ≡ 0
    → IsReached slots id place
    → IsReached (set slots p (suc v)) id place
IsReached-set slots id place p v e r =
    let n = length-set slots p (suc v) in
    record {
      steps = r.steps;
      few = omega (arith, n, r.few);
      here = rw n (
          ground (
            arith,
            get_or-set slots p (walk (length slots) r.steps (home (length slots) id)) (suc v),
            r.here,
            e,
          ));
      passed = λ j h. rw n λ z. ground (
        arith,
        get_or-set slots p (walk (length slots) j (home (length slots) id)) (suc v),
        r.passed j h,
        z,
      );
    }

module _ {D : Type 0} where
  -- The first `n` records are in the map.
  pub record IsMap (recs : List (Record D)) (n : ℕ) (m : IdMap) : Type 0 where
    pub cap : IsCap (length m.slots)
    pub used : m.used ≡ n
    pub count : filled m.slots ≡ n
    pub load : n * 10 ≤ length m.slots * 7
    pub sound : (p place : ℕ) → get_or m.slots p 0 ≡ suc place → place < n
    pub reached :
        (i : ℕ) (r : Record D) → i < n → get_elem? recs i ≡ some r → IsReached m.slots r.id i

  module _ (recs : List (Record D)) (n : ℕ) (m : IdMap) (v : IsMap recs n m) (r : Record D)
      (e : get_elem? recs n ≡ some r) (room : (n + 1) * 10 ≤ length m.slots * 7) where
    abbrev at : ℕ
    at = free_slot (length m.slots) m.slots (home (length m.slots) r.id)

    free : IsFree m.slots (home (length m.slots) r.id) at
    free =
        free_slot-IsFree m.slots (home (length m.slots) r.id) v.cap
          (home-lt (length m.slots) r.id v.cap) (omega (arith, v.count))

    at-lt : at < length m.slots
    at-lt =
        subst (λ k. k < length m.slots) free.at
          (walk-lt (length m.slots) free.steps _ (home-lt (length m.slots) r.id v.cap))

    new-IsReached : IsReached (set m.slots at (suc n)) r.id n
    new-IsReached =
        let l = length-set m.slots at (suc n) in
        record {
          steps = free.steps;
          few = omega (arith, l, free.few);
          here = rw (l, free.at) (ground (arith, get_or-set m.slots at at (suc n), at-lt));
          passed = λ j h. rw l λ z. ground (
            arith,
            get_or-set m.slots at (walk (length m.slots) j (home (length m.slots) r.id)) (suc n),
            free.passed j h,
            z,
          );
        }

    pub idmap_insert-IsMap : IsMap recs (suc n) (idmap_insert m r.id n)
    unfolding idmap_insert
    idmap_insert-IsMap =
        let l = length-set m.slots at (suc n) in
        record {
          cap = subst IsCap (sym l) v.cap;
          used = omega (arith, v.used);
          count = rw (filled-set m.slots at n at-lt free.empty) (ap suc v.count);
          load = omega (arith, l);
          sound = λ p place h. ground (arith, get_or-set m.slots at p (suc n), v.sound p place);
          reached = λ i q h k. elim (Bool-cases (i == n)) [
            | inl last ↦
                let same : i ≡ n = ground arith in
                let whose : r ≡ q = some_inj (sym e ∙ ap (λ t. get_elem? recs t) (sym same) ∙ k) in
                subst (λ t. IsReached (set m.slots at (suc n)) q.id t) (sym same)
                  (subst (λ (t : Record D). IsReached (set m.slots at (suc n)) t.id n) whose
                    new-IsReached)
            | inr old ↦
                IsReached-set m.slots q.id i at n free.empty (v.reached i q (ground arith) k)
          ];
        }

  -- The records from place `n` on are entered one after the other.
  insert_all-IsMap :
      (recs rest : List (Record D)) (n total : ℕ) (m : IdMap)
      → ((i : ℕ) → get_elem? rest i ≡ get_elem? recs (n + i))
      → n + length rest ≡ total
      → total * 10 ≤ length m.slots * 7
      → IsMap recs n m
      → IsMap recs total (insert_all rest n m)
        × (length (insert_all rest n m).slots ≡ length m.slots)
  unfolding insert_all idmap_insert
  insert_all-IsMap recs [] n total m same e room v =
      (subst (λ k. IsMap recs k m) (omega (arith, e)) v, refl)
  insert_all-IsMap recs (r ∷ rest) n total m same e room v =
      let here : get_elem? recs n ≡ some r =
        ap (λ k. get_elem? recs k) (omega arith) ∙ sym (same 0) in
      let one = idmap_insert-IsMap recs n m v r here (omega (arith, e)) in
      let l =
        length-set m.slots (free_slot (length m.slots) m.slots (home (length m.slots) r.id))
          (suc n) in
      let (all, size) =
        insert_all-IsMap recs rest (suc n) total (idmap_insert m r.id n)
          (λ i. same (suc i) ∙ ap (λ k. get_elem? recs k) (omega arith)) (omega (arith, e))
          (omega (arith, l)) one in
      (all, size ∙ l)

-- The capacity of a rebuilt map is a power of two, and large enough.
map_cap-IsCap : (rounds cap need : ℕ) → IsCap cap → IsCap (map_cap rounds cap need)
unfolding map_cap
map_cap-IsCap zero cap need c = c
map_cap-IsCap (suc rounds) cap need (k, e) = elim (Bool-cases (ltb cap need)) [
  | inl more ↦ rw more (map_cap-IsCap rounds (cap * 2) need (suc k, omega (arith, e, pow-suc 2 k)))
  | inr enough ↦ rw enough (map_cap-IsCap rounds cap need (k, e))
]

map_cap-grows : (rounds cap need : ℕ) → cap ≤ map_cap rounds cap need
unfolding map_cap
map_cap-grows zero cap need = omega arith
map_cap-grows (suc rounds) cap need = elim (Bool-cases (ltb cap need)) [
  | inl more ↦ rw more (omega (arith, map_cap-grows rounds (cap * 2) need))
  | inr enough ↦ rw enough (map_cap-grows rounds cap need)
]

map_cap-ge : (rounds cap need : ℕ) → need ≤ cap * 2 ^ rounds → need ≤ map_cap rounds cap need
unfolding map_cap
map_cap-ge zero cap need h = omega arith
map_cap-ge (suc rounds) cap need h = elim (Bool-cases (ltb cap need)) [
  | inl more ↦
      rw more (
        map_cap-ge rounds (cap * 2) need
          (omega (arith, ap (λ (t : ℕ). cap * t) (pow-suc 2 rounds))))
  | inr enough ↦ rw enough (ground (arith, enough, map_cap-grows rounds cap need))
]

module _ {D : Type 0} where
  empty-IsMap :
      (recs : List (Record D)) (cap : ℕ)
      → IsCap cap
      → IsMap recs 0 (record { slots = no_slots cap; used = 0 })
  empty-IsMap recs cap c =
      let l : length (no_slots cap) ≡ cap = length-replicate cap 0 in
      record {
        cap = subst IsCap (sym l) c;
        used = refl;
        count = filled-replicate cap;
        load = omega arith;
        sound = λ p place h. absurd (omega (arith, h, get_or-no_slots cap p));
        reached = λ i r h k. absurd (omega arith);
      }

  -- A rebuilt map holds every record, and has room for twice `mincap` of them.
  pub rehashed-IsMap :
      (t : Table D) (mincap : ℕ)
      → length t.recs ≤ mincap
      → mincap ≤ 2 ^ 60
      → (m : IdMap) × (rehashed t mincap ≡ record t { idmap = some m })
        × IsMap t.recs (length t.recs) m
        × (mincap * 2 ≤ length m.slots)
  unfolding rehashed
  rehashed-IsMap t mincap small bound =
      let cap = map_cap 60 16 (mincap * 2) in
      let c = map_cap-IsCap 60 16 (mincap * 2) (4, refl) in
      let big = map_cap-ge 60 16 (mincap * 2) (omega arith) in
      let l : length (no_slots cap) ≡ cap = length-replicate cap 0 in
      let (all, size) =
        insert_all-IsMap t.recs t.recs 0 (length t.recs) (record { slots = no_slots cap; used = 0 })
          (λ i. ap (λ k. get_elem? t.recs k) (omega arith)) (omega arith) (omega (arith, big, l))
          (empty-IsMap t.recs cap c) in
      (_, refl, all, omega (arith, size, l, big))
