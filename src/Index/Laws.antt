-- ===== src/Index/Laws.antt =====
-- The index is a finite map from records to normalized vectors: `index_put` and `index_remove`.
use asterism_asper.Base.{
  ℕ, suc, ◌-◌, ◌*◌, ◌<◌, ◌≡◌, refl, true, false, none, some, arith, ltb, leb, ◌==◌, if◌then◌else◌,
  length, get_elem?, ok, get_elem?-lt, lt-get_elem?, Option-cases, inl, inr, Bool-cases,
}
use asterism_asper.Index.{
  Index, int_max, holds, add_row, index_put, move_last, cut_last, index_remove, index_vec,
}
use asterism_asper.Index.Rows.{
  IsIndexed, cut_last-IsIndexed, vec_none, cut_last-vec, swapped, swapped-IsIndexed, swapped-vec,
  overwritten, overwritten-IsIndexed, overwritten-vec, added-IsIndexed, added-vec,
}

module _ {V : Type 0} where
  holds-owner : (ix : Index V) (row r : ℕ) → get_elem? ix.recs row ≡ some r → holds ix row r ≡ true
  holds-owner ix row r e = ground (arith, e)

  remove-nowhere : (ix : Index V) (r : ℕ) → ix.emb_row r ≡ none → index_remove ix r ≡ ix
  unfolding index_remove
  remove-nowhere ix r e = rw (e, index_remove) refl

  remove-last :
      (ix : Index V) (r last : ℕ)
      → IsIndexed ix
      → length ix.recs ≡ suc last
      → ix.emb_row r ≡ some last
      → index_remove ix r ≡ cut_last ix r last
  unfolding index_remove
  remove-last ix r last v n e =
      let below : ltb last (suc last) ≡ true = ground arith in
      let pred : suc last - 1 ≡ last = omega arith in
      let same : (last == last) ≡ true = ground arith in
      rw (e, index_remove, n, below, holds-owner ix last r (v.has_row r last e), pred, same) refl

  remove-moved :
      (ix : Index V) (r row last moved : ℕ) (vec : V)
      → IsIndexed ix
      → length ix.recs ≡ suc last
      → ix.emb_row r ≡ some row
      → (row == last) ≡ false
      → get_elem? ix.recs last ≡ some moved
      → get_elem? ix.vecs last ≡ some vec
      → index_remove ix r ≡ swapped ix r row last moved vec
  unfolding index_remove
  remove-moved ix r row last moved vec v n e ne m w =
      let below : ltb row (suc last) ≡ true =
        ground (arith, get_elem?-lt ix.recs row r (v.has_row r row e)) in
      let pred : suc last - 1 ≡ last = omega arith in
      rw
        (
          e,
          index_remove,
          n,
          below,
          holds-owner ix row r (v.has_row r row e),
          pred,
          ne,
          move_last,
          m,
          n,
          pred,
          w,
        )
        refl

  -- In an index whose rows and records are in step, a removal takes exactly the vector of `r` out,
  -- and keeps the rows and the records in step.
  pub index_remove_lem :
      (ix : Index V) (r : ℕ)
      → IsIndexed ix
      → IsIndexed (index_remove ix r)
        × ((q : ℕ) → index_vec (index_remove ix r) q ≡ (if q == r then none else index_vec ix q))
  index_remove_lem ix r v = elim (Option-cases (ix.emb_row r)) [
    | inl nowhere ↦ rw (remove-nowhere ix r nowhere) (v, λ q. ground (arith, vec_none ix q))
    | inr (row, here) ↦
        let last = length ix.recs - 1 in
        let n : length ix.recs ≡ suc last =
          omega (arith, get_elem?-lt ix.recs row r (v.has_row r row here)) in
        elim (Bool-cases (row == last)) [
          | inl same ↦
              let e : ix.emb_row r ≡ some last = ground (arith, here, same) in
              rw (remove-last ix r last v n e)
                (cut_last-IsIndexed ix r last v n e, λ q. cut_last-vec ix r last q v n e)
          | inr ne ↦
              let (moved, m) = lt-get_elem? ix.recs last (omega arith) in
              let (vec, w) = lt-get_elem? ix.vecs last (omega (arith, v.widths)) in
              rw (remove-moved ix r row last moved vec v n here ne m w) (
                swapped-IsIndexed ix r row last moved vec v n here ne m w,
                swapped-vec ix r row last moved vec v n here ne m w,
              )
        ]
  ]

  -- In an index whose rows and records are in step, with its dimension set, fewer than `INT_MAX`
  -- rows and memory granted, a put succeeds, stores the normalized vector of `r`, leaves the
  -- others alone, and keeps the rows and the records in step.
  pub index_put_lem :
      (normalize : V → V) (ix : Index V) (r : ℕ) (vec : V)
      → IsIndexed ix
      → (ix.dim == 0) ≡ false
      → length ix.recs < int_max
      → (ix' : Index V) × (index_put true true normalize ix r vec ≡ ok ix')
        × IsIndexed ix'
        × ((q : ℕ) → index_vec ix' q ≡ (if q == r then some (normalize vec) else index_vec ix q))
  unfolding index_put
  index_put_lem normalize ix r vec v d room = elim (Option-cases (ix.emb_row r)) [
    | inr (row, here) ↦
        let owner = v.has_row r row here in
        let below : ltb row (length ix.recs) ≡ true =
          ground (arith, get_elem?-lt ix.recs row r owner) in
        (
          overwritten ix row (normalize vec),
          rw (d, here, below, holds-owner ix row r owner) refl,
          overwritten-IsIndexed ix row (normalize vec) v,
          overwritten-vec ix r row (normalize vec) v here,
        )
    | inl nowhere ↦
        let few : leb int_max (length ix.recs) ≡ false = ground (arith, room) in
        let ncap = if ix.cap == 0 then 16 else ix.cap * 2 in
        elim (Bool-cases (length ix.recs == ix.cap)) [
          | inl full ↦ (
            add_row normalize ix r vec ncap,
            rw (d, nowhere, few, full) refl,
            added-IsIndexed normalize ix r vec ncap v nowhere,
            added-vec normalize ix r vec ncap v nowhere,
          )
          | inr fits ↦ (
            add_row normalize ix r vec ix.cap,
            rw (d, nowhere, few, fits) refl,
            added-IsIndexed normalize ix r vec ix.cap v nowhere,
            added-vec normalize ix r vec ix.cap v nowhere,
          )
        ]
  ]
