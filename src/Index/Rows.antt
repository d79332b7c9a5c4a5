-- ===== src/Index/Rows.antt =====
-- Rows of the index and the records that own them: `recs` and `emb_row` stay inverse to each other
-- when a row is cut off, moved, overwritten or added.
use asterism_asper.Base.{
  ℕ, suc, ◌≡◌, refl, ◌∙◌, false, [], ◌∷◌, none, some, arith, ◌==◌, if◌then◌else◌, length, get_elem?,
  set, take, length-set, length-append, length-take, get_elem?-set, get_elem?-take, get_elem?-snoc,
  get_elem?-lt, Option-cases, inl, inr,
}
use asterism_asper.Index.{Index, update, add_row, cut_last, index_vec}

module _ {V : Type 0} where
  -- `recs[i]->emb_row == i` for every row, and no other record has a row.
  pub record IsIndexed (ix : Index V) : Type 0 where
    pub widths : length ix.vecs ≡ length ix.recs
    pub points_back : (i r : ℕ) → get_elem? ix.recs i ≡ some r → ix.emb_row r ≡ some i
    pub has_row : (r i : ℕ) → ix.emb_row r ≡ some i → get_elem? ix.recs i ≡ some r

  -- Cutting the last row off keeps the index, where it is the row of `r`.
  pub cut_last-IsIndexed :
      (ix : Index V) (r last : ℕ)
      → IsIndexed ix
      → length ix.recs ≡ suc last
      → ix.emb_row r ≡ some last
      → IsIndexed (cut_last ix r last)
  cut_last-IsIndexed ix r last v n e = record {
    widths = omega (arith, length-take last ix.vecs, length-take last ix.recs, v.widths);
    points_back = λ i q h. ground (
      arith,
      get_elem?-take last ix.recs i,
      v.points_back i q,
      v.has_row r last e,
      v.points_back last q,
    );
    has_row = λ q i h. ground (
      arith,
      get_elem?-take last ix.recs i,
      v.has_row q i,
      get_elem?-lt ix.recs i q,
      v.has_row r last e,
    );
  }

  -- What the lookup of an index returns.
  pub vec_at :
      (ix : Index V) (q i : ℕ)
      → IsIndexed ix
      → ix.emb_row q ≡ some i
      → index_vec ix q ≡ get_elem? ix.vecs i
  unfolding index_vec
  vec_at ix q i v e = rw (e, index_vec) ground (arith, get_elem?-lt ix.recs i q (v.has_row q i e))

  pub vec_none : (ix : Index V) (q : ℕ) → ix.emb_row q ≡ none → index_vec ix q ≡ none
  unfolding index_vec
  vec_none ix q e = rw (e, index_vec) refl

  pub cut_last-vec :
      (ix : Index V) (r last q : ℕ)
      → IsIndexed ix
      → length ix.recs ≡ suc last
      → ix.emb_row r ≡ some last
      → index_vec (cut_last ix r last) q ≡ (if q == r then none else index_vec ix q)
  cut_last-vec ix r last q v n e = elim (Option-cases (ix.emb_row q)) [
    | inl nowhere ↦ ground (arith, vec_none (cut_last ix r last) q, vec_none ix q nowhere)
    | inr (i, here) ↦ ground (
      arith,
      vec_none (cut_last ix r last) q,
      vec_at (cut_last ix r last) q i (cut_last-IsIndexed ix r last v n e),
      vec_at ix q i v here,
      get_elem?-take last ix.vecs i,
      get_elem?-lt ix.recs i q (v.has_row q i here),
      v.has_row q i here,
      v.has_row r last e,
    )
  ]

  -- The row of `r` overwritten by the last row, and the last row cut off.
  abbrev pub swapped : Index V → ℕ → ℕ → ℕ → ℕ → V → Index V
  swapped ix r row last moved vec = record ix {
    vecs = take last (set ix.vecs row vec);
    recs = take last (set ix.recs row moved);
    emb_row = update (update ix.emb_row moved (some row)) r none;
  }

  module _ (ix : Index V) (r row last moved : ℕ) (vec : V) (v : IsIndexed ix)
      (n : length ix.recs ≡ suc last) (e : ix.emb_row r ≡ some row) (ne : (row == last) ≡ false)
      (rec_last : get_elem? ix.recs last ≡ some moved)
      (vec_last : get_elem? ix.vecs last ≡ some vec) where
    pub swapped-IsIndexed : IsIndexed (swapped ix r row last moved vec)
    swapped-IsIndexed = record {
      widths = omega (
        arith,
        length-take last (set ix.vecs row vec),
        length-take last (set ix.recs row moved),
        length-set ix.vecs row vec,
        length-set ix.recs row moved,
        v.widths,
      );
      points_back = λ i q h. ground (
        arith,
        get_elem?-take last (set ix.recs row moved) i,
        get_elem?-set ix.recs row i moved,
        v.points_back i q,
        v.points_back last moved rec_last,
        v.has_row r row e,
      );
      has_row = λ q i h. ground (
        arith,
        get_elem?-take last (set ix.recs row moved) i,
        get_elem?-set ix.recs row i moved,
        v.has_row q i,
        get_elem?-lt ix.recs i q,
        get_elem?-lt ix.recs row r (v.has_row r row e),
        v.has_row r row e,
      );
    }

    pub swapped-vec :
        (q : ℕ)
        → index_vec (swapped ix r row last moved vec) q ≡ (if q == r then none else index_vec ix q)
    swapped-vec q = elim (Option-cases (ix.emb_row q)) [
      | inl nowhere ↦ ground (
        arith,
        vec_none (swapped ix r row last moved vec) q,
        vec_none ix q nowhere,
        v.points_back last moved rec_last,
      )
      | inr (i, here) ↦ ground (
        arith,
        vec_none (swapped ix r row last moved vec) q,
        vec_at (swapped ix r row last moved vec) q i swapped-IsIndexed,
        vec_at (swapped ix r row last moved vec) q row swapped-IsIndexed,
        vec_at ix q i v here,
        get_elem?-take last (set ix.vecs row vec) i,
        get_elem?-take last (set ix.vecs row vec) row,
        get_elem?-set ix.vecs row i vec,
        get_elem?-set ix.vecs row row vec,
        get_elem?-lt ix.recs i q (v.has_row q i here),
        get_elem?-lt ix.recs row r (v.has_row r row e),
        v.has_row q i here,
        v.has_row r row e,
        v.points_back last moved rec_last,
        v.widths,
      )
    ]

  abbrev pub overwritten : Index V → ℕ → V → Index V
  overwritten ix row vec = record ix { vecs = set ix.vecs row vec }

  pub overwritten-IsIndexed :
      (ix : Index V) (row : ℕ) (vec : V) → IsIndexed ix → IsIndexed (overwritten ix row vec)
  overwritten-IsIndexed ix row vec v = record {
    widths = length-set ix.vecs row vec ∙ v.widths;
    points_back = v.points_back;
    has_row = v.has_row;
  }

  pub overwritten-vec :
      (ix : Index V) (r row : ℕ) (vec : V)
      → IsIndexed ix
      → ix.emb_row r ≡ some row
      → (q : ℕ)
      → index_vec (overwritten ix row vec) q ≡ (if q == r then some vec else index_vec ix q)
  overwritten-vec ix r row vec v e q = elim (Option-cases (ix.emb_row q)) [
    | inl nowhere ↦ ground (arith, vec_none (overwritten ix row vec) q, vec_none ix q nowhere, e)
    | inr (i, here) ↦ ground (
      arith,
      vec_at (overwritten ix row vec) q i (overwritten-IsIndexed ix row vec v) here,
      vec_at ix q i v here,
      get_elem?-set ix.vecs row i vec,
      get_elem?-lt ix.recs i q (v.has_row q i here),
      v.has_row q i here,
      v.has_row r row e,
      v.widths,
    )
  ]

  module _ (normalize : V → V) (ix : Index V) (r : ℕ) (vec : V) (cap : ℕ) (v : IsIndexed ix)
      (e : ix.emb_row r ≡ none) where
    pub added-IsIndexed : IsIndexed (add_row normalize ix r vec cap)
    added-IsIndexed = record {
      widths = omega (
        arith,
        length-append ix.vecs (normalize vec ∷ []),
        length-append ix.recs (r ∷ []),
        v.widths,
      );
      points_back = λ i q h. ground (arith, get_elem?-snoc ix.recs r i, v.points_back i q);
      has_row = λ q i h.
          ground (arith, get_elem?-snoc ix.recs r i, v.has_row q i, get_elem?-lt ix.recs i q);
    }

    pub added-vec :
        (q : ℕ)
        → index_vec (add_row normalize ix r vec cap) q
          ≡ (if q == r then some (normalize vec) else index_vec ix q)
    added-vec q = elim (Option-cases (ix.emb_row q)) [
      | inl nowhere ↦ ground (
        arith,
        vec_none (add_row normalize ix r vec cap) q,
        vec_none ix q nowhere,
        vec_at (add_row normalize ix r vec cap) q (length ix.recs) added-IsIndexed,
        get_elem?-snoc ix.vecs (normalize vec) (length ix.recs),
        v.widths,
      )
      | inr (i, here) ↦ ground (
        arith,
        vec_at (add_row normalize ix r vec cap) q i added-IsIndexed,
        vec_at ix q i v here,
        get_elem?-snoc ix.vecs (normalize vec) i,
        get_elem?-lt ix.recs i q (v.has_row q i here),
        v.widths,
      )
    ]
