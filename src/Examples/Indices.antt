-- ===== src/Examples/Indices.antt =====
-- An index of two records and its theorems at these.
use asterism_asper.Base.{
  ℕ, ◌+◌, ◌≡◌, refl, true, [], ◌∷◌, Option, none, some, ok, arith, if◌then◌else◌, get_elem?, suc,
  zero, ◌==◌,
}
use asterism_asper.Index.{Index, index_put, index_remove, index_vec}
use asterism_asper.Index.Rows.{IsIndexed}
use asterism_asper.Index.Laws.{index_put_lem, index_remove_lem}

abbrev rows_of : ℕ → Option ℕ
rows_of r = if r == 7 then some 0 else if r == 9 then some 1 else none

abbrev two_rows : Index ℕ
two_rows = record { vecs = 70 ∷ 90 ∷ []; recs = 7 ∷ 9 ∷ []; cap = 16; dim = 1; emb_row = rows_of }

two_rows-points_back : (i r : ℕ) → get_elem? two_rows.recs i ≡ some r → two_rows.emb_row r ≡ some i
two_rows-points_back zero r e = ground (arith, e)
two_rows-points_back (suc zero) r e = ground (arith, e)
two_rows-points_back (suc (suc i)) r e = cc

two_rows-IsIndexed : IsIndexed two_rows
two_rows-IsIndexed = record {
  widths = refl;
  points_back = two_rows-points_back;
  has_row = λ r i e. ground (arith, e);
}

index_remove_lem_example :
    IsIndexed (index_remove two_rows 7)
    × ((q : ℕ)
        → index_vec (index_remove two_rows 7) q ≡ (if q == 7 then none else index_vec two_rows q))
index_remove_lem_example = index_remove_lem two_rows 7 two_rows-IsIndexed

index_put_lem_example :
    (ix' : Index ℕ) × (index_put true true (λ v. v + 1) two_rows 8 80 ≡ ok ix')
    × IsIndexed ix'
    × ((q : ℕ) → index_vec ix' q ≡ (if q == 8 then some 81 else index_vec two_rows q))
index_put_lem_example =
    index_put_lem (λ v. v + 1) two_rows 8 80 two_rows-IsIndexed refl (omega arith)
