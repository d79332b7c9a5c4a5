-- ===== src/Index.antt =====
-- The flat vector index of src/index.c: `asper_index_put`, `asper_index_remove`, `asper_index_vec`.
-- A record is known by its address. The fields `emb_row` of all records are the map `emb_row`, where
-- a negative value is `none`. Vectors are the parameter `V`, and `normalize` is the computation of
-- `asper_index_write_row` on one vector.
pub mod Laws
pub mod Rows
use asterism_asper.Base.{
  ℕ, zero, suc, ◌+◌, ◌-◌, ◌*◌, ◌^◌, Bool, true, false, not, ◌&&◌, ◌||◌, List, [], ◌∷◌, ◌++◌, Option,
  none, some, ltb, leb, ◌==◌, if◌then◌else◌, length, get_elem?, set, take, Result, ok, err, Error,
}

pub record Index {ℓ} (V : Type ℓ) : Type ℓ where
  pub vecs : List V
  pub recs : List ℕ
  pub cap : ℕ
  pub dim : ℕ
  pub emb_row : ℕ → Option ℕ

abbrev pub int_max : ℕ
int_max = 2 ^ 31 - 1

-- One field `emb_row` written.
abbrev pub update {ℓ} : {B : Type ℓ} → (ℕ → B) → ℕ → B → ℕ → B
update f r v q = if q == r then v else f q

module _ {ℓ} {V : Type ℓ} where
  -- `ix->recs[row] == r` for a row in range.
  abbrev pub holds : Index V → ℕ → ℕ → Bool
  holds ix row r = elim (get_elem? ix.recs row) [ none ↦ false | some q ↦ q == r ]

  -- The row of a record that is not in the index yet, once there is room for it.
  abbrev pub add_row : (V → V) → Index V → ℕ → V → ℕ → Index V
  add_row normalize ix r vec cap = record ix {
    vecs = ix.vecs ++ normalize vec ∷ [];
    recs = ix.recs ++ r ∷ [];
    cap = cap;
    emb_row = update ix.emb_row r (some (length ix.recs));
  }

  -- `asper_index_put`. `vecs_granted` and `recs_granted` are what the two calls of `realloc` answer.
  unfoldable pub index_put : Bool → Bool → (V → V) → Index V → ℕ → V → Result (Index V)
  index_put vecs_granted recs_granted normalize ix r vec =
      let n = length ix.recs in
      let ncap = if ix.cap == 0 then 16 else ix.cap * 2 in
      if ix.dim == 0 then err Error.invalid else elim (ix.emb_row r) [
        | some row ↦
            if not (ltb row n) || not (holds ix row r)
            then err Error.invalid
            else ok (record ix { vecs = set ix.vecs row (normalize vec) })
        | none ↦
            if leb int_max n
            then err Error.invalid
            else if n == ix.cap
            then (if vecs_granted && recs_granted
                then ok (add_row normalize ix r vec ncap)
                else err Error.nomem)
            else ok (add_row normalize ix r vec ix.cap)
      ]

  -- The last row moves to `row`, and its record is told.
  abbrev pub move_last : Index V → ℕ → ℕ → Index V
  move_last ix row last = elim (get_elem? ix.recs last) [
    | none ↦ ix
    | some moved ↦ elim (get_elem? ix.vecs last) [
      | none ↦ ix
      | some vec ↦ record ix {
        vecs = set ix.vecs row vec;
        recs = set ix.recs row moved;
        emb_row = update ix.emb_row moved (some row);
      }
    ]
  ]

  -- The last row is cut off, and `r` has no row.
  abbrev pub cut_last : Index V → ℕ → ℕ → Index V
  cut_last ix r last = record ix {
    vecs = take last ix.vecs;
    recs = take last ix.recs;
    emb_row = update ix.emb_row r none;
  }

  -- `asper_index_remove`.
  unfoldable pub index_remove : Index V → ℕ → Index V
  index_remove ix r = elim (ix.emb_row r) [
    | none ↦ ix
    | some row ↦
        let last = length ix.recs - 1 in
        if not (ltb row (length ix.recs)) || not (holds ix row r)
        then record ix { emb_row = update ix.emb_row r none }
        else cut_last (if row == last then ix else move_last ix row last) r last
  ]

  -- `asper_index_vec`; `none` is a null pointer.
  unfoldable pub index_vec : Index V → ℕ → Option V
  index_vec ix r = elim (ix.emb_row r) [
    | none ↦ none
    | some row ↦ if ltb row (length ix.recs) then get_elem? ix.vecs row else none
  ]
