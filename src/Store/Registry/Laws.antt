-- ===== src/Store/Registry/Laws.antt =====
-- The binary search finds every slug of a sorted registry, and the place of every other one.
use asterism_asper.Base.{
  ℕ, zero, suc, ◌+◌, ◌-◌, ◌/◌, ◌≤◌, ◌<◌, ◌≡◌, refl, ap, subst, ◌∙◌, Bool, true, false, List, [],
  ◌∷◌, some, ltb, ◌==◌, length, get_or, get_elem?, arith, Bool-cases, inl, inr, get_elem?-lt,
}
use asterism_asper.Base.Text.{str_eq, str_lt, str_eq→≡, str_lt_trans, str_lt_total}
use asterism_asper.Store.Registry.{narrowed, search, project_index}

-- Strictly ascending, by `strcmp`.
abbrev pub IsSorted : List (List ℕ) → Type 0
IsSorted ps =
    (i j : ℕ) (a b : List ℕ)
    → get_elem? ps i ≡ some a
    → get_elem? ps j ≡ some b
    → i < j
    → str_lt a b ≡ true

-- The slugs below `lo` come before `slug`, those from `hi` on come after it.
pub record IsBetween (ps : List (List ℕ)) (slug : List ℕ) (lo hi : ℕ) : Type 0 where
  pub ordered : (lo ≤ hi) × (hi ≤ length ps)
  pub below : (i : ℕ) (a : List ℕ) → get_elem? ps i ≡ some a → i < lo → str_lt a slug ≡ true
  pub above : (i : ℕ) (a : List ℕ) → get_elem? ps i ≡ some a → hi ≤ i → str_lt slug a ≡ true

-- What a search returns: where the slug is, or where it would go.
abbrev pub IsPlace : List (List ℕ) → List ℕ → ℕ × Bool → Type 0
IsPlace ps slug (pos, found) = elim found [
  | true ↦ get_elem? ps pos ≡ some slug
  | false ↦ IsBetween ps slug pos pos
]

get_or-get_elem? :
    (ps : List (List ℕ)) (i : ℕ) → i < length ps → get_elem? ps i ≡ some (get_or ps i [])
get_or-get_elem? [] i h = absurd (omega arith)
get_or-get_elem? (p ∷ ps) zero h = refl
get_or-get_elem? (p ∷ ps) (suc i) h = get_or-get_elem? ps i (omega arith)

to_right :
    (ps : List (List ℕ)) (slug : List ℕ) (lo hi mid : ℕ)
    → IsSorted ps
    → IsBetween ps slug lo hi
    → (lo ≤ mid) × (mid < hi)
    → str_lt (get_or ps mid []) slug ≡ true
    → IsBetween ps slug (mid + 1) hi
to_right ps slug lo hi mid s b m lt = record {
  ordered = (omega arith, b.ordered.1);
  below = λ i a e h.
      let here = get_or-get_elem? ps mid (omega (arith, b.ordered)) in
      elim (Bool-cases (i == mid)) [
        | inl same ↦ ground (arith, same, e, here, lt)
        | inr other ↦
            str_lt_trans a (get_or ps mid []) slug
              (s i mid a (get_or ps mid []) e here (ground arith)) lt
      ];
  above = b.above;
}

to_left :
    (ps : List (List ℕ)) (slug : List ℕ) (lo hi mid : ℕ)
    → IsSorted ps
    → IsBetween ps slug lo hi
    → (lo ≤ mid) × (mid < hi)
    → str_lt (get_or ps mid []) slug ≡ false
    → str_eq (get_or ps mid []) slug ≡ false
    → IsBetween ps slug lo mid
to_left ps slug lo hi mid s b m ge ne = record {
  ordered = (omega arith, omega (arith, b.ordered));
  below = b.below;
  above = λ i a e h.
      let here = get_or-get_elem? ps mid (omega (arith, b.ordered)) in
      let gt = str_lt_total (get_or ps mid []) slug ge ne in
      elim (Bool-cases (i == mid)) [
        | inl same ↦ ground (arith, same, e, here, gt)
        | inr other ↦
            str_lt_trans slug (get_or ps mid []) a gt
              (s mid i (get_or ps mid []) a here e (ground arith))
      ];
}

settled :
    (ps : List (List ℕ)) (slug : List ℕ) (lo hi : ℕ)
    → IsBetween ps slug lo hi
    → hi ≤ lo
    → IsBetween ps slug lo lo
settled ps slug lo hi b h =
    let same : hi ≡ lo = omega (arith, b.ordered) in subst (λ k. IsBetween ps slug lo k) same b

-- A round that does not find the slug keeps its place between the bounds, and narrows them.
narrowed-IsBetween :
    (ps : List (List ℕ)) (slug : List ℕ) (lo hi : ℕ)
    → IsSorted ps
    → IsBetween ps slug lo hi
    → lo < hi
    → str_eq (get_or ps (lo + (hi - lo) / 2) []) slug ≡ false
    → let (lo', hi') = narrowed ps slug lo hi in IsBetween ps slug lo' hi' × (hi' - lo' < hi - lo)
narrowed-IsBetween ps slug lo hi s b h ne =
    let mid = lo + (hi - lo) / 2 in
    elim (Bool-cases (str_lt (get_or ps mid []) slug)) [
      | inl less ↦
          rw less (to_right ps slug lo hi mid s b (omega arith, omega arith) less, omega arith)
      | inr more ↦
          rw more (to_left ps slug lo hi mid s b (omega arith, omega arith) more ne, omega arith)
    ]

search-IsPlace :
    (rounds : ℕ) (ps : List (List ℕ)) (slug : List ℕ) (lo hi : ℕ)
    → IsSorted ps
    → IsBetween ps slug lo hi
    → hi - lo ≤ rounds
    → IsPlace ps slug (search rounds ps slug lo hi)
unfolding search
search-IsPlace zero ps slug lo hi s b h = settled ps slug lo hi b (omega arith)
search-IsPlace (suc rounds) ps slug lo hi s b h =
    let mid = lo + (hi - lo) / 2 in
    elim (Bool-cases (ltb lo hi)) [
      | inr done ↦ rw done (settled ps slug lo hi b (ground (arith, done)))
      | inl more ↦
          let lt : lo < hi = ground (arith, more) in
          elim (Bool-cases (str_eq (get_or ps mid []) slug)) [
            | inl same ↦
                rw (more, same)
                  (get_or-get_elem? ps mid (omega (arith, b.ordered))
                    ∙ ap some (str_eq→≡ (get_or ps mid []) slug same))
            | inr ne ↦
                let (next, fewer) = narrowed-IsBetween ps slug lo hi s b lt ne in
                rw (more, ne)
                  (search-IsPlace rounds ps slug (narrowed ps slug lo hi).0
                    (narrowed ps slug lo hi).1 s next (omega arith))
          ]
    ]

-- The search of a sorted registry finds the slug, or the one place that keeps the order.
pub project_index-IsPlace :
    (ps : List (List ℕ)) (slug : List ℕ) → IsSorted ps → IsPlace ps slug (project_index ps slug)
unfolding project_index
project_index-IsPlace ps slug s =
    search-IsPlace (length ps) ps slug 0 (length ps) s
      (record {
        ordered = (omega arith, omega arith);
        below = λ i a e h. absurd (omega arith);
        above = λ i a e h. absurd (omega (arith, get_elem?-lt ps i a e));
      })
      (omega arith)
