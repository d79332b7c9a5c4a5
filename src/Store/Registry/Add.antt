-- ===== src/Store/Registry/Add.antt =====
-- Registering a project: the registry stays sorted and knows one slug more.
use asterism_asper.Base.{
  ℕ, zero, suc, ◌-◌, ◌≤◌, ◌≡◌, refl, sym, ap, subst, ◌∙◌, Bool, true, false, not, ◌||◌, ◌&&◌, List,
  [], ◌∷◌, some, ltb, leb, ◌==◌, if◌then◌else◌, length, get_elem?, is_ok, arith, Bool-cases, inl,
  inr, ◌⊎◌, ◌↔◌, some_inj,
}
use asterism_asper.Base.Text.{str_eq, str_eq→≡, str_eq_refl, str_lt_irrefl}
use asterism_asper.Util.Strings.{slug_valid}
use asterism_asper.Store.Registry.{
  Registry, project_index, project_known, project_add, inserted, project_limit,
}
use asterism_asper.Store.Registry.Laws.{IsSorted, IsBetween, IsPlace, project_index-IsPlace}

get_elem?-inserted :
    (ps : List (List ℕ)) (pos : ℕ) (slug : List ℕ) (i : ℕ)
    → pos ≤ length ps
    → get_elem? (inserted ps pos slug) i
      ≡ (if ltb i pos then get_elem? ps i else if i == pos then some slug else get_elem? ps (i - 1))
get_elem?-inserted ps zero slug zero h = ground arith
get_elem?-inserted ps zero slug (suc i) h = ground arith
get_elem?-inserted [] (suc pos) slug i h = absurd (omega arith)
get_elem?-inserted (p ∷ ps) (suc pos) slug zero h = ground arith
get_elem?-inserted (p ∷ ps) (suc pos) slug (suc zero) h =
    ground (arith, get_elem?-inserted ps pos slug zero (omega arith))
get_elem?-inserted (p ∷ ps) (suc pos) slug (suc (suc i)) h =
    ground (arith, get_elem?-inserted ps pos slug (suc i) (omega arith))

inserted-IsSorted :
    (ps : List (List ℕ)) (slug : List ℕ) (pos : ℕ)
    → IsSorted ps
    → IsBetween ps slug pos pos
    → IsSorted (inserted ps pos slug)
inserted-IsSorted ps slug pos s b i j a c e k h = ground (
  arith,
  get_elem?-inserted ps pos slug i b.ordered.1,
  get_elem?-inserted ps pos slug j b.ordered.1,
  s i j a c,
  s i (j - 1) a c,
  s (i - 1) (j - 1) a c,
  b.below i a,
  b.above (j - 1) c,
)

-- Whether a slug stands in the list.
abbrev pub Has : List (List ℕ) → List ℕ → Type 0
Has ps q = (i : ℕ) × (get_elem? ps i ≡ some q)

IsPlace-Has :
    (ps : List (List ℕ)) (q : List ℕ) (r : ℕ × Bool) → IsPlace ps q r → (r.1 ≡ true) ↔ Has ps q
IsPlace-Has ps q (pos, true) e = (λ h. (pos, e), λ h. refl)
IsPlace-Has ps q (pos, false) b =
    (λ h. cc, λ (i, e). absurd (ground (arith, b.below i q e, b.above i q e, str_lt_irrefl q)))

pub known_iff :
    (st : Registry) (q : List ℕ)
    → IsSorted st.projects
    → (project_known st (some q) ≡ true) ↔ Has st.projects q
unfolding project_known
known_iff st q s =
    IsPlace-Has st.projects q (project_index st.projects q) (project_index-IsPlace st.projects q s)

inserted-Has :
    (ps : List (List ℕ)) (slug q : List ℕ) (pos : ℕ)
    → pos ≤ length ps
    → Has (inserted ps pos slug) q ↔ ((str_eq q slug ≡ true) ⊎ Has ps q)
inserted-Has ps slug q pos h = (
  λ (i, e). elim (Bool-cases (ltb i pos)) [
    | inl low ↦ inr (i, sym (rw low at (get_elem?-inserted ps pos slug i h)) ∙ e)
    | inr high ↦ elim (Bool-cases (i == pos)) [
      | inl here ↦
          let same : some slug ≡ some q =
            sym (rw (high, here) at (get_elem?-inserted ps pos slug i h)) ∙ e in
          inl (subst (λ t. str_eq t slug ≡ true) (some_inj same) (str_eq_refl slug))
      | inr past ↦ inr (i - 1, sym (rw (high, past) at (get_elem?-inserted ps pos slug i h)) ∙ e)
    ]
  ],
  λ c. elim c [
    | inl same ↦
        (pos, get_elem?-inserted ps pos slug pos h ∙ ground (arith, ap some (str_eq→≡ q slug same)))
    | inr (i, e) ↦ elim (Bool-cases (ltb i pos)) [
      | inl low ↦ (i, ground (arith, get_elem?-inserted ps pos slug i h, e))
      | inr high ↦ (suc i, ground (arith, get_elem?-inserted ps pos slug (suc i) h, e))
    ]
  ],
)

Bool_eq : (a b : Bool) → ((a ≡ true) ↔ (b ≡ true)) → a ≡ b
Bool_eq a b h = ground arith

-- The slugs that are known once a new one is in its place.
known-inserted :
    (st : Registry) (cap : ℕ) (slug : List ℕ) (pos : ℕ)
    → IsSorted st.projects
    → IsBetween st.projects slug pos pos
    → (q : List ℕ)
    → project_known (record { projects = inserted st.projects pos slug; cap = cap }) (some q)
      ≡ (str_eq q slug || project_known st (some q))
known-inserted st cap slug pos s b q =
    let st' : Registry = record { projects = inserted st.projects pos slug; cap = cap } in
    let (sound, complete) = known_iff st' q (inserted-IsSorted st.projects slug pos s b) in
    let (sound', complete') = known_iff st q s in
    let (from_new, to_new) = inserted-Has st.projects slug q pos b.ordered.1 in
    Bool_eq _ _ (
      λ k. elim (from_new (sound k)) [
        | inl same ↦ rw same refl
        | inr has ↦ ground (arith, complete' has)
      ],
      λ k. complete (
          to_new (elim (Bool-cases (str_eq q slug)) [
            | inl same ↦ inl same
            | inr ne ↦ inr (sound' (rw ne at k))
          ])),
    )

IsPlace-IsBetween :
    (ps : List (List ℕ)) (q : List ℕ) (r : ℕ × Bool)
    → IsPlace ps q r
    → r.1 ≡ false
    → IsBetween ps q r.0 r.0
IsPlace-IsBetween ps q (pos, true) e h = cc
IsPlace-IsBetween ps q (pos, false) b h = b

known-index :
    (st : Registry) (q : List ℕ) → project_known st (some q) ≡ (project_index st.projects q).1
unfolding project_known
known-index st q = refl

known-cap :
    (st : Registry) (cap : ℕ) (q : List ℕ)
    → project_known (record st { cap = cap }) (some q) ≡ project_known st (some q)
unfolding project_known
known-cap st cap q = refl

known_again :
    (st : Registry) (slug q : List ℕ)
    → project_known st (some slug) ≡ true
    → project_known st (some q) ≡ (str_eq q slug || project_known st (some q))
known_again st slug q known = elim (Bool-cases (str_eq q slug)) [
  | inr ne ↦ rw ne refl
  | inl same ↦
      let here : project_known st (some q) ≡ true =
        ap (λ t. project_known st (some t)) (str_eq→≡ q slug same) ∙ known in
      rw (same, here) refl
]

-- Whatever memory answers, adding a project to a sorted registry keeps it sorted, and afterwards
-- it knows what it knew before and, where the call succeeded, the new slug. The call succeeds
-- exactly where the slug is valid and either known already or within the limit with memory for it.
pub project_add_lem :
    (granted copied : Bool) (st : Registry) (slug : List ℕ)
    → IsSorted st.projects
    → let (r, st') = project_add granted copied st slug in
      IsSorted st'.projects
      × ((q : List ℕ)
          → project_known st' (some q) ≡ ((is_ok r && str_eq q slug) || project_known st (some q)))
      × (is_ok r ≡ (
          slug_valid slug
          && (project_known st (some slug)
              || (not (leb project_limit (length st.projects))
                  && (not (length st.projects == st.cap) || granted)
                  && copied))))
unfolding project_add
project_add_lem granted copied st slug s = elim (Bool-cases (slug_valid slug)) [
  | inr invalid ↦ rw invalid (s, λ q. refl, refl)
  | inl valid ↦ elim (Bool-cases (project_known st (some slug))) [
    | inl known ↦
        let found = sym (known-index st slug) ∙ known in
        rw (valid, known, found) (s, λ q. known_again st slug q known, refl)
    | inr unknown ↦
        let new = sym (known-index st slug) ∙ unknown in
        let b =
          IsPlace-IsBetween st.projects slug _ (project_index-IsPlace st.projects slug s) new in
        elim (Bool-cases (leb project_limit (length st.projects))) [
          | inl many ↦ rw (valid, unknown, new, many) (s, λ q. refl, refl)
          | inr few ↦ elim (Bool-cases (length st.projects == st.cap)) [
            | inl full ↦ elim (Bool-cases granted) [
              | inr out ↦ rw (valid, unknown, new, few, full, out) (s, λ q. refl, refl)
              | inl more ↦ elim (Bool-cases copied) [
                | inr out ↦ rw (valid, unknown, new, few, full, more, out) (s, known-cap st _, refl)
                | inl got ↦
                    rw (valid, unknown, new, few, full, more, got)
                      (
                        inserted-IsSorted st.projects slug _ s b,
                        known-inserted st _ slug _ s b,
                        refl,
                      )
              ]
            ]
            | inr fits ↦ elim (Bool-cases copied) [
              | inr out ↦ rw (valid, unknown, new, few, fits, out) (s, known-cap st _, refl)
              | inl got ↦
                  rw (valid, unknown, new, few, fits, got)
                    (inserted-IsSorted st.projects slug _ s b, known-inserted st _ slug _ s b, refl)
            ]
          ]
        ]
  ]
]
