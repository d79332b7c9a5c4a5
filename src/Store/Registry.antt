-- ===== src/Store/Registry.antt =====
-- The project registry of src/store.c: a sorted list of slugs with a binary search.
pub mod Laws
pub mod Add
use asterism_asper.Base.{
  ℕ, zero, suc, ◌+◌, ◌-◌, ◌*◌, ◌/◌, Bool, true, false, not, ◌&&◌, List, [], ◌∷◌, ◌++◌, Option, none,
  some, ltb, leb, ◌==◌, if◌then◌else◌, length, get_or, take, drop, Result, ok, err, Error, ◌>>=◌,
  ◌>>◌, fail_if,
}
use asterism_asper.Base.Text.{str_eq, str_lt}
use asterism_asper.Util.Strings.{slug_valid}

abbrev pub project_limit : ℕ
project_limit = 4093

-- The fields `projects`, `projects_n` and `projects_cap` of `asper_store`.
pub record Registry : Type 0 where
  pub projects : List (List ℕ)
  pub cap : ℕ

-- The bounds of the next round, where the middle is not the slug.
abbrev pub narrowed : List (List ℕ) → List ℕ → ℕ → ℕ → ℕ × ℕ
narrowed ps slug lo hi =
    let mid = lo + (hi - lo) / 2 in
    if str_lt (get_or ps mid []) slug then (mid + 1, hi) else (lo, mid)

-- The loop of `asper_store_project_index`. Every round makes `hi - lo` smaller, so that this many
-- rounds are enough.
pub search : ℕ → List (List ℕ) → List ℕ → ℕ → ℕ → ℕ × Bool
search zero ps slug lo hi = (lo, false)
search (suc rounds) ps slug lo hi =
    let mid = lo + (hi - lo) / 2 in
    let (lo', hi') = narrowed ps slug lo hi in
    let rest = search rounds ps slug lo' hi' in
    if not (ltb lo hi)
    then (lo, false)
    else if str_eq (get_or ps mid []) slug
    then (mid, true)
    else rest

pub project_index : List (List ℕ) → List ℕ → ℕ × Bool
project_index ps slug = search (length ps) ps slug 0 (length ps)

-- `asper_store_project_known`; a null slug is `none`.
pub project_known : Registry → Option (List ℕ) → Bool
project_known st none = false
project_known st (some slug) = (project_index st.projects slug).1

-- The `memmove` and the write that follows it.
abbrev pub inserted : List (List ℕ) → ℕ → List ℕ → List (List ℕ)
inserted ps pos slug = take pos ps ++ slug ∷ drop pos ps

abbrev pub grown : Registry → ℕ
grown st = if length st.projects == st.cap then (if st.cap == 0 then 8 else st.cap * 2) else st.cap

-- `asper_store_project_add` of a slug that is not null. `granted` and `copied` are what `realloc`
-- and `asper_strdup` answer; a copy that fails leaves the grown array behind.
pub project_add : Bool → Bool → Registry → List ℕ → Result (Unit {0}) × Registry
project_add granted copied st slug =
    let (pos, found) = project_index st.projects slug in
    let roomy : Registry = record st { cap = grown st } in
    if not (slug_valid slug)
    then (err Error.invalid, st)
    else if found
    then (ok tt, st)
    else if leb project_limit (length st.projects)
    then (err Error.limit, st)
    else if (length st.projects == st.cap) && not granted
    then (err Error.nomem, st)
    else if not copied
    then (err Error.nomem, roomy)
    else (ok tt, record roomy { projects = inserted st.projects pos slug })
