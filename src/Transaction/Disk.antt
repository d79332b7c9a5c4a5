-- ===== src/Transaction/Disk.antt =====
-- Files and their names, for src/store_transaction.c.
use asterism_asper.Base.{
  ℕ, ◌-◌, ◌≤◌, ◌≡◌, ◌≢◌, refl, sym, ap, ◌∙◌, Bool, true, false, ◌||◌, ◌&&◌, List, [], ◌∷◌, ◌++◌,
  Option, none, some, ltb, ◌==◌, length, arith, drop, take, take-append-drop, subst, Bool-cases,
  Option-cases, Result-cases, inl, inr, ◌⊎◌, Result, ok, err, Error,
}
use asterism_asper.Base.Text.{codes, str_eq, str_eq→≡, str_eq_refl}
use asterism_asper.Util.Strings.{slug_valid}
use asterism_asper.Transaction.{
  Disk, Reply, put, marker, backup_path, relative_valid, remove_file, replaced, removed, copy_bytes,
  file_copy, file_max,
}
use asterism_asper.Transaction.Compact.{forget, gone_too}
use asterism_asper.Sha256.{sha256}
use asterism_asper.EventFrame.{hex_digest}

-- The last byte, which tells targets, backups and the marker apart.
last : List ℕ → ℕ
last [] = 0
last (c ∷ []) = c
last (c ∷ d ∷ s) = last (d ∷ s)

last-append : (s : List ℕ) (c : ℕ) (t : List ℕ) → last (s ++ c ∷ t) ≡ last (c ∷ t)
unfolding last
last-append [] c t = refl
last-append (d ∷ []) c t = refl
last-append (d ∷ e ∷ s) c t = last-append (e ∷ s) c t

last-backup_path : (rel : List ℕ) → last (backup_path rel) ≡ b'k'
unfolding last
last-backup_path rel = last-append rel b'.' (codes "compact.bak")

ends_case :
    (a b c w x y z : Bool)
    → (a || b || c || (w && x && y && z)) ≡ true
    → a ≡ false
    → b ≡ false
    → c ≡ false
    → y ≡ true
ends_case a b c w x y z h i j k = ground (arith, h, i, j, k)

last-relative_valid : (rel : List ℕ) → relative_valid rel ≡ true → last rel ≡ b'n'
unfolding relative_valid last
last-relative_valid rel h = elim (Bool-cases (str_eq rel (codes "identity.xcdn"))) [
  | inl e ↦ ap last (str_eq→≡ rel (codes "identity.xcdn") e) ∙ refl
  | inr n1 ↦ elim (Bool-cases (str_eq rel (codes "context.xcdn"))) [
    | inl e ↦ ap last (str_eq→≡ rel (codes "context.xcdn") e) ∙ refl
    | inr n2 ↦ elim (Bool-cases (str_eq rel (codes "journal.xcdn"))) [
      | inl e ↦ ap last (str_eq→≡ rel (codes "journal.xcdn") e) ∙ refl
      | inr n3 ↦
          let ends : str_eq (drop (length rel - 5) rel) (codes ".xcdn") ≡ true =
            ends_case (str_eq rel (codes "identity.xcdn")) (str_eq rel (codes "context.xcdn"))
              (str_eq rel (codes "journal.xcdn")) (str_eq (take 9 rel) (codes "projects/"))
              (ltb 14 (length rel)) (str_eq (drop (length rel - 5) rel) (codes ".xcdn"))
              (slug_valid (take (length rel - 14) (drop 9 rel))) h n1 n2 n3 in
          let whole : rel ≡ take (length rel - 5) rel ++ codes ".xcdn" =
            sym (take-append-drop (length rel - 5) rel)
            ∙ ap (λ t. take (length rel - 5) rel ++ t)
                (str_eq→≡ (drop (length rel - 5) rel) (codes ".xcdn") ends) in
          ap last whole ∙ last-append (take (length rel - 5) rel) b'.' (codes "xcdn") ∙ refl
    ]
  ]
]

-- Numbers that are not the same.
apart : (a b : ℕ) → (a == b) ≡ false → a ≢ b
apart a b h e = ground (arith, h, e)

-- A target is neither a backup nor the marker, and a backup is no marker.
pub target_ne_backup : (rel q : List ℕ) → relative_valid rel ≡ true → rel ≢ backup_path q
target_ne_backup rel q h e =
    let k : last rel ≡ b'n' = last-relative_valid rel h in
    let l : last (backup_path q) ≡ b'k' = last-backup_path q in
    apart b'n' b'k' refl (sym k ∙ ap last e ∙ l)

pub target_ne_marker : (rel : List ℕ) → relative_valid rel ≡ true → rel ≢ marker
unfolding last
target_ne_marker rel h e = apart b'n' b'g' refl (sym (last-relative_valid rel h) ∙ ap last e)

pub backup_ne_marker : (rel : List ℕ) → backup_path rel ≢ marker
unfolding last
backup_ne_marker rel e = apart b'k' b'g' refl (sym (last-backup_path rel) ∙ ap last e)

pub in_bound : (n : ℕ) → n ≤ file_max → ltb file_max n ≡ false
in_bound n h = ground arith

-- Reading a disk after one write.
pub put_self : (d : Disk) (path : List ℕ) (b : Option (List ℕ)) → put d path b path ≡ b
put_self d path b = rw str_eq_refl refl

pub put_ne : (d : Disk) (path q : List ℕ) (b : Option (List ℕ)) → q ≢ path → put d path b q ≡ d q
put_ne d path q b n = elim (Bool-cases (str_eq q path)) [
  | inl same ↦ absurd (n (str_eq→≡ q path same))
  | inr other ↦ rw other refl
]

pub replaced-frame :
    {A : Type 0} (reply : Reply) (d : Disk) (path q bytes : List ℕ) (a : A)
    → q ≢ path
    → (replaced reply d path bytes a).1 q ≡ d q
unfolding replaced
replaced-frame Reply.done d path q bytes a n = put_ne d path q (some bytes) n
replaced-frame (Reply.refused e) d path q bytes a n = refl
replaced-frame (Reply.unsynced e) d path q bytes a n = refl
replaced-frame (Reply.uncertain e) d path q bytes a n = put_ne d path q (some bytes) n

removed-frame :
    (reply : Reply) (d : Disk) (path q : List ℕ) → q ≢ path → (removed reply d path).1 q ≡ d q
unfolding removed
removed-frame Reply.done d path q n = put_ne d path q none n
removed-frame (Reply.refused e) d path q n = refl
removed-frame (Reply.unsynced e) d path q n = refl
removed-frame (Reply.uncertain e) d path q n = put_ne d path q none n

-- One operation on the file at `path`: it succeeds and the file is as wanted, or it fails.
abbrev pub IsStep : Disk → List ℕ → Option (List ℕ) → Result (Unit {0}) × Disk → Type 0
IsStep d path wanted r =
    ((q : List ℕ) → q ≢ path → r.1 q ≡ d q)
    × (((r.0 ≡ ok tt) × (r.1 path ≡ wanted)) ⊎ ((e : Error) × (r.0 ≡ err e)))

pub replaced-IsStep :
    {A : Type 0} (reply : Reply) (d : Disk) (path bytes : List ℕ) (a : A)
    → IsStep d path
        (some bytes)
        (forget (replaced reply d path bytes a).0, (replaced reply d path bytes a).1)
unfolding replaced
replaced-IsStep Reply.done d path bytes a =
    (λ q n. put_ne d path q (some bytes) n, inl (refl, put_self d path (some bytes)))
replaced-IsStep (Reply.refused e) d path bytes a = (λ q n. refl, inr (e, refl))
replaced-IsStep (Reply.unsynced e) d path bytes a = (λ q n. refl, inr (e, refl))
replaced-IsStep (Reply.uncertain e) d path bytes a =
    (λ q n. put_ne d path q (some bytes) n, inr (e, refl))

-- A removal that may find the file gone.
removed-IsStep :
    (reply : Reply) (d : Disk) (path : List ℕ)
    → IsStep d path none (gone_too (removed reply d path).0, (removed reply d path).1)
unfolding removed gone_too
removed-IsStep Reply.done d path = (λ q n. put_ne d path q none n, inl (refl, put_self d path none))
removed-IsStep (Reply.refused e) d path = (λ q n. refl, inr (Error.io, refl))
removed-IsStep (Reply.unsynced e) d path = (λ q n. refl, inr (Error.io, refl))
removed-IsStep (Reply.uncertain e) d path = (
  λ q n. put_ne d path q none n,
  elim (Result-cases (gone_too (err e))) [
    | inl (code, bad) ↦ inr (code, bad)
    | inr (u, good) ↦ inl (good, put_self d path none)
  ],
)

pub remove_file-IsStep :
    (reply : Reply) (d : Disk) (path : List ℕ)
    → IsStep d path none (gone_too (remove_file reply d path).0, (remove_file reply d path).1)
unfolding remove_file gone_too
remove_file-IsStep reply d path = elim (Option-cases (d path)) [
  | inl gone ↦ rw (remove_file, gone) (λ q n. refl, inl (refl, gone))
  | inr (bytes, here) ↦ rw (remove_file, here) (removed-IsStep reply d path)
]

removed-cases :
    (reply : Reply) (d : Disk) (path bytes : List ℕ)
    → d path ≡ some bytes
    → (((removed reply d path).0 ≡ ok tt) × ((removed reply d path).1 path ≡ none))
      ⊎ ((e : Error) × ((removed reply d path).0 ≡ err e)
          × (((removed reply d path).1 path ≡ some bytes) ⊎ ((removed reply d path).1 path ≡ none)))
unfolding removed
removed-cases Reply.done d path bytes here = inl (refl, put_self d path none)
removed-cases (Reply.refused e) d path bytes here = inr (Error.io, refl, inl here)
removed-cases (Reply.unsynced e) d path bytes here = inr (Error.io, refl, inl here)
removed-cases (Reply.uncertain e) d path bytes here = inr (e, refl, inr (put_self d path none))

remove_file-here :
    (reply : Reply) (d : Disk) (path bytes : List ℕ)
    → d path ≡ some bytes
    → remove_file reply d path ≡ removed reply d path
unfolding remove_file
remove_file-here reply d path bytes here = rw (remove_file, here) refl

-- The removal of a file that is there leaves it or takes it away.
pub remove_file-cases :
    (reply : Reply) (d : Disk) (path bytes : List ℕ)
    → d path ≡ some bytes
    → (((remove_file reply d path).0 ≡ ok tt) × ((remove_file reply d path).1 path ≡ none))
      ⊎ ((e : Error) × ((remove_file reply d path).0 ≡ err e)
          × (((remove_file reply d path).1 path ≡ some bytes)
              ⊎ ((remove_file reply d path).1 path ≡ none)))
unfolding remove_file
remove_file-cases reply d path bytes here =
    subst
      (λ r.
        ((r.0 ≡ ok tt) × (r.1 path ≡ none))
        ⊎ ((e : Error) × (r.0 ≡ err e) × ((r.1 path ≡ some bytes) ⊎ (r.1 path ≡ none))))
      (sym (remove_file-here reply d path bytes here)) (removed-cases reply d path bytes here)

pub remove_file-frame :
    (reply : Reply) (d : Disk) (path q : List ℕ) → q ≢ path → (remove_file reply d path).1 q ≡ d q
unfolding remove_file
remove_file-frame reply d path q n = elim (Option-cases (d path)) [
  | inl gone ↦ rw (remove_file, gone) refl
  | inr (bytes, here) ↦ rw (remove_file, here) (removed-frame reply d path q n)
]

-- A backup whose hash is the one expected.
pub copy_bytes-same :
    (reply : Reply) (d : Disk) (bytes dst expected : List ℕ)
    → hex_digest (sha256 bytes) ≡ expected
    → (copy_bytes reply d bytes (some dst) (some expected)
        ≡ replaced reply d dst bytes (hex_digest (sha256 bytes)))
unfolding copy_bytes replaced
copy_bytes-same Reply.done d bytes dst expected e = rw (copy_bytes, e, str_eq_refl expected) refl
copy_bytes-same (Reply.refused f) d bytes dst expected e = refl
copy_bytes-same (Reply.unsynced f) d bytes dst expected e =
    rw (copy_bytes, e, str_eq_refl expected) refl
copy_bytes-same (Reply.uncertain f) d bytes dst expected e =
    rw (copy_bytes, e, str_eq_refl expected) refl

pub file_copy-same :
    (reply : Reply) (d : Disk) (src bytes dst expected : List ℕ)
    → d src ≡ some bytes
    → length bytes ≤ file_max
    → hex_digest (sha256 bytes) ≡ expected
    → file_copy reply d src (some dst) (some expected)
      ≡ replaced reply d dst bytes (hex_digest (sha256 bytes))
unfolding file_copy
file_copy-same reply d src bytes dst expected here h e =
    let fits : ltb file_max (length bytes) ≡ false = in_bound (length bytes) h in
    rw (file_copy, here, fits) (copy_bytes-same reply d bytes dst expected e)
