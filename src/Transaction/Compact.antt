-- ===== src/Transaction/Compact.antt =====
-- Recovery, beginning and commit of a compaction, src/store_transaction.c.
use asterism_asper.Base.{
  ℕ, ◌*◌, Bool, true, false, ◌&&◌, ◌||◌, not, List, [], ◌∷◌, ◌++◌, Option, none, some, ltb, ◌==◌,
  if◌then◌else◌, length, Result, ok, err, Error,
}
use asterism_asper.Base.Text.{codes, str_eq}
use asterism_asper.EventFrame.Read.{Reading}
use asterism_asper.Transaction.{
  Disk, Reply, remove_file, file_copy, checked_read, checked_write, marker, max_files, backup_path,
  relative_valid, Entry, parse,
}

-- What the system answers to a recovery: for each relative path the comparison of its backup, the
-- restoring of its target, and the removal of its backup.
pub record Recovering : Type 0 where
  pub reading : Reading
  pub compared : List ℕ → Reply
  pub restored : List ℕ → Reply
  pub unmarked : Reply
  pub cleaned : List ℕ → Reply

abbrev pub forget {ℓ} : {A : Type ℓ} → Result A → Result (Unit {0})
forget (ok a) = ok tt
forget (err e) = err e

-- A file that is gone needs no removal.
unfoldable pub gone_too : Result (Unit {0}) → Result (Unit {0})
gone_too code = elim code [ err Error.not_found ↦ ok tt | err e ↦ err e | ok u ↦ ok tt ]

-- `restore`, with `apply`: the backup over the target, or the removal of a target that is new.
unfoldable pub restore_apply : Recovering → Disk → Entry → Result (Unit {0}) × Disk
restore_apply io disk row =
    if row.existed
    then (let (code, next) =
          file_copy (io.restored row.rel) disk (backup_path row.rel) (some row.rel)
            (some row.hash) in
        (forget code, next))
    else (let (code, next) = remove_file (io.restored row.rel) disk row.rel in
        (gone_too code, next))

-- `restore`, without `apply`: the backup has the hash of the marker.
unfoldable pub restore_check : Recovering → Disk → Entry → Result (Unit {0})
restore_check io disk row =
    if row.existed
    then forget (file_copy (io.compared row.rel) disk (backup_path row.rel) none (some row.hash)).0
    else ok tt

-- The two passes of `asper_compact_recover`.
unfoldable pub check_all : Recovering → Disk → List Entry → Result (Unit {0})
check_all io disk [] = ok tt
check_all io disk (row ∷ rows) = elim (restore_check io disk row) [
  | err e ↦ err e
  | ok u ↦ check_all io disk rows
]

unfoldable pub restore_all : Recovering → Disk → List Entry → Result (Unit {0}) × Disk
restore_all io disk [] = (ok tt, disk)
restore_all io disk (row ∷ rows) =
    let (code, next) = restore_apply io disk row in
    elim code [ err e ↦ (err e, next) | ok u ↦ restore_all io next rows ]

-- `cleanup` of each entry.
unfoldable pub cleanup_all : Recovering → Disk → List Entry → Disk
cleanup_all io disk [] = disk
cleanup_all io disk (row ∷ rows) =
    cleanup_all io (remove_file (io.cleaned row.rel) disk (backup_path row.rel)).1 rows

-- The end of `asper_compact_recover`.
unfoldable pub finish : Recovering → Disk → List Entry → Result (Unit {0}) × Disk
finish io disk rows =
    let (code, next) = remove_file io.unmarked disk marker in
    elim code [ err e ↦ (err e, next) | ok u ↦ (ok tt, cleanup_all io next rows) ]

-- The entries of the marker.
unfoldable pub marker_rows : Reading → Option (List ℕ) → Result (List Entry)
marker_rows reading file = elim (checked_read reading file (1024 * 1024)) [
  | err e ↦ err e
  | ok text ↦ parse text
]

-- `asper_compact_recover`. An error `not_found` of the marker is that of its file alone.
unfoldable pub compact_recover : Recovering → Disk → Result (Unit {0}) × Disk
compact_recover io disk = elim (disk marker) [
  | none ↦ (ok tt, disk)
  | some bytes ↦ elim (marker_rows io.reading (some bytes)) [
    | err e ↦ (err e, disk)
    | ok rows ↦ elim (check_all io disk rows) [
      | err e ↦ (err e, disk)
      | ok u ↦
          let (code, next) = restore_all io disk rows in
          elim code [ err e ↦ (err e, next) | ok v ↦ finish io next rows ]
    ]
  ]
]

-- What the system answers to the beginning of a transaction: for each relative path the copy of its
-- target, then the marker and the removal of each backup. `random` are the bytes of its UUID.
pub record Beginning : Type 0 where
  pub copied : List ℕ → Reply
  pub written : Reply
  pub cleaned : List ℕ → Reply
  pub random : List ℕ

unfoldable pub any_equal : List ℕ → List (List ℕ) → Bool
any_equal rel [] = false
any_equal rel (q ∷ seen) = str_eq q rel || any_equal rel seen

unfoldable pub names_fit : List (List ℕ) → List (List ℕ) → Bool
names_fit seen [] = true
names_fit seen (rel ∷ rels) =
    relative_valid rel && not (any_equal rel seen) && names_fit (rel ∷ seen) rels

-- The backups, and the text of the marker behind `text`.
unfoldable pub back_up : Beginning → Disk → List ℕ → List (List ℕ) → Result (List ℕ) × Disk
back_up io disk text [] = (ok text, disk)
back_up io disk text (rel ∷ rels) =
    let (code, next) = file_copy (io.copied rel) disk rel (some (backup_path rel)) none in
    elim code [
      | err Error.not_found ↦ back_up io next (text ++ (codes "M - " ++ (rel ++ 0x0a ∷ []))) rels
      | err e ↦ (err e, next)
      | ok hash ↦ back_up io next (text ++ (codes "E " ++ (hash ++ 0x20 ∷ (rel ++ 0x0a ∷ [])))) rels
    ]

unfoldable pub cleanup_names : (List ℕ → Reply) → Disk → List (List ℕ) → Disk
cleanup_names cleaned disk [] = disk
cleanup_names cleaned disk (rel ∷ rels) =
    cleanup_names cleaned (remove_file (cleaned rel) disk (backup_path rel)).1 rels

-- `os_file_exists`.
abbrev pub file_exists : Disk → List ℕ → Bool
file_exists disk path = elim (disk path) [ none ↦ false | some bytes ↦ true ]

-- The end of `asper_compact_begin`: the code, the disk, and whether the store is poisoned.
unfoldable pub begun :
    Beginning → List (List ℕ) → Result (Unit {0}) × Disk → Result (Unit {0}) × Disk × Bool
begun io rels (ok u, disk) = (ok tt, disk, false)
begun io rels (err e, disk) =
    if file_exists disk marker
    then (err e, disk, true)
    else (err e, cleanup_names io.cleaned disk rels, false)

-- `asper_compact_begin`.
unfoldable pub compact_begin : Beginning → Disk → List (List ℕ) → Result (Unit {0}) × Disk × Bool
compact_begin io disk rels =
    if (length rels == 0) || ltb max_files (length rels)
    then (err Error.limit, disk, false)
    else if not (names_fit [] rels)
    then (err Error.invalid, disk, false)
    else if file_exists disk marker
    then (err Error.io, disk, true)
    else (let (code, next) = back_up io disk [] rels in
        elim code [
          | err e ↦ begun io rels (err e, next)
          | ok text ↦ begun io rels (checked_write io.written io.random next marker text)
        ])

-- `asper_compact_commit`.
unfoldable pub compact_commit :
    Reply → (List ℕ → Reply) → Disk → List (List ℕ) → Result (Unit {0}) × Disk
compact_commit unmarked cleaned disk rels =
    let (code, next) = remove_file unmarked disk marker in
    elim code [ err e ↦ (err e, next) | ok u ↦ (ok tt, cleanup_names cleaned next rels) ]
