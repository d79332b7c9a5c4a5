-- ===== src/Transaction/Recover.antt =====
-- One recovery of a transaction, whatever the system answers: src/store_transaction.c.
use asterism_asper.Base.{
  ℕ, ◌≤◌, ◌≡◌, ◌≢◌, refl, sym, ◌∙◌, true, false, List, [], ◌∷◌, none, some, length, subst,
  Result-cases, inl, inr, ◌⊎◌, Result, ok, err, Error, All,
}
use asterism_asper.Sha256.{sha256}
use asterism_asper.EventFrame.{hex_digest}
use asterism_asper.EventFrame.Read.{Reading}
use asterism_asper.Transaction.{
  Disk, Entry, marker, backup_path, relative_valid, remove_file, file_max,
}
use asterism_asper.Transaction.Compact.{
  Recovering, restore_apply, restore_all, cleanup_all, finish, marker_rows, check_all,
  compact_recover,
}
use asterism_asper.Transaction.Disk.{
  target_ne_backup, target_ne_marker, backup_ne_marker, replaced-IsStep, remove_file-IsStep,
  remove_file-cases, IsStep, remove_file-frame, file_copy-same,
}

-- What `before` held at the target of an entry stands in its backup on `d`.
abbrev pub IsKept : Disk → Disk → Entry → Type 0
IsKept before d row =
    ((row.existed ≡ true)
      × ((bytes : List ℕ) × (before row.rel ≡ some bytes)
          × (d (backup_path row.rel) ≡ some bytes)
          × (length bytes ≤ file_max)
          × (hex_digest (sha256 bytes) ≡ row.hash)))
    ⊎ ((row.existed ≡ false) × (before row.rel ≡ none))

-- The targets have names of the store, and no two are one.
abbrev pub IsNamed : List Entry → Type 0
IsNamed [] = Unit
IsNamed (row ∷ rows) =
    (relative_valid row.rel ≡ true) × All (λ q. q.rel ≢ row.rel) rows × IsNamed rows

module _ (before : Disk) where
  -- A target is as it was before.
  abbrev pub IsBack : Disk → Entry → Type 0
  IsBack d row = d row.rel ≡ before row.rel

  pub restore_apply-IsStep :
      (io : Recovering) (d : Disk) (row : Entry)
      → IsKept before d row
      → IsStep d row.rel (before row.rel) (restore_apply io d row)
  unfolding restore_apply
  restore_apply-IsStep io d row (inl (existed, kept)) =
      let (bytes, was, here, small, same) = kept in
      let copy =
        file_copy-same (io.restored row.rel) d (backup_path row.rel) bytes row.rel row.hash here
          small same in
      rw (restore_apply, existed, copy, was)
        (replaced-IsStep (io.restored row.rel) d row.rel bytes (hex_digest (sha256 bytes)))
  restore_apply-IsStep io d row (inr (new, was)) =
      rw (restore_apply, new, was) (remove_file-IsStep (io.restored row.rel) d row.rel)

  -- Entries are kept where the backups stay.
  pub IsKept-on :
      (d next : Disk) (rows : List Entry)
      → ((q : List ℕ) → next (backup_path q) ≡ d (backup_path q))
      → All (IsKept before d) rows
      → All (IsKept before next) rows
  IsKept-on d next [] f k = tt
  IsKept-on d next (row ∷ rows) f (k, ks) = (
    elim k [
      | inl (existed, kept) ↦
          let (bytes, was, here, small, hash) = kept in
          inl (existed, (bytes, was, f row.rel ∙ here, small, hash))
      | inr new ↦ inr new
    ],
    IsKept-on d next rows f ks,
  )

  -- The second pass: files that are no targets stay, and a pass that succeeds brings all targets
  -- back.
  abbrev pub IsPass : Disk → List Entry → Result (Unit {0}) × Disk → Type 0
  IsPass d rows r =
      ((q : List ℕ) → All (λ row. q ≢ row.rel) rows → r.1 q ≡ d q)
      × (((r.0 ≡ ok tt) × All (IsBack r.1) rows) ⊎ ((e : Error) × (r.0 ≡ err e)))

  flip_ne :
      (rows : List Entry) (rel : List ℕ) → All (λ q. q.rel ≢ rel) rows → All (λ q. rel ≢ q.rel) rows
  flip_ne [] rel h = tt
  flip_ne (q ∷ rows) rel (n, h) = (λ e. n (sym e), flip_ne rows rel h)

  -- One entry and the rest of a pass.
  IsPass-step :
      (io : Recovering) (d : Disk) (row : Entry) (rows : List Entry) (r : Result (Unit {0}) × Disk)
      → All (λ q. q.rel ≢ row.rel) rows
      → IsStep d row.rel (before row.rel) r
      → IsPass r.1 rows (restore_all io r.1 rows)
      → IsPass d (row ∷ rows) (elim r.0 [ err e ↦ (err e, r.1) | ok u ↦ restore_all io r.1 rows ])
  IsPass-step io d row rows (code, next) apart (frame, inr (e, bad)) (tail, rest) =
      subst
        (λ c.
          IsPass d (row ∷ rows)
            (elim c [ err e ↦ (err e, next) | ok u ↦ restore_all io next rows ]))
        (sym bad) (λ q n. frame q n.0, inr (e, refl))
  IsPass-step io d row rows (code, next) apart (frame, inl (good, back)) (tail, rest) =
      subst
        (λ c.
          IsPass d (row ∷ rows)
            (elim c [ err e ↦ (err e, next) | ok u ↦ restore_all io next rows ]))
        (sym good)
        (
          λ q n. tail q n.1 ∙ frame q n.0,
          elim rest [
            | inl (all, backs) ↦
                inl (all, (tail row.rel (flip_ne rows row.rel apart) ∙ back, backs))
            | inr bad ↦ inr bad
          ],
        )

  pub restore_all-IsPass :
      (io : Recovering) (d : Disk) (rows : List Entry)
      → IsNamed rows
      → All (IsKept before d) rows
      → IsPass d rows (restore_all io d rows)
  unfolding restore_all
  restore_all-IsPass io d [] n k = (λ q h. refl, inl (refl, tt))
  restore_all-IsPass io d (row ∷ rows) (valid, apart, n) (k, ks) =
      let step = restore_apply-IsStep io d row k in
      IsPass-step io d row rows (restore_apply io d row) apart step (
        restore_all-IsPass io (restore_apply io d row).1 rows n (
          IsKept-on d (restore_apply io d row).1 rows
            (λ q. step.0 (backup_path q) (λ e. target_ne_backup row.rel q valid (sym e))) ks))

  cleanup_all-frame :
      (io : Recovering) (d : Disk) (rows : List Entry) (q : List ℕ)
      → All (λ row. q ≢ backup_path row.rel) rows
      → cleanup_all io d rows q ≡ d q
  unfolding cleanup_all
  cleanup_all-frame io d [] q h = refl
  cleanup_all-frame io d (row ∷ rows) q (n, h) =
      cleanup_all-frame io (remove_file (io.cleaned row.rel) d (backup_path row.rel)).1 rows q h
      ∙ remove_file-frame (io.cleaned row.rel) d (backup_path row.rel) q n

  no_backups :
      (q : List ℕ) (rows : List Entry)
      → relative_valid q ≡ true
      → All (λ row. q ≢ backup_path row.rel) rows
  no_backups q [] v = tt
  no_backups q (row ∷ rows) v = (target_ne_backup q row.rel v, no_backups q rows v)

  marker_apart : (rows : List Entry) → All (λ row. marker ≢ backup_path row.rel) rows
  marker_apart [] = tt
  marker_apart (row ∷ rows) = (λ e. backup_ne_marker row.rel (sym e), marker_apart rows)

  IsBack-beside :
      (d next : Disk) (rows : List Entry)
      → IsNamed rows
      → ((q : List ℕ) → relative_valid q ≡ true → next q ≡ d q)
      → All (IsBack d) rows
      → All (IsBack next) rows
  IsBack-beside d next [] n f b = tt
  IsBack-beside d next (row ∷ rows) (v, apart, n) f (b, bs) =
      (f row.rel v ∙ b, IsBack-beside d next rows n f bs)

  -- A transaction that is pending on `d`: the marker names its entries, and the backups hold what
  -- their targets held before.
  pub record IsPending (reading : Reading) (rows : List Entry) (d : Disk) : Type 0 where
    pub bytes : List ℕ
    pub here : d marker ≡ some bytes
    pub listed : marker_rows reading (some bytes) ≡ ok rows
    pub named : IsNamed rows
    pub kept : All (IsKept before d) rows

  -- All targets are as they were before, and no marker is left.
  abbrev pub IsDone : List Entry → Disk → Type 0
  IsDone rows d = (d marker ≡ none) × All (IsBack d) rows

  abbrev pub Ending : Reading → List Entry → Result (Unit {0}) × Disk → Type 0
  Ending reading rows r =
      ((r.0 ≡ ok tt) × IsDone rows r.1)
      ⊎ ((e : Error) × (r.0 ≡ err e) × (IsPending reading rows r.1 ⊎ IsDone rows r.1))

  finish-Ending :
      (io : Recovering) (reading : Reading) (rows : List Entry) (d : Disk)
      → IsPending reading rows d
      → All (IsBack d) rows
      → Ending reading rows (finish io d rows)
  unfolding finish
  finish-Ending io reading rows d w b =
      let next : Disk = (remove_file io.unmarked d marker).1 in
      let frame : (q : List ℕ) → q ≢ marker → next q ≡ d q =
        λ q n. remove_file-frame io.unmarked d marker q n in
      let backs : All (IsBack next) rows =
        IsBack-beside d next rows w.named (λ q v. frame q (target_ne_marker q v)) b in
      elim (remove_file-cases io.unmarked d marker w.bytes w.here) [
        | inl (good, gone) ↦
            rw (finish, good)
              (inl (
                refl,
                (
                  cleanup_all-frame io next rows marker (marker_apart rows) ∙ gone,
                  IsBack-beside next (cleanup_all io next rows) rows w.named
                      (λ q v. cleanup_all-frame io next rows q (no_backups q rows v)) backs,
                ),
              ))
        | inr (e, bad, left) ↦
            rw (finish, bad)
              (inr (
                e,
                refl,
                elim left [
                  | inl still ↦ inl (record {
                    bytes = w.bytes;
                    here = still;
                    listed = w.listed;
                    named = w.named;
                    kept =
                        IsKept-on d next rows (λ q. frame (backup_path q) (backup_ne_marker q))
                          w.kept;
                  })
                  | inr gone ↦ inr (gone, backs)
                ],
              ))
      ]

  no_targets :
      (q : List ℕ) (rows : List Entry) → IsNamed rows → All (λ row. backup_path q ≢ row.rel) rows
  no_targets q [] n = tt
  no_targets q (row ∷ rows) (v, apart, n) =
      (λ e. target_ne_backup row.rel q v (sym e), no_targets q rows n)

  pub no_marker : (rows : List Entry) → IsNamed rows → All (λ row. marker ≢ row.rel) rows
  no_marker [] n = tt
  no_marker (row ∷ rows) (v, apart, n) = (λ e. target_ne_marker row.rel v (sym e), no_marker rows n)

  -- What follows the second pass.
  after_pass :
      (io : Recovering) (reading : Reading) (rows : List Entry) (d : Disk)
      (r : Result (Unit {0}) × Disk)
      → IsPending reading rows d
      → IsPass d rows r
      → Ending reading rows (elim r.0 [ err e ↦ (err e, r.1) | ok v ↦ finish io r.1 rows ])
  after_pass io reading rows d (code, next) w (frame, outcome) =
      let pending : IsPending reading rows next = record {
        bytes = w.bytes;
        here = frame marker (no_marker rows w.named) ∙ w.here;
        listed = w.listed;
        named = w.named;
        kept =
            IsKept-on d next rows (λ q. frame (backup_path q) (no_targets q rows w.named)) w.kept;
      } in
      elim outcome [
        | inl (good, backs) ↦
            subst
              (λ c.
                Ending reading rows (elim c [ err e ↦ (err e, next) | ok v ↦ finish io next rows ]))
              (sym good) (finish-Ending io reading rows next pending backs)
        | inr (e, bad) ↦
            subst
              (λ c.
                Ending reading rows (elim c [ err e ↦ (err e, next) | ok v ↦ finish io next rows ]))
              (sym bad) (inr (e, refl, inl pending))
      ]

  -- A recovery of a pending transaction, whatever the system answers: it succeeds, and then every
  -- target is as it was before the transaction and the marker is gone, or it fails, and then the
  -- transaction is still pending or is undone already.
  pub compact_recover-Ending :
      (io : Recovering) (rows : List Entry) (d : Disk)
      → IsPending io.reading rows d
      → Ending io.reading rows (compact_recover io d)
  unfolding compact_recover
  compact_recover-Ending io rows d w = elim (Result-cases (check_all io d rows)) [
    | inl (e, bad) ↦ simp (compact_recover, w.here, w.listed, bad) (inr (e, refl, inl w))
    | inr (u, good) ↦
        simp (compact_recover, w.here, w.listed, good)
          (after_pass io io.reading rows d (restore_all io d rows) w
            (restore_all-IsPass io d rows w.named w.kept))
  ]
