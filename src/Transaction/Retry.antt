-- ===== src/Transaction/Retry.antt =====
-- Recoveries that are tried again, for src/store_transaction.c.
use asterism_asper.Base.{
  ℕ, ◌≤◌, ◌≡◌, ◌≢◌, refl, sym, ◌∙◌, false, List, [], ◌∷◌, none, some, length, ltb, subst,
  Option-cases, inl, inr, ◌⊎◌, Result, ok, err, Error, All,
}
use asterism_asper.Base.Text.{str_eq_refl}
use asterism_asper.Sha256.{sha256}
use asterism_asper.EventFrame.{hex_digest}
use asterism_asper.EventFrame.Read.{Reading}
use asterism_asper.Transaction.{
  Disk, Reply, Entry, marker, backup_path, remove_file, removed, replaced, copy_bytes, file_copy,
  file_max,
}
use asterism_asper.Transaction.Compact.{
  Recovering, gone_too, restore_check, restore_apply, check_all, restore_all, finish,
  compact_recover,
}
use asterism_asper.Transaction.Disk.{target_ne_backup, in_bound, file_copy-same}
use asterism_asper.Transaction.Recover.{
  IsKept, IsNamed, IsPending, IsDone, IsKept-on, no_marker, restore_apply-IsStep,
  restore_all-IsPass, compact_recover-Ending,
}

-- Every call of a recovery succeeds.
pub record IsGood (io : Recovering) : Type 0 where
  pub compared : (rel : List ℕ) → io.compared rel ≡ Reply.done
  pub restored : (rel : List ℕ) → io.restored rel ≡ Reply.done
  pub unmarked : io.unmarked ≡ Reply.done

-- Recoveries one after the other, as the store is opened again and again.
unfoldable pub recover_all : List Recovering → Disk → Disk
recover_all [] d = d
recover_all (io ∷ ios) d = recover_all ios (compact_recover io d).1

file_copy-matches :
    (d : Disk) (src bytes expected : List ℕ)
    → d src ≡ some bytes
    → length bytes ≤ file_max
    → hex_digest (sha256 bytes) ≡ expected
    → (file_copy Reply.done d src none (some expected)).0 ≡ ok expected
unfolding file_copy copy_bytes
file_copy-matches d src bytes expected here h e =
    let fits : ltb file_max (length bytes) ≡ false = in_bound (length bytes) h in
    rw (file_copy, here, fits, copy_bytes, e, str_eq_refl expected) refl

remove_file-done : (d : Disk) (path : List ℕ) → gone_too (remove_file Reply.done d path).0 ≡ ok tt
unfolding remove_file removed gone_too
remove_file-done d path = elim (Option-cases (d path)) [
  | inl gone ↦ rw (remove_file, gone) refl
  | inr (bytes, here) ↦ rw (remove_file, here) refl
]

remove_file-ok :
    (d : Disk) (path bytes : List ℕ)
    → d path ≡ some bytes
    → (remove_file Reply.done d path).0 ≡ ok tt
unfolding remove_file removed
remove_file-ok d path bytes here = rw (remove_file, here) refl

clash : {r : Result (Unit {0})} {e : Error} → r ≡ ok tt → r ≢ err e
clash good bad = cc

module _ (before : Disk) where
  restore_check-ok :
      (io : Recovering) (d : Disk) (row : Entry)
      → IsGood io
      → IsKept before d row
      → restore_check io d row ≡ ok tt
  unfolding restore_check
  restore_check-ok io d row g (inl (existed, kept)) =
      let (bytes, was, here, small, same) = kept in
      rw
        (
          restore_check,
          existed,
          g.compared row.rel,
          file_copy-matches d (backup_path row.rel) bytes row.hash here small same,
        )
        refl
  restore_check-ok io d row g (inr (new, was)) = rw (restore_check, new) refl

  check_all-ok :
      (io : Recovering) (d : Disk) (rows : List Entry)
      → IsGood io
      → All (IsKept before d) rows
      → check_all io d rows ≡ ok tt
  unfolding check_all
  check_all-ok io d [] g k = refl
  check_all-ok io d (row ∷ rows) g (k, ks) =
      rw (check_all, restore_check-ok io d row g k) (check_all-ok io d rows g ks)

  restore_apply-ok :
      (io : Recovering) (d : Disk) (row : Entry)
      → IsGood io
      → IsKept before d row
      → (restore_apply io d row).0 ≡ ok tt
  unfolding restore_apply replaced
  restore_apply-ok io d row g (inl (existed, kept)) =
      let (bytes, was, here, small, same) = kept in
      rw
        (
          restore_apply,
          existed,
          g.restored row.rel,
          file_copy-same Reply.done d (backup_path row.rel) bytes row.rel row.hash here small same,
        )
        refl
  restore_apply-ok io d row g (inr (new, was)) =
      rw (restore_apply, new, g.restored row.rel) (remove_file-done d row.rel)

  restore_all-ok :
      (io : Recovering) (d : Disk) (rows : List Entry)
      → IsGood io
      → IsNamed rows
      → All (IsKept before d) rows
      → (restore_all io d rows).0 ≡ ok tt
  unfolding restore_all
  restore_all-ok io d [] g n k = refl
  restore_all-ok io d (row ∷ rows) g (valid, apart, n) (k, ks) =
      let next : Disk = (restore_apply io d row).1 in
      let step = restore_apply-IsStep before io d row k in
      rw (restore_all, restore_apply-ok io d row g k)
        (restore_all-ok io next rows g n (
          IsKept-on before d next rows
            (λ q. step.0 (backup_path q) (λ e. target_ne_backup row.rel q valid (sym e))) ks))

  finish-ok :
      (io : Recovering) (d : Disk) (rows : List Entry) (bytes : List ℕ)
      → IsGood io
      → d marker ≡ some bytes
      → (finish io d rows).0 ≡ ok tt
  unfolding finish
  finish-ok io d rows bytes g here =
      rw (finish, g.unmarked, remove_file-ok d marker bytes here) refl

  compact_recover-ok :
      (io : Recovering) (rows : List Entry) (d : Disk)
      → IsGood io
      → IsPending before io.reading rows d
      → (compact_recover io d).0 ≡ ok tt
  unfolding compact_recover
  compact_recover-ok io rows d g w =
      let pass = restore_all-IsPass before io d rows w.named w.kept in
      let still = pass.0 marker (no_marker before rows w.named) ∙ w.here in
      simp
        (
          compact_recover,
          w.here,
          w.listed,
          check_all-ok io d rows g w.kept,
          restore_all-ok io d rows g w.named w.kept,
        )
        (finish-ok io (restore_all io d rows).1 rows w.bytes g still)

  compact_recover-none :
      (io : Recovering) (d : Disk) → d marker ≡ none → compact_recover io d ≡ (ok tt, d)
  unfolding compact_recover
  compact_recover-none io d gone = rw (compact_recover, gone) refl

  -- After some recoveries the transaction is pending still, or undone.
  recover_all-cases :
      (ios : List Recovering) (reading : Reading) (rows : List Entry) (d : Disk)
      → All (λ io. io.reading ≡ reading) ios
      → IsPending before reading rows d ⊎ IsDone before rows d
      → IsPending before reading rows (recover_all ios d) ⊎ IsDone before rows (recover_all ios d)
  unfolding recover_all
  recover_all-cases [] reading rows d r w = w
  recover_all-cases (io ∷ ios) reading rows d (r, rs) (inr (gone, backs)) =
      recover_all-cases ios reading rows (compact_recover io d).1 rs
        (rw (compact_recover-none io d gone) (inr (gone, backs)))
  recover_all-cases (io ∷ ios) reading rows d (r, rs) (inl w) =
      recover_all-cases ios reading rows (compact_recover io d).1 rs (
        subst
          (λ f.
            IsPending before f rows (compact_recover io d).1
            ⊎ IsDone before rows (compact_recover io d).1)
          r
          (elim (compact_recover-Ending before io rows d
            (subst (λ f. IsPending before f rows d) (sym r) w)) [
              | inl (good, done) ↦ inr done
              | inr (e, bad, left) ↦ left
            ]))

  -- A transaction that is pending is undone at last: after any number of recoveries, whatever the
  -- system answers to them, one whose calls succeed ends well, with every target as it was before
  -- the transaction and no marker left. The recoveries read the marker alike.
  pub recovery_ends :
      (ios : List Recovering) (io : Recovering) (rows : List Entry) (d : Disk)
      → All (λ tried. tried.reading ≡ io.reading) ios
      → IsGood io
      → IsPending before io.reading rows d
      → ((compact_recover io (recover_all ios d)).0 ≡ ok tt)
        × IsDone before rows (compact_recover io (recover_all ios d)).1
  recovery_ends ios io rows d r g w = elim (recover_all-cases ios io.reading rows d r (inl w)) [
    | inr (gone, backs) ↦
        rw (compact_recover-none io (recover_all ios d) gone) (refl, (gone, backs))
    | inl pending ↦
        let good = compact_recover-ok io rows (recover_all ios d) g pending in
        elim (compact_recover-Ending before io rows (recover_all ios d) pending) [
          | inl ending ↦ ending
          | inr (e, bad, left) ↦ absurd (clash good bad)
        ]
  ]
