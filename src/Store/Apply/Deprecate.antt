-- ===== src/Store/Apply/Deprecate.antt =====
-- Deprecation is idempotent.
use asterism_asper.Base.{
  ℕ, ◌≡◌, refl, sym, ap, ◌∙◌, Bool, true, List, some, ok, Bool-cases, inl, inr,
}
use asterism_asper.Base.Int.{ℤ}
use asterism_asper.Base.Text.{str_eq, str_eq→≡, str_eq_refl}
use asterism_asper.Record.{Record, Doubles}
use asterism_asper.Store.Apply.{
  TableOps, OpKind, Op, Store, deprecated_now, change, apply_kind, change_table, store_apply,
}
use asterism_asper.Store.Apply.Laws.{deprecated_now-id}

module _ {D T : Type 0} (num : Doubles D) (ops : TableOps D T) where
  is_deprecated : (at : ℤ) (rec : Record D) → (deprecated_now num ops at rec).deprecated ≡ true
  is_deprecated at rec = elim (Bool-cases rec.deprecated) [
    | inl dead ↦ rw (deprecated_now, dead) refl
    | inr live ↦ rw (deprecated_now, live) refl
  ]

  again :
      (later : ℤ) (rec : Record D) → rec.deprecated ≡ true → deprecated_now num ops later rec ≡ rec
  again later rec dead = rw (deprecated_now, dead) refl

  -- Writing what is there already changes no lookup.
  write-same :
      (t : T) (id q : List ℕ) (r : Record D)
      → ops.get t id ≡ some r
      → ops.get (ops.write t id r) q ≡ ops.get t q
  write-same t id q r found = elim (Bool-cases (str_eq q id)) [
    | inr other ↦ ops.get-write t id q r r found (ops.get-id t id r found) ∙ rw other refl
    | inl same ↦
        ops.get-write t id q r r found (ops.get-id t id r found)
        ∙ rw same (sym (ap (λ k. ops.get t k) (str_eq→≡ q id same) ∙ found))
  ]

  store-deprecate :
      (granted copied : Bool) (st : Store T) (op : Op D)
      → op.kind ≡ OpKind.deprecate
      → store_apply num ops granted copied st op
        ≡ change_table num ops st (change num ops st.table op.id (deprecated_now num ops op.at))
  unfolding store_apply apply_kind
  store-deprecate granted copied st op e = rw e refl

  -- The store once a record that is there is deprecated.
  abbrev marked : Store T → Op D → Record D → Store T
  marked st op rec = record st {
    table = ops.write st.table op.id (deprecated_now num ops op.at rec);
  }

  store-marked :
      (granted copied : Bool) (st : Store T) (op : Op D) (rec : Record D)
      → op.kind ≡ OpKind.deprecate
      → ops.get st.table op.id ≡ some rec
      → store_apply num ops granted copied st op ≡ (ok tt, marked st op rec)
  store-marked granted copied st op rec e found =
      store-deprecate granted copied st op e ∙ rw (change, found) refl

  -- Over any record table that keeps the laws of `TableOps`, deprecating a record that is there
  -- succeeds, and deprecating it once more, with any later or earlier time, succeeds as well and
  -- changes no record.
  pub deprecate-deprecate :
      (granted copied : Bool) (st : Store T) (op : Op D) (rec : Record D) (later : ℤ)
      → op.kind ≡ OpKind.deprecate
      → ops.get st.table op.id ≡ some rec
      → let (r, st') = store_apply num ops granted copied st op in
        let (r', st'') = store_apply num ops granted copied st' (record op { at = later }) in
        (r ≡ ok tt) × (r' ≡ ok tt) × ((q : List ℕ) → ops.get st''.table q ≡ ops.get st'.table q)
  deprecate-deprecate granted copied st op rec later k found =
      let d = deprecated_now num ops op.at rec in
      let kept_id = deprecated_now-id num ops op.at rec ∙ ops.get-id st.table op.id rec found in
      let op' : Op D = record op { at = later } in
      let there : ops.get (marked st op rec).table op.id ≡ some d =
        ops.get-write st.table op.id op.id rec d found kept_id ∙ rw (str_eq_refl op.id) refl in
      let first = store-marked granted copied st op rec k found in
      let second = store-marked granted copied (marked st op rec) op' d k there in
      rw (first, second)
        (
          refl,
          refl,
          λ q.
              ap (λ r. ops.get (ops.write (marked st op rec).table op.id r) q)
                (again later d (is_deprecated op.at rec))
              ∙ write-same (marked st op rec).table op.id q d there,
        )
