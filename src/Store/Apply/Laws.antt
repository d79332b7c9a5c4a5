-- ===== src/Store/Apply/Laws.antt =====
-- What an operation changes in the record table, and what it leaves alone.
use asterism_asper.Base.{
  ℕ, ◌≡◌, refl, sym, ap, ◌∙◌, Bool, false, List, [], ◌∷◌, none, some, ◌||◌, Result, ok, err, Error,
  arith, Bool-cases, Option-cases, inl, inr, ok_inj, ◌⊎◌, ap,
}
use asterism_asper.Base.Int.{ℤ}
use asterism_asper.Base.Text.{str_eq}
use asterism_asper.Record.{Record, Doubles}
use asterism_asper.Store.Apply.{
  TableOps, OpKind, Op, Store, deprecated_now, accessed, change, access_all, insert_record,
  update_content, apply_kind, create_project, change_table, store_apply,
}

-- Whether a list of ids holds `q`.
abbrev pub holds_id : List (List ℕ) → List ℕ → Bool
holds_id [] q = false
holds_id (id ∷ ids) q = str_eq q id || holds_id ids q

-- Whether an operation is about the record `q`.
abbrev pub concerns : {D : Type 0} → OpKind → Op D → List ℕ → Bool
concerns OpKind.insert op q = elim op.inserted [ none ↦ false | some rec ↦ str_eq q rec.id ]
concerns OpKind.access op q = holds_id op.ids q
concerns OpKind.project_create op q = false
concerns _ op q = str_eq q op.id

Result-cases {ℓ} :
    {A : Type ℓ} (r : Result A) → ((a : A) × (r ≡ ok a)) ⊎ ((e : Error) × (r ≡ err e))
Result-cases (ok a) = inl (a, refl)
Result-cases (err e) = inr (e, refl)

module _ {D T : Type 0} (num : Doubles D) (ops : TableOps D T) where
  pub deprecated_now-id : (at : ℤ) (rec : Record D) → (deprecated_now num ops at rec).id ≡ rec.id
  deprecated_now-id at rec = elim (Bool-cases rec.deprecated) [
    | inl dead ↦ rw (deprecated_now, dead) refl
    | inr live ↦ rw (deprecated_now, live) refl
  ]

  write-other :
      (t : T) (id q : List ℕ) (old r : Record D)
      → ops.get t id ≡ some old
      → r.id ≡ old.id
      → str_eq q id ≡ false
      → ops.get (ops.write t id r) q ≡ ops.get t q
  write-other t id q old r e same ne =
      ops.get-write t id q old r e (same ∙ ops.get-id t id old e) ∙ rw ne refl

  change-other :
      (t t' : T) (id q : List ℕ) (f : Record D → Record D)
      → ((r : Record D) → (f r).id ≡ r.id)
      → change num ops t id f ≡ ok t'
      → str_eq q id ≡ false
      → ops.get t' q ≡ ops.get t q
  change-other t t' id q f keeps e ne = elim (Option-cases (ops.get t id)) [
    | inl missing ↦ absurd (cc (rw (missing, change) at e))
    | inr (rec, found) ↦
        ap (λ u. ops.get u q) (sym (ok_inj (rw (found, change) at e)))
        ∙ write-other t id q rec (f rec) found (keeps rec) ne
  ]

  access-other :
      (t : T) (ids : List (List ℕ)) (at : ℤ) (q : List ℕ)
      → holds_id ids q ≡ false
      → ops.get (access_all num ops t ids at) q ≡ ops.get t q
  unfolding access_all
  access-other t [] at q ne = refl
  access-other t (id ∷ ids) at q ne = elim (Option-cases (ops.get t id)) [
    | inl missing ↦ rw (missing, access_all) (access-other t ids at q (ground (arith, ne)))
    | inr (rec, found) ↦
        rw (found, access_all)
          (access-other (ops.write t id (accessed num ops at rec)) ids at q (ground (arith, ne))
            ∙ write-other t id q rec (accessed num ops at rec) found refl (ground (arith, ne)))
  ]

  insert-other :
      (t t' : T) (rec : Record D) (q : List ℕ)
      → insert_record num ops t rec ≡ ok t'
      → str_eq q rec.id ≡ false
      → ops.get t' q ≡ ops.get t q
  insert-other t t' rec q e ne = elim (Result-cases (ops.add t (record rec { emb_row = none }))) [
    | inr (code, failed) ↦ absurd (cc (rw (failed, insert_record) at e))
    | inl (t₁, added) ↦
        ap (λ u. ops.get u q) (sym (ok_inj (rw (added, insert_record) at e)))
        ∙ ops.get-add t t₁ (record rec { emb_row = none }) q added
        ∙ rw ne refl
  ]

  update-other :
      (copied : Bool) (t t' : T) (op : Op D) (content q : List ℕ)
      → update_content num ops copied t op content ≡ ok t'
      → str_eq q op.id ≡ false
      → ops.get t' q ≡ ops.get t q
  update-other copied t t' op content q e ne = elim (Option-cases (ops.get t op.id)) [
    | inl missing ↦ absurd (cc (rw (missing, update_content) at e))
    | inr (rec, found) ↦ elim (Bool-cases rec.deprecated) [
      | inl dead ↦ absurd (cc (rw (found, update_content, dead) at e))
      | inr live ↦ elim (Bool-cases copied) [
        | inr out ↦ absurd (cc (rw (found, update_content, live, out) at e))
        | inl got ↦
            ap (λ u. ops.get u q) (sym (ok_inj (rw (found, update_content, live, got) at e)))
            ∙ write-other t op.id q rec _ found refl ne
      ]
    ]
  ]

  apply_kind-other :
      (k : OpKind) (copied : Bool) (t t' : T) (op : Op D) (q : List ℕ)
      → apply_kind num ops k copied t op ≡ ok t'
      → concerns k op q ≡ false
      → ops.get t' q ≡ ops.get t q
  unfolding apply_kind
  apply_kind-other OpKind.insert copied t t' op q e ne = elim (Option-cases op.inserted) [
    | inl missing ↦ absurd (cc (rw missing at e))
    | inr (rec, given) ↦ insert-other t t' rec q (rw given at e) (rw given at ne)
  ]
  apply_kind-other OpKind.update copied t t' op q e ne = elim (Option-cases op.content) [
    | inl missing ↦ absurd (cc (rw missing at e))
    | inr (content, given) ↦ update-other copied t t' op content q (rw given at e) ne
  ]
  apply_kind-other OpKind.deprecate copied t t' op q e ne =
      change-other t t' op.id q _ (deprecated_now-id op.at) e ne
  apply_kind-other OpKind.keep copied t t' op q e ne = change-other t t' op.id q _ (λ r. refl) e ne
  apply_kind-other OpKind.set_locked copied t t' op q e ne =
      change-other t t' op.id q _ (λ r. refl) e ne
  apply_kind-other OpKind.access copied t t' op q e ne =
      ap (λ u. ops.get u q) (sym (ok_inj e)) ∙ access-other t op.ids op.at q ne
  apply_kind-other OpKind.project_create copied t t' op q e ne =
      ap (λ u. ops.get u q) (sym (ok_inj e))

  change_table-other :
      (k : OpKind) (copied : Bool) (st : Store T) (op : Op D) (q : List ℕ) (r : Result T)
      → apply_kind num ops k copied st.table op ≡ r
      → concerns k op q ≡ false
      → ops.get (change_table num ops st r).1.table q ≡ ops.get st.table q
  change_table-other k copied st op q (ok t) e ne = apply_kind-other k copied st.table t op q e ne
  change_table-other k copied st op q (err code) e ne = refl

  create_project-table :
      (granted copied : Bool) (st : Store T) (op : Op D)
      → (create_project num ops granted copied st op).1.table ≡ st.table
  create_project-table granted copied st op = elim (Option-cases op.project) [
    | inl missing ↦ rw missing refl
    | inr (slug, given) ↦ rw given refl
  ]

  by_kind :
      (k : OpKind) (granted copied : Bool) (st : Store T) (op : Op D) (q : List ℕ)
      → op.kind ≡ k
      → concerns k op q ≡ false
      → ops.get (store_apply num ops granted copied st op).1.table q ≡ ops.get st.table q
  unfolding store_apply apply_kind
  by_kind OpKind.project_create granted copied st op q e ne =
      rw e (ap (λ u. ops.get u q) (create_project-table granted copied st op))
  by_kind OpKind.insert granted copied st op q e ne =
      rw e (change_table-other OpKind.insert copied st op q _ refl ne)
  by_kind OpKind.update granted copied st op q e ne =
      rw e (change_table-other OpKind.update copied st op q _ refl ne)
  by_kind OpKind.deprecate granted copied st op q e ne =
      rw e (change_table-other OpKind.deprecate copied st op q _ refl ne)
  by_kind OpKind.keep granted copied st op q e ne =
      rw e (change_table-other OpKind.keep copied st op q _ refl ne)
  by_kind OpKind.set_locked granted copied st op q e ne =
      rw e (change_table-other OpKind.set_locked copied st op q _ refl ne)
  by_kind OpKind.access granted copied st op q e ne =
      rw e (change_table-other OpKind.access copied st op q _ refl ne)

  -- Over any record table that keeps the laws of `TableOps`, an operation leaves the table's
  -- answer for every id alone that it does not name, whether it succeeds or fails.
  pub store_apply-other :
      (granted copied : Bool) (st : Store T) (op : Op D) (q : List ℕ)
      → concerns op.kind op q ≡ false
      → ops.get (store_apply num ops granted copied st op).1.table q ≡ ops.get st.table q
  store_apply-other granted copied st op q ne = by_kind op.kind granted copied st op q refl ne
