-- ===== src/Store/Apply.antt =====
-- Operation application, `asper_store_apply` of src/store.c. The record table is the interface
-- `TableOps`: what the operations use of src/record_table.c, with what they rely on.
-- Store/Apply/Table.antt fills it with the table of RecordTable.antt.
pub mod Laws
pub mod Deprecate
pub mod Table
use asterism_asper.Base.{
  ℕ, zero, suc, ◌+◌, ◌*◌, ◌%◌, ◌^◌, ◌≡◌, Bool, true, false, List, [], ◌∷◌, Option, none, some,
  if◌then◌else◌, Result, ok, err, Error,
}
use asterism_asper.Base.Int.{ℤ, pos, negsuc, ◌+ℤ◌}
use asterism_asper.Base.Text.{str_eq, codes}
use asterism_asper.Record.{Record, Evidence, EvidenceKind, ConfidenceKind, Doubles, zero_evidence}
use asterism_asper.Store.Registry.{Registry, project_add}

-- `get` is `asper_table_get`, `add` is `asper_table_add`, and `write` is an assignment through the
-- pointer that `get` returns for an id.
pub record TableOps (D T : Type 0) : Type 0 where
  pub get : T → List ℕ → Option (Record D)
  pub add : T → Record D → Result T
  pub write : T → List ℕ → Record D → T
  pub get-id : (t : T) (id : List ℕ) (r : Record D) → get t id ≡ some r → r.id ≡ id
  pub get-write :
      (t : T) (id q : List ℕ) (old r : Record D)
      → get t id ≡ some old
      → r.id ≡ id
      → get (write t id r) q ≡ (if str_eq q id then some r else get t q)
  pub get-add :
      (t t' : T) (r : Record D) (q : List ℕ)
      → add t r ≡ ok t'
      → get t' q ≡ (if str_eq q r.id then some r else get t q)

pub data OpKind : Type 0 where
  insert update deprecate keep set_locked access project_create : OpKind

-- `asper_op`. A null pointer is `none`.
pub record Op (D : Type 0) : Type 0 where
  pub kind : OpKind
  pub at : ℤ
  pub inserted : Option (Record D)
  pub id : List ℕ
  pub content : Option (List ℕ)
  pub declared_update : Bool
  pub reason : Option (List ℕ)
  pub value : Bool
  pub ids : List (List ℕ)
  pub project : Option (List ℕ)

-- The table and the projects of `asper_store`.
pub record Store (T : Type 0) : Type 0 where
  pub table : T
  pub registry : Registry

-- `expiry ? expiry : at + 30 * 86400`.
abbrev pub expiry_after : ℤ → ℤ → ℤ
expiry_after (pos zero) at = at +ℤ pos (30 * 86400)
expiry_after (pos (suc n)) at = pos (suc n)
expiry_after (negsuc n) at = negsuc n

module _ {D T : Type 0} (num : Doubles D) (ops : TableOps D T) where
  abbrev pub boosted : D → D
  boosted relevance = let r = num.add relevance num.boost in if num.gt r num.one then num.one else r

  -- The record after an update, a deprecation, a keep, an access.
  abbrev pub updated : Op D → List ℕ → Record D → Record D
  updated op nc rec = record rec {
    content = nc;
    updated_at = op.at;
    evidence = record (zero_evidence num.zero_double) {
      kind = if op.declared_update then EvidenceKind.declared else EvidenceKind.inferred;
      confidence = if op.declared_update then num.one else num.half;
      confidence_kind = ConfidenceKind.heuristic;
      observed_at = op.at;
      expires_at = if op.declared_update then pos 0 else expiry_after rec.evidence.expires_at op.at;
      provenance =
          if op.declared_update
          then codes "user:manual-update"
          else codes "curator:unverified-update";
    };
    source_refs = [];
  }

  abbrev pub deprecated_now : ℤ → Record D → Record D
  deprecated_now at rec =
      if rec.deprecated then rec else record rec { deprecated = true; deprecated_at = at }

  abbrev pub kept : ℤ → Record D → Record D
  kept at rec = record rec {
    deprecated = false;
    deprecated_at = if rec.deprecated then pos 0 else rec.deprecated_at;
    last_access = at;
    relevance = boosted rec.relevance;
  }

  abbrev pub accessed : ℤ → Record D → Record D
  accessed at rec = record rec {
    access_count = (rec.access_count + 1) % 2 ^ 32;
    last_access = at;
    relevance = boosted rec.relevance;
  }

  -- A record is looked up and changed in place; a missing one is an error.
  abbrev pub change : T → List ℕ → (Record D → Record D) → Result T
  change t id f = elim (ops.get t id) [
    | none ↦ err Error.not_found
    | some rec ↦ ok (ops.write t id (f rec))
  ]

  -- The loop over the ids of an access; ids without a record are skipped.
  pub access_all : T → List (List ℕ) → ℤ → T
  access_all t [] at = t
  access_all t (id ∷ ids) at = elim (ops.get t id) [
    | none ↦ access_all t ids at
    | some rec ↦ access_all (ops.write t id (accessed at rec)) ids at
  ]

  -- The errors of an insertion: any failure but of memory is invalid.
  abbrev pub insert_error : Error → Error
  insert_error Error.nomem = Error.nomem
  insert_error _ = Error.invalid

  abbrev pub insert_record : T → Record D → Result T
  insert_record t rec = elim (ops.add t (record rec { emb_row = none })) [
    | ok t' ↦ ok t'
    | err e ↦ err (insert_error e)
  ]

  abbrev pub update_content : Bool → T → Op D → List ℕ → Result T
  update_content copied t op content = elim (ops.get t op.id) [
    | none ↦ err Error.not_found
    | some rec ↦
        if rec.deprecated
        then err Error.invalid
        else if copied
        then ok (ops.write t op.id (updated op content rec))
        else err Error.nomem
  ]

  -- The switch on the kind, for the operations on the table. `copied` is what `asper_strdup`
  -- answers.
  pub apply_kind : OpKind → Bool → T → Op D → Result T
  apply_kind insert copied t op = elim op.inserted [
    | none ↦ err Error.invalid
    | some rec ↦ insert_record t rec
  ]
  apply_kind update copied t op = elim op.content [
    | none ↦ err Error.invalid
    | some content ↦ update_content copied t op content
  ]
  apply_kind deprecate copied t op = change t op.id (deprecated_now op.at)
  apply_kind keep copied t op = change t op.id (kept op.at)
  apply_kind set_locked copied t op = change t op.id (λ rec. record rec { locked = op.value })
  apply_kind access copied t op = ok (access_all t op.ids op.at)
  apply_kind project_create copied t op = ok t

  -- The same on the store; `granted` is what `realloc` answers for the registry.
  abbrev pub create_project : Bool → Bool → Store T → Op D → Result (Unit {0}) × Store T
  create_project granted copied st op = elim op.project [
    | none ↦ (err Error.invalid, st)
    | some slug ↦
        let (r, registry) = project_add granted copied st.registry slug in
        (r, record st { registry = registry })
  ]

  abbrev pub change_table : Store T → Result T → Result (Unit {0}) × Store T
  change_table st (ok t) = (ok tt, record st { table = t })
  change_table st (err e) = (err e, st)

  -- `asper_store_apply`.
  pub store_apply : Bool → Bool → Store T → Op D → Result (Unit {0}) × Store T
  store_apply granted copied st op = elim op.kind [
    | OpKind.project_create ↦ create_project granted copied st op
    | kind ↦ change_table st (apply_kind kind copied st.table op)
  ]
