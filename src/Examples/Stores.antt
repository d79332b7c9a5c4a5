-- ===== src/Examples/Stores.antt =====
-- A store with one record and two projects, and the theorems on the store at it.
use asterism_asper.Base.{
  ℕ, ◌≡◌, refl, sym, ◌∙◌, true, false, List, [], ◌∷◌, none, some, Result, ok, some_inj, arith, ◌||◌,
  ◌&&◌, not, is_ok, zero, suc, length, leb, ◌==◌,
}
use asterism_asper.Base.Int.{pos}
use asterism_asper.Base.Text.{str_eq, codes, str_lt}
use asterism_asper.Record.{Record, Doubles, zero_evidence, Section, Source, KnowledgeStatus}
use asterism_asper.Util.Strings.{slug_valid}
use asterism_asper.Store.Registry.{
  Registry, project_index, project_known, project_add, project_limit,
}
use asterism_asper.Store.Registry.Laws.{IsSorted, IsPlace, project_index-IsPlace}
use asterism_asper.Store.Registry.Add.{project_add_lem}
use asterism_asper.Store.Apply.{OpKind, Op, Store, store_apply}
use asterism_asper.RecordTable.{Table, table_add, table_get, table_find}
use asterism_asper.RecordTable.Find.{IsValid}
use asterism_asper.RecordTable.Add.{table_add_lem}
use asterism_asper.Store.Apply.Table.{ValidTable, valid_get, table_ops}
use asterism_asper.Store.Apply.Laws.{store_apply-other}
use asterism_asper.Store.Apply.Deprecate.{deprecate-deprecate}

abbrev numbers : Doubles ℕ
numbers = record {
  zero_double = 0;
  half = 1;
  one = 2;
  boost = 1;
  add = λ a b. a;
  gt = λ a b. false;
  gt_irrefl = λ x. refl;
}

abbrev note : Record ℕ
note = record {
  id = codes "n";
  section = Section.context;
  project_slug = none;
  content = codes "tea";
  source = Source.manual;
  evidence = zero_evidence 0;
  created_at = pos 1;
  updated_at = pos 1;
  last_access = pos 1;
  access_count = 0;
  relevance = 1;
  locked = false;
  deprecated = false;
  deprecated_at = pos 0;
  tags = [];
  source_refs = [];
  knowledge_status = KnowledgeStatus.unverified;
  knowledge_revision = 0;
  score = 0;
  emb_row = none;
}

abbrev two_projects : Registry
two_projects = record { projects = codes "a" ∷ codes "c" ∷ []; cap = 8 }

-- `asper_table_init`, and the record added to it.
abbrev no_records : Table ℕ
no_records = record { recs = []; cap = 0; idmap = none }

no_records-IsValid : IsValid no_records
no_records-IsValid = record {
  small = omega arith;
  named = λ i r e. cc;
  distinct = λ i j a b e k same. cc;
  mapped = λ m e. cc;
}

abbrev one_record : Result (Unit {0}) × Table ℕ
one_record = table_add true true no_records note

added : one_record.0 ≡ ok tt
unfolding table_add table_find
added = refl

abbrev one_note : Store (ValidTable ℕ)
one_note = record {
  table = record {
    table = one_record.1;
    valid = (table_add_lem true true no_records note (codes "n") no_records-IsValid).0;
  };
  registry = two_projects;
}

note_there : table_get one_record.1 (codes "n") ≡ some note
unfolding str_eq
note_there =
    (table_add_lem true true no_records note (codes "n") no_records-IsValid).1 ∙ rw added refl

abbrev forget_note : Op ℕ
forget_note = record {
  kind = OpKind.deprecate;
  at = pos 7;
  inserted = none;
  id = codes "n";
  content = none;
  declared_update = false;
  reason = none;
  value = false;
  ids = [];
  project = none;
}

store_apply-other_example :
    valid_get (store_apply numbers table_ops true true one_note forget_note).1.table (codes "m")
    ≡ valid_get one_note.table (codes "m")
unfolding str_eq
store_apply-other_example =
    store_apply-other numbers table_ops true true one_note forget_note (codes "m") refl

deprecate-deprecate_example :
    let (r, st') = store_apply numbers table_ops true true one_note forget_note in
    let (r', st'') =
      store_apply numbers table_ops true true st' (record forget_note { at = pos 9 }) in
    (r ≡ ok tt) × (r' ≡ ok tt) × ((q : List ℕ) → valid_get st''.table q ≡ valid_get st'.table q)
deprecate-deprecate_example =
    deprecate-deprecate numbers table_ops true true one_note forget_note note (pos 9) refl
      note_there

two_projects-IsSorted : IsSorted two_projects.projects
unfolding str_lt
two_projects-IsSorted zero zero a b e k h = absurd (omega arith)
two_projects-IsSorted zero (suc zero) a b e k h = rw (sym (some_inj e), sym (some_inj k)) refl
two_projects-IsSorted zero (suc (suc j)) a b e k h = cc
two_projects-IsSorted (suc zero) zero a b e k h = absurd (omega arith)
two_projects-IsSorted (suc zero) (suc zero) a b e k h = absurd (omega arith)
two_projects-IsSorted (suc zero) (suc (suc j)) a b e k h = cc
two_projects-IsSorted (suc (suc i)) j a b e k h = cc

project_index-IsPlace_example :
    IsPlace two_projects.projects (codes "b") (project_index two_projects.projects (codes "b"))
project_index-IsPlace_example =
    project_index-IsPlace two_projects.projects (codes "b") two_projects-IsSorted

project_add_lem_example :
    let (r, st') = project_add true true two_projects (codes "b") in
    IsSorted st'.projects
    × ((q : List ℕ)
        → project_known st' (some q)
          ≡ ((is_ok r && str_eq q (codes "b")) || project_known two_projects (some q)))
    × (is_ok r ≡ (
        slug_valid (codes "b")
        && (project_known two_projects (some (codes "b"))
            || (not (leb project_limit (length two_projects.projects))
                && (not (length two_projects.projects == two_projects.cap) || true)
                && true))))
project_add_lem_example = project_add_lem true true two_projects (codes "b") two_projects-IsSorted
