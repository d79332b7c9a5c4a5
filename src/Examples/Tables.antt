-- ===== src/Examples/Tables.antt =====
-- The record table at concrete inputs.
use asterism_asper.Base.{
  ℕ, ◌≡◌, refl, ◌⊎◌, Bool, true, false, List, [], none, some, arith, Result, is_ok, ◌&&◌,
  if◌then◌else◌,
}
use asterism_asper.Base.Int.{pos}
use asterism_asper.Base.Text.{codes, str_eq}
use asterism_asper.Record.{Record, zero_evidence, Section, Source, KnowledgeStatus}
use asterism_asper.RecordTable.{
  Table, table_add, table_get, table_remove, table_find, table_write, scan,
}
use asterism_asper.RecordTable.Find.{IsValid, table_find-scan}
use asterism_asper.RecordTable.Add.{table_add_lem}
use asterism_asper.RecordTable.Remove.{table_remove_lem}
use asterism_asper.RecordTable.Write.{table_write_lem}

abbrev note : Record ℕ
note = record {
  id = codes "n1";
  section = Section.context;
  project_slug = none;
  content = codes "tea";
  source = Source.manual;
  evidence = zero_evidence 0;
  created_at = pos 1;
  updated_at = pos 1;
  last_access = pos 1;
  access_count = 0;
  relevance = 1;
  locked = false;
  deprecated = false;
  deprecated_at = pos 0;
  tags = [];
  source_refs = [];
  knowledge_status = KnowledgeStatus.unverified;
  knowledge_revision = 0;
  score = 0;
  emb_row = none;
}

-- `asper_table_init`.
abbrev no_records : Table ℕ
no_records = record { recs = []; cap = 0; idmap = none }

no_records-IsValid : IsValid no_records
no_records-IsValid = record {
  small = omega arith;
  named = λ i r e. cc;
  distinct = λ i j a b e k same. cc;
  mapped = λ m e. cc;
}

abbrev one_record : Result (Unit {0}) × Table ℕ
one_record = table_add true true no_records note

table_add_lem_example :
    IsValid one_record.1
    × (table_get one_record.1 (codes "n1") ≡ (
        if is_ok one_record.0 && str_eq note.id (codes "n1")
        then some note
        else table_get no_records (codes "n1")))
table_add_lem_example = table_add_lem true true no_records note (codes "n1") no_records-IsValid

one_record-IsValid : IsValid one_record.1
one_record-IsValid = (table_add_lem true true no_records note (codes "n1") no_records-IsValid).0

table_find-scan_example : table_find one_record.1 (codes "n1") ≡ scan one_record.1.recs (codes "n1")
table_find-scan_example = table_find-scan one_record.1 one_record-IsValid (codes "n1")

abbrev forgotten : Bool × Table ℕ
forgotten = table_remove true one_record.1 (codes "n1")

table_remove_lem_example :
    IsValid forgotten.1
    × (((forgotten.0 ≡ true) × (r : Record ℕ) × (table_get one_record.1 (codes "n1") ≡ some r))
        ⊎ ((forgotten.0 ≡ false) × (table_get one_record.1 (codes "n1") ≡ none)))
    × (table_get forgotten.1 (codes "n2")
        ≡ (if str_eq (codes "n1") (codes "n2") then none else table_get one_record.1 (codes "n2")))
table_remove_lem_example =
    table_remove_lem true one_record.1 (codes "n1") (codes "n2") one_record-IsValid

abbrev cold_note : Record ℕ
cold_note = record note { content = codes "cold tea" }

found : table_get one_record.1 (codes "n1") ≡ some note
unfolding str_eq table_add table_find
found = (table_add_lem true true no_records note (codes "n1") no_records-IsValid).1

table_write_lem_example :
    IsValid (table_write one_record.1 (codes "n1") cold_note)
    × ((q : List ℕ)
        → table_get (table_write one_record.1 (codes "n1") cold_note) q
          ≡ (if str_eq q (codes "n1") then some cold_note else table_get one_record.1 q))
table_write_lem_example =
    table_write_lem one_record.1 (codes "n1") note cold_note one_record-IsValid found refl
