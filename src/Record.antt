-- ===== src/Record.antt =====
-- The records of include/asper.h and src/asper_internal.h. Doubles are the parameter `D`: the
-- development computes with no floating-point value, and `Doubles` lists what the code asks of them.
use asterism_asper.Base.{ℕ, ◌≡◌, Bool, false, List, [], Option}
use asterism_asper.Base.Int.{ℤ, pos}

pub data Section : Type 0 where
  identity context project any : Section

pub data Source : Type 0 where
  seed manual curator : Source

pub data EvidenceKind : Type 0 where
  declared observed inferred : EvidenceKind

pub data ConfidenceKind : Type 0 where
  unknown heuristic measured : ConfidenceKind

pub data KnowledgeStatus : Type 0 where
  unverified current stale contested revoked unavailable : KnowledgeStatus

-- The literals and operations on doubles that the modelled code uses: 0.0, 0.5, 1.0, 0.05, `+`
-- and `>`. Nothing exceeds itself in IEEE 754.
pub record Doubles (D : Type 0) : Type 0 where
  pub zero_double : D
  pub half : D
  pub one : D
  pub boost : D
  pub add : D → D → D
  pub gt : D → D → Bool
  pub gt_irrefl : (x : D) → gt x x ≡ false

-- `asper_evidence`.
pub record Evidence (D : Type 0) : Type 0 where
  pub kind : EvidenceKind
  pub confidence_kind : ConfidenceKind
  pub confidence : D
  pub observed_at : ℤ
  pub expires_at : ℤ
  pub provenance : List ℕ
  pub workspace : List ℕ
  pub commit : List ℕ

-- `memset(&evidence, 0, sizeof evidence)`.
abbrev pub zero_evidence : {D : Type 0} → D → Evidence D
zero_evidence z = record {
  kind = declared;
  confidence_kind = unknown;
  confidence = z;
  observed_at = pos 0;
  expires_at = pos 0;
  provenance = [];
  workspace = [];
  commit = [];
}

-- `struct asper_record`. `project` is null but for project records; `emb_row` is -1 as `none`.
pub record Record (D : Type 0) : Type 0 where
  pub id : List ℕ
  pub section : Section
  pub project_slug : Option (List ℕ)
  pub content : List ℕ
  pub source : Source
  pub evidence : Evidence D
  pub created_at : ℤ
  pub updated_at : ℤ
  pub last_access : ℤ
  pub access_count : ℕ
  pub relevance : D
  pub locked : Bool
  pub deprecated : Bool
  pub deprecated_at : ℤ
  pub tags : List (List ℕ)
  pub source_refs : List (List ℕ)
  pub knowledge_status : KnowledgeStatus
  pub knowledge_revision : ℕ
  pub score : D
  pub emb_row : Option ℕ
