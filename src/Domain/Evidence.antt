-- ===== src/Domain/Evidence.antt =====
-- crates/domain/src/evidence.rs: the evidence matrix and the final approval.
pub mod Backing
pub mod Samples
use agent_mission_control.Prelude.{
  ℕ, suc, Bool, true, false, not, ◌&&◌, ◌||◌, Option, none, some, List, [], ◌∷◌, map, String,
  Result, ok, err, ◌>>=◌, ◌>>◌, refuse_if, ok_or, if◌then◌else◌, is_empty, all,
}
use agent_mission_control.Prelude.Text.{str_eq, is_blank}

pub data EvidenceKind : Type 0 where
  test build screenshot diff user_acceptance : EvidenceKind

pub record EvidenceEntry : Type 0 where
  pub id : String
  pub kind : EvidenceKind
  pub summary : String
  pub verified : Bool
  pub source_event_ids : List String

pub data CriterionStatus : Type 0 where
  verified partially_verified unverified not_applicable : CriterionStatus

unfoldable pub satisfies_completion : CriterionStatus → Bool
satisfies_completion verified = true
satisfies_completion not_applicable = true
satisfies_completion _ = false

-- The `matches!` of `EvidenceMatrix::record`.
unfoldable pub needs_evidence : CriterionStatus → Bool
needs_evidence verified = true
needs_evidence partially_verified = true
needs_evidence _ = false

pub record CriterionEvidence : Type 0 where
  pub criterion_id : String
  pub description : String
  pub status : CriterionStatus
  pub evidence_ids : List String

-- `CriterionEvidence::new`.
unfoldable pub new_criterion : String → String → CriterionEvidence
new_criterion criterion_id description = record {
  criterion_id = criterion_id;
  description = description;
  status = unverified;
  evidence_ids = [];
}

pub record EvidenceMatrix : Type 0 where
  pub criteria : List CriterionEvidence
  pub entries : List EvidenceEntry

-- `EvidenceMatrix::default`.
abbrev pub default_matrix : EvidenceMatrix
default_matrix = record { criteria = []; entries = [] }

unfoldable pub from_criteria : List CriterionEvidence → EvidenceMatrix
from_criteria criteria = record { criteria = criteria; entries = [] }

pub data EvidenceMatrixError : Type 0 where
  unknown_criterion evidence_required : EvidenceMatrixError

-- `iter_mut().find(..)`: the first criterion with the id.
unfoldable pub find_criterion : String → List CriterionEvidence → Option CriterionEvidence
find_criterion id [] = none
find_criterion id (c ∷ cs) = if str_eq c.criterion_id id then some c else find_criterion id cs

-- The two assignments through the reference that `find` gave.
abbrev pub assign_evidence : CriterionStatus → List String → CriterionEvidence → CriterionEvidence
assign_evidence status ids c = record c { status = status; evidence_ids = ids }

unfoldable pub set_criterion :
    String → CriterionStatus → List String → List CriterionEvidence → List CriterionEvidence
set_criterion id status ids [] = []
set_criterion id status ids (c ∷ cs) =
    if str_eq c.criterion_id id
    then assign_evidence status ids c ∷ cs
    else c ∷ set_criterion id status ids cs

-- `EvidenceMatrix::record`: the new matrix, or the error with the matrix left as it was.
unfoldable pub record_evidence :
    EvidenceMatrix
    → String
    → CriterionStatus
    → List String
    → Result EvidenceMatrix EvidenceMatrixError
unfolding needs_evidence
record_evidence m criterion_id status evidence_ids = do
  _ ← ok_or (find_criterion criterion_id m.criteria) unknown_criterion
  refuse_if (needs_evidence status && is_empty evidence_ids) evidence_required
  ok (record m { criteria = set_criterion criterion_id status evidence_ids m.criteria })

unfoldable pub can_await_acceptance : EvidenceMatrix → Bool
can_await_acceptance m = not (is_empty m.criteria)

unfoldable pub is_complete : EvidenceMatrix → Bool
unfolding satisfies_completion
is_complete m = not (is_empty m.criteria) && all (λ c. satisfies_completion c.status) m.criteria

abbrev count_verified : List EvidenceEntry → ℕ
count_verified [] = 0
count_verified (e ∷ es) = if e.verified then suc (count_verified es) else count_verified es

unfoldable pub verified_count : EvidenceMatrix → ℕ
verified_count m = count_verified m.entries

pub record Approval : Type 0 where
  pub actor : String
  pub decision : String
  pub evidence_event_ids : List String

unfoldable pub is_acceptance : Approval → Bool
is_acceptance a =
    str_eq a.decision "accept" && not (is_blank a.actor) && not (is_empty a.evidence_event_ids)
