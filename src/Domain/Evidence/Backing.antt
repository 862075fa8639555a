-- ===== src/Domain/Evidence/Backing.antt =====
-- What a criterion's status promises: the evidence behind it.
use agent_mission_control.Prelude.{
  true, false, ◌&&◌, ◌⊎◌, ◌≡◌, refl, some, List, [], ◌∷◌, String, Result, ok, err, All, map, all,
  is_empty, if◌then◌else◌, arith,
}
use agent_mission_control.Prelude.Text.{str_eq, str_eq_iff}
use mathlib.Core.Option
use agent_mission_control.Domain.Evidence.{
  CriterionStatus, not_applicable, CriterionEvidence, EvidenceMatrix, EvidenceMatrixError,
  assign_evidence, find_criterion, set_criterion, record_evidence, is_complete,
  satisfies_completion, needs_evidence, from_criteria, new_criterion,
}

-- A verified or partly verified criterion names evidence.
abbrev pub IsBacked : CriterionEvidence → Type 0
IsBacked c = needs_evidence c.status ≡ true → is_empty c.evidence_ids ≡ false

abbrev pub AllBacked : EvidenceMatrix → Type 0
AllBacked m = All IsBacked m.criteria

set_criterion-AllBacked :
    (id : String) (status : CriterionStatus) (ids : List String) (cs : List CriterionEvidence)
    → (needs_evidence status && is_empty ids) ≡ false
    → All IsBacked cs
    → All IsBacked (set_criterion id status ids cs)
unfolding set_criterion needs_evidence
set_criterion-AllBacked id status ids [] h b = tt
set_criterion-AllBacked id status ids (c ∷ cs) h b =
    ground (arith, set_criterion-AllBacked id status ids cs h b.1)

-- Recording a status keeps every claim of verification backed by evidence.
pub record_evidence-AllBacked :
    (m n : EvidenceMatrix) (id : String) (status : CriterionStatus) (ids : List String)
    → record_evidence m id status ids ≡ ok n
    → AllBacked m
    → AllBacked n
unfolding record_evidence
record_evidence-AllBacked m n id status ids e b =
    ground (arith, set_criterion-AllBacked id status ids m.criteria)

-- One call of `record`: the criterion, its new status, and the evidence.
abbrev pub Entry : Type 0
Entry = String × CriterionStatus × List String

-- A caller that keeps its matrix where a call is refused.
abbrev pub kept : EvidenceMatrix → Result EvidenceMatrix EvidenceMatrixError → EvidenceMatrix
kept m (ok n) = n
kept m (err e) = m

unfoldable pub record_each : EvidenceMatrix → List Entry → EvidenceMatrix
record_each m [] = m
record_each m ((id, status, ids) ∷ es) = record_each (kept m (record_evidence m id status ids)) es

kept-AllBacked :
    (m : EvidenceMatrix) (id : String) (status : CriterionStatus) (ids : List String)
    → AllBacked m
    → AllBacked (kept m (record_evidence m id status ids))
unfolding record_evidence
kept-AllBacked m id status ids b = ground (arith, set_criterion-AllBacked id status ids m.criteria)

record_each-AllBacked :
    (m : EvidenceMatrix) (es : List Entry) → AllBacked m → AllBacked (record_each m es)
unfolding record_each
record_each-AllBacked m [] b = b
record_each-AllBacked m ((id, status, ids) ∷ es) b =
    record_each-AllBacked (kept m (record_evidence m id status ids)) es
      (kept-AllBacked m id status ids b)

-- A criterion is settled when it is waived or has evidence behind it.
abbrev pub IsSettled : CriterionEvidence → Type 0
IsSettled c = (c.status ≡ not_applicable) ⊎ (is_empty c.evidence_ids ≡ false)

AllSettled :
    (cs : List CriterionEvidence)
    → All IsBacked cs
    → all (λ c. satisfies_completion c.status) cs ≡ true
    → All IsSettled cs
unfolding satisfies_completion needs_evidence
AllSettled [] b h = tt
AllSettled (c ∷ cs) b h = ground (arith, AllSettled cs b.1)

new_criteria-AllBacked :
    (cs : List (String × String)) → All IsBacked (map (λ (id, text). new_criterion id text) cs)
unfolding new_criterion needs_evidence
new_criteria-AllBacked [] = tt
new_criteria-AllBacked ((id, text) ∷ cs) = (λ h. cc, new_criteria-AllBacked cs)

-- A matrix of new criteria that any sequence of `record` calls has completed has no criterion that
-- is neither waived nor backed by evidence.
pub complete-IsSettled :
    (cs : List (String × String)) (es : List Entry)
    → let m = record_each (from_criteria (map (λ (id, text). new_criterion id text) cs)) es in
      is_complete m ≡ true → All IsSettled m.criteria
unfolding is_complete from_criteria
complete-IsSettled cs es h =
    AllSettled _ (record_each-AllBacked _ es (new_criteria-AllBacked cs)) (ground arith)

find-set :
    (id j : String) (status : CriterionStatus) (ids : List String) (cs : List CriterionEvidence)
    → find_criterion j (set_criterion id status ids cs) ≡ (
        if str_eq id j
        then Option.map (assign_evidence status ids) (find_criterion id cs)
        else find_criterion j cs)
unfolding find_criterion set_criterion
find-set id j status ids [] = ground arith
find-set id j status ids (c ∷ cs) = ground (
  arith,
  str_eq_iff id j,
  str_eq_iff c.criterion_id id,
  str_eq_iff c.criterion_id j,
  find-set id j status ids cs,
)

-- Where the criterion exists and a status that claims verification names evidence, `record`
-- succeeds: the criterion reads back with the new status and evidence, every other id reads as
-- before, and the entries are untouched.
record_evidence_lem :
    (m : EvidenceMatrix) (id : String) (status : CriterionStatus) (ids : List String)
    → (c : CriterionEvidence) → find_criterion id m.criteria ≡ some c
    → (needs_evidence status && is_empty ids) ≡ false
    → (n : EvidenceMatrix) × (record_evidence m id status ids ≡ ok n)
      × (find_criterion id n.criteria ≡ some (assign_evidence status ids c))
      × ((j : String)
          → str_eq id j ≡ false
          → find_criterion j n.criteria ≡ find_criterion j m.criteria)
      × (n.entries ≡ m.entries)
unfolding record_evidence
record_evidence_lem m id status ids c e h = (
  record m { criteria = set_criterion id status ids m.criteria },
  ground arith,
  rw (find-set id id status ids m.criteria) (ground (arith, str_eq_iff id id)),
  λ j ne. rw (find-set id j status ids m.criteria) (ground arith),
  refl,
)
