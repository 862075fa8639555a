-- ===== src/Domain/Evidence/Samples.antt =====
-- Concrete evidence matrices.
use agent_mission_control.Prelude.{true, ◌≡◌, refl, List, [], ◌∷◌, map, String}
use agent_mission_control.Domain.Evidence.{
  verified, unverified, not_applicable, EvidenceMatrix, CriterionEvidence, find_criterion,
  set_criterion, record_evidence, from_criteria, new_criterion, is_complete,
}
use agent_mission_control.Domain.Evidence.Backing.{
  Entry, AllBacked, record_evidence-AllBacked, record_each,
}

abbrev pub sample_criteria : List (String × String)
sample_criteria = ("tests", "the tests pass") ∷ ("docs", "the docs are current") ∷ []

abbrev pub sample_entries : List Entry
sample_entries =
    ("tests", verified, []) ∷ ("tests", verified, "run-7" ∷ []) ∷ ("docs", not_applicable, []) ∷ []

unfoldable pub sample_matrix : EvidenceMatrix
sample_matrix =
    record_each (from_criteria (map (λ (id, text). new_criterion id text) sample_criteria))
      sample_entries

sample_matrix_complete : is_complete sample_matrix ≡ true
unfolding sample_matrix record_each record_evidence from_criteria new_criterion is_complete
    find_criterion set_criterion
sample_matrix_complete = refl

abbrev sample_criterion : CriterionEvidence
sample_criterion = record {
  criterion_id = "tests";
  description = "pass";
  status = unverified;
  evidence_ids = [];
}

abbrev one_criterion : EvidenceMatrix
one_criterion = record { criteria = sample_criterion ∷ []; entries = [] }

abbrev one_verified : EvidenceMatrix
one_verified = record {
  criteria =
      record {
        criterion_id = "tests";
        description = "pass";
        status = verified;
        evidence_ids = "e1" ∷ [];
      }
      ∷ [];
  entries = [];
}

record_evidence-AllBacked_example : AllBacked one_verified
unfolding record_evidence find_criterion set_criterion
record_evidence-AllBacked_example =
    record_evidence-AllBacked one_criterion one_verified "tests" verified ("e1" ∷ []) refl
      (λ h. cc, tt)
