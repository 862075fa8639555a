-- ===== src/Supervisor/Actor.antt =====
-- crates/supervisor/src/mission_actor.rs: one mission's actor, which writes an event for each decision.
-- A method is a step: it returns the actor as it leaves it, also where it fails, beside its outcome.
-- What the actor is given, and the JSON that it builds and reads, are the record `Host`.
pub mod Pausing
pub mod Decisions
pub mod Approvals
pub mod AgentEvents
pub mod Keeps
pub mod Rehydration
pub mod Appended
pub mod Recorded
pub mod Requests
pub mod Filed
pub mod History
pub mod Unreadable
pub mod Encrypted
pub mod InMemory
pub mod Samples
use Prim.Native.String.{◌++◌ as cat}
use agent_mission_control.Prelude.{
  ℕ, max, Bool, true, false, not, ◌&&◌, Option, none, some, List, [], ◌∷◌, String, Result, ok, err,
  if◌then◌else◌,
}
use agent_mission_control.Prelude.Text.{str_eq, to_decimal}
use agent_mission_control.Prelude.Word.{increment}
use agent_mission_control.Prelude.Dict.{Dict, lookup, insert}
use agent_mission_control.Domain.Ids.{EventId, MissionId, RouteId}
use agent_mission_control.Domain.Event.{Json, EventKind, EventEnvelope, as_str, new}
use agent_mission_control.Policy.Approval.{ApprovalRequest, ApprovalError}
use agent_mission_control.Policy.Budget.{BudgetDimension}
use agent_mission_control.Policy.Envelope.{FlightIdentity}
use agent_mission_control.Supervisor.Pause.{
  PauseState, running, PauseController, PauseTransition, PauseError, SeenEvent, from_events,
}

-- The trait `ActorLedger` (an error is its text), the owned processes, the generator and the parser of
-- identifiers, and the payloads, each named for what is put into it.
pub record Host : Type 1 where
  pub json : Json
  pub Ledger : Type 0
  pub append_event : Ledger → EventEnvelope json → Ledger × Result (Unit {0}) String
  pub replay_after : Ledger → MissionId → ℕ → List (EventEnvelope json)
  pub Tree : Type 0
  pub new_tree : Tree
  pub terminate : Tree → Tree × Result (Unit {0}) String
  pub fresh_id : ℕ → EventId
  pub parse_id : String → Option ℕ
  pub requested_payload : ApprovalRequest → json.Value
  pub approval_payload : ApprovalRequest → json.Value
  pub loadout_revoked_payload : ApprovalRequest → json.Value
  pub dimension_payload : BudgetDimension → json.Value
  pub identity_payload : FlightIdentity → json.Value
  pub loadout_payload : String → String → json.Value
  pub decision_payload : String → json.Value → json.Value
  pub pause_payload : String → PauseState → json.Value
  pub state_payload : PauseState → json.Value
  pub token_payload : PauseState → json.Value
  pub failure_payload : String → json.Value
  pub with_approval : json.Value → ApprovalRequest → json.Value
  pub read_approval : json.Value → Option (Result ApprovalRequest String)
  pub request_id_text : json.Value → Option String

pub data ActorError : Type 0 where
  ledger_error : String → ActorError
  pause_error : PauseError → ActorError
  approval_error : ApprovalError → ActorError
  missing_approval_request approval_binding_mismatch invalid_approval_subject : ActorError
  recovery_not_required recovery_decision_invalid : ActorError

-- The map of the approvals: a text, and the request under it.
abbrev pub ApprovalMap : Type 0
ApprovalMap = Dict ApprovalRequest

-- `Result::and_then`.
abbrev pub and_then {ℓ κ μ} :
    {A : Type ℓ} {B : Type κ} {E : Type μ} → Result A E → (A → Result B E) → Result B E
and_then (ok a) f = f a
and_then (err e) f = err e

-- What an event says of the recovery, after the flag before it: the `match` of `append_envelope`, and of
-- the loop of `recovery_required`. The status is the text field of the payload.
unfoldable pub recovery_after : EventKind → Option String → Bool → Bool
recovery_after EventKind.agent_run_started status active = true
recovery_after EventKind.agent_run_completed none active = false
recovery_after EventKind.agent_run_completed (some status) active =
    if str_eq status "interrupted" then active else false
recovery_after EventKind.agent_run_aborted status active = false
recovery_after EventKind.recovery_continued status active = false
recovery_after EventKind.recovery_abandoned status active = false
recovery_after (EventKind.unknown kind) status active =
    if str_eq kind "force_terminated" then false else active
recovery_after _ status active = active

-- The kinds that `replay_approvals` reads.
unfoldable pub is_approval_kind : EventKind → Bool
is_approval_kind EventKind.approval_requested = true
is_approval_kind EventKind.approval_resolved = true
is_approval_kind EventKind.approval_revoked = true
is_approval_kind EventKind.approval_expired = true
is_approval_kind EventKind.approval_consumed = true
is_approval_kind _ = false

unfoldable pub is_running : PauseState → Bool
is_running running = true
is_running _ = false

module _ (h : Host) where
  open h use {json, Ledger, append_event, replay_after, Tree, new_tree, fresh_id, read_approval}

  pub record MissionActor : Type 0 where
    pub mission_id : MissionId
    pub route_id : RouteId
    pub ledger : Ledger
    pub sequence : ℕ
    pub pause : PauseController
    pub process_tree : Tree
    pub ui_connected : Bool
    pub requires_recovery : Bool
    pub approvals : ApprovalMap

  abbrev pub Step : Type 0 → Type 0
  Step A = MissionActor → MissionActor × Result A ActorError

module _ {h : Host} where
  -- What follows a call, and what a `?` returns.
  unfoldable pub continue :
      {A B : Type 0}
      → MissionActor h × Result A ActorError
      → (A → Step h B)
      → MissionActor h × Result B ActorError
  continue (a, ok x) k = k x a
  continue (a, err e) k = (a, err e)

  infixl 5 ◌>>=◌ ◌>>◌
  abbrev pub ◌>>=◌ : {A B : Type 0} → Step h A → (A → Step h B) → Step h B
  (s >>= k) a = continue (s a) k

  abbrev pub ◌>>◌ : {A B : Type 0} → Step h A → Step h B → Step h B
  s >> t = s >>= λ _. t

  abbrev pub pure : {A : Type 0} → A → Step h A
  pure x a = (a, ok x)

  abbrev pub fail : {A : Type 0} → ActorError → Step h A
  fail e a = (a, err e)

module _ (h : Host) where
  open h use {json, Ledger, append_event, replay_after, Tree, new_tree, fresh_id, read_approval}

  -- `payload.get("status").and_then(as_str)`.
  abbrev pub status_of : EventEnvelope json → Option String
  status_of e = json.get_str e.payload "status"

  -- `append_envelope`, by what the ledger answers.
  unfoldable pub appended :
      Ledger × Result (Unit {0}) String → EventEnvelope json → Step h (Unit {0})
  appended (l, err text) e a = (record a { ledger = l }, err (ledger_error text))
  appended (l, ok _) e a = (
    record a {
      ledger = l;
      requires_recovery = recovery_after e.kind (status_of e) a.requires_recovery;
      sequence = e.sequence;
    },
    ok tt,
  )

  unfoldable pub append_envelope : EventEnvelope json → Step h (Unit {0})
  unfolding appended
  append_envelope e a = appended (append_event a.ledger e) e a

  unfoldable pub append : EventKind → json.Value → Step h (Unit {0})
  unfolding append_envelope
  append kind payload a =
      let next = increment a.sequence in
      append_envelope (new json (fresh_id next) a.mission_id a.route_id next kind payload) a

  unfoldable pub record_event : EventKind → json.Value → Step h (Unit {0})
  record_event kind payload = append kind payload

  -- `latest_sequence` of the trait.
  unfoldable pub largest : List (EventEnvelope json) → ℕ
  largest [] = 0
  largest (e ∷ es) = max e.sequence (largest es)

  -- `recovery_required`.
  unfoldable pub recovery_loop : Bool → List (EventEnvelope json) → Bool
  recovery_loop active [] = active
  recovery_loop active (e ∷ es) = recovery_loop (recovery_after e.kind (status_of e) active) es

  unfoldable pub recovery_required : List (EventEnvelope json) → Bool
  unfolding recovery_loop
  recovery_required events = recovery_loop false events

  unfoldable pub located : EventEnvelope json → String → String
  located e text = cat "approval event at sequence " (cat (to_decimal e.sequence) text)

  -- One approval event: an approval that is missing or does not parse fails the whole replay.
  unfoldable pub read_into :
      Option (Result ApprovalRequest String)
      → EventEnvelope json
      → ApprovalMap
      → Result ApprovalMap String
  unfolding located
  read_into none e m = err (located e " is missing approval payload")
  read_into (some (err text)) e m = err (located e (cat " is invalid: " text))
  read_into (some (ok r)) e m = ok (insert r.id r m)

  unfoldable pub file : ApprovalMap → EventEnvelope json → Result ApprovalMap String
  unfolding read_into
  file m e = if is_approval_kind e.kind then read_into (read_approval e.payload) e m else ok m

  unfoldable pub replay_loop : ApprovalMap → List (EventEnvelope json) → Result ApprovalMap String
  unfolding file
  replay_loop m [] = ok m
  replay_loop m (e ∷ es) = and_then (file m e) (λ n. replay_loop n es)

  unfoldable pub replay_approvals : List (EventEnvelope json) → Result ApprovalMap String
  unfolding replay_loop
  replay_approvals events = replay_loop [] events

  abbrev pub seen : List (EventEnvelope json) → List SeenEvent
  seen [] = []
  seen (e ∷ es) =
      record { kind = as_str e.kind; reason = json.get_str e.payload "reason" } ∷ seen es

  unfoldable pub try_new : MissionId → RouteId → Ledger → Result (MissionActor h) String
  unfolding largest recovery_required replay_approvals is_running
  try_new mission_id route_id l =
      let replayed = replay_after l mission_id 0 in
      let pause = from_events (seen replayed) in
      let requires_recovery = recovery_required replayed in
      elim (replay_approvals replayed) [
        | err text ↦ err text
        | ok approvals ↦ ok (record {
          mission_id = mission_id;
          route_id = route_id;
          ledger = l;
          sequence = largest replayed;
          pause = pause;
          process_tree = new_tree;
          ui_connected = is_running pause.state && not requires_recovery;
          requires_recovery = requires_recovery;
          approvals = approvals;
        })
      ]
