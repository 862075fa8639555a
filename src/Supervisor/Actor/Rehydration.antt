-- ===== src/Supervisor/Actor/Rehydration.antt =====
-- The actor against the one that is rehydrated from its ledger: the invariant, and what appends keep of it.
use agent_mission_control.Prelude.{
  suc, max, ◌≡◌, refl, sym, ap, ◌∙◌, inl, inr, Bool, true, false, Bool-cases, Result-cases, Option,
  none, some, List, [], ◌∷◌, ◌++◌, String, Result, ok, err, if◌then◌else◌, arith,
}
use agent_mission_control.Prelude.Text.{str_eq, str_eq_iff}
use agent_mission_control.Prelude.Word.{increment}
use agent_mission_control.Domain.Ids.{MissionId, RouteId}
use agent_mission_control.Domain.Event.{EventKind, EventEnvelope, new}
use agent_mission_control.Policy.Approval.{ApprovalRequest}
use agent_mission_control.Prelude.Dict.{lookup, insert}
use agent_mission_control.Supervisor.Actor.{
  Host, ledger_error, ApprovalMap, and_then, recovery_after, is_approval_kind, MissionActor,
  status_of, appended, append_envelope, largest, recovery_loop, recovery_required, read_into,
  located, file, replay_loop, replay_approvals,
}
use agent_mission_control.Supervisor.Actor.AgentEvents.{AgentEvent, requested_by}

-- An event as the ledger gives it back: what a replay reads of it is as it was.
pub record ReadsAs (h : Host) (e f : EventEnvelope h.json) : Type 0 where
  pub number : f.sequence ≡ e.sequence
  pub kind : f.kind ≡ e.kind
  pub status : status_of h f ≡ status_of h e
  pub approval : h.read_approval f.payload ≡ h.read_approval e.payload

-- The next event of the mission, as the actor numbers it.
abbrev pub IsNext : (h : Host) → MissionId → h.Ledger → EventEnvelope h.json → Type 0
IsNext h m l e = (e.mission_id ≡ m) × (e.sequence ≡ increment (largest h (h.replay_after l m 0)))

-- What the actor relies on. A ledger that is sound behind an append was sound before it, so that a sound
-- ledger has been sound from the start; it then takes the next event only where its number does not
-- wrap, gives it back behind those before, and gives back the same events where it refuses. A payload
-- gives back the approval put into it.
pub record IsFaithful (h : Host) (m : MissionId) : Type 1 where
  pub IsSound : h.Ledger → Type 0
  pub was_sound :
      (l : h.Ledger) (e : EventEnvelope h.json) → IsSound (h.append_event l e).0 → IsSound l
  pub next_only :
      (l : h.Ledger) (e : EventEnvelope h.json)
      → IsSound l
      → IsNext h m l e
      → (h.append_event l e).1 ≡ ok tt
      → e.sequence ≡ suc (largest h (h.replay_after l m 0))
  pub extends :
      (l : h.Ledger) (e : EventEnvelope h.json)
      → IsSound l
      → IsNext h m l e
      → (h.append_event l e).1 ≡ ok tt
      → (f : EventEnvelope h.json) × (h.replay_after (h.append_event l e).0 m 0
          ≡ h.replay_after l m 0 ++ f ∷ [])
        × ReadsAs h e f
  pub keeps :
      (l : h.Ledger) (e : EventEnvelope h.json) (text : String)
      → IsSound l
      → IsNext h m l e
      → (h.append_event l e).1 ≡ err text
      → h.replay_after (h.append_event l e).0 m 0 ≡ h.replay_after l m 0
  pub requested : (r : ApprovalRequest) → h.read_approval (h.requested_payload r) ≡ some (ok r)
  pub resolved : (r : ApprovalRequest) → h.read_approval (h.approval_payload r) ≡ some (ok r)
  pub revoked : (r : ApprovalRequest) → h.read_approval (h.loadout_revoked_payload r) ≡ some (ok r)
  pub attached :
      (e : AgentEvent h) (route : RouteId) (r : ApprovalRequest)
      → requested_by h e m route ≡ some r
      → h.read_approval (h.with_approval e.payload r) ≡ some (ok r)

-- Every approval stands under its own identifier.
abbrev pub IsKeyed : ApprovalMap → Type 0
IsKeyed [] = Unit {0}
IsKeyed ((k, r) ∷ m) = (r.id ≡ k) × IsKeyed m

pub lookup-IsKeyed :
    (id : String) (m : ApprovalMap) (r : ApprovalRequest)
    → IsKeyed m
    → lookup id m ≡ some r
    → r.id ≡ id
unfolding lookup
lookup-IsKeyed id [] r v e = absurd (ground arith)
lookup-IsKeyed id ((k, s) ∷ m) r v e = elim (Bool-cases (str_eq k id)) [
  | inl same ↦
      let key = (str_eq_iff k id).0 same in
      let found : s ≡ r = ground arith in ap (λ x. x.id) (sym found) ∙ v.0 ∙ key
  | inr other ↦ lookup-IsKeyed id m r v.1 (rw other at e)
]

pub insert-IsKeyed : (r : ApprovalRequest) (m : ApprovalMap) → IsKeyed m → IsKeyed (insert r.id r m)
unfolding insert
insert-IsKeyed r [] v = (refl, tt)
insert-IsKeyed r ((k, s) ∷ m) v = elim (Bool-cases (str_eq k r.id)) [
  | inl same ↦ rw same (sym ((str_eq_iff k r.id).0 same), v.1)
  | inr other ↦ rw other (v.0, insert-IsKeyed r m v.1)
]

-- To put back the request that is there changes nothing.
pub insert-lookup :
    (id : String) (m : ApprovalMap) (r : ApprovalRequest) → lookup id m ≡ some r → insert id r m ≡ m
unfolding lookup insert
insert-lookup id [] r e = absurd (ground arith)
insert-lookup id ((k, s) ∷ m) r e = elim (Bool-cases (str_eq k id)) [
  | inl same ↦ let found : s ≡ r = ground arith in rw (same, found) refl
  | inr other ↦ rw (other, insert-lookup id m r (rw other at e)) refl
]

result_eta : (r : Result ApprovalMap String) → and_then r (λ n. ok n) ≡ r
result_eta (ok n) = refl
result_eta (err text) = refl

module _ (h : Host) where
  recovery_loop-append :
      (b : Bool) (es : List (EventEnvelope h.json)) (e : EventEnvelope h.json)
      → recovery_loop h b (es ++ e ∷ [])
        ≡ recovery_after e.kind (status_of h e) (recovery_loop h b es)
  unfolding recovery_loop
  recovery_loop-append b [] e = refl
  recovery_loop-append b (x ∷ es) e =
      recovery_loop-append (recovery_after x.kind (status_of h x) b) es e

  pub largest-append :
      (es : List (EventEnvelope h.json)) (e : EventEnvelope h.json)
      → largest h (es ++ e ∷ []) ≡ max (largest h es) e.sequence
  unfolding largest
  largest-append [] e = omega arith
  largest-append (x ∷ es) e = omega (arith, largest-append es e)

  pub replay_loop-append :
      (m n : ApprovalMap) (es : List (EventEnvelope h.json)) (e : EventEnvelope h.json)
      → replay_loop h m es ≡ ok n
      → replay_loop h m (es ++ e ∷ []) ≡ file h n e
  unfolding replay_loop
  replay_loop-append m n [] e before =
      let same : m ≡ n = ground arith in rw⁻¹ same (result_eta (file h m e))
  replay_loop-append m n (x ∷ es) e before = elim (Result-cases (file h m x)) [
    | inl (k, filed) ↦
        ap (λ r. and_then r (λ x. replay_loop h x (es ++ e ∷ []))) filed
        ∙ replay_loop-append k n es e (rw filed at before)
    | inr (text, failed) ↦ absurd (ground arith)
  ]

  pub file-quiet :
      (m : ApprovalMap) (e : EventEnvelope h.json)
      → is_approval_kind e.kind ≡ false
      → file h m e ≡ ok m
  unfolding file
  file-quiet m e quiet = rw quiet refl

  pub file-read :
      (m : ApprovalMap) (e : EventEnvelope h.json) (r : ApprovalRequest)
      → is_approval_kind e.kind ≡ true
      → h.read_approval e.payload ≡ some (ok r)
      → file h m e ≡ ok (insert r.id r m)
  unfolding file read_into
  file-read m e r kind read = rw (kind, read) refl

  read_into-ReadsAs :
      (o : Option (Result ApprovalRequest String)) (e f : EventEnvelope h.json) (m : ApprovalMap)
      → f.sequence ≡ e.sequence
      → read_into h o f m ≡ read_into h o e m
  unfolding read_into located
  read_into-ReadsAs none e f m same = rw same refl
  read_into-ReadsAs (some (err text)) e f m same = rw same refl
  read_into-ReadsAs (some (ok r)) e f m same = refl

  pub file-ReadsAs :
      (m : ApprovalMap) (e f : EventEnvelope h.json) → ReadsAs h e f → file h m f ≡ file h m e
  unfolding file
  file-ReadsAs m e f v =
      ap (λ k. if is_approval_kind k then read_into h (h.read_approval f.payload) f m else ok m)
        v.kind
      ∙ ap (λ o. if is_approval_kind e.kind then read_into h o f m else ok m) v.approval
      ∙ ap (λ x. if is_approval_kind e.kind then x else ok m)
          (read_into-ReadsAs (h.read_approval e.payload) e f m v.number)

  module _ (m : MissionId) (route : RouteId) (faithful : IsFaithful h m) where
    abbrev pub history : MissionActor h → List (EventEnvelope h.json)
    history a = h.replay_after a.ledger m 0

    -- The actor and the replay of its ledger agree on the number, the recovery flag and the approvals,
    -- as long as the ledger is sound.
    pub record Matches (a : MissionActor h) : Type 0 where
      pub mission : a.mission_id ≡ m
      pub on_route : a.route_id ≡ route
      pub number : faithful.IsSound a.ledger → a.sequence ≡ largest h (history a)
      pub recovery :
          faithful.IsSound a.ledger → a.requires_recovery ≡ recovery_required h (history a)
      pub filed : faithful.IsSound a.ledger → replay_approvals h (history a) ≡ ok a.approvals
      pub keyed : IsKeyed a.approvals

    -- An event that the actor numbers is the next one.
    pub next_lem :
        (a : MissionActor h) (e : EventEnvelope h.json)
        → Matches a
        → e.mission_id ≡ a.mission_id
        → e.sequence ≡ increment a.sequence
        → faithful.IsSound a.ledger
        → IsNext h m a.ledger e
    next_lem a e v here numbered sound =
        (here ∙ v.mission, numbered ∙ ap increment (v.number sound))

    -- The event that `append` makes.
    abbrev pub numbered : MissionActor h → EventKind → h.json.Value → EventEnvelope h.json
    numbered a kind payload =
        let next = increment a.sequence in
        new h.json (h.fresh_id next) a.mission_id a.route_id next kind payload

    pub numbered_lem :
        (a : MissionActor h) (kind : EventKind) (payload : h.json.Value)
        → Matches a
        → faithful.IsSound a.ledger
        → IsNext h m a.ledger (numbered a kind payload)
    unfolding new
    numbered_lem a kind payload v = next_lem a (numbered a kind payload) v refl refl

    pub refused_lem :
        (a : MissionActor h) (e : EventEnvelope h.json) (text : String)
        → (h.append_event a.ledger e).1 ≡ err text
        → append_envelope h e a
          ≡ (record a { ledger = (h.append_event a.ledger e).0 }, err (ledger_error text))
    unfolding append_envelope
    refused_lem a e text refusal =
        ap (λ o. appended h o e a) (ap (λ x. ((h.append_event a.ledger e).0, x)) refusal)
        ∙ (unfold appended in refl)

    pub accepted_lem :
        (a : MissionActor h) (e : EventEnvelope h.json)
        → (h.append_event a.ledger e).1 ≡ ok tt
        → append_envelope h e a ≡ (
          record a {
            ledger = (h.append_event a.ledger e).0;
            requires_recovery = recovery_after e.kind (status_of h e) a.requires_recovery;
            sequence = e.sequence;
          },
          ok tt,
        )
    unfolding append_envelope
    accepted_lem a e accepted =
        ap (λ o. appended h o e a) (ap (λ x. ((h.append_event a.ledger e).0, x)) accepted)
        ∙ (unfold appended in refl)

    pub refused-Matches :
        (a : MissionActor h) (e : EventEnvelope h.json) (text : String)
        → (faithful.IsSound a.ledger → IsNext h m a.ledger e)
        → (h.append_event a.ledger e).1 ≡ err text
        → Matches a
        → Matches (record a { ledger = (h.append_event a.ledger e).0 })
    refused-Matches a e text next refusal v =
        let back = faithful.was_sound a.ledger e in
        let same : (sound : faithful.IsSound a.ledger)
            → h.replay_after (h.append_event a.ledger e).0 m 0 ≡ h.replay_after a.ledger m 0 =
          λ sound. faithful.keeps a.ledger e text sound (next sound) refusal in
        record {
          mission = v.mission;
          on_route = v.on_route;
          number = λ sound. v.number (back sound) ∙ ap (largest h) (sym (same (back sound)));
          recovery =
              λ sound. v.recovery (back sound) ∙ ap (recovery_required h) (sym (same (back sound)));
          filed = λ sound. ap (replay_approvals h) (same (back sound)) ∙ v.filed (back sound);
          keyed = v.keyed;
        }

    -- The actor behind an event that was accepted and filed in the map of the approvals.
    pub accepted-Matches :
        (a : MissionActor h) (e : EventEnvelope h.json) (approvals : ApprovalMap)
        → (faithful.IsSound a.ledger → IsNext h m a.ledger e)
        → (h.append_event a.ledger e).1 ≡ ok tt
        → file h a.approvals e ≡ ok approvals
        → IsKeyed approvals
        → Matches a
        → Matches (record a {
          ledger = (h.append_event a.ledger e).0;
          requires_recovery = recovery_after e.kind (status_of h e) a.requires_recovery;
          sequence = e.sequence;
          approvals = approvals;
        })
    unfolding recovery_required replay_approvals
    accepted-Matches a e approvals next accepted filed keyed v =
        let back = faithful.was_sound a.ledger e in
        let extends : (sound : faithful.IsSound a.ledger)
            → (f : EventEnvelope h.json) × (h.replay_after (h.append_event a.ledger e).0 m 0
                ≡ history a ++ f ∷ [])
              × ReadsAs h e f =
          λ sound. faithful.extends a.ledger e sound (next sound) accepted in
        record {
          mission = v.mission;
          on_route = v.on_route;
          number = λ sound.
              let (f, grown, reads) = extends (back sound) in
              let number =
                faithful.next_only a.ledger e (back sound) (next (back sound)) accepted in
              rw (grown, largest-append (history a) f) (omega (arith, number, reads.number));
          recovery = λ sound.
              let (f, grown, reads) = extends (back sound) in
              ap (recovery_after e.kind (status_of h e)) (v.recovery (back sound))
              ∙ ap (λ k. recovery_after k (status_of h e) (recovery_loop h false (history a)))
                  (sym reads.kind)
              ∙ ap (λ k. recovery_after f.kind k (recovery_loop h false (history a)))
                  (sym reads.status)
              ∙ sym (recovery_loop-append false (history a) f)
              ∙ ap (recovery_loop h false) (sym grown);
          filed = λ sound.
              let (f, grown, reads) = extends (back sound) in
              ap (replay_loop h []) grown
              ∙ replay_loop-append [] a.approvals (history a) f (v.filed (back sound))
              ∙ file-ReadsAs a.approvals e f reads
              ∙ filed;
          keyed = keyed;
        }
