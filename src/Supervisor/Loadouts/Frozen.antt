-- ===== src/Supervisor/Loadouts/Frozen.antt =====
-- What the monitor answers after a loadout has been frozen.
use agent_mission_control.Prelude.{
  ◌≡◌, refl, ◌≢◌, false, ◌==◌, none, some, [], ◌∷◌, String, ok, if◌then◌else◌, arith,
}
use agent_mission_control.Prelude.Text.{str_eq}
use agent_mission_control.Domain.Ids.{MissionId}
use agent_mission_control.Supervisor.Loadouts.{
  ProviderId, as_str, parse_provider, LoadoutMonitor, frozen_for, put_frozen, is_invalid,
  freeze_fingerprint, compare_frozen, check_fingerprint,
}

-- The text of a provider parses to it.
parse_provider-as_str : (p : ProviderId) → parse_provider (as_str p) ≡ ok p
unfolding parse_provider as_str
parse_provider-as_str ProviderId.codex = refl
parse_provider-as_str ProviderId.claude = refl
parse_provider-as_str ProviderId.open_code = refl
parse_provider-as_str ProviderId.z_code = refl

pub frozen_for-put_frozen :
    (m k : MissionId) (text : String) (monitor : LoadoutMonitor)
    → frozen_for k (put_frozen m text monitor)
      ≡ (if m == k then some text else frozen_for k monitor)
unfolding frozen_for put_frozen
frozen_for-put_frozen m k text [] = ground arith
frozen_for-put_frozen m k text ((n, old) ∷ rest) =
    ground (arith, frozen_for-put_frozen m k text rest)

-- Where a fingerprint has been frozen for a mission, the check before a model request reports no change
-- exactly if the next fingerprint is the frozen one, and else both texts; and the check of every other
-- mission answers what it answered before.
pub check_fingerprint-freeze_fingerprint :
    (monitor frozen : LoadoutMonitor) (m k : MissionId) (text next : String)
    → freeze_fingerprint monitor m text ≡ (frozen, ok tt)
    → is_invalid next ≡ false
    → (check_fingerprint frozen m next ≡ (
        if str_eq text next
        then ok none
        else ok (some (record { previous_fingerprint = text; next_fingerprint = next }))))
      × (k ≢ m → check_fingerprint frozen k next ≡ check_fingerprint monitor k next)
unfolding freeze_fingerprint check_fingerprint compare_frozen
check_fingerprint-freeze_fingerprint monitor frozen m k text next froze valid =
    let same : put_frozen m text monitor ≡ frozen = ground arith in
    let own : frozen_for m frozen ≡ some text =
      ground (arith, frozen_for-put_frozen m m text monitor) in
    (
      rw (valid, own) refl,
      λ other.
          let kept : frozen_for k frozen ≡ frozen_for k monitor =
            ground (arith, frozen_for-put_frozen m k text monitor) in
          rw (valid, kept) refl,
    )
