-- ===== src/Policy/Envelope/Samples.antt =====
-- A concrete flight identity.
use agent_mission_control.Prelude.{◌≡◌, refl, ◌∷◌, []}
use agent_mission_control.Policy.Action.{ActionClass}
use agent_mission_control.Policy.Envelope.{
  FlightIdentity, FlightEnvelope, allow, pause_identity_changed, check_before_model_request,
}

abbrev identity : FlightIdentity
identity = record { provider = "p"; model = "m"; loadout_fingerprint = "f" }

abbrev envelope : FlightEnvelope
envelope = record {
  allowed_action_classes = ActionClass.write ∷ [];
  path_roots = "src" ∷ [];
  network_allowlist = [];
  dependency_sources = [];
  identity = identity;
  budget = record {
    tokens = 1;
    money_micros = 1;
    wall_clock = record { secs = 1; nanos = 0 };
    changed_lines = 1;
    changed_files = 1;
    model_calls = 1;
  };
}

identity_checked :
    (check_before_model_request envelope identity ≡ allow)
    × (check_before_model_request envelope (record identity { model = "n" })
        ≡ pause_identity_changed)
unfolding check_before_model_request
identity_checked = (refl, refl)
