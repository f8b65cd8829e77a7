-- ===== src/Scheduler/Agents/Defaults.antt =====
-- The profiles that every `AgentScheduler` of core/scheduler/scheduler.py begins with.
use core_host.Base.{some, List, [], ◌∷◌}
use core_host.Scheduler.Models.{AgentProfile}
use core_host.Scheduler.Profiles.{AgentScheduler, add_profile, bare}

abbrev pub asis_local : AgentProfile
asis_local = record {
  profile_id = "asis-local";
  name = "A.S.I.S. Local";
  agent_type = "local";
  version = "0.2.1";
  host = "windows-host";
  capabilities = "inference" ∷ "voice" ∷ "web" ∷ "hardware" ∷ [];
  supported_device_types = [];
  supported_platforms = [];
  max_assignments = 100;
  metadata = ("description", some "General local agent on Windows host") ∷ [];
}

abbrev pub asis_offload : AgentProfile
asis_offload = record {
  profile_id = "asis-offload";
  name = "A.S.I.S. Offload";
  agent_type = "offload";
  version = "0.2.1";
  host = "windows-host";
  capabilities = "offload" ∷ "inference" ∷ "camera" ∷ "gps" ∷ "heart_rate" ∷ [];
  supported_device_types = "phone" ∷ "watch" ∷ "tablet" ∷ "sensor" ∷ "rover" ∷ [];
  supported_platforms = "ios" ∷ "watchos" ∷ "android" ∷ "unknown" ∷ [];
  max_assignments = 50;
  metadata = ("description", some "Offload for low-capability devices") ∷ [];
}

abbrev pub tiviss_compat : AgentProfile
tiviss_compat = record {
  profile_id = "tiviss-compat";
  name = "T.I.V.I.S.S. Compat";
  agent_type = "tiviss";
  version = "0.1.0";
  host = "windows-host";
  capabilities = "inference" ∷ "voice" ∷ [];
  supported_device_types = "generic" ∷ [];
  supported_platforms = [];
  max_assignments = 20;
  metadata = ("description", some "Compat profile for T.I.V.I.S.S.-style devices") ∷ [];
}

abbrev pub defaults : List AgentProfile
defaults = asis_local ∷ asis_offload ∷ tiviss_compat ∷ []

-- The loop of `_register_default_profiles`.
unfoldable pub add_profiles : List AgentProfile → AgentScheduler → AgentScheduler
add_profiles [] s = s
add_profiles (p ∷ ps) s = add_profiles ps (add_profile p s)

-- `AgentScheduler()`
unfoldable pub init : AgentScheduler
init = add_profiles defaults bare
