-- ===== src/Scheduler/CapabilityRouter/Defaults.antt =====
-- The profiles that core/scheduler/capability_router.py ships with.
use core_host.Base.{true, false, none, some, List, [], ◌∷◌}
use core_host.Scheduler.CapabilityRouter.{ModelProfile, CapabilityRouter, put_all}

abbrev local_heavy : ModelProfile
local_heavy = record {
  profile_id = "asis-local-heavy";
  name = "A.S.I.S. Local Heavy";
  model_id = "qwen3-coder:30b";
  size_gb = 18000;
  min_ram_total_gb = 24000;
  min_ram_available_gb = 8000;
  min_cpu_cores = 8;
  requires_gpu = true;
  gpu_type = some "cuda";
  capabilities = "inference" ∷ "coding" ∷ "reasoning" ∷ "voice" ∷ [];
  supported_device_types = "desktop" ∷ "server" ∷ [];
  supported_platforms = "windows" ∷ "linux" ∷ [];
  max_concurrent = 1;
}

abbrev local_medium : ModelProfile
local_medium = record {
  profile_id = "asis-local-medium";
  name = "A.S.I.S. Local Medium";
  model_id = "qwen2.5-coder:14b";
  size_gb = 9000;
  min_ram_total_gb = 12000;
  min_ram_available_gb = 4000;
  min_cpu_cores = 4;
  requires_gpu = false;
  gpu_type = none;
  capabilities = "inference" ∷ "coding" ∷ "reasoning" ∷ [];
  supported_device_types = "desktop" ∷ "laptop" ∷ [];
  supported_platforms = "windows" ∷ "linux" ∷ "macos" ∷ [];
  max_concurrent = 2;
}

abbrev local_light : ModelProfile
local_light = record {
  profile_id = "asis-local-light";
  name = "A.S.I.S. Local Light";
  model_id = "qwen3:14b";
  size_gb = 9000;
  min_ram_total_gb = 8000;
  min_ram_available_gb = 2000;
  min_cpu_cores = 2;
  requires_gpu = false;
  gpu_type = none;
  capabilities = "inference" ∷ "chat" ∷ "web" ∷ [];
  supported_device_types = "desktop" ∷ "laptop" ∷ [];
  supported_platforms = "windows" ∷ "linux" ∷ "macos" ∷ [];
  max_concurrent = 3;
}

abbrev offload_phone : ModelProfile
offload_phone = record {
  profile_id = "asis-offload-phone";
  name = "A.S.I.S. Phone Offload";
  model_id = "qwen3-coder:30b";
  size_gb = 18000;
  min_ram_total_gb = 24000;
  min_ram_available_gb = 8000;
  min_cpu_cores = 8;
  requires_gpu = true;
  gpu_type = some "cuda";
  capabilities = "offload" ∷ "inference" ∷ "camera" ∷ "gps" ∷ "heart_rate" ∷ [];
  supported_device_types = "phone" ∷ "tablet" ∷ [];
  supported_platforms = "ios" ∷ "android" ∷ [];
  max_concurrent = 1;
}

abbrev offload_watch : ModelProfile
offload_watch = record {
  profile_id = "asis-offload-watch";
  name = "A.S.I.S. Watch Offload";
  model_id = "qwen2.5-coder:14b";
  size_gb = 9000;
  min_ram_total_gb = 12000;
  min_ram_available_gb = 4000;
  min_cpu_cores = 4;
  requires_gpu = false;
  gpu_type = none;
  capabilities = "offload" ∷ "inference" ∷ "voice" ∷ [];
  supported_device_types = "watch" ∷ "sensor" ∷ [];
  supported_platforms = "watchos" ∷ "unknown" ∷ [];
  max_concurrent = 2;
}

abbrev pub default_profiles : List ModelProfile
default_profiles = local_heavy ∷ local_medium ∷ local_light ∷ offload_phone ∷ offload_watch ∷ []

-- `CapabilityRouter()`
unfoldable pub init : CapabilityRouter
init = put_all default_profiles (record { model_profiles = []; profile_usage = [] })
