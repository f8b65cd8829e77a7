-- ===== src/Scheduler/CapabilityRouter/Examples.antt =====
-- A laptop without a GPU and the profiles that are there from the start.
use core_host.Base.{◌≡◌, refl, none, some, [], elem}
use core_host.Base.Dict.{lookup, insert, IsDistinct}
use core_host.Base.Sorted.{sort_by}
use core_host.Scheduler.CapabilityRouter.{
  DeviceCaps, CapabilityRouter, put_all, candidates, ranked, score_for, matches_capabilities,
  has_room, get_usage, get_model_profile, select_model_profile,
}
use core_host.Scheduler.CapabilityRouter.Defaults.{default_profiles, init}
use core_host.Scheduler.CapabilityRouter.Selected.{
  IsSelected, put_all-IsDistinct, select_model_profile-IsSelected,
}

abbrev router : CapabilityRouter
router = put_all default_profiles (record { model_profiles = []; profile_usage = [] })

router-init : init ≡ router
unfolding init
router-init = refl

abbrev laptop : DeviceCaps
laptop = record {
  ram_total_gb = some 16000;
  ram_available_gb = some 6500;
  cpu_cores = some 8;
  gpu = none;
  device_type = some "laptop";
  platform = some "linux";
}

laptop-medium :
    select_model_profile laptop none router ≡ get_model_profile "asis-local-medium" router
unfolding select_model_profile candidates ranked sort_by score_for matches_capabilities has_room
    get_usage get_model_profile put_all lookup insert elem
laptop-medium = refl

router-IsDistinct : IsDistinct router.model_profiles
router-IsDistinct =
    put_all-IsDistinct default_profiles (record { model_profiles = []; profile_usage = [] }) tt

select_model_profile-IsSelected_example :
    IsSelected router laptop none (select_model_profile laptop none router)
select_model_profile-IsSelected_example =
    select_model_profile-IsSelected router laptop none router-IsDistinct
