-- ===== src/Scheduler/CapabilityRouter.antt =====
-- core/scheduler/capability_router.py. Sizes in GB are numbers of thousandths; the metadata of a profile
-- is left out.
pub mod Defaults
pub mod Selected
mod Examples
use Prim.Native.Nat.{◌/◌, ◌-◌}
use Prim.Native.String.{compare}
use Prim.Native.Nat.{Ordering}
use core_host.Base.{
  ℕ, ◌+◌, Bool, true, false, not, ◌&&◌, ◌||◌, String, Option, none, some, List, [], ◌∷◌, elem,
  or_else, ltb, leb, num_eq, if◌then◌else◌, Result, ok, err, ◌==◌,
}
use core_host.Base.Decimal.{ℤ, pos, negsuc}
use core_host.Base.Dict.{Dict, lookup, insert, has, values}
use core_host.Base.Sorted.{sort_by, text_le}

pub record ModelProfile : Type 0 where
  pub profile_id : String
  pub name : String
  pub model_id : String
  pub size_gb : ℕ
  pub min_ram_total_gb : ℕ
  pub min_ram_available_gb : ℕ
  pub min_cpu_cores : ℕ
  pub requires_gpu : Bool
  pub gpu_type : Option String
  pub capabilities : List String
  pub supported_device_types : List String
  pub supported_platforms : List String
  pub max_concurrent : ℕ

pub data ProfileError : Type 0 where
  empty_profile_id empty_model_id : ProfileError
  profile_already_registered : String → ProfileError

-- `__post_init__`
unfoldable pub validate : ModelProfile → Result ProfileError ModelProfile
validate p =
    if p.profile_id == ""
    then err empty_profile_id
    else if p.model_id == ""
    then err empty_model_id
    else ok p

pub record Gpu : Type 0 where
  pub available : Bool
  pub gpu_type : Option String

-- The keys of `device_caps`; none where a key is absent, or where the gpu is empty.
pub record DeviceCaps : Type 0 where
  pub ram_total_gb : Option ℕ
  pub ram_available_gb : Option ℕ
  pub cpu_cores : Option ℕ
  pub gpu : Option Gpu
  pub device_type : Option String
  pub platform : Option String

abbrev pub same_text : Option String → Option String → Bool
same_text none none = true
same_text none (some b) = false
same_text (some a) none = false
same_text (some a) (some b) = a == b

abbrev pub type_fits : Option String → Option String → Bool
type_fits none t = true
type_fits (some wanted) t = if wanted == "" then true else same_text t (some wanted)

abbrev pub gpu_fits : Bool → Option String → Option Gpu → Bool
gpu_fits false wanted g = true
gpu_fits true wanted none = false
gpu_fits true wanted (some g) = g.available && type_fits wanted g.gpu_type

-- An empty list allows everything.
abbrev pub listed : List String → String → Bool
listed [] x = true
listed (y ∷ ys) x = elem x (y ∷ ys)

abbrev pub device_type_of : DeviceCaps → String
device_type_of c = or_else c.device_type "generic"

abbrev pub platform_of : DeviceCaps → String
platform_of c = or_else c.platform "unknown"

unfoldable pub matches_capabilities : ModelProfile → DeviceCaps → Bool
matches_capabilities p c =
    leb p.min_ram_total_gb (or_else c.ram_total_gb 0)
    && leb p.min_ram_available_gb (or_else c.ram_available_gb 0)
    && leb p.min_cpu_cores (or_else c.cpu_cores 0)
    && gpu_fits p.requires_gpu p.gpu_type c.gpu
    && listed p.supported_device_types (device_type_of c)
    && listed p.supported_platforms (platform_of c)

-- `int(abs(a - b))`, in GB
abbrev pub difference : ℕ → ℕ → ℕ
difference a b = (if leb b a then a - b else b - a) / 1000

abbrev pub gpu_bonus : Bool → Option String → Option Gpu → ℕ
gpu_bonus false wanted g = 0
gpu_bonus true wanted none = 0
gpu_bonus true wanted (some g) = if g.available && same_text g.gpu_type wanted then 20 else 0

abbrev pub bonus : ℕ → List String → String → ℕ
bonus n [] x = 0
bonus n (y ∷ ys) x = if elem x (y ∷ ys) then n else 0

unfoldable pub score_for : ModelProfile → DeviceCaps → ℤ
score_for p c =
    if matches_capabilities p c
    then pos (
        (10 - difference (or_else c.ram_available_gb 0) p.min_ram_available_gb)
        + gpu_bonus p.requires_gpu p.gpu_type c.gpu
        + bonus 10 p.supported_device_types (device_type_of c)
        + bonus 5 p.supported_platforms (platform_of c)
        + (20 - p.size_gb / 1000))
    else negsuc 0

pub record CapabilityRouter : Type 0 where
  pub model_profiles : Dict ModelProfile
  pub profile_usage : Dict ℕ

-- A profile takes its place, not used.
abbrev pub put : ModelProfile → CapabilityRouter → CapabilityRouter
put p r = record r {
  model_profiles = insert p.profile_id p r.model_profiles;
  profile_usage = insert p.profile_id 0 r.profile_usage;
}

unfoldable pub put_all : List ModelProfile → CapabilityRouter → CapabilityRouter
put_all [] r = r
put_all (p ∷ ps) r = put_all ps (put p r)

unfoldable pub register_model_profile :
    ModelProfile → CapabilityRouter → Result ProfileError ModelProfile × CapabilityRouter
register_model_profile p r =
    if has p.profile_id r.model_profiles
    then (err (profile_already_registered p.profile_id), r)
    else (ok p, put p r)

unfoldable pub get_model_profile : String → CapabilityRouter → Option ModelProfile
get_model_profile id r = lookup id r.model_profiles

unfoldable pub list_model_profiles : CapabilityRouter → List ModelProfile
list_model_profiles r = values r.model_profiles

unfoldable pub get_usage : String → CapabilityRouter → ℕ
get_usage id r = or_else (lookup id r.profile_usage) 0

unfoldable pub has_room : ModelProfile → CapabilityRouter → Bool
has_room p r = ltb (get_usage p.profile_id r) p.max_concurrent

-- The loop; an entry has its score.
abbrev pub scored : ℤ → ModelProfile → List (ℕ × ModelProfile) → List (ℕ × ModelProfile)
scored (pos n) p rest = if ltb 0 n then (n, p) ∷ rest else rest
scored (negsuc n) p rest = rest

unfoldable pub candidates :
    CapabilityRouter → DeviceCaps → List ModelProfile → List (ℕ × ModelProfile)
candidates r c [] = []
candidates r c (p ∷ ps) =
    let rest = candidates r c ps in if has_room p r then scored (score_for p c) p rest else rest

-- `(x[0], x[1].profile_id) >= (y[0], y[1].profile_id)`
abbrev pub at_least : ℕ × ModelProfile → ℕ × ModelProfile → Bool
at_least (m, p) (n, q) = ltb n m || (num_eq n m && text_le q.profile_id p.profile_id)

unfoldable pub ranked : List (ℕ × ModelProfile) → List (ℕ × ModelProfile)
ranked = sort_by at_least

abbrev pub first : List (ℕ × ModelProfile) → Option ModelProfile
first [] = none
first ((n, p) ∷ cs) = some p

abbrev pub best : CapabilityRouter → DeviceCaps → Option ModelProfile
best r c = first (ranked (candidates r c (values r.model_profiles)))

abbrev pub preferred_found :
    Option ModelProfile → String → DeviceCaps → CapabilityRouter → Option ModelProfile
preferred_found none id c r = none
preferred_found (some p) id c r =
    if matches_capabilities p c && ltb (get_usage id r) p.max_concurrent then some p else none

-- The preferred profile, if it is asked for by a name that is not empty, fits and has room.
abbrev pub preferred : Option String → DeviceCaps → CapabilityRouter → Option ModelProfile
preferred none c r = none
preferred (some id) c r =
    if id == "" then none else preferred_found (lookup id r.model_profiles) id c r

abbrev pub or_best : Option ModelProfile → DeviceCaps → CapabilityRouter → Option ModelProfile
or_best (some p) c r = some p
or_best none c r = best r c

unfoldable pub select_model_profile :
    DeviceCaps → Option String → CapabilityRouter → Option ModelProfile
select_model_profile c wanted r = or_best (preferred wanted c r) c r

abbrev pub used : String → Option ℕ → ℕ → CapabilityRouter → CapabilityRouter
used id none n r = r
used id (some old) n r = record r { profile_usage = insert id n r.profile_usage }

unfoldable pub record_usage : String → CapabilityRouter → CapabilityRouter
record_usage id r = used id (lookup id r.profile_usage) (get_usage id r + 1) r

unfoldable pub release_usage : String → CapabilityRouter → CapabilityRouter
release_usage id r = used id (lookup id r.profile_usage) (get_usage id r - 1) r
