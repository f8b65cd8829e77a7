-- ===== src/Runtime/Lifecycle/Setup.antt =====
-- What starting and stopping leave alone, and the functions that a list of components hands in.
use core_host.Base.{◌≡◌, refl, String, Option, none, some, List, [], ◌∷◌, ◌++◌, ◌∙◌}
use core_host.Base.Dict.{Dict, lookup}
use core_host.Runtime.State.{Callable, Runtime}

pub record SameSetup (a b : Runtime) : Type 0 where
  pub components : b.components ≡ a.components
  pub handlers : b.shutdown_handlers ≡ a.shutdown_handlers
  pub dependencies : b.component_dependencies ≡ a.component_dependencies
  pub enabled : b.enabled ≡ a.enabled

pub SameSetup-refl : (a : Runtime) → SameSetup a a
SameSetup-refl a = record {
  components = refl;
  handlers = refl;
  dependencies = refl;
  enabled = refl;
}

pub SameSetup-trans : {a b c : Runtime} → SameSetup a b → SameSetup b c → SameSetup a c
SameSetup-trans f g = record {
  components = g.components ∙ f.components;
  handlers = g.handlers ∙ f.handlers;
  dependencies = g.dependencies ∙ f.dependencies;
  enabled = g.enabled ∙ f.enabled;
}

abbrev pub one_of : Option Callable → List Callable
one_of none = []
one_of (some f) = f ∷ []

-- The functions that are stored for the names, in the order of the names.
abbrev pub functions_of : Dict Callable → List String → List Callable
functions_of d [] = []
functions_of d (name ∷ names) = one_of (lookup name d) ++ functions_of d names
