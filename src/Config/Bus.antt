-- ===== src/Config/Bus.antt =====
-- The bus that distributes the configuration, class `ConfigBus` of lib/config/config_bus.h and
-- lib/config/config_bus.cc. An observer is the number of its object, and a null pointer is `none`.
pub mod Places
pub mod Laws
use usrp_atsc.Common.{
  ℕ, zero, suc, ◌+◌, ◌-◌, ◌%◌, ◌^◌, ◌==◌, ltb, leb, if◌then◌else◌, Bool, true, false, List, [], ◌∷◌,
  get_or, set, replicate, Option, none, some,
}
use mathlib.Core.Option
use usrp_atsc.Config.{Atsc3Config, empty_config}

-- `MAX_OBSERVERS`
abbrev pub max_observers : ℕ
max_observers = 16

pub record ConfigBus : Type 0 where
  pub current_config : Atsc3Config
  pub observers : List (Option ℕ)
  pub num_observers : ℕ
  pub publish_count : ℕ

-- `ConfigBus()`
unfoldable pub new_bus : ConfigBus
new_bus = record {
  current_config = empty_config;
  observers = replicate max_observers none;
  num_observers = 0;
  publish_count = 0;
}

-- The test of a place for an observer.
unfoldable pub holds : Option ℕ → ℕ → Bool
holds none observer = false
holds (some o) observer = o == observer

-- The search loops, from place `i` on with `count` left.
unfoldable pub find_place : List (Option ℕ) → ℕ → ℕ → ℕ → Option ℕ
unfolding holds
find_place observers observer i zero = none
find_place observers observer i (suc count) =
    let rest = find_place observers observer (i + 1) count in
    if holds (get_or observers i none) observer then some i else rest

-- Whether a place has been found.
abbrev pub is_found : Option ℕ → Bool
is_found none = false
is_found (some i) = true

-- `is_registered`
unfoldable pub is_registered : ConfigBus → Option ℕ → Bool
unfolding find_place
is_registered bus none = false
is_registered bus (some observer) = is_found (find_place bus.observers observer 0 bus.num_observers)

-- What registering an observer changes.
abbrev pub with_observer : ConfigBus → ℕ → ConfigBus
with_observer bus observer = record bus {
  observers = set bus.observers bus.num_observers (some observer);
  num_observers = bus.num_observers + 1;
}

-- `register_observer`
unfoldable pub register_observer : ConfigBus → Option ℕ → ConfigBus × Bool
unfolding is_registered
register_observer bus none = (bus, false)
register_observer bus (some observer) =
    if is_registered bus (some observer)
    then (bus, true)
    else if leb max_observers bus.num_observers
    then (bus, false)
    else (with_observer bus observer, true)

-- The loop that shifts the observers down, from place `j` on with `count` left.
unfoldable pub shift_down : List (Option ℕ) → ℕ → ℕ → List (Option ℕ)
shift_down observers j zero = observers
shift_down observers j (suc count) =
    shift_down (set observers j (get_or observers (j + 1) none)) (j + 1) count

-- The rest of `unregister_observer`, with the place that was found, if any.
unfoldable pub without_place : ConfigBus → Option ℕ → ConfigBus
unfolding shift_down
without_place bus none = bus
without_place bus (some i) = record bus {
  observers =
      set (shift_down bus.observers i (bus.num_observers - 1 - i)) (bus.num_observers - 1) none;
  num_observers = bus.num_observers - 1;
}

-- `unregister_observer`
unfoldable pub unregister_observer : ConfigBus → Option ℕ → ConfigBus
unfolding find_place without_place
unregister_observer bus none = bus
unregister_observer bus (some observer) =
    without_place bus (find_place bus.observers observer 0 bus.num_observers)

-- The loop of `publish`: the observers that are called, in order.
unfoldable pub notified : List (Option ℕ) → ℕ → ℕ → List ℕ
notified observers i zero = []
notified observers i (suc count) = elim (get_or observers i none) [
  | none ↦ notified observers (i + 1) count
  | some o ↦ o ∷ notified observers (i + 1) count
]

-- `publish`: every observer is called with the configuration. The count is a `uint32_t`.
unfoldable pub publish : ConfigBus → Atsc3Config → ConfigBus × List ℕ
unfolding notified
publish bus config = (
  record bus { current_config = config; publish_count = (bus.publish_count + 1) % 2 ^ 32 },
  notified bus.observers 0 bus.num_observers,
)

-- `clear_observers`
unfoldable pub clear_observers : ConfigBus → ConfigBus
clear_observers bus = record bus { observers = replicate max_observers none; num_observers = 0 }
