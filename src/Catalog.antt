-- ===== src/Catalog.antt =====
-- The table of broadcast services, lib/framing/service_catalog.h and lib/framing/service_catalog.cc. A
-- pointer to a service that is handed out is the service it points to, and a null pointer is `none`.
pub mod Types
pub mod Lookup
pub mod Spec
pub mod Table
pub mod Update
pub mod Insert
pub mod Removal
pub mod Keeps
pub mod Erase
pub mod Refine
mod Tests
pub use Types.*
use usrp_atsc.Common.{
  ℕ, zero, suc, ◌+◌, ◌-◌, ◌==◌, ltb, if◌then◌else◌, Bool, true, false, not, ◌&&◌, ◌||◌, List, [],
  ◌∷◌, length, get_or, get_elem?, set, take, map, replicate, Option, none, some,
}
use mathlib.Core.Option

-- `has_callback` says whether `update_callback_` is set.
pub record ServiceCatalog : Type 0 where
  pub services : List Service
  pub num_services : ℕ
  pub has_callback : Bool

-- A valid service with this number, and with this channel.
abbrev pub is_service : ℕ → Service → Bool
is_service id s = s.valid && s.service_id == id

abbrev pub is_channel : ℕ → ℕ → Service → Bool
is_channel major minor s = s.valid && s.major_channel == major && s.minor_channel == minor

-- The search loops: the first service that passes the test, and its place.
unfoldable pub find_first : (Service → Bool) → List Service → Option Service
find_first p [] = none
find_first p (s ∷ ss) = if p s then some s else find_first p ss

unfoldable pub place_where : (Service → Bool) → List Service → Option ℕ
place_where p [] = none
place_where p (s ∷ ss) = if p s then some 0 else Option.map suc (place_where p ss)

-- `get_service`
unfoldable pub get_service : ServiceCatalog → ℕ → Option Service
get_service c index = if ltb index c.num_services then get_elem? c.services index else none

-- `find_service`
unfoldable pub find_service : ServiceCatalog → ℕ → Option Service
unfolding find_first
find_service c id = find_first (is_service id) (take c.num_services c.services)

-- `find_by_channel`
unfoldable pub find_by_channel : ServiceCatalog → ℕ → ℕ → Option Service
unfolding find_first
find_by_channel c major minor = find_first (is_channel major minor) (take c.num_services c.services)

-- `find_slot`
unfoldable pub find_slot : ServiceCatalog → ℕ → Option ℕ
unfolding place_where
find_slot c id = elim (place_where (is_service id) c.services) [
  | some i ↦ some i
  | none ↦ place_where (λ s. not s.valid) c.services
]

-- What `update_service` and `remove_service` do: the value they return, the catalog that they leave,
-- and whether they call `update_callback_`.
pub record Outcome : Type 0 where
  pub done : Bool
  pub catalog : ServiceCatalog
  pub notified : Bool

abbrev pub refuse : ServiceCatalog → Outcome
refuse c = record { done = false; catalog = c; notified = false }

-- The rest of `update_service`, with the slot.
unfoldable pub store_service : ServiceCatalog → Service → ℕ → Outcome
store_service c service slot =
    let is_new = not (get_or c.services slot default_service).valid in
    record {
      done = true;
      catalog = record c {
        services = set c.services slot service;
        num_services = if is_new then c.num_services + 1 else c.num_services;
      };
      notified = c.has_callback;
    }

-- `update_service`
unfoldable pub update_service : ServiceCatalog → Service → Outcome
unfolding find_slot store_service
update_service c service =
    if not service.valid || service.service_id == 0
    then refuse c
    else elim (find_slot c service.service_id) [
      | none ↦ refuse c
      | some slot ↦ store_service c service slot
    ]

-- The body of the loop of `remove_service` where its test holds at `i`.
unfoldable pub remove_at : ServiceCatalog → ℕ → Outcome
remove_at c i =
    let last = c.num_services - 1 in
    let moved =
      if ltb i last
      then set c.services i (get_or c.services last default_service)
      else c.services in
    record {
      done = true;
      catalog = record c {
        services = set moved last (record (get_or moved last default_service) { valid = false });
        num_services = last;
      };
      notified = c.has_callback;
    }

-- `remove_service`
unfoldable pub remove_service : ServiceCatalog → ℕ → Outcome
unfolding place_where remove_at
remove_service c id = elim (place_where (is_service id) (take c.num_services c.services)) [
  | none ↦ refuse c
  | some i ↦ remove_at c i
]

abbrev pub clear_service : Service → Service
clear_service s = record s { valid = false; service_id = 0; num_components = 0 }

-- `clear`
unfoldable pub clear_catalog : ServiceCatalog → ServiceCatalog
clear_catalog c = record c { services = map clear_service c.services; num_services = 0 }

-- `ServiceCatalog()`
unfoldable pub new_catalog : ServiceCatalog
unfolding clear_catalog
new_catalog = clear_catalog (record {
  services = replicate max_services default_service;
  num_services = 0;
  has_callback = false;
})

-- `set_update_callback`, with whether the callback is not empty.
unfoldable pub set_update_callback : ServiceCatalog → Bool → ServiceCatalog
set_update_callback c callback = record c { has_callback = callback }

-- `get_all_services`
unfoldable pub valid_services : List Service → List Service
valid_services [] = []
valid_services (s ∷ ss) = let rest = valid_services ss in if s.valid then s ∷ rest else rest

unfoldable pub get_all_services : ServiceCatalog → List Service
unfolding valid_services
get_all_services c = valid_services (take c.num_services c.services)

-- `get_video` and `get_audio`. `none` is a read outside of the array of components.
unfoldable pub find_component :
    (ServiceComponent → Bool) → List ServiceComponent → ℕ → Option (Option ServiceComponent)
find_component p cs zero = some none
find_component p [] (suc n) = none
find_component p (c ∷ cs) (suc n) = if p c then some (some c) else find_component p cs n

unfoldable pub is_video : ServiceComponent → Bool
is_video c = elim c.type [ ComponentType.video ↦ c.valid | _ ↦ false ]

unfoldable pub is_audio : ServiceComponent → Bool
is_audio c = elim c.type [ ComponentType.audio ↦ c.valid | _ ↦ false ]

unfoldable pub get_video : Service → Option (Option ServiceComponent)
unfolding find_component is_video
get_video s = find_component is_video s.components s.num_components

unfoldable pub get_audio : Service → Option (Option ServiceComponent)
unfolding find_component is_audio
get_audio s = find_component is_audio s.components s.num_components
