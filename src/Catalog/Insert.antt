-- ===== src/Catalog/Insert.antt =====
-- `ServiceCatalog::update_service` for a service that is not known: a free place, or none.
use usrp_atsc.Common.{
  ℕ, ◌+◌, ◌≡◌, sym, ap, ◌∙◌, arith, if-true, if-false, Bool, true, false, not, List, [], ◌∷◌, ◌++◌,
  append-nil, append_assoc, length, length-append, Option, none, some,
}
use mathlib.Core.Path.{ap₂}
use usrp_atsc.Catalog.{
  Service, ServiceCatalog, default_service, Outcome, refuse, is_service, place_where, find_slot,
  store_service, update_service,
}
use usrp_atsc.Catalog.Lookup.{
  count, count-append, place_where-none, place_where-middle, get_or-middle, set-middle,
}
use usrp_atsc.Catalog.Table.{is_invalid, IsTable, catalog_of, spare_has_none, free_is_invalid}
use usrp_atsc.Catalog.Update.{is_bad, stored_at}

abbrev slot_of : List Service → Option ℕ → Option ℕ
slot_of services o = elim o [ some i ↦ some i | none ↦ place_where is_invalid services ]

abbrev store_at : ServiceCatalog → Service → Option ℕ → Outcome
store_at c s o = elim o [ none ↦ refuse c | some slot ↦ store_service c s slot ]

module _ (s : Service) (stored : List Service) (spare : List Service) (callback : Bool)
    (good : is_bad s ≡ false) (e : count (is_service s.service_id) stored ≡ 0)
    (t : IsTable stored spare) where
  find_slot-unknown :
      find_slot (catalog_of stored spare callback) s.service_id
      ≡ place_where is_invalid (stored ++ spare)
  unfolding find_slot
  find_slot-unknown = ap (slot_of (stored ++ spare)) (
      place_where-none (is_service s.service_id) (stored ++ spare) (
        omega (
          arith,
          e,
          count-append (is_service s.service_id) stored spare,
          spare_has_none stored spare t s.service_id,
        )))

  update_service-slot :
      (o : Option ℕ)
      → place_where is_invalid (stored ++ spare) ≡ o
      → update_service (catalog_of stored spare callback) s
        ≡ store_at (catalog_of stored spare callback) s o
  unfolding update_service
  update_service-slot o h =
      if-false (refuse (catalog_of stored spare callback)) _ good
      ∙ ap (store_at (catalog_of stored spare callback) s) (find_slot-unknown ∙ h)

pub update_service-full :
    (s : Service) (stored : List Service) (callback : Bool)
    → is_bad s ≡ false
    → count (is_service s.service_id) stored ≡ 0
    → IsTable stored []
    → update_service (catalog_of stored [] callback) s ≡ refuse (catalog_of stored [] callback)
update_service-full s stored callback good e t =
    update_service-slot s stored [] callback good e t none (
      ap (place_where is_invalid) (append-nil stored)
      ∙ place_where-none is_invalid stored t.stored_valid)

store_service-unknown :
    (s : Service) (stored : List Service) (r : Service) (spare : List Service) (callback : Bool)
    → r.valid ≡ false
    → store_service (catalog_of stored (r ∷ spare) callback) s (length stored)
      ≡ stored_at (stored ++ s ∷ []) spare callback
unfolding store_service
store_service-unknown s stored r spare callback h =
    ap₂
      (λ l n. record {
        done = true;
        catalog = record { services = l; num_services = n; has_callback = callback };
        notified = callback;
      })
      (set-middle stored spare r s ∙ sym (append_assoc stored (s ∷ []) spare))
      (if-true (length stored + 1) (length stored)
          (ap is_invalid (get_or-middle stored spare r default_service) ∙ ap not h)
        ∙ sym (length-append stored (s ∷ [])))

pub update_service-unknown :
    (s : Service) (stored : List Service) (r : Service) (spare : List Service) (callback : Bool)
    → is_bad s ≡ false
    → count (is_service s.service_id) stored ≡ 0
    → s.valid ≡ true
    → IsTable stored (r ∷ spare)
    → update_service (catalog_of stored (r ∷ spare) callback) s
      ≡ stored_at (stored ++ s ∷ []) spare callback
update_service-unknown s stored r spare callback good e v t =
    let free = free_is_invalid s stored r spare v e t in
    update_service-slot s stored (r ∷ spare) callback good e t (some (length stored))
      (place_where-middle is_invalid stored spare r t.stored_valid (ap not free))
    ∙ store_service-unknown s stored r spare callback free
