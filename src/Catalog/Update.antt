-- ===== src/Catalog/Update.antt =====
-- `ServiceCatalog::update_service` on the services in use and the free places.
use usrp_atsc.Common.{
  ℕ, ◌+◌, ◌≡◌, sym, ap, ◌∙◌, arith, ◌==◌, if-true, if-false, Bool, true, false, not, ◌||◌, List,
  ◌∷◌, ◌++◌, append_assoc, length, length-append, get_or, set, Option, none, some,
}
use mathlib.Core.Path.{ap₂}
use usrp_atsc.Catalog.{
  Service, ServiceCatalog, default_service, Outcome, refuse, is_service, place_where, find_slot,
  store_service, update_service,
}
use usrp_atsc.Catalog.Lookup.{count, place_where-middle, get_or-middle, set-middle}
use usrp_atsc.Catalog.Table.{is_invalid, catalog_of, service_valid}

-- The test of `update_service` for what it does not take.
abbrev pub is_bad : Service → Bool
is_bad s = not s.valid || s.service_id == 0

pub update_service-bad :
    (c : ServiceCatalog) (s : Service) → is_bad s ≡ true → update_service c s ≡ refuse c
unfolding update_service
update_service-bad c s h = if-true (refuse c) _ h

abbrev pub stored_at : List Service → List Service → Bool → Outcome
stored_at stored spare callback = record {
  done = true;
  catalog = catalog_of stored spare callback;
  notified = callback;
}

-- The slot of a service that is known, and what `update_service` does then.
module _ (s : Service) (a b : List Service) (m : Service) (spare : List Service) (callback : Bool)
    (good : is_bad s ≡ false) (h : is_service s.service_id m ≡ true)
    (e : count (is_service s.service_id) a ≡ 0) where
  all_split : (v : Service) → (a ++ v ∷ b) ++ spare ≡ a ++ v ∷ (b ++ spare)
  all_split v = append_assoc a (v ∷ b) spare

  find_slot-known :
      find_slot (catalog_of (a ++ m ∷ b) spare callback) s.service_id ≡ some (length a)
  unfolding find_slot
  find_slot-known = ap first_or_free found
    where
      first_or_free : Option ℕ → Option ℕ
      first_or_free o = elim o [
        | some i ↦ some i
        | none ↦ place_where is_invalid ((a ++ m ∷ b) ++ spare)
      ]

      found : place_where (is_service s.service_id) ((a ++ m ∷ b) ++ spare) ≡ some (length a)
      found =
          ap (place_where (is_service s.service_id)) (all_split m)
          ∙ place_where-middle (is_service s.service_id) a (b ++ spare) m e h

  slot_not_new : not (get_or ((a ++ m ∷ b) ++ spare) (length a) default_service).valid ≡ false
  slot_not_new =
      ap (λ l. not (get_or l (length a) default_service).valid) (all_split m)
      ∙ ap is_invalid (get_or-middle a (b ++ spare) m default_service)
      ∙ ap not (service_valid s.service_id m h)

  store_service-known :
      store_service (catalog_of (a ++ m ∷ b) spare callback) s (length a)
      ≡ stored_at (a ++ s ∷ b) spare callback
  unfolding store_service
  store_service-known =
      ap₂
        (λ l n. record {
          done = true;
          catalog = record { services = l; num_services = n; has_callback = callback };
          notified = callback;
        })
        (ap (λ l. set l (length a) s) (all_split m)
          ∙ set-middle a (b ++ spare) m s
          ∙ sym (all_split s))
        (if-false (length (a ++ m ∷ b) + 1) (length (a ++ m ∷ b)) slot_not_new
          ∙ omega (arith, length-append a (m ∷ b), length-append a (s ∷ b)))

  pub update_service-known :
      update_service (catalog_of (a ++ m ∷ b) spare callback) s
      ≡ stored_at (a ++ s ∷ b) spare callback
  unfolding update_service
  update_service-known =
      if-false (refuse (catalog_of (a ++ m ∷ b) spare callback)) _ good
      ∙ ap
          (λ o. elim o [
            | none ↦ refuse (catalog_of (a ++ m ∷ b) spare callback)
            | some slot ↦ store_service (catalog_of (a ++ m ∷ b) spare callback) s slot
          ])
          find_slot-known
      ∙ store_service-known
