-- ===== src/Catalog/Tests.antt =====
-- Runs of the service catalog at concrete inputs.
use usrp_atsc.Common.{
  ℕ, ◌≤◌, ◌≡◌, refl, if◌then◌else◌, true, false, List, [], ◌∷◌, length, none, some,
}
use usrp_atsc.Catalog.{
  Service, default_service, ServiceCatalog, is_service, find_first, find_service, find_by_channel,
  get_service, get_all_services, get_video, get_audio, new_catalog,
}
use usrp_atsc.Catalog.Lookup.{count}
use usrp_atsc.Catalog.Spec.{is_some, empty_spec, CatalogCall, run_spec, run_catalog}
use usrp_atsc.Catalog.Refine.{run_catalog-run_spec, get_all_services-run_spec}

abbrev service : ℕ → ℕ → Service
service id minor = record default_service {
  service_id = id;
  major_channel = 7;
  minor_channel = minor;
  valid = true;
}

-- Three services, a new version of the second, the removal of the first and of one that is not there,
-- and a service without a number.
abbrev calls : List CatalogCall
calls =
    CatalogCall.update (service 10 1)
    ∷ CatalogCall.update (service 20 2)
    ∷ CatalogCall.update (service 30 3)
    ∷ CatalogCall.update (service 20 4)
    ∷ CatalogCall.remove 10
    ∷ CatalogCall.remove 11
    ∷ CatalogCall.update (service 0 5)
    ∷ []

run_catalog-run_spec_example :
    ((run_catalog new_catalog calls).0 ≡ (run_spec empty_spec calls).0)
    × ((id : ℕ)
        → find_service (run_catalog new_catalog calls).1 id
          ≡ (run_spec empty_spec calls).1.entry id)
    × ((run_catalog new_catalog calls).1.num_services ≡ (run_spec empty_spec calls).1.size)
run_catalog-run_spec_example = run_catalog-run_spec calls

get_all_services-run_spec_example :
    (length (get_all_services (run_catalog new_catalog calls).1)
      ≡ (run_spec empty_spec calls).1.size)
    × ((run_spec empty_spec calls).1.size ≤ 32)
    × ((id : ℕ)
        → (find_first (is_service id) (get_all_services (run_catalog new_catalog calls).1)
            ≡ (run_spec empty_spec calls).1.entry id)
          × (count (is_service id) (get_all_services (run_catalog new_catalog calls).1)
              ≡ (if is_some ((run_spec empty_spec calls).1.entry id) then 1 else 0)))
get_all_services-run_spec_example = get_all_services-run_spec calls

after_calls : ServiceCatalog
unfolding run_catalog new_catalog
after_calls = (run_catalog new_catalog calls).1

after_calls_lem :
    (get_all_services after_calls ≡ service 30 3 ∷ service 20 4 ∷ [])
    × (find_by_channel after_calls 7 4 ≡ some (service 20 4))
    × (find_by_channel after_calls 7 2 ≡ none)
    × (get_service after_calls 0 ≡ some (service 30 3))
    × (get_service after_calls 2 ≡ none)
unfolding after_calls get_all_services find_by_channel get_service
after_calls_lem = (refl, refl, refl, refl, refl)

returned_lem :
    (run_catalog new_catalog calls).0 ≡ true ∷ true ∷ true ∷ true ∷ true ∷ false ∷ false ∷ []
unfolding run_catalog new_catalog
returned_lem = refl

-- A service with more components than its array has, of which none is a video.
crowded : Service
crowded = record default_service { num_components = 9 }

get_video_lem : (get_video crowded ≡ none) × (get_audio default_service ≡ some none)
unfolding get_video get_audio crowded
get_video_lem = (refl, refl)
