-- ===== src/Catalog/Spec.antt =====
-- What `ServiceCatalog` promises: a map from service numbers to services, of at most 32 entries.
use usrp_atsc.Common.{
  ℕ, ◌+◌, ◌-◌, ◌==◌, ltb, if◌then◌else◌, Bool, true, false, not, ◌&&◌, ◌||◌, List, [], ◌∷◌, Option,
  none, some,
}
use usrp_atsc.Catalog.{Service, ServiceCatalog, update_service, remove_service, clear_catalog}

pub record CatalogSpec : Type 0 where
  pub entry : ℕ → Option Service
  pub size : ℕ

abbrev pub is_some {ℓ} : {A : Type ℓ} → Option A → Bool
is_some none = false
is_some (some a) = true

abbrev pub empty_spec : CatalogSpec
empty_spec = record { entry = λ id. none; size = 0 }

-- A service with a number is taken where the number is known or a place is free.
abbrev pub accepts : CatalogSpec → Service → Bool
accepts m s =
    (s.valid && not (s.service_id == 0)) && (is_some (m.entry s.service_id) || ltb m.size 32)

abbrev pub insert_spec : CatalogSpec → Service → CatalogSpec
insert_spec m s = record {
  entry = λ id. if s.service_id == id then some s else m.entry id;
  size = if is_some (m.entry s.service_id) then m.size else m.size + 1;
}

abbrev pub delete_spec : CatalogSpec → ℕ → CatalogSpec
delete_spec m key = record {
  entry = λ id. if key == id then none else m.entry id;
  size = m.size - 1;
}

-- The calls that change a catalog.
pub data CatalogCall : Type 0 where
  update : Service → CatalogCall
  remove : ℕ → CatalogCall
  clear : CatalogCall

-- A call on the map: the Boolean that it returns, and the map that it leaves.
unfoldable pub call_spec : CatalogSpec → CatalogCall → Bool × CatalogSpec
call_spec m (CatalogCall.update s) = let ok = accepts m s in (ok, if ok then insert_spec m s else m)
call_spec m (CatalogCall.remove id) =
    let ok = is_some (m.entry id) in (ok, if ok then delete_spec m id else m)
call_spec m CatalogCall.clear = (true, empty_spec)

-- The same call on the catalog. `clear` returns nothing, which is `true` here.
unfoldable pub call_catalog : ServiceCatalog → CatalogCall → Bool × ServiceCatalog
unfolding update_service remove_service clear_catalog
call_catalog c (CatalogCall.update s) = let o = update_service c s in (o.done, o.catalog)
call_catalog c (CatalogCall.remove id) = let o = remove_service c id in (o.done, o.catalog)
call_catalog c CatalogCall.clear = (true, clear_catalog c)

-- A sequence of calls, and what they return.
unfoldable pub run_spec : CatalogSpec → List CatalogCall → List Bool × CatalogSpec
unfolding call_spec
run_spec m [] = ([], m)
run_spec m (o ∷ os) =
    let first = call_spec m o in let rest = run_spec first.1 os in (first.0 ∷ rest.0, rest.1)

unfoldable pub run_catalog : ServiceCatalog → List CatalogCall → List Bool × ServiceCatalog
unfolding call_catalog
run_catalog c [] = ([], c)
run_catalog c (o ∷ os) =
    let first = call_catalog c o in let rest = run_catalog first.1 os in (first.0 ∷ rest.0, rest.1)
