-- ===== src/Catalog/Refine.antt =====
-- `ServiceCatalog` refines the map that it promises.
use usrp_atsc.Common.{
  ℕ, ◌≤◌, ◌≡◌, refl, sym, ap, ◌∙◌, arith, if◌then◌else◌, if-true, Bool, true, false, Bool-cases,
  inl, inr, List, [], ◌∷◌, length, length-append, map, length-map, take-length-append, replicate,
  Option,
}
use mathlib.Core.Path.{subst, ap₂}
use usrp_atsc.Catalog.{
  max_services, get_all_services, valid_services, Service, ServiceCatalog, default_service,
  is_service, find_first, find_service, clear_service, clear_catalog, new_catalog,
}
use usrp_atsc.Catalog.Lookup.{
  count, count-nil, find_first-none, find_first-middle, count-middle, count-cons, locate,
}
use usrp_atsc.Catalog.Table.{find_service-catalog_of, is_invalid, is_valid, IsTable, catalog_of}
use usrp_atsc.Catalog.Spec.{
  CatalogSpec, is_some, empty_spec, accepts, insert_spec, CatalogCall, call_spec, call_catalog,
  run_spec, run_catalog,
}
use usrp_atsc.Catalog.Update.{is_bad, update_service-bad}
use usrp_atsc.Catalog.Keeps.{
  Keeps, Answers, Answers-refused, result_of, update-known, update-unknown,
}
use usrp_atsc.Catalog.Erase.{remove-unknown, remove-known, last_view}

-- What is to be shown of a call, where the services in use are `stored`.
abbrev Agrees : CatalogCall → CatalogSpec → List Service → Bool → List Service → Type 0
Agrees o m spare callback stored =
    IsTable stored spare
    → ((k : ℕ) → find_first (is_service k) stored ≡ m.entry k)
    → length stored ≡ m.size
    → Answers (call_catalog (catalog_of stored spare callback) o) (call_spec m o)

update-Agrees :
    (m : CatalogSpec) (s : Service) (stored spare : List Service) (callback : Bool)
    → Agrees (CatalogCall.update s) m spare callback stored
unfolding call_catalog call_spec
update-Agrees m s stored spare callback t entries size = elim (Bool-cases (is_bad s)) [
  | inl bad ↦
      let refused : accepts m s ≡ false = ground arith in
      subst (λ o. Answers (result_of o) (call_spec m (CatalogCall.update s)))
        (sym (update_service-bad (catalog_of stored spare callback) s bad))
        (Answers-refused (accepts m s) _ m (insert_spec m s) refused (record {
          stored = stored;
          spare = spare;
          callback = callback;
          form = refl;
          table = t;
          entries = entries;
          size = size;
        }))
  | inr good ↦ elim (locate (is_service s.service_id) stored) [
    | inl e ↦ update-unknown m s good stored spare callback e t entries size
    | inr l ↦
        subst (Agrees (CatalogCall.update s) m spare callback) (sym l.split)
          (update-known m s good l.before l.after l.found spare callback l.passes l.first) t entries
          size
  ]
]

remove-Agrees :
    (m : CatalogSpec) (id : ℕ) (stored spare : List Service) (callback : Bool)
    → Agrees (CatalogCall.remove id) m spare callback stored
remove-Agrees m id stored spare callback t entries size = elim (locate (is_service id) stored) [
  | inl e ↦ remove-unknown m id stored spare callback e t entries size
  | inr l ↦
      subst (Agrees (CatalogCall.remove id) m spare callback) (sym l.split)
        (remove-known m id l.before l.after l.found spare callback (last_view l.after) l.passes
          l.first)
        t entries size
]

cleared_invalid : (ss : List Service) → count is_valid (map clear_service ss) ≡ 0
cleared_invalid [] = count-nil is_valid
cleared_invalid (s ∷ ss) =
    omega (arith, count-cons is_valid (clear_service s) (map clear_service ss), cleared_invalid ss)

Keeps-clear : (c : ServiceCatalog) → length c.services ≡ 32 → Keeps (clear_catalog c) empty_spec
unfolding clear_catalog
Keeps-clear c h = record {
  stored = [];
  spare = map clear_service c.services;
  callback = c.has_callback;
  form = refl;
  table = record {
    size = omega (arith, h, length-map c.services clear_service);
    stored_valid = count-nil is_invalid;
    spare_invalid = cleared_invalid c.services;
    distinct = λ id. omega (arith, count-nil (is_service id));
  };
  entries = λ id. find_first-none (is_service id) [] (count-nil (is_service id));
  size = refl;
}

all_places : (c : ServiceCatalog) (m : CatalogSpec) → Keeps c m → length c.services ≡ 32
all_places c m k =
    ap (λ d. length d.services) k.form ∙ length-append k.stored k.spare ∙ k.table.size

call_catalog-call_spec :
    (c : ServiceCatalog) (m : CatalogSpec) (o : CatalogCall)
    → Keeps c m
    → Answers (call_catalog c o) (call_spec m o)
unfolding call_catalog call_spec
call_catalog-call_spec c m (CatalogCall.update s) k =
    subst
      (λ d. Answers (call_catalog d (CatalogCall.update s)) (call_spec m (CatalogCall.update s)))
      (sym k.form) (update-Agrees m s k.stored k.spare k.callback k.table k.entries k.size)
call_catalog-call_spec c m (CatalogCall.remove id) k =
    subst
      (λ d. Answers (call_catalog d (CatalogCall.remove id)) (call_spec m (CatalogCall.remove id)))
      (sym k.form) (remove-Agrees m id k.stored k.spare k.callback k.table k.entries k.size)
call_catalog-call_spec c m CatalogCall.clear k = (refl, Keeps-clear c (all_places c m k))

pub runs :
    (c : ServiceCatalog) (m : CatalogSpec) (os : List CatalogCall)
    → Keeps c m
    → ((run_catalog c os).0 ≡ (run_spec m os).0) × Keeps (run_catalog c os).1 (run_spec m os).1
unfolding run_catalog run_spec
runs c m [] k = (refl, k)
runs c m (o ∷ os) k =
    let (e, next) = call_catalog-call_spec c m o k in
    let (e', last) = runs (call_catalog c o).1 (call_spec m o).1 os next in
    (ap₂ (λ b bs. b ∷ bs) e e', last)

pub Keeps-new : Keeps new_catalog empty_spec
unfolding new_catalog
Keeps-new =
    Keeps-clear
      (record {
        services = replicate max_services default_service;
        num_services = 0;
        has_callback = false;
      })
      refl

-- After every sequence of updates, removals and clears on a new catalog, the calls have returned what the
-- map returns, `find_service` finds the entries of the map, and `service_count` is its size.
pub run_catalog-run_spec :
    (os : List CatalogCall)
    → ((run_catalog new_catalog os).0 ≡ (run_spec empty_spec os).0)
      × ((id : ℕ)
          → find_service (run_catalog new_catalog os).1 id ≡ (run_spec empty_spec os).1.entry id)
      × ((run_catalog new_catalog os).1.num_services ≡ (run_spec empty_spec os).1.size)
run_catalog-run_spec os =
    let (e, k) = runs new_catalog empty_spec os Keeps-new in
    (
      e,
      λ id.
          ap (λ c. find_service c id) k.form
          ∙ find_service-catalog_of k.stored k.spare k.callback id
          ∙ k.entries id,
      ap (λ c. c.num_services) k.form ∙ k.size,
    )

valid_services-all : (ss : List Service) → count is_invalid ss ≡ 0 → valid_services ss ≡ ss
unfolding valid_services
valid_services-all [] e = refl
valid_services-all (s ∷ ss) e =
    if-true (s ∷ valid_services ss) (valid_services ss) (ground (arith, count-cons is_invalid s ss))
    ∙ ap (◌∷◌ s) (valid_services-all ss (omega (arith, count-cons is_invalid s ss)))

get_all_services-catalog_of :
    (stored spare : List Service) (callback : Bool)
    → IsTable stored spare
    → get_all_services (catalog_of stored spare callback) ≡ stored
unfolding get_all_services
get_all_services-catalog_of stored spare callback t =
    ap valid_services (take-length-append stored spare) ∙ valid_services-all stored t.stored_valid

count-entry :
    (stored : List Service) (id : ℕ) (o : Option Service)
    → count (is_service id) stored ≤ 1
    → find_first (is_service id) stored ≡ o
    → count (is_service id) stored ≡ (if is_some o then 1 else 0)
count-entry stored id o h e = elim (locate (is_service id) stored) [
  | inl c ↦
      let q : is_some o ≡ false = ap is_some (sym e ∙ find_first-none (is_service id) stored c) in
      ground (arith, c, q)
  | inr l ↦
      let q : is_some o ≡ true = ap is_some (
        sym e
        ∙ ap (find_first (is_service id)) l.split
        ∙ find_first-middle (is_service id) l.before l.after l.found l.first l.passes) in
      let c = ap (count (is_service id)) l.split in
      ground (arith, h, c, q, l.passes, count-middle (is_service id) l.before l.after l.found)
]

-- After every sequence of updates, removals and clears on a new catalog, `get_all_services` gives as many
-- services as the map has entries, at most 32. For each number, the first of them with that number is
-- the entry of the map, whole, and there is none where the map has none; and no number stands there
-- twice.
pub get_all_services-run_spec :
    (os : List CatalogCall)
    → (length (get_all_services (run_catalog new_catalog os).1) ≡ (run_spec empty_spec os).1.size)
      × ((run_spec empty_spec os).1.size ≤ 32)
      × ((id : ℕ)
          → (find_first (is_service id) (get_all_services (run_catalog new_catalog os).1)
              ≡ (run_spec empty_spec os).1.entry id)
            × (count (is_service id) (get_all_services (run_catalog new_catalog os).1)
                ≡ (if is_some ((run_spec empty_spec os).1.entry id) then 1 else 0)))
get_all_services-run_spec os =
    let (e, k) = runs new_catalog empty_spec os Keeps-new in
    let all =
      ap get_all_services k.form
      ∙ get_all_services-catalog_of k.stored k.spare k.callback k.table in
    (
      ap length all ∙ k.size,
      omega (arith, k.size, k.table.size),
      λ id. (
        ap (find_first (is_service id)) all ∙ k.entries id,
        ap (count (is_service id)) all
            ∙ count-entry k.stored id _ (k.table.distinct id) (k.entries id),
      ),
    )
