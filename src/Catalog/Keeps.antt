-- ===== src/Catalog/Keeps.antt =====
-- The array of `ServiceCatalog` keeps the map that it promises.
use usrp_atsc.Common.{
  ℕ, ◌+◌, ◌≡◌, refl, sym, ap, ◌∙◌, arith, ◌==◌, ltb, if◌then◌else◌, if-true, if-false, Bool, true,
  false, not, ◌&&◌, ◌||◌, List, [], ◌∷◌, ◌++◌, length, length-append, some,
}
use mathlib.Core.Path.{subst, ap₂}
use usrp_atsc.Catalog.{Service, ServiceCatalog, Outcome, is_service, find_first}
use usrp_atsc.Catalog.Lookup.{count, find_first-none, find_first-middle}
use usrp_atsc.Catalog.Table.{
  IsTable, catalog_of, IsTable-replace, find_first-replace, IsTable-append, find_first-append_last,
}
use usrp_atsc.Catalog.Spec.{
  CatalogSpec, is_some, accepts, insert_spec, CatalogCall, call_spec, call_catalog,
}
use usrp_atsc.Catalog.Update.{is_bad, update_service-known}
use usrp_atsc.Catalog.Insert.{update_service-full, update_service-unknown}

-- A catalog holds the services of a map.
pub record Keeps (c : ServiceCatalog) (m : CatalogSpec) : Type 0 where
  pub stored : List Service
  pub spare : List Service
  pub callback : Bool
  pub form : c ≡ catalog_of stored spare callback
  pub table : IsTable stored spare
  pub entries : (id : ℕ) → find_first (is_service id) stored ≡ m.entry id
  pub size : length stored ≡ m.size

abbrev pub Answers : Bool × ServiceCatalog → Bool × CatalogSpec → Type 0
Answers r q = (r.0 ≡ q.0) × Keeps r.1 q.1

-- A call that is carried out, and one that is refused.
pub Answers-done :
    (ok : Bool) (c : ServiceCatalog) (m m' : CatalogSpec)
    → ok ≡ true
    → Keeps c m'
    → Answers (true, c) (ok, if ok then m' else m)
Answers-done ok c m m' e k =
    subst (λ b. Answers (true, c) (b, if b then m' else m)) (sym e) (refl, k)

pub Answers-refused :
    (ok : Bool) (c : ServiceCatalog) (m m' : CatalogSpec)
    → ok ≡ false
    → Keeps c m
    → Answers (false, c) (ok, if ok then m' else m)
Answers-refused ok c m m' e k =
    subst (λ b. Answers (false, c) (b, if b then m' else m)) (sym e) (refl, k)

abbrev pub result_of : Outcome → Bool × ServiceCatalog
result_of o = (o.done, o.catalog)

pub entry_known :
    (m : CatalogSpec) (stored : List Service) (id : ℕ) (s : Service)
    → ((id : ℕ) → find_first (is_service id) stored ≡ m.entry id)
    → find_first (is_service id) stored ≡ some s
    → is_some (m.entry id) ≡ true
entry_known m stored id s h e = ap is_some (sym (h id) ∙ e)

pub entry_unknown :
    (m : CatalogSpec) (stored : List Service) (id : ℕ)
    → ((id : ℕ) → find_first (is_service id) stored ≡ m.entry id)
    → count (is_service id) stored ≡ 0
    → is_some (m.entry id) ≡ false
entry_unknown m stored id h e = ap is_some (sym (h id) ∙ find_first-none (is_service id) stored e)

module _ (m : CatalogSpec) (s : Service) (good : is_bad s ≡ false) where
  good_valid : s.valid ≡ true
  good_valid = ground arith

  good_accepts :
      (b : Bool) → (is_some (m.entry s.service_id) || ltb m.size 32) ≡ b → accepts m s ≡ b
  good_accepts b h = ap₂ (λ p q. p && q) good_test h
    where
      good_test : (s.valid && not (s.service_id == 0)) ≡ true
      good_test = ground arith

  pub update-known :
      (a b : List Service) (f : Service) (spare : List Service) (callback : Bool)
      → is_service s.service_id f ≡ true
      → count (is_service s.service_id) a ≡ 0
      → IsTable (a ++ f ∷ b) spare
      → ((id : ℕ) → find_first (is_service id) (a ++ f ∷ b) ≡ m.entry id)
      → length (a ++ f ∷ b) ≡ m.size
      → Answers
          (call_catalog (catalog_of (a ++ f ∷ b) spare callback) (CatalogCall.update s))
          (call_spec m (CatalogCall.update s))
  unfolding call_catalog call_spec
  update-known a b f spare callback h e t entries size =
      let known =
        entry_known m (a ++ f ∷ b) s.service_id f entries
          (find_first-middle (is_service s.service_id) a b f e h) in
      subst (λ o. Answers (result_of o) (call_spec m (CatalogCall.update s)))
        (sym (update_service-known s a b f spare callback good h e))
        (Answers-done (accepts m s) _ m (insert_spec m s)
          (good_accepts true (ap (λ x. x || ltb m.size 32) known))
          (record {
            stored = a ++ s ∷ b;
            spare = spare;
            callback = callback;
            form = refl;
            table = IsTable-replace s a b f spare good_valid h e t;
            entries = λ id.
                find_first-replace s a b f spare good_valid h e t id
                ∙ ap (λ o. if s.service_id == id then some s else o) (entries id);
            size =
                omega (arith, length-append a (f ∷ b), length-append a (s ∷ b), size)
                ∙ sym (if-true m.size (m.size + 1) known);
          }))

  pub update-unknown :
      (stored spare : List Service) (callback : Bool)
      → count (is_service s.service_id) stored ≡ 0
      → IsTable stored spare
      → ((id : ℕ) → find_first (is_service id) stored ≡ m.entry id)
      → length stored ≡ m.size
      → Answers
          (call_catalog (catalog_of stored spare callback) (CatalogCall.update s))
          (call_spec m (CatalogCall.update s))
  unfolding call_catalog call_spec
  update-unknown stored [] callback e t entries size =
      let unknown = entry_unknown m stored s.service_id entries e in
      let full : ltb m.size 32 ≡ false = ground (arith, size, t.size) in
      subst (λ o. Answers (result_of o) (call_spec m (CatalogCall.update s)))
        (sym (update_service-full s stored callback good e t))
        (Answers-refused (accepts m s) _ m (insert_spec m s)
          (good_accepts false (ap₂ (λ x y. x || y) unknown full))
          (record {
            stored = stored;
            spare = [];
            callback = callback;
            form = refl;
            table = t;
            entries = entries;
            size = size;
          }))
  update-unknown stored (r ∷ spare) callback e t entries size =
      let unknown = entry_unknown m stored s.service_id entries e in
      let free : ltb m.size 32 ≡ true = ground (arith, size, t.size) in
      subst (λ o. Answers (result_of o) (call_spec m (CatalogCall.update s)))
        (sym (update_service-unknown s stored r spare callback good e good_valid t))
        (Answers-done (accepts m s) _ m (insert_spec m s)
          (good_accepts true (ap₂ (λ x y. x || y) unknown free))
          (record {
            stored = stored ++ s ∷ [];
            spare = spare;
            callback = callback;
            form = refl;
            table = IsTable-append s stored r spare good_valid e t;
            entries = λ id.
                find_first-append_last s stored r spare good_valid e t id
                ∙ ap (λ o. if s.service_id == id then some s else o) (entries id);
            size =
                omega (arith, length-append stored (s ∷ []), size)
                ∙ sym (if-false m.size (m.size + 1) unknown);
          }))
