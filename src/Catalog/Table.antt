-- ===== src/Catalog/Table.antt =====
-- The array of `ServiceCatalog`, as the services in use and the free places.
use usrp_atsc.Common.{
  ℕ, ◌+◌, ◌≤◌, ◌≡◌, sym, ap, ◌∙◌, arith, ◌==◌, ==_iff, if◌then◌else◌, if-true, if-false, Bool, true,
  false, not, ◌&&◌, Bool-cases, inl, inr, List, [], ◌∷◌, ◌++◌, append-nil, length, length-append,
  take-length-append, some,
}
use mathlib.Core.Path.{subst, ap₂}
use usrp_atsc.Catalog.{Service, ServiceCatalog, is_service, find_first, find_service}
use usrp_atsc.Catalog.Lookup.{
  count, count-weaker, find_first-middle, find_first-skip, count-middle, count-cons, count-last,
}

abbrev pub is_invalid : Service → Bool
is_invalid s = not s.valid

abbrev pub is_valid : Service → Bool
is_valid s = s.valid

-- The services in use and the places that are free.
pub record IsTable (stored spare : List Service) : Type 0 where
  pub size : length stored + length spare ≡ 32
  pub stored_valid : count is_invalid stored ≡ 0
  pub spare_invalid : count is_valid spare ≡ 0
  pub distinct : (id : ℕ) → count (is_service id) stored ≤ 1

abbrev pub catalog_of : List Service → List Service → Bool → ServiceCatalog
catalog_of stored spare callback = record {
  services = stored ++ spare;
  num_services = length stored;
  has_callback = callback;
}

pub find_service-catalog_of :
    (stored spare : List Service) (callback : Bool) (id : ℕ)
    → find_service (catalog_of stored spare callback) id ≡ find_first (is_service id) stored
unfolding find_service
find_service-catalog_of stored spare callback id =
    ap (find_first (is_service id)) (take-length-append stored spare)

invalid_is_no_service : (id : ℕ) (s : Service) → s.valid ≡ false → is_service id s ≡ false
invalid_is_no_service id s h = ap (λ b. b && s.service_id == id) h

pub spare_has_none :
    (stored spare : List Service)
    → IsTable stored spare
    → (id : ℕ) → count (is_service id) spare ≡ 0
spare_has_none stored spare t id =
    count-weaker (is_service id) is_valid spare (invalid_is_no_service id) t.spare_invalid

pub service_valid : (id : ℕ) (s : Service) → is_service id s ≡ true → s.valid ≡ true
service_valid id s h = ground arith

pub service_id_is : (id : ℕ) (s : Service) → is_service id s ≡ true → s.service_id ≡ id
service_id_is id s h = ground arith

-- Two valid services with the same number pass the same tests.
same_tests :
    (s m : Service)
    → s.valid ≡ true
    → is_service s.service_id m ≡ true
    → (id : ℕ) → is_service id s ≡ is_service id m
same_tests s m v h id =
    ap₂ (λ b k. b && k == id) (v ∙ sym (service_valid s.service_id m h))
      (sym (service_id_is s.service_id m h))

module _ (s : Service) (a b : List Service) (m : Service) (spare : List Service)
    (v : s.valid ≡ true) (h : is_service s.service_id m ≡ true)
    (e : count (is_service s.service_id) a ≡ 0) (t : IsTable (a ++ m ∷ b) spare) where
  pub IsTable-replace : IsTable (a ++ s ∷ b) spare
  IsTable-replace = record {
    size = omega (arith, t.size, length-append a (m ∷ b), length-append a (s ∷ b));
    stored_valid =
        let q = t.stored_valid in
        ground (arith, v, count-middle is_invalid a b m, count-middle is_invalid a b s);
    spare_invalid = t.spare_invalid;
    distinct = λ id.
        let q = t.distinct id in
        let r = same_tests s m v h id in
        ground (arith, count-middle (is_service id) a b m, count-middle (is_service id) a b s);
  }

  pub find_first-replace :
      (id : ℕ)
      → find_first (is_service id) (a ++ s ∷ b)
        ≡ (if s.service_id == id then some s else find_first (is_service id) (a ++ m ∷ b))
  find_first-replace id = elim (Bool-cases (s.service_id == id)) [
    | inl same ↦
        let q = (==_iff s.service_id id).0 same in
        find_first-middle (is_service id) a b s (subst (λ k. count (is_service k) a ≡ 0) q e)
          (ground (arith, v, same))
        ∙ sym (if-true (some s) _ same)
    | inr other ↦
        let out : is_service id s ≡ false = ground (arith, other) in
        find_first-skip (is_service id) a b s out
        ∙ sym (find_first-skip (is_service id) a b m (sym (same_tests s m v h id) ∙ out))
        ∙ sym (if-false (some s) _ other)
  ]

module _ (s : Service) (stored : List Service) (r : Service) (spare : List Service)
    (v : s.valid ≡ true) (e : count (is_service s.service_id) stored ≡ 0)
    (t : IsTable stored (r ∷ spare)) where
  pub IsTable-append : IsTable (stored ++ s ∷ []) spare
  IsTable-append = record {
    size = omega (arith, t.size, length-append stored (s ∷ []));
    stored_valid = let q = t.stored_valid in ground (arith, v, count-last is_invalid stored s);
    spare_invalid = let q = t.spare_invalid in omega (arith, q, count-cons is_valid r spare);
    distinct = distinct_append;
  }
    where
      distinct_append : (id : ℕ) → count (is_service id) (stored ++ s ∷ []) ≤ 1
      distinct_append id = elim (Bool-cases (s.service_id == id)) [
        | inl same ↦
            let none_yet : count (is_service id) stored ≡ 0 =
              subst (λ k. count (is_service k) stored ≡ 0) ((==_iff s.service_id id).0 same) e in
            ground (arith, count-last (is_service id) stored s)
        | inr other ↦ let q = t.distinct id in ground (arith, count-last (is_service id) stored s)
      ]

  pub find_first-append_last :
      (id : ℕ)
      → find_first (is_service id) (stored ++ s ∷ [])
        ≡ (if s.service_id == id then some s else find_first (is_service id) stored)
  find_first-append_last id = elim (Bool-cases (s.service_id == id)) [
    | inl same ↦
        let q = (==_iff s.service_id id).0 same in
        find_first-middle (is_service id) stored [] s
          (subst (λ k. count (is_service k) stored ≡ 0) q e) (ground (arith, v, same))
        ∙ sym (if-true (some s) _ same)
    | inr other ↦
        find_first-skip (is_service id) stored [] s (ground (arith, other))
        ∙ ap (find_first (is_service id)) (append-nil stored)
        ∙ sym (if-false (some s) _ other)
  ]

  pub free_is_invalid : r.valid ≡ false
  free_is_invalid = let q = t.spare_invalid in ground (arith, count-cons is_valid r spare)
