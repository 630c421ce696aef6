-- ===== src/Catalog/Removal.antt =====
-- `ServiceCatalog::remove_service` on the services in use and the free places.
use usrp_atsc.Common.{
  ℕ, ◌+◌, ◌-◌, ◌≡◌, sym, ap, ◌∙◌, arith, ltb, if-true, if-false, Bool, true, false, List, [], ◌∷◌,
  ◌++◌, append_assoc, length, length-append, take-length-append, get_or, set, none, some,
}
use mathlib.Core.Path.{ap₂}
use usrp_atsc.Catalog.{
  Service, default_service, Outcome, refuse, is_service, place_where, remove_at, remove_service,
}
use usrp_atsc.Catalog.Lookup.{
  count, place_where-none, place_where-middle, get_or-middle, set-middle,
}
use usrp_atsc.Catalog.Table.{catalog_of}
use usrp_atsc.Catalog.Update.{stored_at}

abbrev pub retired : Service → Service
retired s = record s { valid = false }

pub remove_service-unknown :
    (stored spare : List Service) (callback : Bool) (id : ℕ)
    → count (is_service id) stored ≡ 0
    → remove_service (catalog_of stored spare callback) id
      ≡ refuse (catalog_of stored spare callback)
unfolding remove_service
remove_service-unknown stored spare callback id e =
    ap
      (λ o. elim o [
        | none ↦ refuse (catalog_of stored spare callback)
        | some i ↦ remove_at (catalog_of stored spare callback) i
      ])
      (ap (place_where (is_service id)) (take-length-append stored spare)
        ∙ place_where-none (is_service id) stored e)

remove_service-place :
    (a b : List Service) (m : Service) (spare : List Service) (callback : Bool) (id : ℕ)
    → count (is_service id) a ≡ 0
    → is_service id m ≡ true
    → remove_service (catalog_of (a ++ m ∷ b) spare callback) id
      ≡ remove_at (catalog_of (a ++ m ∷ b) spare callback) (length a)
unfolding remove_service
remove_service-place a b m spare callback id e h =
    ap
      (λ o. elim o [
        | none ↦ refuse (catalog_of (a ++ m ∷ b) spare callback)
        | some i ↦ remove_at (catalog_of (a ++ m ∷ b) spare callback) i
      ])
      (ap (place_where (is_service id)) (take-length-append (a ++ m ∷ b) spare)
        ∙ place_where-middle (is_service id) a b m e h)

-- What `remove_at` makes of the array after the last service has been moved.
abbrev retire_last : ℕ → List Service → Bool → Outcome
retire_last last moved callback = record {
  done = true;
  catalog = record {
    services = set moved last (retired (get_or moved last default_service));
    num_services = last;
    has_callback = callback;
  };
  notified = callback;
}

retire_last-middle :
    (front : List Service) (l : Service) (spare : List Service) (callback : Bool) (last : ℕ)
    (moved : List Service)
    → last ≡ length front
    → moved ≡ front ++ l ∷ spare
    → retire_last last moved callback ≡ stored_at front (retired l ∷ spare) callback
retire_last-middle front l spare callback last moved e e' =
    ap₂ (λ n x. retire_last n x callback) e e'
    ∙ ap
        (λ x. record {
          done = true;
          catalog = record {
            services = set (front ++ l ∷ spare) (length front) (retired x);
            num_services = length front;
            has_callback = callback;
          };
          notified = callback;
        })
        (get_or-middle front spare l default_service)
    ∙ ap
        (λ x. record {
          done = true;
          catalog = record { services = x; num_services = length front; has_callback = callback };
          notified = callback;
        })
        (set-middle front spare l (retired l))

-- The service that goes is the last one.
pub remove_service-last :
    (a : List Service) (m : Service) (spare : List Service) (callback : Bool) (id : ℕ)
    → count (is_service id) a ≡ 0
    → is_service id m ≡ true
    → remove_service (catalog_of (a ++ m ∷ []) spare callback) id
      ≡ stored_at a (retired m ∷ spare) callback
unfolding remove_at
remove_service-last a m spare callback id e h =
    remove_service-place a [] m spare callback id e h
    ∙ retire_last-middle a m spare callback _ _ (omega (arith, size)) (
        if-false {b = ltb (length a) (length (a ++ m ∷ []) - 1)} _ ((a ++ m ∷ []) ++ spare)
          (ground (arith, size))
        ∙ append_assoc a (m ∷ []) spare)
  where
    size : length (a ++ m ∷ []) ≡ length a + 1
    size = length-append a (m ∷ [])

-- The last service `l` takes the place of the one that goes.
module _ (a : List Service) (m : Service) (b : List Service) (l : Service) (spare : List Service)
    (callback : Bool) where
  all : List Service
  all = (a ++ m ∷ (b ++ l ∷ [])) ++ spare

  place_of_last : length (a ++ m ∷ (b ++ l ∷ [])) - 1 ≡ length (a ++ m ∷ b)
  place_of_last = omega (
    arith,
    length-append a (m ∷ (b ++ l ∷ [])),
    length-append a (m ∷ b),
    length-append b (l ∷ []),
  )

  split_last : all ≡ (a ++ m ∷ b) ++ l ∷ spare
  unfolding all
  split_last =
      ap (λ x. x ++ spare) (sym (append_assoc a (m ∷ b) (l ∷ [])))
      ∙ append_assoc (a ++ m ∷ b) (l ∷ []) spare

  get_or-last : get_or all (length (a ++ m ∷ (b ++ l ∷ [])) - 1) default_service ≡ l
  get_or-last =
      ap₂ (λ x n. get_or x n default_service) split_last place_of_last
      ∙ get_or-middle (a ++ m ∷ b) spare l default_service

  set-moved : set all (length a) l ≡ (a ++ l ∷ b) ++ l ∷ spare
  set-moved =
      ap (λ x. set x (length a) l) (split_last ∙ append_assoc a (m ∷ b) (l ∷ spare))
      ∙ set-middle a (b ++ l ∷ spare) m l
      ∙ sym (append_assoc a (l ∷ b) (l ∷ spare))

  pub remove_service-moved :
      (id : ℕ)
      → count (is_service id) a ≡ 0
      → is_service id m ≡ true
      → remove_service (catalog_of (a ++ m ∷ (b ++ l ∷ [])) spare callback) id
        ≡ stored_at (a ++ l ∷ b) (retired l ∷ spare) callback
  unfolding remove_at all
  remove_service-moved id e h =
      remove_service-place a (b ++ l ∷ []) m spare callback id e h
      ∙ retire_last-middle (a ++ l ∷ b) l spare callback _ _
          (place_of_last ∙ omega (arith, length-append a (m ∷ b), length-append a (l ∷ b)))
          (if-true {b = ltb (length a) (length (a ++ m ∷ (b ++ l ∷ [])) - 1)} _ all
              (ground (arith, place_of_last, length-append a (m ∷ b)))
            ∙ ap (set all (length a)) get_or-last
            ∙ set-moved)
