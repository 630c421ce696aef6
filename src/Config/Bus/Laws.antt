-- ===== src/Config/Bus/Laws.antt =====
-- `ConfigBus` as a list of observers in the order of their registration.
use usrp_atsc.Common.{
  ℕ, suc, ◌+◌, ◌-◌, ◌<◌, ◌≤◌, ◌≡◌, refl, sym, ap, ◌∙◌, arith, leb, if◌then◌else◌, Bool, true, false,
  List, [], ◌∷◌, ◌++◌, map, length, length-append, set, replicate, Option, none, some,
}
use mathlib.Core.Path.{subst}
use usrp_atsc.Config.{Atsc3Config}
use usrp_atsc.Config.Bus.{
  ConfigBus, max_observers, find_place, is_registered, register_observer, shift_down,
  unregister_observer, without_place, with_observer, is_found, notified, publish,
}
use usrp_atsc.Config.Bus.Places.{has, remove, notified-map, find-has, remove-absent, find-IsRemoval}

-- The places hold the observers of the list, from the first one on, and no others.
pub record Represents (bus : ConfigBus) (l : List ℕ) : Type 0 where
  pub places : bus.observers ≡ map some l ++ replicate (max_observers - length l) none
  pub counted : bus.num_observers ≡ length l
  pub bounded : length l ≤ max_observers

-- `publish` calls the observers of the list that the bus represents, in the order of the list, takes
-- over the configuration, and leaves a bus that represents the same list.
pub publish-order :
    (bus : ConfigBus) (l : List ℕ) (config : Atsc3Config)
    → Represents bus l
    → ((publish bus config).1 ≡ l)
      × ((publish bus config).0.current_config ≡ config)
      × Represents (publish bus config).0 l
unfolding publish
publish-order bus l config h = (
  ap (λ xs. notified xs 0 bus.num_observers) h.places
      ∙ ap (λ n. notified (map some l ++ replicate (max_observers - length l) none) 0 n) h.counted
      ∙ notified-map l (replicate (max_observers - length l) none),
  refl,
  record { places = h.places; counted = h.counted; bounded = h.bounded },
)

-- What the search gives, on the list that the bus represents.
place_of :
    (bus : ConfigBus) (l : List ℕ) (o : ℕ)
    → Represents bus l
    → find_place bus.observers o 0 bus.num_observers
      ≡ find_place (map some l ++ replicate (max_observers - length l) none) o 0 (length l)
place_of bus l o h =
    ap (λ xs. find_place xs o 0 bus.num_observers) h.places
    ∙ ap (λ n. find_place (map some l ++ replicate (max_observers - length l) none) o 0 n) h.counted

one_free : (n k : ℕ) → suc k ≡ n → n ≤ max_observers → suc (max_observers - n) ≡ max_observers - k
one_free n k h bound = omega arith

without_place-refines :
    (bus : ConfigBus) (l : List ℕ) (o : ℕ) (r : Option ℕ)
    → Represents bus l
    → find_place (map some l ++ replicate (max_observers - length l) none) o 0 (length l) ≡ r
    → Represents (without_place bus r) (remove l o)
unfolding without_place
without_place-refines bus l o none h e =
    subst (Represents bus)
      (sym (
        remove-absent l o
          (sym (find-has l (replicate (max_observers - length l) none) o) ∙ ap is_found e)))
      h
without_place-refines bus l o (some i) h e =
    let t = replicate (max_observers - length l) none in
    let removal = find-IsRemoval l t o i e in
    record {
      places =
          ap (λ xs. set (shift_down xs i (bus.num_observers - 1 - i)) (bus.num_observers - 1) none)
            h.places
          ∙ ap (λ n. set (shift_down (map some l ++ t) i (n - 1 - i)) (n - 1) none) h.counted
          ∙ removal.places
          ∙ ap (λ n. map some (remove l o) ++ replicate n none)
              (one_free (length l) (length (remove l o)) removal.shorter h.bounded);
      counted = omega (arith, removal.shorter, h.counted);
      bounded = omega (arith, removal.shorter, h.bounded);
    }

-- `unregister_observer` takes the first place of an observer out of the list that the bus represents and
-- keeps the order of the others; an observer that is not registered changes nothing.
pub unregister_observer-refines :
    (bus : ConfigBus) (l : List ℕ) (o : ℕ)
    → Represents bus l
    → Represents (unregister_observer bus (some o)) (remove l o)
unfolding unregister_observer
unregister_observer-refines bus l o h =
    without_place-refines bus l o (find_place bus.observers o 0 bus.num_observers) h
      (sym (place_of bus l o h))

set-length-map :
    (l : List ℕ) (o : ℕ) (t : List (Option ℕ))
    → set (map some l ++ none ∷ t) (length l) (some o) ≡ map some (l ++ o ∷ []) ++ t
set-length-map [] o t = refl
set-length-map (a ∷ l) o t = ap (◌∷◌ (some a)) (set-length-map l o t)

with_observer-refines :
    (bus : ConfigBus) (l : List ℕ) (o : ℕ)
    → Represents bus l
    → length l < max_observers
    → Represents (with_observer bus o) (l ++ o ∷ [])
with_observer-refines bus l o h free =
    let rest = max_observers - (length l + 1) in
    record {
      places =
          ap (λ xs. set xs bus.num_observers (some o)) h.places
          ∙ ap (λ n. set (map some l ++ replicate (max_observers - length l) none) n (some o))
              h.counted
          ∙ ap (λ n. set (map some l ++ replicate n none) (length l) (some o)) one_more
          ∙ set-length-map l o (replicate rest none)
          ∙ ap (λ n. map some (l ++ o ∷ []) ++ replicate (max_observers - n) none)
              (sym (length-append l (o ∷ [])));
      counted = omega (arith, h.counted, length-append l (o ∷ []));
      bounded = omega (arith, length-append l (o ∷ []));
    }
  where
    one_more : max_observers - length l ≡ suc (max_observers - (length l + 1))
    one_more = omega arith

-- The list and the result after registering, by the two tests.
abbrev pub registered : List ℕ → ℕ → Bool → Bool → List ℕ × Bool
registered l o already full =
    if already then (l, true) else if full then (l, false) else (l ++ o ∷ [], true)

abbrev Registers : List ℕ → ℕ → Bool → Bool → ConfigBus × Bool → Type 0
Registers l o already full r =
    Represents r.0 (registered l o already full).0 × (r.1 ≡ (registered l o already full).1)

register-case :
    (bus : ConfigBus) (l : List ℕ) (o : ℕ) (already full : Bool)
    → Represents bus l
    → (full ≡ false → Represents (with_observer bus o) (l ++ o ∷ []))
    → (r : ConfigBus × Bool)
    → r ≡ (
        if already then (bus, true) else if full then (bus, false) else (with_observer bus o, true))
    → Registers l o already full r
register-case bus l o true full h more r e = subst (Registers l o true full) (sym e) (h, refl)
register-case bus l o false true h more r e = subst (Registers l o false true) (sym e) (h, refl)
register-case bus l o false false h more r e =
    subst (Registers l o false false) (sym e) (more refl, refl)

-- `register_observer` puts an observer at the end of the list that the bus represents, unless it is
-- registered already or sixteen are; it returns false only in the last case.
pub register_observer-refines :
    (bus : ConfigBus) (l : List ℕ) (o : ℕ)
    → Represents bus l
    → Represents
        (register_observer bus (some o)).0
        (registered l o (has l o) (leb max_observers (length l))).0
      × ((register_observer bus (some o)).1
          ≡ (registered l o (has l o) (leb max_observers (length l))).1)
unfolding register_observer is_registered
register_observer-refines bus l o h =
    register-case bus l o (has l o) (leb max_observers (length l)) h
      (λ free. with_observer-refines bus l o h (ground arith)) (register_observer bus (some o))
      (ap
          (λ b.
            if b
            then (bus, true)
            else if leb max_observers bus.num_observers
            then (bus, false)
            else (with_observer bus o, true))
          (ap is_found (place_of bus l o h)
            ∙ find-has l (replicate (max_observers - length l) none) o)
        ∙ ap
            (λ n.
              if has l o
              then (bus, true)
              else if leb max_observers n
              then (bus, false)
              else (with_observer bus o, true))
            h.counted)
