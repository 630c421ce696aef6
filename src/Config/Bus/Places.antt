-- ===== src/Config/Bus/Places.antt =====
-- The loops of `ConfigBus` on places that hold a list of observers.
use usrp_atsc.Common.{
  ℕ, zero, suc, ◌+◌, ◌-◌, ◌<◌, ◌≡◌, refl, sym, ap, ◌∙◌, arith, ◌==◌, if◌then◌else◌, if-false, Bool,
  true, false, List, [], ◌∷◌, ◌++◌, map, length, get_or, set, Option, none, some, Bool-cases, inl,
  inr,
}
use mathlib.Core.Option
use usrp_atsc.Common.Maybe.{some-cancel}
use usrp_atsc.Config.Bus.{holds, find_place, shift_down, is_found, notified}

-- The abstract operations.
unfoldable pub has : List ℕ → ℕ → Bool
has [] o = false
has (a ∷ l) o = if a == o then true else has l o

unfoldable pub remove : List ℕ → ℕ → List ℕ
remove [] o = []
remove (a ∷ l) o = if a == o then l else a ∷ remove l o

next : (i : ℕ) → suc i + 1 ≡ suc (i + 1)
next i = omega arith

notified-cons :
    (x : Option ℕ) (xs : List (Option ℕ)) (i n : ℕ) → notified (x ∷ xs) (suc i) n ≡ notified xs i n
unfolding notified
notified-cons x xs i zero = refl
notified-cons x xs i (suc n) =
    go (get_or xs i none) (ap (λ k. notified (x ∷ xs) k n) (next i) ∙ notified-cons x xs (i + 1) n)
  where
    go :
        (p : Option ℕ)
        → notified (x ∷ xs) (suc i + 1) n ≡ notified xs (i + 1) n
        → elim p [
          | none ↦ notified (x ∷ xs) (suc i + 1) n
          | some o ↦ o ∷ notified (x ∷ xs) (suc i + 1) n
        ]
          ≡ elim p [ none ↦ notified xs (i + 1) n | some o ↦ o ∷ notified xs (i + 1) n ]
    go none same = same
    go (some o) same = ap (◌∷◌ o) same

pub notified-map : (l : List ℕ) (t : List (Option ℕ)) → notified (map some l ++ t) 0 (length l) ≡ l
unfolding notified
notified-map [] t = refl
notified-map (a ∷ l) t =
    ap (◌∷◌ a) (notified-cons (some a) (map some l ++ t) 0 (length l) ∙ notified-map l t)

map-if :
    (b : Bool) (i : ℕ) (r : Option ℕ)
    → (if b then some (suc i) else Option.map suc r) ≡ Option.map suc (if b then some i else r)
map-if true i r = refl
map-if false i r = refl

find-cons :
    (x : Option ℕ) (xs : List (Option ℕ)) (o i n : ℕ)
    → find_place (x ∷ xs) o (suc i) n ≡ Option.map suc (find_place xs o i n)
unfolding find_place
find-cons x xs o i zero = refl
find-cons x xs o i (suc n) =
    ap (λ r. if holds (get_or xs i none) o then some (suc i) else r)
      (ap (λ k. find_place (x ∷ xs) o k n) (next i) ∙ find-cons x xs o (i + 1) n)
    ∙ map-if (holds (get_or xs i none) o) i (find_place xs o (i + 1) n)

shift-cons :
    (x : Option ℕ) (xs : List (Option ℕ)) (j n : ℕ)
    → shift_down (x ∷ xs) (suc j) n ≡ x ∷ shift_down xs j n
unfolding shift_down
shift-cons x xs j zero = refl
shift-cons x xs j (suc n) =
    ap (λ k. shift_down (x ∷ set xs j (get_or (x ∷ xs) k none)) k n) (next j)
    ∙ shift-cons x (set xs j (get_or xs (j + 1) none)) (j + 1) n

-- Shifting everything down over the first place.
shift-first :
    (a : ℕ) (l : List ℕ) (t : List (Option ℕ))
    → set (shift_down (some a ∷ map some l ++ t) 0 (length l)) (length l) none
      ≡ map some l ++ none ∷ t
unfolding shift_down
shift-first a [] t = refl
shift-first a (b ∷ l) t =
    ap (λ xs. set xs (suc (length l)) none)
      (shift-cons (some b) (some b ∷ map some l ++ t) 0 (length l))
    ∙ ap (◌∷◌ (some b)) (shift-first b l t)

-- The search over the list that the places hold.
find-map :
    (a : ℕ) (l : List ℕ) (t : List (Option ℕ)) (o : ℕ)
    → find_place (some a ∷ map some l ++ t) o 0 (suc (length l))
      ≡ (if a == o then some 0 else Option.map suc (find_place (map some l ++ t) o 0 (length l)))
unfolding find_place holds
find-map a l t o =
    ap (λ r. if a == o then some 0 else r) (find-cons (some a) (map some l ++ t) o 0 (length l))

is_found-map :
    (b c : Bool) (r : Option ℕ)
    → is_found r ≡ c
    → is_found (if b then some 0 else Option.map suc r) ≡ (if b then true else c)
is_found-map true c r h = refl
is_found-map false c none h = h
is_found-map false c (some i) h = h

pub find-has :
    (l : List ℕ) (t : List (Option ℕ)) (o : ℕ)
    → is_found (find_place (map some l ++ t) o 0 (length l)) ≡ has l o
unfolding has find_place
find-has [] t o = refl
find-has (a ∷ l) t o =
    ap is_found (find-map a l t o)
    ∙ is_found-map (a == o) (has l o) (find_place (map some l ++ t) o 0 (length l)) (find-has l t o)

pub remove-absent : (l : List ℕ) (o : ℕ) → has l o ≡ false → remove l o ≡ l
unfolding has remove
remove-absent [] o h = refl
remove-absent (a ∷ l) o h = elim (Bool-cases (a == o)) [
  | inl here ↦ cc
  | inr there ↦
      if-false l (a ∷ remove l o) there
      ∙ ap (◌∷◌ a) (remove-absent l o (sym (if-false true (has l o) there) ∙ h))
]

-- What `unregister_observer` leaves in the places.
abbrev pub removed : List ℕ → List (Option ℕ) → ℕ → List (Option ℕ)
removed l t i = set (shift_down (map some l ++ t) i (length l - 1 - i)) (length l - 1) none

pub record IsRemoval (l : List ℕ) (t : List (Option ℕ)) (o i : ℕ) : Type 0 where
  pub places : removed l t i ≡ map some (remove l o) ++ none ∷ t
  pub shorter : suc (length (remove l o)) ≡ length l

removal-first :
    (a : ℕ) (l : List ℕ) (t : List (Option ℕ)) → removed (a ∷ l) t 0 ≡ map some l ++ none ∷ t
removal-first a l t =
    ap (λ n. set (shift_down (some a ∷ map some l ++ t) 0 (n - 0)) n none) less
    ∙ ap (λ n. set (shift_down (some a ∷ map some l ++ t) 0 n) (length l) none) same
    ∙ shift-first a l t
  where
    less : suc (length l) - 1 ≡ length l
    less = omega arith

    same : length l - 0 ≡ length l
    same = omega arith

removal-later :
    (a : ℕ) (l : List ℕ) (t : List (Option ℕ)) (i : ℕ)
    → 0 < length l
    → removed (a ∷ l) t (suc i) ≡ some a ∷ removed l t i
removal-later a l t i some_left =
    ap (λ n. set (shift_down (some a ∷ map some l ++ t) (suc i) n) (suc (length l) - 1) none) count
    ∙ ap (λ n. set (shift_down (some a ∷ map some l ++ t) (suc i) (length l - 1 - i)) n none) place
    ∙ ap (λ xs. set xs (suc (length l - 1)) none)
        (shift-cons (some a) (map some l ++ t) i (length l - 1 - i))
  where
    count : suc (length l) - 1 - suc i ≡ length l - 1 - i
    count = omega arith

    place : suc (length l) - 1 ≡ suc (length l - 1)
    place = omega arith

removal-case :
    (a : ℕ) (l : List ℕ) (t : List (Option ℕ)) (o i : ℕ) (b : Bool) (r : Option ℕ)
    → (if b then some 0 else Option.map suc r) ≡ some i
    → ((j : ℕ) → r ≡ some j → IsRemoval l t o j)
    → (removed (a ∷ l) t i ≡ map some (if b then l else a ∷ remove l o) ++ none ∷ t)
      × (suc (length (if b then l else a ∷ remove l o)) ≡ suc (length l))
removal-case a l t o i true r h later =
    (ap (removed (a ∷ l) t) (sym (some-cancel h)) ∙ removal-first a l t, refl)
removal-case a l t o i false none h later = cc
removal-case a l t o i false (some j) h later =
    let rest = later j refl in
    (
      ap (removed (a ∷ l) t) (sym (some-cancel h))
          ∙ removal-later a l t j (omega (arith, rest.shorter))
          ∙ ap (◌∷◌ (some a)) rest.places,
      ap suc rest.shorter,
    )

pub find-IsRemoval :
    (l : List ℕ) (t : List (Option ℕ)) (o i : ℕ)
    → find_place (map some l ++ t) o 0 (length l) ≡ some i
    → IsRemoval l t o i
unfolding remove find_place
find-IsRemoval [] t o i h = cc
find-IsRemoval (a ∷ l) t o i h =
    let r =
      removal-case a l t o i (a == o) (find_place (map some l ++ t) o 0 (length l))
        (sym (find-map a l t o) ∙ h) (find-IsRemoval l t o) in
    record { places = r.0; shorter = r.1 }
