-- ===== src/Catalog/Lookup.antt =====
-- Searches in a list of services, as `ServiceCatalog` makes them, and how often a test holds.
use usrp_atsc.Common.{
  ℕ, suc, ◌+◌, ◌≤◌, ◌≡◌, refl, sym, ap, ◌∙◌, arith, if◌then◌else◌, if-true, if-false, Bool, true,
  false, Bool-cases, ◌⊎◌, inl, inr, List, [], ◌∷◌, ◌++◌, append-nil, length, get_or, set, Option,
  none, some,
}
use mathlib.Core.Option
use usrp_atsc.Catalog.{Service, find_first, place_where}

-- How many services pass a test.
pub count : (Service → Bool) → List Service → ℕ
count p [] = 0
count p (s ∷ ss) = (if p s then 1 else 0) + count p ss

abbrev pub or_else {ℓ} : {A : Type ℓ} → Option A → Option A → Option A
or_else none o = o
or_else (some a) o = some a

pub count-append :
    (p : Service → Bool) (xs ys : List Service) → count p (xs ++ ys) ≡ count p xs + count p ys
unfolding count
count-append p [] ys = omega arith
count-append p (x ∷ xs) ys = omega (arith, count-append p xs ys)

pub count-weaker :
    (p q : Service → Bool) (xs : List Service)
    → ((s : Service) → q s ≡ false → p s ≡ false)
    → count q xs ≡ 0
    → count p xs ≡ 0
unfolding count
count-weaker p q [] h e = refl
count-weaker p q (x ∷ xs) h e = elim (Bool-cases (q x)) [
  | inl hit ↦ absurd (ground arith)
  | inr miss ↦
      let rest = count-weaker p q xs h (ground arith) in let here = h x miss in ground arith
]

pub find_first-append :
    (p : Service → Bool) (xs ys : List Service)
    → find_first p (xs ++ ys) ≡ or_else (find_first p xs) (find_first p ys)
unfolding find_first
find_first-append p [] ys = refl
find_first-append p (x ∷ xs) ys = elim (Bool-cases (p x)) [
  | inl hit ↦
      if-true (some x) _ hit
      ∙ ap (λ o. or_else o (find_first p ys)) (sym (if-true (some x) (find_first p xs) hit))
  | inr miss ↦
      if-false (some x) _ miss
      ∙ find_first-append p xs ys
      ∙ ap (λ o. or_else o (find_first p ys)) (sym (if-false (some x) (find_first p xs) miss))
]

pub find_first-none :
    (p : Service → Bool) (xs : List Service) → count p xs ≡ 0 → find_first p xs ≡ none
unfolding find_first count
find_first-none p [] e = refl
find_first-none p (x ∷ xs) e = elim (Bool-cases (p x)) [
  | inl hit ↦ absurd (ground arith)
  | inr miss ↦ if-false (some x) (find_first p xs) miss ∙ find_first-none p xs (ground arith)
]

pub find_first-missed :
    (p : Service → Bool) (x : Service) (xs : List Service)
    → p x ≡ false
    → find_first p (x ∷ xs) ≡ find_first p xs
unfolding find_first
find_first-missed p x xs miss = if-false (some x) (find_first p xs) miss

pub find_first-middle :
    (p : Service → Bool) (xs ys : List Service) (m : Service)
    → count p xs ≡ 0
    → p m ≡ true
    → find_first p (xs ++ m ∷ ys) ≡ some m
unfolding find_first
find_first-middle p xs ys m e hit =
    find_first-append p xs (m ∷ ys)
    ∙ ap (λ o. or_else o (find_first p (m ∷ ys))) (find_first-none p xs e)
    ∙ if-true (some m) (find_first p ys) hit

-- One that fails the test may be left out, or another put in its place.
pub find_first-skip :
    (p : Service → Bool) (xs ys : List Service) (m : Service)
    → p m ≡ false
    → find_first p (xs ++ m ∷ ys) ≡ find_first p (xs ++ ys)
find_first-skip p xs ys m miss =
    find_first-append p xs (m ∷ ys)
    ∙ ap (or_else (find_first p xs)) (find_first-missed p m ys miss)
    ∙ sym (find_first-append p xs ys)

pub count-middle :
    (p : Service → Bool) (xs ys : List Service) (m : Service)
    → count p (xs ++ m ∷ ys) ≡ (if p m then 1 else 0) + count p (xs ++ ys)
unfolding count
count-middle p [] ys m = refl
count-middle p (x ∷ xs) ys m = omega (arith, count-middle p xs ys m)

-- The last moves to the front where no two pass the test.
pub find_first-rotate :
    (p : Service → Bool) (ys : List Service) (l : Service)
    → count p (ys ++ l ∷ []) ≤ 1
    → find_first p (l ∷ ys) ≡ find_first p (ys ++ l ∷ [])
unfolding count find_first
find_first-rotate p ys l h = elim (Bool-cases (p l)) [
  | inl hit ↦
      if-true (some l) (find_first p ys) hit
      ∙ sym (find_first-middle p ys [] l (ground (arith, hit, h, count-append p ys (l ∷ []))) hit)
  | inr miss ↦
      if-false (some l) (find_first p ys) miss
      ∙ ap (find_first p) (sym (append-nil ys))
      ∙ sym (find_first-skip p ys [] l miss)
]

pub place_where-none :
    (p : Service → Bool) (xs : List Service) → count p xs ≡ 0 → place_where p xs ≡ none
unfolding place_where count
place_where-none p [] e = refl
place_where-none p (x ∷ xs) e = elim (Bool-cases (p x)) [
  | inl hit ↦ absurd (ground arith)
  | inr miss ↦ if-false (some 0) _ miss ∙ ap (Option.map suc) (place_where-none p xs (ground arith))
]

pub place_where-middle :
    (p : Service → Bool) (xs ys : List Service) (m : Service)
    → count p xs ≡ 0
    → p m ≡ true
    → place_where p (xs ++ m ∷ ys) ≡ some (length xs)
unfolding place_where count
place_where-middle p [] ys m e hit = if-true (some 0) _ hit
place_where-middle p (x ∷ xs) ys m e hit = elim (Bool-cases (p x)) [
  | inl first ↦ absurd (ground arith)
  | inr miss ↦
      if-false (some 0) _ miss
      ∙ ap (Option.map suc) (place_where-middle p xs ys m (ground arith) hit)
]

-- Where a search stops.
pub record Located (p : Service → Bool) (xs : List Service) : Type 0 where
  pub before : List Service
  pub found : Service
  pub after : List Service
  pub split : xs ≡ before ++ found ∷ after
  pub first : count p before ≡ 0
  pub passes : p found ≡ true

pub locate : (p : Service → Bool) (xs : List Service) → (count p xs ≡ 0) ⊎ Located p xs
unfolding count
locate p [] = inl refl
locate p (x ∷ xs) = elim (Bool-cases (p x)) [
  | inl hit ↦
      inr (record { before = []; found = x; after = xs; split = refl; first = refl; passes = hit })
  | inr miss ↦ elim (locate p xs) [
    | inl e ↦ inl (ground arith)
    | inr l ↦ inr (record {
      before = x ∷ l.before;
      found = l.found;
      after = l.after;
      split = ap (◌∷◌ x) l.split;
      first = let e = l.first in ground arith;
      passes = l.passes;
    })
  ]
]

pub get_or-middle : (xs ys : List Service) (m d : Service) → get_or (xs ++ m ∷ ys) (length xs) d ≡ m
get_or-middle [] ys m d = refl
get_or-middle (x ∷ xs) ys m d = get_or-middle xs ys m d

pub set-middle :
    (xs ys : List Service) (m v : Service) → set (xs ++ m ∷ ys) (length xs) v ≡ xs ++ v ∷ ys
set-middle [] ys m v = refl
set-middle (x ∷ xs) ys m v = ap (◌∷◌ x) (set-middle xs ys m v)

pub count-nil : (p : Service → Bool) → count p [] ≡ 0
unfolding count
count-nil p = refl

pub count-cons :
    (p : Service → Bool) (x : Service) (xs : List Service)
    → count p (x ∷ xs) ≡ (if p x then 1 else 0) + count p xs
unfolding count
count-cons p x xs = refl

pub count-last :
    (p : Service → Bool) (xs : List Service) (x : Service)
    → count p (xs ++ x ∷ []) ≡ (if p x then 1 else 0) + count p xs
count-last p xs x =
    count-middle p xs [] x ∙ ap (λ ys. (if p x then 1 else 0) + count p ys) (append-nil xs)
