-- ===== src/Ldpc/Occurrences.antt =====
-- How often an index stands in the vectors of a sparse matrix, before and after a push and a sort.
use usrp_atsc.Common.{
  ℕ, zero, suc, ◌+◌, ◌<◌, ◌≡◌, ◌≢◌, refl, sym, ap, ◌∙◌, arith, ◌==◌, ==_iff, leb, if◌then◌else◌,
  if-true, if-false, Bool-cases, inl, inr, List, [], ◌∷◌, ◌++◌, map, length, get_elem?, get_or,
  get_or-set_self, get_or-set_ne, set, some,
}
use usrp_atsc.Common.Maybe.{bind-next}
use usrp_atsc.Ldpc.Expand.{push_index, insert, sort}

-- How often a number stands in a list.
abbrev pub occurrences : ℕ → List ℕ → ℕ
occurrences v [] = 0
occurrences v (x ∷ xs) = (if x == v then 1 else 0) + occurrences v xs

occurrences-append :
    (v : ℕ) (xs ys : List ℕ) → occurrences v (xs ++ ys) ≡ occurrences v xs + occurrences v ys
occurrences-append v [] ys = omega arith
occurrences-append v (x ∷ xs) ys = omega (arith, occurrences-append v xs ys)

occurrences-insert : (v x : ℕ) (xs : List ℕ) → occurrences v (insert x xs) ≡ occurrences v (x ∷ xs)
unfolding insert
occurrences-insert v x [] = refl
occurrences-insert v x (y ∷ ys) = elim (Bool-cases (leb x y)) [
  | inl before ↦ ap (occurrences v) (if-true _ _ before)
  | inr after ↦ ap (occurrences v) (if-false _ _ after) ∙ omega (arith, occurrences-insert v x ys)
]

pub occurrences-sort : (v : ℕ) (xs : List ℕ) → occurrences v (sort xs) ≡ occurrences v xs
unfolding sort
occurrences-sort v [] = refl
occurrences-sort v (x ∷ xs) =
    occurrences-insert v x (sort xs) ∙ omega (arith, occurrences-sort v xs)

pub get_or-map-sort :
    (xs : List (List ℕ)) (i : ℕ) → get_or (map sort xs) i [] ≡ sort (get_or xs i [])
unfolding sort
get_or-map-sort [] i = refl
get_or-map-sort (x ∷ xs) zero = refl
get_or-map-sort (x ∷ xs) (suc i) = get_or-map-sort xs i

pub get_elem?-get_or {ℓ} :
    {A : Type ℓ} (xs : List A) (i : ℕ) (d : A)
    → i < length xs
    → get_elem? xs i ≡ some (get_or xs i d)
get_elem?-get_or [] i d h = absurd (omega arith)
get_elem?-get_or (x ∷ xs) zero d h = refl
get_elem?-get_or (x ∷ xs) (suc i) d h = get_elem?-get_or xs i d (omega arith)

-- The lists after a push.
abbrev pub pushed : List (List ℕ) → ℕ → ℕ → List (List ℕ)
pushed lists i v = set lists i (get_or lists i [] ++ v ∷ [])

pub push_index-pushed :
    (lists : List (List ℕ)) (i v : ℕ)
    → i < length lists
    → push_index lists i v ≡ some (pushed lists i v)
unfolding push_index
push_index-pushed lists i v h =
    bind-next (get_elem? lists i) _ _ _ (get_elem?-get_or lists i [] h) refl

pub occurrences-pushed :
    (lists : List (List ℕ)) (i v j w : ℕ)
    → i < length lists
    → occurrences w (get_or (pushed lists i v) j [])
      ≡ (if i == j then (if v == w then 1 else 0) else 0) + occurrences w (get_or lists j [])
occurrences-pushed lists i v j w h = elim (Bool-cases (i == j)) [
  | inl here ↦
      let q : i ≡ j = (==_iff i j).0 here in
      let new =
        ap (λ k. occurrences w (get_or (pushed lists i v) k [])) (sym q)
        ∙ ap (occurrences w) (get_or-set_self lists i (get_or lists i [] ++ v ∷ []) [] h)
        ∙ occurrences-append w (get_or lists i []) (v ∷ []) in
      let old = ap (λ k. occurrences w (get_or lists k [])) q in rw here (omega (arith, new, old))
  | inr other ↦
      let apart : i ≢ j = λ e. absurd (ground (arith, e, other)) in
      let kept =
        ap (occurrences w) (get_or-set_ne lists i j (get_or lists i [] ++ v ∷ []) [] apart) in
      rw other (omega (arith, kept))
]
