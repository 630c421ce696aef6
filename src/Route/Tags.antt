-- ===== src/Route/Tags.antt =====
-- Where tags stand in a text: `RouteParser::find_tag`, and the loop of `RouteParser::parse_slt` over it.
use usrp_atsc.Common.{
  ℕ, zero, suc, ◌+◌, ◌≤◌, ◌<◌, ◌≡◌, refl, sym, ap, ◌∙◌, arith, if◌then◌else◌, if-true, if-false,
  Bool, true, false, Bool-cases, inl, inr, ◌&&◌, List, [], ◌∷◌, length, length-drop, get_or, drop,
  Option, Option-cases, none, some,
}
use mathlib.Core.Path.{ap₂}
use usrp_atsc.Common.Maybe.{some-cancel}
use usrp_atsc.Route.Text.{ascii, starts_with, ends_name, strstr, find_tag_loop, find_tag}
use usrp_atsc.Route.Slt.{service_starts}

-- A tag with this name begins here.
abbrev pub is_tag : List ℕ → List ℕ → Bool
is_tag name text = starts_with text (b'<' ∷ name) && ends_name (get_or text (length name + 1) 0)

-- Every place of a text where a tag with this name begins, in order.
abbrev pub tag_places : List ℕ → List ℕ → List (List ℕ)
tag_places name [] = []
tag_places name (c ∷ cs) =
    let rest = tag_places name cs in if is_tag name (c ∷ cs) then (c ∷ cs) ∷ rest else rest

abbrev pub first {ℓ} : {A : Type ℓ} → List A → Option A
first [] = none
first (x ∷ xs) = some x

abbrev checked : List ℕ → ℕ → Option (List ℕ) → Option (List ℕ)
checked name n none = none
checked name n (some found) =
    if ends_name (get_or found (length name + 1) 0)
    then some found
    else find_tag_loop n (drop 1 found) name

find_tag_loop-first :
    (name xml : List ℕ) (n : ℕ)
    → length xml < n
    → find_tag_loop n xml name ≡ first (tag_places name xml)
unfolding find_tag_loop strstr
find_tag_loop-first name [] zero h = absurd (omega arith)
find_tag_loop-first name [] (suc n) h = refl
find_tag_loop-first name (c ∷ cs) zero h = absurd (omega arith)
find_tag_loop-first name (c ∷ cs) (suc n) h =
    let next = find_tag_loop-first name cs (suc n) (omega arith) in
    let again = find_tag_loop-first name cs n (omega arith) in
    elim (Bool-cases (starts_with (c ∷ cs) (b'<' ∷ name))) [
      | inr absent ↦
          let other : is_tag name (c ∷ cs) ≡ false =
            ap (λ a. a && ends_name (get_or (c ∷ cs) (length name + 1) 0)) absent in
          ap (checked name n) (if-false _ _ absent) ∙ next ∙ sym (ap first (if-false _ _ other))
      | inl prefix ↦ elim (Bool-cases (ends_name (get_or (c ∷ cs) (length name + 1) 0))) [
        | inl ends ↦
            let both : is_tag name (c ∷ cs) ≡ true = ap₂ (λ a b. a && b) prefix ends in
            ap (checked name n) (if-true _ _ prefix)
            ∙ if-true _ _ ends
            ∙ sym (ap first (if-true _ _ both))
        | inr longer ↦
            let other : is_tag name (c ∷ cs) ≡ false = ap₂ (λ a b. a && b) prefix longer in
            ap (checked name n) (if-true _ _ prefix)
            ∙ if-false _ _ longer
            ∙ again
            ∙ sym (ap first (if-false _ _ other))
      ]
    ]

-- The places behind the first one.
tag_places-first :
    (name xml place : List ℕ)
    → first (tag_places name xml) ≡ some place
    → (tag_places name xml ≡ place ∷ tag_places name (drop 1 place)) × (length place ≤ length xml)
tag_places-first name [] place e = absurd cc
tag_places-first name (c ∷ cs) place e = elim (Bool-cases (is_tag name (c ∷ cs))) [
  | inl tag ↦
      let q : (c ∷ cs) ≡ place = some-cancel (sym (ap first (if-true _ _ tag)) ∙ e) in
      (if-true _ _ tag ∙ ap (λ p. p ∷ tag_places name (drop 1 p)) q, omega (arith, ap length q))
  | inr other ↦
      let (later, short) =
        tag_places-first name cs place (sym (ap first (if-false _ _ other)) ∙ e) in
      (if-false _ _ other ∙ later, omega (arith, short))
]

tag_places-none :
    (name xml : List ℕ) → first (tag_places name xml) ≡ none → tag_places name xml ≡ []
tag_places-none name xml e =
    elim (tag_places name xml) as (λ t. first t ≡ none → t ≡ []) [
      | [] ↦ λ e. refl
      | p ∷ ps ↦ λ e. absurd cc
    ]
      e

find_tag-first : (xml name : List ℕ) → find_tag xml name ≡ first (tag_places name xml)
unfolding find_tag
find_tag-first xml name = find_tag_loop-first name xml (length xml + 1) (omega arith)

abbrev rounds : ℕ → Option (List ℕ) → List (List ℕ)
rounds n none = []
rounds n (some next) = next ∷ service_starts n next

starts-tag_places :
    (n : ℕ) (start : List ℕ)
    → length start ≤ n
    → service_starts n start ≡ tag_places (ascii "Service") (drop 1 start)
unfolding service_starts
starts-tag_places zero [] h = refl
starts-tag_places zero (c ∷ cs) h = absurd (omega arith)
starts-tag_places (suc n) start h =
    elim (Option-cases (first (tag_places (ascii "Service") (drop 1 start)))) [
      | inl e ↦
          start_round ∙ ap (rounds n) e ∙ sym (tag_places-none (ascii "Service") (drop 1 start) e)
      | inr (next, e) ↦
          let (later, short) = tag_places-first (ascii "Service") (drop 1 start) next e in
          start_round
          ∙ ap (rounds n) e
          ∙ ap (◌∷◌ next) (starts-tag_places n next (omega (arith, short, length-drop 1 start, h)))
          ∙ sym later
    ]
  where
    start_round :
        service_starts (suc n) start
        ≡ rounds n (first (tag_places (ascii "Service") (drop 1 start)))
    start_round = ap (rounds n) (find_tag-first (drop 1 start) (ascii "Service"))

-- In every text, `find_tag` finds the first place where a tag with the name begins, and none where there is
-- no such place; and the loop of `parse_slt` visits every place behind its start where a tag `Service`
-- begins, once and in order.
pub service_starts-tag_places :
    (xml name : List ℕ)
    → (find_tag xml name ≡ first (tag_places name xml))
      × (service_starts (length xml) xml ≡ tag_places (ascii "Service") (drop 1 xml))
service_starts-tag_places xml name =
    (find_tag-first xml name, starts-tag_places (length xml) xml (omega arith))
