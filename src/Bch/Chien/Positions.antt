-- ===== src/Bch/Chien/Positions.antt =====
-- The positions that `BchDecoder::chien_search` finds.
use usrp_atsc.Common.{
  ℕ, zero, suc, ◌+◌, ◌≤◌, ◌<◌, ◌≡◌, sym, ◌∙◌, arith, ◌==◌, ltb, if◌then◌else◌, if-case, Bool, true,
  false, List, [], ◌∷◌, ◌++◌, append-nil, append_assoc, length, get_elem?, take,
}
use mathlib.Core.Path.{subst}
use usrp_atsc.Common.Maybe.{some-cancel, AllResults, bind-AllResults, none-some}
use usrp_atsc.Bch.Field.{GfTables}
use usrp_atsc.Bch.Chien.{degree_loop, sum_loop, next_terms_loop, search_loop, chien_search}

-- Distinct positions in order, from one bound on and below another.
pub data IsAscending (top : ℕ) : ℕ → List ℕ → Type 0 where
  nil : (low : ℕ) → IsAscending top low []
  cons :
      (low p : ℕ) (ps : List ℕ)
      → low ≤ p
      → p < top
      → IsAscending top (p + 1) ps
      → IsAscending top low (p ∷ ps)

IsAscending-weaken :
    (top low : ℕ) (ps : List ℕ) → IsAscending top (low + 1) ps → IsAscending top low ps
IsAscending-weaken top low _ (IsAscending.nil _) = IsAscending.nil low
IsAscending-weaken top low _ (IsAscending.cons _ p ps h h' rest) =
    IsAscending.cons low p ps (omega arith) h' rest

-- What the search finds behind what was found before.
abbrev Finds : ℕ → ℕ → List ℕ → List ℕ → Type 0
Finds top i found r = (ps : List ℕ) × (r ≡ found ++ ps) × IsAscending top i ps

abbrev with_position : Bool → List ℕ → ℕ → List ℕ
with_position b found i = if b then found ++ i ∷ [] else found

Finds-next :
    (top i : ℕ) (b : Bool) (found r : List ℕ)
    → i < top
    → Finds top (i + 1) (with_position b found i) r
    → Finds top i found r
Finds-next top i true found r h (ps, e, up) =
    (i ∷ ps, e ∙ append_assoc found (i ∷ []) ps, IsAscending.cons i i ps (omega arith) h up)
Finds-next top i false found r h (ps, e, up) = (ps, e, IsAscending-weaken top i ps up)

module _ (g : GfTables) (degree top : ℕ) where
  search_loop-Finds :
      (n i : ℕ) (eval found : List ℕ)
      → i + n ≤ top
      → AllResults (Finds top i found) (search_loop g degree n i eval found)
  unfolding search_loop
  search_loop-Finds zero i eval found h =
      λ r e. ([], sym (some-cancel e) ∙ sym (append-nil found), IsAscending.nil i)
  search_loop-Finds (suc n) i eval found h = bind-AllResults _ (get_elem? eval 0) _ (λ first e1.
      bind-AllResults _ (sum_loop eval degree 1 first) _ (λ sum e2.
        let found' = with_position (sum == 0) found i in
        if-case (AllResults (Finds top i found))
          (if sum == 0 then length found' == degree else false)
          (λ stop r e.
            Finds-next top i (sum == 0) found r (omega arith)
              ([], sym (some-cancel e) ∙ sym (append-nil found'), IsAscending.nil (i + 1)))
          (λ on. bind-AllResults _ (next_terms_loop g degree 1 eval) _ (λ next e3 r e.
            Finds-next top i (sum == 0) found r (omega arith)
              (search_loop-Finds n (i + 1) next found' (omega arith) r e)))))

pub chien_search-IsAscending :
    (g : GfTables) (t : ℕ) (locator : List ℕ) (num_bits : ℕ)
    → AllResults (IsAscending num_bits 0) (chien_search g t locator num_bits)
unfolding chien_search
chien_search-IsAscending g t locator num_bits =
    bind-AllResults _ (degree_loop locator (t + 1) 0 0) _ (λ degree e.
      if-case (AllResults (IsAscending num_bits 0)) (degree == 0)
        (λ none_found r e. subst (IsAscending num_bits 0) (some-cancel e) (IsAscending.nil 0))
        (λ some_degree.
          if-case (AllResults (IsAscending num_bits 0)) (ltb (length locator) (degree + 1))
            (λ out r e. absurd (none-some e))
            (λ inside r e.
              let (ps, q, up) =
                search_loop-Finds g degree num_bits num_bits 0 (take (degree + 1) locator) []
                  (omega arith) r e in
              subst (IsAscending num_bits 0) (sym q) up)))
