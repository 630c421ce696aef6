-- ===== src/Alp/Contexts/Laws.antt =====
-- Which context serves a sub-stream, and what `get_reassembly_context` and writes change of that.
use usrp_atsc.Common.{
  ℕ, zero, suc, ◌<◌, ◌≡◌, arith, true, List, [], ◌∷◌, get_or, set, length, none, some, inl, inr,
  Option-cases,
}
use usrp_atsc.Alp.Contexts.{
  ReassemblyContext, idle_context, serves, find_reassembly_context, find_free_context,
  get_reassembly_context,
}

-- The context that is found serves the sub-stream.
pub find-serves :
    (ctxs : List ReassemblyContext) (s : ℕ) (i : ℕ)
    → find_reassembly_context ctxs s ≡ some i
    → (i < length ctxs) × (serves s (get_or ctxs i idle_context) ≡ true)
unfolding find_reassembly_context
find-serves [] s i e = cc
find-serves (c ∷ ctxs) s zero e = ground (arith, Option-cases (find_reassembly_context ctxs s))
find-serves (c ∷ ctxs) s (suc i) e = ground (arith, find-serves ctxs s i)

-- A write that keeps the sub-stream's context serving it does not change where it is found.
pub find-set :
    (ctxs : List ReassemblyContext) (s i : ℕ) (c : ReassemblyContext)
    → find_reassembly_context ctxs s ≡ some i
    → serves s c ≡ true
    → find_reassembly_context (set ctxs i c) s ≡ some i
unfolding find_reassembly_context
find-set [] s i c e h = cc
find-set (x ∷ ctxs) s zero c e h = ground arith
find-set (x ∷ ctxs) s (suc i) c e h = ground (arith, find-set ctxs s i c)

-- So does a write of a context that serves it, where none did before.
find-set-none :
    (ctxs : List ReassemblyContext) (s i : ℕ) (c : ReassemblyContext)
    → find_reassembly_context ctxs s ≡ none
    → i < length ctxs
    → serves s c ≡ true
    → find_reassembly_context (set ctxs i c) s ≡ some i
unfolding find_reassembly_context
find-set-none [] s i c e l h = absurd (omega arith)
find-set-none (x ∷ ctxs) s zero c e l h = ground arith
find-set-none (x ∷ ctxs) s (suc i) c e l h = ground (arith, find-set-none ctxs s i c)

find_free-lt :
    (ctxs : List ReassemblyContext) (i : ℕ) → find_free_context ctxs ≡ some i → i < length ctxs
unfolding find_free_context
find_free-lt [] i e = cc
find_free-lt (c ∷ ctxs) zero e = omega arith
find_free-lt (c ∷ ctxs) (suc i) e = ground (arith, find_free-lt ctxs i)

-- After `get_reassembly_context` the sub-stream is found at the index that it returned.
pub find-get_reassembly_context :
    (ctxs : List ReassemblyContext) (s i : ℕ) (ctxs' : List ReassemblyContext)
    → get_reassembly_context ctxs s ≡ some (i, ctxs')
    → find_reassembly_context ctxs' s ≡ some i
unfolding get_reassembly_context
find-get_reassembly_context ctxs s i ctxs' e =
    elim (Option-cases (find_reassembly_context ctxs s)) [
      | inr (j, p) ↦ ground arith
      | inl p ↦ elim (Option-cases (find_free_context ctxs)) [
        | inl q ↦ ground arith
        | inr (j, q) ↦
            let c = record idle_context { active = true; sub_stream_id = s } in
            ground (arith, find-set-none ctxs s j c, find_free-lt ctxs j)
      ]
    ]
