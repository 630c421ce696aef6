-- ===== src/Alp/Contexts.antt =====
-- `ReassemblyContext` and the functions of `AlpDemux` on the array of contexts.
-- A pointer to a context is its index in the array; `nullptr` is `none`.
pub mod Laws
use usrp_atsc.Common.{
  ℕ, suc, ◌==◌, ◌&&◌, if◌then◌else◌, Bool, true, false, not, List, [], ◌∷◌, get_or, set, Option,
  none, some,
}
use mathlib.Core.Option

pub record ReassemblyContext : Type 0 where
  pub buffer : List ℕ
  pub expected_sequence : ℕ
  pub sub_stream_id : ℕ
  pub active : Bool
  pub total_received : ℕ

-- `MAX_REASSEMBLY_CONTEXTS`
abbrev pub max_reassembly_contexts : ℕ
max_reassembly_contexts = 16

abbrev pub idle_context : ReassemblyContext
idle_context = record {
  buffer = [];
  expected_sequence = 0;
  sub_stream_id = 0;
  active = false;
  total_received = 0;
}

abbrev pub serves : ℕ → ReassemblyContext → Bool
serves sub_stream_id ctx = ctx.active && ctx.sub_stream_id == sub_stream_id

-- `find_reassembly_context`
unfoldable pub find_reassembly_context : List ReassemblyContext → ℕ → Option ℕ
find_reassembly_context [] sub_stream_id = none
find_reassembly_context (ctx ∷ ctxs) sub_stream_id =
    if serves sub_stream_id ctx
    then some 0
    else Option.map suc (find_reassembly_context ctxs sub_stream_id)

-- The loop of `get_reassembly_context` that looks for a free context.
unfoldable pub find_free_context : List ReassemblyContext → Option ℕ
find_free_context [] = none
find_free_context (ctx ∷ ctxs) =
    if not ctx.active then some 0 else Option.map suc (find_free_context ctxs)

-- `get_reassembly_context`: an index with the array after the call.
unfoldable pub get_reassembly_context :
    List ReassemblyContext → ℕ → Option (ℕ × List ReassemblyContext)
get_reassembly_context ctxs sub_stream_id = elim (find_reassembly_context ctxs sub_stream_id) [
  | some i ↦ some (i, ctxs)
  | none ↦ elim (find_free_context ctxs) [
    | some i ↦
        some (i, set ctxs i (record idle_context { active = true; sub_stream_id = sub_stream_id }))
    | none ↦ none
  ]
]

-- `release_reassembly_context`; the sub-stream id stays.
unfoldable pub release_reassembly_context : List ReassemblyContext → ℕ → List ReassemblyContext
release_reassembly_context ctxs i = set ctxs i (record (get_or ctxs i idle_context) {
  active = false;
  buffer = [];
  expected_sequence = 0;
  total_received = 0;
})
