-- ===== src/Alp/Handlers/Limits.antt =====
-- The storage that reassembly can take up.
use usrp_atsc.Common.{
  ℕ, zero, suc, ◌≤◌, ◌≡◌, ◌∙◌, Bool-cases, arith, true, List, [], ◌∷◌, get_or, set, length, some,
  inl, inr, Option-cases, length-append, length-set,
}
use usrp_atsc.Alp.Header.{AlpHeader}
use usrp_atsc.Alp.Contexts.{
  ReassemblyContext, idle_context, find_reassembly_context, find_free_context,
  get_reassembly_context, release_reassembly_context, max_reassembly_contexts,
}
use usrp_atsc.Alp.State.{AlpDemux, next64}
use usrp_atsc.Alp.Handlers.{
  process_packet, handle_ipv4_packet, handle_segment, handle_whole, handle_signaling_packet,
  handle_ts_packet, append_segment, complete_reassembly, restart_context, extend_context,
}

-- No context holds more than `m` bytes.
abbrev pub AllWithin : ℕ → List ReassemblyContext → Type 0
AllWithin m [] = Unit {0}
AllWithin m (c ∷ ctxs) = (length c.buffer ≤ m) × AllWithin m ctxs

pub record IsLimited (d : AlpDemux) : Type 0 where
  pub contexts : length d.reassembly ≡ max_reassembly_contexts
  pub within : AllWithin d.config.max_datagram_size d.reassembly

set-AllWithin :
    (m : ℕ) (ctxs : List ReassemblyContext) (i : ℕ) (c : ReassemblyContext)
    → AllWithin m ctxs
    → length c.buffer ≤ m
    → AllWithin m (set ctxs i c)
set-AllWithin m [] i c a h = tt
set-AllWithin m (x ∷ ctxs) zero c a h = (h, a.1)
set-AllWithin m (x ∷ ctxs) (suc i) c a h = (a.0, set-AllWithin m ctxs i c a.1 h)

release-AllWithin :
    (m : ℕ) (ctxs : List ReassemblyContext) (i : ℕ)
    → AllWithin m ctxs
    → AllWithin m (release_reassembly_context ctxs i)
      × (length (release_reassembly_context ctxs i) ≡ length ctxs)
unfolding release_reassembly_context
release-AllWithin m ctxs i a = (set-AllWithin m ctxs i _ a (omega arith), length-set ctxs i _)

complete_reassembly-IsLimited :
    (d : AlpDemux) (plp_id i : ℕ) → IsLimited d → IsLimited (complete_reassembly d plp_id i).0
unfolding complete_reassembly
complete_reassembly-IsLimited d plp_id i v =
    ground (arith, release-AllWithin d.config.max_datagram_size d.reassembly i v.within)

append_segment-IsLimited :
    (d : AlpDemux) (plp_id i : ℕ) (h : AlpHeader) (payload : List ℕ)
    → IsLimited d
    → IsLimited (append_segment d plp_id h payload i).0
unfolding append_segment
append_segment-IsLimited d plp_id i h payload v = ground (
  arith,
  release-AllWithin d.config.max_datagram_size ctxs i v.within,
  length-append ctx.buffer payload,
  set-AllWithin d.config.max_datagram_size ctxs i next v.within,
  length-set ctxs i next,
  complete_reassembly-IsLimited (record d { reassembly = set ctxs i next }) plp_id i,
)
  where
    ctxs : List ReassemblyContext
    ctxs = d.reassembly

    ctx : ReassemblyContext
    ctx = get_or ctxs i idle_context

    next : ReassemblyContext
    next = extend_context ctx payload

get-AllWithin :
    (m : ℕ) (ctxs : List ReassemblyContext) (s i : ℕ) (ctxs' : List ReassemblyContext)
    → AllWithin m ctxs
    → get_reassembly_context ctxs s ≡ some (i, ctxs')
    → AllWithin m ctxs' × (length ctxs' ≡ length ctxs)
unfolding get_reassembly_context
get-AllWithin m ctxs s i ctxs' a e = elim (Option-cases (find_free_context ctxs)) [
  | inl q ↦ elim (Option-cases (find_reassembly_context ctxs s)) [
    | inl p ↦ ground arith
    | inr (j, p) ↦ ground arith
  ]
  | inr (j, q) ↦
      let c = record idle_context { active = true; sub_stream_id = s } in
      let w = set-AllWithin m ctxs j c a (omega arith) in
      elim (Option-cases (find_reassembly_context ctxs s)) [
        | inl p ↦ ground (arith, w, length-set ctxs j c)
        | inr (k, p) ↦ ground arith
      ]
]

handle_segment-IsLimited :
    (d : AlpDemux) (plp_id : ℕ) (h : AlpHeader) (payload : List ℕ)
    → IsLimited d
    → IsLimited (handle_segment d plp_id h payload).0
unfolding handle_segment
handle_segment-IsLimited d plp_id h payload v =
    elim (Option-cases (get_reassembly_context d.reassembly h.sub_stream_id)) [
      | inl p ↦ elim (Option-cases (find_reassembly_context d.reassembly h.sub_stream_id)) [
        | inl q ↦ ground arith
        | inr (j, q) ↦ ground (arith, append_segment-IsLimited d plp_id j h payload v)
      ]
      | inr ((i, ctxs), p) ↦
          let c = restart_context (get_or ctxs i idle_context) h.sub_stream_id in
          let d' = record d { reassembly = set ctxs i c } in
          let w =
            get-AllWithin d.config.max_datagram_size d.reassembly h.sub_stream_id i ctxs v.within
              p in
          let v' : IsLimited d' = record {
            contexts = length-set ctxs i c ∙ w.1 ∙ v.contexts;
            within = set-AllWithin d.config.max_datagram_size ctxs i c w.0 (omega arith);
          } in
          elim (Option-cases (find_reassembly_context d.reassembly h.sub_stream_id)) [
            | inl q ↦ ground (arith, append_segment-IsLimited d' plp_id i h payload v')
            | inr (j, q) ↦ ground (
              arith,
              append_segment-IsLimited d plp_id j h payload v,
              append_segment-IsLimited d' plp_id i h payload v',
            )
          ]
    ]

handle_ipv4_packet-IsLimited :
    (d : AlpDemux) (plp_id : ℕ) (h : AlpHeader) (payload : List ℕ)
    → IsLimited d
    → IsLimited (handle_ipv4_packet d plp_id h payload).0
unfolding handle_ipv4_packet handle_whole
handle_ipv4_packet-IsLimited d plp_id h payload v = elim (Bool-cases h.segmentation) [
  | inl p ↦ ground (arith, handle_segment-IsLimited segmented plp_id h payload)
  | inr p ↦ ground arith
]
  where
    segmented : AlpDemux
    segmented = record d {
      stats = record (d.stats) {
        ipv4_packets = next64 d.stats.ipv4_packets;
        fragments_received = next64 d.stats.fragments_received;
      };
    }

-- `process_packet` keeps the sixteen contexts, and never lets one of them grow past the largest
-- datagram that is configured.
pub process_packet-IsLimited :
    (d : AlpDemux) (plp_id : ℕ) (h : AlpHeader) (payload : List ℕ)
    → IsLimited d
    → IsLimited (process_packet d plp_id h payload).0
unfolding process_packet handle_signaling_packet handle_ts_packet
process_packet-IsLimited d plp_id h payload v =
    ground (arith, handle_ipv4_packet-IsLimited d plp_id h payload v)
