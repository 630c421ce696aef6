-- ===== src/Alp/Handlers/Segments.antt =====
-- Reassembly: the segments of one datagram, in order, on a sub-stream.
use usrp_atsc.Common.{
  ℕ, ◌+◌, ◌-◌, ◌<◌, ◌≤◌, ◌≡◌, ap, arith, Bool, true, false, List, [], ◌∷◌, ◌++◌, get_or, set,
  length, some, length-append, get_or-set_self, take-length-append,
}
use usrp_atsc.Crc.{compute_crc32}
use usrp_atsc.Crc.Division.{IsBytes, be32_bytes, verify_crc-append}
use usrp_atsc.Alp.Header.{AlpHeader, PacketType}
use usrp_atsc.Alp.Header.RoundTrip.{segment, header_of}
use usrp_atsc.Alp.Contexts.{ReassemblyContext, idle_context, find_reassembly_context}
use usrp_atsc.Alp.Contexts.Laws.{find-serves, find-set}
use usrp_atsc.Alp.State.{AlpDemux, ip_datagram}
use usrp_atsc.Alp.Handlers.{Outcome, append_segment, complete_reassembly, extend_context}

-- The header of a segment of an IPv4 datagram.
abbrev pub segment_header : ℕ → ℕ → Bool → ℕ → AlpHeader
segment_header stream sequence last len =
    header_of PacketType.ipv4 (segment false len sequence last stream)

-- The context at `i` has taken the segments before `sequence`, which make up `taken`.
pub record IsAssembling (d : AlpDemux) (stream i sequence : ℕ) (taken : List ℕ) : Type 0 where
  pub found : find_reassembly_context d.reassembly stream ≡ some i
  pub next_sequence : (get_or d.reassembly i idle_context).expected_sequence ≡ sequence
  pub bytes : (get_or d.reassembly i idle_context).buffer ≡ taken

-- What a segment that is not the last leads to.
pub record Continues (d : AlpDemux) (stream i k : ℕ) (taken : List ℕ) (o : Outcome) : Type 0 where
  pub assembling : IsAssembling o.0 stream i k taken
  pub silent : o.1 ≡ []
  pub same_config : o.0.config ≡ d.config
  pub same_callback : o.0.ip_callback ≡ d.ip_callback

pub append_segment-Continues :
    (d : AlpDemux) (plp_id stream i sequence : ℕ) (taken payload : List ℕ) (h : AlpHeader)
    → IsAssembling d stream i sequence taken
    → h.segment_sequence ≡ sequence
    → h.last_segment ≡ false
    → sequence < 255
    → length taken + length payload ≤ d.config.max_datagram_size
    → Continues d stream i (sequence + 1) (taken ++ payload) (append_segment d plp_id h payload i)
unfolding append_segment
append_segment-Continues d plp_id stream i sequence taken payload h a hs hl small fits = ground (
  arith,
  ap length a.bytes,
  find-serves ctxs stream i a.found,
  find-set ctxs stream i next a.found,
  get_or-set_self ctxs i next idle_context,
)
  where
    ctxs : List ReassemblyContext
    ctxs = d.reassembly

    next : ReassemblyContext
    next = extend_context (get_or ctxs i idle_context) payload

-- What the object must be set to for a datagram with its CRC to be checked and delivered.
pub record Delivers (d : AlpDemux) (size : ℕ) : Type 0 where
  pub checks : d.config.check_crc ≡ true
  pub calls : d.ip_callback ≡ true
  pub room : size ≤ d.config.max_datagram_size

-- A datagram and the CRC behind it.
abbrev pub protected : List ℕ → List ℕ
protected body = body ++ be32_bytes (compute_crc32 body)

complete_reassembly-protected :
    (d : AlpDemux) (plp_id i : ℕ) (body : List ℕ)
    → IsBytes body
    → 0 < length body
    → d.config.check_crc ≡ true
    → d.ip_callback ≡ true
    → (get_or d.reassembly i idle_context).buffer ≡ protected body
    → (complete_reassembly d plp_id i).1 ≡ ip_datagram plp_id body ∷ []
unfolding complete_reassembly
complete_reassembly-protected d plp_id i body b pos c k e =
    let n : length (protected body) ≡ length body + 4 =
      length-append body (be32_bytes (compute_crc32 body)) in
    let m : length body + 4 - 4 ≡ length body = omega arith in
    rw
      (
        e,
        n,
        m,
        verify_crc-append body b,
        take-length-append body (be32_bytes (compute_crc32 body)),
        c,
        k,
      )
      (ground arith)

pub append_segment-last :
    (d : AlpDemux) (plp_id stream i sequence : ℕ) (taken payload body : List ℕ) (h : AlpHeader)
    → IsAssembling d stream i sequence taken
    → h.segment_sequence ≡ sequence
    → h.last_segment ≡ true
    → Delivers d (length taken + length payload)
    → IsBytes body
    → 0 < length body
    → taken ++ payload ≡ protected body
    → (append_segment d plp_id h payload i).1 ≡ ip_datagram plp_id body ∷ []
unfolding append_segment
append_segment-last d plp_id stream i sequence taken payload body h a hs hl g b pos e = ground (
  arith,
  ap length a.bytes,
  find-serves ctxs stream i a.found,
  get_or-set_self ctxs i next idle_context,
  complete_reassembly-protected (record d { reassembly = set ctxs i next }) plp_id i body b pos
      g.checks g.calls,
)
  where
    ctxs : List ReassemblyContext
    ctxs = d.reassembly

    next : ReassemblyContext
    next = extend_context (get_or ctxs i idle_context) payload
