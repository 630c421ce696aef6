-- ===== src/Alp/Handlers/Datagram.antt =====
-- A whole datagram that arrives in segments.
use usrp_atsc.Common.{
  ℕ, ◌+◌, ◌<◌, ◌≤◌, ◌≡◌, refl, ap, ◌∙◌, arith, Bool, true, false, List, [], ◌∷◌, ◌++◌, get_or, set,
  length, some, length-append, append_assoc, get_or-set_self,
}
use usrp_atsc.Crc.Division.{IsBytes}
use usrp_atsc.Alp.Contexts.{
  ReassemblyContext, idle_context, find_reassembly_context, get_reassembly_context,
}
use usrp_atsc.Alp.Contexts.Laws.{find-serves, find-set, find-get_reassembly_context}
use usrp_atsc.Alp.Header.RoundTrip.{header_of}
use usrp_atsc.Alp.State.{AlpDemux, ip_datagram, next64}
use usrp_atsc.Alp.Handlers.{
  Outcome, process_packet, handle_ipv4_packet, handle_segment, append_segment, restart_context,
}
use usrp_atsc.Alp.Handlers.Segments.{
  segment_header, IsAssembling, Continues, Delivers, protected, append_segment-Continues,
  append_segment-last,
}

-- The segments `first ∷ rest` of a datagram go to `process_packet` one by one, numbered from
-- `sequence` on, and the last of them is marked.
abbrev pub feed : AlpDemux → ℕ → ℕ → ℕ → List ℕ → List (List ℕ) → Outcome
feed d plp_id stream sequence first [] =
    process_packet d plp_id (segment_header stream sequence true (length first)) first
feed d plp_id stream sequence first (next ∷ rest) =
    let o = process_packet d plp_id (segment_header stream sequence false (length first)) first in
    let later = feed o.0 plp_id stream (sequence + 1) next rest in (later.0, o.1 ++ later.1)

abbrev pub all_bytes : List ℕ → List (List ℕ) → List ℕ
all_bytes first [] = first
all_bytes first (next ∷ rest) = first ++ all_bytes next rest

-- The counts of packets and segments that stand before the reassembly.
abbrev counted : AlpDemux → AlpDemux
counted d = record d {
  stats = record (d.stats) {
    ipv4_packets = next64 d.stats.ipv4_packets;
    fragments_received = next64 d.stats.fragments_received;
  };
}

counted-IsAssembling :
    (d : AlpDemux) (stream i k : ℕ) (taken : List ℕ)
    → IsAssembling d stream i k taken
    → IsAssembling (counted d) stream i k taken
counted-IsAssembling d stream i k taken a = record {
  found = a.found;
  next_sequence = a.next_sequence;
  bytes = a.bytes;
}

process_packet-segment :
    (d : AlpDemux) (plp_id stream i k len : ℕ) (last : Bool) (taken payload : List ℕ)
    → 0 < k
    → IsAssembling d stream i k taken
    → process_packet d plp_id (segment_header stream k last len) payload
      ≡ append_segment (counted d) plp_id (segment_header stream k last len) payload i
unfolding process_packet handle_ipv4_packet handle_segment header_of
process_packet-segment d plp_id stream i k len last taken payload pos a = ground (arith, a.found)

-- The object in which a first segment finds its context.
abbrev started : AlpDemux → ℕ → ℕ → List ReassemblyContext → AlpDemux
started d stream i ctxs = record d {
  reassembly = set ctxs i (restart_context (get_or ctxs i idle_context) stream);
}

process_packet-first :
    (d : AlpDemux) (plp_id stream i len : ℕ) (ctxs : List ReassemblyContext) (last : Bool)
    (payload : List ℕ)
    → get_reassembly_context d.reassembly stream ≡ some (i, ctxs)
    → process_packet d plp_id (segment_header stream 0 last len) payload
      ≡ append_segment
          (started (counted d) stream i ctxs)
          plp_id
          (segment_header stream 0 last len)
          payload
          i
unfolding process_packet handle_ipv4_packet handle_segment header_of
process_packet-first d plp_id stream i len ctxs last payload e = rw e

started-IsAssembling :
    (d : AlpDemux) (stream i : ℕ) (ctxs : List ReassemblyContext)
    → get_reassembly_context d.reassembly stream ≡ some (i, ctxs)
    → IsAssembling (started d stream i ctxs) stream i 0 []
started-IsAssembling d stream i ctxs e = ground (
  arith,
  found,
  find-serves ctxs stream i found,
  find-set ctxs stream i fresh found,
  get_or-set_self ctxs i fresh idle_context,
)
  where
    found : find_reassembly_context ctxs stream ≡ some i
    found = find-get_reassembly_context d.reassembly stream i ctxs e

    fresh : ReassemblyContext
    fresh = restart_context (get_or ctxs i idle_context) stream

-- From a segment on that meets its context in the object `r`, the segments complete the datagram.
feed-from :
    (rest : List (List ℕ)) (d r : AlpDemux) (plp_id stream i k : ℕ) (taken first body : List ℕ)
    → ((last : Bool) (len : ℕ)
        → process_packet d plp_id (segment_header stream k last len) first
          ≡ append_segment r plp_id (segment_header stream k last len) first i)
    → IsAssembling r stream i k taken
    → Delivers r (length (taken ++ all_bytes first rest))
    → k + length rest < 32
    → IsBytes body
    → 0 < length body
    → taken ++ all_bytes first rest ≡ protected body
    → (feed d plp_id stream k first rest).1 ≡ ip_datagram plp_id body ∷ []
unfolding header_of
feed-from [] d r plp_id stream i k taken first body step a g small b pos e =
    ap (λ (o : Outcome). o.1) (step true (length first))
    ∙ append_segment-last r plp_id stream i k taken first body
        (segment_header stream k true (length first)) a refl refl
        (record {
          checks = g.checks;
          calls = g.calls;
          room = omega (arith, g.room, length-append taken first);
        })
        b pos e
feed-from (next ∷ rest) d r plp_id stream i k taken first body step a g small b pos e =
    ap (λ calls. calls ++ later.1) c.silent
    ∙ feed-from rest o.0 (counted o.0) plp_id stream i (k + 1) (taken ++ first) next body
        (λ last len.
          process_packet-segment o.0 plp_id stream i (k + 1) len last (taken ++ first) next
            (omega arith) c.assembling)
        (counted-IsAssembling o.0 stream i (k + 1) (taken ++ first) c.assembling)
        (record {
          checks = ap (λ x. x.check_crc) c.same_config ∙ g.checks;
          calls = c.same_callback ∙ g.calls;
          room = rw (c.same_config, append_assoc taken first (all_bytes next rest)) g.room;
        })
        (omega arith) b pos (append_assoc taken first (all_bytes next rest) ∙ e)
  where
    o : Outcome
    o = process_packet d plp_id (segment_header stream k false (length first)) first

    later : Outcome
    later = feed o.0 plp_id stream (k + 1) next rest

    fits : length taken + length first ≤ r.config.max_datagram_size
    fits = omega (
      arith,
      g.room,
      length-append taken (first ++ all_bytes next rest),
      length-append first (all_bytes next rest),
    )

    c : Continues r stream i (k + 1) (taken ++ first) o
    c = rw (step false (length first)) (
        append_segment-Continues r plp_id stream i k taken first
          (segment_header stream k false (length first)) a refl refl (omega arith) fits)

-- A datagram with its CRC, cut into at most 32 segments of any sizes that arrive in order on a
-- sub-stream for which there is a context: it is delivered once, when the last segment arrives, whole
-- and without its CRC.
pub feed-protected :
    (d : AlpDemux) (plp_id stream i : ℕ) (ctxs : List ReassemblyContext) (first : List ℕ)
    (rest : List (List ℕ)) (body : List ℕ)
    → get_reassembly_context d.reassembly stream ≡ some (i, ctxs)
    → Delivers d (length (protected body))
    → length rest < 32
    → IsBytes body
    → 0 < length body
    → all_bytes first rest ≡ protected body
    → (feed d plp_id stream 0 first rest).1 ≡ ip_datagram plp_id body ∷ []
feed-protected d plp_id stream i ctxs first rest body free g small b pos e =
    feed-from rest d (started (counted d) stream i ctxs) plp_id stream i 0 [] first body
      (λ last len. process_packet-first d plp_id stream i len ctxs last first free)
      (started-IsAssembling (counted d) stream i ctxs free)
      (record { checks = g.checks; calls = g.calls; room = rw e g.room }) (omega arith) b pos e
