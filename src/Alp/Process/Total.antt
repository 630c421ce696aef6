-- ===== src/Alp/Process/Total.antt =====
-- The loop of `process` ends: fuel above the number of bytes is never used up.
use usrp_atsc.Common.{
  ℕ, zero, suc, ◌+◌, ◌<◌, ◌≡◌, refl, ◌≢◌, take, ◌++◌, arith, List, [], ◌∷◌, length, drop,
  length-drop, none, some, Option-cases, inl, inr,
}
use usrp_atsc.Alp.Header.{parse_header}
use usrp_atsc.Alp.Header.Bounds.{header_bytes-ge}
use usrp_atsc.Alp.State.{AlpDemux, Delivery}
use usrp_atsc.Alp.Handlers.{process_packet}
use usrp_atsc.Alp.Process.{Drained, drain, process, header_failed, packet_done, finished}

drain-ne-none :
    (fuel : ℕ) (d : AlpDemux) (plp_id : ℕ) (bytes : List ℕ)
    → length bytes < fuel
    → drain fuel d plp_id bytes ≢ none
unfolding drain
drain-ne-none zero d plp_id bytes h = absurd (omega arith)
drain-ne-none (suc fuel) d plp_id bytes h = elim (Option-cases (parse_header bytes)) [
  | inl e ↦
      ground
        (arith, length-drop 1 bytes, drain-ne-none fuel (header_failed d) plp_id (drop 1 bytes))
  | inr (hd, e) ↦
      let size = hd.header_bytes + hd.len in
      let payload = take hd.len (drop hd.header_bytes bytes) in
      ground (
        arith,
        header_bytes-ge bytes hd e,
        length-drop size bytes,
        drain-ne-none fuel (packet_done (process_packet d plp_id hd payload).0) plp_id
            (drop size bytes),
      )
]

-- With more fuel than bytes the loop returns.
pub drain_total :
    (fuel : ℕ) (d : AlpDemux) (plp_id : ℕ) (bytes : List ℕ)
    → length bytes < fuel
    → (r : Drained) × (drain fuel d plp_id bytes ≡ some r)
drain_total fuel d plp_id bytes h = elim (Option-cases (drain fuel d plp_id bytes)) [
  | inl e ↦ absurd (drain-ne-none fuel d plp_id bytes h e)
  | inr found ↦ found
]

-- `process` returns for every object and all bytes.
pub process_total :
    (d : AlpDemux) (plp_id : ℕ) (bytes : List ℕ)
    → (r : AlpDemux × ℕ × List Delivery) × (process d plp_id bytes ≡ some r)
unfolding process
process_total d plp_id [] = ((d, 0, []), refl)
process_total d plp_id (byte ∷ bytes) =
    let buffer = d.input_buffer ++ byte ∷ bytes in
    let (r, e) =
      drain_total (suc (length buffer))
        (record d { current_plp_id = plp_id; input_buffer = buffer }) plp_id buffer (omega arith) in
    (finished r, rw e)
