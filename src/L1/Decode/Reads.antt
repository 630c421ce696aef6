-- ===== src/L1/Decode/Reads.antt =====
-- Where the fields of L1-Pre and of the PLP records stand, and which reads of them stay inside of the
-- bytes.
use usrp_atsc.Common.{
  ℕ, zero, suc, ◌+◌, ◌-◌, ◌*◌, ◌/◌, ◌%◌, ◌<◌, ◌≤◌, ◌≡◌, refl, sym, ap, ◌∙◌, arith, ltb, Bool, true,
  false, List, [], ◌∷◌, length, inl, inr, Option-cases, get_or, set, length-set, length-replicate,
  none, some,
}
use usrp_atsc.Common.Maybe.{
  ◌>>=◌, IsDefined, bind-IsDefined, bind-none, bind-some, bind-fault, if-IsDefined, some-cancel,
  bind-next,
}
use usrp_atsc.Config.{PlpConfig}
use usrp_atsc.L1.Bits.{extract_bits, validate_crc, fec_decode, decide_loop, put_bit, is_negative}
use usrp_atsc.L1.Bits.Value.{extract_bits-value, extract_bits-outside}
use usrp_atsc.L1.Unpack.{unpack_l1_pre, unpack_plps, unpack_plp_config, plp_fields, plp_record_bits}

length-decide_loop : (i : ℕ) (llrs out : List ℕ) → length (decide_loop i llrs out) ≡ length out
unfolding decide_loop
length-decide_loop i [] out = refl
length-decide_loop i (llr ∷ llrs) out =
    length-decide_loop (i + 1) llrs
      (set out (i / 8) (put_bit (get_or out (i / 8) 0) (7 - i % 8) (is_negative llr)))
    ∙ length-set out (i / 8) (put_bit (get_or out (i / 8) 0) (7 - i % 8) (is_negative llr))

pub length-fec_decode : (llrs : List ℕ) → length (fec_decode llrs) ≡ (length llrs + 7) / 8
unfolding fec_decode
length-fec_decode llrs = length-decide_loop 0 llrs _ ∙ length-replicate ((length llrs + 7) / 8) 0

pub inside :
    (bits : List ℕ) (offset n : ℕ)
    → n ≤ 32
    → offset + n ≤ 8 * length bits
    → IsDefined (extract_bits bits offset n)
inside bits offset n w h = (_, (extract_bits-value bits offset n w h).0)

pub crc-IsDefined :
    (check_crc : Bool) (bits : List ℕ) → IsDefined (validate_crc check_crc bits (length bits * 8))
unfolding validate_crc
crc-IsDefined false bits = (true, refl)
crc-IsDefined true bits =
    if-IsDefined (ltb (length bits * 8) 32) _ _ (λ short. (false, refl))
      λ enough.
        bind-IsDefined _ _ (inside bits (length bits * 8 - 32) 32 (omega arith) (ground arith))
          λ transmitted. (_, refl)

pub pre-IsDefined :
    (check_crc : Bool) (bits : List ℕ)
    → 6 ≤ length bits
    → IsDefined (unpack_l1_pre check_crc bits (length bits * 8))
unfolding unpack_l1_pre
pre-IsDefined check_crc bits h =
    bind-IsDefined _ _ (inside bits 0 3 (omega arith) (omega arith)) λ version.
      bind-IsDefined _ _ (inside bits 3 2 (omega arith) (omega arith)) λ fft_idx.
        bind-IsDefined _ _ (inside bits 5 4 (omega arith) (omega arith)) λ gi_fraction.
          bind-IsDefined _ _ (inside bits 9 3 (omega arith) (omega arith)) λ pp_idx.
            bind-IsDefined _ _ (inside bits 12 16 (omega arith) (omega arith)) λ size.
              bind-IsDefined _ _ (inside bits 28 4 (omega arith) (omega arith)) λ mod_idx.
                bind-IsDefined _ _ (inside bits 32 4 (omega arith) (omega arith)) λ rate_idx.
                  bind-IsDefined _ _ (inside bits 36 2 (omega arith) (omega arith)) λ fec_type.
                    bind-IsDefined _ _ (inside bits 38 1 (omega arith) (omega arith)) λ reduced.
                      bind-IsDefined _ _ (inside bits 39 8 (omega arith) (omega arith))
                        λ num_subframes.
                          bind-IsDefined _ _ (crc-IsDefined check_crc bits) λ crc_valid. (_, refl)

pub pre-outside :
    (check_crc : Bool) (bits : List ℕ) (num_bits : ℕ)
    → length bits < 6
    → unpack_l1_pre check_crc bits num_bits ≡ none
unfolding unpack_l1_pre
pre-outside check_crc bits num_bits h = bind-none (extract_bits bits 0 3) _ λ version.
    bind-none (extract_bits bits 3 2) _ λ fft_idx.
      bind-none (extract_bits bits 5 4) _ λ gi_fraction.
        bind-none (extract_bits bits 9 3) _ λ pp_idx. bind-none (extract_bits bits 12 16) _ λ size.
          bind-none (extract_bits bits 28 4) _ λ mod_idx.
            bind-none (extract_bits bits 32 4) _ λ rate_idx.
              bind-none (extract_bits bits 36 2) _ λ fec_type.
                bind-none (extract_bits bits 38 1) _ λ reduced.
                  bind-fault (extract_bits bits 39 8) _
                    (extract_bits-outside bits 39 8 (omega arith) (omega arith))

-- A record that is unpacked leaves the offset 90 bits further on.
pub unpack_plp-offset :
    (bits : List ℕ) (bit_offset : ℕ) (r : PlpConfig × ℕ)
    → unpack_plp_config bits bit_offset ≡ some r
    → r.1 ≡ bit_offset + plp_record_bits
unfolding unpack_plp_config
unpack_plp-offset bits bit_offset r h =
    let (plp, e, e') = bind-some (plp_fields bits bit_offset) _ r h in
    sym (ap (λ x. x.1) (some-cancel e'))

plp-outside :
    (bits : List ℕ) (bit_offset : ℕ)
    → 8 * length bits < bit_offset + 47
    → unpack_plp_config bits bit_offset ≡ none
unfolding unpack_plp_config plp_fields
plp-outside bits bit_offset h = bind-fault (plp_fields bits bit_offset) _ fields
  where
    fields : plp_fields bits bit_offset ≡ none
    fields = bind-none (extract_bits bits bit_offset 6) _ λ plp_id.
        bind-none (extract_bits bits (bit_offset + 6) 1) _ λ type_idx.
          bind-none (extract_bits bits (bit_offset + 7) 4) _ λ mod_idx.
            bind-none (extract_bits bits (bit_offset + 11) 4) _ λ rate_idx.
              bind-none (extract_bits bits (bit_offset + 15) 2) _ λ ti_idx.
                bind-none (extract_bits bits (bit_offset + 17) 15) _ λ num_fec_blocks.
                  bind-none (extract_bits bits (bit_offset + 32) 1) _ λ cw_len.
                    bind-none (extract_bits bits (bit_offset + 33) 4) _ λ ti_depth.
                      bind-fault (extract_bits bits (bit_offset + 37) 10) _
                        (extract_bits-outside bits (bit_offset + 37) 10 (omega arith) (omega arith))

pub plps-outside :
    (bits : List ℕ) (i count bit_offset : ℕ) (plps : List PlpConfig)
    → 8 * length bits + 43 < bit_offset + plp_record_bits * count
    → 0 < count
    → unpack_plps bits i count bit_offset plps ≡ none
unfolding unpack_plps
plps-outside bits i zero bit_offset plps h positive = absurd (omega arith)
plps-outside bits i (suc zero) bit_offset plps h positive =
    bind-fault (unpack_plp_config bits bit_offset) _ (plp-outside bits bit_offset (omega arith))
plps-outside bits i (suc (suc count)) bit_offset plps h positive =
    elim (Option-cases (unpack_plp_config bits bit_offset)) [
      | inl fault ↦ bind-fault (unpack_plp_config bits bit_offset) _ fault
      | inr (r, e) ↦
          ap
            (λ o. o >>= λ unpacked.
              unpack_plps bits (i + 1) (suc count) unpacked.1 (set plps i unpacked.0))
            e
          ∙ plps-outside bits (i + 1) (suc count) r.1 (set plps i r.0)
              (omega (arith, unpack_plp-offset bits bit_offset r e)) (omega arith)
    ]

fields-IsDefined :
    (bits : List ℕ) (bit_offset : ℕ)
    → bit_offset + 47 ≤ 8 * length bits
    → IsDefined (plp_fields bits bit_offset)
unfolding plp_fields
fields-IsDefined bits at h =
    bind-IsDefined _ _ (inside bits at 6 (omega arith) (omega arith)) λ plp_id.
      bind-IsDefined _ _ (inside bits (at + 6) 1 (omega arith) (omega arith)) λ type_idx.
        bind-IsDefined _ _ (inside bits (at + 7) 4 (omega arith) (omega arith)) λ mod_idx.
          bind-IsDefined _ _ (inside bits (at + 11) 4 (omega arith) (omega arith)) λ rate_idx.
            bind-IsDefined _ _ (inside bits (at + 15) 2 (omega arith) (omega arith)) λ ti_idx.
              bind-IsDefined _ _ (inside bits (at + 17) 15 (omega arith) (omega arith)) λ blocks.
                bind-IsDefined _ _ (inside bits (at + 32) 1 (omega arith) (omega arith)) λ cw_len.
                  bind-IsDefined _ _ (inside bits (at + 33) 4 (omega arith) (omega arith)) λ depth.
                    bind-IsDefined _ _ (inside bits (at + 37) 10 (omega arith) (omega arith))
                      λ num_blocks. (_, refl)

-- The last record is read up to its 47th bit.
pub plps-IsDefined :
    (bits : List ℕ) (i count bit_offset : ℕ) (plps : List PlpConfig)
    → bit_offset + plp_record_bits * count ≤ 8 * length bits + 43
    → IsDefined (unpack_plps bits i count bit_offset plps)
unfolding unpack_plps unpack_plp_config
plps-IsDefined bits i zero bit_offset plps h = (plps, refl)
plps-IsDefined bits i (suc count) bit_offset plps h =
    let (plp, e) = fields-IsDefined bits bit_offset (omega arith) in
    let next = bit_offset + plp_record_bits in
    let (result, e') = plps-IsDefined bits (i + 1) count next (set plps i plp) (omega arith) in
    (
      result,
      bind-next (unpack_plp_config bits bit_offset) _ (plp, next) _
          (bind-next (plp_fields bits bit_offset) _ plp _ e refl) e',
    )
