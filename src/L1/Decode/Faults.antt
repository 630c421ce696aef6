-- ===== src/L1/Decode/Faults.antt =====
-- Which reads of `L1Decoder` stay inside of the decoded bytes: the code has no test of the length.
use usrp_atsc.Common.{
  ℕ, zero, suc, ◌+◌, ◌-◌, ◌*◌, ◌<◌, ◌≤◌, ◌≡◌, refl, sym, ap, ◌∙◌, ◌↔◌, arith, ltb, Bool, not, ◌||◌,
  List, [], ◌∷◌, length, inl, inr, Bool-cases, get_or, set, min, length-set, get_or-set_self,
  get_or-set_ne, length-replicate, none, some,
}
use usrp_atsc.Common.Maybe.{
  bind-IsDefined, bind-none, bind-some, bind-fault, absurd-defined, some-cancel, bind-next,
}
use usrp_atsc.Config.{PlpConfig, default_plp, max_plps}
use usrp_atsc.L1.Bits.{extract_bits, validate_crc, fec_decode}
use usrp_atsc.L1.Fields.{L1Pre, L1Post, L1DecoderConfig, empty_post}
use usrp_atsc.L1.Unpack.{
  unpack_l1_pre, unpack_l1_post, unpack_plps, unpack_plp_config, signalled_plps, plp_record_bits,
}
use usrp_atsc.L1.Decode.{decode_l1_pre, decode_l1_post}
use usrp_atsc.L1.Decode.Reads.{
  length-fec_decode, inside, crc-IsDefined, pre-IsDefined, pre-outside, unpack_plp-offset,
  plps-outside, plps-IsDefined,
}

-- `decode_l1_pre` reads outside of the decoded bytes exactly when it is given from 1 to 40 soft bits:
-- it has a result for none at all and for 41 or more, whether or not the checksum is tested.
pub decode_l1_pre-fault :
    (config : L1DecoderConfig) (llrs : List ℕ)
    → (decode_l1_pre config llrs ≡ none) ↔ ((0 < length llrs) × (length llrs ≤ 40))
unfolding decode_l1_pre
decode_l1_pre-fault config [] = (λ h. cc, λ h. absurd (omega (arith, h.0)))
decode_l1_pre-fault config (llr ∷ llrs) =
    let bits = fec_decode (llr ∷ llrs) in
    (
      λ h. elim (Bool-cases (ltb (length bits) 6)) [
        | inl short ↦ (omega arith, ground (arith, length-fec_decode (llr ∷ llrs)))
        | inr enough ↦
            absurd-defined _
              (bind-IsDefined _ (λ out. some (out.crc_valid || not config.check_crc, some out))
                (pre-IsDefined config.check_crc bits (ground arith)) λ out. (_, refl))
              h
      ],
      λ h. bind-fault (unpack_l1_pre config.check_crc bits (length bits * 8)) _ (
          pre-outside config.check_crc bits (length bits * 8)
            (omega (arith, length-fec_decode (llr ∷ llrs), h.1))),
    )

-- What stands before the place of the first record is left as it is.
plps-before :
    (bits : List ℕ) (i count bit_offset : ℕ) (plps result : List PlpConfig) (k : ℕ)
    → unpack_plps bits i count bit_offset plps ≡ some result
    → k < i
    → get_or result k default_plp ≡ get_or plps k default_plp
unfolding unpack_plps
plps-before bits i zero bit_offset plps result k h below =
    ap (λ x. get_or x k default_plp) (sym (some-cancel h))
plps-before bits i (suc count) bit_offset plps result k h below =
    let (r, e, rest) = bind-some (unpack_plp_config bits bit_offset) _ result h in
    plps-before bits (i + 1) count r.1 (set plps i r.0) result k rest (omega arith)
    ∙ get_or-set_ne plps i k r.0 default_plp (omega arith)

-- The records stand 90 bits apart, and each is unpacked into its place.
plps-records :
    (bits : List ℕ) (i count bit_offset : ℕ) (plps result : List PlpConfig) (j k place : ℕ)
    → unpack_plps bits i count bit_offset plps ≡ some result
    → i + count ≤ length plps
    → j < count
    → k ≡ i + j
    → place ≡ bit_offset + plp_record_bits * j
    → unpack_plp_config bits place ≡ some (get_or result k default_plp, place + plp_record_bits)
unfolding unpack_plps
plps-records bits i zero bit_offset plps result j k place h fits below at at' = absurd (omega arith)
plps-records bits i (suc count) bit_offset plps result zero k place h fits below at at' =
    let (r, e, rest) = bind-some (unpack_plp_config bits bit_offset) _ result h in
    ap (unpack_plp_config bits) (omega arith)
    ∙ e
    ∙ ap (λ o. some (r.0, o)) (unpack_plp-offset bits bit_offset r e ∙ omega arith)
    ∙ ap (λ plp. some (plp, place + plp_record_bits))
        (sym (
          ap (λ x. get_or result x default_plp) (omega arith)
          ∙ plps-before bits (i + 1) count r.1 (set plps i r.0) result i rest (omega arith)
          ∙ get_or-set_self plps i r.0 default_plp (omega arith)))
plps-records bits i (suc count) bit_offset plps result (suc j) k place h fits below at at' =
    let (r, e, rest) = bind-some (unpack_plp_config bits bit_offset) _ result h in
    plps-records bits (i + 1) count r.1 (set plps i r.0) result j k place rest
      (omega (arith, length-set plps i r.0)) (omega arith) (omega arith)
      (omega (arith, unpack_plp-offset bits bit_offset r e))

-- When `unpack_l1_post` has a result, the PLP configuration at every index below the signalled number
-- of PLPs (and below 64) is the record of 90 bits that `unpack_plp_config` reads at bit 14 + 90 * j.
pub unpack_l1_post-records :
    (check_crc : Bool) (bits : List ℕ) (num_bits num_plps_hint : ℕ) (post : L1Post) (j : ℕ)
    → unpack_l1_post check_crc bits num_bits num_plps_hint ≡ some post
    → j < min post.configurable.num_plps max_plps
    → unpack_plp_config bits (14 + plp_record_bits * j)
      ≡ some (get_or post.plps j default_plp, 14 + plp_record_bits * j + plp_record_bits)
unfolding unpack_l1_post
unpack_l1_post-records check_crc bits num_bits num_plps_hint post j h below =
    let (field, e, h) = bind-some (extract_bits bits 0 6) _ post h in
    let (num_subframes, e', h) = bind-some (extract_bits bits 6 8) _ post h in
    let count = min (signalled_plps field num_plps_hint) max_plps in
    let (plps, read, h) = bind-some (unpack_plps bits 0 count 14 empty_post.plps) _ post h in
    let (crc_valid, e'', h) = bind-some (validate_crc check_crc bits num_bits) _ post h in
    let built = some-cancel h in
    plps-records bits 0 count 14 empty_post.plps plps j j (14 + plp_record_bits * j) read
      (omega (arith, length-replicate 64 default_plp))
      (omega (arith, ap (λ p. min p.configurable.num_plps max_plps) built)) (omega arith)
      (omega arith)
    ∙ ap (λ x. some (get_or x j default_plp, 14 + plp_record_bits * j + plp_record_bits))
        (ap (λ p. p.plps) built)

-- With one soft bit or more, a first field that can be read, and one to 64 signalled PLPs (more count
-- as 64), `decode_l1_post` reads outside of the decoded bytes exactly when they end before bit 47 of
-- the last record, the end of the last field that is read of it: it has no test that the records fit.
pub decode_l1_post-fault :
    (config : L1DecoderConfig) (llrs : List ℕ) (l1_pre : L1Pre) (field count : ℕ)
    → extract_bits (fec_decode llrs) 0 6 ≡ some field
    → count ≡ min (signalled_plps field l1_pre.num_subframes) max_plps
    → 0 < count
    → 0 < length llrs
    → (decode_l1_post config llrs l1_pre ≡ none)
      ↔ (8 * length (fec_decode llrs) < 14 + plp_record_bits * (count - 1) + 47)
unfolding decode_l1_post unpack_l1_post
decode_l1_post-fault config [] l1_pre field count e at positive given = absurd (omega arith)
decode_l1_post-fault config (llr ∷ llrs) l1_pre field count e at positive given =
    let bits = fec_decode (llr ∷ llrs) in
    let n = min (signalled_plps field l1_pre.num_subframes) max_plps in
    (
      λ h. elim (Bool-cases (ltb (8 * length bits) (14 + plp_record_bits * (count - 1) + 47))) [
        | inl short ↦ ground arith
        | inr enough ↦
            let (plps, read) =
              plps-IsDefined bits 0 n 14 empty_post.plps (ground (arith, at, positive, enough)) in
            let (crc_valid, checked) = crc-IsDefined config.check_crc bits in
            let (num_subframes, e') =
              inside bits 6 8 (omega arith) (ground (arith, at, positive, enough)) in
            absurd-defined _
              (
                _,
                bind-next
                    (unpack_l1_post config.check_crc bits (length bits * 8) l1_pre.num_subframes) _
                    _ _
                    (bind-next (extract_bits bits 0 6) _ field _ e (
                      bind-next (extract_bits bits 6 8) _ num_subframes _ e' (
                        bind-next (unpack_plps bits 0 n 14 empty_post.plps) _ plps _ read (
                          bind-next (validate_crc config.check_crc bits (length bits * 8)) _
                            crc_valid _ checked refl))))
                    refl,
              )
              h
      ],
      λ h.
          bind-fault (unpack_l1_post config.check_crc bits (length bits * 8) l1_pre.num_subframes) _
            (bind-next (extract_bits bits 0 6) _ field none e (
              bind-none (extract_bits bits 6 8) _ λ num_subframes.
                bind-fault (unpack_plps bits 0 n 14 empty_post.plps) _
                  (plps-outside bits 0 n 14 empty_post.plps (omega arith) (omega arith)))),
    )
