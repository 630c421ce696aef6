-- ===== src/L1/Tests.antt =====
-- Tests of the L1 decoder on small inputs, and the theorems at such inputs.
use usrp_atsc.Common.{
  ℕ, ◌+◌, ◌-◌, ◌*◌, ◌≡◌, refl, ◌↔◌, ◌<◌, ◌≤◌, arith, ltb, if◌then◌else◌, Bool, true, false, List,
  [], ◌∷◌, map, length, get_or, Option, none, some,
}
use usrp_atsc.Crc.{compute_crc32_bits}
use usrp_atsc.Config.{default_plp}
use usrp_atsc.L1.Bits.{extract_bits, fec_decode, validate_crc}
use usrp_atsc.L1.Bits.Value.{bits_of}
use usrp_atsc.L1.Fields.{L1Pre, L1Post, L1DecoderConfig, empty_post}
use usrp_atsc.L1.Unpack.{unpack_l1_pre, unpack_l1_post, unpack_plp_config}
use usrp_atsc.L1.Decode.{decode_l1_pre, decode_l1_post, build_config}
use usrp_atsc.L1.Decode.Faults.{decode_l1_pre-fault, decode_l1_post-fault, unpack_l1_post-records}
use usrp_atsc.L1.Decode.Accepted.{build_config-plps, decode_l1_pre-accepted, build_config-accepted}

-- Soft bits for given bytes: an `int8_t` of -1 is the pattern 255.
abbrev soft_bits : List ℕ → List ℕ
soft_bits bytes = map (λ b. if b then 255 else 1) (bits_of bytes)

-- Two bytes of fields and their checksum.
abbrev pre_bytes : List ℕ
pre_bytes = 8 ∷ 66 ∷ 72 ∷ 4 ∷ 147 ∷ 201 ∷ []

-- One PLP.
abbrev post_bytes : List ℕ
post_bytes = 4 ∷ 0 ∷ 4 ∷ 0 ∷ 0 ∷ 0 ∷ 0 ∷ 0 ∷ []

abbrev checking : L1DecoderConfig
checking = record { max_ldpc_iterations = 25; check_crc = true; l1_pre_short_ldpc = true }

abbrev some_pre : L1Pre
some_pre = record {
  version = 0;
  fft_size = usrp_atsc.Config.FftSize.fft_16k;
  gi_fraction = 0;
  cp_length = usrp_atsc.Config.CpLength.cp_192;
  pilot_pattern = usrp_atsc.Config.PilotPattern.pp3;
  l1_post_size_cells = 0;
  l1_post_modulation = usrp_atsc.Config.Modulation.qpsk;
  l1_post_code_rate = usrp_atsc.Config.CodeRate.rate_2_15;
  l1_post_scrambled = false;
  l1_post_fec_type = 0;
  num_subframes = 0;
  preamble_reduced_carriers = false;
  crc_valid = true;
}

-- What a call has written, or else a default.
abbrev or_else {ℓ} : {A : Type ℓ} → Option A → A → A
or_else none d = d
or_else (some a) d = a

soft_bits_decoded : fec_decode (soft_bits pre_bytes) ≡ pre_bytes
unfolding fec_decode usrp_atsc.L1.Bits.decide_loop
soft_bits_decoded = refl

decode_l1_pre-fault_example : (decode_l1_pre checking (1 ∷ 255 ∷ []) ≡ none) ↔ ((0 < 2) × (2 ≤ 40))
decode_l1_pre-fault_example = decode_l1_pre-fault checking (1 ∷ 255 ∷ [])

abbrev written {ℓ} : {A : Type ℓ} → Option (Bool × Option A) → A → A
written none d = d
written (some (accepted, none)) d = d
written (some (accepted, some a)) d = a

abbrev decoded_pre : L1Pre
decoded_pre = written (decode_l1_pre checking (soft_bits pre_bytes)) some_pre

pre_accepted : decode_l1_pre checking (soft_bits pre_bytes) ≡ some (true, some decoded_pre)
unfolding decode_l1_pre unpack_l1_pre usrp_atsc.L1.Fields.index_to_fft_size fec_decode
    usrp_atsc.L1.Bits.decide_loop extract_bits validate_crc compute_crc32_bits
pre_accepted = refl

decode_l1_pre-accepted_example :
    (decoded_pre.crc_valid ≡ true)
    × (extract_bits
          (fec_decode (soft_bits pre_bytes))
          (length (fec_decode (soft_bits pre_bytes)) * 8 - 32)
          32
        ≡ some (
            compute_crc32_bits
              (fec_decode (soft_bits pre_bytes))
              (length (fec_decode (soft_bits pre_bytes)) * 8 - 32)))
decode_l1_pre-accepted_example =
    decode_l1_pre-accepted checking (soft_bits pre_bytes) decoded_pre refl pre_accepted

decode_l1_post-fault_example :
    (decode_l1_post checking (soft_bits (4 ∷ 0 ∷ [])) some_pre ≡ none) ↔ (8 * 2 < 14 + 90 * 0 + 47)
unfolding fec_decode extract_bits
decode_l1_post-fault_example =
    decode_l1_post-fault checking (soft_bits (4 ∷ 0 ∷ [])) some_pre 1 1 refl refl (omega arith)
      (omega arith)

abbrev unpacked : L1Post
unpacked = or_else (unpack_l1_post false post_bytes 64 0) empty_post

unpack_l1_post-records_example :
    unpack_plp_config post_bytes 14 ≡ some (get_or unpacked.plps 0 default_plp, 104)
unfolding unpack_l1_post extract_bits usrp_atsc.L1.Unpack.unpack_plps unpack_plp_config validate_crc
unpack_l1_post-records_example =
    unpack_l1_post-records false post_bytes 64 0 unpacked 0 refl (omega arith)

-- An L1-Post whose checksum is wrong, behind the accepted L1-Pre.
abbrev rejected_post : L1Post
rejected_post = written (decode_l1_post checking (soft_bits post_bytes) decoded_pre) empty_post

post_rejected :
    decode_l1_post checking (soft_bits post_bytes) decoded_pre ≡ some (false, some rejected_post)
unfolding decode_l1_post unpack_l1_post fec_decode extract_bits validate_crc decode_l1_pre
    unpack_l1_pre usrp_atsc.L1.Unpack.unpack_plps unpack_plp_config compute_crc32_bits
post_rejected = refl

build_config-accepted_example :
    ((build_config checking decoded_pre rejected_post).valid ≡ true)
    ↔ ((true ≡ true) × (false ≡ true))
build_config-accepted_example =
    build_config-accepted checking (soft_bits pre_bytes) (soft_bits post_bytes) decoded_pre
      rejected_post true false pre_accepted post_rejected

build_config-plps_example :
    get_or (build_config checking some_pre empty_post).plps 3 default_plp
    ≡ (if ltb 3 0 then get_or empty_post.plps 3 default_plp else default_plp)
build_config-plps_example = build_config-plps checking some_pre empty_post 3 (omega arith)
