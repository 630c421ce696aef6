-- ===== src/L1/Decode/Accepted.antt =====
-- What it means that `L1Decoder` accepts, and what `build_config` takes over.
use usrp_atsc.Common.{
  ℕ, zero, suc, ◌+◌, ◌-◌, ◌*◌, ◌==◌, ◌<◌, ◌≤◌, ◌≡◌, ◌↔◌, refl, ◌⊎◌, sym, ap, ◌∙◌, ==_iff, arith,
  ltb, if◌then◌else◌, Bool, true, false, not, ◌||◌, List, [], ◌∷◌, length, get_or, set, min,
  length-set, length-replicate, get_or-set_self, get_or-set_ne, replicate, Option, some, Bool-cases,
  inl, inr,
}
use usrp_atsc.Common.Maybe.{◌>>=◌, bind-some, some-cancel, bind-AllResults}
use usrp_atsc.Crc.{compute_crc32_bits}
use usrp_atsc.Config.{PlpConfig, default_plp, max_plps, empty_config}
use usrp_atsc.L1.Bits.{extract_bits, validate_crc, fec_decode}
use usrp_atsc.L1.Fields.{L1Pre, L1Post, L1DecoderConfig}
use usrp_atsc.L1.Unpack.{unpack_l1_pre, unpack_l1_post}
use usrp_atsc.L1.Decode.{decode_l1_pre, decode_l1_post, copy_plps, build_config}

abbrev tested : List ℕ → ℕ → Bool → Option Bool
tested bits num_bits short =
    if short
    then some false
    else (extract_bits bits (num_bits - 32) 32 >>= λ x.
        some (compute_crc32_bits bits (num_bits - 32) == x))

with_test : (valid check : Bool) → check ≡ true → (valid || not check) ≡ true → valid ≡ true
with_test true check h k = refl
with_test false check h k = cc

crc-accepted :
    (bits : List ℕ) (num_bits : ℕ)
    → validate_crc true bits num_bits ≡ some true
    → (32 ≤ num_bits)
      × (extract_bits bits (num_bits - 32) 32 ≡ some (compute_crc32_bits bits (num_bits - 32)))
unfolding validate_crc
crc-accepted bits num_bits h = elim (Bool-cases (ltb num_bits 32)) [
  | inl short ↦ cc
  | inr enough ↦
      let (transmitted, e, h') =
        bind-some (extract_bits bits (num_bits - 32) 32)
          (λ x. some (compute_crc32_bits bits (num_bits - 32) == x)) true
          (ap (tested bits num_bits) (sym enough) ∙ h) in
      (ground arith, e ∙ ap some (sym ((==_iff _ transmitted).0 (some-cancel h'))))
]

-- Copying leaves what is outside of the range,
copy_plps-outside :
    (i count : ℕ) (source plps : List PlpConfig) (j : ℕ)
    → (j < i) ⊎ (i + count ≤ j)
    → get_or (copy_plps i count source plps) j default_plp ≡ get_or plps j default_plp
unfolding copy_plps
copy_plps-outside i zero source plps j h = refl
copy_plps-outside i (suc count) source plps j h =
    copy_plps-outside (i + 1) count source (set plps i (get_or source i default_plp)) j
      (ground arith)
    ∙ get_or-set_ne plps i j (get_or source i default_plp) default_plp (ground arith)

-- and replaces what is inside.
copy_plps-inside :
    (i count : ℕ) (source plps : List PlpConfig) (j : ℕ)
    → i ≤ j
    → j < i + count
    → i + count ≤ length plps
    → get_or (copy_plps i count source plps) j default_plp ≡ get_or source j default_plp
unfolding copy_plps
copy_plps-inside i zero source plps j above below fits = absurd (omega arith)
copy_plps-inside i (suc count) source plps j above below fits = elim (Bool-cases (i == j)) [
  | inl here ↦
      let same = (==_iff i j).0 here in
      copy_plps-outside (i + 1) count source (set plps i (get_or source i default_plp)) j
        (inl (omega arith))
      ∙ ap (λ k. get_or (set plps i (get_or source i default_plp)) k default_plp) (sym same)
      ∙ get_or-set_self plps i (get_or source i default_plp) default_plp (omega arith)
      ∙ ap (λ k. get_or source k default_plp) same
  | inr there ↦
      copy_plps-inside (i + 1) count source (set plps i (get_or source i default_plp)) j
        (ground arith) (omega arith)
        (omega (arith, length-set plps i (get_or source i default_plp)))
]

get_or-replicate : (n : ℕ) (j : ℕ) (plp : PlpConfig) → get_or (replicate n plp) j plp ≡ plp
get_or-replicate zero j plp = refl
get_or-replicate (suc n) zero plp = refl
get_or-replicate (suc n) (suc j) plp = get_or-replicate n j plp

-- The PLP entries of the configuration that `build_config` makes are those of L1-Post below the
-- signalled number of PLPs, and the defaults from there on.
pub build_config-plps :
    (config : L1DecoderConfig) (pre : L1Pre) (post : L1Post) (j : ℕ)
    → j < max_plps
    → get_or (build_config config pre post).plps j default_plp
      ≡ (if ltb j post.configurable.num_plps then get_or post.plps j default_plp else default_plp)
unfolding build_config
build_config-plps config pre post j below =
    let n = post.configurable.num_plps in
    elim (Bool-cases (ltb j n)) [
      | inl inside ↦
          copy_plps-inside 0 (min n max_plps) post.plps empty_config.plps j (omega arith)
            (ground arith) (omega (arith, length-replicate 64 default_plp))
          ∙ ap (λ b. if b then get_or post.plps j default_plp else default_plp) (sym inside)
      | inr outside ↦
          copy_plps-outside 0 (min n max_plps) post.plps empty_config.plps j (inr (ground arith))
          ∙ get_or-replicate 64 j default_plp
          ∙ ap (λ b. if b then get_or post.plps j default_plp else default_plp) (sym outside)
    ]

unpack_l1_pre-crc :
    (check_crc : Bool) (bits : List ℕ) (num_bits : ℕ) (out : L1Pre)
    → unpack_l1_pre check_crc bits num_bits ≡ some out
    → validate_crc check_crc bits num_bits ≡ some out.crc_valid
unfolding unpack_l1_pre
unpack_l1_pre-crc check_crc bits num_bits =
    bind-AllResults P (extract_bits bits 0 3) _ (λ version e0.
      bind-AllResults P (extract_bits bits 3 2) _ (λ fft_idx e1.
        bind-AllResults P (extract_bits bits 5 4) _ (λ gi_fraction e2.
          bind-AllResults P (extract_bits bits 9 3) _ (λ pp_idx e3.
            bind-AllResults P (extract_bits bits 12 16) _ (λ size e4.
              bind-AllResults P (extract_bits bits 28 4) _ (λ mod_idx e5.
                bind-AllResults P (extract_bits bits 32 4) _ (λ rate_idx e6.
                  bind-AllResults P (extract_bits bits 36 2) _ (λ fec_type e7.
                    bind-AllResults P (extract_bits bits 38 1) _ (λ reduced e8.
                      bind-AllResults P (extract_bits bits 39 8) _ (λ num_subframes e9.
                        bind-AllResults P (validate_crc check_crc bits num_bits) _
                          (λ crc_valid e out h.
                            e ∙ ap (λ pre. some pre.crc_valid) (some-cancel h))))))))))))
  where
    P : L1Pre → Type 0
    P out = validate_crc check_crc bits num_bits ≡ some out.crc_valid

-- With the checksum tested, `decode_l1_pre` accepts only bytes that end with the checksum of what
-- precedes it, and has then set `crc_valid`.
pub decode_l1_pre-accepted :
    (config : L1DecoderConfig) (llrs : List ℕ) (pre : L1Pre)
    → config.check_crc ≡ true
    → decode_l1_pre config llrs ≡ some (true, some pre)
    → (pre.crc_valid ≡ true)
      × (extract_bits (fec_decode llrs) (length (fec_decode llrs) * 8 - 32) 32
          ≡ some (compute_crc32_bits (fec_decode llrs) (length (fec_decode llrs) * 8 - 32)))
unfolding decode_l1_pre
decode_l1_pre-accepted config [] pre check h = cc
decode_l1_pre-accepted config (llr ∷ llrs) pre check h =
    let bits = fec_decode (llr ∷ llrs) in
    let (out, e, h') =
      bind-some (unpack_l1_pre config.check_crc bits (length bits * 8)) _ (true, some pre) h in
    let result = some-cancel h' in
    let same = some-cancel (ap (λ r. r.1) result) in
    let valid = with_test out.crc_valid config.check_crc check (ap (λ r. r.0) result) in
    (
      ap (λ p. p.crc_valid) (sym same) ∙ valid,
      (crc-accepted bits (length bits * 8) (
          ap (λ c. validate_crc c bits (length bits * 8)) (sym check)
          ∙ unpack_l1_pre-crc config.check_crc bits (length bits * 8) out e
          ∙ ap some valid)).1,
    )

-- The result of `decode_l1_pre` and of `decode_l1_post` is the test of what they have written.
decode_l1_pre-result :
    (config : L1DecoderConfig) (llrs : List ℕ) (accepted : Bool) (pre : L1Pre)
    → decode_l1_pre config llrs ≡ some (accepted, some pre)
    → (pre.crc_valid || not config.check_crc) ≡ accepted
unfolding decode_l1_pre
decode_l1_pre-result config [] accepted pre h = cc
decode_l1_pre-result config (llr ∷ llrs) accepted pre h =
    let bits = fec_decode (llr ∷ llrs) in
    let (out, e, h') =
      bind-some (unpack_l1_pre config.check_crc bits (length bits * 8)) _ (accepted, some pre) h in
    let result = some-cancel h' in
    ap (λ p. p.crc_valid || not config.check_crc) (sym (some-cancel (ap (λ r. r.1) result)))
    ∙ ap (λ r. r.0) result

decode_l1_post-result :
    (config : L1DecoderConfig) (llrs : List ℕ) (pre : L1Pre) (accepted : Bool) (post : L1Post)
    → decode_l1_post config llrs pre ≡ some (accepted, some post)
    → (post.crc_valid || not config.check_crc) ≡ accepted
unfolding decode_l1_post
decode_l1_post-result config [] pre accepted post h = cc
decode_l1_post-result config (llr ∷ llrs) pre accepted post h =
    let bits = fec_decode (llr ∷ llrs) in
    let (out, e, h') =
      bind-some (unpack_l1_post config.check_crc bits (length bits * 8) pre.num_subframes) _
        (accepted, some post) h in
    let result = some-cancel h' in
    ap (λ p. p.crc_valid || not config.check_crc) (sym (some-cancel (ap (λ r. r.1) result)))
    ∙ ap (λ r. r.0) result

-- From an L1-Pre and an L1-Post that decoding calls have written, whether they returned true or
-- false, `build_config` makes a configuration that is valid exactly when both returned true.
pub build_config-accepted :
    (config : L1DecoderConfig) (llrs llrs' : List ℕ) (pre : L1Pre) (post : L1Post)
    (pre_accepted post_accepted : Bool)
    → decode_l1_pre config llrs ≡ some (pre_accepted, some pre)
    → decode_l1_post config llrs' pre ≡ some (post_accepted, some post)
    → ((build_config config pre post).valid ≡ true)
      ↔ ((pre_accepted ≡ true) × (post_accepted ≡ true))
unfolding build_config
build_config-accepted config llrs llrs' pre post pre_accepted post_accepted h h' =
    let e = decode_l1_pre-result config llrs pre_accepted pre h in
    let e' = decode_l1_post-result config llrs' pre post_accepted post h' in
    (λ valid. ground (arith, valid, e, e'), λ both. ground (arith, both, e, e'))
