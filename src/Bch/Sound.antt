-- ===== src/Bch/Sound.antt =====
-- What a success of `BchDecoder::decode` says.
use usrp_atsc.Common.{
  ℕ, ◌+◌, ◌/◌, ◌≤◌, ◌≡◌, refl, sym, ap, ◌∙◌, arith, ◌==◌, ltb, min, if-true, if-false, if-case,
  Bool, true, false, Bool-cases, inl, inr, List, [], length, take, some,
}
use usrp_atsc.Common.Maybe.{some-cancel, AllResults, bind-AllResults, none-some, false-true}
use usrp_atsc.Bch.Bits.{copy_first}
use usrp_atsc.Bch.State.{BchResult, no_result, BchDecoder}
use usrp_atsc.Bch.Syndromes.{compute_syndromes, all_zero}
use usrp_atsc.Bch.Massey.{berlekamp_massey}
use usrp_atsc.Bch.Chien.{chien_search}
use usrp_atsc.Bch.Decode.{
  Decoded, flip_all, succeed, correct_errors, locate_errors, decode_word, bch_decode,
}
use usrp_atsc.Bch.Chien.Positions.{IsAscending, chien_search-IsAscending}
use usrp_atsc.Bch.Syndromes.Zeros.{HasNoSyndrome, tested-HasNoSyndrome}

-- What a success says of the copy of the input.
pub record IsCorrected (d : BchDecoder) (num_bits : ℕ) (start : List ℕ) (r : BchResult)
    : Type 0 where
  pub positions : List ℕ
  pub word : List ℕ
  pub ascending : IsAscending num_bits 0 positions
  pub flipped : flip_all num_bits positions start ≡ some word
  pub count : length positions ≡ r.errors_corrected
  pub few : r.errors_corrected ≤ d.config.t
  pub zero_syndromes : HasNoSyndrome d.tables d.config.t word num_bits
  pub decoded : r.decoded_bits ≡ take ((d.config.info_length + 7) / 8) word

abbrev Corrects : BchDecoder → ℕ → List ℕ → Decoded → Type 0
Corrects d num_bits start out = out.0.success ≡ true → IsCorrected d num_bits start out.0

Corrects-failed :
    (d e : BchDecoder) (num_bits : ℕ) (start : List ℕ)
    → AllResults (Corrects d num_bits start) (some (no_result, e))
Corrects-failed d e num_bits start out q success =
    absurd (false-true (ap (λ (o : Decoded). o.0.success) (some-cancel q) ∙ success))

succeed-decoded :
    (d : BchDecoder) (was_valid : Bool) (n : ℕ)
    → AllResults
        (λ (out : Decoded).
          (out.0.errors_corrected ≡ n)
          × (out.0.decoded_bits ≡ take ((d.config.info_length + 7) / 8) d.working_bits))
        (succeed d was_valid n)
unfolding succeed
succeed-decoded d was_valid n =
    if-case (AllResults _) (ltb (length d.working_bits) ((d.config.info_length + 7) / 8))
      (λ out r e. absurd (none-some e))
      (λ inside r e. (
        ap (λ (o : Decoded). o.0.errors_corrected) (sym (some-cancel e)),
        ap (λ (o : Decoded). o.0.decoded_bits) (sym (some-cancel e)),
      ))

-- The word that the correction starts from is the copy of the input.
correct_errors-Corrects :
    (d : BchDecoder) (num_bits : ℕ)
    → IsAscending num_bits 0 d.error_positions
    → length d.error_positions ≤ d.config.t
    → AllResults (Corrects d num_bits d.working_bits) (correct_errors d num_bits)
unfolding correct_errors
correct_errors-Corrects d num_bits up few =
    bind-AllResults _ (flip_all num_bits d.error_positions d.working_bits) _ (λ word e1.
      bind-AllResults _ (compute_syndromes d.tables d.config.t word num_bits d.syndromes) _
        (λ syndromes e2. bind-AllResults _ (all_zero d.config.t syndromes) _ (λ valid e3.
          let d' : BchDecoder = record d { working_bits = word; syndromes = syndromes } in
          if-case (AllResults (Corrects d num_bits d.working_bits)) valid
            (λ zeros out e success.
              let (n, info) = succeed-decoded d' false (length d.error_positions) out e in
              record {
                positions = d.error_positions;
                word = word;
                ascending = up;
                flipped = e1;
                count = sym n;
                few = omega (arith, n, few);
                zero_syndromes =
                    tested-HasNoSyndrome d.tables d.config.t word num_bits d.syndromes syndromes e2
                      (e3 ∙ ap some zeros);
                decoded = info;
              })
            (λ wrong. Corrects-failed d d' num_bits d.working_bits))))

locate_errors-Corrects :
    (d : BchDecoder) (num_bits : ℕ)
    → AllResults (Corrects d num_bits d.working_bits) (locate_errors d num_bits)
unfolding locate_errors
locate_errors-Corrects d num_bits =
    bind-AllResults _ (berlekamp_massey d.tables d.config.t d.syndromes d.error_locator) _
      (λ massey e1.
        let d' : BchDecoder = record d { error_locator = massey.1 } in
        if-case (AllResults (Corrects d num_bits d.working_bits)) (ltb d.config.t massey.0)
          (λ many. Corrects-failed d d' num_bits d.working_bits)
          (λ few.
            bind-AllResults _ (chien_search d.tables d.config.t massey.1 num_bits) _
              (λ positions e2.
                let d'' : BchDecoder = record d' { error_positions = positions } in
                if-case (AllResults (Corrects d num_bits d.working_bits))
                  (length positions == massey.0)
                  (λ all out e success.
                    let k =
                      correct_errors-Corrects d'' num_bits
                        (chien_search-IsAscending d.tables d.config.t massey.1 num_bits positions
                          e2)
                        (ground (arith, few, all)) out e success in
                    record {
                      positions = k.positions;
                      word = k.word;
                      ascending = k.ascending;
                      flipped = k.flipped;
                      count = k.count;
                      few = k.few;
                      zero_syndromes = k.zero_syndromes;
                      decoded = k.decoded;
                    })
                  (λ other. Corrects-failed d d'' num_bits d.working_bits))))

flip_all-nil : (num_bits : ℕ) (word : List ℕ) → flip_all num_bits [] word ≡ some word
unfolding flip_all
flip_all-nil num_bits word = refl

decode_word-Corrects :
    (d : BchDecoder) (bits : List ℕ) (num_bits : ℕ)
    → AllResults
        (λ (out : Decoded).
          out.0.success ≡ true
          → (start : List ℕ) × (copy_first ((num_bits + 7) / 8) bits d.working_bits ≡ some start)
            × IsCorrected d num_bits start out.0)
        (decode_word d bits num_bits)
unfolding decode_word
decode_word-Corrects d bits num_bits =
    bind-AllResults _ (copy_first ((num_bits + 7) / 8) bits d.working_bits) _ (λ start e1.
      bind-AllResults _ (compute_syndromes d.tables d.config.t start num_bits d.syndromes) _
        (λ syndromes e2. bind-AllResults _ (all_zero d.config.t syndromes) _ (λ valid e3.
          let d' : BchDecoder = record d { working_bits = start; syndromes = syndromes } in
          if-case
            (AllResults (λ (out : Decoded).
              out.0.success ≡ true
              → (start : List ℕ) × (copy_first ((num_bits + 7) / 8) bits d.working_bits
                  ≡ some start)
                × IsCorrected d num_bits start out.0))
            valid
            (λ zeros out e success.
              let (n, info) = succeed-decoded d' true 0 out e in
              (
                start,
                e1,
                record {
                  positions = [];
                  word = start;
                  ascending = IsAscending.nil 0;
                  flipped = flip_all-nil num_bits start;
                  count = sym n;
                  few = omega (arith, n);
                  zero_syndromes =
                      tested-HasNoSyndrome d.tables d.config.t start num_bits d.syndromes syndromes
                        e2 (e3 ∙ ap some zeros);
                  decoded = info;
                },
              ))
            (λ errors out e success.
              let k = locate_errors-Corrects d' num_bits out e success in
              (
                start,
                e1,
                record {
                  positions = k.positions;
                  word = k.word;
                  ascending = k.ascending;
                  flipped = k.flipped;
                  count = k.count;
                  few = k.few;
                  zero_syndromes = k.zero_syndromes;
                  decoded = k.decoded;
                },
              )))))

-- Where `decode` succeeds on an input, with no more bits of it than the length of a codeword, the result is
-- the information bytes of a word with all 2t syndromes 0, which comes from the copy of the input by
-- flipping as many bits as are reported, at most t, at distinct positions of it.
pub bch_decode-IsCorrected :
    (d d' : BchDecoder) (bits : List ℕ) (num_bits : ℕ) (r : BchResult)
    → bch_decode d (some bits) num_bits ≡ some (r, d')
    → r.success ≡ true
    → (start : List ℕ) × (copy_first
          ((min num_bits d.config.codeword_length + 7) / 8)
          bits
          d.working_bits
        ≡ some start)
      × IsCorrected d (min num_bits d.config.codeword_length) start r
unfolding bch_decode
bch_decode-IsCorrected d d' bits num_bits r e success = elim (Bool-cases (num_bits == 0)) [
  | inl empty ↦ absurd (
      false-true
        (ap (λ (o : Decoded). o.0.success) (some-cancel (sym (if-true _ _ empty) ∙ e)) ∙ success))
  | inr some_bits ↦
      decode_word-Corrects d bits (min num_bits d.config.codeword_length) (r, d')
        (sym (if-false _ _ some_bits) ∙ e) success
]
