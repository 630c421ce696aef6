-- ===== src/Bch/Decode.antt =====
-- The two calls `BchDecoder::decode`. A null pointer is `none`; so is, as a result, an access out of bounds.
use usrp_atsc.Common.{
  ℕ, ◌+◌, ◌/◌, ◌==◌, ltb, min, if◌then◌else◌, Bool, true, false, List, [], ◌∷◌, length, take,
  Option, none, some,
}
use usrp_atsc.Common.Maybe.{◌>>=◌}
use usrp_atsc.Bch.Bits.{copy_first, flip_bit}
use usrp_atsc.Bch.State.{BchResult, no_result, BchDecoder}
use usrp_atsc.Bch.Syndromes.{compute_syndromes, all_zero}
use usrp_atsc.Bch.Massey.{berlekamp_massey}
use usrp_atsc.Bch.Chien.{chien_search}

abbrev pub Decoded : Type 0
Decoded = BchResult × BchDecoder

-- The loop that corrects the errors.
unfoldable pub flip_all : ℕ → List ℕ → List ℕ → Option (List ℕ)
unfolding flip_bit
flip_all num_bits [] bits = some bits
flip_all num_bits (pos ∷ positions) bits = do
  next ← if ltb pos num_bits then flip_bit bits pos else some bits
  flip_all num_bits positions next

-- The result of a success, with the information bits of the word.
unfoldable pub succeed : BchDecoder → Bool → ℕ → Option Decoded
succeed d was_valid errors_corrected =
    let info_bytes = (d.config.info_length + 7) / 8 in
    if ltb (length d.working_bits) info_bytes
    then none
    else some (
      record {
        decoded_bits = take info_bytes d.working_bits;
        errors_corrected = errors_corrected;
        success = true;
        was_valid = was_valid;
      },
      d,
    )

-- From the correction of the errors on.
unfoldable pub correct_errors : BchDecoder → ℕ → Option Decoded
unfolding flip_all compute_syndromes all_zero succeed
correct_errors d num_bits = do
  word ← flip_all num_bits d.error_positions d.working_bits
  syndromes ← compute_syndromes d.tables d.config.t word num_bits d.syndromes
  valid ← all_zero d.config.t syndromes
  let d' = record d { working_bits = word; syndromes = syndromes }
  if valid then succeed d' false (length d.error_positions) else some (no_result, d')

-- From the search for the error locator on.
unfoldable pub locate_errors : BchDecoder → ℕ → Option Decoded
unfolding berlekamp_massey chien_search correct_errors
locate_errors d num_bits = do
  massey ← berlekamp_massey d.tables d.config.t d.syndromes d.error_locator
  let d' = record d { error_locator = massey.1 }
  if ltb d.config.t massey.0 then some (no_result, d') else (do
    positions ← chien_search d.tables d.config.t massey.1 num_bits
    let d'' = record d' { error_positions = positions }
    if length positions == massey.0 then correct_errors d'' num_bits else some (no_result, d''))

-- With the limited number of bits.
unfoldable pub decode_word : BchDecoder → List ℕ → ℕ → Option Decoded
unfolding copy_first compute_syndromes all_zero succeed locate_errors
decode_word d bits num_bits = do
  working ← copy_first ((num_bits + 7) / 8) bits d.working_bits
  syndromes ← compute_syndromes d.tables d.config.t working num_bits d.syndromes
  valid ← all_zero d.config.t syndromes
  let d' = record d { working_bits = working; syndromes = syndromes }
  if valid then succeed d' true 0 else locate_errors d' num_bits

unfoldable pub bch_decode : BchDecoder → Option (List ℕ) → ℕ → Option Decoded
unfolding decode_word
bch_decode d none num_bits = some (no_result, d)
bch_decode d (some bits) num_bits =
    if num_bits == 0
    then some (no_result, d)
    else decode_word d bits (min num_bits d.config.codeword_length)

-- The call with an output buffer: the number of errors, `none` for -1, and the buffer.
unfoldable pub copy_out : List ℕ → Option (List ℕ) → Option (Option (List ℕ))
unfolding copy_first
copy_out decoded none = some none
copy_out decoded (some out) =
    if length decoded == 0
    then some (some out)
    else (do filled ← copy_first (length decoded) decoded out; some (some filled))

unfoldable pub bch_decode_into :
    BchDecoder
    → Option (List ℕ)
    → ℕ
    → Option (List ℕ)
    → Option ((Option ℕ × Option (List ℕ)) × BchDecoder)
unfolding bch_decode copy_out
bch_decode_into d bits num_bits out = do
  decoded ← bch_decode d bits num_bits
  if decoded.0.success
      then (do
        filled ← copy_out decoded.0.decoded_bits out
        some ((some decoded.0.errors_corrected, filled), decoded.1))
      else some ((none, out), decoded.1)
