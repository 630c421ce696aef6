-- ===== src/Bch/State.antt =====
-- `BchConfig`, `BchResult` and `BchDecoder` with its constructor, `set_config` and `reset`.
use usrp_atsc.Common.{
  ℕ, ◌+◌, ◌-◌, ◌*◌, ◌/◌, if◌then◌else◌, Bool, true, false, List, [], map, replicate, resize,
}
use usrp_atsc.Bch.Field.{GfTables, init_gf_tables}

pub record BchConfig : Type 0 where
  pub codeword_length : ℕ
  pub info_length : ℕ
  pub t : ℕ
  pub m : ℕ

unfoldable pub get_atsc3_bch_config : Bool → BchConfig
get_atsc3_bch_config short_frame =
    if short_frame
    then record { codeword_length = 14400; info_length = 14400 - 192; t = 12; m = 16 }
    else record { codeword_length = 57600; info_length = 57600 - 192; t = 12; m = 16 }

pub record BchResult : Type 0 where
  pub decoded_bits : List ℕ
  pub errors_corrected : ℕ
  pub success : Bool
  pub was_valid : Bool

-- `BchResult()`, which is also what a failure returns.
abbrev pub no_result : BchResult
no_result = record { decoded_bits = []; errors_corrected = 0; success = false; was_valid = false }

pub record BchDecoder : Type 0 where
  pub config : BchConfig
  pub initialized : Bool
  pub tables : GfTables
  pub syndromes : List ℕ
  pub error_locator : List ℕ
  pub error_positions : List ℕ
  pub working_bits : List ℕ

unfoldable pub new_bch_decoder : BchConfig → BchDecoder
unfolding init_gf_tables
new_bch_decoder config = record {
  config = config;
  initialized = true;
  tables = init_gf_tables;
  syndromes = replicate (2 * config.t + 1) 0;
  error_locator = replicate (config.t + 2) 0;
  error_positions = [];
  working_bits = replicate ((config.codeword_length + 7) / 8) 0;
}

-- `set_config`
unfoldable pub set_bch_config : BchDecoder → BchConfig → BchDecoder
set_bch_config d config = record d {
  config = config;
  syndromes = resize d.syndromes (2 * config.t + 1) 0;
  error_locator = resize d.error_locator (config.t + 2) 0;
  working_bits = resize d.working_bits ((config.codeword_length + 7) / 8) 0;
}

-- `reset`
unfoldable pub reset_bch : BchDecoder → BchDecoder
reset_bch d = record d {
  syndromes = map (λ s. 0) d.syndromes;
  error_locator = map (λ s. 0) d.error_locator;
  error_positions = [];
}
