-- ===== src/Ofdm/TimeDeinterleaver/Start.antt =====
-- `TimeDeinterleaver` from the constructor on.
use usrp_atsc.Common.{◌+◌, ◌-◌, [], resize}
use usrp_atsc.Ofdm.TimeDeinterleaver.{
  TimeDeinterleaver, TimeDeinterleaverConfig, resize_lines, set_masks,
}
use usrp_atsc.Ofdm.TimeDeinterleaver.Rows.{mask_for}

-- What the constructor makes where the configuration delays.
abbrev started : TimeDeinterleaverConfig → TimeDeinterleaver
started config =
    let rows = config.depth + 1 in
    record {
      config = config;
      num_rows = rows;
      row_mask = mask_for rows;
      delay_lines = resize_lines rows config.cells_per_block 0 (resize [] rows []);
      delay_masks = set_masks rows config.cells_per_block 0 (resize [] rows 0);
      write_pos = resize [] rows 0;
      settling_blocks = rows - 1;
      blocks_processed = 0;
    }
