-- ===== src/Alp/State.antt =====
-- The object `AlpDemux` with its configuration and its statistics.
-- The callbacks are code outside of the class: the object holds whether each of the three is set, and
-- a handler returns the calls that it makes, in order, as `Delivery` values. Counters of type
-- `uint64_t` wrap.
use usrp_atsc.Common.{
  ℕ, ◌+◌, ◌-◌, ◌/◌, ◌%◌, ◌^◌, ◌&&◌, ltb, if◌then◌else◌, Bool, true, false, List, [], ◌∷◌, length,
  replicate, map,
}
use usrp_atsc.Alp.Contexts.{ReassemblyContext, idle_context, max_reassembly_contexts}

pub record AlpStats : Type 0 where
  pub packets_received : ℕ
  pub ipv4_packets : ℕ
  pub signaling_packets : ℕ
  pub extension_packets : ℕ
  pub ts_packets : ℕ
  pub fragments_received : ℕ
  pub datagrams_reassembled : ℕ
  pub reassembly_errors : ℕ
  pub crc_errors : ℕ
  pub header_errors : ℕ

pub record AlpDemuxConfig : Type 0 where
  pub max_datagram_size : ℕ
  pub check_crc : Bool
  pub reassembly_timeout_packets : ℕ

abbrev pub default_config : AlpDemuxConfig
default_config = record {
  max_datagram_size = 65535;
  check_crc = true;
  reassembly_timeout_packets = 1000;
}

-- A call of a callback: the kind, the PLP and the bytes.
pub data Delivery : Type 0 where
  ip_datagram : ℕ → List ℕ → Delivery
  signaling : ℕ → List ℕ → Delivery
  ts_packet : ℕ → List ℕ → Delivery

-- `last_check` is the static variable of `check_reassembly_timeouts`, which all objects of a process
-- share: the model is of a process with one object. Only that function reads it, and it changes
-- nothing else.
pub record AlpDemux : Type 0 where
  pub config : AlpDemuxConfig
  pub stats : AlpStats
  pub ip_callback : Bool
  pub signaling_callback : Bool
  pub ts_callback : Bool
  pub reassembly : List ReassemblyContext
  pub input_buffer : List ℕ
  pub current_plp_id : ℕ
  pub packet_counter : ℕ
  pub last_check : ℕ

abbrev pub u64 : ℕ
u64 = 2 ^ 64

abbrev pub next64 : ℕ → ℕ
next64 n = (n + 1) % u64

abbrev pub no_stats : AlpStats
no_stats = record {
  packets_received = 0;
  ipv4_packets = 0;
  signaling_packets = 0;
  extension_packets = 0;
  ts_packets = 0;
  fragments_received = 0;
  datagrams_reassembled = 0;
  reassembly_errors = 0;
  crc_errors = 0;
  header_errors = 0;
}

-- The constructor.
unfoldable pub new_demux : AlpDemuxConfig → AlpDemux
new_demux config = record {
  config = config;
  stats = no_stats;
  ip_callback = false;
  signaling_callback = false;
  ts_callback = false;
  reassembly = replicate max_reassembly_contexts idle_context;
  input_buffer = [];
  current_plp_id = 0;
  packet_counter = 0;
  last_check = 0;
}

unfoldable pub set_ip_callback : AlpDemux → AlpDemux
set_ip_callback d = record d { ip_callback = true }

unfoldable pub set_signaling_callback : AlpDemux → AlpDemux
set_signaling_callback d = record d { signaling_callback = true }

unfoldable pub set_ts_callback : AlpDemux → AlpDemux
set_ts_callback d = record d { ts_callback = true }

unfoldable pub reset_stats : AlpDemux → AlpDemux
reset_stats d = record d { stats = no_stats }

abbrev pub reset_context : ReassemblyContext → ReassemblyContext
reset_context ctx = record ctx {
  buffer = [];
  active = false;
  expected_sequence = 0;
  total_received = 0;
}

unfoldable pub reset : AlpDemux → AlpDemux
unfolding reset_stats
reset d = reset_stats (record d {
  input_buffer = [];
  reassembly = map reset_context d.reassembly;
  packet_counter = 0;
})

-- The test of `flush` on a context.
abbrev pub has_partial : ReassemblyContext → Bool
has_partial ctx = ctx.active && ltb 0 (length ctx.buffer)

abbrev pub flush_context : ReassemblyContext → ReassemblyContext
flush_context ctx = if has_partial ctx then record ctx { active = false; buffer = [] } else ctx

abbrev pub reassembly_error : AlpStats → AlpStats
reassembly_error s = record s { reassembly_errors = next64 s.reassembly_errors }

-- One reassembly error for each context that `flush` drops.
unfoldable pub count_partial : List ReassemblyContext → AlpStats → AlpStats
count_partial [] s = s
count_partial (ctx ∷ ctxs) s =
    count_partial ctxs (if has_partial ctx then reassembly_error s else s)

unfoldable pub flush : AlpDemux → AlpDemux
unfolding count_partial
flush d = record d {
  stats = count_partial d.reassembly d.stats;
  reassembly = map flush_context d.reassembly;
  input_buffer = [];
}

-- `check_reassembly_timeouts`; the difference of two `uint64_t` wraps.
unfoldable pub check_reassembly_timeouts : AlpDemux → AlpDemux
check_reassembly_timeouts d =
    if ltb ((d.packet_counter + u64 - d.last_check) % u64)
      (d.config.reassembly_timeout_packets / 10)
    then d
    else record d { last_check = d.packet_counter }
