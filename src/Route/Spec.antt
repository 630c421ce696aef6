-- ===== src/Route/Spec.antt =====
-- What `RouteParser` promises: the catalog is the map of the services of the tables received, `get_mpd`
-- is a map to the last document of a service, and `get_slt` is the last table.
pub mod Holds
pub mod Refine
use usrp_atsc.Common.{
  ℕ, ◌%◌, ◌^◌, ◌==◌, leb, if◌then◌else◌, ◌||◌, List, [], ◌∷◌, length, drop, map, Option, none, some,
}
use usrp_atsc.Common.Maybe.{◌>>=◌}
use usrp_atsc.Catalog.Spec.{CatalogSpec, empty_spec, CatalogCall, run_spec}
use usrp_atsc.Route.Lct.{LctHeader, parse_lct_header}
use usrp_atsc.Route.Slt.{
  Reading, too_short, no_root, exception, document, SltService, SltTable, no_table, read_slt,
  slt_to_service,
}
use usrp_atsc.Route.Mpd.{MpdInfo, read_mpd}
use usrp_atsc.Route.Process.{
  RouteParser, slt_toi, stsid_toi, mpd_toi, lls_codepoint, process_signaling,
}

pub record RouteSpec : Type 0 where
  pub services : CatalogSpec
  pub mpds : ℕ → Option MpdInfo
  pub table : SltTable

-- What a packet says.
pub data Signal : Type 0 where
  new_table : SltTable → Signal
  new_mpd : ℕ → MpdInfo → Signal
  nothing : Signal

abbrev pub table_signal : Reading SltTable → Signal
table_signal (document slt) = Signal.new_table slt
table_signal _ = Signal.nothing

abbrev pub mpd_signal : ℕ → Reading MpdInfo → Signal
mpd_signal id (document mpd) = Signal.new_mpd id mpd
mpd_signal id _ = Signal.nothing

unfoldable pub signal_in : LctHeader → List ℕ → Signal
signal_in header payload =
    if header.toi == slt_toi || header.codepoint == lls_codepoint
    then table_signal (read_slt payload)
    else if header.toi == stsid_toi
    then Signal.nothing
    else if header.toi == mpd_toi
    then mpd_signal (header.tsi % 2 ^ 16) (read_mpd payload)
    else Signal.nothing

abbrev pub signal_after : List ℕ → Option LctHeader → Signal
signal_after packet none = Signal.nothing
signal_after packet (some header) =
    if leb (length packet) header.header_bytes
    then Signal.nothing
    else signal_in header (drop header.header_bytes packet)

abbrev pub signal_parsed : List ℕ → Option (Option LctHeader) → Signal
signal_parsed packet none = Signal.nothing
signal_parsed packet (some parsed) = signal_after packet parsed

unfoldable pub signal_of : List ℕ → Signal
signal_of packet = signal_parsed packet (parse_lct_header packet)

-- The updates of a table, in its order.
abbrev pub updates : List SltService → List CatalogCall
updates [] = []
updates (svc ∷ svcs) = CatalogCall.update (slt_to_service svc) ∷ updates svcs

unfoldable pub signal_spec : RouteSpec → Signal → RouteSpec
unfolding run_spec
signal_spec m (Signal.new_table slt) = record m {
  services = (run_spec m.services (updates slt.services)).1;
  table = slt;
}
signal_spec m (Signal.new_mpd id mpd) = record m {
  mpds = λ key. if id == key then some mpd else m.mpds key;
}
signal_spec m Signal.nothing = m

abbrev pub empty_route : RouteSpec
empty_route = record { services = empty_spec; mpds = λ id. none; table = no_table }

-- A sequence of packets. Where `process_signaling` throws, the caller goes on with the parser that it
-- leaves.
unfoldable pub run_packets : RouteSpec → List (List ℕ) → RouteSpec
unfolding signal_of signal_spec
run_packets m [] = m
run_packets m (packet ∷ packets) = run_packets (signal_spec m (signal_of packet)) packets

unfoldable pub process_packets : RouteParser → List (List ℕ) → Option RouteParser
unfolding process_signaling
process_packets r [] = some r
process_packets r (packet ∷ packets) = do
  outcome ← process_signaling r packet
  process_packets outcome.parser packets
