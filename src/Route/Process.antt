-- ===== src/Route/Process.antt =====
-- The object `RouteParser` and its calls. The catalog that `catalog_` points to is kept with the parser,
-- `none` where the pointer is null.
use usrp_atsc.Common.{
  ℕ, ◌+◌, ◌*◌, ◌%◌, ◌^◌, ◌==◌, ltb, leb, if◌then◌else◌, Bool, true, false, ◌||◌, List, [], ◌∷◌,
  length, drop, Option, none, some,
}
use mathlib.Core.Option
use usrp_atsc.Common.Maybe.{◌>>=◌}
use usrp_atsc.Catalog.{ServiceCatalog, update_service}
use usrp_atsc.Route.Lct.{LctHeader, parse_lct_header}
use usrp_atsc.Route.Slt.{
  Reading, too_short, no_root, exception, document, SltService, SltTable, no_table, read_slt,
  slt_to_service,
}
use usrp_atsc.Route.Mpd.{MpdInfo, read_mpd}

pub record RouteParserStats : Type 0 where
  pub lct_packets_parsed : ℕ
  pub slt_tables_received : ℕ
  pub stsid_received : ℕ
  pub mpd_received : ℕ
  pub parse_errors : ℕ
  pub xml_errors : ℕ

abbrev pub no_route_stats : RouteParserStats
no_route_stats = record {
  lct_packets_parsed = 0;
  slt_tables_received = 0;
  stsid_received = 0;
  mpd_received = 0;
  parse_errors = 0;
  xml_errors = 0;
}

pub record RouteParserConfig : Type 0 where
  pub max_xml_size : ℕ
  pub verbose : Bool

abbrev pub default_route_config : RouteParserConfig
default_route_config = record { max_xml_size = 1024 * 1024; verbose = false }

pub record RouteParser : Type 0 where
  pub catalog : Option ServiceCatalog
  pub config : RouteParserConfig
  pub stats : RouteParserStats
  pub current_slt : SltTable
  pub mpd_cache : List (ℕ × MpdInfo)
  pub segment_callback : Bool
  pub reassembly_buffer : List ℕ
  pub current_toi : ℕ
  pub expected_length : ℕ

-- A call returns its Boolean and leaves a parser; `none` in place of the Boolean is an exception.
pub record RouteOutcome : Type 0 where
  pub returned : Option Bool
  pub parser : RouteParser

abbrev pub returns : Bool → RouteParser → RouteOutcome
returns b r = record { returned = some b; parser = r }

-- A counter of type `uint64_t`.
abbrev count_up : ℕ → ℕ
count_up n = (n + 1) % 2 ^ 64

unfoldable pub new_route_parser : Option ServiceCatalog → RouteParserConfig → RouteParser
new_route_parser catalog config = record {
  catalog = catalog;
  config = config;
  stats = no_route_stats;
  current_slt = no_table;
  mpd_cache = [];
  segment_callback = false;
  reassembly_buffer = [];
  current_toi = 0;
  expected_length = 0;
}

-- `set_segment_callback`, with whether the callback is not empty.
unfoldable pub set_segment_callback : RouteParser → Bool → RouteParser
set_segment_callback r callback = record r { segment_callback = callback }

-- `reset`
unfoldable pub reset_route : RouteParser → RouteParser
reset_route r = record r {
  current_slt = no_table;
  mpd_cache = [];
  reassembly_buffer = [];
  current_toi = 0;
  expected_length = 0;
  stats = no_route_stats;
}

-- `get_mpd`
unfoldable pub find_mpd : List (ℕ × MpdInfo) → ℕ → Option MpdInfo
find_mpd [] id = none
find_mpd ((key, mpd) ∷ rest) id = if key == id then some mpd else find_mpd rest id

unfoldable pub get_mpd : RouteParser → ℕ → Option MpdInfo
unfolding find_mpd
get_mpd r id = find_mpd r.mpd_cache id

-- The loop of `parse_mpd` that stores the document: in place, or at the end.
unfoldable pub cache_mpd : List (ℕ × MpdInfo) → ℕ → MpdInfo → List (ℕ × MpdInfo)
cache_mpd [] id mpd = (id, mpd) ∷ []
cache_mpd ((key, old) ∷ rest) id mpd =
    if key == id then (key, mpd) ∷ rest else (key, old) ∷ cache_mpd rest id mpd

-- The loop of `parse_slt` that updates the catalog. What `update_service` returns is not read.
unfoldable pub update_services : ServiceCatalog → List SltService → ServiceCatalog
unfolding update_service slt_to_service
update_services c [] = c
update_services c (svc ∷ svcs) =
    update_services (update_service c (slt_to_service svc)).catalog svcs

abbrev pub xml_error : RouteParser → RouteParser
xml_error r = record r { stats = record (r.stats) { xml_errors = count_up r.stats.xml_errors } }

-- The rest of `parse_slt`, with the table.
unfoldable pub store_table : RouteParser → SltTable → RouteParser
unfolding update_services
store_table r slt = record r {
  current_slt = slt;
  stats = record (r.stats) { slt_tables_received = count_up r.stats.slt_tables_received };
  catalog = Option.map (λ c. update_services c slt.services) r.catalog;
}

-- `parse_slt`, on what the reading of the payload gives.
unfoldable pub take_slt : RouteParser → Reading SltTable → RouteOutcome
unfolding store_table
take_slt r too_short = returns false r
take_slt r no_root = returns false (xml_error r)
take_slt r exception = record { returned = none; parser = r }
take_slt r (document slt) = returns true (store_table r slt)

unfoldable pub parse_slt : RouteParser → List ℕ → RouteOutcome
unfolding read_slt take_slt
parse_slt r payload = take_slt r (read_slt payload)

-- `parse_stsid`. The service is not used.
unfoldable pub parse_stsid : RouteParser → List ℕ → ℕ → RouteOutcome
parse_stsid r payload service_id =
    if ltb (length payload) 10
    then returns false r
    else returns true
        (record r { stats = record (r.stats) { stsid_received = count_up r.stats.stsid_received } })

unfoldable pub store_mpd : RouteParser → ℕ → MpdInfo → RouteParser
unfolding cache_mpd
store_mpd r id mpd = record r {
  stats = record (r.stats) { mpd_received = count_up r.stats.mpd_received };
  mpd_cache = cache_mpd r.mpd_cache id mpd;
}

-- `parse_mpd`, in the same way.
unfoldable pub take_mpd : RouteParser → ℕ → Reading MpdInfo → RouteOutcome
unfolding store_mpd
take_mpd r id too_short = returns false r
take_mpd r id no_root = returns false (xml_error r)
take_mpd r id exception = record { returned = none; parser = r }
take_mpd r id (document mpd) = returns true (store_mpd r id mpd)

unfoldable pub parse_mpd : RouteParser → List ℕ → ℕ → RouteOutcome
unfolding read_mpd take_mpd
parse_mpd r payload service_id = take_mpd r service_id (read_mpd payload)

-- `route_toi` and `route_codepoint`
abbrev pub slt_toi : ℕ
slt_toi = 4294967040

abbrev pub stsid_toi : ℕ
stsid_toi = 4294967041

abbrev pub mpd_toi : ℕ
mpd_toi = 4294967042

abbrev pub lls_codepoint : ℕ
lls_codepoint = 0

-- Which handler gets the payload, and whether one does.
unfoldable pub handle_payload : RouteParser → LctHeader → List ℕ → RouteOutcome
unfolding parse_slt parse_stsid parse_mpd
handle_payload r header payload =
    let service_id = header.tsi % 2 ^ 16 in
    if header.toi == slt_toi || header.codepoint == lls_codepoint
    then parse_slt r payload
    else if header.toi == stsid_toi
    then parse_stsid r payload service_id
    else if header.toi == mpd_toi
    then parse_mpd r payload service_id
    else returns false r

abbrev pub lct_parsed : RouteParser → RouteParser
lct_parsed r = record r {
  stats = record (r.stats) { lct_packets_parsed = count_up r.stats.lct_packets_parsed };
}

abbrev pub lct_refused : RouteParser → RouteParser
lct_refused r = record r {
  stats = record (r.stats) { parse_errors = count_up r.stats.parse_errors };
}

-- `process_lct_packet`, from what `parse_lct_header` gives. `none` is a read behind the end of the packet.
unfoldable pub take_header : RouteParser → List ℕ → Option LctHeader → RouteOutcome
unfolding handle_payload
take_header r packet none = returns false (lct_refused r)
take_header r packet (some header) =
    if leb (length packet) header.header_bytes
    then returns false (lct_parsed r)
    else handle_payload (lct_parsed r) header (drop header.header_bytes packet)

unfoldable pub process_lct_packet : RouteParser → List ℕ → Option RouteOutcome
unfolding parse_lct_header take_header
process_lct_packet r packet =
    if ltb (length packet) 4
    then some (returns false r)
    else do parsed ← parse_lct_header packet; some (take_header r packet parsed)

-- `process_signaling`
unfoldable pub process_signaling : RouteParser → List ℕ → Option RouteOutcome
unfolding process_lct_packet
process_signaling r packet =
    if length packet == 0 then some (returns false r) else process_lct_packet r packet
