-- ===== src/Route/Tests.antt =====
-- Tests of the ROUTE parser on a service list table and an MPD, and the theorems at such inputs.
use usrp_atsc.Common.{
  ℕ, ◌+◌, ◌≡◌, refl, arith, true, List, [], ◌∷◌, map, length, drop, replicate, Option, none, some,
}
use mathlib.Core.Option
use usrp_atsc.Catalog.{ServiceCatalog, new_catalog, find_service}
use usrp_atsc.Route.Text.{ascii, stoul, find_tag, get_xml_element}
use usrp_atsc.Route.Lct.{parse_lct_header}
use usrp_atsc.Route.Lct.RoundTrip.{parse_lct_header-write_lct}
use usrp_atsc.Route.Lct.Written.{LctFields, header_of, write_lct}
use usrp_atsc.Route.Slt.{
  Reading, document, exception, SltService, SltTable, read_slt, service_starts, slt_to_service,
}
use usrp_atsc.Route.Mpd.{base_url_of, read_mpd}
use usrp_atsc.Route.Process.{
  default_route_config, new_route_parser, RouteParser, set_segment_callback, reset_route, get_mpd,
  parse_stsid,
}
use usrp_atsc.Route.Spec.{process_packets, run_packets, empty_route, signal_in}
use usrp_atsc.Route.Spec.Refine.{process_packets-run_packets}
use usrp_atsc.Route.Tags.{tag_places, first, service_starts-tag_places}

abbrev document_text : List ℕ
document_text =
    ascii
      "<SLT bsid='7'><Services/><Service serviceId=\"5\" majorChannelNo=\"9\"/><Service serviceId='6'/></SLT>"

abbrev fields : LctFields
fields = record {
  c = 0;
  psi = 0;
  s = 1;
  o = 1;
  h = 0;
  a = 0;
  b = 1;
  header_length = 3;
  codepoint = 1;
  cci = 0;
  tsi = 5;
  toi = 4294967040;
}

header_written : length (write_lct fields document_text) ≡ 12 + length document_text
header_written = refl

parse_lct_header-write_lct_example :
    parse_lct_header (write_lct fields document_text) ≡ some (some (header_of fields))
parse_lct_header-write_lct_example = parse_lct_header-write_lct fields document_text (record {
  c_small = omega arith;
  psi_small = omega arith;
  s_small = omega arith;
  o_small = omega arith;
  h_small = omega arith;
  a_small = omega arith;
  b_small = omega arith;
})

abbrev number_and_channel : SltService → ℕ × ℕ
number_and_channel svc = (svc.service_id, svc.major_channel)

abbrev channels_of : Reading SltTable → Option (ℕ × List (ℕ × ℕ))
channels_of (document t) = some (t.bsid, map number_and_channel t.services)
channels_of _ = none

read_slt_test : channels_of (read_slt document_text) ≡ some (7, (5, 9) ∷ (6, 0) ∷ [])
unfolding read_slt
read_slt_test = refl

-- The channel of the second service is taken by the first.
borrowed :
    channels_of (
      read_slt
        (ascii "<SLT><Service serviceId='5'/><Service serviceId='6' majorChannelNo='9'/></SLT>"))
    ≡ some (0, (5, 9) ∷ (6, 9) ∷ [])
unfolding read_slt
borrowed = refl

not_a_number : read_slt (ascii "<SLT><Service serviceId=\"x\"/></SLT>") ≡ exception
unfolding read_slt
not_a_number = refl

base_urls :
    (base_url_of (ascii "<MPD><BaseURL>a/b</BaseURL></MPD>") ≡ some (ascii "a/b"))
    × (base_url_of (ascii "<MPD><BaseURL </BaseURL></MPD>") ≡ none)
unfolding base_url_of
base_urls = (refl, refl)

numbers :
    (stoul (ascii " 12x") ≡ some 12)
    × (stoul (ascii "-1") ≡ some 18446744073709551615)
    × (stoul (ascii "18446744073709551616") ≡ none)
unfolding stoul
numbers = (refl, refl, refl)

element_text : get_xml_element (ascii "<a><b c='1'>d</b></a>") (ascii "b") ≡ ascii "d"
unfolding get_xml_element
element_text = refl

abbrev mpd_fields : LctFields
mpd_fields = record fields { tsi = 65541; toi = 4294967042 }

abbrev mpd_text : List ℕ
mpd_text = ascii "<MPD><BaseURL>a/b</BaseURL></MPD>"

abbrev packets : List (List ℕ)
packets =
    write_lct fields document_text ∷ (32 ∷ 0 ∷ 0 ∷ 0 ∷ []) ∷ write_lct mpd_fields mpd_text ∷ []

service_5 :
    Option.map (λ s. s.major_channel) ((run_packets empty_route packets).services.entry 5) ≡ some 9
unfolding run_packets parse_lct_header signal_in read_mpd read_slt slt_to_service
service_5 = refl

process_packets-run_packets_example :
    (end : RouteParser) × (c : ServiceCatalog) × (process_packets
        (new_route_parser (some new_catalog) default_route_config)
        packets
      ≡ some end)
    × (end.catalog ≡ some c)
    × ((id : ℕ) → find_service c id ≡ (run_packets empty_route packets).services.entry id)
    × (c.num_services ≡ (run_packets empty_route packets).services.size)
    × ((id : ℕ) → get_mpd end id ≡ (run_packets empty_route packets).mpds id)
    × (end.current_slt ≡ (run_packets empty_route packets).table)
process_packets-run_packets_example = process_packets-run_packets default_route_config packets

service_starts-tag_places_example :
    (find_tag document_text (ascii "SLT") ≡ first (tag_places (ascii "SLT") document_text))
    × (service_starts (length document_text) document_text
        ≡ tag_places (ascii "Service") (drop 1 document_text))
service_starts-tag_places_example = service_starts-tag_places document_text (ascii "SLT")

abbrev fresh : RouteParser
fresh = new_route_parser none default_route_config

resets : reset_route (parse_stsid fresh (replicate 10 0) 4).parser ≡ fresh
unfolding reset_route parse_stsid new_route_parser
resets = refl

segment_callbacks : (set_segment_callback fresh true).segment_callback ≡ true
unfolding set_segment_callback
segment_callbacks = refl
