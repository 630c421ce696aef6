-- ===== src/Route/Spec/Refine.antt =====
-- `RouteParser` with its catalog refines what it promises.
use usrp_atsc.Common.{
  ℕ, ◌≡◌, refl, sym, ap, ◌∙◌, arith, ◌==◌, ltb, leb, if-true, if-false, if-case, true, false,
  Bool-cases, inl, inr, List, [], ◌∷◌, length, drop, Option, none, some,
}
use mathlib.Core.Path.{subst}
use usrp_atsc.Common.Maybe.{bind-next}
use usrp_atsc.Catalog.{ServiceCatalog, new_catalog, find_service}
use usrp_atsc.Catalog.Table.{find_service-catalog_of}
use usrp_atsc.Catalog.Refine.{Keeps-new}
use usrp_atsc.Route.Lct.{LctHeader, parse_lct_header}
use usrp_atsc.Route.Lct.Bounds.{parse_lct_header-IsDefined}
use usrp_atsc.Route.Process.{
  RouteParser, RouteParserConfig, RouteOutcome, new_route_parser, find_mpd, get_mpd, take_header,
  returns, lct_parsed, process_lct_packet, process_signaling,
}
use usrp_atsc.Route.Spec.{
  RouteSpec, Signal, signal_after, signal_parsed, signal_of, signal_spec, empty_route, run_packets,
  process_packets,
}
use usrp_atsc.Route.Spec.Holds.{Holds, Holds-stats, Holds-nothing, if-Holds, handle_payload-Holds}

take_header-Holds :
    (r : RouteParser) (m : RouteSpec) (packet : List ℕ) (parsed : Option LctHeader)
    → Holds r m
    → Holds (take_header r packet parsed).parser (signal_spec m (signal_after packet parsed))
unfolding take_header
take_header-Holds r m packet none k = Holds-stats r _ _ refl refl refl (Holds-nothing r m k)
take_header-Holds r m packet (some header) k =
    let counted : Holds (lct_parsed r) m = Holds-stats r _ _ refl refl refl k in
    if-Holds (lct_parsed r) m counted (leb (length packet) header.header_bytes) _ _ _ _
      (Holds-nothing (lct_parsed r) m counted)
      (handle_payload-Holds (lct_parsed r) m counted header (drop header.header_bytes packet))

signal_of-short :
    (packet : List ℕ) → ltb (length packet) 4 ≡ true → signal_of packet ≡ Signal.nothing
unfolding signal_of parse_lct_header
signal_of-short packet short = ap (signal_parsed packet) (if-true _ _ short)

signal_of-parsed :
    (packet : List ℕ) (parsed : Option LctHeader)
    → parse_lct_header packet ≡ some parsed
    → signal_of packet ≡ signal_after packet parsed
unfolding signal_of
signal_of-parsed packet parsed e = ap (signal_parsed packet) e

-- Every packet is processed without a read behind its end.
process_signaling-Holds :
    (r : RouteParser) (m : RouteSpec) (packet : List ℕ)
    → Holds r m
    → (o : RouteOutcome) × (process_signaling r packet ≡ some o)
      × Holds o.parser (signal_spec m (signal_of packet))
unfolding process_signaling process_lct_packet
process_signaling-Holds r m packet k = elim (Bool-cases (ltb (length packet) 4)) [
  | inl short ↦ (
    returns false r,
    if-case (λ t. t ≡ some (returns false r)) (length packet == 0) (λ t. refl)
        (λ t. if-true _ _ short),
    subst (λ t. Holds r (signal_spec m t)) (sym (signal_of-short packet short))
        (Holds-nothing r m k),
  )
  | inr long ↦
      let (parsed, e) = parse_lct_header-IsDefined packet in
      let some_bytes : (length packet == 0) ≡ false = ground (arith, long) in
      (
        take_header r packet parsed,
        if-false _ _ some_bytes ∙ if-false _ _ long ∙ bind-next _ _ _ _ e refl,
        subst (λ t. Holds (take_header r packet parsed).parser (signal_spec m t))
            (sym (signal_of-parsed packet parsed e)) (take_header-Holds r m packet parsed k),
      )
]

process_packets-Holds :
    (r : RouteParser) (m : RouteSpec) (packets : List (List ℕ))
    → Holds r m
    → (end : RouteParser) × (process_packets r packets ≡ some end)
      × Holds end (run_packets m packets)
unfolding process_packets run_packets
process_packets-Holds r m [] k = (r, refl, k)
process_packets-Holds r m (packet ∷ packets) k =
    let (o, e, next) = process_signaling-Holds r m packet k in
    let (end, e', last) =
      process_packets-Holds o.parser (signal_spec m (signal_of packet)) packets next in
    (end, bind-next _ _ _ _ e e', last)

Holds-new :
    (config : RouteParserConfig) → Holds (new_route_parser (some new_catalog) config) empty_route
unfolding new_route_parser find_mpd
Holds-new config = record {
  stored = new_catalog;
  has_catalog = refl;
  keeps = Keeps-new;
  mpds = λ id. refl;
  table = refl;
}

-- A new parser with a new catalog processes every sequence of packets without a read behind the end of
-- one, whether calls return or throw. It then holds a catalog in which `find_service` finds the entries of
-- the map that the services of the tables received make, and which counts as many services as the
-- map has; `get_mpd` gives the last document received for a service, and `current_slt` is the last table.
pub process_packets-run_packets :
    (config : RouteParserConfig) (packets : List (List ℕ))
    → (end : RouteParser) × (c : ServiceCatalog) × (process_packets
          (new_route_parser (some new_catalog) config)
          packets
        ≡ some end)
      × (end.catalog ≡ some c)
      × ((id : ℕ) → find_service c id ≡ (run_packets empty_route packets).services.entry id)
      × (c.num_services ≡ (run_packets empty_route packets).services.size)
      × ((id : ℕ) → get_mpd end id ≡ (run_packets empty_route packets).mpds id)
      × (end.current_slt ≡ (run_packets empty_route packets).table)
unfolding get_mpd
process_packets-run_packets config packets =
    let (end, e, k) =
      process_packets-Holds (new_route_parser (some new_catalog) config) empty_route packets
        (Holds-new config) in
    let t = k.keeps in
    (
      end,
      k.stored,
      e,
      k.has_catalog,
      λ id.
          ap (λ c. find_service c id) t.form
          ∙ find_service-catalog_of t.stored t.spare t.callback id
          ∙ t.entries id,
      ap (λ c. c.num_services) t.form ∙ t.size,
      k.mpds,
      k.table,
    )
