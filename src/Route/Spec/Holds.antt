-- ===== src/Route/Spec/Holds.antt =====
-- A `RouteParser` that holds what it promises, and the documents that it stores.
use usrp_atsc.Common.{
  ℕ, ◌%◌, ◌^◌, ◌≡◌, refl, sym, ap, ◌∙◌, arith, ◌==◌, ltb, if◌then◌else◌, if-case, Bool, true, false,
  ◌||◌, List, [], ◌∷◌, length, some,
}
use mathlib.Core.Path.{subst}
use mathlib.Core.Option
use usrp_atsc.Catalog.{ServiceCatalog, update_service}
use usrp_atsc.Catalog.Keeps.{Keeps}
use usrp_atsc.Catalog.Refine.{runs}
use usrp_atsc.Catalog.Spec.{call_catalog, run_catalog, run_spec}
use usrp_atsc.Route.Lct.{LctHeader}
use usrp_atsc.Route.Slt.{
  Reading, too_short, no_root, exception, document, SltService, SltTable, read_slt, slt_to_service,
}
use usrp_atsc.Route.Mpd.{MpdInfo, read_mpd}
use usrp_atsc.Route.Process.{
  RouteParser, RouteOutcome, find_mpd, cache_mpd, update_services, store_table, take_slt, take_mpd,
  parse_slt, parse_stsid, store_mpd, parse_mpd, slt_toi, stsid_toi, mpd_toi, lls_codepoint,
  handle_payload,
}
use usrp_atsc.Route.Spec.{
  RouteSpec, Signal, table_signal, mpd_signal, signal_in, updates, signal_spec,
}

update_services-run_catalog :
    (c : ServiceCatalog) (svcs : List SltService)
    → update_services c svcs ≡ (run_catalog c (updates svcs)).1
unfolding update_services run_catalog call_catalog
update_services-run_catalog c [] = refl
update_services-run_catalog c (svc ∷ svcs) =
    update_services-run_catalog (update_service c (slt_to_service svc)).catalog svcs

find_mpd-cache_mpd :
    (cache : List (ℕ × MpdInfo)) (id : ℕ) (mpd : MpdInfo) (key : ℕ)
    → find_mpd (cache_mpd cache id mpd) key ≡ (if id == key then some mpd else find_mpd cache key)
unfolding find_mpd cache_mpd
find_mpd-cache_mpd [] id mpd key = refl
find_mpd-cache_mpd ((k, old) ∷ rest) id mpd key = ground (arith, find_mpd-cache_mpd rest id mpd key)

-- A parser holds what it promises.
pub record Holds (r : RouteParser) (m : RouteSpec) : Type 0 where
  pub stored : ServiceCatalog
  pub has_catalog : r.catalog ≡ some stored
  pub keeps : Keeps stored m.services
  pub mpds : (id : ℕ) → find_mpd r.mpd_cache id ≡ m.mpds id
  pub table : r.current_slt ≡ m.table

Holds-store_table :
    (r : RouteParser) (m : RouteSpec) (slt : SltTable)
    → Holds r m
    → Holds (store_table r slt) (signal_spec m (Signal.new_table slt))
unfolding store_table signal_spec
Holds-store_table r m slt k = record {
  stored = update_services k.stored slt.services;
  has_catalog = ap (Option.map (λ c. update_services c slt.services)) k.has_catalog;
  keeps =
      subst (λ c. Keeps c (run_spec m.services (updates slt.services)).1)
        (sym (update_services-run_catalog k.stored slt.services))
        (runs k.stored m.services (updates slt.services) k.keeps).1;
  mpds = k.mpds;
  table = refl;
}

Holds-store_mpd :
    (r : RouteParser) (m : RouteSpec) (id : ℕ) (mpd : MpdInfo)
    → Holds r m
    → Holds (store_mpd r id mpd) (signal_spec m (Signal.new_mpd id mpd))
unfolding store_mpd signal_spec
Holds-store_mpd r m id mpd k = record {
  stored = k.stored;
  has_catalog = k.has_catalog;
  keeps = k.keeps;
  mpds = λ key.
      find_mpd-cache_mpd r.mpd_cache id mpd key
      ∙ ap (λ o. if id == key then some mpd else o) (k.mpds key);
  table = k.table;
}

-- A change of the counters.
pub Holds-stats :
    (r r' : RouteParser) (m : RouteSpec)
    → r'.catalog ≡ r.catalog
    → r'.mpd_cache ≡ r.mpd_cache
    → r'.current_slt ≡ r.current_slt
    → Holds r m
    → Holds r' m
Holds-stats r r' m c cache slt k = record {
  stored = k.stored;
  has_catalog = c ∙ k.has_catalog;
  keeps = k.keeps;
  mpds = λ id. ap (λ t. find_mpd t id) cache ∙ k.mpds id;
  table = slt ∙ k.table;
}

module _ (r : RouteParser) (m : RouteSpec) (k : Holds r m) where
  pub Holds-nothing : Holds r (signal_spec m Signal.nothing)
  unfolding signal_spec
  Holds-nothing = k

  take_slt-Holds :
      (reading : Reading SltTable)
      → Holds (take_slt r reading).parser (signal_spec m (table_signal reading))
  unfolding take_slt
  take_slt-Holds too_short = Holds-nothing
  take_slt-Holds no_root = Holds-stats r _ _ refl refl refl Holds-nothing
  take_slt-Holds exception = Holds-nothing
  take_slt-Holds (document slt) = Holds-store_table r m slt k

  take_mpd-Holds :
      (id : ℕ) (reading : Reading MpdInfo)
      → Holds (take_mpd r id reading).parser (signal_spec m (mpd_signal id reading))
  unfolding take_mpd
  take_mpd-Holds id too_short = Holds-nothing
  take_mpd-Holds id no_root = Holds-stats r _ _ refl refl refl Holds-nothing
  take_mpd-Holds id exception = Holds-nothing
  take_mpd-Holds id (document mpd) = Holds-store_mpd r m id mpd k

  parse_stsid-Holds :
      (payload : List ℕ) (id : ℕ)
      → Holds (parse_stsid r payload id).parser (signal_spec m Signal.nothing)
  unfolding parse_stsid
  parse_stsid-Holds payload id =
      if-case (λ (o : RouteOutcome). Holds o.parser (signal_spec m Signal.nothing))
        (ltb (length payload) 10) (λ t. Holds-nothing)
        (λ t. Holds-stats r _ _ refl refl refl Holds-nothing)

  -- Both sides make the same choice.
  pub if-Holds :
      (b : Bool) (o p : RouteOutcome) (s t : Signal)
      → Holds o.parser (signal_spec m s)
      → Holds p.parser (signal_spec m t)
      → Holds (if b then o else p).parser (signal_spec m (if b then s else t))
  if-Holds true o p s t x y = x
  if-Holds false o p s t x y = y

  pub handle_payload-Holds :
      (header : LctHeader) (payload : List ℕ)
      → Holds (handle_payload r header payload).parser (signal_spec m (signal_in header payload))
  unfolding handle_payload signal_in parse_slt parse_mpd
  handle_payload-Holds header payload =
      if-Holds (header.toi == slt_toi || header.codepoint == lls_codepoint) _ _ _ _
        (take_slt-Holds (read_slt payload))
        (if-Holds (header.toi == stsid_toi) _ _ _ _
          (parse_stsid-Holds payload (header.tsi % 2 ^ 16))
          (if-Holds (header.toi == mpd_toi) _ _ _ _
            (take_mpd-Holds (header.tsi % 2 ^ 16) (read_mpd payload)) Holds-nothing))
