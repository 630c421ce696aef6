-- ===== src/Route/Slt.antt =====
-- The service list table: `SltService`, `SltTable`, and the part of `RouteParser::parse_slt` that reads the
-- table. The pieces are in the order of the source.
use usrp_atsc.Common.{
  ℕ, zero, suc, ◌+◌, ◌-◌, ◌%◌, ◌^◌, ◌==◌, ltb, min, if◌then◌else◌, Bool, true, false, List, [], ◌∷◌,
  ◌++◌, length, take, drop, replicate, Option, none, some,
}
use usrp_atsc.Common.Maybe.{◌>>=◌}
use usrp_atsc.Catalog.Types.{Service, default_service}
use usrp_atsc.Route.Text.{ascii, c_string, stoul, find_tag, get_xml_attr}

-- What the reading of a document gives: the code returns false where it is short or has no root element;
-- an exception leaves the parser.
pub data Reading {ℓ} (A : Type ℓ) : Type ℓ where
  too_short no_root exception : Reading A
  document : A → Reading A

pub record SltService : Type 0 where
  pub service_id : ℕ
  pub slt_svc_seq_num : ℕ
  pub protected_service : Bool
  pub major_channel : ℕ
  pub minor_channel : ℕ
  pub service_category : ℕ
  pub short_name : List ℕ
  pub hidden : Bool
  pub broadcast_live : Bool
  pub source_ip : List ℕ
  pub dest_port : ℕ
  pub tsi : ℕ

pub record SltTable : Type 0 where
  pub version : ℕ
  pub bsid : ℕ
  pub services : List SltService
  pub valid : Bool

abbrev pub no_table : SltTable
no_table = record { version = 0; bsid = 0; services = []; valid = false }

-- A number attribute that may be left out, cast to an unsigned type of some bits.
unfoldable pub number_attr : List ℕ → List ℕ → ℕ → Option ℕ
unfolding get_xml_attr stoul
number_attr xml name width =
    let text = get_xml_attr xml name in
    if length text == 0 then some 0 else do n ← stoul text; some (n % 2 ^ width)

-- A text copied to an array of characters, of which the last stays for the NUL.
unfoldable pub copy_text : List ℕ → List ℕ → List ℕ
copy_text array text =
    let copy_len = min (length text) (length array - 1) in
    if length text == 0 then array else take copy_len text ++ (0 ∷ drop (copy_len + 1) array)

-- The address of the ROUTE session, where the element `BroadcastSvcSignaling` is found.
unfoldable pub route_source : List ℕ → Option (List ℕ × ℕ)
unfolding find_tag get_xml_attr copy_text number_attr
route_source service_start = elim (find_tag service_start (ascii "BroadcastSvcSignaling")) [
  | none ↦ some (replicate 64 0, 0)
  | some bss ↦ do
    dest_port ← number_attr bss (ascii "slsDestinationUdpPort") 16
    some (copy_text (replicate 64 0) (get_xml_attr bss (ascii "slsSourceIpAddress")), dest_port)
]

-- The body of the loop for a service with a number. `none` is an exception.
unfoldable pub read_service : List ℕ → Option SltService
unfolding number_attr copy_text get_xml_attr route_source
read_service service_start = do
  service_id ← number_attr service_start (ascii "serviceId") 16
  major_channel ← number_attr service_start (ascii "majorChannelNo") 16
  minor_channel ← number_attr service_start (ascii "minorChannelNo") 16
  service_category ← number_attr service_start (ascii "serviceCategory") 8
  let name = get_xml_attr service_start (ascii "shortServiceName")
  source ← route_source service_start
  some (record {
    service_id = service_id;
    slt_svc_seq_num = 0;
    protected_service = false;
    major_channel = major_channel;
    minor_channel = minor_channel;
    service_category = service_category;
    short_name = copy_text (replicate 64 0) name;
    hidden = false;
    broadcast_live = false;
    source_ip = source.0;
    dest_port = source.1;
    tsi = 0;
  })

-- The values of `service_start` in the rounds of the loop. Each is a shorter text than the one before, so
-- that a round for each byte is enough.
unfoldable pub service_starts : ℕ → List ℕ → List (List ℕ)
unfolding find_tag
service_starts zero start = []
service_starts (suc n) start = elim (find_tag (drop 1 start) (ascii "Service")) [
  | none ↦ []
  | some next ↦ next ∷ service_starts n next
]

-- The rounds of the loop. A service without a number is passed over.
unfoldable pub read_services : List (List ℕ) → Option (List SltService)
unfolding read_service get_xml_attr
read_services [] = some []
read_services (start ∷ starts) =
    let rest = read_services starts in
    if length (get_xml_attr start (ascii "serviceId")) == 0
    then rest
    else do service ← read_service start; services ← rest; some (service ∷ services)

unfoldable pub read_table : List ℕ → Option SltTable
unfolding number_attr service_starts read_services
read_table slt_start = do
  bsid ← number_attr slt_start (ascii "bsid") 16
  version ← number_attr slt_start (ascii "version") 8
  services ← read_services (service_starts (length slt_start) slt_start)
  some (record { version = version; bsid = bsid; services = services; valid = true })

unfoldable pub read_slt : List ℕ → Reading SltTable
unfolding c_string find_tag read_table
read_slt payload =
    if ltb (length payload) 10
    then too_short
    else elim (find_tag (c_string payload) (ascii "SLT")) [
      | none ↦ no_root
      | some slt_start ↦ elim (read_table slt_start) [ none ↦ exception | some slt ↦ document slt ]
    ]

-- `slt_to_service`
unfoldable pub slt_to_service : SltService → Service
slt_to_service svc = record default_service {
  service_id = svc.service_id;
  major_channel = svc.major_channel;
  minor_channel = svc.minor_channel;
  service_category = svc.service_category;
  protected_service = svc.protected_service;
  slt_svc_seq_num = svc.slt_svc_seq_num;
  short_name = svc.short_name;
  valid = true;
}
