-- ===== src/Route/Lct/RoundTrip.antt =====
-- `RouteParser::parse_lct_header` gives back the fields of a header that is written out.
use usrp_atsc.Common.{
  ℕ, ◌+◌, ◌*◌, ◌/◌, ◌%◌, ◌^◌, ◌≤◌, ◌≡◌, refl, ap, ◌∙◌, arith, ◌==◌, ltb, if◌then◌else◌, if-false,
  false, List, ◌∷◌, ◌++◌, length, length-append, Option, none, some,
}
use usrp_atsc.Common.Maybe.{◌>>=◌, bind-next}
use usrp_atsc.Route.Lct.{LctHeader, base_header, min_header, read_fields, parse_lct_header}
use usrp_atsc.Route.Lct.Written.{
  LctFields, IsLct, base_of, header_of, write_cci, write_tsi, write_toi, write_lct, write_cci-size,
  write_tsi-size, write_toi-size, read_fields-write,
}

base_header-base_of :
    (f : LctFields)
    → IsLct f
    → base_header
        (16 + f.c * 4 + f.psi)
        (f.s * 128 + f.o * 32 + f.h * 16 + f.a * 2 + f.b)
        f.header_length
        f.codepoint
      ≡ base_of f
unfolding base_header
base_header-base_of f k =
    let e1 : (16 + f.c * 4 + f.psi) / 2 ^ 4 % 16 ≡ 1 = omega (arith, k.c_small, k.psi_small) in
    let e2 : (16 + f.c * 4 + f.psi) / 2 ^ 2 % 4 ≡ f.c = omega (arith, k.c_small, k.psi_small) in
    let e3 : (16 + f.c * 4 + f.psi) % 4 ≡ f.psi = omega (arith, k.c_small, k.psi_small) in
    let e4 : (f.s * 128 + f.o * 32 + f.h * 16 + f.a * 2 + f.b) / 2 ^ 7 % 2 ≡ f.s =
      omega (arith, k) in
    let e5 : (f.s * 128 + f.o * 32 + f.h * 16 + f.a * 2 + f.b) / 2 ^ 5 % 4 ≡ f.o =
      omega (arith, k) in
    let e6 : (f.s * 128 + f.o * 32 + f.h * 16 + f.a * 2 + f.b) / 2 ^ 4 % 2 ≡ f.h =
      omega (arith, k) in
    let e7 : (f.s * 128 + f.o * 32 + f.h * 16 + f.a * 2 + f.b) / 2 % 2 ≡ f.a = omega (arith, k) in
    let e8 : (f.s * 128 + f.o * 32 + f.h * 16 + f.a * 2 + f.b) % 2 ≡ f.b = omega (arith, k) in
    rw (e1, e2, e3, e4, e5, e6, e7, e8)

write_lct-long :
    (f : LctFields) (payload : List ℕ) → min_header (base_of f) ≤ length (write_lct f payload)
unfolding min_header
write_lct-long f payload = omega (
  arith,
  length-append (write_cci f) (write_tsi f ++ (write_toi f ++ payload)),
  length-append (write_tsi f) (write_toi f ++ payload),
  length-append (write_toi f) payload,
  write_cci-size f,
  write_tsi-size f,
  write_toi-size f,
)

-- What follows the first four bytes.
abbrev rest_of : List ℕ → LctHeader → Option (Option LctHeader)
rest_of packet h =
    if h.version == 1
    then (if ltb (length packet) (min_header h)
        then some none
        else (do header ← read_fields packet h; some (some header)))
    else some none

rest_of-base_of :
    (f : LctFields) (payload : List ℕ)
    → rest_of (write_lct f payload) (base_of f) ≡ some (some (header_of f))
rest_of-base_of f payload =
    let long : ltb (length (write_lct f payload)) (min_header (base_of f)) ≡ false =
      ground (arith, write_lct-long f payload) in
    if-false _ _ long
    ∙ bind-next _ _ _ _ (read_fields-write (write_lct f payload) f payload refl) refl

parse_lct_header-four :
    (b0 b1 b2 b3 : ℕ) (tail : List ℕ)
    → parse_lct_header (b0 ∷ b1 ∷ b2 ∷ b3 ∷ tail)
      ≡ rest_of (b0 ∷ b1 ∷ b2 ∷ b3 ∷ tail) (base_header b0 b1 b2 b3)
unfolding parse_lct_header
parse_lct_header-four b0 b1 b2 b3 tail =
    let long : ltb (length (b0 ∷ b1 ∷ b2 ∷ b3 ∷ tail)) 4 ≡ false = ground arith in if-false _ _ long

-- For fields in the range of their bits, the parser gives back the header that is written out before a
-- payload: the flags, the values that the flags announce and 0 for the others, and as size of the header the
-- larger one of four times the length field and of what is written.
pub parse_lct_header-write_lct :
    (f : LctFields) (payload : List ℕ)
    → IsLct f
    → parse_lct_header (write_lct f payload) ≡ some (some (header_of f))
parse_lct_header-write_lct f payload k =
    parse_lct_header-four _ _ _ _ _
    ∙ ap (rest_of (write_lct f payload)) (base_header-base_of f k)
    ∙ rest_of-base_of f payload
