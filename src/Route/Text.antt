-- ===== src/Route/Text.antt =====
-- The functions of the C library that lib/framing/route_parser.cc calls, `std::stoul`, and the helpers
-- `find_tag`, `get_xml_attr` and `get_xml_element`.
use usrp_atsc.Common.{
  ℕ, zero, suc, ◌+◌, ◌-◌, ◌*◌, ◌%◌, ◌^◌, ◌==◌, ltb, leb, if◌then◌else◌, Bool, true, false, ◌&&◌,
  ◌||◌, List, [], ◌∷◌, ◌++◌, length, get_or, take, drop, Option, none, some,
}
use mathlib.Core.Option
use Prim.Native.Char.{code}
use Prim.Native.String.{String}

-- The bytes of a literal of the source, in ASCII.
abbrev pub ascii : String → List ℕ
ascii String.[] = []
ascii (String.◌∷◌ c rest) = code c ∷ ascii rest

-- `std::string::c_str`, as far as the functions below read it.
unfoldable pub c_string : List ℕ → List ℕ
c_string [] = []
c_string (c ∷ cs) = let rest = c_string cs in if c == 0 then [] else c ∷ rest

-- The text begins with the needle.
unfoldable pub starts_with : List ℕ → List ℕ → Bool
starts_with text [] = true
starts_with [] (n ∷ needle) = false
starts_with (c ∷ cs) (n ∷ needle) = (c == n) && starts_with cs needle

unfoldable pub strstr : List ℕ → List ℕ → Option (List ℕ)
unfolding starts_with
strstr [] needle = if starts_with [] needle then some [] else none
strstr (c ∷ cs) needle =
    let rest = strstr cs needle in if starts_with (c ∷ cs) needle then some (c ∷ cs) else rest

-- For a character that is not NUL.
unfoldable pub strchr : List ℕ → ℕ → Option (List ℕ)
strchr [] c = none
strchr (d ∷ ds) c = let rest = strchr ds c in if d == c then some (d ∷ ds) else rest

-- The bytes from a pointer to a later one.
abbrev pub between : List ℕ → List ℕ → List ℕ
between start end = take (length start - length end) start

-- `std::stoul` with base 10. `none` is an exception: no digits, or a value beyond 64 bits.
abbrev is_space : ℕ → Bool
is_space c = c == 32 || (leb 9 c && leb c 13)

abbrev is_digit : ℕ → Bool
is_digit c = leb 48 c && leb c 57

skip_spaces : List ℕ → List ℕ
skip_spaces [] = []
skip_spaces (c ∷ cs) = let rest = skip_spaces cs in if is_space c then rest else c ∷ cs

leading_digits : List ℕ → List ℕ
leading_digits [] = []
leading_digits (c ∷ cs) = let rest = leading_digits cs in if is_digit c then c ∷ rest else []

digits_value : ℕ → List ℕ → ℕ
digits_value acc [] = acc
digits_value acc (c ∷ cs) = digits_value (acc * 10 + (c - 48)) cs

unsigned : List ℕ → Option ℕ
unfolding leading_digits digits_value
unsigned text =
    let digits = leading_digits text in
    let value = digits_value 0 digits in
    if length digits == 0 then none else if ltb value (2 ^ 64) then some value else none

abbrev signed : List ℕ → Option ℕ
signed [] = none
signed (c ∷ cs) =
    if c == b'-'
    then Option.map (λ n. (2 ^ 64 - n) % 2 ^ 64) (unsigned cs)
    else if c == b'+'
    then unsigned cs
    else unsigned (c ∷ cs)

unfoldable pub stoul : List ℕ → Option ℕ
unfolding skip_spaces unsigned
stoul text = signed (skip_spaces text)

-- The bytes that may follow the name of a tag.
unfoldable pub ends_name : ℕ → Bool
ends_name c = c == b' ' || c == b'\t' || c == b'\n' || c == b'>' || c == b'/' || c == b'\r'

-- `find_tag`. Each call of itself has a shorter text, so that a round for each byte and one more is
-- enough. The byte behind the name is the NUL where the text ends there.
unfoldable pub find_tag_loop : ℕ → List ℕ → List ℕ → Option (List ℕ)
unfolding strstr ends_name
find_tag_loop zero xml name = none
find_tag_loop (suc n) xml name = elim (strstr xml (b'<' ∷ name)) [
  | none ↦ none
  | some found ↦
      let again = find_tag_loop n (drop 1 found) name in
      if ends_name (get_or found (length name + 1) 0) then some found else again
]

unfoldable pub find_tag : List ℕ → List ℕ → Option (List ℕ)
unfolding find_tag_loop
find_tag xml name = find_tag_loop (length xml + 1) xml name

-- `get_xml_attr`
abbrev after : List ℕ → List ℕ → Option (List ℕ)
after xml search = Option.map (drop (length search)) (strstr xml search)

abbrev up_to : ℕ → List ℕ → List ℕ
up_to quote value = elim (strchr value quote) [ none ↦ [] | some end ↦ between value end ]

unfoldable pub get_xml_attr : List ℕ → List ℕ → List ℕ
unfolding strstr strchr
get_xml_attr xml name = elim (after xml (name ++ ascii "=\"")) [
  | some value ↦ up_to b'"' value
  | none ↦ elim (after xml (name ++ ascii "='")) [ some value ↦ up_to b'\'' value | none ↦ [] ]
]

-- `get_xml_element`
unfoldable pub get_xml_element : List ℕ → List ℕ → List ℕ
unfolding strstr strchr
get_xml_element xml name = elim (strstr xml (b'<' ∷ name)) [
  | none ↦ []
  | some tag ↦ elim (strchr tag b'>') [
    | none ↦ []
    | some close ↦
        let content = drop 1 close in
        elim (strstr content (ascii "</" ++ name ++ ascii ">")) [
          | none ↦ []
          | some end ↦ between content end
        ]
  ]
]
