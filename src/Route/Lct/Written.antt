-- ===== src/Route/Lct/Written.antt =====
-- An LCT header that is written out, and the reads of `RouteParser::parse_lct_header` on it.
use usrp_atsc.Common.{
  ℕ, zero, suc, ◌+◌, ◌*◌, ◌/◌, ◌%◌, ◌^◌, ◌<◌, ◌≡◌, refl, sym, ap, ◌∙◌, arith, ◌==◌, ltb,
  if◌then◌else◌, if-true, if-false, Bool-cases, inl, inr, true, false, List, [], ◌∷◌, ◌++◌, length,
  get_elem?, drop, drop-add, drop-length-append, replicate, some,
}
use usrp_atsc.Common.Maybe.{bind-next}
use usrp_atsc.Route.Lct.{
  LctHeader, cci_size, tsi_size, toi_size, min_header, read_16, read_32, read_cci, read_tsi,
  read_toi, read_fields,
}

-- The fields of a header of version 1. A value whose flags are 0 is not written.
pub record LctFields : Type 0 where
  pub c : ℕ
  pub psi : ℕ
  pub s : ℕ
  pub o : ℕ
  pub h : ℕ
  pub a : ℕ
  pub b : ℕ
  pub header_length : ℕ
  pub codepoint : ℕ
  pub cci : ℕ
  pub tsi : ℕ
  pub toi : ℕ

pub record IsLct (f : LctFields) : Type 0 where
  pub c_small : f.c < 4
  pub psi_small : f.psi < 4
  pub s_small : f.s < 2
  pub o_small : f.o < 4
  pub h_small : f.h < 2
  pub a_small : f.a < 2
  pub b_small : f.b < 2

-- The header as its first four bytes say it.
abbrev pub base_of : LctFields → LctHeader
base_of f = record {
  version = 1;
  congestion_control = f.c;
  psr = f.psi;
  transport_session_id_flag = f.s;
  transport_object_id_flag = f.o;
  half_word_flag = f.h;
  close_session_flag = f.a;
  close_object_flag = f.b;
  header_length = f.header_length;
  codepoint = f.codepoint;
  congestion_control_info = 0;
  tsi = 0;
  toi = 0;
  sct_present = false;
  sender_current_time = 0;
  elt_present = false;
  expected_transfer_length = 0;
  header_bytes = 0;
}

abbrev pub header_of : LctFields → LctHeader
header_of f =
    let size = min_header (base_of f) in
    record (base_of f) {
      congestion_control_info = if ltb 0 f.c then f.cci else 0;
      tsi = if f.s == 1 then f.tsi else 0;
      toi = if ltb 0 f.o then f.toi else 0;
      header_bytes = if ltb (f.header_length * 4) size then size else f.header_length * 4;
    }

abbrev bytes_16 : ℕ → List ℕ
bytes_16 v = v / 2 ^ 8 ∷ v % 2 ^ 8 ∷ []

abbrev bytes_32 : ℕ → List ℕ
bytes_32 v = v / 2 ^ 24 ∷ v / 2 ^ 16 % 2 ^ 8 ∷ v / 2 ^ 8 % 2 ^ 8 ∷ v % 2 ^ 8 ∷ []

abbrev pub write_cci : LctFields → List ℕ
write_cci f = if ltb 0 f.c then bytes_32 f.cci else []

abbrev pub write_tsi : LctFields → List ℕ
write_tsi f = if f.s == 1 then (if f.h == 1 then bytes_16 f.tsi else bytes_32 f.tsi) else []

-- The bytes of a longer object identifier behind the first four are zeros.
abbrev pub write_toi : LctFields → List ℕ
write_toi f =
    if f.o == 0
    then []
    else if f.o == 1
    then (if f.h == 1 then bytes_16 f.toi else bytes_32 f.toi)
    else if f.o == 2
    then (if f.h == 1 then bytes_32 f.toi else bytes_32 f.toi ++ replicate 4 0)
    else (if f.h == 1 then bytes_32 f.toi ++ replicate 2 0 else bytes_32 f.toi ++ replicate 8 0)

abbrev pub write_lct : LctFields → List ℕ → List ℕ
write_lct f payload =
    (16 + f.c * 4 + f.psi)
    ∷ (f.s * 128 + f.o * 32 + f.h * 16 + f.a * 2 + f.b)
    ∷ f.header_length
    ∷ f.codepoint
    ∷ (write_cci f ++ (write_tsi f ++ (write_toi f ++ payload)))

drop-next :
    (xs : List ℕ) (i x : ℕ) (rest : List ℕ)
    → drop i xs ≡ x ∷ rest
    → (get_elem? xs i ≡ some x) × (drop (i + 1) xs ≡ rest)
drop-next [] zero x rest e = absurd cc
drop-next [] (suc i) x rest e = absurd cc
drop-next (y ∷ ys) zero x rest e = (cc, cc)
drop-next (y ∷ ys) (suc i) x rest e =
    let (got, next) = drop-next ys i x rest e in
    let q : suc i + 1 ≡ suc (i + 1) = omega arith in (got, ap (λ k. drop k (y ∷ ys)) q ∙ next)

drop-written :
    (xs : List ℕ) (i n : ℕ) (field rest : List ℕ)
    → drop i xs ≡ field ++ rest
    → length field ≡ n
    → drop (i + n) xs ≡ rest
drop-written xs i n field rest e size =
    drop-add i n xs
    ∙ ap (drop n) e
    ∙ ap (λ k. drop k (field ++ rest)) (sym size)
    ∙ drop-length-append field rest

pub write_cci-size : (f : LctFields) → length (write_cci f) ≡ cci_size (base_of f)
unfolding cci_size
write_cci-size f = ground arith

pub write_tsi-size : (f : LctFields) → length (write_tsi f) ≡ tsi_size (base_of f)
unfolding tsi_size
write_tsi-size f = ground arith

pub write_toi-size : (f : LctFields) → length (write_toi f) ≡ toi_size (base_of f)
unfolding toi_size
write_toi-size f = ground arith

-- A longer object identifier begins with its four bytes.
longer :
    (f : LctFields) (rest : List ℕ)
    → (f.o == 0) ≡ false
    → (f.o == 1) ≡ false
    → (rest' : List ℕ) × (write_toi f ++ rest ≡ bytes_32 f.toi ++ rest')
longer f rest z m = elim (Bool-cases (f.o == 2)) [
  | inl two ↦ elim (Bool-cases (f.h == 1)) [
    | inl half ↦ (rest, rw (z, m, two, half))
    | inr full ↦ (replicate 4 0 ++ rest, rw (z, m, two, full))
  ]
  | inr three ↦ elim (Bool-cases (f.h == 1)) [
    | inl half ↦ (replicate 2 0 ++ rest, rw (z, m, three, half))
    | inr full ↦ (replicate 8 0 ++ rest, rw (z, m, three, full))
  ]
]

module _ (xs : List ℕ) where
  read_16-bytes_16 :
      (i v : ℕ) (rest : List ℕ) → drop i xs ≡ bytes_16 v ++ rest → read_16 xs i ≡ some v
  unfolding read_16
  read_16-bytes_16 i v rest e =
      let (a, next) = drop-next xs i _ _ e in
      let (b, _) = drop-next xs (i + 1) _ _ next in
      bind-next _ _ _ _ a (bind-next _ _ _ _ b (ap some (omega arith)))

  read_32-bytes_32 :
      (i v : ℕ) (rest : List ℕ) → drop i xs ≡ bytes_32 v ++ rest → read_32 xs i ≡ some v
  unfolding read_32
  read_32-bytes_32 i v rest e =
      let (a, next) = drop-next xs i _ _ e in
      let (b, next2) = drop-next xs (i + 1) _ _ next in
      let q : i + 1 + 1 ≡ i + 2 = omega arith in
      let (c, next3) = drop-next xs (i + 2) _ _ (ap (λ k. drop k xs) (sym q) ∙ next2) in
      let r : i + 2 + 1 ≡ i + 3 = omega arith in
      let (d, _) = drop-next xs (i + 3) _ _ (ap (λ k. drop k xs) (sym r) ∙ next3) in
      bind-next _ _ _ _ a
        (bind-next _ _ _ _ b (bind-next _ _ _ _ c (bind-next _ _ _ _ d (ap some (omega arith)))))

  read_cci-write_cci :
      (f : LctFields) (i : ℕ) (rest : List ℕ)
      → drop i xs ≡ write_cci f ++ rest
      → read_cci xs (base_of f) i ≡ some (header_of f).congestion_control_info
  unfolding read_cci
  read_cci-write_cci f i rest e = elim (Bool-cases (ltb 0 f.c)) [
    | inl on ↦
        if-true _ _ on
        ∙ read_32-bytes_32 i f.cci rest (e ∙ ap (λ t. t ++ rest) (if-true _ _ on))
        ∙ ap some (sym (if-true _ _ on))
    | inr off ↦ if-false _ _ off ∙ ap some (sym (if-false _ _ off))
  ]

  read_tsi-write_tsi :
      (f : LctFields) (i : ℕ) (rest : List ℕ)
      → drop i xs ≡ write_tsi f ++ rest
      → read_tsi xs (base_of f) i ≡ some (header_of f).tsi
  unfolding read_tsi
  read_tsi-write_tsi f i rest e = elim (Bool-cases (f.s == 1)) [
    | inl on ↦ elim (Bool-cases (f.h == 1)) [
      | inl half ↦ rw (on, half) (read_16-bytes_16 i f.tsi rest (e ∙ rw (on, half)))
      | inr full ↦ rw (on, full) (read_32-bytes_32 i f.tsi rest (e ∙ rw (on, full)))
    ]
    | inr off ↦ rw off
  ]

  read_toi-write_toi :
      (f : LctFields) (i : ℕ) (rest : List ℕ)
      → drop i xs ≡ write_toi f ++ rest
      → read_toi xs (base_of f) i ≡ some (header_of f).toi
  unfolding read_toi
  read_toi-write_toi f i rest e = elim (Bool-cases (f.o == 0)) [
    | inl absent ↦ let off : ltb 0 f.o ≡ false = ground (arith, absent) in rw off
    | inr present ↦
        let on : ltb 0 f.o ≡ true = ground (arith, present) in
        elim (Bool-cases (f.o == 1)) [
          | inl one ↦ elim (Bool-cases (f.h == 1)) [
            | inl half ↦
                rw (on, one, half) (read_16-bytes_16 i f.toi rest (e ∙ rw (present, one, half)))
            | inr full ↦
                rw (on, one, full) (read_32-bytes_32 i f.toi rest (e ∙ rw (present, one, full)))
          ]
          | inr more ↦
              let (rest', q) = longer f rest present more in
              rw (on, more) (read_32-bytes_32 i f.toi rest' (e ∙ q))
        ]
  ]

  pub read_fields-write :
      (f : LctFields) (payload : List ℕ)
      → drop 4 xs ≡ write_cci f ++ (write_tsi f ++ (write_toi f ++ payload))
      → read_fields xs (base_of f) ≡ some (header_of f)
  unfolding read_fields min_header
  read_fields-write f payload e =
      let e2 = drop-written xs 4 (cci_size (base_of f)) _ _ e (write_cci-size f) in
      let e3 =
        drop-written xs (4 + cci_size (base_of f)) (tsi_size (base_of f)) _ _ e2
          (write_tsi-size f) in
      bind-next _ _ _ _ (read_cci-write_cci f 4 _ e) (
        bind-next _ _ _ _ (read_tsi-write_tsi f _ _ e2)
          (bind-next _ _ _ _ (read_toi-write_toi f _ payload e3) refl))
