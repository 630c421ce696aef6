-- ===== src/Route/Lct/Bounds.antt =====
-- `RouteParser::parse_lct_header` reads inside of the packet.
use usrp_atsc.Common.{
  ℕ, zero, suc, ◌+◌, ◌≤◌, ◌<◌, refl, arith, ◌==◌, ltb, List, [], ◌∷◌, length, get_elem?, none, some,
}
use usrp_atsc.Common.Maybe.{IsDefined, bind-IsDefined, if-IsDefined}
use usrp_atsc.Route.Lct.{
  LctHeader, base_header, cci_size, tsi_size, toi_size, min_header, read_16, read_32, read_cci,
  read_tsi, read_toi, read_fields, parse_lct_header,
}

pub get_elem?-IsDefined {ℓ} :
    {A : Type ℓ} (xs : List A) (i : ℕ) → i < length xs → IsDefined (get_elem? xs i)
get_elem?-IsDefined [] i h = absurd (omega arith)
get_elem?-IsDefined (x ∷ xs) zero h = (x, refl)
get_elem?-IsDefined (x ∷ xs) (suc i) h = get_elem?-IsDefined xs i (omega arith)

module _ (packet : List ℕ) where
  read_16-IsDefined : (i : ℕ) → i + 2 ≤ length packet → IsDefined (read_16 packet i)
  unfolding read_16
  read_16-IsDefined i h =
      bind-IsDefined _ _ (get_elem?-IsDefined packet i (omega arith)) (λ a.
        bind-IsDefined _ _ (get_elem?-IsDefined packet (i + 1) (omega arith)) (λ b. (_, refl)))

  read_32-IsDefined : (i : ℕ) → i + 4 ≤ length packet → IsDefined (read_32 packet i)
  unfolding read_32
  read_32-IsDefined i h = bind-IsDefined _ _ (get_elem?-IsDefined packet i (omega arith)) (λ a.
      bind-IsDefined _ _ (get_elem?-IsDefined packet (i + 1) (omega arith)) (λ b.
        bind-IsDefined _ _ (get_elem?-IsDefined packet (i + 2) (omega arith)) (λ c.
          bind-IsDefined _ _ (get_elem?-IsDefined packet (i + 3) (omega arith)) (λ d. (_, refl)))))

  read_cci-IsDefined :
      (h : LctHeader) (i : ℕ) → i + cci_size h ≤ length packet → IsDefined (read_cci packet h i)
  unfolding read_cci cci_size
  read_cci-IsDefined h i fits =
      if-IsDefined (ltb 0 h.congestion_control) _ _
        (λ t. read_32-IsDefined i (ground (arith, t, fits))) (λ t. (0, refl))

  read_tsi-IsDefined :
      (h : LctHeader) (i : ℕ) → i + tsi_size h ≤ length packet → IsDefined (read_tsi packet h i)
  unfolding read_tsi tsi_size
  read_tsi-IsDefined h i fits =
      if-IsDefined (h.transport_session_id_flag == 1) _ _
        (λ s.
          if-IsDefined (h.half_word_flag == 1) _ _
            (λ t. read_16-IsDefined i (ground (arith, s, t, fits)))
            (λ t. read_32-IsDefined i (ground (arith, s, t, fits))))
        (λ s. (0, refl))

  read_toi-IsDefined :
      (h : LctHeader) (i : ℕ) → i + toi_size h ≤ length packet → IsDefined (read_toi packet h i)
  unfolding read_toi toi_size
  read_toi-IsDefined h i fits =
      if-IsDefined (ltb 0 h.transport_object_id_flag) _ _
        (λ o.
          if-IsDefined (h.transport_object_id_flag == 1) _ _
            (λ s.
              if-IsDefined (h.half_word_flag == 1) _ _
                (λ t. read_16-IsDefined i (ground (arith, s, t, fits)))
                (λ t. read_32-IsDefined i (ground (arith, s, t, fits))))
            (λ s. read_32-IsDefined i (ground (arith, o, s, fits))))
        (λ o. (0, refl))

  read_fields-IsDefined :
      (h : LctHeader) → min_header h ≤ length packet → IsDefined (read_fields packet h)
  unfolding read_fields min_header
  read_fields-IsDefined h fits = bind-IsDefined _ _ (read_cci-IsDefined h 4 (omega arith)) (λ a.
      bind-IsDefined _ _ (read_tsi-IsDefined h (4 + cci_size h) (omega arith)) (λ b.
        bind-IsDefined _ _ (read_toi-IsDefined h (4 + cci_size h + tsi_size h) (omega arith))
          (λ c. (_, refl))))

  pub parse_lct_header-IsDefined : IsDefined (parse_lct_header packet)
  unfolding parse_lct_header
  parse_lct_header-IsDefined =
      if-IsDefined (ltb (length packet) 4) _ _ (λ short. (none, refl))
        (λ long. bind-IsDefined _ _ (get_elem?-IsDefined packet 0 (ground (arith, long))) (λ byte0.
          bind-IsDefined _ _ (get_elem?-IsDefined packet 1 (ground (arith, long))) (λ byte1.
            bind-IsDefined _ _ (get_elem?-IsDefined packet 2 (ground (arith, long))) (λ byte2.
              bind-IsDefined _ _ (get_elem?-IsDefined packet 3 (ground (arith, long))) (λ byte3.
                if-IsDefined ((base_header byte0 byte1 byte2 byte3).version == 1) _ _
                  (λ v.
                    if-IsDefined
                      (ltb (length packet) (min_header (base_header byte0 byte1 byte2 byte3))) _ _
                      (λ short. (none, refl))
                      (λ fits.
                        bind-IsDefined _ _
                          (read_fields-IsDefined (base_header byte0 byte1 byte2 byte3)
                            (ground (arith, fits)))
                          (λ header. (some header, refl))))
                  (λ v. (none, refl)))))))
