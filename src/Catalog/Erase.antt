-- ===== src/Catalog/Erase.antt =====
-- What a removal makes of the services in use, and of the map.
use usrp_atsc.Common.{
  ℕ, ◌+◌, ◌≤◌, ◌≡◌, refl, sym, ap, ◌∙◌, arith, ◌==◌, ==_iff, if◌then◌else◌, if-true, if-false, Bool,
  true, false, Bool-cases, inl, inr, List, [], ◌∷◌, ◌++◌, append-nil, length, length-append, none,
}
use mathlib.Core.Path.{subst}
use usrp_atsc.Catalog.{Service, is_service, find_first}
use usrp_atsc.Catalog.Lookup.{
  count, or_else, count-append, find_first-append, find_first-none, find_first-middle,
  find_first-skip, count-middle, count-cons, count-last, find_first-rotate,
}
use usrp_atsc.Catalog.Table.{is_invalid, is_valid, IsTable, catalog_of, service_id_is}
use usrp_atsc.Catalog.Spec.{CatalogSpec, is_some, delete_spec, CatalogCall, call_spec, call_catalog}
use usrp_atsc.Catalog.Removal.{
  retired, remove_service-unknown, remove_service-last, remove_service-moved,
}
use usrp_atsc.Catalog.Keeps.{
  Answers, Answers-done, Answers-refused, result_of, entry_known, entry_unknown,
}

-- A list is empty or has a last element.
pub data LastView : List Service → Type 0 where
  nil : LastView []
  last : (b : List Service) (l : Service) → LastView (b ++ l ∷ [])

LastView-cons : (x : Service) (xs : List Service) → LastView xs → LastView (x ∷ xs)
LastView-cons x [] LastView.nil = LastView.last [] x
LastView-cons x _ (LastView.last b l) = LastView.last (x ∷ b) l

pub last_view : (xs : List Service) → LastView xs
last_view [] = LastView.nil
last_view (x ∷ xs) = LastView-cons x xs (last_view xs)

retired_is_invalid :
    (x : Service) (spare : List Service)
    → count is_valid spare ≡ 0
    → count is_valid (retired x ∷ spare) ≡ 0
retired_is_invalid x spare h = omega (arith, count-cons is_valid (retired x) spare)

-- The counts after a removal.
count-moved :
    (p : Service → Bool) (a : List Service) (m : Service) (b : List Service) (l : Service)
    → count p (a ++ m ∷ (b ++ l ∷ [])) ≡ (if p m then 1 else 0) + count p (a ++ l ∷ b)
count-moved p a m b l = omega (
  arith,
  count-middle p a (b ++ l ∷ []) m,
  count-middle p a b l,
  count-append p a (b ++ l ∷ []),
  count-append p a b,
  count-last p b l,
)

module _ (a : List Service) (m : Service) (spare : List Service) (id : ℕ)
    (e : count (is_service id) a ≡ 0) (h : is_service id m ≡ true)
    (t : IsTable (a ++ m ∷ []) spare) where
  IsTable-last : IsTable a (retired m ∷ spare)
  IsTable-last = record {
    size = omega (arith, t.size, length-append a (m ∷ []));
    stored_valid = omega (arith, t.stored_valid, count-last is_invalid a m);
    spare_invalid = retired_is_invalid m spare t.spare_invalid;
    distinct = λ k. omega (arith, t.distinct k, count-last (is_service k) a m);
  }

  find_first-last :
      (k : ℕ)
      → find_first (is_service k) a
        ≡ (if id == k then none else find_first (is_service k) (a ++ m ∷ []))
  find_first-last k = elim (Bool-cases (id == k)) [
    | inl same ↦
        let q = (==_iff id k).0 same in
        find_first-none (is_service k) a (subst (λ j. count (is_service j) a ≡ 0) q e)
        ∙ sym (if-true none _ same)
    | inr other ↦
        let out : is_service k m ≡ false = ground (arith, other, service_id_is id m h) in
        ap (find_first (is_service k)) (sym (append-nil a))
        ∙ sym (find_first-skip (is_service k) a [] m out)
        ∙ sym (if-false none _ other)
  ]

module _ (a : List Service) (m : Service) (b : List Service) (l : Service) (spare : List Service)
    (id : ℕ) (e : count (is_service id) a ≡ 0) (h : is_service id m ≡ true)
    (t : IsTable (a ++ m ∷ (b ++ l ∷ [])) spare) where
  IsTable-moved : IsTable (a ++ l ∷ b) (retired l ∷ spare)
  IsTable-moved = record {
    size = omega (
      arith,
      t.size,
      length-append a (m ∷ (b ++ l ∷ [])),
      length-append b (l ∷ []),
      length-append a (l ∷ b),
    );
    stored_valid = omega (arith, t.stored_valid, count-moved is_invalid a m b l);
    spare_invalid = retired_is_invalid l spare t.spare_invalid;
    distinct = λ k. omega (arith, t.distinct k, count-moved (is_service k) a m b l);
  }

  find_first-rotated :
      (k : ℕ)
      → find_first (is_service k) (a ++ l ∷ b) ≡ find_first (is_service k) (a ++ (b ++ l ∷ []))
  find_first-rotated k =
      find_first-append (is_service k) a (l ∷ b)
      ∙ ap (or_else (find_first (is_service k) a)) (find_first-rotate (is_service k) b l once)
      ∙ sym (find_first-append (is_service k) a (b ++ l ∷ []))
    where
      once : count (is_service k) (b ++ l ∷ []) ≤ 1
      once = omega (
        arith,
        t.distinct k,
        count-middle (is_service k) a (b ++ l ∷ []) m,
        count-append (is_service k) a (b ++ l ∷ []),
      )

  find_first-moved :
      (k : ℕ)
      → find_first (is_service k) (a ++ l ∷ b)
        ≡ (if id == k then none else find_first (is_service k) (a ++ m ∷ (b ++ l ∷ [])))
  find_first-moved k = elim (Bool-cases (id == k)) [
    | inl same ↦
        let hk : is_service k m ≡ true =
          subst (λ j. is_service j m ≡ true) ((==_iff id k).0 same) h in
        let q = t.distinct k in
        find_first-none (is_service k) (a ++ l ∷ b)
          (ground (arith, hk, q, count-moved (is_service k) a m b l))
        ∙ sym (if-true none _ same)
    | inr other ↦
        let out : is_service k m ≡ false = ground (arith, other, service_id_is id m h) in
        find_first-rotated k
        ∙ sym (find_first-skip (is_service k) a (b ++ l ∷ []) m out)
        ∙ sym (if-false none _ other)
  ]

module _ (m : CatalogSpec) (id : ℕ) where
  pub remove-unknown :
      (stored spare : List Service) (callback : Bool)
      → count (is_service id) stored ≡ 0
      → IsTable stored spare
      → ((k : ℕ) → find_first (is_service k) stored ≡ m.entry k)
      → length stored ≡ m.size
      → Answers
          (call_catalog (catalog_of stored spare callback) (CatalogCall.remove id))
          (call_spec m (CatalogCall.remove id))
  unfolding call_catalog call_spec
  remove-unknown stored spare callback e t entries size =
      subst (λ o. Answers (result_of o) (call_spec m (CatalogCall.remove id)))
        (sym (remove_service-unknown stored spare callback id e))
        (Answers-refused (is_some (m.entry id)) _ m (delete_spec m id)
          (entry_unknown m stored id entries e)
          (record {
            stored = stored;
            spare = spare;
            callback = callback;
            form = refl;
            table = t;
            entries = entries;
            size = size;
          }))

  pub remove-known :
      (a b : List Service) (f : Service) (spare : List Service) (callback : Bool)
      → LastView b
      → is_service id f ≡ true
      → count (is_service id) a ≡ 0
      → IsTable (a ++ f ∷ b) spare
      → ((k : ℕ) → find_first (is_service k) (a ++ f ∷ b) ≡ m.entry k)
      → length (a ++ f ∷ b) ≡ m.size
      → Answers
          (call_catalog (catalog_of (a ++ f ∷ b) spare callback) (CatalogCall.remove id))
          (call_spec m (CatalogCall.remove id))
  unfolding call_catalog call_spec
  remove-known a [] f spare callback LastView.nil h e t entries size =
      subst (λ o. Answers (result_of o) (call_spec m (CatalogCall.remove id)))
        (sym (remove_service-last a f spare callback id e h))
        (Answers-done (is_some (m.entry id)) _ m (delete_spec m id)
          (entry_known m (a ++ f ∷ []) id f entries (find_first-middle (is_service id) a [] f e h))
          (record {
            stored = a;
            spare = retired f ∷ spare;
            callback = callback;
            form = refl;
            table = IsTable-last a f spare id e h t;
            entries = λ k.
                find_first-last a f spare id e h t k
                ∙ ap (λ o. if id == k then none else o) (entries k);
            size = omega (arith, length-append a (f ∷ []), size);
          }))
  remove-known a _ f spare callback (LastView.last b l) h e t entries size =
      subst (λ o. Answers (result_of o) (call_spec m (CatalogCall.remove id)))
        (sym (remove_service-moved a f b l spare callback id e h))
        (Answers-done (is_some (m.entry id)) _ m (delete_spec m id)
          (entry_known m (a ++ f ∷ (b ++ l ∷ [])) id f entries
            (find_first-middle (is_service id) a (b ++ l ∷ []) f e h))
          (record {
            stored = a ++ l ∷ b;
            spare = retired l ∷ spare;
            callback = callback;
            form = refl;
            table = IsTable-moved a f b l spare id e h t;
            entries = λ k.
                find_first-moved a f b l spare id e h t k
                ∙ ap (λ o. if id == k then none else o) (entries k);
            size = omega (
              arith,
              length-append a (f ∷ (b ++ l ∷ [])),
              length-append b (l ∷ []),
              length-append a (l ∷ b),
              size,
            );
          }))
