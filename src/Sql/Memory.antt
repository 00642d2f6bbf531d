-- ===== src/Sql/Memory.antt =====
-- A database in memory that meets the laws of `Sql`: a table is the list of its rows.
use mqtt_projeto_vena.Prelude.{
  ℕ, ◌+◌, ◌≡◌, refl, Bool, List, [], ◌∷◌, map, arith, count, count-map, count-keep, keep, leb, eqb,
  if◌then◌else◌, Bool-cases, inl, inr,
}
use mqtt_projeto_vena.Sql.{Sql, one_if, IsAscending, IsDescending}

module _ {R : Type 0} (key : R → ℕ) where
  abbrev pub place_asc : R → List R → List R
  place_asc r [] = r ∷ []
  place_asc r (x ∷ l) =
      let rest = place_asc r l in if leb (key r) (key x) then r ∷ x ∷ l else x ∷ rest

  abbrev pub sort_asc : List R → List R
  sort_asc [] = []
  sort_asc (x ∷ l) = place_asc x (sort_asc l)

  abbrev pub place_desc : R → List R → List R
  place_desc r [] = r ∷ []
  place_desc r (x ∷ l) =
      let rest = place_desc r l in if leb (key x) (key r) then r ∷ x ∷ l else x ∷ rest

  abbrev pub sort_desc : List R → List R
  sort_desc [] = []
  sort_desc (x ∷ l) = place_desc x (sort_desc l)

  count-place_asc : (q : R → Bool) (r : R) (l : List R) → count q (place_asc r l) ≡ count q (r ∷ l)
  count-place_asc q r [] = refl
  count-place_asc q r (x ∷ l) = ground (arith, count-place_asc q r l)

  pub count-sort_asc : (q : R → Bool) (l : List R) → count q (sort_asc l) ≡ count q l
  count-sort_asc q [] = refl
  count-sort_asc q (x ∷ l) = ground (arith, count-place_asc q x (sort_asc l), count-sort_asc q l)

  count-place_desc :
      (q : R → Bool) (r : R) (l : List R) → count q (place_desc r l) ≡ count q (r ∷ l)
  count-place_desc q r [] = refl
  count-place_desc q r (x ∷ l) = ground (arith, count-place_desc q r l)

  pub count-sort_desc : (q : R → Bool) (l : List R) → count q (sort_desc l) ≡ count q l
  count-sort_desc q [] = refl
  count-sort_desc q (x ∷ l) =
      ground (arith, count-place_desc q x (sort_desc l), count-sort_desc q l)

  place_asc-IsAscending : (r : R) (l : List R) → IsAscending key l → IsAscending key (place_asc r l)
  place_asc-IsAscending r [] h = tt
  place_asc-IsAscending r (x ∷ []) h = ground arith
  place_asc-IsAscending r (x ∷ y ∷ l) h = ground (arith, place_asc-IsAscending r (y ∷ l) h.1)

  pub sort_asc-IsAscending : (l : List R) → IsAscending key (sort_asc l)
  sort_asc-IsAscending [] = tt
  sort_asc-IsAscending (x ∷ l) = place_asc-IsAscending x (sort_asc l) (sort_asc-IsAscending l)

  place_desc-IsDescending :
      (r : R) (l : List R) → IsDescending key l → IsDescending key (place_desc r l)
  place_desc-IsDescending r [] h = tt
  place_desc-IsDescending r (x ∷ []) h = ground arith
  place_desc-IsDescending r (x ∷ y ∷ l) h = ground (arith, place_desc-IsDescending r (y ∷ l) h.1)

  pub sort_desc-IsDescending : (l : List R) → IsDescending key (sort_desc l)
  sort_desc-IsDescending [] = tt
  sort_desc-IsDescending (x ∷ l) =
      place_desc-IsDescending x (sort_desc l) (sort_desc-IsDescending l)

module _ (R : Type 0) where
  abbrev change : (R → Bool) → (R → R) → List R → List R
  change p f = map (λ r. if p r then f r else r)

  abbrev pub insert_new : (R → Bool) → R → List R → List R
  insert_new same r t = if eqb (count same t) 0 then r ∷ t else t

  abbrev pub upsert : (R → Bool) → (R → R) → R → List R → List R
  upsert same f r t = if eqb (count same t) 0 then r ∷ t else change same f t

  pub count-cons : (r : R) (q : R → Bool) (t : List R) → count q (r ∷ t) ≡ one_if (q r) + count q t
  count-cons r q t = ground arith

  pub count-insert_new :
      (same : R → Bool) (r : R) (q : R → Bool) (t : List R)
      → count q (insert_new same r t)
        ≡ (if eqb (count same t) 0 then one_if (q r) + count q t else count q t)
  count-insert_new same r q t = elim (Bool-cases (eqb (count same t) 0)) [
    | inl e ↦ rw e (count-cons r q t)
    | inr e ↦ rw e
  ]

  pub count-upsert :
      (same : R → Bool) (f : R → R) (r : R) (q : R → Bool) (t : List R)
      → count q (upsert same f r t) ≡ (
          if eqb (count same t) 0
          then one_if (q r) + count q t
          else count (λ x. q (if same x then f x else x)) t)
  count-upsert same f r q t = elim (Bool-cases (eqb (count same t) 0)) [
    | inl e ↦ rw e (count-cons r q t)
    | inr e ↦ rw e (count-map (λ x. if same x then f x else x) q t)
  ]

abbrev pub memory : Sql
memory = record {
  Table = λ R. List R;
  count_where = λ R p t. count p t;
  select = λ R p t. keep p t;
  order_by_asc = λ R key l. sort_asc key l;
  order_by_desc = λ R key l. sort_desc key l;
  insert = λ R r t. r ∷ t;
  update = λ R p f t. change R p f t;
  insert_or_nothing = λ R same r t. insert_new R same r t;
  insert_or_update = λ R same f r t. upsert R same f r t;
  count-select = λ R p q t. count-keep p q t;
  count-order_by_asc = λ R key q l. count-sort_asc key q l;
  order_by_asc-IsAscending = λ R key l. sort_asc-IsAscending key l;
  count-order_by_desc = λ R key q l. count-sort_desc key q l;
  order_by_desc-IsDescending = λ R key l. sort_desc-IsDescending key l;
  count_where-insert = λ R r q t. count-cons R r q t;
  count_where-update = λ R p f q t. count-map (λ r. if p r then f r else r) q t;
  count_where-insert_or_nothing = λ R same r q t. count-insert_new R same r q t;
  count_where-insert_or_update = λ R same f r q t. count-upsert R same f r q t;
}
