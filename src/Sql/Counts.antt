-- ===== src/Sql/Counts.antt =====
-- What follows from the laws of `Sql` for the results of a SELECT.
use mathlib.Core.Path.{fun_ext}
use mqtt_projeto_vena.Prelude.{
  ◌+◌, ◌≤◌, ◌≡◌, ◌∙◌, refl, sym, ap, Bool, true, false, not, ◌&&◌, List, [], ◌∷◌, arith, count,
  count_mono, count-split, count_true, length, All, if◌then◌else◌, Bool-cases, inl, inr,
}
use mqtt_projeto_vena.Sql.{Sql}

module _ (sql : Sql) {R : Type 0} where
  open sql use {Table, count_where, select, count-select}

  -- the rows of a table, all of them
  abbrev pub rows : Table R → List R
  rows t = select R (λ _. true) t

  pub count-rows : (q : R → Bool) (t : Table R) → count q (rows t) ≡ count_where R q t
  count-rows q t = count-select R (λ _. true) q t

  pub count_where-congr :
      (p q : R → Bool) (t : Table R) → ((r : R) → p r ≡ q r) → count_where R p t ≡ count_where R q t
  count_where-congr p q t h = ap (λ f. count_where R f t) (fun_ext h)

  pub count_where_mono :
      (p q : R → Bool) (t : Table R)
      → ((r : R) → p r ≡ true → q r ≡ true)
      → count_where R p t ≤ count_where R q t
  count_where_mono p q t h =
      omega (arith, count-rows p t, count-rows q t, count_mono p q (rows t) h)

  pub count_where-split :
      (p q r : R → Bool) (t : Table R)
      → ((x : R) → p x ≡ (if q x then true else r x))
      → ((x : R) → q x ≡ true → r x ≡ false)
      → count_where R p t ≡ count_where R q t + count_where R r t
  count_where-split p q r t h k =
      omega (arith, count-rows p t, count-rows q t, count-rows r t, count-split p q r (rows t) h k)

  -- as many rows come back as there are
  pub length-select : (p : R → Bool) (t : Table R) → length (select R p t) ≡ count_where R p t
  length-select p t =
      sym (count_true (select R p t))
      ∙ count-select R p (λ _. true) t
      ∙ count_where-congr (λ r. p r && true) p t (λ r. and_true (p r))
    where
      and_true : (b : Bool) → (b && true) ≡ b
      and_true true = refl
      and_true false = refl

pub All-of_count {ℓ} :
    {R : Type ℓ} (p : R → Bool) (l : List R)
    → count (λ r. not (p r)) l ≡ 0
    → All (λ r. p r ≡ true) l
All-of_count p [] h = tt
All-of_count p (x ∷ l) h = elim (Bool-cases (p x)) [
  | inl e ↦ (e, All-of_count p l (ground arith))
  | inr e ↦ absurd (ground arith)
]

module _ (sql : Sql) {R : Type 0} where
  open sql use {Table, count_where, select, count-select}

  -- no row that a SELECT returns fails its test
  pub count-not-select : (p : R → Bool) (t : Table R) → count (λ r. not (p r)) (select R p t) ≡ 0
  count-not-select p t =
      count-select R p (λ r. not (p r)) t
      ∙ sym (count-rows sql (λ r. p r && not (p r)) t)
      ∙ none_of (rows sql t)
    where
      none_of : (l : List R) → count (λ r. p r && not (p r)) l ≡ 0
      none_of [] = refl
      none_of (x ∷ l) = elim (Bool-cases (p x)) [
        | inl e ↦ rw e (none_of l)
        | inr e ↦ rw e (none_of l)
      ]

  -- every row that a SELECT returns passes its test
  pub select-All : (p : R → Bool) (t : Table R) → All (λ r. p r ≡ true) (select R p t)
  select-All p t = All-of_count p (select R p t) (count-not-select p t)
