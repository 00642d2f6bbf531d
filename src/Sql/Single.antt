-- ===== src/Sql/Single.antt =====
-- Tests that exactly one row passes, before and after a write.
use mqtt_projeto_vena.Prelude.{
  ◌+◌, ◌≤◌, ◌≡◌, ◌∙◌, refl, sym, ap, Bool, true, false, not, ◌&&◌, [], ◌∷◌, arith, count, length,
  if◌then◌else◌, Bool-cases, inl, inr,
}
use mqtt_projeto_vena.Http.Scalar.{scalar_one_or_none_single}
use mqtt_projeto_vena.Sql.{Sql, one_if}
use mqtt_projeto_vena.Sql.Counts.{count_where_mono, count_where-split, length-select}

and_not : (b c : Bool) → b ≡ (if b && c then true else b && not c)
and_not true true = refl
and_not true false = refl
and_not false c = refl

and_excludes : (b c : Bool) → (b && c) ≡ true → (b && not c) ≡ false
and_excludes true true h = refl
and_excludes true false h = cc
and_excludes false c h = refl

module _ (sql : Sql) {R : Type 0} where
  -- Where a test found one row and that row is changed, a narrower test that no changed row passes
  -- finds nothing.
  pub none_left :
      (valid later same : R → Bool) (f : R → R) (t : sql.Table R) (r : R)
      → sql.select R valid t ≡ r ∷ []
      → same r ≡ true
      → ((x : R) → later x ≡ true → valid x ≡ true)
      → ((x : R) → later (f x) ≡ false)
      → sql.count_where R (λ x. later (if same x then f x else x)) t ≡ 0
  none_left valid later same f t r found hit narrower spent =
      omega (arith, at_most, others, one_valid, one_hit)
    where
      one_valid : sql.count_where R valid t ≡ 1
      one_valid = sym (length-select sql valid t) ∙ ap length found

      one_hit : sql.count_where R (λ x. valid x && same x) t ≡ 1
      one_hit = sym (sql.count-select R valid same t) ∙ ap (count same) found ∙ rw hit

      others :
          sql.count_where R valid t
          ≡ sql.count_where R (λ x. valid x && same x) t
            + sql.count_where R (λ x. valid x && not (same x)) t
      others =
          count_where-split sql _ _ _ t (λ x. and_not (valid x) (same x))
            (λ x. and_excludes (valid x) (same x))

      unchanged :
          (x : R) → later (if same x then f x else x) ≡ true → (valid x && not (same x)) ≡ true
      unchanged x h = elim (Bool-cases (same x)) [
        | inl e ↦ absurd (cc (rw e at h, spent x))
        | inr e ↦ rw (e, narrower x (rw e at h))
      ]

      at_most :
          sql.count_where R (λ x. later (if same x then f x else x)) t
          ≤ sql.count_where R (λ x. valid x && not (same x)) t
      at_most = count_where_mono sql _ _ t unchanged

  -- Where one row passes a test, and a second test with it, the row that is found passes both.
  pub found_row :
      (good extra : R → Bool) (t : sql.Table R)
      → sql.count_where R good t ≡ 1
      → sql.count_where R (λ x. good x && extra x) t ≡ 1
      → (x : R) × (sql.select R good t ≡ x ∷ []) × (extra x ≡ true)
  found_row good extra t one both =
      let (x, e) =
        scalar_one_or_none_single (sql.select R good t) (length-select sql good t ∙ one) in
      (x, e, in_one x (sym (ap (count extra) e) ∙ sql.count-select R good extra t ∙ both))
    where
      in_one : (x : R) → count extra (x ∷ []) ≡ 1 → extra x ≡ true
      in_one x e = ground (arith, e)

  -- Into a table where a test finds nothing, a row that passes goes in: the test finds one row, and
  -- what else is true of the new row is true of the one found.
  pub only_row :
      (good extra : R → Bool) (added : R) (t : sql.Table R)
      → sql.count_where R good t ≡ 0
      → good added ≡ true
      → extra added ≡ true
      → (x : R) × (sql.select R good (sql.insert R added t) ≡ x ∷ []) × (extra x ≡ true)
  only_row good extra added t none_before passes also =
      found_row good extra (sql.insert R added t)
        (sql.count_where-insert R added good t ∙ omega (arith, none_before, ap one_if passes))
        (sql.count_where-insert R added (λ x. good x && extra x) t
          ∙ omega (arith, none_before, ap one_if both, count_where_mono sql _ good t left))
    where
      both : (good added && extra added) ≡ true
      both = rw (passes, also)

      left : (x : R) → (good x && extra x) ≡ true → good x ≡ true
      left x h = ground arith

  -- the same where the row goes in only because no row has its key
  pub only_row_or_nothing :
      (good extra : R → Bool) (added : R) (t : sql.Table R)
      → sql.count_where R good t ≡ 0
      → good added ≡ true
      → extra added ≡ true
      → (x : R) × (sql.select R good (sql.insert_or_nothing R good added t) ≡ x ∷ [])
        × (extra x ≡ true)
  only_row_or_nothing good extra added t none_before passes also =
      found_row good extra (sql.insert_or_nothing R good added t)
        (ground (arith, sql.count_where-insert_or_nothing R good added good t, none_before, passes))
        (ground (
          arith,
          sql.count_where-insert_or_nothing R good added (λ x. good x && extra x) t,
          none_before,
          passes,
          also,
          count_where_mono sql (λ x. good x && extra x) good t left,
        ))
    where
      left : (x : R) → (good x && extra x) ≡ true → good x ≡ true
      left x h = ground arith
