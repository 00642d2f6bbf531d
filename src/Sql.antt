-- ===== src/Sql.antt =====
-- The SQL statements that the backend issues through SQLAlchemy, as an interface. A table is known
-- by how many of its rows pass a test (`count_where`, SELECT COUNT(*) … WHERE), which says all of it
-- but the order of the rows. Statements of one session run one after the other.
pub mod Counts
pub mod Single
pub mod Memory
use mqtt_projeto_vena.Prelude.{
  ℕ, ◌+◌, ◌≡◌, ◌≤◌, Bool, true, false, ◌&&◌, List, [], ◌∷◌, Option, none, some, count, eqb,
  if◌then◌else◌,
}

-- 1 for a row that passes
abbrev pub one_if : Bool → ℕ
one_if b = if b then 1 else 0

abbrev pub IsAscending {ℓ} : {R : Type ℓ} → (R → ℕ) → List R → Type 0
IsAscending key [] = Unit
IsAscending key (x ∷ []) = Unit
IsAscending key (x ∷ y ∷ l) = (key x ≤ key y) × IsAscending key (y ∷ l)

abbrev pub IsDescending {ℓ} : {R : Type ℓ} → (R → ℕ) → List R → Type 0
IsDescending key [] = Unit
IsDescending key (x ∷ []) = Unit
IsDescending key (x ∷ y ∷ l) = (key y ≤ key x) × IsDescending key (y ∷ l)

pub record Sql : Type 1 where
  pub Table : Type 0 → Type 0
  -- SELECT COUNT(*) FROM t WHERE p
  pub count_where : (R : Type 0) → (R → Bool) → Table R → ℕ
  -- SELECT * FROM t WHERE p, in an order of the server's choice
  pub select : (R : Type 0) → (R → Bool) → Table R → List R
  -- ORDER BY key ASC and ORDER BY key DESC
  pub order_by_asc : (R : Type 0) → (R → ℕ) → List R → List R
  pub order_by_desc : (R : Type 0) → (R → ℕ) → List R → List R
  -- INSERT INTO t VALUES (r)
  pub insert : (R : Type 0) → R → Table R → Table R
  -- UPDATE t SET f WHERE p
  pub update : (R : Type 0) → (R → Bool) → (R → R) → Table R → Table R
  -- INSERT … ON CONFLICT DO NOTHING; the test is true of the rows that have the new row's key
  pub insert_or_nothing : (R : Type 0) → (R → Bool) → R → Table R → Table R
  -- INSERT … ON CONFLICT DO UPDATE SET f
  pub insert_or_update : (R : Type 0) → (R → Bool) → (R → R) → R → Table R → Table R
  pub count-select :
      (R : Type 0) (p q : R → Bool) (t : Table R)
      → count q (select R p t) ≡ count_where R (λ r. p r && q r) t
  pub count-order_by_asc :
      (R : Type 0) (key : R → ℕ) (q : R → Bool) (l : List R)
      → count q (order_by_asc R key l) ≡ count q l
  pub order_by_asc-IsAscending :
      (R : Type 0) (key : R → ℕ) (l : List R) → IsAscending key (order_by_asc R key l)
  pub count-order_by_desc :
      (R : Type 0) (key : R → ℕ) (q : R → Bool) (l : List R)
      → count q (order_by_desc R key l) ≡ count q l
  pub order_by_desc-IsDescending :
      (R : Type 0) (key : R → ℕ) (l : List R) → IsDescending key (order_by_desc R key l)
  pub count_where-insert :
      (R : Type 0) (r : R) (q : R → Bool) (t : Table R)
      → count_where R q (insert R r t) ≡ one_if (q r) + count_where R q t
  pub count_where-update :
      (R : Type 0) (p : R → Bool) (f : R → R) (q : R → Bool) (t : Table R)
      → count_where R q (update R p f t) ≡ count_where R (λ r. q (if p r then f r else r)) t
  pub count_where-insert_or_nothing :
      (R : Type 0) (same : R → Bool) (r : R) (q : R → Bool) (t : Table R)
      → count_where R q (insert_or_nothing R same r t) ≡ (
          if eqb (count_where R same t) 0
          then one_if (q r) + count_where R q t
          else count_where R q t)
  pub count_where-insert_or_update :
      (R : Type 0) (same : R → Bool) (f : R → R) (r : R) (q : R → Bool) (t : Table R)
      → count_where R q (insert_or_update R same f r t) ≡ (
          if eqb (count_where R same t) 0
          then one_if (q r) + count_where R q t
          else count_where R (λ x. q (if same x then f x else x)) t)
