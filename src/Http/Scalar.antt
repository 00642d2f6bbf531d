-- ===== src/Http/Scalar.antt =====
-- What `scalar_one_or_none`, `scalar_one` and a bind that succeeded say of their parts.
use mqtt_projeto_vena.Prelude.{◌≡◌, refl, List, [], ◌∷◌, Option, none, some, length, arith}
use mqtt_projeto_vena.Http.{Error, Result, ok, err, ◌>>=◌, require, scalar_one, scalar_one_or_none}

pub ok-injective {ℓ} : {A : Type ℓ} {a b : A} → ok a ≡ ok b → a ≡ b
ok-injective h = cc

-- Where a chain of statements reached its end, its first statement answered and the rest went on from that.
module _ {κ ℓ} {Answer : Type κ} {End : Type ℓ} (rest : Answer → Result End) {reached : End} where
  chain-ok :
      (first : Result Answer)
      → (first >>= rest) ≡ ok reached
      → (answer : Answer) × (first ≡ ok answer) × (rest answer ≡ ok reached)
  chain-ok (err raised) went = cc
  chain-ok (ok answer) went = (answer, refl, went)

pub >>=-eq-ok {κ ℓ} :
    {Answer : Type κ} {End : Type ℓ} (first : Result Answer) (rest : Answer → Result End)
    {reached : End}
    → (first >>= rest) ≡ ok reached
    → (answer : Answer) × (first ≡ ok answer) × (rest answer ≡ ok reached)
>>=-eq-ok first rest = chain-ok rest first

pub require-eq-ok {ℓ} :
    {A : Type ℓ} (o : Option A) (e : Error) {a : A} → require o e ≡ ok a → o ≡ some a
require-eq-ok none e h = cc
require-eq-ok (some b) e h = cc

module _ {R : Type 0} where
  pub scalar_one_or_none-some :
      (l : List R) {r : R} → scalar_one_or_none l ≡ ok (some r) → l ≡ r ∷ []
  unfolding scalar_one_or_none
  scalar_one_or_none-some [] h = cc
  scalar_one_or_none-some (x ∷ []) h = cc
  scalar_one_or_none-some (x ∷ y ∷ l) h = cc

  pub scalar_one_or_none-none : (l : List R) → scalar_one_or_none l ≡ ok none → l ≡ []
  unfolding scalar_one_or_none
  scalar_one_or_none-none [] h = refl
  scalar_one_or_none-none (x ∷ []) h = cc
  scalar_one_or_none-none (x ∷ y ∷ l) h = cc

  pub scalar_one-ok : (l : List R) {r : R} → scalar_one l ≡ ok r → l ≡ r ∷ []
  unfolding scalar_one
  scalar_one-ok [] h = cc
  scalar_one-ok (x ∷ []) h = cc
  scalar_one-ok (x ∷ y ∷ l) h = cc

  pub scalar_one_or_none_absent : (l : List R) → length l ≡ 0 → scalar_one_or_none l ≡ ok none
  unfolding scalar_one_or_none
  scalar_one_or_none_absent [] h = refl
  scalar_one_or_none_absent (x ∷ l) h = absurd (omega arith)

  pub scalar_one_or_none_single : (l : List R) → length l ≡ 1 → (r : R) × (l ≡ r ∷ [])
  scalar_one_or_none_single [] h = absurd (omega arith)
  scalar_one_or_none_single (x ∷ []) h = (x, refl)
  scalar_one_or_none_single (x ∷ y ∷ l) h = absurd (omega arith)

pub >>=_assoc {ℓ κ μ} :
    {A : Type ℓ} {B : Type κ} {C : Type μ} (m : Result A) (f : A → Result B) (g : B → Result C)
    → ((m >>= f) >>= g) ≡ (m >>= λ a. f a >>= g)
>>=_assoc (ok a) f g = refl
>>=_assoc (err e) f g = refl
