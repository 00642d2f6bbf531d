-- ===== src/Prelude/Text.antt =====
-- Python's text operations on the native `String`, character by character.
use Prim.Native.Nat.{ℕ}
use Prim.Native.Char.{Char, code}
use Prim.Native.String
use Prim.Native.String.{String}
use mathlib.Core.Path.{◌≡◌, refl, ◌∙◌}
use mathlib.Core.Logic.{◌≢◌, inl, inr}
use mathlib.Core.Bool.{Bool, true, ◌||◌}
use mathlib.Core.List.{List, [], ◌∷◌}
use native.Mathlib.Omega.{arith}
use text.Mathlib.Text.{starts_with}
use text.Mathlib.TextEquality.{Char-path}
use text.Mathlib.TextLemmas.{nil-append, cons-append}
use mqtt_projeto_vena.Prelude.Tests.{eqb, eqb_self, if◌then◌else◌, Bool-cases}

-- `a + b` on texts
infixr 66 ◌<>◌
abbrev pub ◌<>◌ : String → String → String
a <> b = String.◌++◌ a b

abbrev push_head : Char → List String → List String
push_head c [] = (String.◌∷◌ c String.[]) ∷ []
push_head c (p ∷ ps) = (String.◌∷◌ c p) ∷ ps

-- `text.split(sep)` for a separator of one character, given by its code
unfoldable pub split : ℕ → String → List String
split sep String.[] = String.[] ∷ []
split sep (String.◌∷◌ c s) =
    let rest = split sep s in if eqb (code c) sep then String.[] ∷ rest else push_head c rest

-- `needle in text`
unfoldable pub is_substring : String → String → Bool
is_substring needle String.[] = starts_with String.[] needle
is_substring needle (String.◌∷◌ c s) = starts_with (String.◌∷◌ c s) needle || is_substring needle s

-- no character of the text has the code
abbrev pub Lacks : ℕ → String → Type 0
Lacks sep String.[] = Unit
Lacks sep (String.◌∷◌ c s) = (code c ≢ sep) × Lacks sep s

abbrev pub AllLack : ℕ → List String → Type 0
AllLack sep [] = Unit
AllLack sep (p ∷ ps) = Lacks sep p × AllLack sep ps

push_head-AllLack :
    (sep : ℕ) (c : Char) (ps : List String)
    → code c ≢ sep
    → AllLack sep ps
    → AllLack sep (push_head c ps)
push_head-AllLack sep c [] h l = ((h, tt), tt)
push_head-AllLack sep c (p ∷ ps) h l = ((h, l.0), l.1)

-- no part of a split holds the separator
pub split-AllLack : (sep : ℕ) (s : String) → AllLack sep (split sep s)
unfolding split
split-AllLack sep String.[] = (tt, tt)
split-AllLack sep (String.◌∷◌ c s) = elim (Bool-cases (eqb (code c) sep)) [
  | inl e ↦ rw e (tt, split-AllLack sep s)
  | inr e ↦ rw e (push_head-AllLack sep c (split sep s) (ground arith) (split-AllLack sep s))
]

-- `sep.join(parts)`
unfoldable pub join : String → List String → String
join sep [] = String.[]
join sep (p ∷ []) = p
join sep (p ∷ q ∷ ps) = p <> sep <> join sep (q ∷ ps)

-- a text of one character
abbrev pub single : Char → String
single c = String.◌∷◌ c String.[]

push_head-ne-nil : (c : Char) (ps : List String) → push_head c ps ≢ []
push_head-ne-nil c [] h = cc
push_head-ne-nil c (p ∷ ps) h = cc

pub split-ne-nil : (sep : ℕ) (s : String) → split sep s ≢ []
unfolding split
split-ne-nil sep String.[] = λ h. cc
split-ne-nil sep (String.◌∷◌ c s) = elim (Bool-cases (eqb (code c) sep)) [
  | inl e ↦ rw e (λ h. cc)
  | inr e ↦ rw e (push_head-ne-nil c (split sep s))
]

join-push_head :
    (sep : String) (c : Char) (ps : List String)
    → join sep (push_head c ps) ≡ String.◌∷◌ c (join sep ps)
unfolding join
join-push_head sep c [] = refl
join-push_head sep c (p ∷ []) = refl
join-push_head sep c (p ∷ q ∷ ps) = cons-append c p (sep <> join sep (q ∷ ps))

join-nil-cons :
    (sep : String) (ps : List String) → ps ≢ [] → join sep (String.[] ∷ ps) ≡ sep <> join sep ps
unfolding join
join-nil-cons sep [] h = absurd (h refl)
join-nil-cons sep (p ∷ ps) h = nil-append (sep <> join sep (p ∷ ps))

-- joining the parts of a split by the separator gives the text back
pub join-split : (sep : Char) (s : String) → join (single sep) (split (code sep) s) ≡ s
unfolding split
join-split sep String.[] = unfold join in refl
join-split sep (String.◌∷◌ c s) = elim (Bool-cases (eqb (code c) (code sep))) [
  | inl e ↦
      rw (e, join-nil-cons (single sep) _ (split-ne-nil (code sep) s), join-split sep s)
        (at_sep (Char-path c sep (ground arith)))
  | inr e ↦ rw (e, join-push_head (single sep) c _, join-split sep s)
]
  where
    at_sep : c ≡ sep → single sep <> s ≡ String.◌∷◌ c s
    at_sep p = cons-append sep String.[] s ∙ cc (p, nil-append s)

-- a text without the separator is its only part
pub split_of_Lacks : (sep : ℕ) (p : String) → Lacks sep p → split sep p ≡ p ∷ []
unfolding split
split_of_Lacks sep String.[] h = refl
split_of_Lacks sep (String.◌∷◌ c s) h = elim (Bool-cases (eqb (code c) sep)) [
  | inl e ↦ absurd (h.0 (ground arith))
  | inr e ↦ rw (e, split_of_Lacks sep s h.1)
]

-- the part in front of the first separator
pub split-append :
    (sep : Char) (p s : String)
    → Lacks (code sep) p
    → split (code sep) (p <> single sep <> s) ≡ p ∷ split (code sep) s
unfolding split
split-append sep String.[] s h =
    rw (nil-append (single sep <> s), cons-append sep String.[] s, nil-append s)
      (at_head (eqb_self (code sep)))
  where
    at_head :
        eqb (code sep) (code sep) ≡ true
        → split (code sep) (String.◌∷◌ sep s) ≡ String.[] ∷ split (code sep) s
    at_head e = rw e
split-append sep (String.◌∷◌ c p) s h = elim (Bool-cases (eqb (code c) (code sep))) [
  | inl e ↦ absurd (h.0 (ground arith))
  | inr e ↦ rw (cons-append c p (single sep <> s), e, split-append sep p s h.1)
]

-- parts without the separator come back from a split of their join
pub split-join :
    (sep : Char) (ps : List String)
    → ps ≢ []
    → AllLack (code sep) ps
    → split (code sep) (join (single sep) ps) ≡ ps
unfolding join
split-join sep [] h l = absurd (h refl)
split-join sep (p ∷ []) h l = split_of_Lacks (code sep) p l.0
split-join sep (p ∷ q ∷ ps) h l =
    rw (split-append sep p (join (single sep) (q ∷ ps)) l.0)
      (rw (split-join sep (q ∷ ps) (λ e. cc) l.1))
