-- ===== src/Server/Batch.antt =====
-- backend/app/telemetry/ingest.py: the devices of a batch, among those that the SELECT found.
use mathlib.Core.Path.{subst}
use mqtt_projeto_vena.Prelude.{
  true, keep, map, count, contains, eq_refl, ◌<◌, ◌≡◌, sym, String, List, [], ◌∷◌, ◌==◌, arith,
  eq_iff, Bool, Bool-cases, inl, inr,
}
use mqtt_projeto_vena.Db.{Device}
use mqtt_projeto_vena.Telemetry.Ingest.Flush.{distinct}

pub contains-distinct :
    (x : String) (l : List String) → contains x l ≡ true → contains x (distinct l) ≡ true
unfolding distinct
contains-distinct x [] h = cc
contains-distinct x (y ∷ l) h = elim (Bool-cases (contains y (distinct l))) [
  | inl dup ↦ elim (Bool-cases (x == y)) [
    | inl same ↦
        rw dup (subst (λ k. contains k (distinct l) ≡ true) (sym ((eq_iff x y).0 same)) dup)
    | inr other ↦ rw dup (contains-distinct x l (rw other at h))
  ]
  | inr new ↦ elim (Bool-cases (x == y)) [
    | inl same ↦ rw (new, same)
    | inr other ↦ rw (new, other) (contains-distinct x l (rw other at h))
  ]
]

pub contains-keep :
    (x : String) (p : String → Bool) (l : List String)
    → contains x l ≡ true
    → p x ≡ true
    → contains x (keep p l) ≡ true
contains-keep x p [] h passes = cc
contains-keep x p (y ∷ l) h passes = elim (Bool-cases (x == y)) [
  | inl same ↦ rw (subst (λ k. p k ≡ true) ((eq_iff x y).0 same) passes, same)
  | inr other ↦ elim (Bool-cases (p y)) [
    | inl kept ↦ rw (kept, other) (contains-keep x p l (rw other at h) passes)
    | inr out ↦ rw out (contains-keep x p l (rw other at h) passes)
  ]
]

-- an id among those of some devices
pub contains-ids :
    (x : String) (l : List Device)
    → contains x (map (λ d. d.id) l) ≡ true
    → 0 < count (λ d. d.id == x) l
contains-ids x [] h = cc
contains-ids x (d ∷ l) h = elim (Bool-cases (x == d.id)) [
  | inl same ↦
      rw (subst (λ k. (d.id == k) ≡ true) (sym ((eq_iff x d.id).0 same)) (eq_refl d.id))
        (omega arith)
  | inr other ↦ ground (arith, contains-ids x l (rw other at h))
]
