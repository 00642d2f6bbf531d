-- ===== src/Telemetry/Aggregation/Validation.antt =====
-- What the query parameters resolve to.
use mathlib.Core.Path.{subst}
use mqtt_projeto_vena.Prelude.{
  ◌≡◌, ◌≢◌, ◌∙◌, refl, sym, ap, String, List, [], ◌∷◌, some, Bool, true, false, not, ◌==◌, arith,
  eq_iff, lookup, contains, keep, All, if◌then◌else◌, Bool-cases, inl, inr, ◌⊎◌,
}
use mqtt_projeto_vena.Http.{ok}
use mqtt_projeto_vena.Http.Scalar.{require-eq-ok, ok-injective}
use mqtt_projeto_vena.Db.{Time}
use mqtt_projeto_vena.Telemetry.Aggregation.{
  range_to_timedelta, allowed_buckets, all_metrics, choose_bucket, parse_range, resolve_bucket,
  date_trunc_field, check_known, check_metrics, parse_metrics, requested_metrics,
}

-- a bucket that the queries know: raw rows, or a field of date_trunc
pub data IsConcrete (bucket : String) : Type 0 where
  raw : bucket ≡ "5s" → IsConcrete bucket
  aggregated : (field : String) → date_trunc_field bucket ≡ ok field → IsConcrete bucket

some-eq : {A : Type 0} {a b : A} → some a ≡ some b → a ≡ b
some-eq h = cc

-- the entry of a table that a key has
abbrev InTable : {V : Type 0} → String → V → List (String × V) → Type 0
InTable k v [] = ⊥
InTable k v ((j, w) ∷ m) = ((j ≡ k) × (w ≡ v)) ⊎ InTable k v m

lookup-InTable :
    {V : Type 0} (k : String) (v : V) (m : List (String × V)) → lookup k m ≡ some v → InTable k v m
lookup-InTable k v [] h = cc
lookup-InTable k v ((j, w) ∷ m) h = elim (Bool-cases (j == k)) [
  | inl e ↦ inl ((eq_iff j k).0 e, some-eq (rw e at h))
  | inr e ↦ inr (lookup-InTable k v m (rw e at h))
]

-- what is true at an entry is true at the key
at_entry :
    (P : String → Time → Type 0) {j k : String} {w v : Time} → P j w → (j ≡ k) × (w ≡ v) → P k v
at_entry P {j = j} {v = v} p (e, f) = subst (λ x. P x v) e (subst (P j) f p)

-- the choice for a range
Chosen : String → Time → Type 0
Chosen range span = (bucket : String) × (choose_bucket range ≡ ok bucket) × IsConcrete bucket

chosen : (range : String) (span : Time) → InTable range span range_to_timedelta → Chosen range span
unfolding Chosen choose_bucket date_trunc_field
chosen range span (inl e) = at_entry Chosen ("5s", refl, raw refl) e
chosen range span (inr (inl e)) = at_entry Chosen ("5s", refl, raw refl) e
chosen range span (inr (inr (inl e))) = at_entry Chosen ("1m", refl, aggregated "minute" refl) e
chosen range span (inr (inr (inr (inl e)))) = at_entry Chosen ("1h", refl, aggregated "hour" refl) e
chosen range span (inr (inr (inr (inr (inl e))))) =
    at_entry Chosen ("1h", refl, aggregated "hour" refl) e
chosen range span (inr (inr (inr (inr (inr (inl e)))))) =
    at_entry Chosen ("1d", refl, aggregated "day" refl) e
chosen range span (inr (inr (inr (inr (inr (inr (inl e))))))) =
    at_entry Chosen ("1d", refl, aggregated "day" refl) e
chosen range span (inr (inr (inr (inr (inr (inr (inr e))))))) = elim e [ ]

entry_of_range :
    (range : String) (span : Time)
    → parse_range range ≡ ok span
    → InTable range span range_to_timedelta
unfolding parse_range
entry_of_range range span h =
    lookup-InTable range span range_to_timedelta
      (require-eq-ok (lookup range range_to_timedelta) _ h)

-- an explicit bucket is concrete
known_bucket :
    (bucket : String)
    → contains bucket allowed_buckets ≡ true
    → (bucket == "auto") ≡ false
    → IsConcrete bucket
unfolding date_trunc_field
known_bucket bucket h other = elim (Bool-cases (bucket == "5s")) [
  | inl e ↦ raw ((eq_iff _ _).0 e)
  | inr e5 ↦ elim (Bool-cases (bucket == "1m")) [
    | inl e ↦ aggregated "minute" (at_bucket "1m" "minute" refl ((eq_iff _ _).0 e))
    | inr em ↦ elim (Bool-cases (bucket == "1h")) [
      | inl e ↦ aggregated "hour" (at_bucket "1h" "hour" refl ((eq_iff _ _).0 e))
      | inr eh ↦ elim (Bool-cases (bucket == "1d")) [
        | inl e ↦ aggregated "day" (at_bucket "1d" "day" refl ((eq_iff _ _).0 e))
        | inr ed ↦ absurd (cc (rw (other, e5, em, eh, ed) at h))
      ]
    ]
  ]
]
  where
    at_bucket :
        (b field : String)
        → date_trunc_field b ≡ ok field
        → bucket ≡ b
        → date_trunc_field bucket ≡ ok field
    at_bucket b field e same = ap date_trunc_field same ∙ e

-- For an allowed range and an allowed bucket, `resolve_bucket` succeeds with raw rows or with a bucket
-- that `date_trunc_field` accepts; an explicit bucket is taken as it is.
pub resolve_bucket-IsConcrete :
    (range bucket : String) (span : Time)
    → parse_range range ≡ ok span
    → contains bucket allowed_buckets ≡ true
    → (resolved : String) × (resolve_bucket range bucket ≡ ok resolved)
      × IsConcrete resolved
      × ((bucket ≡ "auto") ⊎ (resolved ≡ bucket))
unfolding resolve_bucket Chosen
resolve_bucket-IsConcrete range bucket span r h =
    let (b, e, concrete) = chosen range span (entry_of_range range span r) in
    elim (Bool-cases (bucket == "auto")) [
      | inl auto ↦ (b, rw (h, auto) e, concrete, inl ((eq_iff _ _).0 auto))
      | inr other ↦ (bucket, rw (h, other), known_bucket bucket h other, inr refl)
    ]

keep_none : (p : String → Bool) (l : List String) → keep p l ≡ [] → All (λ m. p m ≡ false) l
keep_none p [] h = tt
keep_none p (x ∷ l) h = elim (Bool-cases (p x)) [
  | inl e ↦ absurd (cc (rw e at h))
  | inr e ↦ (e, keep_none p l (rw e at h))
]

-- the list without the names that are not metrics is empty, so every name is a metric
All-known :
    (l : List String)
    → All (λ m. not (contains m all_metrics) ≡ false) l
    → All (λ m. contains m all_metrics ≡ true) l
All-known [] h = tt
All-known (m ∷ l) h = (ground arith, All-known l h.1)

checked :
    (l : List String) {metrics : List String}
    → check_metrics l ≡ ok metrics
    → (metrics ≡ l) × (l ≢ []) × All (λ m. contains m all_metrics ≡ true) l
unfolding check_metrics
checked [] h = cc
checked (m ∷ ms) {metrics = metrics} h =
    by_unknown (keep (λ x. not (contains x all_metrics)) (m ∷ ms)) refl h
  where
    by_unknown :
        (unknown : List String)
        → keep (λ x. not (contains x all_metrics)) (m ∷ ms) ≡ unknown
        → check_known unknown (m ∷ ms) ≡ ok metrics
        → (metrics ≡ m ∷ ms) × (m ∷ ms ≢ []) × All (λ x. contains x all_metrics ≡ true) (m ∷ ms)
    by_unknown [] e k = (cc, λ n. cc, All-known (m ∷ ms) (keep_none _ (m ∷ ms) e))
    by_unknown (u ∷ us) e k = cc

-- What `parse_metrics` accepts are metrics of the table, at least one of them: all of them for `all`,
-- and otherwise the names between the commas, stripped, without the empty ones, in their order.
pub parse_metrics-known :
    (metric : String) {metrics : List String}
    → parse_metrics metric ≡ ok metrics
    → (metrics ≡ (if metric == "all" then all_metrics else requested_metrics metric))
      × (metrics ≢ [])
      × All (λ m. contains m all_metrics ≡ true) metrics
unfolding parse_metrics
parse_metrics-known metric {metrics = metrics} h = elim (Bool-cases (metric == "all")) [
  | inl e ↦
      let same : all_metrics ≡ metrics = ok-injective (rw e at h) in
      (
        rw e (sym same),
        subst (λ l. l ≢ []) same (λ n. cc),
        subst (All (λ m. contains m all_metrics ≡ true)) same
            (refl, (refl, (refl, (refl, (refl, (refl, tt)))))),
      )
  | inr e ↦
      let (same, some_left, known) = checked (requested_metrics metric) (rw e at h) in
      (
        rw e same,
        subst (λ l. l ≢ []) (sym same) some_left,
        subst (All (λ m. contains m all_metrics ≡ true)) (sym same) known,
      )
]
