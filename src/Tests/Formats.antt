-- ===== src/Tests/Formats.antt =====
-- Wire formats that know a list of samples, for the runs of the server.
use drummer.Base.{
  ℕ, ◌≡◌, zero, suc, refl, Bool, true, false, List, [], ◌∷◌, Option, none, some, Bytes, Codec,
  arith, inl, inr, Option-cases, ◌==◌, nat_eq, ==_iff, ◌↔◌,
}
use drummer.Pb.{Update, LookupRequest, LookupResponse, ShardStates, Regions}
use drummer.Db.State.{SchedulerContext}
use drummer.Db.Lookups.{Formats}
use drummer.Tests.Samples.{kv_format}

-- The decision of the test of equality.
unfoldable pub decide : {x y : ℕ} (b : Bool) → (b ≡ true) ↔ (x ≡ y) → Dec (x ≡ y)
decide true h = yes (h.0 refl)
decide false h = no (λ e. ground (arith, h.1 e))

unfoldable pub nat_discrete : Discrete ℕ
unfolding decide
nat_discrete x y = decide (x == y) (==_iff x y)

-- The position of a sample, and the sample at a position.
unfoldable pub find : {A : Type 0} → Discrete A → List A → A → Option ℕ
find same [] a = none
find same (x ∷ xs) a = elim (same x a) [
  | yes e ↦ some 0
  | no ne ↦ (elim (find same xs a) [ none ↦ none | some n ↦ some (suc n) ])
]

unfoldable pub sample : {A : Type 0} → List A → ℕ → Option A
sample [] n = none
sample (x ∷ xs) zero = some x
sample (x ∷ xs) (suc n) = sample xs n

sample-find :
    {A : Type 0} (same : Discrete A) (xs : List A) (a : A) (n : ℕ)
    → find same xs a ≡ some n
    → sample xs n ≡ some a
unfolding find sample
sample-find same [] a n h = absurd (ground arith)
sample-find {A} same (x ∷ xs) a n h = go (same x a) (λ m e. sample-find same xs a m e) h
  where
    go :
        (d : Dec (x ≡ a))
        → ((m : ℕ) → find same xs a ≡ some m → sample xs m ≡ some a)
        → (elim d as (λ z. Option ℕ) [
          | yes e ↦ some 0
          | no ne ↦ (elim (find same xs a) as (λ z. Option ℕ) [
            | none ↦ none
            | some m ↦ some (suc m)
          ])
        ])
          ≡ some n
        → sample (x ∷ xs) n ≡ some a
    go (yes e) rest h' = ground arith
    go (no ne) rest h' = elim (Option-cases (find same xs a)) [
      | inl absent ↦ absurd (ground arith)
      | inr (m, found) ↦ ground (arith, rest m found)
    ]

unfoldable pub put_sample : {A : Type 0} → Discrete A → List A → A → Option Bytes
unfolding find
put_sample same xs a = elim (find same xs a) [ none ↦ none | some n ↦ some (n ∷ []) ]

unfoldable pub take_sample : {A : Type 0} → List A → Bytes → Option A
unfolding sample
take_sample xs [] = none
take_sample xs (n ∷ b) = sample xs n

pub take-put_sample :
    {A : Type 0} (same : Discrete A) (xs : List A) (a : A) (b : Bytes)
    → put_sample same xs a ≡ some b
    → take_sample xs b ≡ some a
unfolding put_sample take_sample
take-put_sample same xs a b h = elim (Option-cases (find same xs a)) [
  | inl absent ↦ absurd (ground arith)
  | inr (n, found) ↦ ground (arith, sample-find same xs a n found)
]

-- The format that knows the samples.
abbrev pub samples : {A : Type 0} → Discrete A → List A → Codec A
samples same xs = record {
  marshal = put_sample same xs;
  unmarshal = take_sample xs;
  round_trip = take-put_sample same xs;
}

abbrev update_discrete : Discrete Update
update_discrete = hlevel nat_discrete

abbrev context_discrete : Discrete SchedulerContext
context_discrete = hlevel nat_discrete

abbrev request_discrete : Discrete LookupRequest
request_discrete = hlevel nat_discrete

abbrev response_discrete : Discrete LookupResponse
response_discrete = hlevel nat_discrete

abbrev states_discrete : Discrete ShardStates
states_discrete = hlevel nat_discrete

abbrev regions_discrete : Discrete Regions
regions_discrete = hlevel nat_discrete

abbrev pub known_formats :
    List Update → List LookupRequest → List LookupResponse → List SchedulerContext → Formats
known_formats updates requests responses contexts = record {
  kv = kv_format;
  update = samples update_discrete updates;
  request = samples request_discrete requests;
  response = samples response_discrete responses;
  states = samples states_discrete [];
  context = record {
    marshal = put_sample context_discrete contexts;
    unmarshal = take_sample contexts;
  };
  regions = samples regions_discrete [];
}
