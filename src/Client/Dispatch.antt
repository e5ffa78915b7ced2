-- ===== src/Client/Dispatch.antt =====
-- client/nodehost.go: `HandleMasterRequests`, which has a worker for each shard of the requests that
-- it holds. The workers run at once: an order of the requests stands for what they do.
use drummer.Base.{
  ℕ, ◌≡◌, refl, subst, ◌⊎◌, Bool, true, false, List, [], ◌∷◌, filter, none, some, ◌==◌,
  if◌then◌else◌, nat_eq, ==_iff, arith, inl, inr, Bool-cases, Option-cases, Outcome, ok, or_panic,
  nil_pointer, ◌>>=◌,
}
use drummer.Base.Map.{Map, lookup, has, insert, lookup-insert}
use drummer.Pb.{NodeHostRequest}

-- Whether a request is for the shard, which a request without a change is not.
unfoldable pub is_for : ℕ → NodeHostRequest → Bool
is_for shard_id req = elim req.change [ none ↦ false | some change ↦ change.shard_id == shard_id ]

-- The loop that fills `shardIDMap`.
unfoldable pub shard_ids : List NodeHostRequest → Map ℕ (Unit {0}) → Outcome (Map ℕ (Unit {0}))
shard_ids [] ids = ok ids
shard_ids (req ∷ reqs) ids = do
  change ← or_panic req.change nil_pointer
  shard_ids reqs (insert change.shard_id tt ids)

-- What each worker has to do, in its order.
unfoldable pub workers : List NodeHostRequest → Map ℕ (Unit {0}) → Map ℕ (List NodeHostRequest)
workers reqs [] = []
workers reqs ((id, u) ∷ ids) = (id, filter (is_for id) reqs) ∷ workers reqs ids

-- The orders in which the workers may handle all that they have to do: at each step some worker
-- handles the next request of its own.
pub data Handled : Map ℕ (List NodeHostRequest) → List NodeHostRequest → Type 0 where
  finished :
      {todo : Map ℕ (List NodeHostRequest)}
      → ((id : ℕ) (left : List NodeHostRequest) → lookup id todo ≡ some left → left ≡ [])
      → Handled todo []
  handled :
      {todo : Map ℕ (List NodeHostRequest)} {order : List NodeHostRequest} {req : NodeHostRequest}
      (id : ℕ) (left : List NodeHostRequest)
      → lookup id todo ≡ some (req ∷ left)
      → Handled (insert id left todo) order
      → Handled todo (req ∷ order)

-- What the worker of a shard has to do, if there is one.
unfoldable pub queue : ℕ → Map ℕ (List NodeHostRequest) → List NodeHostRequest
queue id todo = elim (lookup id todo) [ none ↦ [] | some left ↦ left ]

-- Each worker has requests of its shard alone.
abbrev AllFor : ℕ → List NodeHostRequest → Type 0
AllFor id [] = Unit
AllFor id (r ∷ rs) = (is_for id r ≡ true) × AllFor id rs

abbrev IsSorted : Map ℕ (List NodeHostRequest) → Type 0
IsSorted todo = (id : ℕ) (left : List NodeHostRequest) → lookup id todo ≡ some left → AllFor id left

filter-AllFor : (id : ℕ) (reqs : List NodeHostRequest) → AllFor id (filter (is_for id) reqs)
unfolding filter
filter-AllFor id [] = tt
filter-AllFor id (r ∷ rs) = elim (Bool-cases (is_for id r)) [
  | inl own ↦ rw own (own, filter-AllFor id rs)
  | inr other ↦ rw other (filter-AllFor id rs)
]

is_for_unique :
    (id other : ℕ) (r : NodeHostRequest)
    → is_for id r ≡ true
    → (id == other) ≡ false
    → is_for other r ≡ false
unfolding is_for
is_for_unique id other r h ne = elim (Option-cases r.change) [
  | inl absent ↦ ground arith
  | inr (c, there) ↦ ground (arith, ==_iff c.shard_id id, ==_iff c.shard_id other)
]

IsSorted-insert :
    (todo : Map ℕ (List NodeHostRequest)) (k : ℕ) (req : NodeHostRequest)
    (left : List NodeHostRequest)
    → IsSorted todo
    → lookup k todo ≡ some (req ∷ left)
    → IsSorted (insert k left todo)
IsSorted-insert todo k req left sorted there id l h = elim (Bool-cases (k == id)) [
  | inl same ↦
      subst (λ (p : ℕ × List NodeHostRequest). AllFor p.0 p.1)
        (ground (arith, lookup-insert id k left todo, ==_iff k id)) (sorted k (req ∷ left) there).1
  | inr other ↦ sorted id l (ground (arith, lookup-insert id k left todo))
]

Handled-filter :
    (todo : Map ℕ (List NodeHostRequest)) (order : List NodeHostRequest)
    → IsSorted todo
    → Handled todo order
    → (id : ℕ) → filter (is_for id) order ≡ queue id todo
unfolding filter queue
Handled-filter todo [] sorted (finished empty) id = elim (Option-cases (lookup id todo)) [
  | inl absent ↦ ground arith
  | inr (left, there) ↦ ground (arith, empty id left there)
]
Handled-filter todo (req ∷ order) sorted (handled k left there rest) id =
    let own = (sorted k (req ∷ left) there).0 in
    let later =
      Handled-filter (insert k left todo) order (IsSorted-insert todo k req left sorted there) rest
        id in
    elim (Bool-cases (k == id)) [
      | inl same ↦ ground (arith, lookup-insert id k left todo, ==_iff k id)
      | inr other ↦ ground (arith, lookup-insert id k left todo, is_for_unique k id req own other)
    ]

lookup-workers :
    (reqs : List NodeHostRequest) (ids : Map ℕ (Unit {0})) (id : ℕ)
    → lookup id (workers reqs ids) ≡ (if has id ids then some (filter (is_for id) reqs) else none)
unfolding workers lookup has
lookup-workers reqs [] id = refl
lookup-workers reqs ((k, u) ∷ ids) id = elim (Bool-cases (k == id)) [
  | inl same ↦ ground (arith, ==_iff k id)
  | inr other ↦ ground (arith, lookup-workers reqs ids id)
]

-- Every shard of the requests has a worker.
shard_ids-has :
    (reqs : List NodeHostRequest) (ids found : Map ℕ (Unit {0})) (id : ℕ)
    → shard_ids reqs ids ≡ ok found
    → (has id found ≡ true) ⊎ ((filter (is_for id) reqs ≡ []) × (has id ids ≡ false))
unfolding shard_ids is_for filter has
shard_ids-has [] ids found id h = elim (Bool-cases (has id ids)) [
  | inl asked ↦ inl (ground arith)
  | inr missing ↦ inr (refl, ground arith)
]
shard_ids-has (r ∷ rs) ids found id h = elim (Option-cases r.change) [
  | inl absent ↦ absurd (ground arith)
  | inr (c, there) ↦ elim (shard_ids-has rs (insert c.shard_id tt ids) found id (ground arith)) [
    | inl yes_found ↦ inl yes_found
    | inr (unasked, missing) ↦ inr (
      ground (arith, lookup-insert id c.shard_id tt ids),
      ground (arith, lookup-insert id c.shard_id tt ids),
    )
  ]
]

-- In whatever order the workers of the requests that are held handle them, the requests of each shard
-- are handled all, once each and in the order in which they came, and no others are.
pub shard_ids-Handled :
    (reqs order : List NodeHostRequest) (ids : Map ℕ (Unit {0}))
    → shard_ids reqs [] ≡ ok ids
    → Handled (workers reqs ids) order
    → (id : ℕ) → filter (is_for id) order ≡ filter (is_for id) reqs
unfolding queue
shard_ids-Handled reqs order ids found h id =
    let all = Handled-filter (workers reqs ids) order sorted h id in
    elim (shard_ids-has reqs [] ids id found) [
      | inl has_worker ↦ ground (arith, lookup-workers reqs ids id)
      | inr (unasked, missing) ↦ elim (Bool-cases (has id ids)) [
        | inl some_worker ↦ ground (arith, lookup-workers reqs ids id)
        | inr no_worker ↦ ground (arith, lookup-workers reqs ids id)
      ]
    ]
  where
    sorted : IsSorted (workers reqs ids)
    sorted k left there = elim (Bool-cases (has k ids)) [
      | inl yes_there ↦
          subst (AllFor k) (ground (arith, lookup-workers reqs ids k)) (filter-AllFor k reqs)
      | inr no_there ↦ absurd (ground (arith, lookup-workers reqs ids k))
    ]
