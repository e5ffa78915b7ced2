-- ===== src/ShardImage/Merge.antt =====
-- shardimage.go: `syncShard` against a description of the record that it must leave.
use mathlib.Core.Option
use drummer.Base.{
  ◌↔◌, ℕ, ◌≡◌, refl, ◌≤◌, ◌<◌, Bool, true, false, not, ◌&&◌, List, [], ◌∷◌, Option, none, some,
  filter, any, ◌==◌, if◌then◌else◌, Bytes, nat_eq, bytes_eq, bytes_beq_iff, ==_iff, ok, >>=-eq-ok,
  arith, Bool-cases, Option-cases, Outcome-cases, inl, inr,
}
use drummer.Base.Map.{Map, IsMap, keys, values, lookup, has, delete, lookup-insert, lookup-delete}
use drummer.Pb.{ShardInfo}
use drummer.ShardImage.{Replica, Shard}
use drummer.ShardImage.Sync.{
  new_replica, to_remove, delete_all, add_replica, add_replicas, check_addresses, sync_shard,
}

-- What a record has under an id, by the reported address and what it had before.
unfoldable pub merged : ℕ → ℕ → ℕ → Option Bytes → Option Replica → Option Replica
merged shard_id tick id none old = none
merged shard_id tick id (some address) none = some (new_replica shard_id id address tick)
merged shard_id tick id (some address) (some n) = some n

any-filter-keys :
    {V : Type 0} (p : ℕ → Bool) (j : ℕ) (m : Map ℕ V)
    → any (λ x. x == j) (filter p (keys m)) ≡ (p j && has j m)
unfolding any filter has lookup
any-filter-keys p j [] = ground arith
any-filter-keys p j ((k, v) ∷ m) = elim (Bool-cases (k == j)) [
  | inl same ↦ ground (arith, ==_iff k j, any-filter-keys p j m)
  | inr other ↦ ground (arith, any-filter-keys p j m)
]

lookup-delete_all :
    (j : ℕ) (ids : List ℕ) (m : Map ℕ Replica)
    → lookup j (delete_all ids m) ≡ (if any (λ x. x == j) ids then none else lookup j m)
unfolding delete_all any
lookup-delete_all j [] m = refl
lookup-delete_all j (id ∷ ids) m =
    ground (arith, lookup-delete_all j ids (delete id m), lookup-delete j id m)

-- The replicas that the report no longer has are removed, and no others.
lookup-delete_all-to_remove :
    (j : ℕ) (c : Shard) (ci : ShardInfo)
    → lookup j (delete_all (to_remove c ci) c.replicas)
      ≡ (if has j ci.replicas then lookup j c.replicas else none)
unfolding to_remove has
lookup-delete_all-to_remove j c ci = ground (
  arith,
  lookup-delete_all j (to_remove c ci) c.replicas,
  any-filter-keys (λ nid. not (has nid ci.replicas)) j c.replicas,
)

-- What the loop over the report adds to the replicas `rs`.
added : ℕ → ℕ → ℕ → Option Bytes → Option Replica → Option Replica
added shard_id tick id none old = old
added shard_id tick id (some address) none = some (new_replica shard_id id address tick)
added shard_id tick id (some address) (some n) = some n

lookup-add_replica :
    (shard_id tick id : ℕ) (address : Bytes) (rs rs' : Map ℕ Replica) (j : ℕ)
    → add_replica shard_id tick id address rs ≡ ok rs'
    → lookup j rs'
      ≡ (if id == j then added shard_id tick id (some address) (lookup j rs) else lookup j rs)
unfolding add_replica added
lookup-add_replica shard_id tick id address rs rs' j h =
    ground (arith, lookup-insert j id (new_replica shard_id id address tick) rs, ==_iff id j)

lookup-add_replicas :
    (shard_id tick : ℕ) (reported : Map ℕ Bytes) (rs rs' : Map ℕ Replica) (j : ℕ)
    → IsMap reported
    → add_replicas shard_id tick reported rs ≡ ok rs'
    → lookup j rs' ≡ added shard_id tick j (lookup j reported) (lookup j rs)
unfolding add_replicas added lookup
lookup-add_replicas shard_id tick [] rs rs' j w h = ground arith
lookup-add_replicas shard_id tick ((id, address) ∷ reported) rs rs' j w h =
    let (mid, first, rest) = >>=-eq-ok (add_replica shard_id tick id address rs) _ h in
    ground (
      arith,
      lookup-add_replica shard_id tick id address rs mid j first,
      lookup-add_replicas shard_id tick reported mid rs' j w.1 rest,
      ==_iff id j,
    )

-- A replica that was there stays at its address: the report names the same.
add_replicas-address :
    (shard_id tick : ℕ) (reported : Map ℕ Bytes) (rs rs' : Map ℕ Replica) (j : ℕ) (a : Bytes)
    (n : Replica)
    → IsMap reported
    → add_replicas shard_id tick reported rs ≡ ok rs'
    → lookup j reported ≡ some a
    → lookup j rs ≡ some n
    → n.address ≡ a
unfolding add_replicas lookup
add_replicas-address shard_id tick [] rs rs' j a n w h e f = absurd (ground arith)
add_replicas-address shard_id tick ((id, address) ∷ reported) rs rs' j a n w h e f =
    let (mid, first, rest) = >>=-eq-ok (add_replica shard_id tick id address rs) _ h in
    elim (Bool-cases (id == j)) [
      | inl same ↦
          unfold add_replica in ground (arith, bytes_beq_iff n.address address, ==_iff id j)
      | inr other ↦
          add_replicas-address shard_id tick reported mid rs' j a n w.1 rest (ground arith)
            (ground (arith, lookup-add_replica shard_id tick id address rs mid j first))
    ]

pub sync_shard_parts :
    (c : Shard) (ci : ShardInfo) (tick : ℕ) (c' : Shard)
    → sync_shard c ci tick ≡ ok (c', false)
    → (rs : Map ℕ Replica) × (add_replicas ci.shard_id tick ci.replicas
          (delete_all (to_remove c ci) c.replicas)
        ≡ ok rs)
      × (check_addresses [] (values rs) ≡ ok tt)
      × (c' ≡ record c { config_change_index = ci.config_change_index; replicas = rs })
      × (c.config_change_index ≤ ci.config_change_index)
unfolding sync_shard
sync_shard_parts c ci tick c' h =
    let kept = delete_all (to_remove c ci) c.replicas in
    elim (Outcome-cases (add_replicas ci.shard_id tick ci.replicas kept)) [
      | inl (p, failed) ↦ absurd (ground arith)
      | inr (rs, done) ↦ (rs, done, ground arith, ground arith, ground arith)
    ]

-- The rejected reports are exactly those that are older than the record, which they leave alone.
pub sync_shard_rejected_iff :
    (c : Shard) (ci : ShardInfo) (tick : ℕ) (c' : Shard)
    → (sync_shard c ci tick ≡ ok (c', true))
      ↔ ((ci.config_change_index < c.config_change_index) × (c' ≡ c))
unfolding sync_shard
sync_shard_rejected_iff c ci tick c' = (λ h. ground arith, λ h. ground arith)

module _ (c : Shard) (ci : ShardInfo) (tick : ℕ) (rs : Map ℕ Replica) (w : IsMap ci.replicas)
    (done : add_replicas ci.shard_id tick ci.replicas (delete_all (to_remove c ci) c.replicas)
      ≡ ok rs) where
  lookup-merged :
      (j : ℕ) → lookup j rs ≡ merged ci.shard_id tick j (lookup j ci.replicas) (lookup j c.replicas)
  unfolding merged added has
  lookup-merged j = ground (
    arith,
    lookup-add_replicas ci.shard_id tick ci.replicas (delete_all (to_remove c ci) c.replicas) rs j w
        done,
    lookup-delete_all-to_remove j c ci,
  )

  address_merged :
      (j : ℕ) → Option.map (λ (n : Replica). n.address) (lookup j rs) ≡ lookup j ci.replicas
  unfolding merged new_replica has
  address_merged j = elim (Option-cases (lookup j ci.replicas)) [
    | inl gone ↦ ground (arith, lookup-merged j)
    | inr (a, reported) ↦ elim (Option-cases (lookup j c.replicas)) [
      | inl new ↦ ground (arith, lookup-merged j)
      | inr (n, known) ↦ ground (
        arith,
        lookup-merged j,
        lookup-delete_all-to_remove j c ci,
        add_replicas-address ci.shard_id tick ci.replicas (delete_all (to_remove c ci) c.replicas)
            rs j a n w done reported,
      )
    ]
  ]

pub sync_shard-merged :
    (c : Shard) (ci : ShardInfo) (tick : ℕ) (c' : Shard)
    → IsMap ci.replicas
    → sync_shard c ci tick ≡ ok (c', false)
    → (c.config_change_index ≤ ci.config_change_index)
      × (c'.config_change_index ≡ ci.config_change_index)
      × (c'.shard_id ≡ c.shard_id)
      × ((j : ℕ)
          → (lookup j c'.replicas
              ≡ merged ci.shard_id tick j (lookup j ci.replicas) (lookup j c.replicas))
            × (Option.map (λ (n : Replica). n.address) (lookup j c'.replicas)
                ≡ lookup j ci.replicas))
sync_shard-merged c ci tick c' w h =
    let (rs, done, checked, after, newer) = sync_shard_parts c ci tick c' h in
    (
      newer,
      ground arith,
      ground arith,
      λ j. rw after (lookup-merged c ci tick rs w done j, address_merged c ci tick rs w done j),
    )
