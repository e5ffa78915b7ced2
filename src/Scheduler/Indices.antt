-- ===== src/Scheduler/Indices.antt =====
-- scheduler.go: the lists that a repair indexes, and the numbers that it divides by.
use drummer.Base.{
  ℕ, zero, suc, ◌%◌, ◌≡◌, ◌≢◌, refl, ◌<◌, List, some, [], ◌∷◌, length, get_elem?, ◌==◌, nat_eq,
  arith, Bool-cases, Option-cases, inl, inr, ◌⊎◌, Panic,
}
use drummer.Pb as Pb
use drummer.Pb.{NodeHostRequest}
use drummer.ShardImage.{Replica}
use drummer.ShardImage.Repair.{
  ShardRepair, quorum, available, delete_required, create_required, add_required,
}
use drummer.NodeHostImage.{NodeHostSpec}
use drummer.Settings.{node_host_ttl}
use drummer.Filter.{NodeHostFilter, drummer_filter}
use drummer.Selector.{Draws, find_suitable_node_host}
use drummer.Scheduler.{
  Attempt, value, refused, panicked, running, ◌>>=◌, Scheduler, find_shard, get_shard_size,
  get_app_name,
}
use drummer.Scheduler.Repairs.{
  choose, get_replacement_node, first_replica, random_address, random_id, get_repair_delete_request,
  get_repair_add_request, add_on, repair_delete, repair_create, repair_add, repair_shard,
}

-- A panic of a chain is one of its steps.
>>=-panicked {ℓ κ} :
    {A : Type ℓ} {B : Type κ} (step : Attempt A) (k : A → Attempt B) (p : Panic)
    → (step >>= k) ≡ panicked p
    → (step ≡ panicked p) ⊎ ((a : A) × (step ≡ value a) × (k a ≡ panicked p))
>>=-panicked (value a) k p h = inr (a, refl, h)
>>=-panicked (refused e) k p h = absurd (ground arith)
>>=-panicked (panicked q) k p h = inl (ground arith)
>>=-panicked running k p h = absurd (ground arith)

get_elem?_total :
    (ns : List Replica) (i : ℕ) → i < length ns → (n : Replica) × (get_elem? ns i ≡ some n)
get_elem?_total [] i lt = absurd (omega arith)
get_elem?_total (n ∷ ns) zero lt = (n, refl)
get_elem?_total (n ∷ ns) (suc i) lt = get_elem?_total ns i (omega arith)

random_address_defined :
    (ns : List Replica) (draws : Draws) (p : Panic)
    → 0 < length ns
    → random_address ns draws ≢ panicked p
unfolding random_address
random_address_defined ns [] p pos h = absurd (ground arith)
random_address_defined ns (r ∷ draws) p pos h =
    let (n, found) = get_elem?_total ns (r % length ns) (grind arith) in absurd (ground arith)

first_replica_defined :
    (ns : List Replica) (p : Panic) → 0 < length ns → first_replica ns ≢ panicked p
unfolding first_replica
first_replica_defined [] p pos h = absurd (omega arith)
first_replica_defined (n ∷ ns) p pos h = absurd (ground arith)

choose_defined :
    (f : NodeHostFilter) (input : List NodeHostSpec) (count : ℕ) (draws : Draws) (p : Panic)
    → choose f input count draws ≢ panicked p
unfolding choose
choose_defined f input count draws p h =
    absurd (ground (arith, Option-cases (find_suitable_node_host f input count draws)))

random_id_defined : (draws : Draws) (p : Panic) → random_id draws ≢ panicked p
unfolding random_id
random_id_defined [] p h = absurd (ground arith)
random_id_defined (r ∷ draws) p h = absurd (ground arith)

add_on_defined :
    (cr : ShardRepair) (selected : List NodeHostSpec) (draws : Draws) (p : Panic)
    → 0 < length cr.ok_replicas
    → add_on cr selected draws ≢ panicked p
unfolding add_on random_id
add_on_defined cr [] draws p pos h = absurd (ground arith)
add_on_defined cr (v ∷ w ∷ vs) draws p pos h = absurd (ground arith)
add_on_defined cr (v ∷ []) draws p pos h =
    elim (>>=-panicked (random_address cr.ok_replicas draws) _ p h) [
      | inl stuck ↦ random_address_defined cr.ok_replicas draws p pos stuck
      | inr ((address, mid), e, h') ↦ elim (>>=-panicked (random_id mid) _ p h') [
        | inl stuck ↦ random_id_defined mid p stuck
        | inr (r, e', h'') ↦ absurd (ground arith)
      ]
    ]

get_replacement_node_defined :
    (s : Scheduler) (n : Replica) (draws : Draws) (p : Panic)
    → get_replacement_node s n draws ≢ panicked p
unfolding get_replacement_node
get_replacement_node_defined s n draws p h =
    elim (>>=-panicked (choose _ s.node_host_list 1 draws) _ p h) [
      | inl stuck ↦ choose_defined _ s.node_host_list 1 draws p stuck
      | inr ((selected, mid), e, h') ↦ elim (Bool-cases (length selected == 1)) [
        | inl one ↦ absurd (ground arith)
        | inr other ↦
            choose_defined (drummer_filter n.shard_id s.tick node_host_ttl) s.node_host_list 1 mid p
              (ground arith)
      ]
    ]

repair_delete_defined :
    (cr : ShardRepair) (draws : Draws) (p : Panic)
    → 0 < length cr.failed_replicas
    → 0 < length cr.ok_replicas
    → repair_delete cr draws ≢ panicked p
unfolding repair_delete get_repair_delete_request
repair_delete_defined cr draws p some_failed some_ok h =
    elim (>>=-panicked (first_replica cr.failed_replicas) _ p h) [
      | inl stuck ↦ first_replica_defined cr.failed_replicas p some_failed stuck
      | inr (n, e, h') ↦ elim (>>=-panicked (get_repair_delete_request n cr draws) _ p h') [
        | inl stuck ↦ elim (>>=-panicked (random_address cr.ok_replicas draws) _ p stuck) [
          | inl stuck' ↦ random_address_defined cr.ok_replicas draws p some_ok stuck'
          | inr (a, e', h'') ↦ absurd (ground arith)
        ]
        | inr (r, e', h'') ↦ absurd (ground arith)
      ]
    ]

repair_create_defined :
    (s : Scheduler) (cr : ShardRepair) (c : Pb.Shard) (draws : Draws) (p : Panic)
    → find_shard s.shards cr.shard_id ≡ value c
    → 0 < length cr.replicas_to_start
    → repair_create s cr draws ≢ panicked p
unfolding repair_create get_app_name
repair_create_defined s cr c draws p known some_waiting h =
    elim (>>=-panicked (first_replica cr.replicas_to_start) _ p h) [
      | inl stuck ↦ first_replica_defined cr.replicas_to_start p some_waiting stuck
      | inr (n, e, h') ↦ absurd (ground arith)
    ]

repair_add_defined :
    (s : Scheduler) (cr : ShardRepair) (draws : Draws) (p : Panic)
    → 0 < length cr.failed_replicas
    → 0 < length cr.ok_replicas
    → repair_add s cr draws ≢ panicked p
unfolding repair_add get_repair_add_request
repair_add_defined s cr draws p some_failed some_ok h =
    elim (>>=-panicked (first_replica cr.failed_replicas) _ p h) [
      | inl stuck ↦ first_replica_defined cr.failed_replicas p some_failed stuck
      | inr (n, e, h') ↦ elim (>>=-panicked (get_repair_add_request s n cr draws) _ p h') [
        | inl stuck ↦ elim (>>=-panicked (get_replacement_node s n draws) _ p stuck) [
          | inl stuck' ↦ get_replacement_node_defined s n draws p stuck'
          | inr ((selected, mid), e', h'') ↦ add_on_defined cr selected mid p some_ok h''
        ]
        | inr (r, e', h'') ↦ absurd (ground arith)
      ]
    ]

-- The repair of a shard that has a definition does not panic, whatever the random source returns:
-- each list that it indexes has an element then, and the number that it divides by is not 0.
pub repair_shard_defined :
    (s : Scheduler) (cr : ShardRepair) (c : Pb.Shard) (draws : Draws) (p : Panic)
    → find_shard s.shards cr.shard_id ≡ value c
    → repair_shard s cr draws ≢ panicked p
unfolding repair_shard get_shard_size delete_required create_required add_required available quorum
repair_shard_defined s cr c draws p known h =
    let size = length c.members in
    elim (Bool-cases (delete_required cr size)) [
      | inl first ↦ repair_delete_defined cr draws p (ground arith) (ground arith) (ground arith)
      | inr other ↦ elim (Bool-cases (create_required cr)) [
        | inl second ↦ repair_create_defined s cr c draws p known (ground arith) (ground arith)
        | inr other' ↦ elim (Bool-cases (add_required cr)) [
          | inl third ↦ repair_add_defined s cr draws p (ground arith) (ground arith) (ground arith)
          | inr other'' ↦ absurd (ground arith)
        ]
      ]
    ]
