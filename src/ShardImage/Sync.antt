-- ===== src/ShardImage/Sync.antt =====
-- shardimage.go: `syncShard`, `killRequestRequired` and `getShard`, by which one reported shard
-- reaches the record that Drummer keeps of it.
use drummer.Base.{
  ℕ, Bool, true, false, not, List, none, some, [], ◌∷◌, length, filter, any, ltb, leb, ◌==◌,
  if◌then◌else◌, Bytes, nat_eq, bytes_eq, Outcome, ok, panic, panic_if, ◌>>=◌, ◌>>◌,
  node_count_differs, node_id_differs, address_changed, address_duplicated,
}
use drummer.Base.Map.{Map, lookup, has, insert, modify, delete, keys, values}
use drummer.Pb.{ShardInfo}
use drummer.ShardImage.{Replica, Shard}

-- `killRequestRequired`: the record is newer than the report, and knows of no such replica.
unfoldable pub kill_request_required : Shard → ShardInfo → Bool
kill_request_required c ci =
    if leb c.config_change_index ci.config_change_index
    then false
    else not (any (λ nid. nid == ci.replica_id) (keys c.replicas))

-- A replica as it is first recorded.
unfoldable pub new_replica : ℕ → ℕ → Bytes → ℕ → Replica
new_replica shard_id replica_id address tick = record {
  shard_id = shard_id;
  replica_id = replica_id;
  address = address;
  is_leader = false;
  tick = 0;
  first_observed = tick;
}

-- The checks of a report with the index of the record: the same replicas on both sides.
unfoldable pub check_same_index : Shard → ShardInfo → Outcome (Unit {0})
check_same_index c ci =
    if c.config_change_index == ci.config_change_index
    then (do
      panic_if (not (length c.replicas == length ci.replicas)) node_count_differs
      panic_if (any (λ nid. not (has nid c.replicas)) (keys ci.replicas)) node_id_differs)
    else ok tt

-- The ids that the report no longer has.
unfoldable pub to_remove : Shard → ShardInfo → List ℕ
to_remove c ci = filter (λ nid. not (has nid ci.replicas)) (keys c.replicas)

unfoldable pub delete_all : List ℕ → Map ℕ Replica → Map ℕ Replica
delete_all [] replicas = replicas
delete_all (nid ∷ nids) replicas = delete_all nids (delete nid replicas)

-- One round of the loop over the reported replicas.
unfoldable pub add_replica : ℕ → ℕ → ℕ → Bytes → Map ℕ Replica → Outcome (Map ℕ Replica)
add_replica shard_id last_tick replica_id address replicas = elim (lookup replica_id replicas) [
  | none ↦ ok (insert replica_id (new_replica shard_id replica_id address last_tick) replicas)
  | some n ↦ if n.address == address then ok replicas else panic address_changed
]

unfoldable pub add_replicas : ℕ → ℕ → Map ℕ Bytes → Map ℕ Replica → Outcome (Map ℕ Replica)
add_replicas shard_id last_tick [] replicas = ok replicas
add_replicas shard_id last_tick ((replica_id, address) ∷ reported) replicas = do
  replicas' ← add_replica shard_id last_tick replica_id address replicas
  add_replicas shard_id last_tick reported replicas'

-- The loop over `addrMap`: no two replicas at one address.
unfoldable pub check_addresses : List Bytes → List Replica → Outcome (Unit {0})
check_addresses seen [] = ok tt
check_addresses seen (n ∷ ns) = do
  panic_if (any (λ a. a == n.address) seen) address_duplicated
  check_addresses (n.address ∷ seen) ns

-- `syncShard`: the record afterwards, and whether the report was rejected as out of date.
unfoldable pub sync_shard : Shard → ShardInfo → ℕ → Outcome (Shard × Bool)
sync_shard c ci last_tick =
    if ltb ci.config_change_index c.config_change_index then ok (c, true) else (do
      check_same_index c ci
      replicas ←
          add_replicas ci.shard_id last_tick ci.replicas (delete_all (to_remove c ci) c.replicas)
      check_addresses [] (values replicas)
      ok (record c { config_change_index = ci.config_change_index; replicas = replicas }, false))

-- The loop of `getShard`.
unfoldable pub get_replicas : ℕ → ℕ → Map ℕ Bytes → Map ℕ Replica → Map ℕ Replica
get_replicas shard_id tick [] replicas = replicas
get_replicas shard_id tick ((replica_id, address) ∷ reported) replicas =
    get_replicas shard_id tick reported
      (insert replica_id (new_replica shard_id replica_id address tick) replicas)

-- `getShard`: the first record of a shard.
unfoldable pub get_shard : ShardInfo → ℕ → Shard
get_shard ci tick = record {
  shard_id = ci.shard_id;
  config_change_index = ci.config_change_index;
  replicas =
      modify ci.replica_id (λ n. record n { is_leader = ci.is_leader })
        (get_replicas ci.shard_id tick ci.replicas []);
}
