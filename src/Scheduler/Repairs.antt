-- ===== src/Scheduler/Repairs.antt =====
-- scheduler.go: the repair of shards that have a quorum.
use drummer.Base.{
  ℕ, ◌%◌, List, none, some, [], ◌∷◌, ◌++◌, length, get_elem?, ◌==◌, if◌then◌else◌, Bytes, nat_eq,
  bytes_eq, index_out_of_range, divide_by_zero,
}
use drummer.Base.Map.{lookup, has}
use drummer.Pb.{RequestType, NodeHostRequest}
use drummer.Settings.{node_host_ttl, unknown_region}
use drummer.ShardImage.{Replica}
use drummer.ShardImage.Repair.{ShardRepair, delete_required, create_required, add_required}
use drummer.NodeHostImage.{IdSet, NodeHostSpec}
use drummer.Filter.{NodeHostFilter, drummer_filter, drummer_region_filter}
use drummer.Selector.{Draws, find_suitable_node_host}
use drummer.Scheduler.{
  Attempt, value, refused, panicked, running, ◌>>=◌, not_enough_node_host, Scheduler,
  get_shard_size, get_app_name, plain_request, get_repair_create_request,
}

-- A call of the selector.
unfoldable pub choose :
    NodeHostFilter → List NodeHostSpec → ℕ → Draws → Attempt (List NodeHostSpec × Draws)
choose f input count draws = elim (find_suitable_node_host f input count draws) [
  | none ↦ running
  | some r ↦ value r
]

-- The first lines of `getReplacementNode`.
unfoldable pub region_of : Scheduler → Replica → Bytes
region_of s n = elim (lookup n.address s.multi_node_host.nodehosts) [
  | none ↦ unknown_region
  | some spec ↦ spec.region
]

unfoldable pub get_replacement_node :
    Scheduler → Replica → Draws → Attempt (List NodeHostSpec × Draws)
get_replacement_node s failed_replica draws = do
  (selected, draws') ←
      choose
        (drummer_region_filter (region_of s failed_replica) failed_replica.shard_id s.tick
          node_host_ttl)
        s.node_host_list 1 draws
  if length selected == 1
      then value (selected, draws')
      else choose (drummer_filter failed_replica.shard_id s.tick node_host_ttl) s.node_host_list 1
          draws'

-- `replicas[s.randomSrc.Int()%len(replicas)].Address`
unfoldable pub random_address : List Replica → Draws → Attempt (Bytes × Draws)
random_address replicas [] = running
random_address replicas (r ∷ draws) =
    if length replicas == 0
    then panicked divide_by_zero
    else (elim (get_elem? replicas (r % length replicas)) [
      | none ↦ panicked index_out_of_range
      | some n ↦ value (n.address, draws)
    ])

-- `replicas[0]`
unfoldable pub first_replica : List Replica → Attempt Replica
first_replica [] = panicked index_out_of_range
first_replica (n ∷ ns) = value n

-- `s.randomSrc.Uint64()`
unfoldable pub random_id : Draws → Attempt (ℕ × Draws)
random_id [] = running
random_id (r ∷ draws) = value (r, draws)

abbrev pub delete_request : ShardRepair → Replica → Bytes → NodeHostRequest
delete_request ctr n address =
    plain_request
      (record {
        type = RequestType.delete;
        shard_id = ctr.shard_id;
        members = n.replica_id ∷ [];
        app_name = [];
        conf_change_id = ctr.shard.config_change_index;
      })
      address

abbrev pub add_request : ShardRepair → ℕ → Bytes → Bytes → NodeHostRequest
add_request ctr new_replica_id new_address address =
    record (plain_request
      (record {
        type = RequestType.add;
        shard_id = ctr.shard_id;
        members = new_replica_id ∷ [];
        app_name = [];
        conf_change_id = ctr.shard.config_change_index;
      })
      address) { address_list = new_address ∷ [] }

-- The end of `getRepairAddRequest`, behind the choice of a nodehost.
unfoldable pub add_on : ShardRepair → List NodeHostSpec → Draws → Attempt (NodeHostRequest × Draws)
add_on ctr (selected_node ∷ []) draws = do
  (address, draws') ← random_address ctr.ok_replicas draws
  (new_replica_id, draws'') ← random_id draws'
  value (add_request ctr new_replica_id selected_node.address address, draws'')
add_on ctr _ draws = refused not_enough_node_host

unfoldable pub get_repair_add_request :
    Scheduler → Replica → ShardRepair → Draws → Attempt (NodeHostRequest × Draws)
get_repair_add_request s failed_replica ctr draws = do
  (selected, draws') ← get_replacement_node s failed_replica draws
  add_on ctr selected draws'

unfoldable pub get_repair_delete_request :
    Replica → ShardRepair → Draws → Attempt (NodeHostRequest × Draws)
get_repair_delete_request replica_to_delete ctr draws = do
  (address, draws') ← random_address ctr.ok_replicas draws
  value (delete_request ctr replica_to_delete address, draws')

-- The three branches of `repair`.
unfoldable pub repair_delete : ShardRepair → Draws → Attempt (List NodeHostRequest × Draws)
repair_delete cr draws = do
  n ← first_replica cr.failed_replicas
  (req, draws') ← get_repair_delete_request n cr draws
  value (req ∷ [], draws')

unfoldable pub repair_create :
    Scheduler → ShardRepair → Draws → Attempt (List NodeHostRequest × Draws)
repair_create s cr draws = do
  n ← first_replica cr.replicas_to_start
  app_name ← get_app_name s cr.shard_id
  value (get_repair_create_request s n cr.shard app_name ∷ [], draws)

unfoldable pub repair_add : Scheduler → ShardRepair → Draws → Attempt (List NodeHostRequest × Draws)
repair_add s cr draws = do
  n ← first_replica cr.failed_replicas
  (req, draws') ← get_repair_add_request s n cr draws
  value (req ∷ [], draws')

unfoldable pub repair_shard :
    Scheduler → ShardRepair → Draws → Attempt (List NodeHostRequest × Draws)
repair_shard s cr draws = do
  expected_shard_size ← get_shard_size s cr.shard_id
  if delete_required cr expected_shard_size
      then repair_delete cr draws
      else if create_required cr
      then repair_create s cr draws
      else if add_required cr
      then repair_add s cr draws
      else value ([], draws)

-- One round of the loop of `repair`: a shard that is being restored is passed over.
unfoldable pub repair_unless_restored :
    Scheduler → IdSet → ShardRepair → Draws → Attempt (List NodeHostRequest × Draws)
repair_unless_restored s restored cr draws =
    if has cr.shard_id restored then value ([], draws) else repair_shard s cr draws

unfoldable pub repair_all :
    Scheduler → IdSet → List ShardRepair → Draws → Attempt (List NodeHostRequest × Draws)
repair_all s restored [] draws = value ([], draws)
repair_all s restored (cr ∷ crs) draws = do
  (reqs, draws') ← repair_unless_restored s restored cr draws
  (rest, draws'') ← repair_all s restored crs draws'
  value (reqs ++ rest, draws'')

unfoldable pub repair : Scheduler → IdSet → Draws → Attempt (List NodeHostRequest × Draws)
repair s restored draws = repair_all s restored s.shards_to_repair draws
