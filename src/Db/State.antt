-- ===== src/Db/State.antt =====
-- db.go: the state of the DB, and the small readers of it.
use drummer.Base.{Option}
use drummer.Base.{
  ℕ, Bool, true, false, ◌&&◌, List, [], ◌∷◌, length, filter, ltb, ◌==◌, if◌then◌else◌, Bytes, bytes,
  nat_eq, bytes_eq, Outcome, ok, ◌>>◌, panic_if, system_failed,
}
use drummer.Base.Map.{Map, has, insert, values}
use drummer.Pb as Pb
use drummer.Pb.{NodeHostInfo, NodeHostRequest}
use drummer.ShardImage as ShardImage
use drummer.ShardImage.{Shard, MultiShard}
use drummer.NodeHostImage as NodeHostImage
use drummer.NodeHostImage.{IdSet, MultiNodeHost}

-- The keys that the DB itself reads and writes.
abbrev pub launched_key : Bytes
launched_key = bytes "launched-flag"

abbrev pub bootstrapped_key : Bytes
bootstrapped_key = bytes "bootstrapped-flag"

abbrev pub election_key : Bytes
election_key = bytes "election-key"

abbrev pub regions_key : Bytes
regions_key = bytes "regions-key"

abbrev pub deployment_id_key : Bytes
deployment_id_key = bytes "deployment-id"

-- The results of a shard update.
abbrev pub db_updated : ℕ
db_updated = 0

abbrev pub shard_exists : ℕ
shard_exists = 1

abbrev pub db_bootstrapped : ℕ
db_bootstrapped = 2

-- The results of a key-value update.
abbrev pub db_kv_updated : ℕ
db_kv_updated = 0

abbrev pub db_kv_finalized : ℕ
db_kv_finalized = 1

abbrev pub db_kv_rejected : ℕ
db_kv_rejected = 2

abbrev pub current_version : ℕ
current_version = 1

-- `KVMap` holds marshalled `Kv` records.
pub record Db : Type 0 where
  pub shard_id : ℕ
  pub replica_id : ℕ
  pub version : ℕ
  pub tick : ℕ
  pub launch_deadline : ℕ
  pub failed : Bool
  pub shards : Map ℕ Pb.Shard
  pub kv_map : Map Bytes Bytes
  pub shard_image : MultiShard
  pub node_host_image : MultiNodeHost
  pub node_host_info : Map Bytes NodeHostInfo
  pub requests : Map Bytes (List NodeHostRequest)
  pub outgoing : Map Bytes (List NodeHostRequest)

-- The copy of the DB that the scheduler reads.
pub record SchedulerContext : Type 0 where
  pub tick : ℕ
  pub shards : Map ℕ Pb.Shard
  pub regions : Option Pb.Regions
  pub shard_image : MultiShard
  pub node_host_image : MultiNodeHost
  pub node_host_info : Map Bytes NodeHostInfo

-- `NewDB`
unfoldable pub new_db : ℕ → ℕ → Db
new_db shard_id replica_id = record {
  shard_id = shard_id;
  replica_id = replica_id;
  version = current_version;
  tick = 0;
  launch_deadline = 0;
  failed = false;
  shards = [];
  kv_map = [];
  shard_image = ShardImage.empty;
  node_host_image = NodeHostImage.empty;
  node_host_info = [];
  requests = [];
  outgoing = [];
}

unfoldable pub assert_not_failed : Db → Outcome (Unit {0})
assert_not_failed d = panic_if d.failed system_failed

unfoldable pub launched : Db → Bool
launched d = has launched_key d.kv_map

unfoldable pub bootstrapped : Db → Bool
bootstrapped d = has bootstrapped_key d.kv_map

-- The test of `getLaunchedShards`: each replica has reported. The code counts those that have.
unfoldable pub is_launched : Shard → Bool
is_launched c = length (filter (λ n. ltb 0 n.tick) (values c.replicas)) == length c.replicas

-- The loop of `getLaunchedShards`.
unfoldable pub add_launched : List Shard → IdSet → IdSet
add_launched [] ids = ids
add_launched (c ∷ cs) ids =
    add_launched cs (if is_launched c then insert c.shard_id tt ids else ids)

unfoldable pub get_launched_shards : Db → IdSet
get_launched_shards d = add_launched (values d.shard_image.shards) []

unfoldable pub on_updated_shard_info : Db → Db
on_updated_shard_info d =
    if ltb 0 d.launch_deadline && (length (get_launched_shards d) == length d.shards)
    then record d { launch_deadline = 0 }
    else d

-- `checkLaunchDeadline`
unfoldable pub check_launch_deadline : Db → Outcome Db
check_launch_deadline d =
    let d' =
      if ltb 0 d.launch_deadline && ltb d.launch_deadline d.tick
      then record d { failed = true }
      else d in
    (do assert_not_failed d'; ok d')
