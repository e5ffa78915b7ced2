-- ===== src/Scheduler.antt =====
-- scheduler.go: the state of the scheduler, and the requests that it builds. `Repairs`, `Restores`
-- and `Launches` have its tasks. A task takes the values of the random source that are left, and
-- returns those that it leaves. The server is read for its random source alone, so it is left out,
-- and so are the logs.
pub mod Repairs
pub mod Restores
pub mod Launches
pub mod Laws
pub mod Indices
use drummer.Base.{
  ℕ, ◌≡◌, refl, Bool, true, false, List, Option, none, some, [], ◌∷◌, length, map, ltb, ◌==◌,
  if◌then◌else◌, Bytes, nat_eq, Panic, shard_not_located,
}
use drummer.Base.Map.{Map, values}
use drummer.Pb as Pb
use drummer.Pb.{Config, Regions, Request, RequestType, NodeHostRequest, NodeHostInfo}
use drummer.ShardImage.{Replica, Shard, MultiShard, ReplicaToKill, get_to_kill_replicas}
use drummer.ShardImage.Repair.{ShardRepair, get_shard_for_repair}
use drummer.NodeHostImage.{NodeHostSpec, MultiNodeHost, to_array}
use drummer.Db.State.{SchedulerContext}

-- The two errors that a task returns.
pub data Refusal : Type 0 where
  not_enough_node_host not_enough_in_regions : Refusal

-- A task returns a value, or an error, or panics; it is `running` where the values of the random
-- source end before it does.
pub data Attempt {ℓ} (A : Type ℓ) : Type ℓ where
  value : A → Attempt A
  refused : Refusal → Attempt A
  panicked : Panic → Attempt A
  running : Attempt A

infixl 5 ◌>>=◌
abbrev pub ◌>>=◌ {ℓ κ} : {A : Type ℓ} {B : Type κ} → Attempt A → (A → Attempt B) → Attempt B
value a >>= k = k a
refused e >>= k = refused e
panicked p >>= k = panicked p
running >>= k = running

-- What a chain with a value says of its first step.
pub >>=-eq-value {ℓ κ} :
    {A : Type ℓ} {B : Type κ} (step : Attempt A) (k : A → Attempt B) (b : B)
    → (step >>= k) ≡ value b
    → (a : A) × (step ≡ value a) × (k a ≡ value b)
>>=-eq-value (value a) k b h = (a, refl, h)
>>=-eq-value (refused e) k b h = cc
>>=-eq-value (panicked p) k b h = cc
>>=-eq-value running k b h = cc

pub record Scheduler : Type 0 where
  pub config : Config
  pub shards : List Pb.Shard
  pub tick : ℕ
  pub regions : Option Regions
  pub multi_shard : MultiShard
  pub multi_node_host : MultiNodeHost
  pub shards_to_repair : List ShardRepair
  pub node_host_list : List NodeHostSpec
  pub replicas_to_kill : List ReplicaToKill

-- `updateSchedulerContext`. The list of the replicas to be killed is taken off the scheduler's own
-- copy of the image.
unfoldable pub update_scheduler_context :
    (List Replica → List Replica) → Scheduler → SchedulerContext → Scheduler
update_scheduler_context sort s sc =
    let (multi_shard, replicas_to_kill) = get_to_kill_replicas sc.shard_image in
    record s {
      tick = sc.tick;
      shards = values sc.shards;
      multi_shard = multi_shard;
      multi_node_host = sc.node_host_image;
      regions = sc.regions;
      shards_to_repair = get_shard_for_repair sort sc.shard_image sc.tick;
      node_host_list = to_array sc.node_host_image;
      replicas_to_kill = replicas_to_kill;
    }

unfoldable pub has_running_shard : Scheduler → Bool
has_running_shard s = ltb 0 (length s.multi_shard.shards)

-- The loop of `getShardSize` and of `getAppName`: the first definition of the shard.
unfoldable pub find_shard : List Pb.Shard → ℕ → Attempt Pb.Shard
find_shard [] shard_id = panicked shard_not_located
find_shard (c ∷ cs) shard_id = if c.shard_id == shard_id then value c else find_shard cs shard_id

unfoldable pub get_shard_size : Scheduler → ℕ → Attempt ℕ
get_shard_size s shard_id = do c ← find_shard s.shards shard_id; value (length c.members)

unfoldable pub get_app_name : Scheduler → ℕ → Attempt Bytes
get_app_name s shard_id = do c ← find_shard s.shards shard_id; value c.app_name

-- A request with the fields that its kind does not set.
abbrev pub plain_request : Request → Bytes → NodeHostRequest
plain_request change address = record {
  change = some change;
  replica_id_list = [];
  address_list = [];
  instantiate_replica_id = 0;
  raft_address = address;
  join = false;
  restore = false;
  app_name = [];
  config = none;
}

unfoldable pub get_kill_request : ReplicaToKill → NodeHostRequest
get_kill_request ntk =
    plain_request
      (record {
        type = RequestType.kill;
        shard_id = ntk.shard_id;
        members = ntk.replica_id ∷ [];
        app_name = [];
        conf_change_id = 0;
      })
      ntk.address

unfoldable pub kill_zombie_replicas : Scheduler → List NodeHostRequest
kill_zombie_replicas s = map get_kill_request s.replicas_to_kill

-- `getCreateRequest`; the code returns it as a list of one request.
unfoldable pub get_create_request :
    Scheduler → Replica → Shard → Bytes → Bool → Bool → NodeHostRequest
get_create_request s new_replica ci app_name join restore = record {
  change = some (record {
    type = RequestType.create;
    shard_id = ci.shard_id;
    members = map (λ n. n.replica_id) (values ci.replicas);
    app_name = [];
    conf_change_id = 0;
  });
  replica_id_list = map (λ n. n.replica_id) (values ci.replicas);
  address_list = map (λ n. n.address) (values ci.replicas);
  instantiate_replica_id = new_replica.replica_id;
  raft_address = new_replica.address;
  join = join;
  restore = restore;
  app_name = app_name;
  config = some s.config;
}

-- `getRepairCreateRequest`
unfoldable pub get_repair_create_request : Scheduler → Replica → Shard → Bytes → NodeHostRequest
get_repair_create_request s new_replica ci app_name =
    get_create_request s new_replica ci app_name true false

-- `getRestoreCreateRequest`
unfoldable pub get_restore_create_request : Scheduler → Replica → Shard → Bytes → NodeHostRequest
get_restore_create_request s new_replica ci app_name =
    get_create_request s new_replica ci app_name false true
