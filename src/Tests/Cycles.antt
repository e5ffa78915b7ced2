-- ===== src/Tests/Cycles.antt =====
-- The scheduler, over a shard of three replicas, one of which has failed.
use drummer.Base as Base
use drummer.Base.{
  ℕ, ◌≡◌, ◌≢◌, refl, Bool, true, false, List, [], ◌∷◌, Option, none, some, any, length, ltb, Bytes,
  bytes, nat_eq, bytes_eq, bytes_beq, sub_u64, Outcome, ok, arith, Panic, get_elem?,
}
use drummer.Base.Map.{lookup, has, insert}
use drummer.Pb as Pb
use drummer.Pb.{Config, NodeHostRequest}
use drummer.ShardImage as Image
use drummer.ShardImage.{
  Replica, Shard, entity_failed, failed, waiting_to_be_started, is_ok, get_ok_replicas,
  get_replicas_to_start, get_failed_replicas,
}
use drummer.ShardImage.Repair.{
  ShardRepair, quorum, available, add_required, create_required, delete_required,
  need_to_be_restored, is_restorable, can_be_restored, ready_to_be_restored,
}
use drummer.NodeHostImage as Hosts
use drummer.NodeHostImage.{NodeHostSpec, has_log}
use drummer.Filter.{filter, filter_all, without_shard, is_live, in_region}
use drummer.Selector.{Draws, contains, select, pick, find_suitable_node_host}
use drummer.Db.Operations.{is_launch_requests}
use drummer.Validation.{
  valid_lengths, valid_first_member, validate_change, validate_request, validate_node_host_request,
  validate_all,
}
use drummer.Scheduler.{
  Attempt, value, refused, panicked, running, Scheduler, find_shard, get_shard_size, get_app_name,
  get_kill_request, kill_zombie_replicas, get_create_request, get_repair_create_request,
  get_restore_create_request, has_running_shard,
}
use drummer.Scheduler.Repairs.{
  choose, region_of, get_replacement_node, random_address, first_replica, random_id, add_on,
  get_repair_add_request, get_repair_delete_request, repair_delete, repair_create, repair_add,
  repair_shard, repair_unless_restored, repair_all, repair,
}
use drummer.Scheduler.Restores.{
  restore_replicas, mark, unavailable_to_restore, restore_unavailable, restore_unavailable_shards,
  failed_to_restore, restore_failed_shards, restore_failed, restore,
}
use drummer.Scheduler.Launches.{
  select_in_regions, member_addresses, launch_requests, launch_members, launch_on, launch_shard,
  get_launch_requests, launch,
}
use drummer.Scheduler.Laws.{IsRepair, repair_shard-IsRepair}
use drummer.Scheduler.Indices.{repair_shard_defined}
use drummer.Cycle.{restored_shards, validated, maintain_shards, or_nothing, launch_or_maintain}
use drummer.Cycle.Kinds.{maintain_shards-kind}
use drummer.Cycle.Launch.{IsLaunch, launch-IsLaunch}

unfoldable pub program : Unit {0}
unfolding lookup has insert Base.filter any bytes_beq sub_u64 entity_failed failed
    waiting_to_be_started is_ok get_ok_replicas get_replicas_to_start get_failed_replicas quorum
    available add_required create_required delete_required need_to_be_restored is_restorable
    can_be_restored ready_to_be_restored Hosts.available has_log filter filter_all without_shard
    is_live in_region contains select pick find_suitable_node_host valid_lengths valid_first_member
    validate_change validate_request validate_node_host_request validate_all find_shard
    get_shard_size get_app_name get_kill_request kill_zombie_replicas get_create_request
    get_repair_create_request get_restore_create_request has_running_shard choose region_of
    get_replacement_node random_address first_replica random_id add_on get_repair_add_request
    get_repair_delete_request repair_delete repair_create repair_add repair_shard
    repair_unless_restored repair_all repair restore_replicas mark unavailable_to_restore
    restore_unavailable restore_unavailable_shards failed_to_restore restore_failed_shards
    restore_failed restore select_in_regions member_addresses launch_requests launch_members
    launch_on launch_shard get_launch_requests launch restored_shards validated maintain_shards
    or_nothing launch_or_maintain
program = tt

abbrev replica : ℕ → Bytes → ℕ → Replica
replica id address tick = record {
  shard_id = 1;
  replica_id = id;
  address = address;
  is_leader = false;
  tick = tick;
  first_observed = 10;
}

abbrev host : Bytes → NodeHostSpec
host address = record {
  address = address;
  rpc_address = [];
  region = bytes "r1";
  tick = 190;
  persistent_log = [];
  shards = [];
}

-- Replica 3 has been silent for 180 ticks.
abbrev view : ShardRepair
view = record {
  shard_id = 1;
  shard = record {
    shard_id = 1;
    config_change_index = 100;
    replicas =
        (1, replica 1 (bytes "a1") 190)
        ∷ (2, replica 2 (bytes "a2") 190)
        ∷ (3, replica 3 (bytes "a3") 20)
        ∷ [];
  };
  failed_replicas = replica 3 (bytes "a3") 20 ∷ [];
  ok_replicas = replica 1 (bytes "a1") 190 ∷ replica 2 (bytes "a2") 190 ∷ [];
  replicas_to_start = [];
}

abbrev pub config : Config
config = record {
  election_rtt = 20;
  heartbeat_rtt = 1;
  check_quorum = true;
  compaction_overhead = 0;
  snapshot_entries = 0;
  raft_shard_addresses = [];
  drummer_address = [];
  drummer_node_id = 0;
  drummer_node_host_directory = [];
  drummer_wal_directory = [];
  mutual_tls = false;
  ca_file = [];
  cert_file = [];
  key_file = [];
  max_in_mem_log_size = 0;
}

abbrev shard_one : Pb.Shard
shard_one = record { members = 1 ∷ 2 ∷ 3 ∷ []; shard_id = 1; app_name = bytes "app" }

abbrev pub scheduler : Scheduler
scheduler = record {
  config = config;
  shards = shard_one ∷ [];
  tick = 200;
  regions = some (record { region = bytes "r1" ∷ []; count = 3 ∷ [] });
  multi_shard = Image.empty;
  multi_node_host = Hosts.empty;
  shards_to_repair = view ∷ [];
  node_host_list = host (bytes "a4") ∷ host (bytes "a5") ∷ host (bytes "a6") ∷ [];
  replicas_to_kill = record { shard_id = 1; replica_id = 9; address = bytes "a9" } ∷ [];
}

-- The values that the random source returns.
abbrev draws : Draws
draws = 1 ∷ 0 ∷ 12 ∷ 7 ∷ 8 ∷ []

abbrev value_or {ℓ} : {A : Type ℓ} → A → Attempt A → A
value_or a (value x) = x
value_or a (refused e) = a
value_or a (panicked p) = a
value_or a running = a

repairs : List NodeHostRequest × Draws
unfolding program
repairs = value_or ([], []) (repair_shard scheduler view draws)

-- Replica 3 has failed: a replica 12 on a5 is to be added, by way of replica 1.
repairs_added : (length repairs.0 ≡ 1) × (repairs.1 ≡ 7 ∷ 8 ∷ [])
unfolding program repairs
repairs_added = (refl, refl)

repair_shard-IsRepair_example : IsRepair scheduler view repairs.0
unfolding program repairs
repair_shard-IsRepair_example = repair_shard-IsRepair scheduler view draws repairs.0 repairs.1 refl

maintained : List NodeHostRequest
unfolding program
maintained = value_or [] (maintain_shards scheduler draws)

maintained_two : length maintained ≡ 2
unfolding program maintained
maintained_two = refl

maintain_shards-kind_example : is_launch_requests (record { requests = maintained }) ≡ ok false
unfolding program maintained
maintain_shards-kind_example = maintain_shards-kind scheduler draws maintained refl

launched : List NodeHostRequest × Draws
unfolding program
launched = value_or ([], []) (launch scheduler draws)

launch-IsLaunch_example :
    IsLaunch scheduler scheduler.shards launched.0
    × (is_launch_requests (record { requests = launched.0 }) ≡ ok (ltb 0 (length launched.0)))
unfolding program launched
launch-IsLaunch_example = launch-IsLaunch scheduler draws launched.0 launched.1 refl

repair_shard_defined_example : repair_shard scheduler view draws ≢ panicked Panic.divide_by_zero
unfolding program
repair_shard_defined_example =
    repair_shard_defined scheduler view shard_one draws Panic.divide_by_zero refl
