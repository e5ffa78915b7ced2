-- ===== src/Tests/Images.antt =====
-- The images of shards and nodehosts.
use mathlib.Core.Option
use drummer.Base.{
  ℕ, ◌+◌, ◌≡◌, refl, ◌<◌, ◌↔◌, ◌⊎◌, ◌||◌, true, [], ◌∷◌, none, some, length, any, All, bytes,
  nat_eq, bytes_eq, bytes_beq, sub_u64, u64_mod, arith, ◌==◌, filter,
}
use drummer.Base.Map.{lookup, has, insert, modify, map_values, delete}
use drummer.Pb as Pb
use drummer.Pb.{NodeHostInfo}
use drummer.ShardImage as Image
use drummer.ShardImage.{
  Shard, MultiShard, ReplicaToKill, entity_failed, failed, waiting_to_be_started, is_ok,
  get_ok_replicas, get_replicas_to_start, get_failed_replicas,
}
use drummer.ShardImage.Sync.{
  kill_request_required, new_replica, check_same_index, to_remove, delete_all, add_replica,
  add_replicas, check_addresses, sync_shard, get_replicas, get_shard,
}
use drummer.ShardImage.Update.{
  is_zombie, update_shard, update_shards, update_tick, update_node_tick, do_update, set_leader_info,
  sync_leader, sync_leader_info, update,
}
use drummer.ShardImage.Growth.{Condemned, update_shard_kill_iff}
use drummer.ShardImage.Repair.{
  ShardRepair, quorum, available, need_to_be_restored, is_restorable, ready_to_be_restored,
  to_shard_repair, to_shard_repairs, get_shard_for_repair,
}
use drummer.ShardImage.Health.{entity_failed_iff, get_shard_for_repair-AgreesWithShard}
use drummer.NodeHostImage as Hosts
use drummer.NodeHostImage.{
  NodeHostSpec, MultiNodeHost, has_log, add_ids, to_node_host_spec, sync_node_host_spec, add_shard,
  add_shards, sync_shard_info,
}
use drummer.NodeHostImage.Hosts.{lists, hosted, updates, updates-rpc_address, report-lists}
use drummer.Tests.Samples.{info, moved, zombie, report, zombie_report, value_or}

program : Unit {0}
unfolding lookup has insert modify map_values delete filter any bytes_beq sub_u64 entity_failed
    failed waiting_to_be_started is_ok get_ok_replicas get_replicas_to_start get_failed_replicas
    kill_request_required new_replica check_same_index to_remove delete_all add_replica add_replicas
    check_addresses sync_shard get_replicas get_shard is_zombie update_shard update_shards
    update_tick update_node_tick do_update set_leader_info sync_leader sync_leader_info update
    quorum available need_to_be_restored is_restorable ready_to_be_restored to_shard_repair
    to_shard_repairs get_shard_for_repair Hosts.available has_log add_ids to_node_host_spec
    sync_node_host_spec Hosts.update add_shard add_shards sync_shard_info Image.quorum
    Image.available
program = tt

-- The image after the first report.
known : MultiShard
unfolding program
known = value_or Image.empty (update Image.empty report)

-- The test of the repository: a replica that the shard no longer has is reported for its end.
zombie_killed :
    (value_or Image.empty (update known zombie_report)).replicas_to_kill
    ≡ record { shard_id = 1; replica_id = 9; address = bytes "a9" } ∷ []
unfolding program known
zombie_killed = refl

abbrev first : Shard
first = get_shard info 100

abbrev second : Shard
second = (value_or (first, true) (sync_shard first moved 200)).0

update_shard_kill_iff_example : (true ≡ true) ↔ (
    (c : Shard) × (lookup 1 known.shards ≡ some c)
    × Condemned c zombie
    × ((zombie.pending || zombie.incomplete) ≡ true → 0 < length c.replicas))
unfolding program known
update_shard_kill_iff_example = update_shard_kill_iff known.shards zombie 200 known.shards true refl

entity_failed_iff_example :
    (entity_failed 100 161 ≡ true) ↔ ((160 < 161) ⊎ ((161 < 100) × (160 < 161 + u64_mod)))
entity_failed_iff_example = entity_failed_iff 100 161 (omega arith) (omega arith)

get_shard_for_repair-AgreesWithShard_example :
    All
      (λ cr. (quorum cr ≡ Image.quorum cr.shard) × (available cr ≡ Image.available cr.shard 200))
      (get_shard_for_repair (λ l. l) known 200)
get_shard_for_repair-AgreesWithShard_example =
    get_shard_for_repair-AgreesWithShard (λ l. l) (λ l. refl) 200 known

-- At tick 200 nobody has reported for long: the one replica that ever did has failed.
abbrev dead : ShardRepair
dead =
    to_shard_repair (λ l. l) 300
      (record first {
        replicas =
            (
              2,
              record {
                shard_id = 1;
                replica_id = 2;
                address = bytes "a2";
                is_leader = true;
                tick = 100;
                first_observed = 50;
              },
            )
            ∷ [];
      })

-- The nodehost is back at tick 300, with its logs.
abbrev back : MultiNodeHost
back = Hosts.update Hosts.empty (record report { last_tick = 300 })

report-lists_example :
    lists 1 (bytes "a2") (sync_shard_info (Hosts.update Hosts.empty report) known).nodehosts
    ≡ (any {A = ℕ} (λ x. x == 1) (1 ∷ []) || hosted 1 (bytes "a2") known.shards)
unfolding program known
report-lists_example = report-lists Hosts.empty known report 1 (refl, tt)

-- The nodehost comes back at another RPC address.
abbrev relocated : NodeHostInfo
relocated = record report { rpc_address = bytes "p9"; last_tick = 300 }

updates-rpc_address_example :
    (spec : NodeHostSpec) × (lookup
        (bytes "a2")
        (updates (Hosts.update Hosts.empty report) (relocated ∷ [])).nodehosts
      ≡ some spec)
    × (spec.rpc_address ≡ report.rpc_address)
unfolding program
updates-rpc_address_example = updates-rpc_address Hosts.empty report (relocated ∷ []) refl

told : Shard
unfolding program known
told = elim (lookup 1 known.shards) [ none ↦ first | some c ↦ c ]
