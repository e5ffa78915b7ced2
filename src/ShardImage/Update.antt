-- ===== src/ShardImage/Update.antt =====
-- shardimage.go: `update`, by which a report of a nodehost reaches the image, and the copies that
-- the image hands out.
use drummer.Base.{
  ℕ, Bool, true, false, not, ◌&&◌, ◌||◌, List, Option, none, some, [], ◌∷◌, ◌++◌, length, map, ltb,
  ◌==◌, if◌then◌else◌, nat_eq, Outcome, ok, ◌>>=◌,
}
use drummer.Base.Map.{Map, lookup, insert, modify, map_values}
use drummer.Pb.{ShardInfo, NodeHostInfo}
use drummer.ShardImage.{Replica, Shard, MultiShard}
use drummer.ShardImage.Sync.{kill_request_required, sync_shard, get_shard}

-- The test that a report with partial information is held to.
unfoldable pub is_zombie : Shard → ShardInfo → Bool
is_zombie ec ci =
    not (length ec.replicas == 0) && ltb 0 ec.config_change_index && kill_request_required ec ci

-- One round of the loop of `doUpdate` (a pending and an incomplete report take one branch here, as
-- the code makes the same test for both): the shards afterwards, and whether the reported replica is
-- to be killed.
unfoldable pub update_shard : Map ℕ Shard → ShardInfo → ℕ → Outcome (Map ℕ Shard × Bool)
update_shard shards ci last_tick =
    if ci.pending || ci.incomplete
    then (elim (lookup ci.shard_id shards) [
      | none ↦ ok (shards, false)
      | some ec ↦ ok (shards, is_zombie ec ci)
    ])
    else (elim (lookup ci.shard_id shards) [
      | none ↦ ok (insert ci.shard_id (get_shard ci last_tick) shards, false)
      | some ec ↦ do
        (ec', rejected) ← sync_shard ec ci last_tick
        ok (insert ci.shard_id ec' shards, rejected && kill_request_required ec' ci)
    ])

-- The loop of `doUpdate`.
unfoldable pub update_shards :
    Map ℕ Shard → List ShardInfo → ℕ → Outcome (Map ℕ Shard × List ShardInfo)
update_shards shards [] last_tick = ok (shards, [])
update_shards shards (ci ∷ cis) last_tick = do
  (shards', kill) ← update_shard shards ci last_tick
  (shards'', to_kill) ← update_shards shards' cis last_tick
  ok (shards'', if kill then ci ∷ to_kill else to_kill)

-- One round of `updateNodeTick`, and the loop.
unfoldable pub update_tick : ℕ → ShardInfo → Map ℕ Shard → Map ℕ Shard
update_tick last_tick ci shards =
    modify ci.shard_id
      (λ ec. record ec {
        replicas = modify ci.replica_id (λ n. record n { tick = last_tick }) ec.replicas;
      })
      shards

unfoldable pub update_node_tick : ℕ → List ShardInfo → Map ℕ Shard → Map ℕ Shard
update_node_tick last_tick [] shards = shards
update_node_tick last_tick (ci ∷ cis) shards =
    update_node_tick last_tick cis (update_tick last_tick ci shards)

-- `doUpdate`
unfoldable pub do_update : Map ℕ Shard → NodeHostInfo → Outcome (Map ℕ Shard × List ShardInfo)
do_update shards nhi = do
  (shards', to_kill) ← update_shards shards nhi.shard_info nhi.last_tick
  ok (update_node_tick nhi.last_tick nhi.shard_info shards', to_kill)

-- The branches of `syncLeaderInfo` on one replica `n` of a shard.
unfoldable pub set_leader_info : ShardInfo → Replica → Map ℕ Replica → Map ℕ Replica
set_leader_info ci n replicas =
    if not ci.is_leader && n.is_leader
    then modify ci.replica_id (λ n. record n { is_leader = false }) replicas
    else if ci.is_leader && not n.is_leader
    then modify ci.replica_id (λ n. record n { is_leader = true })
        (map_values (λ n. record n { is_leader = false }) replicas)
    else replicas

-- One round of `syncLeaderInfo` on the record that it finds, and the loop.
unfoldable pub sync_leader : ShardInfo → Shard → Shard
sync_leader ci c =
    if ltb ci.config_change_index c.config_change_index
    then c
    else (elim (lookup ci.replica_id c.replicas) [
      | none ↦ c
      | some n ↦ record c { replicas = set_leader_info ci n c.replicas }
    ])

unfoldable pub sync_leader_info : List ShardInfo → Map ℕ Shard → Map ℕ Shard
sync_leader_info [] shards = shards
sync_leader_info (ci ∷ cis) shards =
    sync_leader_info cis (modify ci.shard_id (sync_leader ci) shards)

-- `(mc *multiShard) update`
unfoldable pub update : MultiShard → NodeHostInfo → Outcome MultiShard
update mc nhi = do
  (shards, to_kill) ← do_update mc.shards nhi
  ok (record mc {
    shards = sync_leader_info nhi.shard_info shards;
    replicas_to_kill =
        mc.replicas_to_kill
        ++ map
            (λ ntk. record {
              shard_id = ntk.shard_id;
              replica_id = ntk.replica_id;
              address = nhi.raft_address;
            })
            to_kill;
  })

-- The record that `deepCopy` builds holds the fields of the original, and `getShardInfo` hands it out.
unfoldable pub get_shard_info : MultiShard → ℕ → Option Shard
get_shard_info mc shard_id = lookup shard_id mc.shards
