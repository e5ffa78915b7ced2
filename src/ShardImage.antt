-- ===== src/ShardImage.antt =====
-- shardimage.go: what Drummer knows of the Raft shards, from the reports of the nodehosts.
-- This file has the types and the health of replicas and shards; the children have the update by
-- a report (Sync, Update), the repair view (Repair), and the proofs.
pub mod Sync
pub mod Update
pub mod Merge
pub mod Replicas
pub mod Invariant
pub mod Growth
pub mod Repair
pub mod Health
use drummer.Base.{
  ℕ, ◌+◌, ◌/◌, ◌<◌, Bool, true, false, not, ◌&&◌, List, Option, none, some, [], ◌∷◌, length, filter,
  ltb, leb, ◌==◌, if◌then◌else◌, sub_u64, Bytes, nat_eq,
}
use drummer.Base.Map.{Map, values}
use drummer.Settings.{node_host_ttl}

pub record Replica : Type 0 where
  pub shard_id : ℕ
  pub replica_id : ℕ
  pub address : Bytes
  pub is_leader : Bool
  pub tick : ℕ
  pub first_observed : ℕ

pub record Shard : Type 0 where
  pub shard_id : ℕ
  pub config_change_index : ℕ
  pub replicas : Map ℕ Replica

pub record ReplicaToKill : Type 0 where
  pub shard_id : ℕ
  pub replica_id : ℕ
  pub address : Bytes

pub record MultiShard : Type 0 where
  pub shards : Map ℕ Shard
  pub replicas_to_kill : List ReplicaToKill

-- `newMultiShard`
abbrev pub empty : MultiShard
empty = record { shards = []; replicas_to_kill = [] }

-- `EntityFailed`: the difference is a `uint64`, so it wraps around where the last report is newer.
unfoldable pub entity_failed : ℕ → ℕ → Bool
entity_failed last_tick current_tick = ltb node_host_ttl (sub_u64 current_tick last_tick)

-- `(n *replica) failed`
unfoldable pub failed : Replica → ℕ → Bool
failed n tick = if n.tick == 0 then n.first_observed == 0 else entity_failed n.tick tick

-- `(n *replica) waitingToBeStarted`
unfoldable pub waiting_to_be_started : Replica → ℕ → Bool
unfolding failed
waiting_to_be_started n tick = n.tick == 0 && not (failed n tick)

-- The test in the loop of `getOkReplicas`.
unfoldable pub is_ok : Replica → ℕ → Bool
unfolding waiting_to_be_started
is_ok n tick = not (failed n tick) && not (waiting_to_be_started n tick)

unfoldable pub get_ok_replicas : Shard → ℕ → List Replica
get_ok_replicas c tick = filter (λ n. is_ok n tick) (values c.replicas)

unfoldable pub get_replicas_to_start : Shard → ℕ → List Replica
get_replicas_to_start c tick = filter (λ n. waiting_to_be_started n tick) (values c.replicas)

unfoldable pub get_failed_replicas : Shard → ℕ → List Replica
get_failed_replicas c tick = filter (λ n. failed n tick) (values c.replicas)

-- `(c *shard) quorum`
unfoldable pub quorum : Shard → ℕ
quorum c = length c.replicas / 2 + 1

-- `(c *shard) available`
unfoldable pub available : Shard → ℕ → Bool
available c current_tick = leb (quorum c) (length (get_ok_replicas c current_tick))

-- `getUnavailableShards`
unfoldable pub get_unavailable_shards : MultiShard → ℕ → List Shard
get_unavailable_shards mc current_tick =
    filter (λ c. not (available c current_tick)) (values mc.shards)

-- `getToKillReplicas` hands the list out and empties it, in the image that it is called on.
unfoldable pub get_to_kill_replicas : MultiShard → MultiShard × List ReplicaToKill
get_to_kill_replicas mc = (record mc { replicas_to_kill = [] }, mc.replicas_to_kill)
