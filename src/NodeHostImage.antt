-- ===== src/NodeHostImage.antt =====
-- nodehostimage.go: what Drummer knows of the nodehosts.
pub mod Hosts
use drummer.Base.{
  ℕ, Bool, true, false, not, ◌&&◌, List, Option, none, some, [], ◌∷◌, ◌++◌, any, ◌==◌,
  if◌then◌else◌, Bytes, nat_eq, bytes_eq,
}
use drummer.Base.Map.{Map, lookup, has, insert, modify, values}
use drummer.Pb.{LogInfo, NodeHostInfo}
use drummer.ShardImage.{Replica, Shard, MultiShard, entity_failed}

-- A set of shard ids is a Go map into `struct{}`.
abbrev pub IdSet : Type 0
IdSet = Map ℕ (Unit {0})

pub record NodeHostSpec : Type 0 where
  pub address : Bytes
  pub rpc_address : Bytes
  pub region : Bytes
  pub tick : ℕ
  pub persistent_log : List LogInfo
  pub shards : IdSet

pub record MultiNodeHost : Type 0 where
  pub nodehosts : Map Bytes NodeHostSpec

-- `newMultiNodeHost`
abbrev pub empty : MultiNodeHost
empty = record { nodehosts = [] }

-- `deepCopy`: the copy has no `RPCAddress`.
unfoldable pub deep_copy : NodeHostSpec → NodeHostSpec
deep_copy spec = record spec { rpc_address = [] }

unfoldable pub has_log : NodeHostSpec → ℕ → ℕ → Bool
has_log spec shard_id replica_id =
    any (λ v. v.shard_id == shard_id && v.replica_id == replica_id) spec.persistent_log

unfoldable pub available : NodeHostSpec → ℕ → Bool
available spec current_tick = not (entity_failed spec.tick current_tick)

-- `for _, cid := range ids { m[cid] = struct{}{} }`
unfoldable pub add_ids : List ℕ → IdSet → IdSet
add_ids [] ids = ids
add_ids (cid ∷ cids) ids = add_ids cids (insert cid tt ids)

unfoldable pub to_node_host_spec : NodeHostInfo → NodeHostSpec
to_node_host_spec nhi = record {
  address = nhi.raft_address;
  rpc_address = nhi.rpc_address;
  region = nhi.region;
  tick = nhi.last_tick;
  persistent_log = if nhi.plog_info_included then nhi.plog_info else [];
  shards = add_ids nhi.shard_id_list [];
}

-- `syncNodeHostSpec` on the spec that it finds.
unfoldable pub sync_node_host_spec : NodeHostInfo → NodeHostSpec → NodeHostSpec
sync_node_host_spec nhi spec = record spec {
  region = nhi.region;
  tick = nhi.last_tick;
  persistent_log = if nhi.plog_info_included then nhi.plog_info else spec.persistent_log;
  shards = add_ids nhi.shard_id_list [];
}

-- `(m *multiNodeHost) update`
unfoldable pub update : MultiNodeHost → NodeHostInfo → MultiNodeHost
update m nhi = record {
  nodehosts = elim (lookup nhi.raft_address m.nodehosts) [
    | none ↦ insert nhi.raft_address (to_node_host_spec nhi) m.nodehosts
    | some spec ↦ insert nhi.raft_address (sync_node_host_spec nhi spec) m.nodehosts
  ];
}

-- The loops of `syncShardInfo`: over the replicas of a shard, and over the shards.
unfoldable pub add_shard : ℕ → List Replica → Map Bytes NodeHostSpec → Map Bytes NodeHostSpec
add_shard cid [] specs = specs
add_shard cid (n ∷ ns) specs =
    add_shard cid ns
      (modify n.address (λ spec. record spec { shards = insert cid tt spec.shards }) specs)

unfoldable pub add_shards : Map ℕ Shard → Map Bytes NodeHostSpec → Map Bytes NodeHostSpec
add_shards [] specs = specs
add_shards ((cid, c) ∷ shards) specs = add_shards shards (add_shard cid (values c.replicas) specs)

unfoldable pub sync_shard_info : MultiNodeHost → MultiShard → MultiNodeHost
sync_shard_info m mc = record { nodehosts = add_shards mc.shards m.nodehosts }

-- `toArray`
unfoldable pub to_array : MultiNodeHost → List NodeHostSpec
to_array m = values m.nodehosts
