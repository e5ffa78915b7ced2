-- ===== src/Db/ShardStates.antt =====
-- server.go: `toShardState`, by which the DB answers what the state of a shard is.
use mathlib.Core.Option
use drummer.Base.{ℕ, ◌≡◌, List, Option, none, some, [], ◌∷◌, if◌then◌else◌, nat_eq, bytes_eq, Bytes}
use drummer.Base.Map.{Map, lookup, insert, values}
use drummer.Pb.{ShardState, State}
use drummer.ShardImage.{Replica, Shard, MultiShard, available}
use drummer.ShardImage.Update.{get_shard_info}
use drummer.NodeHostImage.{MultiNodeHost}

-- `nodes[n.ReplicaID] = n.Address`, for each replica.
unfoldable pub node_addresses : List Replica → Map ℕ Bytes → Map ℕ Bytes
node_addresses [] nodes = nodes
node_addresses (n ∷ ns) nodes = node_addresses ns (insert n.replica_id n.address nodes)

-- The last leader that the loop meets, or 0.
unfoldable pub leader_replica_id : List Replica → ℕ → ℕ
leader_replica_id [] leader = leader
leader_replica_id (n ∷ ns) leader =
    leader_replica_id ns (if n.is_leader then n.replica_id else leader)

-- The RPC address of the nodehost at `addr`, or the empty one where it is not known.
unfoldable pub rpc_address_of : MultiNodeHost → Bytes → Bytes
rpc_address_of mnh addr = elim (lookup addr mnh.nodehosts) [ none ↦ [] | some cs ↦ cs.rpc_address ]

-- The loop over `nodes`.
unfoldable pub node_rpc_addresses : MultiNodeHost → Map ℕ Bytes → Map ℕ Bytes → Map ℕ Bytes
node_rpc_addresses mnh [] rpc = rpc
node_rpc_addresses mnh ((nid, addr) ∷ nodes) rpc =
    node_rpc_addresses mnh nodes (insert nid (rpc_address_of mnh addr) rpc)

-- The part of `toShardState` behind the test for a shard that is not known.
unfoldable pub shard_state : MultiNodeHost → ℕ → Shard → ShardState
shard_state mnh tick c =
    let nodes = node_addresses (values c.replicas) [] in
    record {
      shard_id = c.shard_id;
      leader_replica_id = leader_replica_id (values c.replicas) 0;
      replicas = nodes;
      rpc_addresses = node_rpc_addresses mnh nodes [];
      state = if available c tick then State.ok else State.unavailable;
      config_change_index = c.config_change_index;
    }

-- `toShardState`, `none` where the shard is not known.
unfoldable pub to_shard_state : MultiShard → MultiNodeHost → ℕ → ℕ → Option ShardState
to_shard_state mc mnh tick shard_id = elim (get_shard_info mc shard_id) [
  | none ↦ none
  | some c ↦ some (shard_state mnh tick c)
]

-- The replicas stand under their own ids.
abbrev Named : Map ℕ Replica → Type 0
Named rs = (j : ℕ) (n : Replica) → lookup j rs ≡ some n → n.replica_id ≡ j
