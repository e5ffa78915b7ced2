-- ===== src/ShardImage/Repair.antt =====
-- shardimage.go: `shardRepair`, the view of a shard that the scheduler repairs by. Go's `sort` is
-- not part of the repository: it is a parameter, of which the length of its result is what counts.
use drummer.Base.{
  ℕ, ◌+◌, ◌/◌, Bool, false, not, ◌&&◌, ◌||◌, List, [], ◌∷◌, none, some, length, filter, ltb, leb,
  ◌==◌, if◌then◌else◌, nat_eq, bytes_eq,
}
use drummer.Base.Map.{lookup, values}
use drummer.ShardImage.{
  Replica, Shard, MultiShard, get_ok_replicas, get_replicas_to_start, get_failed_replicas,
}
use drummer.NodeHostImage as NodeHostImage
use drummer.NodeHostImage.{NodeHostSpec, MultiNodeHost, has_log}

pub record ShardRepair : Type 0 where
  pub shard_id : ℕ
  pub shard : Shard
  pub failed_replicas : List Replica
  pub ok_replicas : List Replica
  pub replicas_to_start : List Replica

unfoldable pub quorum : ShardRepair → ℕ
quorum cr =
    (length cr.failed_replicas + length cr.ok_replicas + length cr.replicas_to_start) / 2 + 1

unfoldable pub available : ShardRepair → Bool
available cr = leb (quorum cr) (length cr.ok_replicas)

unfoldable pub add_required : ShardRepair → Bool
add_required cr =
    ltb 0 (length cr.failed_replicas) && length cr.replicas_to_start == 0 && available cr

unfoldable pub create_required : ShardRepair → Bool
create_required cr = ltb 0 (length cr.replicas_to_start)

unfoldable pub delete_required : ShardRepair → ℕ → Bool
delete_required cr expected_shard_size =
    available cr
    && ltb 0 (length cr.failed_replicas)
    && ltb expected_shard_size (length cr.failed_replicas + length cr.ok_replicas)

unfoldable pub need_to_be_restored : ShardRepair → Bool
need_to_be_restored cr = not (available cr || ltb 0 (length cr.replicas_to_start))

-- The test in the loops of `readyToBeRestored` and `canBeRestored`: the replica's nodehost is known,
-- it is available, and it still has the log.
unfoldable pub is_restorable : MultiNodeHost → ℕ → Replica → Bool
is_restorable mnh current_tick n = elim (lookup n.address mnh.nodehosts) [
  | none ↦ false
  | some spec ↦ NodeHostImage.available spec current_tick && has_log spec n.shard_id n.replica_id
]

unfoldable pub can_be_restored : ShardRepair → MultiNodeHost → ℕ → List Replica
can_be_restored cr mnh current_tick = filter (is_restorable mnh current_tick) cr.failed_replicas

unfoldable pub ready_to_be_restored : ShardRepair → MultiNodeHost → ℕ → List Replica × Bool
ready_to_be_restored cr mnh current_tick =
    if not (need_to_be_restored cr)
    then ([], false)
    else (let nl = filter (is_restorable mnh current_tick) cr.failed_replicas in
        (nl, leb (quorum cr) (length cr.ok_replicas + length nl)))

-- The view of one shard, as the loop of `getShardForRepair` builds it.
unfoldable pub to_shard_repair : (List Replica → List Replica) → ℕ → Shard → ShardRepair
to_shard_repair sort current_tick c = record {
  shard_id = c.shard_id;
  shard = c;
  failed_replicas = sort (get_failed_replicas c current_tick);
  ok_replicas = sort (get_ok_replicas c current_tick);
  replicas_to_start = sort (get_replicas_to_start c current_tick);
}

-- The loop of `getShardForRepair`: a shard with no failed and no waiting replica is passed over.
unfoldable pub to_shard_repairs : (List Replica → List Replica) → ℕ → List Shard → List ShardRepair
to_shard_repairs sort current_tick [] = []
to_shard_repairs sort current_tick (c ∷ cs) =
    let rest = to_shard_repairs sort current_tick cs in
    if length (get_failed_replicas c current_tick) == 0
      && length (get_replicas_to_start c current_tick) == 0
    then rest
    else to_shard_repair sort current_tick c ∷ rest

unfoldable pub get_shard_for_repair :
    (List Replica → List Replica) → MultiShard → ℕ → List ShardRepair
get_shard_for_repair sort mc current_tick = to_shard_repairs sort current_tick (values mc.shards)
