-- ===== src/Scheduler/Restores.antt =====
-- scheduler.go: bringing failed replicas back that have their logs.
use drummer.Base.{ℕ, ◌&&◌, ◌||◌, List, [], ◌∷◌, ◌++◌, if◌then◌else◌, nat_eq}
use drummer.Base.Map.{has, insert}
use drummer.Pb.{NodeHostRequest}
use drummer.ShardImage.{Replica}
use drummer.ShardImage.Repair.{
  ShardRepair, need_to_be_restored, ready_to_be_restored, can_be_restored,
}
use drummer.NodeHostImage.{IdSet}
use drummer.Scheduler.{Attempt, value, ◌>>=◌, Scheduler, get_app_name, get_restore_create_request}

-- The loop over `replicasToRestore`.
unfoldable pub restore_replicas :
    Scheduler → ShardRepair → List Replica → Attempt (List NodeHostRequest)
restore_replicas s cr [] = value []
restore_replicas s cr (n ∷ ns) = do
  app_name ← get_app_name s cr.shard_id
  rest ← restore_replicas s cr ns
  value (get_restore_create_request s n cr.shard app_name ∷ rest)

-- A shard counts as restored once there is a request for it.
unfoldable pub mark : ℕ → List Replica → IdSet → IdSet
mark shard_id [] ids = ids
mark shard_id (n ∷ ns) ids = mark shard_id ns (insert shard_id tt ids)

-- The replicas that `restoreUnavailableShards` restores of a shard: none where the shard is to be
-- passed over or is not ready.
unfoldable pub unavailable_to_restore : Scheduler → ShardRepair → List Replica
unavailable_to_restore s cr =
    let (nl, ready) = ready_to_be_restored cr s.multi_node_host s.tick in
    if need_to_be_restored cr && ready then nl else []

-- The loop of `restoreUnavailableShards`.
unfoldable pub restore_unavailable :
    Scheduler → List ShardRepair → IdSet → Attempt (List NodeHostRequest × IdSet)
restore_unavailable s [] ids = value ([], ids)
restore_unavailable s (cr ∷ crs) ids = do
  reqs ← restore_replicas s cr (unavailable_to_restore s cr)
  (rest, ids') ← restore_unavailable s crs (mark cr.shard_id (unavailable_to_restore s cr) ids)
  value (reqs ++ rest, ids')

unfoldable pub restore_unavailable_shards : Scheduler → Attempt (List NodeHostRequest × IdSet)
restore_unavailable_shards s = restore_unavailable s s.shards_to_repair []

-- The replicas that `restoreFailed` restores of a shard.
unfoldable pub failed_to_restore : Scheduler → IdSet → ShardRepair → List Replica
failed_to_restore s done cr =
    if need_to_be_restored cr || has cr.shard_id done
    then []
    else can_be_restored cr s.multi_node_host s.tick

-- The loop of `restoreFailed`.
unfoldable pub restore_failed_shards :
    Scheduler → IdSet → List ShardRepair → Attempt (List NodeHostRequest)
restore_failed_shards s done [] = value []
restore_failed_shards s done (cr ∷ crs) = do
  reqs ← restore_replicas s cr (failed_to_restore s done cr)
  rest ← restore_failed_shards s done crs
  value (reqs ++ rest)

unfoldable pub restore_failed : Scheduler → IdSet → Attempt (List NodeHostRequest)
restore_failed s done = restore_failed_shards s done s.shards_to_repair

unfoldable pub restore : Scheduler → Attempt (List NodeHostRequest)
restore s = do
  (ureqs, done) ← restore_unavailable_shards s
  reqs ← restore_failed s done
  value (ureqs ++ reqs)
