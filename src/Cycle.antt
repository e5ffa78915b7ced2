-- ===== src/Cycle.antt =====
-- drummer.go: one cycle of the leader, which reads the DB and decides on the requests that it writes
-- back. What it reads, whether the DB is launched and a copy of it, comes from the server, which
-- does I/O: both are arguments, and `none` where the server returns an error that ends the cycle.
pub mod Kinds
pub mod Launch
use drummer.Base.{
  ℕ, Bool, not, ◌&&◌, List, Option, none, some, [], ◌∷◌, ◌++◌, if◌then◌else◌, nil_pointer, nat_eq,
  Outcome, ok, panic,
}
use drummer.Base.Map.{insert}
use drummer.Pb.{NodeHostRequest}
use drummer.ShardImage.{Replica}
use drummer.NodeHostImage.{IdSet}
use drummer.Selector.{Draws}
use drummer.Validation.{validate_all}
use drummer.Scheduler.{
  Attempt, value, refused, panicked, running, ◌>>=◌, Scheduler, update_scheduler_context,
  has_running_shard, kill_zombie_replicas,
}
use drummer.Db.State.{SchedulerContext}
use drummer.Scheduler.Repairs.{repair}
use drummer.Scheduler.Restores.{restore}
use drummer.Scheduler.Launches.{launch}

-- The loop that fills `restoredShards`.
unfoldable pub restored_shards : List NodeHostRequest → IdSet → Attempt IdSet
restored_shards [] ids = value ids
restored_shards (r ∷ rs) ids = elim r.change [
  | none ↦ panicked nil_pointer
  | some change ↦ restored_shards rs (insert change.shard_id tt ids)
]

-- The last loop of `maintainShards`: the requests, where none of them is invalid.
unfoldable pub validated : List NodeHostRequest → Attempt (List NodeHostRequest)
validated requests = elim (validate_all requests) [ ok u ↦ value requests | panic p ↦ panicked p ]

unfoldable pub maintain_shards : Scheduler → Draws → Attempt (List NodeHostRequest)
maintain_shards s draws = do
  restores ← restore s
  restored ← restored_shards restores []
  (repairs, draws') ← repair s restored draws
  validated ((restores ++ repairs) ++ kill_zombie_replicas s)

-- An error of a task only ends the cycle: it writes no requests.
unfoldable pub or_nothing : Attempt (List NodeHostRequest) → Attempt (List NodeHostRequest)
or_nothing (value reqs) = value reqs
or_nothing (refused e) = value []
or_nothing (panicked p) = panicked p
or_nothing running = running

-- `schedule`, where the scheduler has taken the copy of the DB in.
unfoldable pub launch_or_maintain : Scheduler → Bool → Draws → Attempt (List NodeHostRequest)
launch_or_maintain s launched draws =
    if not launched && not (has_running_shard s)
    then or_nothing (do (reqs, draws') ← launch s draws; value reqs)
    else or_nothing (maintain_shards s draws)

unfoldable pub schedule :
    (List Replica → List Replica)
    → Scheduler
    → Option Bool
    → Option SchedulerContext
    → Draws
    → Attempt (List NodeHostRequest)
schedule sort s none sc draws = value []
schedule sort s (some launched) none draws = value []
schedule sort s (some launched) (some sc) draws =
    launch_or_maintain (update_scheduler_context sort s sc) launched draws
