-- ===== src/Tests/Workers.antt =====
-- A round of a worker over a NodeHost of one DB, which has three reports and a replica to be killed.
use drummer.Base.{
  ok, ◌==◌, ◌⊎◌, ◌≢◌, bytes_eq, ◌≡◌, ◌≤◌, refl, Bool, true, false, List, [], ◌∷◌, none, some, Bytes,
  bytes, length,
}
use drummer.Base.Map.{values}
use drummer.Pb.{Kv, NodeHostRequest}
use drummer.ShardImage.{Replica, get_to_kill_replicas, get_unavailable_shards}
use drummer.ShardImage.Repair.{get_shard_for_repair, to_shard_repair, to_shard_repairs}
use drummer.NodeHostImage as Hosts
use drummer.NodeHostImage.{to_array}
use drummer.Scheduler as Scheduler
use drummer.Scheduler.{Scheduler, update_scheduler_context}
use drummer.Cycle as Cycle
use drummer.Db.State.{Db, SchedulerContext, new_db, launched_key, bootstrapped_key}
use drummer.Db.State as State
use drummer.Raft.{Moment, Grows, Error, failed, canceled}
use drummer.Db.Lookups.{
  Formats, kv_response, find_kv, find_regions, handle_scheduler_context_lookup,
}
use drummer.Pb.{LookupRequestType}
use drummer.Server.{blank_request, kv_request, finalized_kv}
use drummer.Server.Requests.{
  get_scheduler_context, get_node_host_collection, get_boolean_kv, get_bootstrapped, get_launched,
}
use drummer.Worker.{
  Drummer, launched_seen, if_returned, scheduler_after, decided, bootstrapped, enough,
  has_enough_node_host_connected, read_context, schedule, scheduled, when_enough, decide,
}
use drummer.Worker.Reads.{copy_of, Copied}
use drummer.Worker.Rounds.{decide_lem}
use drummer.Tests.Samples.{report, put_bytes, marshal_kv}
use drummer.Tests.Formats.{known_formats}
use drummer.Tests.Hosts.{local, local-IsLawful}
use drummer.Tests.Servers.{server_program}
use drummer.Tests.Cycles as Cycles

unfoldable worker_program : Unit {0}
unfolding server_program Cycles.program get_to_kill_replicas get_unavailable_shards
    get_shard_for_repair to_shard_repair to_shard_repairs to_array update_scheduler_context
    Cycle.schedule find_regions handle_scheduler_context_lookup get_scheduler_context
    get_node_host_collection get_boolean_kv get_bootstrapped get_launched launched_seen if_returned
    scheduler_after decided bootstrapped enough has_enough_node_host_connected read_context schedule
    scheduled when_enough decide
worker_program = tt

abbrev bootstrap_flag : Kv
bootstrap_flag = finalized_kv bootstrapped_key (bytes "true") 0

abbrev launch_flag : Kv
launch_flag = finalized_kv launched_key (bytes "true") 0

encoded : Kv → Bytes
unfolding put_bytes marshal_kv
encoded kv = elim (marshal_kv kv) [ none ↦ [] | some b ↦ b ]

abbrev full : Db
full = record {
  shard_id = 0;
  replica_id = 1;
  version = 1;
  tick = 200;
  launch_deadline = 0;
  failed = false;
  shards = [];
  kv_map = (bootstrapped_key, encoded bootstrap_flag) ∷ (launched_key, encoded launch_flag) ∷ [];
  shard_image = record {
    shards = [];
    replicas_to_kill = record { shard_id = 1; replica_id = 9; address = bytes "a9" } ∷ [];
  };
  node_host_image = Hosts.empty;
  node_host_info = (bytes "a1", report) ∷ (bytes "a2", report) ∷ (bytes "a3", report) ∷ [];
  requests = [];
  outgoing = [];
}

formats : Formats
unfolding encoded
formats =
    known_formats []
      (kv_request bootstrapped_key
        ∷ kv_request launched_key
        ∷ blank_request LookupRequestType.scheduler_context
        ∷ [])
      (kv_response bootstrap_flag ∷ kv_response launch_flag ∷ []) (copy_of full none ∷ [])

abbrev kept : List Replica → List Replica
kept rs = rs

abbrev first : Drummer (Unit {0})
first = record { scheduler = Cycles.scheduler; deployment_id = 0; session = none; count = 0 }

abbrev kill : NodeHostRequest
kill = Scheduler.get_kill_request (record { shard_id = 1; replica_id = 9; address = bytes "a9" })

abbrev at_first : Moment
at_first = record { db = full; log = [] }

decide_lem_example :
    (y z x : Moment) × (w1 w2 : Moment) × (seen sc : SchedulerContext) × (launched : Bool) × Grows
      formats at_first y
    × Grows formats y z
    × Grows formats z w1
    × Grows formats w1 w2
    × Grows formats w2 x
    × Grows formats x at_first
    × Copied formats y.db seen
    × (3 ≤ length (values seen.node_host_info))
    × (State.bootstrapped z.db ≡ true)
    × (((m : Moment) × (kv : Kv) × Grows formats w1 m
          × Grows formats m w2
          × (find_kv formats.response formats.kv m.db launched_key ≡ ok kv)
          × (launched ≡ (kv.value == bytes "true")))
        ⊎ ((e : Error) × (get_launched (local formats) formats w1 ≡ (w2, failed e))
            × (e ≢ canceled)
            × (launched ≡ false)))
    × Copied formats x.db sc
    × (full.shards ≡ x.db.shards)
    × (Cycle.schedule kept first.scheduler (some launched) (some sc) []
        ≡ Scheduler.value (kill ∷ []))
unfolding worker_program formats encoded
decide_lem_example =
    decide_lem (local formats) formats (local-IsLawful formats) kept first
      (record first {
        scheduler = update_scheduler_context kept Cycles.scheduler (copy_of full none);
      })
      [] kill [] at_first at_first refl
