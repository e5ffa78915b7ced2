-- ===== src/Tests/Clients.antt =====
-- The client of a nodehost, and the coordinator of a linearizability test.
use drummer.Base.{
  ℕ, ◌≡◌, refl, true, false, [], ◌∷◌, none, some, inr, any, filter, Bytes, bytes, bytes_beq, nat_eq,
  bytes_eq, ok, arith, add_u64,
}
use drummer.Base.Map.{Map, lookup, has, insert, delete}
use drummer.Pb.{Request, NodeHostRequest, RequestType}
use drummer.ShardImage.{Replica, Shard}
use drummer.ShardImage.Sync.{
  kill_request_required, new_replica, check_same_index, to_remove, delete_all, add_replica,
  add_replicas, check_addresses, sync_shard,
}
use drummer.ShardImage.Update.{is_zombie, update_shard}
use drummer.Client.{LocalShard, known, cluster_info, to_shard_info}
use drummer.Client.Reports.{sent, SameShard, sent-whole}
use drummer.Client.Dispatch.{
  is_for, shard_ids, workers, Handled, finished, handled, shard_ids-Handled,
}
use drummer.Client.Requests.{Completion, Plugin, LocalNodeHost, handle_request}
use drummer.Client.Handlers.{IsSafe, handle_request-IsSafe}
use drummer.Validation.{
  valid_lengths, validate_change, validate_request, validate_node_host_request,
}
use drummer.Tests.Cycles as Cycles
use drummer.Lcm.{
  Process, Coordinator, new_processes, new_coordinator, record_event, record_write_invoked,
  record_read_invoked, record_write_failed, reset_complete_count, selectable, set_process,
  start_read, start_write, start, Task, advance, schedule_processes,
}

client_program : Unit {0}
unfolding lookup has insert delete any filter bytes_beq add_u64 kill_request_required new_replica
    check_same_index to_remove delete_all add_replica add_replicas check_addresses sync_shard
    is_zombie update_shard known cluster_info to_shard_info is_for shard_ids workers new_processes
    record_event record_write_invoked record_read_invoked record_write_failed reset_complete_count
    selectable set_process start_read start_write start advance schedule_processes
client_program = tt

abbrev replica : ℕ → Bytes → Replica
replica id address = record {
  shard_id = 1;
  replica_id = id;
  address = address;
  is_leader = false;
  tick = 10;
  first_observed = 10;
}

abbrev shard : Shard
shard = record {
  shard_id = 1;
  config_change_index = 100;
  replicas = (1, replica 1 (bytes "a1")) ∷ (2, replica 2 (bytes "a2")) ∷ [];
}

abbrev here_local : LocalShard
here_local = record {
  shard_id = 1;
  replica_id = 2;
  is_leader = true;
  replicas = (1, bytes "a1") ∷ (2, bytes "a2") ∷ [];
  config_change_index = 100;
  pending = false;
}

abbrev indexes : Map ℕ ℕ
indexes = (1, 100) ∷ []

abbrev image : Map ℕ Shard
image = (1, shard) ∷ []

sent-whole_example :
    (sent_shards : Map ℕ Shard) × (update_shard image (sent indexes here_local) 100
      ≡ ok (sent_shards, false))
    × ((j : ℕ) → SameShard (lookup j sent_shards) (lookup j image))
unfolding client_program
sent-whole_example =
    sent-whole indexes image image here_local shard 100 false (refl, (refl, tt)) refl
      (refl, (refl, tt)) (ground arith) (λ cci h. ground arith) refl

abbrev request : ℕ → Bytes → NodeHostRequest
request shard_id address = record {
  change = some (record {
    type = RequestType.kill;
    shard_id = shard_id;
    members = 1 ∷ [];
    app_name = [];
    conf_change_id = 0;
  });
  replica_id_list = [];
  address_list = [];
  instantiate_replica_id = 0;
  raft_address = address;
  join = false;
  restore = false;
  app_name = [];
  config = none;
}

abbrev r1 : NodeHostRequest
r1 = request 1 (bytes "x")

abbrev r2 : NodeHostRequest
r2 = request 2 (bytes "y")

abbrev r3 : NodeHostRequest
r3 = request 1 (bytes "z")

abbrev both_ids : Map ℕ (Unit {0})
both_ids = (1, tt) ∷ (2, tt) ∷ []

-- The worker of shard 2 goes first.
order : Handled (workers (r1 ∷ r2 ∷ r3 ∷ []) both_ids) (r2 ∷ r1 ∷ r3 ∷ [])
unfolding client_program
order =
    handled 2 [] refl
      (handled 1 (r3 ∷ []) refl (handled 1 [] refl (finished (λ id left h. ground arith))))

shard_ids-Handled_example :
    filter (is_for 1) (r2 ∷ r1 ∷ r3 ∷ []) ≡ filter (is_for 1) (r1 ∷ r2 ∷ r3 ∷ [])
unfolding client_program
shard_ids-Handled_example =
    shard_ids-Handled (r1 ∷ r2 ∷ r3 ∷ []) (r2 ∷ r1 ∷ r3 ∷ []) both_ids refl order 1

-- A process writes and fails, and another one reads.
abbrev busy : Coordinator
busy = schedule_processes 4 ((1, false) ∷ (1, true) ∷ (0, true) ∷ []) (new_coordinator 2)

abbrev writer : Process
writer = record { stopped = false; idle = false; task = Task.writing 1 }

-- Its call has failed, and nothing is recorded yet.
abbrev failing : Process
failing = record { stopped = true; idle = false; task = Task.write_failed }

-- A nodehost that has nothing, and does all that it is asked for.
abbrev willing : LocalNodeHost
willing = record {
  World = Unit {0};
  has_node_info = λ s r w. false;
  stop_replica = λ s r w. (tt, inr tt);
  remove_data = λ s r w. (tt, inr tt);
  request_delete_replica = λ s r c w. (tt, inr Completion.completed);
  request_add_replica = λ s r a c w. (tt, inr Completion.completed);
  start = λ p ps join c w. (tt, inr tt);
}

abbrev creation : Request
creation = record {
  type = RequestType.create;
  shard_id = 1;
  members = 1 ∷ [];
  app_name = bytes "app";
  conf_change_id = 0;
}

abbrev create : NodeHostRequest
create = record (request 1 (bytes "x")) {
  change = some creation;
  replica_id_list = 1 ∷ [];
  address_list = bytes "x" ∷ [];
  instantiate_replica_id = 1;
  app_name = bytes "app";
  config = some Cycles.config;
}

handle_request-IsSafe_example :
    IsSafe (handle_request willing ((bytes "app", Plugin.regular) ∷ []) 3 create tt).1
unfolding client_program valid_lengths validate_change validate_request validate_node_host_request
handle_request-IsSafe_example =
    handle_request-IsSafe willing ((bytes "app", Plugin.regular) ∷ []) 3 creation create tt refl
      (λ n e. ground arith) refl (λ e. (Cycles.config, refl, refl))
