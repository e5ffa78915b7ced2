-- ===== src/Server/Requests.antt =====
-- server.go: what the server does for clients and nodehosts, for the election and for the loop of
-- the leader. The decimal numerals of strconv are two functions that are parameters.
use drummer.Base.{
  ℕ, Bool, true, false, List, Option, none, some, length, map, ◌==◌, ◌||◌, if◌then◌else◌, Bytes,
  bytes, bytes_eq, nat_eq, marshal_failed, unmarshal_failed, nil_pointer, unknown_response,
  unknown_value,
}
use drummer.Base.Map.{Map, values}
use drummer.Pb as Pb
use drummer.Pb.{
  Kv, Update, UpdateType, Change, ChangeResponse, ChangeResponseCode, LookupRequestType,
  LookupResponse, NodeHostInfo, NodeHostRequest, NodeHostRequestCollection, NodeHostCollection,
  Regions, ShardStateRequest, ShardStates,
}
use drummer.ShardImage.{Shard}
use drummer.Db.State.{
  SchedulerContext, election_key, bootstrapped_key, launched_key, deployment_id_key, regions_key,
  db_updated, shard_exists, db_bootstrapped, db_kv_updated, db_kv_finalized,
}
use drummer.Db.Lookups.{Formats}
use drummer.Raft.{Error, Reply, Call, ◌>>=◌, pure, fail, crash, or_crash, NodeHost}
use drummer.Server.{
  blank_update, blank_request, kv_update, read, lookup_db, lookup_kv, kv_result,
  propose_drummer_update, propose_finalized_kv, get_session,
}

-- The answer to a proposal of a shard, by its result.
unfoldable pub change_response : ℕ → {W : Type 0} → Call W ChangeResponse
change_response code =
    if code == db_updated
    then pure (record { code = ChangeResponseCode.ok })
    else if code == shard_exists
    then pure (record { code = ChangeResponseCode.shard_exist })
    else if code == db_bootstrapped
    then pure (record { code = ChangeResponseCode.bootstrapped })
    else crash unknown_response

-- The answer to a proposal of a finalized record.
unfoldable pub finalized_response : ℕ → {W : Type 0} → Call W ChangeResponse
finalized_response code =
    if code == db_kv_updated || code == db_kv_finalized
    then pure (record { code = ChangeResponseCode.ok })
    else crash unknown_response

-- The value of a flag.
unfoldable pub flag_value : Bytes → {W : Type 0} → Call W Bool
flag_value v =
    if v == bytes "false" || v == bytes ""
    then pure false
    else if v == bytes "true"
    then pure true
    else crash unknown_value

module _ (N : NodeHost) (formats : Formats) where
  -- The `defer` that closes a session; its error is only logged.
  unfoldable pub closing {ℓ} : {A : Type ℓ} → N.Session → N.World × Reply A → N.World × Reply A
  closing session (w, r) = ((N.sync_close_session session w).0, r)

  -- The frame of the calls that open a session for themselves.
  unfoldable pub with_session {ℓ} : {A : Type ℓ} → (N.Session → Call N.World A) → Call N.World A
  with_session body = do session ← get_session N formats; λ w. closing session (body session w)

  unfoldable pub submit_change : Change → Call N.World ChangeResponse
  submit_change c = with_session (λ session. do
    code ←
        propose_drummer_update N formats session
          (record (blank_update UpdateType.shard) { change = some c })
    change_response code)

  unfoldable pub set_finalized_kv : Bytes → Bytes → Call N.World ChangeResponse
  set_finalized_kv key v =
      with_session (λ session. do
        code ← propose_finalized_kv N formats session key v 0
        finalized_response code)

  unfoldable pub set_bootstrapped : Call N.World ChangeResponse
  set_bootstrapped = set_finalized_kv bootstrapped_key (bytes "true")

  unfoldable pub set_regions : Regions → Call N.World ChangeResponse
  set_regions r = do
    encoded ← or_crash (formats.regions.marshal r) marshal_failed
    set_finalized_kv regions_key encoded

  unfoldable pub update_node_host_info : NodeHostInfo → Call N.World ℕ
  update_node_host_info nhi = with_session (λ session.
      propose_drummer_update N formats session
        (record (blank_update UpdateType.nodehost_info) { nodehost_info = some nhi }))

  unfoldable pub get_requests : Bytes → Call N.World (List NodeHostRequest)
  get_requests addr = do
    resp ←
        lookup_db N formats (record (blank_request LookupRequestType.requests) { address = addr })
    reqs ← or_crash resp.requests nil_pointer
    pure reqs.requests

  unfoldable pub report_available_node_host : NodeHostInfo → Call N.World NodeHostRequestCollection
  report_available_node_host nhi = do
    count ← update_node_host_info nhi
    reqs ← get_requests nhi.raft_address
    pure (record { requests = reqs })

  unfoldable pub get_shards : Call N.World (List Pb.Shard)
  get_shards = do
    resp ← lookup_db N formats (blank_request LookupRequestType.shard)
    pure resp.shards

  unfoldable pub get_scheduler_context : Call N.World SchedulerContext
  get_scheduler_context = do
    result ← read N formats (blank_request LookupRequestType.scheduler_context)
    or_crash (formats.context.unmarshal result) unmarshal_failed

  unfoldable pub get_shard_config_change_index_list : Call N.World (Map ℕ ℕ)
  get_shard_config_change_index_list = do
    sc ← get_scheduler_context
    pure (map (λ (e : ℕ × Shard). (e.0, e.1.config_change_index)) sc.shard_image.shards)

  unfoldable pub get_node_host_collection : Call N.World NodeHostCollection
  get_node_host_collection = do
    sc ← get_scheduler_context
    pure (record { collection = values sc.node_host_info; tick = sc.tick })

  unfoldable pub get_shard_states : ShardStateRequest → Call N.World ShardStates
  get_shard_states req = do
    result ←
        read N formats (record (blank_request LookupRequestType.shard_states) { stats = some req })
    if length result == 0
        then fail Error.shard_not_found
        else or_crash (formats.states.unmarshal result) unmarshal_failed

  unfoldable pub get_boolean_kv : Bytes → Call N.World Bool
  get_boolean_kv key = do
    resp ← lookup_kv N formats key
    kv ← kv_result N formats resp
    flag_value kv.value

  unfoldable pub get_bootstrapped : Call N.World Bool
  get_bootstrapped = get_boolean_kv bootstrapped_key

  unfoldable pub get_launched : Call N.World Bool
  get_launched = get_boolean_kv launched_key

  -- `getElectionInfo`. The code hands the pointer on, and its callers read through it at once.
  unfoldable pub get_election_info : Call N.World Kv
  get_election_info = do resp ← lookup_kv N formats election_key; kv_result N formats resp

  unfoldable pub make_drummer_vote : N.Session → Kv → Call N.World ℕ
  make_drummer_vote session kv = propose_drummer_update N formats session (kv_update kv)

  module _ (format_uint : ℕ → Bytes) (parse_uint : Bytes → Option ℕ) where
    -- `strconv.ParseUint`, whose error is handed on.
    unfoldable pub parse_id : Bytes → Call N.World ℕ
    parse_id v = elim (parse_uint v) [ none ↦ fail Error.not_a_number | some did ↦ pure did ]

    unfoldable pub get_deployment_id : Call N.World ℕ
    get_deployment_id = do
      resp ← lookup_kv N formats deployment_id_key
      kv ← kv_result N formats resp
      parse_id kv.value

    -- `uint_did` is what the random source returns.
    unfoldable pub set_deployment_id : N.Session → ℕ → Call N.World ℕ
    set_deployment_id session uint_did = do
      code ← propose_finalized_kv N formats session deployment_id_key (format_uint uint_did) 0
      if code == db_kv_updated then pure uint_did else get_deployment_id
