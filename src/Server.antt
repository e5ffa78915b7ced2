-- ===== src/Server.antt =====
-- server.go: the functions of the server that propose commands to the DB and read from it, over the
-- NodeHost of dragonboat. Timeouts are among the errors of its calls, and the gRPC status that wraps
-- an error is left out. `Requests` has the functions that clients and nodehosts call.
pub mod Requests
pub mod Laws
pub mod Moves
pub mod Finality
pub mod Settled
pub mod Agreement
use drummer.Base.{
  ℕ, zero, suc, Bool, true, false, List, Option, none, some, [], ◌∷◌, ◌==◌, ◌||◌, if◌then◌else◌,
  Bytes, bytes, bytes_eq, nat_eq, marshal_failed, unmarshal_failed, nil_pointer, Panic,
  invalid_request, Codec,
}
use drummer.Pb.{
  Kv, Update, UpdateType, LookupRequest, LookupRequestType, LookupResponse, NodeHostInfo,
  NodeHostRequest,
}
use drummer.Db.State.{
  SchedulerContext, election_key, bootstrapped_key, launched_key, deployment_id_key, db_kv_updated,
}
use drummer.Db.Lookups.{Formats, empty_kv}
use drummer.Raft.{
  Error, Reply, value, failed, crashed, Call, ◌>>=◌, pure, fail, crash, or_crash, or_fail, NodeHost,
}

-- A command or a request with the fields that its kind does not set.
abbrev pub blank_update : UpdateType → Update
blank_update t = record {
  change = none;
  type = t;
  kv_update = none;
  nodehost_info = none;
  requests = none;
}

abbrev pub blank_request : LookupRequestType → LookupRequest
blank_request t = record {
  type = t;
  shard_id_list = [];
  kv_lookup = none;
  requests_id = 0;
  address = [];
  stats = none;
}

abbrev pub kv_request : Bytes → LookupRequest
kv_request key = record (blank_request LookupRequestType.kv) {
  kv_lookup = some (record empty_kv { key = key });
}

abbrev pub kv_update : Kv → Update
kv_update kv = record (blank_update UpdateType.kv) { kv_update = some kv }

-- The record of `proposeFinalizedKV`.
abbrev pub finalized_kv : Bytes → Bytes → ℕ → Kv
finalized_kv key v instance_id = record {
  key = key;
  value = v;
  instance_id = instance_id;
  tick = 0;
  old_instance_id = 0;
  finalized = true;
}

module _ (N : NodeHost) (formats : Formats) where
  -- `s.nh.SyncRead`, of a request that is encoded first.
  unfoldable pub read : LookupRequest → Call N.World Bytes
  read req = do
    query ← or_crash (formats.request.marshal req) marshal_failed
    λ w. or_fail (N.sync_read query w)

  -- `lookupDB`; `lookupKV` has the same lines for its own request.
  unfoldable pub lookup_db : LookupRequest → Call N.World LookupResponse
  lookup_db req = do
    result ← read req
    or_crash (formats.response.unmarshal result) unmarshal_failed

  unfoldable pub lookup_kv : Bytes → Call N.World LookupResponse
  lookup_kv key = lookup_db (kv_request key)

  -- `resp.KvResult`, which is read through.
  unfoldable pub kv_result : LookupResponse → Call N.World Kv
  kv_result resp = or_crash resp.kv_result nil_pointer

  unfoldable pub propose_drummer_update : N.Session → Update → Call N.World ℕ
  propose_drummer_update session u = do
    cmd ← or_crash (formats.update.marshal u) marshal_failed
    λ w. or_fail (N.sync_propose session cmd w)

  unfoldable pub propose_finalized_kv : N.Session → Bytes → Bytes → ℕ → Call N.World ℕ
  propose_finalized_kv session key v instance_id =
      propose_drummer_update session (kv_update (finalized_kv key v instance_id))

  -- The loop of `getSession`, with the tries that are left and the last error.
  unfoldable pub try_get_session :
      ℕ → (N.World → N.World × Reply N.Session) → Call N.World N.Session
  try_get_session zero last w = last w
  try_get_session (suc n) last w =
      elim (or_fail (N.sync_get_session w)).1 as (λ x. N.World × Reply N.Session) [
        | value session ↦ ((N.sync_get_session w).0, value session)
        | failed e ↦ try_get_session n (fail e) (N.sync_get_session w).0
        | crashed p ↦ ((N.sync_get_session w).0, crashed p)
      ]

  unfoldable pub get_session : Call N.World N.Session
  get_session = try_get_session 3 (fail Error.other)
