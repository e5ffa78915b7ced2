-- ===== src/Db/Lookups.antt =====
-- db.go: the lookups, over the wire formats of the messages.
use drummer.Base.{
  false, List, [], ◌∷◌, Option, none, some, ℕ, panic, unknown_request_type, length, ◌==◌, nat_eq,
  Bytes, bytes_eq, Outcome, ok, ◌>>=◌, ◌>>◌, panic_if, Codec, Coder, or_panic, nil_pointer,
  empty_key, marshal_failed, unmarshal_failed,
}
use drummer.Base.Map.{lookup, values}
use drummer.Pb.{
  Kv, LookupRequest, LookupRequestType, LookupResponse, LookupResponseCode, NodeHostRequest,
  Regions, ShardState, ShardStates, Update,
}
use drummer.Db.State.{Db, SchedulerContext, regions_key, assert_not_failed}
use drummer.Db.ShardStates.{to_shard_state}
use drummer.Db.Operations.{queue}

abbrev pub ok_response : LookupResponse
ok_response = record {
  code = LookupResponseCode.ok;
  shards = [];
  kv_result = none;
  requests = none;
}

-- The answer that has the requests of a nodehost.
abbrev pub requests_response : List NodeHostRequest → LookupResponse
requests_response reqs = record ok_response { requests = some (record { requests = reqs }) }

-- The answer that has a record.
abbrev pub kv_response : Kv → LookupResponse
kv_response kv = record ok_response { kv_result = some kv }

-- `&pb.KV{}`
abbrev pub empty_kv : Kv
empty_kv = record {
  key = [];
  value = [];
  instance_id = 0;
  tick = 0;
  old_instance_id = 0;
  finalized = false;
}

module _ (format : Codec LookupResponse) where
  unfoldable pub handle_requests_lookup : Db → LookupRequest → Outcome Bytes
  handle_requests_lookup d req =
      or_panic (format.marshal (requests_response (queue req.address d.outgoing))) marshal_failed

  unfoldable pub handle_shard_lookup : Db → LookupRequest → Outcome Bytes
  handle_shard_lookup d req =
      or_panic (format.marshal (record ok_response { shards = values d.shards })) marshal_failed

  -- The record that `handleKVLookup` finds.
  unfoldable pub find_kv : Codec Kv → Db → Bytes → Outcome Kv
  find_kv codec d key = elim (lookup key d.kv_map) [
    | none ↦ ok empty_kv
    | some v ↦ or_panic (codec.unmarshal v) unmarshal_failed
  ]

  unfoldable pub handle_kv_lookup : Codec Kv → Db → LookupRequest → Outcome Bytes
  handle_kv_lookup codec d req = do
    kv_lookup ← or_panic req.kv_lookup nil_pointer
    panic_if (length kv_lookup.key == 0) empty_key
    kv ← find_kv codec d kv_lookup.key
    or_panic (format.marshal (kv_response kv)) marshal_failed

-- The wire formats of the messages that the DB and the server exchange: protobuf for all but the
-- copy for the scheduler, which is JSON and of which nothing is assumed.
pub record Formats : Type 0 where
  pub kv : Codec Kv
  pub update : Codec Update
  pub request : Codec LookupRequest
  pub response : Codec LookupResponse
  pub states : Codec ShardStates
  pub context : Coder SchedulerContext
  pub regions : Codec Regions

-- The loop of `handleShardStatesLookup`, `none` at the first shard that is not known.
unfoldable pub collect_states : Db → List ℕ → Option (List ShardState)
collect_states d [] = some []
collect_states d (id ∷ ids) = elim (to_shard_state d.shard_image d.node_host_image d.tick id) [
  | none ↦ none
  | some st ↦ (elim (collect_states d ids) [ none ↦ none | some rest ↦ some (st ∷ rest) ])
]

module _ (formats : Formats) where
  -- The empty answer is the code's `nil`.
  unfoldable pub handle_shard_states_lookup : Db → LookupRequest → Outcome Bytes
  handle_shard_states_lookup d req = do
    stats ← or_panic req.stats nil_pointer
    elim (collect_states d stats.shard_id_list) [
      | none ↦ ok []
      | some collection ↦
          or_panic (formats.states.marshal (record { collection = collection })) marshal_failed
    ]

  -- The regions that are set, if any.
  unfoldable pub find_regions : Db → Outcome (Option Regions)
  find_regions d = elim (lookup regions_key d.kv_map) [
    | none ↦ ok none
    | some kv_data ↦ do
      kv ← or_panic (formats.kv.unmarshal kv_data) unmarshal_failed
      regions ← or_panic (formats.regions.unmarshal kv.value) unmarshal_failed
      ok (some regions)
  ]

  unfoldable pub handle_scheduler_context_lookup : Db → Outcome Bytes
  handle_scheduler_context_lookup d = do
    regions ← find_regions d
    or_panic
        (formats.context.marshal (record {
          tick = d.tick;
          shards = d.shards;
          regions = regions;
          shard_image = d.shard_image;
          node_host_image = d.node_host_image;
          node_host_info = d.node_host_info;
        }))
        marshal_failed

  -- The dispatch of `Lookup` on a decoded request.
  unfoldable pub answer : Db → LookupRequest → Outcome Bytes
  answer d req = elim req.type [
    | LookupRequestType.shard ↦ handle_shard_lookup formats.response d req
    | LookupRequestType.kv ↦ handle_kv_lookup formats.response formats.kv d req
    | LookupRequestType.scheduler_context ↦ handle_scheduler_context_lookup d
    | LookupRequestType.requests ↦ handle_requests_lookup formats.response d req
    | LookupRequestType.shard_states ↦ handle_shard_states_lookup d req
    | LookupRequestType.other n ↦ panic unknown_request_type
  ]

  -- `Lookup`
  unfoldable pub lookup_query : Db → Bytes → Outcome Bytes
  lookup_query d query = do
    assert_not_failed d
    req ← or_panic (formats.request.unmarshal query) unmarshal_failed
    answer d req
