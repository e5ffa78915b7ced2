-- ===== src/Client/Requests.antt =====
-- client/nodehost.go: how the client carries the requests of drummer out on the local NodeHost, which
-- is dragonboat's and an interface here. `none` in place of a length of waiting stands for a loop that
-- has not ended yet.
use drummer.Base.{
  ℕ, zero, suc, Bool, true, not, ◌&&◌, List, [], ◌∷◌, Option, none, some, ◌⊎◌, inl, inr,
  if◌then◌else◌, nat_eq, bytes_eq, Bytes, Panic, nil_pointer, index_out_of_range,
  unknown_request_type, remove_failed, request_failed, unknown_result, node_info_found,
  unknown_join_restore, no_plugin,
}
use drummer.Base.Map.{Map, lookup, insert}
use drummer.Pb.{Request, RequestType, NodeHostRequest, Config}

-- The errors of the local NodeHost that the client tells apart; `temporary` are those of
-- `IsTempError` and of a server that is not available.
pub data LocalError : Type 0 where
  shard_not_found temporary shard_not_stopped other : LocalError

-- How a request for a change of the membership ends; `expired` is the context of the request.
pub data Completion : Type 0 where
  completed timeout terminated rejected dropped expired unknown : Completion

-- The configuration that a replica is started with: the fields that are set.
pub record ReplicaConfig : Type 0 where
  pub replica_id : ℕ
  pub shard_id : ℕ
  pub disable_auto_compactions : Bool
  pub ordered_config_change : Bool
  pub election_rtt : ℕ
  pub heartbeat_rtt : ℕ
  pub check_quorum : Bool
  pub snapshot_entries : ℕ
  pub compaction_overhead : ℕ
  pub max_in_mem_log_size : ℕ

-- The kinds of plugins, of which `pluginDetails` has one.
pub data Plugin : Type 0 where
  regular concurrent on_disk : Plugin

pub record LocalNodeHost : Type 1 where
  pub World : Type 0
  pub has_node_info : ℕ → ℕ → World → Bool
  pub stop_replica : ℕ → ℕ → World → World × (LocalError ⊎ Unit {0})
  pub remove_data : ℕ → ℕ → World → World × (LocalError ⊎ Unit {0})
  pub request_delete_replica : ℕ → ℕ → ℕ → World → World × (LocalError ⊎ Completion)
  pub request_add_replica : ℕ → ℕ → Bytes → ℕ → World → World × (LocalError ⊎ Completion)
  pub start : Plugin → Map ℕ Bytes → Bool → ReplicaConfig → World → World × (LocalError ⊎ Unit {0})

-- A handler returns, or panics, or has not returned yet.
pub data Ending : Type 0 where
  returned waiting : Ending
  panicked : Panic → Ending

-- `getConfig`, and the fields that `handleInstantiateRequest` sets then.
unfoldable pub get_config : Config → ℕ → ℕ → ReplicaConfig
get_config c shard_id replica_id = record {
  replica_id = replica_id;
  shard_id = shard_id;
  disable_auto_compactions = true;
  ordered_config_change = true;
  election_rtt = c.election_rtt;
  heartbeat_rtt = c.heartbeat_rtt;
  check_quorum = c.check_quorum;
  snapshot_entries = c.snapshot_entries;
  compaction_overhead = c.compaction_overhead;
  max_in_mem_log_size = c.max_in_mem_log_size;
}

-- The loop that fills `peers`; an address without an id is out of range.
unfoldable pub peers : List Bytes → List ℕ → Map ℕ Bytes → Option (Map ℕ Bytes)
peers [] ids acc = some acc
peers (a ∷ addresses) [] acc = none
peers (a ∷ addresses) (id ∷ ids) acc = peers addresses ids (insert id a acc)

-- What the branches on the kind of an instantiation come to: the peers, or a quiet end, or a panic.
pub data Start : Type 0 where
  start_with : Map ℕ Bytes → Start
  ignored : Start
  refused : Panic → Start

unfoldable pub launch_with : Option (Map ℕ Bytes) → Start
launch_with none = refused index_out_of_range
launch_with (some ps) = start_with ps

-- A request to join goes on where the local record is there, whatever its log says.
unfoldable pub start_for : NodeHostRequest → Bool → Start
start_for req has_node_info =
    if req.join && not req.restore
    then start_with []
    else if not req.join && req.restore
    then (if has_node_info then start_with [] else ignored)
    else if not req.join && not req.restore
    then (if has_node_info
        then refused node_info_found
        else launch_with (peers req.address_list req.replica_id_list []))
    else refused unknown_join_restore

module _ (H : LocalNodeHost) where
  -- The handlers of requests.
  abbrev pub Action : Type 0
  Action = H.World → H.World × Ending

  abbrev pub stop : Ending → Action
  stop e w = (w, e)

  -- The loop that removes the data of a replica, for so many tries.
  unfoldable pub removed :
      (H.World → H.World × Ending) → H.World × (LocalError ⊎ Unit {0}) → H.World × Ending
  removed again (w, inr u) = (w, returned)
  removed again (w, inl shard_not_stopped) = again w
  removed again (w, inl shard_not_found) = (w, panicked remove_failed)
  removed again (w, inl temporary) = (w, panicked remove_failed)
  removed again (w, inl other) = (w, panicked remove_failed)

  unfoldable pub remove_data : ℕ → ℕ → ℕ → Action
  remove_data zero shard_id replica_id w = (w, waiting)
  remove_data (suc tries) shard_id replica_id w =
      removed (remove_data tries shard_id replica_id) (H.remove_data shard_id replica_id w)

  -- A kill is over where the replica cannot be stopped.
  unfoldable pub stopped : ℕ → ℕ → ℕ → H.World × (LocalError ⊎ Unit {0}) → H.World × Ending
  stopped tries shard_id replica_id (w, inl e) = (w, returned)
  stopped tries shard_id replica_id (w, inr u) = remove_data tries shard_id replica_id w

  unfoldable pub handle_kill_request : ℕ → Request → Action
  handle_kill_request tries change w = elim change.members [
    | [] ↦ (w, panicked index_out_of_range)
    | replica_id ∷ more ↦
        stopped tries change.shard_id replica_id (H.stop_replica change.shard_id replica_id w)
  ]

  -- The end of `handleAddDeleteRequest`, for a delete and for an add.
  unfoldable pub completion : Action → Completion → Action
  completion on_completed completed w = on_completed w
  completion on_completed timeout w = (w, returned)
  completion on_completed terminated w = (w, returned)
  completion on_completed rejected w = (w, returned)
  completion on_completed dropped w = (w, returned)
  completion on_completed expired w = (w, returned)
  completion on_completed unknown w = (w, panicked unknown_result)

  unfoldable pub requested : Action → H.World × (LocalError ⊎ Completion) → H.World × Ending
  requested on_completed (w, inr c) = completion on_completed c w
  requested on_completed (w, inl shard_not_found) = (w, returned)
  requested on_completed (w, inl temporary) = (w, returned)
  requested on_completed (w, inl shard_not_stopped) = (w, panicked request_failed)
  requested on_completed (w, inl other) = (w, panicked request_failed)

  unfoldable pub handle_delete_request : ℕ → Request → Action
  handle_delete_request tries change w = elim change.members [
    | [] ↦ (w, panicked index_out_of_range)
    | replica_id ∷ more ↦
        requested (remove_data tries change.shard_id replica_id)
          (H.request_delete_replica change.shard_id replica_id change.conf_change_id w)
  ]

  unfoldable pub handle_add_request : Request → List Bytes → Action
  handle_add_request change addresses w = elim change.members [
    | [] ↦ (w, panicked index_out_of_range)
    | replica_id ∷ more ↦ (elim addresses [
      | [] ↦ (w, panicked index_out_of_range)
      | url ∷ urls ↦
          requested (stop returned)
            (H.request_add_replica change.shard_id replica_id url change.conf_change_id w)
    ])
  ]

  -- The error of a start is only logged.
  abbrev pub started : H.World × (LocalError ⊎ Unit {0}) → H.World × Ending
  started (w, r) = (w, returned)

  unfoldable pub start_plugin :
      Option Plugin → Option Config → ℕ → NodeHostRequest → Map ℕ Bytes → Action
  start_plugin plugin none shard_id req ps w = (w, panicked nil_pointer)
  start_plugin none (some c) shard_id req ps w = (w, panicked no_plugin)
  start_plugin (some p) (some c) shard_id req ps w =
      started (H.start p ps req.join (get_config c shard_id req.instantiate_replica_id) w)

  unfoldable pub instantiate : Map Bytes Plugin → ℕ → NodeHostRequest → Start → Action
  instantiate plugins shard_id req ignored w = (w, returned)
  instantiate plugins shard_id req (refused p) w = (w, panicked p)
  instantiate plugins shard_id req (start_with ps) w =
      start_plugin (lookup req.app_name plugins) req.config shard_id req ps w

  unfoldable pub handle_instantiate_request : Map Bytes Plugin → Request → NodeHostRequest → Action
  handle_instantiate_request plugins change req w =
      instantiate plugins change.shard_id req
        (start_for req (H.has_node_info change.shard_id req.instantiate_replica_id w)) w

  unfoldable pub handle_change : Map Bytes Plugin → ℕ → Request → NodeHostRequest → Action
  handle_change plugins tries change req = elim change.type [
    | RequestType.create ↦ handle_instantiate_request plugins change req
    | RequestType.delete ↦ handle_delete_request tries change
    | RequestType.add ↦ handle_add_request change req.address_list
    | RequestType.kill ↦ handle_kill_request tries change
    | RequestType.other n ↦ stop (panicked unknown_request_type)
  ]

  unfoldable pub handle_request : Map Bytes Plugin → ℕ → NodeHostRequest → Action
  handle_request plugins tries req = elim req.change [
    | none ↦ stop (panicked nil_pointer)
    | some change ↦ handle_change plugins tries change req
  ]
