-- ===== src/Client.antt =====
-- client/nodehost.go: the client of a nodehost, which reports to a drummer and takes requests from it.
-- `Requests` has the handling of the requests.
pub mod Requests
pub mod Handlers
pub mod Sizes
pub mod Dispatch
pub mod Reports
use drummer.Base.{
  ℕ, Bool, true, false, not, ◌&&◌, List, [], ◌∷◌, ◌++◌, length, map, Option, none, some, ◌⊎◌, inl,
  inr, leb, ◌==◌, if◌then◌else◌, nat_eq, Bytes, bytes, Outcome, ok, panic, log_info_not_included,
}
use drummer.Base.Map.{Map, lookup}
use drummer.Pb.{ShardInfo, LogInfo, NodeHostInfo, NodeHostRequest, NodeHostRequestCollection}
use drummer.Raft.{Error, Reply, value, failed, crashed, Call, ◌>>=◌, pure, crash}
use drummer.Sessions.{attempt}

-- What the local NodeHost says of a replica and of itself: the fields that the client reads.
pub record LocalShard : Type 0 where
  pub shard_id : ℕ
  pub replica_id : ℕ
  pub is_leader : Bool
  pub replicas : Map ℕ Bytes
  pub config_change_index : ℕ
  pub pending : Bool

pub record LocalHost : Type 0 where
  pub raft_address : Bytes
  pub shard_info_list : List LocalShard
  pub log_info : List LogInfo

pub record ClusterInfo : Type 0 where
  pub info : LocalShard
  pub incomplete : Bool

abbrev pub default_region : Bytes
default_region = bytes "default-region"

-- Whether drummer has the membership of a replica that is reported.
unfoldable pub known : Option ℕ → LocalShard → Bool
known none v = false
known (some cci) v = leb v.config_change_index cci && not v.pending

-- The body of the loop over the replicas.
unfoldable pub cluster_info : Map ℕ ℕ → LocalShard → ClusterInfo
cluster_info indexes v =
    if known (lookup v.shard_id indexes) v
    then record { info = record v { replicas = [] }; incomplete = true }
    else record { info = v; incomplete = false }

unfoldable pub to_shard_info : ClusterInfo → ShardInfo
to_shard_info ci = record {
  shard_id = ci.info.shard_id;
  replica_id = ci.info.replica_id;
  is_leader = ci.info.is_leader;
  replicas = ci.info.replicas;
  config_change_index = ci.info.config_change_index;
  incomplete = ci.incomplete;
  pending = ci.info.pending;
}

unfoldable pub to_drummer_pb_shard_info : List ClusterInfo → List ShardInfo
to_drummer_pb_shard_info = map to_shard_info

-- `toDrummerPBLogInfo`, whose entries have the same two fields.
unfoldable pub to_drummer_pb_log_info : List LogInfo → List LogInfo
to_drummer_pb_log_info =
    map (λ (v : LogInfo). record { shard_id = v.shard_id; replica_id = v.replica_id })

-- The report that `SendNodeHostInfo` builds, given the indexes that drummer has. The DB sets the tick.
unfoldable pub report : Map ℕ ℕ → LocalHost → Bytes → Bool → NodeHostInfo
report indexes nhi api_address log_info_included = record {
  raft_address = nhi.raft_address;
  shard_info = to_drummer_pb_shard_info (map (cluster_info indexes) nhi.shard_info_list);
  shard_id_list = map (λ (v : LocalShard). v.shard_id) nhi.shard_info_list;
  last_tick = 0;
  plog_info_included = log_info_included;
  plog_info = to_drummer_pb_log_info nhi.log_info;
  region = default_region;
  rpc_address = api_address;
}

unfoldable pub build_report : Map ℕ ℕ → LocalHost → Bytes → Bool → Outcome NodeHostInfo
build_report indexes nhi api_address log_info_included =
    if not log_info_included && not (length nhi.log_info == 0)
    then panic log_info_not_included
    else ok (report indexes nhi api_address log_info_included)

unfoldable pub add_requests : List NodeHostRequest → List NodeHostRequest → List NodeHostRequest
add_requests reqs held = held ++ reqs

-- The requests that are held, and those held afterwards.
unfoldable pub get_requests : List NodeHostRequest → List NodeHostRequest × List NodeHostRequest
get_requests held = (held, [])

-- The calls of a drummer, over the wire.
pub record DrummerApi : Type 1 where
  pub World : Type 0
  pub connect : World → World × Reply (Unit {0})
  pub get_shard_config_change_index_list : World → World × Reply (Map ℕ ℕ)
  pub report_available_node_host : NodeHostInfo → World → World × Reply NodeHostRequestCollection

module _ (D : DrummerApi) where
  unfoldable pub or_crash_report : Outcome NodeHostInfo → Call D.World NodeHostInfo
  or_crash_report (ok nhi) = pure nhi
  or_crash_report (panic p) = crash p

  -- `SendNodeHostInfo`: the requests that the client holds afterwards. A client that is partitioned
  -- by a test does nothing.
  unfoldable pub send_node_host_info :
      Bool → LocalHost → Bytes → Bool → List NodeHostRequest → Call D.World (List NodeHostRequest)
  send_node_host_info true nhi api_address log_info_included held = pure held
  send_node_host_info false nhi api_address log_info_included held = do
    conn ← D.connect
    indexes ← D.get_shard_config_change_index_list
    info ← or_crash_report (build_report indexes nhi api_address log_info_included)
    collection ← D.report_available_node_host info
    pure (add_requests collection.requests held)
