-- ===== src/Pb.antt =====
-- The messages of drummerpb/drummer.pb.go, with the fields of drummer.proto. A message field is
-- `none` where the Go pointer is nil; protobuf's own bookkeeping fields are left out.
use drummer.Base.{ℕ, Bool, List, Option, Bytes}
use drummer.Base.Map.{Map}

-- The regions that replicas are launched in, and how many in each.
pub record Regions : Type 0 where
  pub region : List Bytes
  pub count : List ℕ

-- A defined Raft shard.
pub record Shard : Type 0 where
  pub members : List ℕ
  pub shard_id : ℕ
  pub app_name : Bytes

-- A key-value record of the Drummer DB.
pub record Kv : Type 0 where
  pub key : Bytes
  pub value : Bytes
  pub instance_id : ℕ
  pub tick : ℕ
  pub old_instance_id : ℕ
  pub finalized : Bool

-- An enum value that the schema does not name is `other`: protobuf keeps such values.
pub data ChangeType : Type 0 where
  create : ChangeType
  other : ℕ → ChangeType

pub record Change : Type 0 where
  pub type : ChangeType
  pub shard_id : ℕ
  pub members : List ℕ
  pub app_name : Bytes

pub record LogInfo : Type 0 where
  pub shard_id : ℕ
  pub replica_id : ℕ

-- What a nodehost reports of one of its replicas.
pub record ShardInfo : Type 0 where
  pub shard_id : ℕ
  pub replica_id : ℕ
  pub is_leader : Bool
  pub replicas : Map ℕ Bytes
  pub config_change_index : ℕ
  pub incomplete : Bool
  pub pending : Bool

pub record NodeHostInfo : Type 0 where
  pub raft_address : Bytes
  pub shard_info : List ShardInfo
  pub shard_id_list : List ℕ
  pub last_tick : ℕ
  pub plog_info_included : Bool
  pub plog_info : List LogInfo
  pub region : Bytes
  pub rpc_address : Bytes

pub data RequestType : Type 0 where
  create delete add kill : RequestType
  other : ℕ → RequestType

pub record Request : Type 0 where
  pub type : RequestType
  pub shard_id : ℕ
  pub members : List ℕ
  pub app_name : Bytes
  pub conf_change_id : ℕ

-- The configuration of the Raft shards.
pub record Config : Type 0 where
  pub election_rtt : ℕ
  pub heartbeat_rtt : ℕ
  pub check_quorum : Bool
  pub compaction_overhead : ℕ
  pub snapshot_entries : ℕ
  pub raft_shard_addresses : Bytes
  pub drummer_address : Bytes
  pub drummer_node_id : ℕ
  pub drummer_node_host_directory : Bytes
  pub drummer_wal_directory : Bytes
  pub mutual_tls : Bool
  pub ca_file : Bytes
  pub cert_file : Bytes
  pub key_file : Bytes
  pub max_in_mem_log_size : ℕ

-- A request that Drummer sends to a nodehost.
pub record NodeHostRequest : Type 0 where
  pub change : Option Request
  pub replica_id_list : List ℕ
  pub address_list : List Bytes
  pub instantiate_replica_id : ℕ
  pub raft_address : Bytes
  pub join : Bool
  pub restore : Bool
  pub app_name : Bytes
  pub config : Option Config

pub record NodeHostRequestCollection : Type 0 where
  pub requests : List NodeHostRequest

pub data UpdateType : Type 0 where
  shard kv tick nodehost_info requests : UpdateType
  other : ℕ → UpdateType

-- A command for the Drummer DB.
pub record Update : Type 0 where
  pub change : Option Change
  pub type : UpdateType
  pub kv_update : Option Kv
  pub nodehost_info : Option NodeHostInfo
  pub requests : Option NodeHostRequestCollection

pub record ShardStateRequest : Type 0 where
  pub shard_id_list : List ℕ

pub data State : Type 0 where
  ok unavailable : State

-- What a client learns of a shard.
pub record ShardState : Type 0 where
  pub shard_id : ℕ
  pub leader_replica_id : ℕ
  pub replicas : Map ℕ Bytes
  pub rpc_addresses : Map ℕ Bytes
  pub state : State
  pub config_change_index : ℕ

pub record ShardStates : Type 0 where
  pub collection : List ShardState

pub data LookupRequestType : Type 0 where
  shard kv scheduler_context requests shard_states : LookupRequestType
  other : ℕ → LookupRequestType

pub record LookupRequest : Type 0 where
  pub type : LookupRequestType
  pub shard_id_list : List ℕ
  pub kv_lookup : Option Kv
  pub requests_id : ℕ
  pub address : Bytes
  pub stats : Option ShardStateRequest

pub data LookupResponseCode : Type 0 where
  ok shard_not_found : LookupResponseCode

pub record LookupResponse : Type 0 where
  pub code : LookupResponseCode
  pub shards : List Shard
  pub kv_result : Option Kv
  pub requests : Option NodeHostRequestCollection

-- The answer to a change.
pub data ChangeResponseCode : Type 0 where
  ok shard_not_found conflict_found unknown_retry shard_exist bootstrapped regions_set :
      ChangeResponseCode

pub record ChangeResponse : Type 0 where
  pub code : ChangeResponseCode

-- The reports that Drummer has, and its tick.
pub record NodeHostCollection : Type 0 where
  pub collection : List NodeHostInfo
  pub tick : ℕ
