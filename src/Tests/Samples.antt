-- ===== src/Tests/Samples.antt =====
-- A wire format for `Kv` records and one for commands, and sample reports.
use drummer.Base.{
  ℕ, zero, suc, ◌≡◌, refl, true, false, List, [], ◌∷◌, Option, none, some, if◌then◌else◌, ◌==◌,
  nat_eq, Bytes, bytes, Codec, arith, Outcome, ok, panic,
}
use drummer.Pb.{
  Kv, Update, UpdateType, Change, ChangeType, ShardInfo, NodeHostInfo, NodeHostRequest,
  NodeHostRequestCollection, RequestType,
}

-- A string of bytes ends at the first zero, and the bytes are written one higher.
unfoldable pub put_bytes : Bytes → Bytes → Bytes
put_bytes [] rest = 0 ∷ rest
put_bytes (b ∷ bs) rest = suc b ∷ put_bytes bs rest

unfoldable pub take_bytes : Bytes → Bytes × Bytes
take_bytes [] = ([], [])
take_bytes (zero ∷ rest) = ([], rest)
take_bytes (suc b ∷ rest) = let (bs, rest') = take_bytes rest in (b ∷ bs, rest')

take-put : (bs rest : Bytes) → take_bytes (put_bytes bs rest) ≡ (bs, rest)
unfolding take_bytes put_bytes
take-put [] rest = refl
take-put (b ∷ bs) rest = rw (take-put bs rest)

unfoldable pub kv_of : Bytes → Bytes → Bytes → Option Kv
kv_of key value (instance_id ∷ tick ∷ old ∷ final ∷ []) = some (record {
  key = key;
  value = value;
  instance_id = instance_id;
  tick = tick;
  old_instance_id = old;
  finalized = final == 1;
})
kv_of key value rest = none

unfoldable pub marshal_kv : Kv → Option Bytes
unfolding put_bytes
marshal_kv kv = some (
    put_bytes kv.key (
      put_bytes kv.value
        (kv.instance_id ∷ kv.tick ∷ kv.old_instance_id ∷ (if kv.finalized then 1 else 0) ∷ [])))

unfoldable pub unmarshal_kv : Bytes → Option Kv
unfolding take_bytes kv_of
unmarshal_kv b =
    let (key, rest) = take_bytes b in let (value, rest') = take_bytes rest in kv_of key value rest'

pub kv_round_trip : (kv : Kv) (b : Bytes) → marshal_kv kv ≡ some b → unmarshal_kv b ≡ some kv
unfolding marshal_kv unmarshal_kv
kv_round_trip kv b h =
    let tail : Bytes =
      kv.instance_id ∷ kv.tick ∷ kv.old_instance_id ∷ (if kv.finalized then 1 else 0) ∷ [] in
    ground (arith, take-put kv.key (put_bytes kv.value tail), take-put kv.value tail)

abbrev pub kv_format : Codec Kv
kv_format = record { marshal = marshal_kv; unmarshal = unmarshal_kv; round_trip = kv_round_trip }

-- The members of the sample shard.
abbrev members : List (ℕ × Bytes)
members = (1, bytes "a1") ∷ (2, bytes "a2") ∷ (3, bytes "a3") ∷ []

-- What the nodehost at `a2` reports of shard 1, in configuration 100.
abbrev pub info : ShardInfo
info = record {
  shard_id = 1;
  replica_id = 2;
  is_leader = true;
  replicas = members;
  config_change_index = 100;
  incomplete = false;
  pending = false;
}

-- A later configuration, in which replica 4 has taken the place of replica 1.
abbrev pub moved : ShardInfo
moved = record info {
  replicas = (2, bytes "a2") ∷ (3, bytes "a3") ∷ (4, bytes "a4") ∷ [];
  config_change_index = 120;
}

-- A replica that the shard no longer has.
abbrev pub zombie : ShardInfo
zombie = record info {
  replica_id = 9;
  is_leader = false;
  replicas = [];
  config_change_index = 0;
  pending = true;
}

abbrev pub report : NodeHostInfo
report = record {
  raft_address = bytes "a2";
  shard_info = info ∷ [];
  shard_id_list = 1 ∷ [];
  last_tick = 100;
  plog_info_included = true;
  plog_info = record { shard_id = 1; replica_id = 2 } ∷ [];
  region = bytes "r1";
  rpc_address = bytes "p2";
}

abbrev pub zombie_report : NodeHostInfo
zombie_report = record report {
  raft_address = bytes "a9";
  shard_info = zombie ∷ [];
  shard_id_list = [];
  rpc_address = bytes "p9";
}

abbrev request : Bytes → NodeHostRequest
request address = record {
  change = some (record {
    type = RequestType.create;
    shard_id = 1;
    members = 1 ∷ 2 ∷ 3 ∷ [];
    app_name = [];
    conf_change_id = 0;
  });
  replica_id_list = 1 ∷ 2 ∷ 3 ∷ [];
  address_list = bytes "a1" ∷ bytes "a2" ∷ bytes "a3" ∷ [];
  instantiate_replica_id = 1;
  raft_address = address;
  join = false;
  restore = false;
  app_name = bytes "app";
  config = none;
}

abbrev pub launch_requests : NodeHostRequestCollection
launch_requests = record { requests = request (bytes "a1") ∷ request (bytes "a2") ∷ [] }

abbrev pub flag : Kv
flag = record {
  key = bytes "bootstrapped-flag";
  value = bytes "true";
  instance_id = 0;
  tick = 0;
  old_instance_id = 0;
  finalized = true;
}

-- A vote of instance 7, which follows instance 3.
abbrev pub vote : Kv
vote = record {
  key = bytes "election-key";
  value = bytes "election-key";
  instance_id = 7;
  tick = 2;
  old_instance_id = 3;
  finalized = false;
}

abbrev pub define : Change
define = record {
  type = ChangeType.create;
  shard_id = 1;
  members = 1 ∷ 2 ∷ 3 ∷ [];
  app_name = bytes "app";
}

abbrev no_command : Update
no_command = record {
  change = none;
  type = UpdateType.tick;
  kv_update = none;
  nodehost_info = none;
  requests = none;
}

-- A format of commands that knows six of them, by their numbers.
unfoldable pub commands : Bytes → Option Update
commands (c ∷ []) =
    if c == 0
    then some no_command
    else if c == 1
    then some (record no_command { type = UpdateType.kv; kv_update = some flag })
    else if c == 2
    then some (record no_command { type = UpdateType.shard; change = some define })
    else if c == 3
    then some (record no_command { type = UpdateType.nodehost_info; nodehost_info = some report })
    else if c == 4
    then some (record no_command { type = UpdateType.requests; requests = some launch_requests })
    else some
        (record no_command { type = UpdateType.nodehost_info; nodehost_info = some zombie_report })
commands _ = none

-- The value of code that does not panic.
abbrev pub value_or {ℓ} : {A : Type ℓ} → A → Outcome A → A
value_or a (ok x) = x
value_or a (panic p) = a
