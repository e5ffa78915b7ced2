-- ===== src/Tests/Store.antt =====
-- The DB, from `NewDB`.
use drummer.Base.{
  ℕ, ◌+◌, ◌*◌, ◌≡◌, refl, ◌<◌, ◌≤◌, ◌↔◌, ◌⊎◌, inr, true, List, [], ◌∷◌, ◌++◌, Option, none, some,
  length, any, All, filter, Bytes, bytes, nat_eq, bytes_eq, bytes_beq, ◌==◌, sub_u64, add_u64,
  if◌then◌else◌, ok, panic, system_failed, Codec, arith,
}
use drummer.Base.Map.{lookup, has, insert, modify, map_values, delete, values}
use drummer.Pb as Pb
use drummer.Pb.{Kv, Update, NodeHostInfo}
use drummer.ShardImage.{Shard, ReplicaToKill}
use drummer.ShardImage.Sync.{
  kill_request_required, new_replica, check_same_index, to_remove, delete_all, add_replica,
  add_replicas, check_addresses, sync_shard, get_replicas, get_shard,
}
use drummer.ShardImage.Update.{
  is_zombie, update_shard, update_shards, update_tick, update_node_tick, do_update, set_leader_info,
  sync_leader, sync_leader_info,
}
use drummer.ShardImage.Update as ImageUpdate
use drummer.ShardImage.Invariant.{IsImage}
use drummer.ShardImage.Growth.{Grows}
use drummer.NodeHostImage as Hosts
use drummer.NodeHostImage.{
  add_ids, to_node_host_spec, sync_node_host_spec, add_shard, add_shards, sync_shard_info,
}
use drummer.Db.State.{
  Db, new_db, assert_not_failed, launched, bootstrapped, bootstrapped_key, is_launched,
  add_launched, get_launched_shards, on_updated_shard_info, check_launch_deadline,
}
use drummer.Db.Operations.{
  apply_tick_update, hand_over, apply_node_host_info_update, is_launch_request,
  count_launch_requests, is_launch_requests, queue, group_by_address, put_requests, create_shard,
  try_create_shard, apply_shard_update, replace_kv, apply_kv_update, set_launched, start_launch,
  apply_requests_update, apply, update,
}
use drummer.Db.KeyValue.{stored, written, verdict, apply_kv_update-written}
use drummer.Db.History.{Reach, Reach-stored_finalized, Reach-shards, Reach-bootstrapped}
use drummer.Db.Mailbox.{
  addressed, apply_node_host_info_update-mailbox, apply_requests_update-mailbox,
}
use drummer.Db.Cluster.{Reach-IsImage, Reach-Grows, Reach-launched, get_launched_shards-has_iff}
use drummer.Db.Deadline.{tick_times, launch_times_out}
use drummer.Db.Snapshot.{without_ids, save_snapshot, recover_from_snapshot}
use drummer.Db.Lookups.{kv_response}
use drummer.Pb.{LookupRequest, LookupRequestType, LookupResponse, LookupResponseCode}
use drummer.Base.{inl, inr, Option-cases}
use drummer.Tests.Samples.{
  kv_round_trip, marshal_kv, unmarshal_kv, kv_format, kv_of, put_bytes, take_bytes, commands, flag,
  vote, report, launch_requests, value_or,
}

length-zero : {A : Type 0} (l : List A) → (length l == 0) ≡ true → l ≡ []
length-zero [] h = refl
length-zero (x ∷ l) h = absurd (ground arith)

program : Unit {0}
unfolding lookup has insert modify map_values delete filter any bytes_beq sub_u64 add_u64
    kill_request_required new_replica check_same_index to_remove delete_all add_replica add_replicas
    check_addresses sync_shard get_replicas get_shard is_zombie update_shard update_shards
    update_tick update_node_tick do_update set_leader_info sync_leader sync_leader_info
    ImageUpdate.update add_ids to_node_host_spec sync_node_host_spec Hosts.update add_shard
    add_shards sync_shard_info new_db assert_not_failed launched bootstrapped is_launched
    add_launched get_launched_shards on_updated_shard_info check_launch_deadline apply_tick_update
    hand_over apply_node_host_info_update is_launch_request count_launch_requests is_launch_requests
    queue group_by_address put_requests create_shard try_create_shard apply_shard_update replace_kv
    apply_kv_update set_launched start_launch apply_requests_update apply update stored verdict
    marshal_kv unmarshal_kv kv_of put_bytes take_bytes commands tick_times without_ids save_snapshot
    recover_from_snapshot
program = tt

-- The DB after a command that does not panic.
abbrev after : Db → Bytes → Db × ℕ
after d cmd = value_or (d, 99) (update kv_format commands d cmd)

abbrev start : Db
start = new_db 0 1

-- Shard 1 is defined, and the DB is then marked as bootstrapped.
defined : Db
unfolding program
defined = (after start (2 ∷ [])).0

booted : Db
unfolding program defined
booted = (after defined (1 ∷ [])).0

-- The launch requests have come, a nodehost has reported, and then a zombie has.
launching : Db
unfolding program defined booted
launching = (after booted (4 ∷ [])).0

reported : Db
unfolding program defined booted launching
reported = (after launching (3 ∷ [])).0

condemned : Db
unfolding program defined booted launching reported
condemned = (after reported (5 ∷ [])).0

history : Unit {0}
unfolding program defined booted launching reported condemned
history = tt

answers :
    ((after start (2 ∷ [])).1
      ∷ (after booted (2 ∷ [])).1
      ∷ (after booted (4 ∷ [])).1
      ∷ (after launching (3 ∷ [])).1
      ∷ [])
    ≡ 0 ∷ 2 ∷ 2 ∷ 1 ∷ []
unfolding program history
answers = refl

to_defined : Reach kv_format commands start defined
unfolding program history
to_defined = Reach.next (2 ∷ []) 0 Reach.here refl

from_booted : Reach kv_format commands booted condemned
unfolding program history
from_booted =
    Reach.next (5 ∷ []) 0 (Reach.next (3 ∷ []) 1 (Reach.next (4 ∷ []) 2 Reach.here refl) refl) refl

to_reported : Reach kv_format commands booted reported
unfolding program history
to_reported = Reach.next (3 ∷ []) 1 (Reach.next (4 ∷ []) 2 Reach.here refl) refl

to_booted : Reach kv_format commands defined booted
unfolding program history
to_booted = Reach.next (1 ∷ []) 0 Reach.here refl

from_launching : Reach kv_format commands launching condemned
unfolding program history
from_launching = Reach.next (5 ∷ []) 0 (Reach.next (3 ∷ []) 1 Reach.here refl) refl

Reach-stored_finalized_example : stored kv_format condemned bootstrapped_key ≡ some flag
unfolding program history
Reach-stored_finalized_example =
    Reach-stored_finalized kv_format commands bootstrapped_key flag refl from_booted refl

Reach-bootstrapped_example : (bootstrapped condemned ≡ true) × (condemned.shards ≡ booted.shards)
unfolding program history
Reach-bootstrapped_example = Reach-bootstrapped kv_format commands from_booted refl

abbrev shard_one : Pb.Shard
shard_one = record { members = 1 ∷ 2 ∷ 3 ∷ []; shard_id = 1; app_name = bytes "app" }

Reach-shards_example : lookup 1 condemned.shards ≡ some shard_one
unfolding program history
Reach-shards_example = Reach-shards kv_format commands 1 shard_one from_booted refl

booted-IsImage : IsImage booted.shard_image.shards
unfolding program history
booted-IsImage = record { is_map = tt; shards_valid = λ j c h. absurd (ground arith) }

Reach-IsImage_example : IsImage condemned.shard_image.shards
Reach-IsImage_example = Reach-IsImage kv_format commands from_booted booted-IsImage

reported-IsImage : IsImage reported.shard_image.shards
reported-IsImage = Reach-IsImage kv_format commands to_reported booted-IsImage

Reach-Grows_example :
    Grows launching.shard_image.shards condemned.shard_image.shards
    × ((new : List ReplicaToKill) × (condemned.shard_image.replicas_to_kill
          ≡ launching.shard_image.replicas_to_kill ++ new))
Reach-Grows_example = Reach-Grows kv_format commands from_launching

Reach-launched_example : (launched condemned ≡ true) × (condemned ≡ condemned) × (◌≡◌ {A = ℕ} 0 0)
unfolding program history
Reach-launched_example =
    Reach-launched kv_format commands launch_requests 0 refl from_launching refl refl

apply_kv_update-written_example :
    (0 ≡ verdict (stored kv_format start vote.key) vote)
    × ((j : Bytes)
        → stored kv_format (value_or (start, 9) (apply_kv_update kv_format start vote)).0 j
          ≡ written kv_format start vote j)
    × ((value_or (start, 9) (apply_kv_update kv_format start vote)).0 ≡ record start {
      kv_map = (value_or (start, 9) (apply_kv_update kv_format start vote)).0.kv_map;
    })
unfolding program
apply_kv_update-written_example =
    apply_kv_update-written kv_format start vote
      (value_or (start, 9) (apply_kv_update kv_format start vote)).0 0 refl

apply_node_host_info_update-mailbox_example :
    (1 ≡ length (queue (bytes "a2") launching.requests))
    × ((a : Bytes)
        → (queue a reported.outgoing
            ≡ (if bytes "a2" == a then queue a launching.requests else queue a launching.outgoing))
          × (queue a reported.requests
              ≡ (if bytes "a2" == a then [] else queue a launching.requests)))
unfolding program history
apply_node_host_info_update-mailbox_example =
    apply_node_host_info_update-mailbox launching report reported 1 refl

apply_requests_update-mailbox_example :
    ((launched booted ≡ true)
      × (is_launch_requests launch_requests ≡ ok true)
      × (launching ≡ booted)
      × (◌≡◌ {A = ℕ} 2 0))
    ⊎ ((2 ≡ length launch_requests.requests)
        × ((a : Bytes)
            → queue a launching.requests ≡ (
                if length (addressed a launch_requests.requests) == 0
                then queue a booted.requests
                else addressed a launch_requests.requests)))
unfolding program history
apply_requests_update-mailbox_example =
    apply_requests_update-mailbox kv_format booted launch_requests launching 2 refl

launch_times_out_example :
    ((n : ℕ)
      → n ≤ 24
      → tick_times n launching ≡ ok (record launching { tick = booted.tick + 5 * n }))
    × (tick_times 25 launching ≡ panic system_failed)
unfolding program history
launch_times_out_example =
    launch_times_out kv_format booted launch_requests launching 2 refl refl (omega arith) refl refl

get_launched_shards-has_iff_example : (has 1 (get_launched_shards reported) ≡ true) ↔ (
    (c : Shard) × (lookup 1 reported.shard_image.shards ≡ some c)
    × All (λ n. 0 < n.tick) (values c.replicas))
get_launched_shards-has_iff_example = get_launched_shards-has_iff reported 1 reported-IsImage

-- A format of answers that knows those with a record and nothing else.
marshal_response : LookupResponse → Option Bytes
unfolding marshal_kv
marshal_response r = elim r.code [
  | LookupResponseCode.ok ↦ (elim r.requests [
    | none ↦ (elim r.kv_result [
      | none ↦ none
      | some kv ↦ if length r.shards == 0 then marshal_kv kv else none
    ])
    | some reqs ↦ none
  ])
  | LookupResponseCode.shard_not_found ↦ none
]

unmarshal_response : Bytes → Option LookupResponse
unfolding unmarshal_kv
unmarshal_response b = elim (unmarshal_kv b) [ none ↦ none | some kv ↦ some (kv_response kv) ]

response_round_trip :
    (r : LookupResponse) (b : Bytes) → marshal_response r ≡ some b → unmarshal_response b ≡ some r
unfolding marshal_response unmarshal_response
response_round_trip r b h = elim (Option-cases r.kv_result) [
  | inl absent ↦ absurd (ground arith)
  | inr (kv, e) ↦ ground (arith, length-zero r.shards, kv_round_trip kv b)
]

abbrev responses : Codec LookupResponse
responses = record {
  marshal = marshal_response;
  unmarshal = unmarshal_response;
  round_trip = response_round_trip;
}

abbrev question : LookupRequest
question = record {
  type = LookupRequestType.kv;
  shard_id_list = [];
  kv_lookup = some (record flag { value = [] });
  requests_id = 0;
  address = [];
  stats = none;
}
