-- ===== src/Db/Operations.antt =====
-- db.go: the updates of the DB. The wire format of a `Kv` record is a parameter.
use drummer.Base.{
  ℕ, ◌+◌, ◌*◌, Bool, true, false, not, ◌&&◌, ◌||◌, List, Option, none, some, [], ◌∷◌, ◌++◌, length,
  ltb, ◌==◌, if◌then◌else◌, Bytes, bytes, nat_eq, bytes_eq, Outcome, ok, panic, ◌>>=◌, ◌>>◌,
  panic_if, Codec, or_panic, add_u64, nil_pointer, unmarshal_failed, marshal_failed,
  empty_key_or_value, launch_not_all, set_launched_failed, unknown_update_type, unknown_change_type,
  no_members, empty_app_name,
}
use drummer.Base.Map.{Map, lookup, has, insert, delete}
use drummer.Settings.{launch_deadline_tick, tick_interval_second}
use drummer.Pb.{
  Kv, Change, ChangeType, NodeHostInfo, NodeHostRequest, NodeHostRequestCollection, RequestType,
  Update, UpdateType,
}
use drummer.ShardImage.Update as ShardImage
use drummer.NodeHostImage as NodeHostImage
use drummer.Db.State.{
  Db, launched_key, db_updated, shard_exists, db_bootstrapped, db_kv_updated, db_kv_finalized,
  db_kv_rejected, assert_not_failed, launched, bootstrapped, on_updated_shard_info,
  check_launch_deadline,
}

-- `applyTickUpdate`
unfoldable pub apply_tick_update : Db → Outcome (Db × ℕ)
apply_tick_update d = do
  d' ← check_launch_deadline (record d { tick = add_u64 d.tick tick_interval_second })
  ok (d', d'.tick)

-- The part of `applyNodeHostInfoUpdate` that hands the pending requests of a nodehost over.
unfoldable pub hand_over : Db → Bytes → Db × ℕ
hand_over d address = elim (lookup address d.requests) [
  | none ↦ (d, 0)
  | some reqs ↦ (
    record d { requests = delete address d.requests; outgoing = insert address reqs d.outgoing },
    length reqs,
  )
]

-- `applyNodeHostInfoUpdate`
unfoldable pub apply_node_host_info_update : Db → NodeHostInfo → Outcome (Db × ℕ)
apply_node_host_info_update d nhi = do
  let nhi' = record nhi { last_tick = d.tick }
  shard_image ← ShardImage.update d.shard_image nhi'
  let node_host_image =
      NodeHostImage.sync_shard_info (NodeHostImage.update d.node_host_image nhi') shard_image
  let (d', count) =
      hand_over
        (record d {
          outgoing = delete nhi.raft_address d.outgoing;
          node_host_info = insert nhi.raft_address nhi' d.node_host_info;
          shard_image = shard_image;
          node_host_image = node_host_image;
        })
        nhi.raft_address
  ok (on_updated_shard_info d', count)

-- The test in the loop of `isLaunchRequests`. A request with no change is a nil pointer.
unfoldable pub is_launch_request : NodeHostRequest → Outcome Bool
is_launch_request r = elim r.change [
  | none ↦ panic nil_pointer
  | some change ↦
      ok (
        (elim change.type [ RequestType.create ↦ true | _ ↦ false ]) && not r.join && not r.restore)
]

unfoldable pub count_launch_requests : List NodeHostRequest → Outcome ℕ
count_launch_requests [] = ok 0
count_launch_requests (r ∷ rs) = do
  launch ← is_launch_request r
  count ← count_launch_requests rs
  ok (if launch then count + 1 else count)

unfoldable pub is_launch_requests : NodeHostRequestCollection → Outcome Bool
is_launch_requests reqs = do
  launch ← count_launch_requests reqs.requests
  panic_if (ltb 0 launch && not (launch == length reqs.requests)) launch_not_all
  ok (ltb 0 launch)

-- What stands under an address, or a new list.
unfoldable pub queue : Bytes → Map Bytes (List NodeHostRequest) → List NodeHostRequest
queue a m = elim (lookup a m) [ none ↦ [] | some q ↦ q ]

-- The loop of `applyRequestsUpdate` that sorts the requests by their addresses.
unfoldable pub group_by_address :
    List NodeHostRequest → Map Bytes (List NodeHostRequest) → Map Bytes (List NodeHostRequest)
group_by_address [] requests = requests
group_by_address (r ∷ rs) requests =
    group_by_address rs (insert r.raft_address (queue r.raft_address requests ++ r ∷ []) requests)

-- `for addr, r := range requests { d.Requests[addr] = r }`
unfoldable pub put_requests :
    Map Bytes (List NodeHostRequest)
    → Map Bytes (List NodeHostRequest)
    → Map Bytes (List NodeHostRequest)
put_requests [] all = all
put_requests ((address, r) ∷ requests) all = put_requests requests (insert address r all)

-- The lines of `tryCreateShard` behind its two panics.
unfoldable pub create_shard : Db → Change → Db × ℕ
create_shard d c =
    if bootstrapped d
    then (d, db_bootstrapped)
    else if has c.shard_id d.shards
    then (d, shard_exists)
    else (
      record d {
        shards =
            insert c.shard_id
              (record { members = c.members; shard_id = c.shard_id; app_name = c.app_name })
              d.shards;
      },
      db_updated,
    )

unfoldable pub try_create_shard : Db → Change → Outcome (Db × ℕ)
try_create_shard d c = do
  panic_if (length c.members == 0) no_members
  panic_if (length c.app_name == 0) empty_app_name
  ok (create_shard d c)

unfoldable pub apply_shard_update : Db → Change → Outcome (Db × ℕ)
apply_shard_update d c = elim c.type [
  | ChangeType.create ↦ try_create_shard d c
  | _ ↦ panic unknown_change_type
]

module _ (codec : Codec Kv) where
  -- The end of `applyKVUpdate`: what becomes of a key that has a record.
  unfoldable pub replace_kv : Db → Kv → Bytes → Kv → Db × ℕ
  replace_kv d kv mkv old =
      if old.finalized
      then (d, db_kv_finalized)
      else if old.instance_id == kv.instance_id || old.instance_id == kv.old_instance_id
      then (record d { kv_map = insert kv.key mkv d.kv_map }, db_kv_updated)
      else (d, db_kv_rejected)

  -- `applyKVUpdate`
  unfoldable pub apply_kv_update : Db → Kv → Outcome (Db × ℕ)
  apply_kv_update d kv = do
    panic_if (length kv.key == 0 || length kv.value == 0) empty_key_or_value
    mkv ← or_panic (codec.marshal kv) marshal_failed
    elim (lookup kv.key d.kv_map) [
      | none ↦ ok (record d { kv_map = insert kv.key mkv d.kv_map }, db_kv_updated)
      | some value ↦ do
        old ← or_panic (codec.unmarshal value) unmarshal_failed
        ok (replace_kv d kv mkv old)
    ]

  abbrev pub launched_kv : Kv
  launched_kv = record {
    key = launched_key;
    value = bytes "true";
    instance_id = 0;
    tick = 0;
    old_instance_id = 0;
    finalized = true;
  }

  unfoldable pub set_launched : Db → Outcome Db
  set_launched d = do
    (d', code) ← apply_kv_update d launched_kv
    panic_if (not (code == db_kv_updated)) set_launched_failed
    ok d'

  -- The end of `applyRequestsUpdate`.
  unfoldable pub start_launch : Db → Bool → Outcome Db
  start_launch d launch =
      if launch
      then (do
        d' ← set_launched d
        ok (record d' {
          launch_deadline = add_u64 d'.tick (launch_deadline_tick * tick_interval_second);
        }))
      else ok d

  -- `applyRequestsUpdate`
  unfoldable pub apply_requests_update : Db → NodeHostRequestCollection → Outcome (Db × ℕ)
  apply_requests_update d reqs = do
    launch ← is_launch_requests reqs
    if launched d && launch then ok (d, 0) else (do
      d' ←
          start_launch
            (record d { requests = put_requests (group_by_address reqs.requests []) d.requests })
            launch
      ok (d', length reqs.requests))

  -- The dispatch of `Update` on a decoded command. A part that is missing is a nil pointer.
  unfoldable pub apply : Db → Update → Outcome (Db × ℕ)
  apply d c = elim c.type [
    | UpdateType.shard ↦ (do change ← or_panic c.change nil_pointer; apply_shard_update d change)
    | UpdateType.kv ↦ (do kv ← or_panic c.kv_update nil_pointer; apply_kv_update d kv)
    | UpdateType.nodehost_info ↦ (do
      nhi ← or_panic c.nodehost_info nil_pointer
      apply_node_host_info_update d nhi)
    | UpdateType.requests ↦ (do
      reqs ← or_panic c.requests nil_pointer
      apply_requests_update d reqs)
    | UpdateType.tick ↦ apply_tick_update d
    | UpdateType.other n ↦ panic unknown_update_type
  ]

  -- `(d *DB) Update`, over the decoder of commands.
  unfoldable pub update : (Bytes → Option Update) → Db → Bytes → Outcome (Db × ℕ)
  update unmarshal_update d cmd = do
    assert_not_failed d
    c ← or_panic (unmarshal_update cmd) unmarshal_failed
    apply d c
