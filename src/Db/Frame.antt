-- ===== src/Db/Frame.antt =====
-- db.go: which parts of the DB an update leaves alone.
use drummer.Base.{ℕ, ◌≡◌, refl, false, Option, Bytes, ok, Codec, arith, Option-cases, inl, inr}
use drummer.Pb.{Kv, Change, NodeHostInfo, NodeHostRequestCollection, Update, UpdateType}
use drummer.Db.State.{Db, on_updated_shard_info, check_launch_deadline, assert_not_failed}
use drummer.Db.Operations.{
  apply_tick_update, hand_over, apply_node_host_info_update, create_shard, try_create_shard,
  apply_shard_update, apply_requests_update, apply_kv_update, apply, update,
}
use drummer.Db.KeyValue.{apply_kv_update_cases}
use drummer.Db.Launch.{ordinary, first_launch, ignored, apply_requests_update-Accepted}

-- The records, the defined shards and the flag that each update keeps.
pub record Same (d d' : Db) : Type 0 where
  pub same_kv_map : d'.kv_map ≡ d.kv_map
  pub same_shards : d'.shards ≡ d.shards

pub record SameImage (d d' : Db) : Type 0 where
  pub same_shard_image : d'.shard_image ≡ d.shard_image
  pub same_node_host_image : d'.node_host_image ≡ d.node_host_image
  pub same_node_host_info : d'.node_host_info ≡ d.node_host_info

pub apply_tick_update-frame :
    (d d' : Db) (v : ℕ) → apply_tick_update d ≡ ok (d', v) → Same d d' × SameImage d d'
unfolding apply_tick_update check_launch_deadline assert_not_failed
apply_tick_update-frame d d' v h = ground arith

pub apply_node_host_info_update-frame :
    (d : Db) (nhi : NodeHostInfo) (d' : Db) (v : ℕ)
    → apply_node_host_info_update d nhi ≡ ok (d', v)
    → Same d d'
unfolding apply_node_host_info_update hand_over on_updated_shard_info
apply_node_host_info_update-frame d nhi d' v h = ground arith

pub apply_shard_update-frame :
    (d : Db) (c : Change) (d' : Db) (v : ℕ)
    → apply_shard_update d c ≡ ok (d', v)
    → (d'.kv_map ≡ d.kv_map) × SameImage d d'
unfolding apply_shard_update try_create_shard create_shard
apply_shard_update-frame d c d' v h = ground arith

module _ (codec : Codec Kv) where
  pub apply_kv_update-frame :
      (d : Db) (kv : Kv) (d' : Db) (v : ℕ)
      → apply_kv_update codec d kv ≡ ok (d', v)
      → (d'.shards ≡ d.shards) × SameImage d d'
  apply_kv_update-frame d kv d' v h = ground (arith, apply_kv_update_cases codec d kv d' v h)

  pub apply_requests_update-frame :
      (d : Db) (reqs : NodeHostRequestCollection) (d' : Db) (v : ℕ)
      → apply_requests_update codec d reqs ≡ ok (d', v)
      → (d'.shards ≡ d.shards) × SameImage d d'
  apply_requests_update-frame d reqs d' v h =
      elim (apply_requests_update-Accepted codec d reqs d' v h) [
        | ordinary kind e n ↦ ground arith
        | first_launch b kind new encoded e n ↦ ground arith
        | ignored kind old e n ↦ ground arith
      ]

  -- Which update a command that does not panic was.
  pub data Applied (d d' : Db) (v : ℕ) : Type 0 where
    by_shard : (c : Change) → apply_shard_update d c ≡ ok (d', v) → Applied d d' v
    by_kv : (kv : Kv) → apply_kv_update codec d kv ≡ ok (d', v) → Applied d d' v
    by_report :
        (nhi : NodeHostInfo) → apply_node_host_info_update d nhi ≡ ok (d', v) → Applied d d' v
    by_requests :
        (reqs : NodeHostRequestCollection)
        → apply_requests_update codec d reqs ≡ ok (d', v)
        → Applied d d' v
    by_tick : apply_tick_update d ≡ ok (d', v) → Applied d d' v

  apply-Applied :
      (type : UpdateType) (d : Db) (c : Update) (d' : Db) (v : ℕ)
      → c.type ≡ type
      → apply codec d c ≡ ok (d', v)
      → Applied d d' v
  unfolding apply
  apply-Applied UpdateType.shard d c d' v e h = elim (Option-cases c.change) [
    | inl absent ↦ absurd (ground arith)
    | inr (x, found) ↦ by_shard x (ground arith)
  ]
  apply-Applied UpdateType.kv d c d' v e h = elim (Option-cases c.kv_update) [
    | inl absent ↦ absurd (ground arith)
    | inr (x, found) ↦ by_kv x (ground arith)
  ]
  apply-Applied UpdateType.nodehost_info d c d' v e h = elim (Option-cases c.nodehost_info) [
    | inl absent ↦ absurd (ground arith)
    | inr (x, found) ↦ by_report x (ground arith)
  ]
  apply-Applied UpdateType.requests d c d' v e h = elim (Option-cases c.requests) [
    | inl absent ↦ absurd (ground arith)
    | inr (x, found) ↦ by_requests x (ground arith)
  ]
  apply-Applied UpdateType.tick d c d' v e h = by_tick (ground arith)
  apply-Applied (UpdateType.other n) d c d' v e h = absurd (ground arith)

  pub update-Applied :
      (unmarshal_update : Bytes → Option Update) (d : Db) (cmd : Bytes) (d' : Db) (v : ℕ)
      → update codec unmarshal_update d cmd ≡ ok (d', v)
      → (d.failed ≡ false) × Applied d d' v
  unfolding update assert_not_failed
  update-Applied unmarshal_update d cmd d' v h = elim (Option-cases (unmarshal_update cmd)) [
    | inl bad ↦ absurd (ground arith)
    | inr (c, decoded) ↦ (ground arith, apply-Applied c.type d c d' v refl (ground arith))
  ]
