-- ===== src/Db/History.antt =====
-- db.go: what holds through every history of the DB, a sequence of commands that it accepts.
use drummer.Base.{
  ℕ, ◌≡◌, refl, true, false, Option, some, Bytes, ◌==◌, bytes_eq, nat_eq, bytes_beq_iff, ok, Codec,
  arith, Bool-cases, inl, inr, ◌∙◌,
}
use drummer.Base.Map.{lookup, Map, has, insert, lookup-insert}
use drummer.Pb as Pb
use drummer.Pb.{Kv, Change, Update}
use drummer.Db.State.{Db, launched, launched_key, bootstrapped, bootstrapped_key}
use drummer.Db.Operations.{update, apply_shard_update, try_create_shard, create_shard}
use drummer.Db.KeyValue.{stored, written, verdict, apply_kv_update-written, apply_kv_update_cases}
use drummer.Db.Launch.{ordinary, first_launch, ignored, apply_requests_update-Accepted}
use drummer.Db.Frame.{
  Applied, by_shard, by_kv, by_report, by_requests, by_tick, update-Applied,
  apply_tick_update-frame, apply_node_host_info_update-frame, apply_shard_update-frame,
  apply_kv_update-frame, apply_requests_update-frame,
}

-- A shard update leaves a defined shard alone, and every shard of a bootstrapped DB.
apply_shard_update-shards :
    (c : Change) (d d' : Db) (v : ℕ) (id : ℕ) (s : Pb.Shard)
    → apply_shard_update d c ≡ ok (d', v)
    → lookup id d.shards ≡ some s
    → lookup id d'.shards ≡ some s
unfolding apply_shard_update try_create_shard create_shard has
apply_shard_update-shards c d d' v id s h e = ground (
  arith,
  lookup-insert id c.shard_id
      (record { members = c.members; shard_id = c.shard_id; app_name = c.app_name }) d.shards,
)

pub apply_shard_update-bootstrapped :
    (c : Change) (d d' : Db) (v : ℕ)
    → apply_shard_update d c ≡ ok (d', v)
    → bootstrapped d ≡ true
    → (d' ≡ d) × (v ≡ 2)
unfolding apply_shard_update try_create_shard create_shard
apply_shard_update-bootstrapped c d d' v h e = ground arith

module _ (codec : Codec Kv) where
  -- `d'` follows from `d` by commands that the DB accepts.
  pub data Reach (unmarshal_update : Bytes → Option Update) (d : Db) : Db → Type 0 where
    here : Reach unmarshal_update d d
    next :
        {d' d'' : Db} (cmd : Bytes) (v : ℕ)
        → Reach unmarshal_update d d'
        → update codec unmarshal_update d' cmd ≡ ok (d'', v)
        → Reach unmarshal_update d d''

  -- A property that each accepted update keeps holds through a history.
  pub Reach-keeps :
      (unmarshal_update : Bytes → Option Update) (P : Db → Type 0)
      → ((d d' : Db) (v : ℕ) → Applied codec d d' v → P d → P d')
      → {d d' : Db} → Reach unmarshal_update d d'
      → P d
      → P d'
  Reach-keeps um P step here p = p
  Reach-keeps um P step (next {d' = d'} {d'' = d''} cmd v r e) p =
      step d' d'' v (update-Applied codec um d' cmd d'' v e).1 (Reach-keeps um P step r p)

  pub stored-congr :
      (d d' : Db) (k : Bytes) → d'.kv_map ≡ d.kv_map → stored codec d' k ≡ stored codec d k
  unfolding stored
  stored-congr d d' k e = rw e refl

  written_finalized :
      (d : Db) (w kv : Kv) (k : Bytes)
      → kv.finalized ≡ true
      → stored codec d k ≡ some kv
      → written codec d w k ≡ some kv
  unfolding written verdict
  written_finalized d w kv k final e = elim (Bool-cases (w.key == k)) [
    | inl same ↦ ground (arith, bytes_beq_iff w.key k)
    | inr other ↦ ground arith
  ]

  -- The flag's record is new where the DB is not launched, so no key that has a record changes.
  pub stored-insert-launched :
      (d : Db) (b : Bytes) (k : Bytes) (kv : Kv)
      → launched d ≡ false
      → stored codec d k ≡ some kv
      → stored codec (record d { kv_map = insert launched_key b d.kv_map }) k ≡ some kv
  unfolding stored launched has
  stored-insert-launched d b k kv new e =
      ground (arith, lookup-insert k launched_key b d.kv_map, bytes_beq_iff launched_key k)

  Applied-stored_finalized :
      (k : Bytes) (kv : Kv) (d d' : Db) (v : ℕ)
      → kv.finalized ≡ true
      → Applied codec d d' v
      → stored codec d k ≡ some kv
      → stored codec d' k ≡ some kv
  Applied-stored_finalized k kv d d' v final (by_shard c h) e =
      stored-congr d d' k (apply_shard_update-frame d c d' v h).0 ∙ e
  Applied-stored_finalized k kv d d' v final (by_kv w h) e =
      (apply_kv_update-written codec d w d' v h).1 k ∙ written_finalized d w kv k final e
  Applied-stored_finalized k kv d d' v final (by_report nhi h) e =
      stored-congr d d' k (apply_node_host_info_update-frame d nhi d' v h).same_kv_map ∙ e
  Applied-stored_finalized k kv d d' v final (by_requests reqs h) e =
      elim (apply_requests_update-Accepted codec d reqs d' v h) [
        | ordinary kind e' n ↦ stored-congr d d' k (ground arith) ∙ e
        | first_launch b kind new encoded e' n ↦
            stored-congr (record d { kv_map = insert launched_key b d.kv_map }) d' k (ground arith)
            ∙ stored-insert-launched d b k kv new e
        | ignored kind old e' n ↦ rw e' e
      ]
  Applied-stored_finalized k kv d d' v final (by_tick h) e =
      stored-congr d d' k (apply_tick_update-frame d d' v h).0.same_kv_map ∙ e

  -- A finalized record is never changed again, by any history.
  pub Reach-stored_finalized :
      (unmarshal_update : Bytes → Option Update) (k : Bytes) (kv : Kv) {d d' : Db}
      → kv.finalized ≡ true
      → Reach unmarshal_update d d'
      → stored codec d k ≡ some kv
      → stored codec d' k ≡ some kv
  Reach-stored_finalized um k kv final r =
      Reach-keeps um (λ x. stored codec x k ≡ some kv)
        (λ x x' v a. Applied-stored_finalized k kv x x' v final a) r

  pub Applied-has :
      (k : Bytes) (d d' : Db) (v : ℕ)
      → Applied codec d d' v
      → has k d.kv_map ≡ true
      → has k d'.kv_map ≡ true
  unfolding has
  Applied-has k d d' v (by_shard c h) e = ground (arith, apply_shard_update-frame d c d' v h)
  Applied-has k d d' v (by_kv w h) e =
      let (b, encoded, answer, after) = apply_kv_update_cases codec d w d' v h in
      ground (arith, lookup-insert k w.key b d.kv_map)
  Applied-has k d d' v (by_report nhi h) e =
      ground (arith, apply_node_host_info_update-frame d nhi d' v h)
  Applied-has k d d' v (by_requests reqs h) e =
      elim (apply_requests_update-Accepted codec d reqs d' v h) [
        | ordinary kind e' n ↦ ground arith
        | first_launch b kind new encoded e' n ↦
            ground (arith, lookup-insert k launched_key b d.kv_map)
        | ignored kind old e' n ↦ ground arith
      ]
  Applied-has k d d' v (by_tick h) e = ground (arith, apply_tick_update-frame d d' v h)

  Applied-shards :
      (id : ℕ) (s : Pb.Shard) (d d' : Db) (v : ℕ)
      → Applied codec d d' v
      → lookup id d.shards ≡ some s
      → lookup id d'.shards ≡ some s
  Applied-shards id s d d' v (by_shard c h) e = apply_shard_update-shards c d d' v id s h e
  Applied-shards id s d d' v (by_kv w h) e = ground (arith, apply_kv_update-frame codec d w d' v h)
  Applied-shards id s d d' v (by_report nhi h) e =
      ground (arith, apply_node_host_info_update-frame d nhi d' v h)
  Applied-shards id s d d' v (by_requests reqs h) e =
      ground (arith, apply_requests_update-frame codec d reqs d' v h)
  Applied-shards id s d d' v (by_tick h) e = ground (arith, apply_tick_update-frame d d' v h)

  -- A defined shard keeps its members and its application through every history.
  pub Reach-shards :
      (unmarshal_update : Bytes → Option Update) (id : ℕ) (s : Pb.Shard) {d d' : Db}
      → Reach unmarshal_update d d'
      → lookup id d.shards ≡ some s
      → lookup id d'.shards ≡ some s
  Reach-shards um id s r =
      Reach-keeps um (λ x. lookup id x.shards ≡ some s) (λ x x' v a. Applied-shards id s x x' v a) r

  Applied-bootstrapped :
      (shards : Map ℕ Pb.Shard) (d d' : Db) (v : ℕ)
      → Applied codec d d' v
      → (bootstrapped d ≡ true) × (d.shards ≡ shards)
      → (bootstrapped d' ≡ true) × (d'.shards ≡ shards)
  unfolding bootstrapped
  Applied-bootstrapped shards d d' v a e = (Applied-has bootstrapped_key d d' v a e.0, same a)
    where
      same : Applied codec d d' v → d'.shards ≡ shards
      same (by_shard c h) = ground (arith, apply_shard_update-bootstrapped c d d' v h e.0)
      same (by_kv w h) = ground (arith, apply_kv_update-frame codec d w d' v h)
      same (by_report nhi h) = ground (arith, apply_node_host_info_update-frame d nhi d' v h)
      same (by_requests reqs h) = ground (arith, apply_requests_update-frame codec d reqs d' v h)
      same (by_tick h) = ground (arith, apply_tick_update-frame d d' v h)

  -- Once the DB is bootstrapped it stays so, and the set of its shards never changes.
  pub Reach-bootstrapped :
      (unmarshal_update : Bytes → Option Update) {d d' : Db}
      → Reach unmarshal_update d d'
      → bootstrapped d ≡ true
      → (bootstrapped d' ≡ true) × (d'.shards ≡ d.shards)
  Reach-bootstrapped um {d} r e =
      Reach-keeps um (λ x. (bootstrapped x ≡ true) × (x.shards ≡ d.shards))
        (Applied-bootstrapped d.shards) r (e, refl)
