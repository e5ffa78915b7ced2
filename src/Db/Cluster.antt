-- ===== src/Db/Cluster.antt =====
-- db.go: the images of shards that the DB keeps, through its histories.
use mathlib.Core.List.{append-nil, append_assoc}
use drummer.Base.{
  ℕ, ◌≡◌, refl, sym, ◌∙◌, subst, ap, ◌⊎◌, true, false, List, [], ◌∷◌, ◌++◌, Option, none, some,
  if◌then◌else◌, Bytes, ok, Codec, arith, Option-cases, inl, inr, length, filter, ltb, nat_eq,
  bytes_eq, ==_iff, ◌||◌, ◌↔◌, ◌<◌, All,
}
use drummer.Base.Map.{Map, lookup, has, values, insert, lookup-insert, IsMap}
use drummer.Pb.{Kv, NodeHostInfo, Update, NodeHostRequestCollection}
use drummer.ShardImage.{Replica, Shard, MultiShard, ReplicaToKill}
use drummer.ShardImage.Update as ShardImage
use drummer.ShardImage.Invariant.{IsImage, update-IsImage}
use drummer.ShardImage.Health.{length-filter-le}
use drummer.ShardImage.Growth.{NotOlder-refl, NotOlder-trans, Grows, update-Grows}
use drummer.NodeHostImage.{IdSet}
use drummer.Db.State.{
  Db, launched, launched_key, is_launched, add_launched, get_launched_shards, on_updated_shard_info,
}
use drummer.Db.Operations.{
  apply_node_host_info_update, hand_over, is_launch_requests, apply_requests_update,
}
use drummer.Db.Launch.{ordinary, first_launch, ignored, apply_requests_update-Accepted}
use drummer.Db.Frame.{
  Applied, by_shard, by_kv, by_report, by_requests, by_tick, apply_tick_update-frame,
  apply_shard_update-frame, apply_kv_update-frame, apply_requests_update-frame,
}
use drummer.Db.History.{Reach, Reach-keeps, Applied-has}

-- The shard image after a report is that of `update`, at the DB's own tick.
apply_node_host_info_update-image :
    (d : Db) (nhi : NodeHostInfo) (d' : Db) (v : ℕ)
    → apply_node_host_info_update d nhi ≡ ok (d', v)
    → ShardImage.update d.shard_image (record nhi { last_tick = d.tick }) ≡ ok d'.shard_image
unfolding apply_node_host_info_update hand_over on_updated_shard_info
apply_node_host_info_update-image d nhi d' v h = ground arith

module _ (codec : Codec Kv) where
  -- The image of shards is changed by reports alone.
  Applied-image :
      (d d' : Db) (v : ℕ)
      → Applied codec d d' v
      → (d'.shard_image ≡ d.shard_image)
        ⊎ ((nhi : NodeHostInfo) × (ShardImage.update d.shard_image nhi ≡ ok d'.shard_image))
  Applied-image d d' v (by_shard c h) =
      inl ((apply_shard_update-frame d c d' v h).1.same_shard_image)
  Applied-image d d' v (by_kv w h) =
      inl ((apply_kv_update-frame codec d w d' v h).1.same_shard_image)
  Applied-image d d' v (by_report nhi h) =
      inr (record nhi { last_tick = d.tick }, apply_node_host_info_update-image d nhi d' v h)
  Applied-image d d' v (by_requests reqs h) =
      inl ((apply_requests_update-frame codec d reqs d' v h).1.same_shard_image)
  Applied-image d d' v (by_tick h) = inl ((apply_tick_update-frame d d' v h).1.same_shard_image)

  -- In every DB that a history leads to from a well-formed one, each shard and each replica stands
  -- under its own id, and no shard has two leaders.
  pub Reach-IsImage :
      (unmarshal_update : Bytes → Option Update) {d d' : Db}
      → Reach codec unmarshal_update d d'
      → IsImage d.shard_image.shards
      → IsImage d'.shard_image.shards
  Reach-IsImage um r =
      Reach-keeps codec um (λ x. IsImage x.shard_image.shards)
        (λ x x' v a h. elim (Applied-image x x' v a) [
          | inl same ↦ subst (λ (m : MultiShard). IsImage m.shards) (sym same) h
          | inr (nhi, e) ↦ update-IsImage x.shard_image nhi x'.shard_image e h
        ])
        r

  -- No history loses a shard of the image or takes it back to an older configuration, and none takes
  -- a replica off the list of those to be killed.
  pub Reach-Grows :
      (unmarshal_update : Bytes → Option Update) {d d' : Db}
      → Reach codec unmarshal_update d d'
      → Grows d.shard_image.shards d'.shard_image.shards
        × ((new : List ReplicaToKill) × (d'.shard_image.replicas_to_kill
              ≡ d.shard_image.replicas_to_kill ++ new))
  Reach-Grows um {d} r =
      Reach-keeps codec um (Later d)
        (λ x x' v a h. elim (Applied-image x x' v a) [
          | inl same ↦
              subst
                (λ (m : MultiShard).
                  Grows d.shard_image.shards m.shards
                  × ((new : List ReplicaToKill) × (m.replicas_to_kill
                        ≡ d.shard_image.replicas_to_kill ++ new)))
                (sym same) h
          | inr (nhi, e) ↦ after x x' nhi e h
        ])
        r (λ j. NotOlder-refl _, ([], sym (append-nil _)))
    where
      Later : Db → Db → Type 0
      Later d x =
          Grows d.shard_image.shards x.shard_image.shards
          × ((new : List ReplicaToKill) × (x.shard_image.replicas_to_kill
                ≡ d.shard_image.replicas_to_kill ++ new))

      after :
          (x x' : Db) (nhi : NodeHostInfo)
          → ShardImage.update x.shard_image nhi ≡ ok x'.shard_image
          → Later d x
          → Later d x'
      after x x' nhi e (grown, (new, listed)) =
          let (grows, (more, listed')) = update-Grows x.shard_image nhi x'.shard_image e in
          (
            λ j. NotOlder-trans _ _ _ (grown j) (grows j),
            (new ++ more, listed' ∙ ap (λ l. l ++ more) listed ∙ append_assoc _ new more),
          )

  -- Once the DB is launched, every history keeps it so, and a further launch changes nothing.
  pub Reach-launched :
      (unmarshal_update : Bytes → Option Update) (reqs : NodeHostRequestCollection) (v : ℕ)
      {d d' d'' : Db}
      → launched d ≡ true
      → Reach codec unmarshal_update d d'
      → is_launch_requests reqs ≡ ok true
      → apply_requests_update codec d' reqs ≡ ok (d'', v)
      → (launched d' ≡ true) × (d'' ≡ d') × (v ≡ 0)
  unfolding launched
  Reach-launched um reqs v {d} {d'} {d''} old r kind h =
      let still =
        Reach-keeps codec um (λ x. has launched_key x.kv_map ≡ true)
          (λ x x' v a. Applied-has codec launched_key x x' v a) r old in
      elim (apply_requests_update-Accepted codec d' reqs d'' v h) [
        | ordinary kind' e n ↦ absurd (ground arith)
        | first_launch b kind' new encoded e n ↦ absurd (ground arith)
        | ignored kind' old' e n ↦ (still, e, n)
      ]

named_tail :
    (k : ℕ) (c : Shard) (shards : Map ℕ Shard)
    → lookup k shards ≡ none
    → ((j : ℕ) (x : Shard) → lookup j ((k, c) ∷ shards) ≡ some x → x.shard_id ≡ j)
    → (j : ℕ) (x : Shard) → lookup j shards ≡ some x
    → x.shard_id ≡ j
unfolding lookup
named_tail k c shards absent named j x found = named j x (ground (arith, ==_iff k j))

All-ticked_iff :
    (ns : List Replica)
    → (length (filter (λ n. ltb 0 n.tick) ns) ≡ length ns) ↔ All (λ n. 0 < n.tick) ns
unfolding filter
All-ticked_iff [] = (λ h. tt, λ h. refl)
All-ticked_iff (n ∷ ns) = (
  λ h. (
    ground (arith, length-filter-le (λ (m : Replica). ltb 0 m.tick) ns),
    (All-ticked_iff ns).0 (ground (arith, length-filter-le (λ (m : Replica). ltb 0 m.tick) ns)),
  ),
  λ (pos, rest). ground (arith, (All-ticked_iff ns).1 rest),
)

add_launched-has :
    (id : ℕ) (shards : Map ℕ Shard) (ids : IdSet)
    → IsMap shards
    → ((j : ℕ) (c : Shard) → lookup j shards ≡ some c → c.shard_id ≡ j)
    → has id (add_launched (values shards) ids)
      ≡ (has id ids || (elim (lookup id shards) [ none ↦ false | some c ↦ is_launched c ]))
unfolding add_launched lookup has
add_launched-has id [] ids w named = ground arith
add_launched-has id ((k, c) ∷ shards) ids w named =
    let ids' = if is_launched c then insert c.shard_id tt ids else ids in
    ground (
      arith,
      add_launched-has id shards ids' w.1 (named_tail k c shards w.0 named),
      lookup-insert id c.shard_id tt ids,
      named k c (ground arith),
      ==_iff k id,
    )

length-values : {V : Type 0} (m : Map ℕ V) → length (values m) ≡ length m
length-values [] = refl
length-values (e ∷ m) = omega (arith, length-values m)

is_launched_iff : (c : Shard) → (is_launched c ≡ true) ↔ All (λ n. 0 < n.tick) (values c.replicas)
unfolding is_launched
is_launched_iff c = (
  λ h. (All-ticked_iff (values c.replicas)).0 (
      omega (
        arith,
        (==_iff (length (filter (λ n. ltb 0 n.tick) (values c.replicas))) (length c.replicas)).0 h,
        length-values c.replicas,
      )),
  λ h.
      (==_iff (length (filter (λ n. ltb 0 n.tick) (values c.replicas))) (length c.replicas)).1
        (omega (arith, (All-ticked_iff (values c.replicas)).1 h, length-values c.replicas)),
)

-- In a well-formed image the launched shards are those that are known and whose replicas have all
-- reported.
pub get_launched_shards-has_iff :
    (d : Db) (id : ℕ)
    → IsImage d.shard_image.shards
    → (has id (get_launched_shards d) ≡ true) ↔ (
        (c : Shard) × (lookup id d.shard_image.shards ≡ some c)
        × All (λ n. 0 < n.tick) (values c.replicas))
unfolding get_launched_shards has lookup
get_launched_shards-has_iff d id v =
    let shards = d.shard_image.shards in
    let launched_ids =
      add_launched-has id shards [] v.is_map (λ j c found. (v.shards_valid j c found).own_id) in
    elim (Option-cases (lookup id shards)) [
      | inl unknown ↦ (λ h. absurd (ground arith), λ (c, known, all). absurd (ground arith))
      | inr (c, known) ↦ (
        λ h. (c, known, (is_launched_iff c).0 (ground arith)),
        λ (c', known', all). ground (arith, (is_launched_iff c').1 all),
      )
    ]
