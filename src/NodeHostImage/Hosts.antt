-- ===== src/NodeHostImage/Hosts.antt =====
-- nodehostimage.go: which shards a nodehost counts as hosting after a report, and its RPC address.
use drummer.Base.{
  ◌∙◌, Bool-cases, bytes_beq_iff, ℕ, ◌≡◌, refl, Bool, true, false, ◌&&◌, ◌||◌, List, [], ◌∷◌, none,
  some, any, ◌==◌, Bytes, nat_eq, bytes_eq, ==_iff, arith, Option-cases, inl, inr,
}
use drummer.Base.Map.{
  Map, IsMap, lookup, has, insert, modify, values, lookup-insert, lookup-insert_self, lookup-modify,
}
use drummer.Pb.{NodeHostInfo}
use drummer.ShardImage.{Replica, Shard, MultiShard}
use drummer.NodeHostImage.{
  IdSet, NodeHostSpec, MultiNodeHost, add_ids, to_node_host_spec, sync_node_host_spec, update,
  add_shard, add_shards, sync_shard_info,
}

-- The nodehost at the address is known and lists the shard.
unfoldable pub lists : ℕ → Bytes → Map Bytes NodeHostSpec → Bool
lists cid a specs = elim (lookup a specs) [ none ↦ false | some spec ↦ has cid spec.shards ]

-- The shard image has a replica of the shard at the address.
unfoldable pub hosted : ℕ → Bytes → Map ℕ Shard → Bool
hosted cid a shards = elim (lookup cid shards) [
  | none ↦ false
  | some c ↦ any (λ (n : Replica). n.address == a) (values c.replicas)
]

has-insert : (j k : ℕ) (ids : IdSet) → has j (insert k tt ids) ≡ (k == j || has j ids)
unfolding has
has-insert j k ids = ground (arith, lookup-insert j k tt ids)

has-add_ids :
    (cid : ℕ) (cids : List ℕ) (ids : IdSet)
    → has cid (add_ids cids ids) ≡ (any (λ x. x == cid) cids || has cid ids)
unfolding add_ids any
has-add_ids cid [] ids = refl
has-add_ids cid (x ∷ xs) ids =
    ground (arith, has-add_ids cid xs (insert x tt ids), has-insert cid x ids)

abbrev add_id : ℕ → NodeHostSpec → NodeHostSpec
add_id cid spec = record spec { shards = insert cid tt spec.shards }

lists-modify :
    (cid' cid : ℕ) (a b : Bytes) (specs : Map Bytes NodeHostSpec)
    → lists cid' a (modify b (add_id cid) specs)
      ≡ (lists cid' a specs || (has a specs && (cid == cid' && b == a)))
unfolding lists has
lists-modify cid' cid a b specs = elim (Option-cases (lookup a specs)) [
  | inl absent ↦ ground (arith, lookup-modify a b (add_id cid) specs)
  | inr (spec, found) ↦
      ground (arith, lookup-modify a b (add_id cid) specs, has-insert cid' cid spec.shards)
]

has-modify :
    (a b : Bytes) (f : NodeHostSpec → NodeHostSpec) (specs : Map Bytes NodeHostSpec)
    → has a (modify b f specs) ≡ has a specs
unfolding has
has-modify a b f specs = ground (arith, lookup-modify a b f specs)

add_shard_lem :
    (cid' cid : ℕ) (a : Bytes) (ns : List Replica) (specs : Map Bytes NodeHostSpec)
    → (has a (add_shard cid ns specs) ≡ has a specs)
      × (lists cid' a (add_shard cid ns specs)
          ≡ (lists cid' a specs || (has a specs && (cid == cid' && any (λ n. n.address == a) ns))))
unfolding add_shard any
add_shard_lem cid' cid a [] specs = (refl, ground arith)
add_shard_lem cid' cid a (n ∷ ns) specs =
    let specs' = modify n.address (add_id cid) specs in
    (
      ground (arith, add_shard_lem cid' cid a ns specs', has-modify a n.address (add_id cid) specs),
      ground (
        arith,
        add_shard_lem cid' cid a ns specs',
        has-modify a n.address (add_id cid) specs,
        lists-modify cid' cid a n.address specs,
      ),
    )

add_shards_lem :
    (cid : ℕ) (a : Bytes) (shards : Map ℕ Shard) (specs : Map Bytes NodeHostSpec)
    → IsMap shards
    → (has a (add_shards shards specs) ≡ has a specs)
      × (lists cid a (add_shards shards specs)
          ≡ (lists cid a specs || (has a specs && hosted cid a shards)))
unfolding add_shards hosted lookup
add_shards_lem cid a [] specs w = (refl, ground arith)
add_shards_lem cid a ((k, c) ∷ shards) specs w =
    let specs' = add_shard k (values c.replicas) specs in
    (
      ground (
        arith,
        add_shards_lem cid a shards specs' w.1,
        add_shard_lem cid k a (values c.replicas) specs,
      ),
      ground (
        arith,
        add_shards_lem cid a shards specs' w.1,
        add_shard_lem cid k a (values c.replicas) specs,
        ==_iff k cid,
      ),
    )

-- `syncShardInfo` neither adds nor loses a nodehost, and a nodehost then lists a shard exactly
-- where it did, or where it is known and the shard image has a replica of the shard at its address.
pub sync_shard_info-lists :
    (m : MultiNodeHost) (mc : MultiShard) (cid : ℕ) (a : Bytes)
    → IsMap mc.shards
    → (has a (sync_shard_info m mc).nodehosts ≡ has a m.nodehosts)
      × (lists cid a (sync_shard_info m mc).nodehosts
          ≡ (lists cid a m.nodehosts || (has a m.nodehosts && hosted cid a mc.shards)))
unfolding sync_shard_info
sync_shard_info-lists m mc cid a w = add_shards_lem cid a mc.shards m.nodehosts w

update-lists :
    (m : MultiNodeHost) (nhi : NodeHostInfo) (cid : ℕ)
    → (has nhi.raft_address (update m nhi).nodehosts ≡ true)
      × (lists cid nhi.raft_address (update m nhi).nodehosts
          ≡ any (λ x. x == cid) nhi.shard_id_list)
unfolding update to_node_host_spec sync_node_host_spec lists has lookup
update-lists m nhi cid = elim (Option-cases (lookup nhi.raft_address m.nodehosts)) [
  | inl new ↦ (
    ground (arith, lookup-insert_self nhi.raft_address (to_node_host_spec nhi) m.nodehosts),
    ground (
      arith,
      lookup-insert_self nhi.raft_address (to_node_host_spec nhi) m.nodehosts,
      has-add_ids cid nhi.shard_id_list [],
    ),
  )
  | inr (spec, known) ↦ (
    ground (arith, lookup-insert_self nhi.raft_address (sync_node_host_spec nhi spec) m.nodehosts),
    ground (
      arith,
      lookup-insert_self nhi.raft_address (sync_node_host_spec nhi spec) m.nodehosts,
      has-add_ids cid nhi.shard_id_list [],
    ),
  )
]

-- After a report of a nodehost that both images take in, the nodehost lists exactly the shards that
-- it reported and those that the shard image places at its address.
pub report-lists :
    (m : MultiNodeHost) (mc : MultiShard) (nhi : NodeHostInfo) (cid : ℕ)
    → IsMap mc.shards
    → lists cid nhi.raft_address (sync_shard_info (update m nhi) mc).nodehosts
      ≡ (any (λ x. x == cid) nhi.shard_id_list || hosted cid nhi.raft_address mc.shards)
report-lists m mc nhi cid w =
    ground (
      arith,
      update-lists m nhi cid,
      sync_shard_info-lists (update m nhi) mc cid nhi.raft_address w,
    )

-- Reports, one after the other.
unfoldable pub updates : MultiNodeHost → List NodeHostInfo → MultiNodeHost
updates m [] = m
updates m (nhi ∷ later) = updates (update m nhi) later

update-rpc_address :
    (m : MultiNodeHost) (nhi : NodeHostInfo) (a : Bytes) (old : NodeHostSpec)
    → lookup a m.nodehosts ≡ some old
    → (spec : NodeHostSpec) × (lookup a (update m nhi).nodehosts ≡ some spec)
      × (spec.rpc_address ≡ old.rpc_address)
unfolding update sync_node_host_spec
update-rpc_address m nhi a old known = elim (Bool-cases (nhi.raft_address == a)) [
  | inl own ↦
      let same : nhi.raft_address ≡ a = ground (arith, bytes_beq_iff nhi.raft_address a) in
      let mine : lookup nhi.raft_address m.nodehosts ≡ some old = rw same known in
      (
        sync_node_host_spec nhi old,
        ground (arith, lookup-insert a nhi.raft_address (sync_node_host_spec nhi old) m.nodehosts),
        refl,
      )
  | inr other ↦ elim (Option-cases (lookup nhi.raft_address m.nodehosts)) [
    | inl new ↦ (
      old,
      ground (arith, lookup-insert a nhi.raft_address (to_node_host_spec nhi) m.nodehosts),
      refl,
    )
    | inr (spec, there) ↦ (
      old,
      ground (arith, lookup-insert a nhi.raft_address (sync_node_host_spec nhi spec) m.nodehosts),
      refl,
    )
  ]
]

updates-keep :
    (m : MultiNodeHost) (later : List NodeHostInfo) (a : Bytes) (old : NodeHostSpec)
    → lookup a m.nodehosts ≡ some old
    → (spec : NodeHostSpec) × (lookup a (updates m later).nodehosts ≡ some spec)
      × (spec.rpc_address ≡ old.rpc_address)
unfolding updates
updates-keep m [] a old known = (old, known, refl)
updates-keep m (nhi ∷ later) a old known =
    let (mid, there, same) = update-rpc_address m nhi a old known in
    let (spec, there', same') = updates-keep (update m nhi) later a mid there in
    (spec, there', same' ∙ same)

-- A nodehost that was not known keeps the RPC address of its first report, whatever reports come
-- later, from it and from others.
pub updates-rpc_address :
    (m : MultiNodeHost) (first : NodeHostInfo) (later : List NodeHostInfo)
    → lookup first.raft_address m.nodehosts ≡ none
    → (spec : NodeHostSpec) × (lookup first.raft_address (updates (update m first) later).nodehosts
        ≡ some spec)
      × (spec.rpc_address ≡ first.rpc_address)
unfolding update to_node_host_spec
updates-rpc_address m first later new =
    updates-keep (update m first) later first.raft_address (to_node_host_spec first)
      (ground (arith, lookup-insert_self first.raft_address (to_node_host_spec first) m.nodehosts))
