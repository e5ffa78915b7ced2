-- ===== src/ShardImage/Invariant.antt =====
-- shardimage.go: what it is for the image to be well formed, through the steps of `update`.

use drummer.Base.{
  ℕ, ◌≡◌, refl, sym, subst, Bool, true, false, not, ◌&&◌, ◌||◌, List, [], ◌∷◌, none, some, nat_eq,
  bytes_eq, ok, >>=-eq-ok, arith, Bool-cases, Option-cases, Outcome-cases, inl, inr, ltb,
}
use drummer.Base.Map.{
  Map, IsMap, AllEntries, lookup, insert, modify, map_values, insert-IsMap, modify-IsMap,
  insert-AllEntries, modify-AllEntries,
}
use drummer.Pb.{ShardInfo, NodeHostInfo}
use drummer.ShardImage.{Replica, Shard, MultiShard}
use drummer.ShardImage.Sync.{sync_shard, get_shard, delete_all, to_remove, kill_request_required}
use drummer.ShardImage.Update.{
  update_shard, update_shards, update_tick, update_node_tick, do_update, set_leader_info,
  sync_leader, sync_leader_info, update,
}
use drummer.ShardImage.Merge.{sync_shard_parts, sync_shard_rejected_iff}
use drummer.ShardImage.Replicas.{
  IsReplicas, modify-IsReplicas, delete_all-IsReplicas, add_replicas-IsReplicas,
  first-IsReplicas-IsReplicas, elect-IsReplicas, step_down-IsReplicas,
}

-- A record of the shard `id`.
pub record IsShard (id : ℕ) (c : Shard) : Type 0 where
  pub own_id : c.shard_id ≡ id
  pub replicas_valid : IsReplicas id c.replicas

-- Each shard stands under its id, each replica under its own, and no shard has two leaders.
pub record IsImage (shards : Map ℕ Shard) : Type 0 where
  pub is_map : IsMap shards
  pub shards_valid : AllEntries IsShard shards

insert-IsImage :
    (id : ℕ) (c : Shard) (shards : Map ℕ Shard)
    → IsShard id c
    → IsImage shards
    → IsImage (insert id c shards)
insert-IsImage id c shards v h = record {
  is_map = insert-IsMap id c shards h.is_map;
  shards_valid = insert-AllEntries IsShard id c shards v h.shards_valid;
}

modify-IsImage :
    (id : ℕ) (f : Shard → Shard) (shards : Map ℕ Shard)
    → ((j : ℕ) (c : Shard) → IsShard j c → IsShard j (f c))
    → IsImage shards
    → IsImage (modify id f shards)
modify-IsImage id f shards keep h = record {
  is_map = modify-IsMap id f shards h.is_map;
  shards_valid = modify-AllEntries IsShard id f shards keep h.shards_valid;
}

get_shard-IsShard : (ci : ShardInfo) (tick : ℕ) → IsShard ci.shard_id (get_shard ci tick)
unfolding get_shard
get_shard-IsShard ci tick = record {
  own_id = refl;
  replicas_valid =
      first-IsReplicas-IsReplicas ci.shard_id tick ci.replica_id ci.is_leader ci.replicas;
}

sync_shard-IsShard :
    (c : Shard) (ci : ShardInfo) (tick : ℕ) (c' : Shard) (rejected : Bool)
    → sync_shard c ci tick ≡ ok (c', rejected)
    → IsShard ci.shard_id c
    → IsShard ci.shard_id c'
sync_shard-IsShard c ci tick c' true e h =
    subst (IsShard ci.shard_id) (sym ((sync_shard_rejected_iff c ci tick c').0 e).1) h
sync_shard-IsShard c ci tick c' false e h =
    let (rs, done, checked, after, newer) = sync_shard_parts c ci tick c' e in
    subst (IsShard ci.shard_id) (sym after) (record {
      own_id = h.own_id;
      replicas_valid =
          add_replicas-IsReplicas ci.shard_id tick ci.replicas
            (delete_all (to_remove c ci) c.replicas) rs done
            (delete_all-IsReplicas ci.shard_id (to_remove c ci) c.replicas h.replicas_valid);
    })

-- What a report of one replica does to the shards that are known.
pub data Reported (shards : Map ℕ Shard) (ci : ShardInfo) (tick : ℕ) (shards' : Map ℕ Shard)
    (kill : Bool) : Type 0 where
  unchanged : shards' ≡ shards → Reported shards ci tick shards' kill
  discovered :
      lookup ci.shard_id shards ≡ none
      → shards' ≡ insert ci.shard_id (get_shard ci tick) shards
      → kill ≡ false
      → Reported shards ci tick shards' kill
  synced :
      (c c' : Shard) (rejected : Bool)
      → lookup ci.shard_id shards ≡ some c
      → sync_shard c ci tick ≡ ok (c', rejected)
      → shards' ≡ insert ci.shard_id c' shards
      → kill ≡ (rejected && kill_request_required c' ci)
      → Reported shards ci tick shards' kill

pub update_shard-Reported :
    (shards : Map ℕ Shard) (ci : ShardInfo) (tick : ℕ) (shards' : Map ℕ Shard) (kill : Bool)
    → update_shard shards ci tick ≡ ok (shards', kill)
    → Reported shards ci tick shards' kill
unfolding update_shard
update_shard-Reported shards ci tick shards' kill h =
    elim (Bool-cases (ci.pending || ci.incomplete)) [
      | inl partial ↦ unchanged (ground arith)
      | inr full ↦ elim (Option-cases (lookup ci.shard_id shards)) [
        | inl new ↦ discovered new (ground arith) (ground arith)
        | inr (c, known) ↦ elim (Outcome-cases (sync_shard c ci tick)) [
          | inl (p, failed) ↦ absurd (ground arith)
          | inr ((c', rejected), done) ↦
              synced c c' rejected known done (ground arith) (ground arith)
        ]
      ]
    ]

update_shard-IsImage :
    (shards : Map ℕ Shard) (ci : ShardInfo) (tick : ℕ) (shards' : Map ℕ Shard) (kill : Bool)
    → update_shard shards ci tick ≡ ok (shards', kill)
    → IsImage shards
    → IsImage shards'
update_shard-IsImage shards ci tick shards' kill e h =
    elim (update_shard-Reported shards ci tick shards' kill e) [
      | unchanged same ↦ subst IsImage (sym same) h
      | discovered new after k ↦
          subst IsImage (sym after)
            (insert-IsImage ci.shard_id (get_shard ci tick) shards (get_shard-IsShard ci tick) h)
      | synced c c' rejected known done after k ↦ subst IsImage (sym after) (
          insert-IsImage ci.shard_id c' shards
            (sync_shard-IsShard c ci tick c' rejected done (h.shards_valid ci.shard_id c known)) h)
    ]

update_shards-IsImage :
    (shards : Map ℕ Shard) (cis : List ShardInfo) (tick : ℕ) (shards' : Map ℕ Shard)
    (to_kill : List ShardInfo)
    → update_shards shards cis tick ≡ ok (shards', to_kill)
    → IsImage shards
    → IsImage shards'
unfolding update_shards
update_shards-IsImage shards [] tick shards' to_kill e h = subst IsImage (ground arith) h
update_shards-IsImage shards (ci ∷ cis) tick shards' to_kill e h =
    let ((mid, kill), first, e') = >>=-eq-ok (update_shard shards ci tick) _ e in
    let ((last, to_kill'), rest, e'') = >>=-eq-ok (update_shards mid cis tick) _ e' in
    subst IsImage (ground arith) (
      update_shards-IsImage mid cis tick last to_kill' rest
        (update_shard-IsImage shards ci tick mid kill first h))

update_tick-IsImage :
    (tick : ℕ) (ci : ShardInfo) (shards : Map ℕ Shard)
    → IsImage shards
    → IsImage (update_tick tick ci shards)
unfolding update_tick
update_tick-IsImage tick ci shards = modify-IsImage ci.shard_id _ shards λ j c v. record {
  own_id = v.own_id;
  replicas_valid =
      modify-IsReplicas j ci.replica_id (λ n. record n { tick = tick }) c.replicas
        (λ n. (refl, refl)) (λ n l. l) v.replicas_valid;
}

update_node_tick-IsImage :
    (tick : ℕ) (cis : List ShardInfo) (shards : Map ℕ Shard)
    → IsImage shards
    → IsImage (update_node_tick tick cis shards)
unfolding update_node_tick
update_node_tick-IsImage tick [] shards h = h
update_node_tick-IsImage tick (ci ∷ cis) shards h =
    update_node_tick-IsImage tick cis (update_tick tick ci shards)
      (update_tick-IsImage tick ci shards h)

set_leader_info-IsReplicas :
    (id : ℕ) (ci : ShardInfo) (n : Replica) (rs : Map ℕ Replica)
    → IsReplicas id rs
    → IsReplicas id (set_leader_info ci n rs)
unfolding set_leader_info
set_leader_info-IsReplicas id ci n rs h = elim (Bool-cases (not ci.is_leader && n.is_leader)) [
  | inl resigns ↦ rw resigns (
      modify-IsReplicas id ci.replica_id (λ m. record m { is_leader = false }) rs
        (λ m. (refl, refl)) (λ m l. cc) h)
  | inr stays ↦ rw stays (elim (Bool-cases (ci.is_leader && not n.is_leader)) [
    | inl wins ↦
        let (valid, none_leads) = step_down-IsReplicas id rs h in
        rw wins (
          elect-IsReplicas id ci.replica_id true
            (map_values (λ m. record m { is_leader = false }) rs) valid none_leads)
    | inr same ↦ rw same h
  ])
]

sync_leader-IsShard :
    (ci : ShardInfo) (j : ℕ) (c : Shard) → IsShard j c → IsShard j (sync_leader ci c)
unfolding sync_leader
sync_leader-IsShard ci j c v =
    elim (Bool-cases (ltb ci.config_change_index c.config_change_index)) [
      | inl old ↦ rw old v
      | inr current ↦ rw current (elim (Option-cases (lookup ci.replica_id c.replicas)) [
        | inl absent ↦ rw (absent, sync_leader) v
        | inr (n, found) ↦
            rw (found, sync_leader)
              (record {
                own_id = v.own_id;
                replicas_valid = set_leader_info-IsReplicas j ci n c.replicas v.replicas_valid;
              })
      ])
    ]

sync_leader_info-IsImage :
    (cis : List ShardInfo) (shards : Map ℕ Shard)
    → IsImage shards
    → IsImage (sync_leader_info cis shards)
unfolding sync_leader_info
sync_leader_info-IsImage [] shards h = h
sync_leader_info-IsImage (ci ∷ cis) shards h =
    sync_leader_info-IsImage cis (modify ci.shard_id (sync_leader ci) shards)
      (modify-IsImage ci.shard_id (sync_leader ci) shards (sync_leader-IsShard ci) h)

-- A report keeps the image well formed: each shard and each replica stands under its own id, and no
-- shard has two leaders, whatever the report says.
pub update-IsImage :
    (mc : MultiShard) (nhi : NodeHostInfo) (mc' : MultiShard)
    → update mc nhi ≡ ok mc'
    → IsImage mc.shards
    → IsImage mc'.shards
unfolding update do_update
update-IsImage mc nhi mc' e h =
    elim (Outcome-cases (update_shards mc.shards nhi.shard_info nhi.last_tick)) [
      | inl (p, failed) ↦ absurd (ground arith)
      | inr ((shards, to_kill), done) ↦
          let ticked = update_node_tick nhi.last_tick nhi.shard_info shards in
          subst IsImage (ground arith) (
            sync_leader_info-IsImage nhi.shard_info ticked (
              update_node_tick-IsImage nhi.last_tick nhi.shard_info shards (
                update_shards-IsImage mc.shards nhi.shard_info nhi.last_tick shards to_kill done
                  h)))
    ]
