-- ===== src/Client/Reports.antt =====
-- client/nodehost.go and shardimage.go: a report of which the client has left out what drummer has
-- already, against the whole report, as the image takes them in.
use drummer.Base.{
  ℕ, ◌≤◌, ◌<◌, ◌≡◌, refl, subst, Bool, true, false, not, ◌&&◌, inl, inr, [], length, ltb, Option,
  none, some, ◌==◌, nat_eq, ==_iff, arith, Bool-cases, Option-cases, ok, Outcome-cases, any,
}
use drummer.Base.Map.{Map, IsMap, lookup, has, insert, keys, lookup-insert}
use drummer.Pb.{ShardInfo}
use drummer.ShardImage.{Shard}
use drummer.ShardImage.Sync.{sync_shard, check_same_index, kill_request_required}
use drummer.ShardImage.Merge.{merged, sync_shard-merged, sync_shard_rejected_iff}
use drummer.ShardImage.Update.{is_zombie, update_shard}
use drummer.Client.{LocalShard, known, cluster_info, to_shard_info}
use drummer.Client.Sizes.{any-keys, has-has}

-- What the client sends of a replica, and what it would send of it had it no indexes.
abbrev pub sent : Map ℕ ℕ → LocalShard → ShardInfo
sent indexes v = to_shard_info (cluster_info indexes v)

abbrev pub whole : LocalShard → ShardInfo
whole v = to_shard_info (record { info = v; incomplete = false })

sync_shard-check :
    (c : Shard) (ci : ShardInfo) (tick : ℕ) (c' : Shard)
    → sync_shard c ci tick ≡ ok (c', false)
    → c.config_change_index ≡ ci.config_change_index
    → (length c.replicas ≡ length ci.replicas)
      × (any (λ nid. not (has nid c.replicas)) (keys ci.replicas) ≡ false)
unfolding sync_shard check_same_index
sync_shard-check c ci tick c' h same = ground arith

-- A report with the index of the record, once it is accepted, leaves the record as it was.
sync_shard-same :
    (c : Shard) (ci : ShardInfo) (tick : ℕ) (c' : Shard)
    → IsMap c.replicas
    → IsMap ci.replicas
    → sync_shard c ci tick ≡ ok (c', false)
    → c.config_change_index ≡ ci.config_change_index
    → (j : ℕ) → lookup j c'.replicas ≡ lookup j c.replicas
unfolding merged has
sync_shard-same c ci tick c' v w h same j =
    let (size, named) = sync_shard-check c ci tick c' h same in
    let there : (i : ℕ) → has i ci.replicas ≡ true → has i c.replicas ≡ true =
      λ i p. ground (arith, any-keys (λ nid. not (has nid c.replicas)) i ci.replicas named p) in
    let back = has-has ci.replicas c.replicas w v (omega arith) there j in
    let here' = there j in
    let (newer, index, id, reads) = sync_shard-merged c ci tick c' w h in
    elim (Option-cases (lookup j ci.replicas)) [
      | inl gone ↦ elim (Option-cases (lookup j c.replicas)) [
        | inl absent ↦ ground (arith, reads j)
        | inr (n, known_there) ↦ absurd (ground arith)
      ]
      | inr (a, reported) ↦ elim (Option-cases (lookup j c.replicas)) [
        | inl absent ↦ absurd (ground arith)
        | inr (n, known_there) ↦ ground (arith, reads j)
      ]
    ]

-- Two images that say the same of a shard.
pub data SameShard : Option Shard → Option Shard → Type 0 where
  neither : SameShard none none
  both :
      {c c' : Shard}
      → c'.shard_id ≡ c.shard_id
      → c'.config_change_index ≡ c.config_change_index
      → ((j : ℕ) → lookup j c'.replicas ≡ lookup j c.replicas)
      → SameShard (some c) (some c')

SameShard-refl : (o : Option Shard) → SameShard o o
SameShard-refl none = neither
SameShard-refl (some c) = both refl refl (λ j. refl)

sync_shard-whole :
    (c c' : Shard) (v : LocalShard) (tick : ℕ) (rejected : Bool)
    → IsMap c.replicas
    → IsMap v.replicas
    → v.config_change_index ≤ c.config_change_index
    → sync_shard c (whole v) tick ≡ ok (c', rejected)
    → SameShard (some c) (some c')
      × ((rejected && kill_request_required c' (whole v))
          ≡ (ltb 0 c.config_change_index && kill_request_required c (whole v)))
unfolding to_shard_info kill_request_required
sync_shard-whole c c' v tick true m w le h =
    let (older, same) = (sync_shard_rejected_iff c (whole v) tick c').0 h in
    (rw same (both refl refl (λ j. refl)), rw same (ground arith))
sync_shard-whole c c' v tick false m w le h =
    let (newer, index, id, reads) = sync_shard-merged c (whole v) tick c' w h in
    let same : c.config_change_index ≡ v.config_change_index = omega arith in
    (both id (ground arith) (sync_shard-same c (whole v) tick c' m w h same), ground arith)

-- What is sent of a replica that drummer knows.
abbrev short : LocalShard → ShardInfo
short v = to_shard_info (record { info = record v { replicas = [] }; incomplete = true })

sent-known :
    (indexes : Map ℕ ℕ) (v : LocalShard)
    → known (lookup v.shard_id indexes) v ≡ true
    → (sent indexes v ≡ short v)
      × (v.pending ≡ false)
      × ((cci : ℕ) × (lookup v.shard_id indexes ≡ some cci) × (v.config_change_index ≤ cci))
unfolding cluster_info known
sent-known indexes v h = elim (Option-cases (lookup v.shard_id indexes)) [
  | inl absent ↦ absurd (ground arith)
  | inr (cci, there) ↦ (rw h refl, ground arith, (cci, there, ground arith))
]

sent-unknown :
    (indexes : Map ℕ ℕ) (v : LocalShard)
    → known (lookup v.shard_id indexes) v ≡ false
    → sent indexes v ≡ whole v
unfolding cluster_info
sent-unknown indexes v h = rw h refl

update_shard-whole :
    (shards shards' : Map ℕ Shard) (v : LocalShard) (c : Shard) (tick : ℕ) (kill : Bool)
    → v.pending ≡ false
    → lookup v.shard_id shards ≡ some c
    → update_shard shards (whole v) tick ≡ ok (shards', kill)
    → (c' : Shard) × (rejected : Bool) × (sync_shard c (whole v) tick ≡ ok (c', rejected))
      × (shards' ≡ insert v.shard_id c' shards)
      × (kill ≡ (rejected && kill_request_required c' (whole v)))
unfolding update_shard to_shard_info
update_shard-whole shards shards' v c tick kill p there h =
    elim (Outcome-cases (sync_shard c (whole v) tick)) [
      | inl (f, failed) ↦ absurd (ground arith)
      | inr ((c', rejected), e) ↦ (c', rejected, e, ground arith, ground arith)
    ]

update_shard-short :
    (shards : Map ℕ Shard) (v : LocalShard) (c : Shard) (tick : ℕ)
    → lookup v.shard_id shards ≡ some c
    → 0 < length c.replicas
    → update_shard shards (short v) tick
      ≡ ok (shards, ltb 0 c.config_change_index && kill_request_required c (whole v))
unfolding update_shard to_shard_info is_zombie kill_request_required
update_shard-short shards v c tick there p = ground arith

SameShard-insert :
    (id : ℕ) (c c' : Shard) (shards : Map ℕ Shard)
    → lookup id shards ≡ some c
    → SameShard (some c) (some c')
    → (j : ℕ) → SameShard (lookup j shards) (lookup j (insert id c' shards))
SameShard-insert id c c' shards there same j = elim (Bool-cases (id == j)) [
  | inl at ↦
      subst (λ (o : Option Shard × Option Shard). SameShard o.0 o.1)
        (ground (arith, lookup-insert j id c' shards, ==_iff id j)) same
  | inr off ↦
      subst (λ o. SameShard (lookup j shards) o) (ground (arith, lookup-insert j id c' shards))
        (SameShard-refl (lookup j shards))
]

-- Where the image accepts the whole report of a replica, and the indexes that the client was given
-- are those of the image or older, it says the same of every shard, and condemns the same replica,
-- after what the client sends.
pub sent-whole :
    (indexes : Map ℕ ℕ) (shards shards' : Map ℕ Shard) (v : LocalShard) (c : Shard) (tick : ℕ)
    (kill : Bool)
    → IsMap v.replicas
    → lookup v.shard_id shards ≡ some c
    → IsMap c.replicas
    → 0 < length c.replicas
    → ((cci : ℕ) → lookup v.shard_id indexes ≡ some cci → cci ≤ c.config_change_index)
    → update_shard shards (whole v) tick ≡ ok (shards', kill)
    → (sent_shards : Map ℕ Shard) × (update_shard shards (sent indexes v) tick
        ≡ ok (sent_shards, kill))
      × ((j : ℕ) → SameShard (lookup j sent_shards) (lookup j shards'))
sent-whole indexes shards shards' v c tick kill w there m some_replica older h =
    elim (Bool-cases (known (lookup v.shard_id indexes) v)) [
      | inr unknown ↦
          (shards', rw (sent-unknown indexes v unknown) h, λ j. SameShard-refl (lookup j shards'))
      | inl is_known ↦
          let (short_one, settled, (cci, index, le)) = sent-known indexes v is_known in
          let (c', rejected, e, after, condemned) =
            update_shard-whole shards shards' v c tick kill settled there h in
          let newest = older cci index in
          let (same, kills) = sync_shard-whole c c' v tick rejected m w (omega arith) e in
          (
            shards,
            rw short_one
                (rw condemned (rw kills (update_shard-short shards v c tick there some_replica))),
            λ j. rw after (SameShard-insert v.shard_id c c' shards there same j),
          )
    ]
