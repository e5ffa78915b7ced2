-- ===== src/ShardImage/Growth.antt =====
-- shardimage.go: which replicas a report condemns, and how the configurations of the image grow.
use native.Mathlib.Nat.{le_refl, le_trans}
use drummer.Base.{
  ℕ, ◌≡◌, refl, sym, subst, ◌≤◌, ◌<◌, ◌↔◌, Bool, true, false, ◌||◌, List, [], ◌∷◌, ◌++◌, Option,
  none, some, ◌==◌, if◌then◌else◌, nat_eq, ==_iff, ok, >>=-eq-ok, arith, Bool-cases, Option-cases,
  Outcome-cases, inl, inr, All, All-map_of, map, any, length,
}
use drummer.Base.Map.{Map, keys, lookup, insert, modify, lookup-insert, lookup-modify}
use drummer.Pb.{ShardInfo, NodeHostInfo}
use drummer.ShardImage.{Shard, MultiShard, ReplicaToKill}
use drummer.ShardImage.Sync.{sync_shard, get_shard, kill_request_required}
use drummer.ShardImage.Update.{
  is_zombie, update_shard, update_shards, update_tick, update_node_tick, do_update, sync_leader,
  sync_leader_info, update,
}
use drummer.ShardImage.Merge.{sync_shard_parts, sync_shard_rejected_iff}
use drummer.ShardImage.Invariant.{unchanged, discovered, synced, update_shard-Reported}

any-keys-eq-false_iff :
    {V : Type 0} (k : ℕ) (m : Map ℕ V) → (any (λ x. x == k) (keys m) ≡ false) ↔ (lookup k m ≡ none)
unfolding any lookup
any-keys-eq-false_iff k [] = (λ h. refl, λ h. refl)
any-keys-eq-false_iff k ((j, v) ∷ m) = (
  λ h. ground (arith, (any-keys-eq-false_iff k m).0),
  λ h. ground (arith, (any-keys-eq-false_iff k m).1),
)

-- A replica is to be killed where the record of its shard is newer and does not have it.
abbrev pub Condemned : Shard → ShardInfo → Type 0
Condemned c ci =
    (ci.config_change_index < c.config_change_index) × (lookup ci.replica_id c.replicas ≡ none)

kill_request_required_iff :
    (c : Shard) (ci : ShardInfo) → (kill_request_required c ci ≡ true) ↔ Condemned c ci
unfolding kill_request_required
kill_request_required_iff c ci = (
  λ h. ground (arith, any-keys-eq-false_iff ci.replica_id c.replicas),
  λ h. ground (arith, any-keys-eq-false_iff ci.replica_id c.replicas),
)

module _ (shards : Map ℕ Shard) (ci : ShardInfo) (tick : ℕ) (shards' : Map ℕ Shard) (kill : Bool)
    (h : update_shard shards ci tick ≡ ok (shards', kill)) (c : Shard)
    (known : lookup ci.shard_id shards ≡ some c) where
  kill-Condemned :
      kill ≡ true → Condemned c ci × ((ci.pending || ci.incomplete) ≡ true → 0 < length c.replicas)
  unfolding update_shard is_zombie
  kill-Condemned k = elim (Bool-cases (ci.pending || ci.incomplete)) [
    | inl partial ↦ ((kill_request_required_iff c ci).0 (ground arith), λ p. ground arith)
    | inr full ↦ elim (Outcome-cases (sync_shard c ci tick)) [
      | inl (p, failed) ↦ absurd (ground arith)
      | inr ((c', false), done) ↦ absurd (ground arith)
      | inr ((c', true), done) ↦
          let same = ((sync_shard_rejected_iff c ci tick c').0 done).1 in
          ((kill_request_required_iff c ci).0 (ground arith), λ p. absurd (ground arith))
    ]
  ]

  Condemned-kill :
      Condemned c ci → ((ci.pending || ci.incomplete) ≡ true → 0 < length c.replicas) → kill ≡ true
  unfolding update_shard is_zombie
  Condemned-kill doomed p =
      let required = (kill_request_required_iff c ci).1 doomed in
      elim (Bool-cases (ci.pending || ci.incomplete)) [
        | inl partial ↦ ground (arith, p partial)
        | inr full ↦ ground (arith, (sync_shard_rejected_iff c ci tick c).1 (doomed.0, refl))
      ]

-- A report of one replica asks for its end exactly where the shard is known and condemns it; a
-- report that is pending or incomplete, only if the record has some replica.
pub update_shard_kill_iff :
    (shards : Map ℕ Shard) (ci : ShardInfo) (tick : ℕ) (shards' : Map ℕ Shard) (kill : Bool)
    → update_shard shards ci tick ≡ ok (shards', kill)
    → (kill ≡ true) ↔ (
        (c : Shard) × (lookup ci.shard_id shards ≡ some c)
        × Condemned c ci
        × ((ci.pending || ci.incomplete) ≡ true → 0 < length c.replicas))
unfolding update_shard
update_shard_kill_iff shards ci tick shards' kill h =
    elim (Option-cases (lookup ci.shard_id shards)) [
      | inl new ↦ (λ k. absurd (ground arith), λ (c, known, doomed, p). absurd (ground arith))
      | inr (c, known) ↦ (
        λ k.
            let (doomed, p) = kill-Condemned shards ci tick shards' kill h c known k in
            (c, known, doomed, p),
        λ (c', known', doomed, p). Condemned-kill shards ci tick shards' kill h c' known' doomed p,
      )
    ]

-- The second image still has the shard, in no older configuration.
abbrev pub NotOlder : Option Shard → Option Shard → Type 0
NotOlder none c' = Unit
NotOlder (some c) none = ⊥
NotOlder (some c) (some c') = c.config_change_index ≤ c'.config_change_index

abbrev pub Grows : Map ℕ Shard → Map ℕ Shard → Type 0
Grows shards shards' = (id : ℕ) → NotOlder (lookup id shards) (lookup id shards')

pub NotOlder-refl : (c : Option Shard) → NotOlder c c
NotOlder-refl none = tt
NotOlder-refl (some c) = le_refl _

pub NotOlder-trans : (a b c : Option Shard) → NotOlder a b → NotOlder b c → NotOlder a c
NotOlder-trans none b c h k = tt
NotOlder-trans (some a) none c h k = absurd h
NotOlder-trans (some a) (some b) none h k = absurd k
NotOlder-trans (some a) (some b) (some c) h k = le_trans h k

insert-Grows :
    (id : ℕ) (c' : Shard) (shards : Map ℕ Shard)
    → NotOlder (lookup id shards) (some c')
    → Grows shards (insert id c' shards)
insert-Grows id c' shards h j = rw (lookup-insert j id c' shards) (elim (Bool-cases (id == j)) [
  | inl same ↦ rw same (subst (λ k. NotOlder (lookup k shards) (some c')) ((==_iff id j).0 same) h)
  | inr other ↦ rw other (NotOlder-refl (lookup j shards))
])

modify-Grows :
    (id : ℕ) (f : Shard → Shard) (shards : Map ℕ Shard)
    → ((c : Shard) → (f c).config_change_index ≡ c.config_change_index)
    → Grows shards (modify id f shards)
modify-Grows id f shards keep j =
    rw (lookup-modify j id f shards) (elim (Option-cases (lookup j shards)) [
      | inl absent ↦ rw absent tt
      | inr (c, found) ↦ rw found (elim (Bool-cases (id == j)) [
        | inl same ↦ rw same (omega (arith, keep c))
        | inr other ↦ rw other (le_refl _)
      ])
    ])

update_shard-Grows :
    (shards : Map ℕ Shard) (ci : ShardInfo) (tick : ℕ) (shards' : Map ℕ Shard) (kill : Bool)
    → update_shard shards ci tick ≡ ok (shards', kill)
    → Grows shards shards'
update_shard-Grows shards ci tick shards' kill e =
    elim (update_shard-Reported shards ci tick shards' kill e) [
      | unchanged same ↦ subst (Grows shards) (sym same) (λ j. NotOlder-refl (lookup j shards))
      | discovered new after k ↦
          subst (Grows shards) (sym after)
            (insert-Grows ci.shard_id (get_shard ci tick) shards (rw new tt))
      | synced c c' rejected known done after k ↦
          subst (Grows shards) (sym after)
            (insert-Grows ci.shard_id c' shards (rw known (newer c c' rejected done)))
    ]
  where
    newer :
        (c c' : Shard) (rejected : Bool)
        → sync_shard c ci tick ≡ ok (c', rejected)
        → c.config_change_index ≤ c'.config_change_index
    newer c c' true done = ground (arith, (sync_shard_rejected_iff c ci tick c').0 done)
    newer c c' false done = ground (arith, sync_shard_parts c ci tick c' done)

-- What the reports of a nodehost leave, and whom they condemn: each replica that is to be killed
-- was reported, and its shard is known in a newer configuration.
abbrev pub IsOutdated : Map ℕ Shard → ShardInfo → Type 0
IsOutdated shards ci =
    (c : Shard) × (lookup ci.shard_id shards ≡ some c)
    × (ci.config_change_index < c.config_change_index)

Grows-IsOutdated :
    (shards shards' : Map ℕ Shard) (ci : ShardInfo)
    → Grows shards shards'
    → IsOutdated shards ci
    → IsOutdated shards' ci
Grows-IsOutdated shards shards' ci g (c, known, older) =
    elim (Option-cases (lookup ci.shard_id shards')) [
      | inl lost ↦ absurd (rw (known, lost) at (g ci.shard_id))
      | inr (c', found) ↦
          let newer : c.config_change_index ≤ c'.config_change_index =
            rw (known, found) at (g ci.shard_id) in
          (c', found, omega arith)
    ]

IsOutdated-first :
    (shards : Map ℕ Shard) (ci : ShardInfo) (tick : ℕ) (shards' : Map ℕ Shard) (kill : Bool)
    → update_shard shards ci tick ≡ ok (shards', kill)
    → kill ≡ true
    → IsOutdated shards ci
IsOutdated-first shards ci tick shards' kill e k =
    let (c, known, doomed, p) = (update_shard_kill_iff shards ci tick shards' kill e).0 k in
    (c, known, doomed.0)

All-cons_if :
    {A : Type 0} (P : A → Type 0) (b : Bool) (x : A) (xs : List A)
    → (b ≡ true → P x)
    → All P xs
    → All P (if b then x ∷ xs else xs)
All-cons_if P true x xs p h = (p refl, h)
All-cons_if P false x xs p h = h

Grows-trans : (a b c : Map ℕ Shard) → Grows a b → Grows b c → Grows a c
Grows-trans a b c g h j = NotOlder-trans (lookup j a) (lookup j b) (lookup j c) (g j) (h j)

update_node_tick-Grows :
    (tick : ℕ) (cis : List ShardInfo) (shards : Map ℕ Shard)
    → Grows shards (update_node_tick tick cis shards)
unfolding update_node_tick update_tick
update_node_tick-Grows tick [] shards = λ j. NotOlder-refl (lookup j shards)
update_node_tick-Grows tick (ci ∷ cis) shards =
    Grows-trans shards (update_tick tick ci shards) _
      (modify-Grows ci.shard_id _ shards (λ c. refl))
      (update_node_tick-Grows tick cis (update_tick tick ci shards))

update_shards-Grows :
    (shards : Map ℕ Shard) (cis : List ShardInfo) (tick : ℕ) (shards' : Map ℕ Shard)
    (to_kill : List ShardInfo)
    → update_shards shards cis tick ≡ ok (shards', to_kill)
    → Grows shards shards' × All (IsOutdated shards') to_kill
unfolding update_shards
update_shards-Grows shards [] tick shards' to_kill e =
    let same : shards ≡ shards' = ground arith in
    let nobody : [] ≡ to_kill = ground arith in
    (
      subst (Grows shards) same (λ j. NotOlder-refl (lookup j shards)),
      subst (All (IsOutdated shards')) nobody tt,
    )
update_shards-Grows shards (ci ∷ cis) tick shards' to_kill e =
    let ((mid, kill), first, e') = >>=-eq-ok (update_shard shards ci tick) _ e in
    let ((last, rest_kill), rest, e'') = >>=-eq-ok (update_shards mid cis tick) _ e' in
    let same : last ≡ shards' = ground arith in
    let (grows, outdated) = update_shards-Grows mid cis tick last rest_kill rest in
    let grown : Grows shards last = λ j.
      NotOlder-trans (lookup j shards) (lookup j mid) (lookup j last)
        (update_shard-Grows shards ci tick mid kill first j) (grows j) in
    (
      subst (Grows shards) same grown,
      subst (All (IsOutdated shards')) (ground arith) (
          subst (λ m. All (IsOutdated m) (if kill then ci ∷ rest_kill else rest_kill)) same
            (All-cons_if (IsOutdated last) kill ci rest_kill
              (λ k.
                Grows-IsOutdated shards last ci grown
                  (IsOutdated-first shards ci tick mid kill first k))
              outdated)),
    )

-- A report leaves every shard that was known, in no older configuration, and each replica that it
-- condemns was reported in an older configuration than the image then has of its shard.
pub do_update-Grows :
    (shards : Map ℕ Shard) (nhi : NodeHostInfo) (shards' : Map ℕ Shard) (to_kill : List ShardInfo)
    → do_update shards nhi ≡ ok (shards', to_kill)
    → Grows shards shards' × All (IsOutdated shards') to_kill
unfolding do_update
do_update-Grows shards nhi shards' to_kill e =
    let ((last, kill), done, e') =
      >>=-eq-ok (update_shards shards nhi.shard_info nhi.last_tick) _ e in
    let (grows, outdated) =
      update_shards-Grows shards nhi.shard_info nhi.last_tick last kill done in
    let ticked = update_node_tick-Grows nhi.last_tick nhi.shard_info last in
    let after : update_node_tick nhi.last_tick nhi.shard_info last ≡ shards' = ground arith in
    let same : kill ≡ to_kill = ground arith in
    (
      subst (Grows shards) after (Grows-trans shards last _ grows ticked),
      subst (All (IsOutdated shards')) same (
          All-map_of (IsOutdated last) (IsOutdated shards') kill
            (λ ci. Grows-IsOutdated last shards' ci (subst (Grows last) after ticked)) outdated),
    )

sync_leader-index :
    (ci : ShardInfo) (c : Shard) → (sync_leader ci c).config_change_index ≡ c.config_change_index
unfolding sync_leader
sync_leader-index ci c = ground arith

sync_leader_info-Grows :
    (cis : List ShardInfo) (shards : Map ℕ Shard) → Grows shards (sync_leader_info cis shards)
unfolding sync_leader_info
sync_leader_info-Grows [] shards = λ j. NotOlder-refl (lookup j shards)
sync_leader_info-Grows (ci ∷ cis) shards =
    Grows-trans shards (modify ci.shard_id (sync_leader ci) shards) _
      (modify-Grows ci.shard_id (sync_leader ci) shards (sync_leader-index ci))
      (sync_leader_info-Grows cis (modify ci.shard_id (sync_leader ci) shards))

-- A reported replica as it is put on the list of those to be killed.
abbrev condemned : NodeHostInfo → ShardInfo → ReplicaToKill
condemned nhi ntk = record {
  shard_id = ntk.shard_id;
  replica_id = ntk.replica_id;
  address = nhi.raft_address;
}

-- A report never loses a shard, never takes one back to an older configuration, and only adds to
-- the list of the replicas to be killed.
pub update-Grows :
    (mc : MultiShard) (nhi : NodeHostInfo) (mc' : MultiShard)
    → update mc nhi ≡ ok mc'
    → Grows mc.shards mc'.shards
      × ((new : List ReplicaToKill) × (mc'.replicas_to_kill ≡ mc.replicas_to_kill ++ new))
unfolding update
update-Grows mc nhi mc' e =
    let ((shards, to_kill), done, e') = >>=-eq-ok (do_update mc.shards nhi) _ e in
    let after : sync_leader_info nhi.shard_info shards ≡ mc'.shards = ground arith in
    (
      subst (Grows mc.shards) after (
          Grows-trans mc.shards shards _ (do_update-Grows mc.shards nhi shards to_kill done).0
            (sync_leader_info-Grows nhi.shard_info shards)),
      (map (condemned nhi) to_kill, ground arith),
    )
