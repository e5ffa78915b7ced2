-- ===== src/ShardImage/Health.antt =====
-- shardimage.go: the health of replicas and shards, and the two views of it.
use drummer.Base.{
  ℕ, ◌≡◌, refl, ◌+◌, ◌≤◌, ◌<◌, ◌⊎◌, ◌↔◌, inl, inr, Bool, true, false, ◌&&◌, List, [], ◌∷◌, length,
  filter, ◌==◌, nat_eq, bytes_eq, arith, u64_mod, sub_u64, All, Bool-cases,
}
use drummer.Base.Map.{Map, values}
use drummer.ShardImage as Image
use drummer.ShardImage.{
  Replica, Shard, MultiShard, entity_failed, failed, waiting_to_be_started, is_ok, get_ok_replicas,
  get_replicas_to_start, get_failed_replicas,
}
use drummer.ShardImage.Repair.{
  ShardRepair, quorum, available, add_required, create_required, delete_required,
  need_to_be_restored, to_shard_repair, to_shard_repairs, get_shard_for_repair,
}

-- For ticks that fit a `uint64`, a silence of more than 60 ticks is a failure. A last report that
-- is newer than the current tick counts as one too, unless the ticks are about to wrap around.
pub entity_failed_iff :
    (last_tick current_tick : ℕ)
    → last_tick < u64_mod
    → current_tick < u64_mod
    → (entity_failed last_tick current_tick ≡ true) ↔ (
        (last_tick + 60 < current_tick)
        ⊎ ((current_tick < last_tick) × (last_tick + 60 < current_tick + u64_mod)))
unfolding entity_failed sub_u64
entity_failed_iff last_tick current_tick h k = (λ e. ground arith, λ e. ground arith)

filter-three :
    (tick : ℕ) (rs : List Replica)
    → length (filter (λ n. failed n tick) rs)
        + length (filter (λ n. is_ok n tick) rs)
        + length (filter (λ n. waiting_to_be_started n tick) rs)
      ≡ length rs
unfolding filter is_ok waiting_to_be_started
filter-three tick [] = refl
filter-three tick (n ∷ ns) = ground (arith, filter-three tick ns)

length-values : {V : Type 0} (m : Map ℕ V) → length (values m) ≡ length m
length-values [] = refl
length-values (e ∷ m) = omega (arith, length-values m)

-- At each tick the three lists of a shard have as many replicas together as the shard has.
pub health_partition :
    (c : Shard) (tick : ℕ)
    → length (get_failed_replicas c tick)
        + length (get_ok_replicas c tick)
        + length (get_replicas_to_start c tick)
      ≡ length c.replicas
unfolding get_failed_replicas get_ok_replicas get_replicas_to_start
health_partition c tick =
    omega (arith, filter-three tick (values c.replicas), length-values c.replicas)

-- The view of a shard counts as the shard does.
module _ (sort : List Replica → List Replica)
    (length-sort : (l : List Replica) → length (sort l) ≡ length l) (tick : ℕ) where
  AgreesWithShard : ShardRepair → Type 0
  AgreesWithShard cr =
      (quorum cr ≡ Image.quorum cr.shard) × (available cr ≡ Image.available cr.shard tick)

  to_shard_repair-AgreesWithShard : (c : Shard) → AgreesWithShard (to_shard_repair sort tick c)
  unfolding AgreesWithShard to_shard_repair quorum available Image.quorum Image.available
  to_shard_repair-AgreesWithShard c = ground (
    arith,
    health_partition c tick,
    length-sort (get_failed_replicas c tick),
    length-sort (get_ok_replicas c tick),
    length-sort (get_replicas_to_start c tick),
  )

  to_shard_repairs-AgreesWithShard :
      (cs : List Shard) → All AgreesWithShard (to_shard_repairs sort tick cs)
  unfolding to_shard_repairs
  to_shard_repairs-AgreesWithShard [] = tt
  to_shard_repairs-AgreesWithShard (c ∷ cs) =
      let idle =
        length (get_failed_replicas c tick) == 0 && length (get_replicas_to_start c tick) == 0 in
      elim (Bool-cases idle) [
        | inl skip ↦ rw skip (to_shard_repairs-AgreesWithShard cs)
        | inr keep ↦
            rw keep (to_shard_repair-AgreesWithShard c, to_shard_repairs-AgreesWithShard cs)
      ]

  -- Every view that the scheduler repairs by has the quorum of its shard, and is available exactly
  -- when the shard is.
  pub get_shard_for_repair-AgreesWithShard :
      (mc : MultiShard)
      → All
          (λ cr.
            (quorum cr ≡ Image.quorum cr.shard) × (available cr ≡ Image.available cr.shard tick))
          (get_shard_for_repair sort mc tick)
  unfolding get_shard_for_repair AgreesWithShard
  get_shard_for_repair-AgreesWithShard mc = to_shard_repairs-AgreesWithShard (values mc.shards)

-- A shard that is to be restored is not repaired: no replica of it is deleted, created or added.
pub need_to_be_restored-excludes :
    (cr : ShardRepair) (expected_shard_size : ℕ)
    → need_to_be_restored cr ≡ true
    → (delete_required cr expected_shard_size ≡ false)
      × (create_required cr ≡ false)
      × (add_required cr ≡ false)
unfolding need_to_be_restored delete_required create_required add_required
need_to_be_restored-excludes cr expected_shard_size h = ground arith

pub length-filter-le : {A : Type 0} (p : A → Bool) (xs : List A) → length (filter p xs) ≤ length xs
unfolding filter
length-filter-le p [] = omega arith
length-filter-le p (x ∷ xs) = ground (arith, length-filter-le p xs)
