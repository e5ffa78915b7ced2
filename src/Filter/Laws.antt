-- ===== src/Filter/Laws.antt =====
-- filter.go: what the filters of the selectors let through.
use drummer.Base as Base
use drummer.Base.{
  ℕ, ◌≡◌, ◌≢◌, refl, ◌∙◌, ◌-◌, ◌≤◌, ◌<◌, ◌↔◌, Bool, true, false, not, ◌&&◌, ◌||◌, List, [], ◌∷◌,
  ltb, ◌==◌, if◌then◌else◌, Bytes, nat_eq, bytes_eq, sub_u64, arith, Bool-cases, inl, inr,
}
use drummer.Base.Map.{has}
use drummer.Settings.{node_host_ttl}
use drummer.ShardImage.{entity_failed}
use drummer.NodeHostImage.{NodeHostSpec, available}
use drummer.Filter.{
  filter, filter_all, without_shard, is_live, in_region, drummer_filter, drummer_region_filter,
}

filter-filter :
    {A : Type 0} (p q : A → Bool) (xs : List A)
    → Base.filter q (Base.filter p xs) ≡ Base.filter (λ x. p x && q x) xs
unfolding Base.filter
filter-filter p q [] = refl
filter-filter p q (x ∷ xs) = ground (arith, filter-filter p q xs)

-- The filter of a random choice is one pass that keeps the nodehosts that are live and do not host
-- the shard, in their order.
pub filter-drummer_filter :
    (shard_id tick gap : ℕ) (input : List NodeHostSpec)
    → filter (drummer_filter shard_id tick gap) input
      ≡ Base.filter (λ v. is_live tick gap v && without_shard shard_id v) input
unfolding filter filter_all
filter-drummer_filter shard_id tick gap input =
    filter-filter (is_live tick gap) (without_shard shard_id) input

-- The filter of a choice in a region is one pass that keeps, in their order, the nodehosts whose last
-- report is less than the gap old, that do not list the shard and that stand in the region.
pub filter-drummer_region_filter :
    (region : Bytes) (shard_id tick gap : ℕ) (input : List NodeHostSpec)
    → filter (drummer_region_filter region shard_id tick gap) input
      ≡ Base.filter
          (λ v.
            (ltb (sub_u64 tick v.tick) gap && not (has shard_id v.shards)) && region == v.region)
          input
unfolding filter filter_all is_live without_shard in_region
filter-drummer_region_filter region shard_id tick gap input =
    rw (filter-filter (is_live tick gap) (without_shard shard_id) input)
      (filter-filter (λ v. is_live tick gap v && without_shard shard_id v) (in_region region) input)

-- With the gap at the lifetime of a nodehost, the live ones are the available ones, but for those
-- whose last report is exactly the lifetime old, and the available ones are the live ones and those
-- whose last report is exactly the lifetime old.
pub is_live_iff_available :
    (tick : ℕ) (v : NodeHostSpec)
    → ((is_live tick node_host_ttl v ≡ true)
        ↔ ((available v tick ≡ true) × (sub_u64 tick v.tick ≢ node_host_ttl)))
      × (available v tick ≡ (is_live tick node_host_ttl v || sub_u64 tick v.tick == node_host_ttl))
unfolding is_live available entity_failed
is_live_iff_available tick v = ((λ h. ground arith, λ h. ground arith), ground arith)
