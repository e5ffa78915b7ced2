-- ===== src/Filter.antt =====
-- filter.go: the filters that choose nodehosts. The interface `nodeHostFilter` is a data type with
-- a constructor for each kind of filter, and a list of filters is a type of the same block.
pub mod Laws
use drummer.Base.{ℕ, Bool, not, List, [], ◌∷◌, ltb, ◌==◌, Bytes, nat_eq, bytes_eq, sub_u64}
use drummer.Base as Base
use drummer.Base.Map.{has}
use drummer.NodeHostImage.{NodeHostSpec}

mutual
  pub data NodeHostFilter : Type 0 where
    basic_filter : (shard_id : ℕ) → NodeHostFilter
    live_filter : (current_tick gap : ℕ) → NodeHostFilter
    region_filter : (region : Bytes) → NodeHostFilter
    combined_filter : Filters → NodeHostFilter

  pub data Filters : Type 0 where
    nil : Filters
    cons : NodeHostFilter → Filters → Filters

-- The tests of the three loops.
unfoldable pub without_shard : ℕ → NodeHostSpec → Bool
without_shard shard_id v = not (has shard_id v.shards)

-- The difference of the ticks is a `uint64`.
unfoldable pub is_live : ℕ → ℕ → NodeHostSpec → Bool
is_live current_tick gap v = ltb (sub_u64 current_tick v.tick) gap

unfoldable pub in_region : Bytes → NodeHostSpec → Bool
in_region region v = region == v.region

-- The method `filter` of each kind.
unfoldable mutual
  pub filter : NodeHostFilter → List NodeHostSpec → List NodeHostSpec
  filter (basic_filter shard_id) input = Base.filter (without_shard shard_id) input
  filter (live_filter current_tick gap) input = Base.filter (is_live current_tick gap) input
  filter (region_filter region) input = Base.filter (in_region region) input
  filter (combined_filter fs) input = filter_all fs input

  pub filter_all : Filters → List NodeHostSpec → List NodeHostSpec
  filter_all nil list = list
  filter_all (cons f fs) list = filter_all fs (filter f list)

-- `newDrummerFilter`; `defaultFilter` only passes the call on.
abbrev pub drummer_filter : ℕ → ℕ → ℕ → NodeHostFilter
drummer_filter shard_id current_tick allowed_tick_gap =
    combined_filter
      (cons (live_filter current_tick allowed_tick_gap) (cons (basic_filter shard_id) nil))

-- `newDrummerRegionFilter`; `defaultRegionFilter` only passes the call on.
abbrev pub drummer_region_filter : Bytes → ℕ → ℕ → ℕ → NodeHostFilter
drummer_region_filter region shard_id current_tick allowed_tick_gap = combined_filter (
    cons (live_filter current_tick allowed_tick_gap)
      (cons (basic_filter shard_id) (cons (region_filter region) nil)))
