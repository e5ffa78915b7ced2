-- ===== src/Election/Detection.antt =====
-- election.go: when a follower that reads the record of another worker takes it for dead.
use drummer.Base.{
  ℕ, ◌+◌, ◌<◌, zero, suc, ◌≡◌, refl, false, List, [], ◌∷◌, some, Outcome, ok, ltb, nat_eq, arith,
  add_u64_of_lt, u64_mod, ◌>>=◌,
}
use drummer.Pb.{Kv}
use drummer.Election.{LeaderInfo, seen_leader, set_leader_info, leader_dead}

-- What a follower knows of the leader after it has read some records of it, one a turn.
unfoldable pub watch : LeaderInfo → List Kv → Outcome LeaderInfo
watch l [] = ok l
watch l (kv ∷ kvs) = do l' ← set_leader_info (some l) (seen_leader kv); watch l' kvs

-- The same record, read over and over.
unfoldable pub stuck : ℕ → Kv → List Kv
stuck zero kv = []
stuck (suc n) kv = kv ∷ stuck n kv

-- The reads of a leader that makes progress.
pub data Ticks (i : ℕ) : ℕ → List Kv → Type 0 where
  silent : {t : ℕ} → Ticks i t []
  ticked :
      {t : ℕ} {kvs : List Kv} {kv : Kv}
      → kv.instance_id ≡ i
      → t < kv.tick
      → Ticks i kv.tick kvs
      → Ticks i t (kv ∷ kvs)

watch-stuck :
    (l : LeaderInfo) (kv : Kv) (n : ℕ)
    → l.instance_id ≡ kv.instance_id
    → l.tick ≡ kv.tick
    → l.static_round + n < u64_mod
    → watch l (stuck n kv) ≡ ok (record l { static_round = l.static_round + n })
unfolding watch stuck set_leader_info
watch-stuck l kv zero same at below = ground arith
watch-stuck l kv (suc n) same at below = ground (
  arith,
  add_u64_of_lt l.static_round 1,
  watch-stuck (record l { static_round = l.static_round + 1 }) kv n same at (ground arith),
)

watch-Ticks :
    (l : LeaderInfo) (kvs : List Kv)
    → Ticks l.instance_id l.tick kvs
    → l.static_round ≡ 0
    → (l' : LeaderInfo) × (watch l kvs ≡ ok l')
      × (l'.instance_id ≡ l.instance_id)
      × (l'.static_round ≡ 0)
unfolding watch set_leader_info
watch-Ticks l [] silent z = (l, refl, refl, z)
watch-Ticks l (kv ∷ kvs) (ticked same later rest) z =
    let (l', seen, own, fresh) =
      watch-Ticks (record l { tick = kv.tick; static_round = 0 }) kvs rest refl in
    (l', ground arith, own, fresh)

leader_dead-static : (l : LeaderInfo) → leader_dead (some l) ≡ ltb 3 l.static_round
unfolding leader_dead
leader_dead-static l = refl

-- A follower that has seen a record of another worker takes that worker for dead as soon as it has
-- read the same record four more times, and not before, wherever the count does not wrap around; and
-- it never takes the worker for dead, nor panics, while each read finds a greater tick of it.
pub watch-leader_dead :
    (kv : Kv)
    → ((n : ℕ)
        → n < u64_mod
        → (l : LeaderInfo) × (watch (seen_leader kv) (stuck n kv) ≡ ok l)
          × (leader_dead (some l) ≡ ltb 3 n))
      × ((kvs : List Kv)
          → Ticks kv.instance_id kv.tick kvs
          → (l : LeaderInfo) × (watch (seen_leader kv) kvs ≡ ok l) × (leader_dead (some l) ≡ false))
watch-leader_dead kv = (
  λ n below. (
    record (seen_leader kv) { static_round = 0 + n },
    watch-stuck (seen_leader kv) kv n refl refl (ground arith),
    ground (arith, leader_dead-static (record (seen_leader kv) { static_round = 0 + n })),
  ),
  λ kvs ticks.
      let (l, seen, own, fresh) = watch-Ticks (seen_leader kv) kvs ticks refl in
      (l, seen, ground (arith, leader_dead-static l)),
)
