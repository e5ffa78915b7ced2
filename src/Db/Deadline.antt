-- ===== src/Db/Deadline.antt =====
-- db.go: the ticks of the DB, and the deadline that a launch sets.
use drummer.Base.{
  ℕ, zero, suc, ◌+◌, ◌*◌, ◌≡◌, ◌≤◌, ◌<◌, ◌⊎◌, inl, inr, true, false, Outcome, ok, panic, ◌>>=◌,
  system_failed, Codec, u64_mod, arith, add_u64_of_lt,
}
use drummer.Db.State.{Db, assert_not_failed, check_launch_deadline}
use drummer.Pb.{Kv, NodeHostRequestCollection}
use drummer.Db.State.{launched}
use drummer.Db.Operations.{apply_tick_update, is_launch_requests, apply_requests_update}
use drummer.Db.Launch.{ordinary, first_launch, ignored, apply_requests_update-Accepted}

-- `n` ticks, one after the other.
unfoldable pub tick_times : ℕ → Db → Outcome Db
tick_times zero d = ok d
tick_times (suc n) d = do (d', v) ← apply_tick_update d; tick_times n d'

tick_within :
    (d : Db)
    → d.failed ≡ false
    → (d.launch_deadline ≡ 0) ⊎ (d.tick + 5 ≤ d.launch_deadline)
    → d.tick + 5 < u64_mod
    → apply_tick_update d ≡ ok (record d { tick = d.tick + 5 }, d.tick + 5)
unfolding apply_tick_update check_launch_deadline assert_not_failed
tick_within d h k lt = ground (arith, add_u64_of_lt d.tick 5 lt)

tick_beyond :
    (d : Db)
    → 0 < d.launch_deadline
    → d.launch_deadline < d.tick + 5
    → d.tick + 5 < u64_mod
    → apply_tick_update d ≡ panic system_failed
unfolding apply_tick_update check_launch_deadline assert_not_failed
tick_beyond d pos late lt = ground (arith, add_u64_of_lt d.tick 5 lt)

-- Ticks that stay within the deadline, or with none set, only advance the clock, by 5 each.
pub tick_times_within :
    (n : ℕ) (d : Db)
    → d.failed ≡ false
    → (d.launch_deadline ≡ 0) ⊎ (d.tick + 5 * n ≤ d.launch_deadline)
    → d.tick + 5 * n < u64_mod
    → tick_times n d ≡ ok (record d { tick = d.tick + 5 * n })
unfolding tick_times
tick_times_within zero d h k lt = ground arith
tick_times_within (suc n) d h k lt = ground (
  arith,
  tick_within d h (weaken k) (omega arith),
  tick_times_within n (record d { tick = d.tick + 5 }) h (shift k) (omega arith),
)
  where
    weaken :
        (d.launch_deadline ≡ 0) ⊎ (d.tick + 5 * suc n ≤ d.launch_deadline)
        → (d.launch_deadline ≡ 0) ⊎ (d.tick + 5 ≤ d.launch_deadline)
    weaken (inl e) = inl e
    weaken (inr e) = inr (omega arith)

    shift :
        (d.launch_deadline ≡ 0) ⊎ (d.tick + 5 * suc n ≤ d.launch_deadline)
        → (d.launch_deadline ≡ 0) ⊎ (d.tick + 5 + 5 * n ≤ d.launch_deadline)
    shift (inl e) = inl e
    shift (inr e) = inr (omega arith)

-- The first tick past the deadline panics.
pub tick_times_beyond :
    (n : ℕ) (d : Db)
    → d.failed ≡ false
    → 0 < d.launch_deadline
    → d.tick + 5 * n ≤ d.launch_deadline
    → d.launch_deadline < d.tick + 5 * n + 5
    → d.tick + 5 * n + 5 < u64_mod
    → tick_times (suc n) d ≡ panic system_failed
unfolding tick_times
tick_times_beyond zero d h pos k late lt =
    ground (arith, tick_beyond d pos (omega arith) (omega arith))
tick_times_beyond (suc n) d h pos k late lt = ground (
  arith,
  tick_within d h (inr (omega arith)) (omega arith),
  tick_times_beyond n (record d { tick = d.tick + 5 }) h pos (omega arith) (omega arith)
      (omega arith),
)

-- After the first launch the DB takes 24 ticks while no report comes, and panics at the next one.
pub launch_times_out :
    (codec : Codec Kv) (d : Db) (reqs : NodeHostRequestCollection) (d' : Db) (v : ℕ)
    → launched d ≡ false
    → d.failed ≡ false
    → d.tick + 125 < u64_mod
    → is_launch_requests reqs ≡ ok true
    → apply_requests_update codec d reqs ≡ ok (d', v)
    → ((n : ℕ) → n ≤ 24 → tick_times n d' ≡ ok (record d' { tick = d.tick + 5 * n }))
      × (tick_times 25 d' ≡ panic system_failed)
launch_times_out codec d reqs d' v new fine lt kind h =
    elim (apply_requests_update-Accepted codec d reqs d' v h) [
      | ordinary kind' e n ↦ absurd (ground arith)
      | ignored kind' old e n ↦ absurd (ground arith)
      | first_launch b kind' new' encoded e n ↦
          let fine' : d'.failed ≡ false = ground arith in
          let same : d'.tick ≡ d.tick = ground arith in
          let due : d'.launch_deadline ≡ d.tick + 120 =
            ground (arith, add_u64_of_lt d.tick 120 (omega arith)) in
          (
            λ k le. rw (← same) (tick_times_within k d' fine' (inr (omega arith)) (omega arith)),
            tick_times_beyond 24 d' fine' (omega arith) (omega arith) (omega arith) (omega arith),
          )
    ]
