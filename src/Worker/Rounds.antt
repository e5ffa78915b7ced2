-- ===== src/Worker/Rounds.antt =====
-- drummer.go: what a round of the worker that leads decides on, and what its tick returns.
use drummer.Base.{
  ◌≢◌, ◌==◌, bytes, bytes_eq, ◌≤◌, ◌≡◌, refl, sym, ◌⊎◌, inl, inr, Bool, true, false, List, Option,
  none, some, ◌∷◌, ok, arith, subst, length, nat_eq,
}
use drummer.Base.Map.{values}
use drummer.Pb.{Kv, NodeHostRequest}
use drummer.ShardImage.{Replica}
use drummer.Selector.{Draws}
use drummer.Scheduler as Scheduler
use drummer.Scheduler.{Scheduler, Attempt, refused, panicked, running}
use drummer.Cycle as Cycle
use drummer.Db.State.{Db, SchedulerContext, launched_key}
use drummer.Db.State as State
use drummer.Db.History.{Reach-bootstrapped}
use drummer.Db.Lookups.{Formats, find_kv}
use drummer.Raft.{
  Reply, failed, crashed, canceled, Moment, now, Grows, Grows-Reach, Error, value, resume-eq-value,
  NodeHost, IsLawful, Grows-trans,
}
use drummer.Server.Requests.{get_launched}
use drummer.Server.Laws.{Follows}
use drummer.Server.Moves.{Moves, Moves-attempt, attempt-eq-inr, Moves-eq, Moves-get_boolean_kv}
use drummer.Sessions.{capture, attempt}
use drummer.Worker.{
  Drummer, launched_seen, decided, bootstrapped, has_enough_node_host_connected, read_context,
  schedule, scheduled, when_enough, decide,
}
use drummer.Worker.Reads.{Copied, get_launched_lem}
use drummer.Worker.Guards.{enough_lem, bootstrapped_lem, read_context_lem}

module _ (N : NodeHost) (formats : Formats) (lawful : IsLawful N formats) where
  canceled-unseen : (l : Bool) → ¬ (launched_seen (inl canceled) ≡ some l)
  unfolding launched_seen
  canceled-unseen l h = ground arith

  failed-unset : (e : Error) (l : Bool) → launched_seen (inl e) ≡ some l → l ≡ false
  unfolding launched_seen
  failed-unset Error.canceled l h = ground arith
  failed-unset Error.shard_not_found l h = ground arith
  failed-unset Error.not_a_number l h = ground arith
  failed-unset Error.session_not_ready l h = ground arith
  failed-unset Error.rejected l h = ground arith
  failed-unset Error.other l h = ground arith

  attempt-eq-inl :
      {A : Type 0} (call : N.World → N.World × Reply A) (w w' : N.World) (e : Error)
      → attempt call w ≡ (w', value (inl e))
      → call w ≡ (w', failed e)
  unfolding attempt
  attempt-eq-inl {A = A} call w w' e h = go (call w) h
    where
      go : (r : N.World × Reply A) → capture r ≡ (w', value (inl e)) → r ≡ (w', failed e)
      go (w1, value b) q = absurd (ground arith)
      go (w1, failed e') q = ground arith
      go (w1, crashed p) q = absurd (ground arith)

  decided-value :
      (a : Attempt (List NodeHostRequest)) (w w' : N.World) (r : NodeHostRequest)
      (reqs : List NodeHostRequest)
      → decided a w ≡ (w', value (some (r ∷ reqs)))
      → (a ≡ Scheduler.value (r ∷ reqs)) × (w ≡ w')
  unfolding decided
  decided-value (Scheduler.value rs) w w' r reqs h = (ground arith, ground arith)
  decided-value (refused e) w w' r reqs h = absurd (ground arith)
  decided-value (panicked p) w w' r reqs h = absurd (ground arith)
  decided-value running w w' r reqs h = absurd (ground arith)

  Moves-get_launched : Moves N formats lawful (get_launched N formats)
  unfolding get_launched
  Moves-get_launched = Moves-get_boolean_kv N formats lawful _

  module _ (sort : List Replica → List Replica) where
    schedule-read :
        (s : Scheduler) (launched : Option Bool) (sc : Option SchedulerContext) (draws : Draws)
        (r : NodeHostRequest) (reqs : List NodeHostRequest)
        → Cycle.schedule sort s launched sc draws ≡ Scheduler.value (r ∷ reqs)
        → (l : Bool) × (c : SchedulerContext) × (launched ≡ some l) × (sc ≡ some c)
    unfolding Cycle.schedule
    schedule-read s none sc draws r reqs h = absurd (ground arith)
    schedule-read s (some l) none draws r reqs h = absurd (ground arith)
    schedule-read s (some l) (some c) draws r reqs h = (l, c, refl, refl)

    schedule-copied :
        (s : Scheduler) (launched : Option Bool) (sc : Option SchedulerContext) (draws : Draws)
        (l : Bool) (c : SchedulerContext) (result : Attempt (List NodeHostRequest))
        → launched ≡ some l
        → sc ≡ some c
        → Cycle.schedule sort s launched sc draws ≡ result
        → Cycle.schedule sort s (some l) (some c) draws ≡ result
    schedule-copied s launched sc draws l c result e e' h = rw (sym e) (rw (sym e') h)

    -- The flag of the launch that a round goes by: what the DB said of it at some moment of the
    -- read, or false where the read failed, other than by being canceled.
    abbrev pub Flag : Bool → N.World → N.World → Type 0
    Flag launched w w' =
        ((m : Moment) × (kv : Kv) × Grows formats (now N w) m
          × Grows formats m (now N w')
          × (find_kv formats.response formats.kv m.db launched_key ≡ ok kv)
          × (launched ≡ (kv.value == bytes "true")))
        ⊎ ((e : Error) × (get_launched N formats w ≡ (w', failed e))
            × (e ≢ canceled)
            × (launched ≡ false))

    -- The requests that the worker is to write are those that its scheduler decides on for a copy of
    -- the DB of the time of the call.
    abbrev pub Decision :
        Drummer N.Session → Draws → List NodeHostRequest → N.World → N.World → Type 0
    Decision d draws reqs w w' =
        (x : Moment) × (sc : SchedulerContext) × (launched : Bool) × (w1 : N.World) × Follows N
          formats lawful (now N w) (now N w1)
        × Flag launched w w1
        × Follows N formats lawful (now N w1) x
        × Follows N formats lawful x (now N w')
        × Copied formats x.db sc
        × (Cycle.schedule sort d.scheduler (some launched) (some sc) draws ≡ Scheduler.value reqs)

    launched_seen-Flag :
        (l : Bool) (w w' : N.World) (flag : Error ⊎ Bool)
        → attempt (get_launched N formats) w ≡ (w', value flag)
        → launched_seen flag ≡ some l
        → Flag l w w'
    unfolding launched_seen
    launched_seen-Flag l w w' (inr b) h seen =
        let (m, kv, before, later, found, says) =
          get_launched_lem N formats lawful w w' b
            (attempt-eq-inr N formats lawful (get_launched N formats) w w' b h) in
        inl (m, kv, before, later, found, ground arith)
    launched_seen-Flag l w w' (inl e) h seen = inr (
      e,
      attempt-eq-inl (get_launched N formats) w w' e h,
      (λ same. canceled-unseen l (subst (λ x. launched_seen (inl x) ≡ some l) same seen)),
      failed-unset e l seen,
    )

    schedule_lem :
        (d d' : Drummer N.Session) (draws : Draws) (r : NodeHostRequest)
        (reqs : List NodeHostRequest) (w w' : N.World)
        → schedule N formats sort d draws w ≡ (w', value (some (r ∷ reqs), d'))
        → Decision d draws (r ∷ reqs) w w'
    unfolding schedule
    schedule_lem d d' draws r reqs w w' h =
        let (w1, flag, asked, h1) =
          resume-eq-value _ (attempt (get_launched N formats) w) w' (some (r ∷ reqs), d') h in
        let (w2, sc, copied, h2) =
          resume-eq-value _ (read_context N formats (launched_seen flag) w1) w'
            (some (r ∷ reqs), d') h1 in
        let (w3, rs, made, h3) =
          resume-eq-value _
            (decided (Cycle.schedule sort d.scheduler (launched_seen flag) sc draws) w2) w'
            (some (r ∷ reqs), d') h2 in
        let (e, same) =
          decided-value (Cycle.schedule sort d.scheduler (launched_seen flag) sc draws) w2 w3 r reqs
            (ground arith) in
        let (l, c, seen, taken) =
          schedule-read d.scheduler (launched_seen flag) sc draws r reqs e in
        let (x, before, later, copy) = read_context_lem N formats lawful l w1 w2 c (ground arith) in
        (
          x,
          c,
          l,
          w1,
          Moves-eq N formats lawful (attempt (get_launched N formats)) w w1 _
              (Moves-attempt N formats lawful _ Moves-get_launched) asked,
          launched_seen-Flag l w w1 flag asked seen,
          before,
          subst (λ z. Follows N formats lawful x (now N z)) (ground arith) later,
          copy,
          schedule-copied d.scheduler (launched_seen flag) sc draws l c _ seen taken e,
        )

    scheduled_lem :
        (d d' : Drummer N.Session) (draws : Draws) (ready : Bool) (r : NodeHostRequest)
        (reqs : List NodeHostRequest) (w w' : N.World)
        → scheduled N formats sort d draws ready w ≡ (w', value (some (r ∷ reqs), d'))
        → (ready ≡ true) × Decision d draws (r ∷ reqs) w w'
    unfolding scheduled
    scheduled_lem d d' draws false r reqs w w' h = absurd (ground arith)
    scheduled_lem d d' draws true r reqs w w' h = (refl, schedule_lem d d' draws r reqs w w' h)

    when_enough_lem :
        (d d' : Drummer N.Session) (draws : Draws) (connected : Bool) (r : NodeHostRequest)
        (reqs : List NodeHostRequest) (w w' : N.World)
        → when_enough N formats sort d draws connected w ≡ (w', value (some (r ∷ reqs), d'))
        → (connected ≡ true)
          × ((w1 : N.World) × (bootstrapped N formats w ≡ (w1, value true))
              × Decision d draws (r ∷ reqs) w1 w')
    unfolding when_enough
    when_enough_lem d d' draws false r reqs w w' h = absurd (ground arith)
    when_enough_lem d d' draws true r reqs w w' h =
        let (w1, ready, asked, h1) =
          resume-eq-value _ (bootstrapped N formats w) w' (some (r ∷ reqs), d') h in
        let (flag, decision) = scheduled_lem d d' draws ready r reqs w1 w' h1 in
        (refl, (w1, subst (λ b. bootstrapped N formats w ≡ (w1, value b)) flag asked, decision))

    -- A worker that is to write requests has, in this order, seen three reports or more in a copy of
    -- the DB, seen the DB bootstrapped, read the flag of the launch and copied the DB, each at a moment
    -- of the call: the requests are those that a cycle of its scheduler gives for that flag and that
    -- copy, and no shard of the DB has changed since the copy. A copy is what JSON makes of the DB, with
    -- the regions that it has a record of. The flag is what the DB said of it, or false where its read
    -- failed, other than by being canceled.
    pub decide_lem :
        (d d' : Drummer N.Session) (draws : Draws) (r : NodeHostRequest)
        (reqs : List NodeHostRequest) (w w' : N.World)
        → decide N formats sort d draws w ≡ (w', value (some (r ∷ reqs), d'))
        → (y z x : Moment) × (w1 w2 : N.World) × (seen sc : SchedulerContext) × (launched : Bool)
          × Grows formats (now N w) y
          × Grows formats y z
          × Grows formats z (now N w1)
          × Grows formats (now N w1) (now N w2)
          × Grows formats (now N w2) x
          × Grows formats x (now N w')
          × Copied formats y.db seen
          × (3 ≤ length (values seen.node_host_info))
          × (State.bootstrapped z.db ≡ true)
          × (((m : Moment) × (kv : Kv) × Grows formats (now N w1) m
                × Grows formats m (now N w2)
                × (find_kv formats.response formats.kv m.db launched_key ≡ ok kv)
                × (launched ≡ (kv.value == bytes "true")))
              ⊎ ((e : Error) × (get_launched N formats w1 ≡ (w2, failed e))
                  × (e ≢ canceled)
                  × (launched ≡ false)))
          × Copied formats x.db sc
          × ((N.db w').shards ≡ x.db.shards)
          × (Cycle.schedule sort d.scheduler (some launched) (some sc) draws
              ≡ Scheduler.value (r ∷ reqs))
    unfolding decide
    decide_lem d d' draws r reqs w w' h =
        let (w0, connected, asked, h1) =
          resume-eq-value _ (has_enough_node_host_connected N formats w) w' (some (r ∷ reqs), d')
            h in
        let (connects, (w1, ready, decision)) =
          when_enough_lem d d' draws connected r reqs w0 w' h1 in
        let (x, sc, launched, w2, read, flag, before, later, copy, e) = decision in
        let (y, seen, first, then_y, counted, three) = enough_lem N formats lawful w w0 (
          subst (λ b. has_enough_node_host_connected N formats w ≡ (w0, value b)) connects asked) in
        let (z, at, after, old) = bootstrapped_lem N formats lawful w0 w1 ready in
        let (unmoved, same) =
          Reach-bootstrapped formats.kv formats.update.unmarshal
            (Grows-Reach formats (Grows-trans formats after (Grows-trans formats read before)))
            old in
        (
          y,
          z,
          x,
          w1,
          w2,
          seen,
          sc,
          launched,
          first,
          Grows-trans formats then_y at,
          after,
          read,
          before,
          later,
          counted,
          three,
          old,
          flag,
          copy,
          (Reach-bootstrapped formats.kv formats.update.unmarshal (Grows-Reach formats later)
              unmoved).1,
          e,
        )
