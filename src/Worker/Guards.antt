-- ===== src/Worker/Guards.antt =====
-- drummer.go: what the guards of a round and its copy say of the DB, over a lawful NodeHost.
use drummer.Base.{
  bytes_eq, ◌≤◌, ◌≡◌, ◌⊎◌, inl, inr, Bool, true, false, some, arith, subst, length, nat_eq,
}
use drummer.Base.Map.{values}
use drummer.Pb.{NodeHostCollection}
use drummer.Db.State.{Db, SchedulerContext, launched_key}
use drummer.Db.State as State
use drummer.Db.Lookups.{Formats}
use drummer.Raft.{Moment, now, Error, value, pure, resume-eq-value, NodeHost, IsLawful}
use drummer.Server.Requests.{get_bootstrapped, get_node_host_collection, get_scheduler_context}
use drummer.Server.Laws.{Follows}
use drummer.Server.Moves.{attempt-eq-inr}
use drummer.Sessions.{attempt}
use drummer.Worker.{if_returned, bootstrapped, enough, has_enough_node_host_connected, read_context}
use drummer.Worker.Reads.{
  Copied, get_scheduler_context_lem, get_node_host_collection_lem, get_bootstrapped_lem,
}

module _ (N : NodeHost) (formats : Formats) (lawful : IsLawful N formats) where
  pub enough_lem :
      (w w' : N.World)
      → has_enough_node_host_connected N formats w ≡ (w', value true)
      → (d : Moment) × (seen : SchedulerContext) × Follows N formats lawful (now N w) d
        × Follows N formats lawful d (now N w')
        × Copied formats d.db seen
        × (3 ≤ length (values seen.node_host_info))
  unfolding has_enough_node_host_connected enough
  enough_lem w w' h =
      let (w1, c, asked, h1) =
        resume-eq-value _ (attempt (get_node_host_collection N formats) w) w' true h in
      go w1 c asked h1
    where
      go :
          (w1 : N.World) (c : Error ⊎ NodeHostCollection)
          → attempt (get_node_host_collection N formats) w ≡ (w1, value c)
          → pure (enough N formats c) w1 ≡ (w', value true)
          → (d : Moment) × (seen : SchedulerContext) × Follows N formats lawful (now N w) d
            × Follows N formats lawful d (now N w')
            × Copied formats d.db seen
            × (3 ≤ length (values seen.node_host_info))
      go w1 (inl e) asked h1 = absurd (ground arith)
      go w1 (inr c) asked h1 =
          let (d, seen, before, later, copied, e) =
            get_node_host_collection_lem N formats lawful w w1 c
              (attempt-eq-inr N formats lawful (get_node_host_collection N formats) w w1 c asked) in
          (
            d,
            seen,
            before,
            subst (λ x. Follows N formats lawful d (now N x)) (ground arith) later,
            copied,
            ground arith,
          )

  pub bootstrapped_lem :
      (w w' : N.World)
      → bootstrapped N formats w ≡ (w', value true)
      → (d : Moment) × Follows N formats lawful (now N w) d
        × Follows N formats lawful d (now N w')
        × (State.bootstrapped d.db ≡ true)
  unfolding bootstrapped
  bootstrapped_lem w w' h =
      let (w1, b, asked, h1) =
        resume-eq-value _ (attempt (get_bootstrapped N formats) w) w' true h in
      go w1 b asked h1
    where
      go :
          (w1 : N.World) (b : Error ⊎ Bool)
          → attempt (get_bootstrapped N formats) w ≡ (w1, value b)
          → pure (elim b as (λ x. Bool) [ inl e ↦ false | inr f ↦ f ]) w1 ≡ (w', value true)
          → (d : Moment) × Follows N formats lawful (now N w) d
            × Follows N formats lawful d (now N w')
            × (State.bootstrapped d.db ≡ true)
      go w1 (inl e) asked h1 = absurd (ground arith)
      go w1 (inr false) asked h1 = absurd (ground arith)
      go w1 (inr true) asked h1 =
          let (d, before, later, e) =
            get_bootstrapped_lem N formats lawful w w1
              (attempt-eq-inr N formats lawful (get_bootstrapped N formats) w w1 true asked) in
          (d, before, subst (λ x. Follows N formats lawful d (now N x)) (ground arith) later, e)

  -- The copy that a cycle decides on is one of the DB at some moment of the call.
  pub read_context_lem :
      (launched : Bool) (w w' : N.World) (sc : SchedulerContext)
      → read_context N formats (some launched) w ≡ (w', value (some sc))
      → (d : Moment) × Follows N formats lawful (now N w) d
        × Follows N formats lawful d (now N w')
        × Copied formats d.db sc
  unfolding read_context if_returned
  read_context_lem launched w w' sc h =
      let (w1, c, asked, h1) =
        resume-eq-value _ (attempt (get_scheduler_context N formats) w) w' (some sc) h in
      go w1 c asked h1
    where
      go :
          (w1 : N.World) (c : Error ⊎ SchedulerContext)
          → attempt (get_scheduler_context N formats) w ≡ (w1, value c)
          → pure (if_returned c) w1 ≡ (w', value (some sc))
          → (d : Moment) × Follows N formats lawful (now N w) d
            × Follows N formats lawful d (now N w')
            × Copied formats d.db sc
      go w1 (inl e) asked h1 = absurd (ground arith)
      go w1 (inr c) asked h1 =
          let (d, before, later, copied) =
            get_scheduler_context_lem N formats lawful w w1 c
              (attempt-eq-inr N formats lawful (get_scheduler_context N formats) w w1 c asked) in
          (
            d,
            before,
            subst (λ x. Follows N formats lawful d (now N x)) (ground arith) later,
            subst (Copied formats d.db) (ground arith) copied,
          )
