-- ===== src/Election/Moves.antt =====
-- election.go: the DB through the reads and the votes of a worker, over a lawful NodeHost.
use drummer.Base.{
  ℕ, suc, ◌≡◌, ◌⊎◌, inl, inr, Option, none, some, ok, nat_eq, bytes_eq, arith, Option-cases, subst,
}
use drummer.Base.Map.{lookup}
use drummer.Pb.{Kv}
use drummer.Db.State.{election_key}
use drummer.Db.KeyValue.{stored}
use drummer.Db.Lookups.{Formats, find_kv}
use drummer.Raft.{
  Moment, now, still, Error, value, resume, resume-eq-value, NodeHost, IsLawful, Grows-trans,
}
use drummer.Server.{lookup_kv, kv_result}
use drummer.Server.Requests.{get_election_info}
use drummer.Server.Laws.{Follows, lookup_kv_lem}
use drummer.Server.Moves.{
  Moves, Moves-bind, Moves-attempt, attempt-eq-inr, Moves-make_drummer_vote, Moves-get_session,
  Moves-reset_session, Moves-client_proposal_completed,
}
use drummer.Sessions.{attempt}
use drummer.Election.{ElectionManager, vote, after_renewal, renew_with, renew_leadership}

module _ (N : NodeHost) (formats : Formats) (lawful : IsLawful N formats) where
  -- The DB names an owner of the leadership.
  abbrev pub Owns : ℕ → Moment → Type 0
  Owns i d = (kv : Kv) × (stored formats.kv d.db election_key ≡ some kv) × (kv.instance_id ≡ i)

  find_kv-Owns :
      (d : Moment) (kv : Kv) (i : ℕ)
      → find_kv formats.response formats.kv d.db election_key ≡ ok kv
      → kv.instance_id ≡ suc i
      → Owns (suc i) d
  unfolding find_kv stored
  find_kv-Owns d kv i h e = elim (Option-cases (lookup election_key d.db.kv_map)) [
    | inl absent ↦ absurd (ground arith)
    | inr (b, there) ↦ elim (Option-cases (formats.kv.unmarshal b)) [
      | inl bad ↦ absurd (ground arith)
      | inr (kv', e') ↦ (kv, ground arith, e)
    ]
  ]

  -- At some moment between the two the DB names the owner.
  abbrev pub Owned : ℕ → Moment → Moment → Type 0
  Owned i d0 d1 =
      (d : Moment) × Follows N formats lawful d0 d × Follows N formats lawful d d1 × Owns i d

  pub Owned-wider :
      (i : ℕ) (d0 d1 d2 d3 : Moment)
      → Follows N formats lawful d0 d1
      → Owned i d1 d2
      → Follows N formats lawful d2 d3
      → Owned i d0 d3
  Owned-wider i d0 d1 d2 d3 f (d, before, later, owns) g =
      (d, Grows-trans formats f before, Grows-trans formats later g, owns)

  -- The record that a turn reads is that of a DB of the time of the call.
  pub get_election_info-Owned :
      (w w' : N.World) (kv : Kv) (i : ℕ)
      → attempt (get_election_info N formats) w ≡ (w', value (inr kv))
      → kv.instance_id ≡ suc i
      → Owned (suc i) (now N w) (now N w')
  unfolding get_election_info kv_result
  get_election_info-Owned w w' kv i h e =
      let h0 = attempt-eq-inr N formats lawful (get_election_info N formats) w w' kv h in
      let (w1, resp, asked, h') = resume-eq-value _ (lookup_kv N formats election_key w) w' kv h0 in
      let (d, kv', before, later, found, e') =
        lookup_kv_lem N formats lawful election_key w w1 resp asked in
      let mine : kv ≡ kv' = unfold resume in ground arith in
      let same : w1 ≡ w' = unfold resume in ground arith in
      (
        d,
        before,
        subst (λ x. Follows N formats lawful d (now N x)) same later,
        find_kv-Owns d kv' i found (ground arith),
      )

  Moves-after_renewal :
      (d : ElectionManager N.Session) (result : Error ⊎ ℕ)
      → Moves N formats lawful (after_renewal N formats d result)
  unfolding after_renewal
  Moves-after_renewal d (inl e) =
      Moves-bind N formats lawful _ _ (Moves-reset_session N formats lawful d.session)
        (λ s w. still)
  Moves-after_renewal d (inr code) =
      Moves-bind N formats lawful _ _ (Moves-client_proposal_completed N formats lawful d.session)
        (λ s w. still)

  Moves-renew_with :
      (d : ElectionManager N.Session) (tick : ℕ) (session : Option N.Session)
      → Moves N formats lawful (renew_with N formats d tick session)
  unfolding renew_with
  Moves-renew_with d tick none = λ w. still
  Moves-renew_with d tick (some s) =
      Moves-bind N formats lawful _ _
        (Moves-attempt N formats lawful _
          (Moves-make_drummer_vote N formats lawful s (vote d 0 tick)))
        (λ result. Moves-after_renewal (record d { session = some s }) result)

  pub Moves-renew_leadership :
      (d : ElectionManager N.Session) (tick : ℕ)
      → Moves N formats lawful (renew_leadership N formats d tick)
  unfolding renew_leadership
  Moves-renew_leadership d tick =
      Moves-bind N formats lawful _ _ (Moves-get_session N formats lawful d.session)
        (λ session. Moves-renew_with d tick session)

  -- The read of the record, then anything: the read is of the whole turn.
  pub info-Owned :
      (w w1 w' : N.World) (kv : Kv) (i : ℕ)
      → attempt (get_election_info N formats) w ≡ (w1, value (inr kv))
      → kv.instance_id ≡ suc i
      → Follows N formats lawful (now N w1) (now N w')
      → Owned (suc i) (now N w) (now N w')
  info-Owned w w1 w' kv i asked e f =
      Owned-wider (suc i) (now N w) (now N w) (now N w1) (now N w') still
        (get_election_info-Owned w w1 kv i asked e) f
