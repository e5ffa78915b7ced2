-- ===== src/Server/Agreement.antt =====
-- server.go: the bootstrap flag and the deployment id, which the servers agree on through the DB.
use drummer.Base.{
  ℕ, ◌≡◌, ◌∙◌, true, Option, some, Bytes, bytes, bytes_eq, ok, arith, subst, All, nat_eq,
}
use drummer.Base.Map.{has}
use drummer.Server.Moves.{Moves-eq, Moves-get_deployment_id}
use drummer.Pb.{Kv, Change, ChangeResponse, ChangeResponseCode, UpdateType}
use drummer.Db.State.{bootstrapped, bootstrapped_key, deployment_id_key}
use drummer.Db.Operations.{apply, apply_shard_update}
use drummer.Db.KeyValue.{stored}
use drummer.Db.History.{
  Reach, Reach-keeps, Reach-bootstrapped, Applied-has, apply_shard_update-bootstrapped,
}
use drummer.Db.Lookups.{Formats}
use drummer.Raft.{
  value, resume-eq-value, NodeHost, IsLawful, Moment, now, Grows, Grows-trans, Grows-Reach,
}
use drummer.Server.{
  blank_update, kv_update, finalized_kv, propose_drummer_update, propose_finalized_kv,
}
use drummer.Server.Requests.{
  change_response, finalized_response, submit_change, set_finalized_kv, set_bootstrapped,
  get_deployment_id, set_deployment_id,
}
use drummer.Server.Laws.{Follows, propose_lem, apply-kv, apply_kv_update-has, with_session_lem}
use drummer.Server.Finality.{AllFinal, WritesFinal, Grows-All, Grows-AllFinal}
use drummer.Server.Settled.{
  Settled-Grows, get_deployment_id-Settled, set_deployment_id-Settled, Moves-set_deployment_id,
  Settled-unique,
}

module _ (N : NodeHost) (formats : Formats) (lawful : IsLawful N formats) where
  -- Once `SetBootstrapped` has returned, the DB is bootstrapped.
  set_bootstrapped_lem :
      (w w' : N.World) (r : ChangeResponse)
      → set_bootstrapped N formats w ≡ (w', value r)
      → bootstrapped (N.db w') ≡ true
  unfolding set_bootstrapped set_finalized_kv propose_finalized_kv bootstrapped
  set_bootstrapped_lem w w' r h =
      let (session, w1, w2, opened, h', closed) = with_session_lem N formats lawful _ w w' r h in
      let kv = finalized_kv bootstrapped_key (bytes "true") 0 in
      let (w3, code, proposed, h'') =
        resume-eq-value _ (propose_drummer_update N formats session (kv_update kv) w1) w2 r h' in
      let (d, d', before, e, step, later) =
        propose_lem N formats lawful session (kv_update kv) w1 w3 code proposed in
      let there =
        apply_kv_update-has N formats lawful d.db d'.db kv code
          (apply-kv N formats lawful d.db d'.db kv code e) in
      let same : w3 ≡ w2 = unfold finalized_response in ground arith in
      Reach-keeps formats.kv formats.update.unmarshal (λ x. has bootstrapped_key x.kv_map ≡ true)
        (λ x x' v a. Applied-has formats.kv bootstrapped_key x x' v a)
        (Grows-Reach formats (
          Grows-trans formats (subst (λ x. Follows N formats lawful d' (now N x)) same later)
            closed))
        there

  -- A proposal of a new shard to a DB that is bootstrapped is answered so, and changes no shard.
  submit_change-bootstrapped :
      (c : Change) (w w' : N.World) (resp : ChangeResponse)
      → bootstrapped (N.db w) ≡ true
      → submit_change N formats c w ≡ (w', value resp)
      → (resp.code ≡ ChangeResponseCode.bootstrapped) × ((N.db w').shards ≡ (N.db w).shards)
  unfolding submit_change
  submit_change-bootstrapped c w w' resp old h =
      let u = record (blank_update UpdateType.shard) { change = some c } in
      let (session, w1, w2, opened, h', closed) = with_session_lem N formats lawful _ w w' resp h in
      let (w3, code, proposed, h'') =
        resume-eq-value _ (propose_drummer_update N formats session u w1) w2 resp h' in
      let (d, d', before, e, step, later) =
        propose_lem N formats lawful session u w1 w3 code proposed in
      let (unmoved, unchanged) =
        Reach-bootstrapped formats.kv formats.update.unmarshal
          (Grows-Reach formats (Grows-trans formats opened before)) old in
      let e' : apply_shard_update d.db c ≡ ok (d'.db, code) = unfold apply in e in
      let (same, rejected) = apply_shard_update-bootstrapped c d.db d'.db code e' unmoved in
      let here' : w3 ≡ w2 = unfold change_response in ground arith in
      let all = Grows-trans formats (Grows-trans formats opened before) (
        Grows-trans formats step (
          Grows-trans formats (subst (λ x. Follows N formats lawful d' (now N x)) here' later)
            closed)) in
      (
        unfold change_response in ground arith,
        (Reach-bootstrapped formats.kv formats.update.unmarshal (Grows-Reach formats all) old).1,
      )

  -- Once `SetBootstrapped` has returned to anyone, a later proposal of a shard, by anyone and for any
  -- shard, is answered with `BOOTSTRAPPED` wherever it returns, and no shard has changed since.
  pub set_bootstrapped-submit_change :
      (c : Change) (w1 w2 w3 w4 : N.World) (r resp : ChangeResponse)
      → set_bootstrapped N formats w1 ≡ (w2, value r)
      → Reach formats.kv formats.update.unmarshal (N.db w2) (N.db w3)
      → submit_change N formats c w3 ≡ (w4, value resp)
      → (resp.code ≡ ChangeResponseCode.bootstrapped) × ((N.db w4).shards ≡ (N.db w2).shards)
  set_bootstrapped-submit_change c w1 w2 w3 w4 r resp set later h =
      let (unmoved, unchanged) =
        Reach-bootstrapped formats.kv formats.update.unmarshal later
          (set_bootstrapped_lem w1 w2 r set) in
      let (code, same) = submit_change-bootstrapped c w3 w4 resp unmoved h in
      (code, same ∙ unchanged)

  module _ (format_uint : ℕ → Bytes) (parse_uint : Bytes → Option ℕ)
      (parse-format : (n : ℕ) → parse_uint (format_uint n) ≡ some n) where
    -- Provided that the record of the deployment id, if there is one at first, is finalized, and that
    -- no command that the DB applies until the end writes one that is not, what two servers return for
    -- the id is the same, in whatever order they set it, and so is what anyone reads afterwards.
    pub set_deployment_id-agree :
        (session session' : N.Session) (uint_did uint_did' r r' r'' : ℕ)
        (w1 w2 w3 w4 w5 w6 : N.World)
        → ((kv : Kv)
            → stored formats.kv (N.db w1) deployment_id_key ≡ some kv
            → kv.finalized ≡ true)
        → All (WritesFinal formats) (N.log w6)
        → set_deployment_id N formats format_uint parse_uint session uint_did w1 ≡ (w2, value r)
        → Grows formats (now N w2) (now N w3)
        → set_deployment_id N formats format_uint parse_uint session' uint_did' w3 ≡ (w4, value r')
        → Grows formats (now N w4) (now N w5)
        → get_deployment_id N formats format_uint parse_uint w5 ≡ (w6, value r'')
        → (r' ≡ r) × (r'' ≡ r)
    set_deployment_id-agree session session' uint_did uint_did' r r' r'' w1 w2 w3 w4 w5 w6 first all
          set between set' after read =
        let go1 =
          Moves-eq N formats lawful
            (set_deployment_id N formats format_uint parse_uint session uint_did) w1 w2 _
            (Moves-set_deployment_id N formats lawful format_uint parse_uint parse-format session
              uint_did)
            set in
        let go2 =
          Moves-eq N formats lawful
            (set_deployment_id N formats format_uint parse_uint session' uint_did') w3 w4 _
            (Moves-set_deployment_id N formats lawful format_uint parse_uint parse-format session'
              uint_did')
            set' in
        let go3 =
          Moves-eq N formats lawful (get_deployment_id N formats format_uint parse_uint) w5 w6 _
            (Moves-get_deployment_id N formats lawful format_uint parse_uint) read in
        let final : (m : Moment)
            → Grows formats (now N w1) m
            → Grows formats m (now N w6)
            → AllFinal formats m.db =
          λ m f g. Grows-AllFinal formats f (Grows-All formats g all) first in
        let rest =
          Grows-trans formats between (Grows-trans formats go2 (Grows-trans formats after go3)) in
        let one =
          set_deployment_id-Settled N formats lawful format_uint parse_uint parse-format session
            uint_did r w1 w2 (λ m f g. final m f (Grows-trans formats g rest)) set in
        let two =
          set_deployment_id-Settled N formats lawful format_uint parse_uint parse-format session'
            uint_did' r' w3 w4
            (λ m f g.
              final m (Grows-trans formats (Grows-trans formats go1 between) f)
                (Grows-trans formats g (Grows-trans formats after go3)))
            set' in
        let one' =
          Settled-Grows N formats lawful format_uint parse_uint parse-format r (now N w2) (now N w4)
            (Grows-trans formats between go2) one in
        let (kv, there, fin, parsed) =
          Settled-Grows N formats lawful format_uint parse_uint parse-format r (now N w4) (now N w5)
            after one' in
        let (moved, three) =
          get_deployment_id-Settled N formats lawful format_uint parse_uint parse-format kv r'' w5
            w6 there fin read in
        (
          Settled-unique N formats lawful format_uint parse_uint parse-format r r' (N.db w4) one'
              two,
          Settled-unique N formats lawful format_uint parse_uint parse-format r r'' (N.db w6)
              (Settled-Grows N formats lawful format_uint parse_uint parse-format r (now N w5)
                (now N w6) go3 (kv, there, fin, parsed))
              three,
        )
