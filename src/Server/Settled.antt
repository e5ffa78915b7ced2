-- ===== src/Server/Settled.antt =====
-- server.go: a deployment id that is settled, and what the calls on the id make of it.
use drummer.Base.{
  ℕ, ◌≡◌, refl, inl, inr, true, Option, some, Bytes, bytes_eq, bytes_beq_iff, arith, Bool-cases,
  Option-cases, subst, ◌==◌, if◌then◌else◌, nat_eq,
}
use drummer.Server.Moves.{Moves, Moves-bind, Moves-eq, Moves-propose, Moves-get_deployment_id}
use drummer.Pb.{Kv}
use drummer.Db.State.{Db, deployment_id_key, db_kv_updated}
use drummer.Db.KeyValue.{stored, verdict, written, apply_kv_update-written}
use drummer.Db.History.{Reach-stored_finalized}
use drummer.Db.Lookups.{Formats}
use drummer.Raft.{
  value, pure, resume, resume-eq-value, NodeHost, IsLawful, Moment, now, still, Grows-trans,
  Grows-Reach,
}
use drummer.Server.{
  kv_update, finalized_kv, lookup_kv, kv_result, propose_drummer_update, propose_finalized_kv,
}
use drummer.Server.Requests.{parse_id, get_deployment_id, set_deployment_id}
use drummer.Server.Laws.{Follows, lookup_kv_lem, find_kv-stored, propose_lem, apply-kv}
use drummer.Server.Finality.{AllFinal}

module _ (N : NodeHost) (formats : Formats) (lawful : IsLawful N formats) where
  module _ (format_uint : ℕ → Bytes) (parse_uint : Bytes → Option ℕ)
      (parse-format : (n : ℕ) → parse_uint (format_uint n) ≡ some n) where
    -- The deployment id of a DB is settled: its record is finalized, and is the numeral of the id.
    abbrev pub Settled : ℕ → Db → Type 0
    Settled did d =
        (kv : Kv) × (stored formats.kv d deployment_id_key ≡ some kv)
        × (kv.finalized ≡ true)
        × (parse_uint kv.value ≡ some did)

    pub Settled-Grows :
        (did : ℕ) (m m' : Moment)
        → Follows N formats lawful m m'
        → Settled did m.db
        → Settled did m'.db
    Settled-Grows did m m' r (kv, e, final, parsed) = (
      kv,
      Reach-stored_finalized formats.kv formats.update.unmarshal deployment_id_key kv final
          (Grows-Reach formats r) e,
      final,
      parsed,
    )

    -- What is read of a DB whose record is finalized is settled.
    pub get_deployment_id-Settled :
        (old : Kv) (r : ℕ) (w w' : N.World)
        → stored formats.kv (N.db w) deployment_id_key ≡ some old
        → old.finalized ≡ true
        → get_deployment_id N formats format_uint parse_uint w ≡ (w', value r)
        → Follows N formats lawful (now N w) (now N w') × Settled r (N.db w')
    unfolding get_deployment_id kv_result parse_id
    get_deployment_id-Settled old r w w' there final h =
        let (w1, resp, asked, h') =
          resume-eq-value _ (lookup_kv N formats deployment_id_key w) w' r h in
        let (m, kv, before, later, found, e) =
          lookup_kv_lem N formats lawful deployment_id_key w w1 resp asked in
        let same = find_kv-stored N formats lawful m.db deployment_id_key kv old found (
          Reach-stored_finalized formats.kv formats.update.unmarshal deployment_id_key old final
            (Grows-Reach formats before) there) in
        let parsed : parse_uint old.value ≡ some r = elim (Option-cases (parse_uint old.value)) [
          | inl none_there ↦ absurd (unfold resume in ground arith)
          | inr (n, e') ↦ unfold resume in ground arith
        ] in
        let here' : w1 ≡ w' = elim (Option-cases (parse_uint old.value)) [
          | inl none_there ↦ absurd (ground arith)
          | inr (n, e') ↦ unfold resume in ground arith
        ] in
        let all = Grows-trans formats before later in
        let there' =
          Reach-stored_finalized formats.kv formats.update.unmarshal deployment_id_key old final
            (Grows-Reach formats all) there in
        subst (λ x. Follows N formats lawful (now N w) (now N x) × Settled r (N.db x)) here'
          (all, (old, there', final, parsed))

    -- What a server learns when it sets the id is settled, provided that the record of the id is
    -- finalized, if there is one, at each moment of the call.
    pub set_deployment_id-Settled :
        (session : N.Session) (uint_did r : ℕ) (w w' : N.World)
        → ((m : Moment)
            → Follows N formats lawful (now N w) m
            → Follows N formats lawful m (now N w')
            → AllFinal formats m.db)
        → set_deployment_id N formats format_uint parse_uint session uint_did w ≡ (w', value r)
        → Settled r (N.db w')
    unfolding set_deployment_id propose_finalized_kv
    set_deployment_id-Settled session uint_did r w w' final h =
        let kv = finalized_kv deployment_id_key (format_uint uint_did) 0 in
        let (w1, code, proposed, h') =
          resume-eq-value _ (propose_drummer_update N formats session (kv_update kv) w) w' r h in
        let (m, m', before, e, step, later) =
          propose_lem N formats lawful session (kv_update kv) w w1 code proposed in
        let (answer, reads, rest) =
          apply_kv_update-written formats.kv m.db kv m'.db code
            (apply-kv N formats lawful m.db m'.db kv code e) in
        elim (Bool-cases (code == db_kv_updated)) [
          | inl new ↦
              let here' : w1 ≡ w' = ground arith in
              let mine : uint_did ≡ r = ground arith in
              let there : stored formats.kv m'.db deployment_id_key ≡ some kv =
                unfold written in
                ground (
                  arith,
                  reads deployment_id_key,
                  bytes_beq_iff deployment_id_key deployment_id_key,
                ) in
              Settled-Grows r m' (now N w')
                (subst (λ x. Follows N formats lawful m' (now N x)) here' later)
                (kv, there, refl, ground (arith, parse-format uint_did))
          | inr other ↦ elim (Option-cases (stored formats.kv m.db deployment_id_key)) [
            | inl absent ↦ absurd (unfold verdict in ground arith)
            | inr (old, there) ↦
                let read_back : get_deployment_id N formats format_uint parse_uint w1
                    ≡ (w', value r) =
                  ground arith in
                let moved =
                  Moves-eq N formats lawful (get_deployment_id N formats format_uint parse_uint) w1
                    w' _ (Moves-get_deployment_id N formats lawful format_uint parse_uint)
                    read_back in
                let final' =
                  final m before (Grows-trans formats step (Grows-trans formats later moved)) old
                    there in
                let there' =
                  Reach-stored_finalized formats.kv formats.update.unmarshal deployment_id_key old
                    final' (Grows-Reach formats (Grows-trans formats step later)) there in
                (get_deployment_id-Settled old r w1 w' there' final' read_back).1
          ]
        ]

    Moves-settle :
        (uint_did code : ℕ)
        → Moves N formats lawful (
            if code == db_kv_updated
            then pure uint_did
            else get_deployment_id N formats format_uint parse_uint)
    Moves-settle uint_did code w = elim (Bool-cases (code == db_kv_updated)) [
      | inl new ↦ rw new still
      | inr other ↦ rw other (Moves-get_deployment_id N formats lawful format_uint parse_uint w)
    ]

    -- Setting the id, whatever becomes of it.
    pub Moves-set_deployment_id :
        (session : N.Session) (uint_did : ℕ)
        → Moves N formats lawful
            (set_deployment_id N formats format_uint parse_uint session uint_did)
    unfolding set_deployment_id propose_finalized_kv
    Moves-set_deployment_id session uint_did =
        Moves-bind N formats lawful _ _ (Moves-propose N formats lawful session _)
          (λ code. Moves-settle uint_did code)

    -- Two settled ids of one record are the same.
    pub Settled-unique : (r r' : ℕ) (d : Db) → Settled r d → Settled r' d → r' ≡ r
    Settled-unique r r' d (kv, there, final, parsed) (kv', there', final', parsed') = ground arith
