-- ===== src/Tests/Hosts.antt =====
-- A NodeHost of one DB, whose world is the DB with its log: each call takes effect at once, and nobody else uses the DB.
use drummer.Base.{ℕ, ◌∷◌, ◌≡◌, refl, ◌⊎◌, inl, inr, Bytes, Outcome, ok, panic, arith, subst}
use drummer.Db.State.{Db}
use drummer.Db.Operations.{update}
use drummer.Db.Lookups.{Formats, lookup_query}
use drummer.Raft.{Error, other, NodeHost, Moment, Grows, still, grown, IsLawful}

module _ (formats : Formats) where
  unfoldable pub local_read : Moment → Outcome Bytes → Moment × (Error ⊎ Bytes)
  local_read m (ok b) = (m, inr b)
  local_read m (panic p) = (m, inl other)

  unfoldable pub local_propose : Moment → Bytes → Outcome (Db × ℕ) → Moment × (Error ⊎ ℕ)
  local_propose m cmd (ok (d, v)) = (record { db = d; log = cmd ∷ m.log }, inr v)
  local_propose m cmd (panic p) = (m, inl other)

  abbrev pub local : NodeHost
  local = record {
    World = Moment;
    Session = Unit {0};
    db = λ m. m.db;
    log = λ m. m.log;
    sync_get_session = λ m. (m, inr tt);
    sync_close_session = λ s m. (m, inr tt);
    proposal_completed = λ s. s;
    sync_read = λ q m. local_read m (lookup_query formats m.db q);
    sync_propose =
        λ s cmd m. local_propose m cmd (update formats.kv formats.update.unmarshal m.db cmd);
  }

  local_read-Grows : (m : Moment) (o : Outcome Bytes) → Grows formats m (local_read m o).0
  unfolding local_read
  local_read-Grows m (ok b) = still
  local_read-Grows m (panic p) = still

  local_propose-Grows :
      (m : Moment) (cmd : Bytes) (o : Outcome (Db × ℕ))
      → update formats.kv formats.update.unmarshal m.db cmd ≡ o
      → Grows formats m (local_propose m cmd o).0
  unfolding local_propose
  local_propose-Grows m cmd (ok (d', v)) e = grown cmd v still e refl
  local_propose-Grows m cmd (panic p) e = still

  local_read-ok :
      (m m' : Moment) (b : Bytes) (o : Outcome Bytes)
      → local_read m o ≡ (m', inr b)
      → (o ≡ ok b) × (m ≡ m')
  unfolding local_read
  local_read-ok m m' b (ok b') h = (ground arith, ground arith)
  local_read-ok m m' b (panic p) h = absurd (ground arith)

  local_propose-ok :
      (m m' : Moment) (cmd : Bytes) (v : ℕ) (o : Outcome (Db × ℕ))
      → local_propose m cmd o ≡ (m', inr v)
      → (o ≡ ok (m'.db, v)) × (m'.log ≡ cmd ∷ m.log)
  unfolding local_propose
  local_propose-ok m m' cmd v (ok (d1, v1)) h = (ground arith, ground arith)
  local_propose-ok m m' cmd v (panic p) h = absurd (ground arith)

  pub local-IsLawful : IsLawful local formats
  local-IsLawful = record {
    get_session-Grows = λ m. still;
    close_session-Grows = λ s m. still;
    read-Grows = λ q m. local_read-Grows m (lookup_query formats m.db q);
    propose-Grows = λ s cmd m.
        local_propose-Grows m cmd (update formats.kv formats.update.unmarshal m.db cmd) refl;
    read-linearizable = λ q b m m' h.
        let (e, same) = local_read-ok m m' b (lookup_query formats m.db q) h in
        (m, still, subst (Grows formats m) same still, e);
    propose-applied = λ s cmd v m m' h.
        let (e, l) =
          local_propose-ok m m' cmd v (update formats.kv formats.update.unmarshal m.db cmd) h in
        (m, m', still, e, l, still);
  }
