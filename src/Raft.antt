-- ===== src/Raft.antt =====
-- The NodeHost of dragonboat, which is not part of the repository, as drummer's server uses it: an
-- interface of calls, each of which may also let time pass for everybody else, and what the server
-- relies on. `Reply` is what a call of the server gives.
use drummer.Base.{
  List, ◌∷◌, ℕ, ◌≡◌, refl, Option, none, some, Bytes, ok, Panic, ◌⊎◌, inl, inr, arith,
}
use drummer.Db.State.{Db}
use drummer.Db.Operations.{update}
use drummer.Db.History.{Reach, here, next}
use drummer.Db.Lookups.{Formats, lookup_query}

-- The errors that the code tells apart; a call that was canceled is one.
pub data Error : Type 0 where
  canceled shard_not_found not_a_number session_not_ready rejected other : Error

pub data Reply {ℓ} (A : Type ℓ) : Type ℓ where
  value : A → Reply A
  failed : Error → Reply A
  crashed : Panic → Reply A

-- A call that acts on the world.
abbrev pub Call {ℓ} : Type 0 → Type ℓ → Type ℓ
Call W A = W → W × Reply A

unfoldable pub resume {ℓ κ} :
    {W : Type 0} {A : Type ℓ} {B : Type κ} → (A → W → W × Reply B) → W × Reply A → W × Reply B
resume k (w, value a) = k a w
resume k (w, failed e) = (w, failed e)
resume k (w, crashed p) = (w, crashed p)

infixl 5 ◌>>=◌
abbrev pub ◌>>=◌ {ℓ κ} :
    {W : Type 0} {A : Type ℓ} {B : Type κ}
    → (W → W × Reply A)
    → (A → W → W × Reply B)
    → W
    → W × Reply B
(step >>= k) w = resume k (step w)

abbrev pub pure {ℓ} : {W : Type 0} {A : Type ℓ} → A → W → W × Reply A
pure a w = (w, value a)

abbrev pub fail {ℓ} : {W : Type 0} {A : Type ℓ} → Error → W → W × Reply A
fail e w = (w, failed e)

abbrev pub crash {ℓ} : {W : Type 0} {A : Type ℓ} → Panic → W → W × Reply A
crash p w = (w, crashed p)

-- `if err != nil { panic(err) }`
abbrev pub or_crash {ℓ} : {W : Type 0} {A : Type ℓ} → Option A → Panic → W → W × Reply A
or_crash none p = crash p
or_crash (some a) p = pure a

-- `if err != nil { return err }`
abbrev pub or_fail {ℓ} : {W : Type 0} {A : Type ℓ} → W × (Error ⊎ A) → W × Reply A
or_fail (w, inl e) = (w, failed e)
or_fail (w, inr a) = (w, value a)

-- What a chain with a value says of its first step.
pub resume-eq-value {ℓ κ} :
    {W : Type 0} {A : Type ℓ} {B : Type κ} (k : A → W → W × Reply B) (r : W × Reply A) (w' : W)
    (b : B)
    → resume k r ≡ (w', value b)
    → (w : W) × (a : A) × (r ≡ (w, value a)) × (k a w ≡ (w', value b))
unfolding resume
resume-eq-value k (w, value a) w' b h = (w, a, refl, h)
resume-eq-value k (w, failed e) w' b h = absurd (ground arith)
resume-eq-value k (w, crashed p) w' b h = absurd (ground arith)

pub record NodeHost : Type 1 where
  pub World : Type 0
  pub Session : Type 0
  -- The state that the DB has once every command that is committed is applied.
  pub db : World → Db
  -- The commands that the DB has applied, the newest first.
  pub log : World → List Bytes
  pub sync_get_session : World → World × (Error ⊎ Session)
  pub sync_close_session : Session → World → World × (Error ⊎ Unit {0})
  pub proposal_completed : Session → Session
  pub sync_read : Bytes → World → World × (Error ⊎ Bytes)
  pub sync_propose : Session → Bytes → World → World × (Error ⊎ ℕ)

-- The DB and the commands that it has applied, at some moment.
pub record Moment : Type 0 where
  pub db : Db
  pub log : List Bytes

abbrev pub now : (N : NodeHost) → N.World → Moment
now N w = record { db = N.db w; log = N.log w }

-- One moment comes after another: the commands that its log has on top of the other one's lead from
-- the one DB to the other. So whatever stands between two moments is what the DB was then.
pub data Grows (formats : Formats) (m : Moment) : Moment → Type 0 where
  still : Grows formats m m
  grown :
      {m' m'' : Moment} (cmd : Bytes) (v : ℕ)
      → Grows formats m m'
      → update formats.kv formats.update.unmarshal m'.db cmd ≡ ok (m''.db, v)
      → m''.log ≡ cmd ∷ m'.log
      → Grows formats m m''

-- What dragonboat documents: whatever happens during a call, the DB only takes commands; a read that
-- returns is linearizable, so it is the answer of the DB at some moment of the call; and a proposal
-- that returns was applied at some moment of the call, with the result that is returned.
pub record IsLawful (N : NodeHost) (formats : Formats) : Type 0 where
  pub get_session-Grows : (w : N.World) → Grows formats (now N w) (now N (N.sync_get_session w).0)
  pub close_session-Grows :
      (s : N.Session) (w : N.World) → Grows formats (now N w) (now N (N.sync_close_session s w).0)
  pub read-Grows : (q : Bytes) (w : N.World) → Grows formats (now N w) (now N (N.sync_read q w).0)
  pub propose-Grows :
      (s : N.Session) (cmd : Bytes) (w : N.World)
      → Grows formats (now N w) (now N (N.sync_propose s cmd w).0)
  pub read-linearizable :
      (q b : Bytes) (w w' : N.World)
      → N.sync_read q w ≡ (w', inr b)
      → (m : Moment) × Grows formats (now N w) m
        × Grows formats m (now N w')
        × (lookup_query formats m.db q ≡ ok b)
  pub propose-applied :
      (s : N.Session) (cmd : Bytes) (v : ℕ) (w w' : N.World)
      → N.sync_propose s cmd w ≡ (w', inr v)
      → (m m' : Moment) × Grows formats (now N w) m
        × (update formats.kv formats.update.unmarshal m.db cmd ≡ ok (m'.db, v))
        × (m'.log ≡ cmd ∷ m.log)
        × Grows formats m' (now N w')

pub Grows-trans :
    (formats : Formats) {a b c : Moment} → Grows formats a b → Grows formats b c → Grows formats a c
Grows-trans formats r still = r
Grows-trans formats r (grown cmd v r' e l) = grown cmd v (Grows-trans formats r r') e l

-- What comes after is reached by commands that the DB accepts.
pub Grows-Reach :
    (formats : Formats) {a b : Moment}
    → Grows formats a b
    → Reach formats.kv formats.update.unmarshal a.db b.db
Grows-Reach formats still = here
Grows-Reach formats (grown cmd v r e l) = next cmd v (Grows-Reach formats r) e

pub Reach-trans :
    (formats : Formats) {a b c : Db}
    → Reach formats.kv formats.update.unmarshal a b
    → Reach formats.kv formats.update.unmarshal b c
    → Reach formats.kv formats.update.unmarshal a c
Reach-trans formats r here = r
Reach-trans formats r (next cmd v r' e) = next cmd v (Reach-trans formats r r') e
