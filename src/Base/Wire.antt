-- ===== src/Base/Wire.antt =====
-- A wire format (protobuf or JSON), whose code is not part of the repository. What the program
-- relies on: a message that is encoded decodes to itself.
use mathlib.Core.Path.{◌≡◌}
use mathlib.Core.Option.{Option, none, some}
use drummer.Base.Equality.{Bytes}
use drummer.Base.Fallible.{Panic, Outcome, ok, panic}

pub record Codec (A : Type 0) : Type 0 where
  pub marshal : A → Option Bytes
  pub unmarshal : Bytes → Option A
  pub round_trip : (a : A) (b : Bytes) → marshal a ≡ some b → unmarshal b ≡ some a

-- The two functions of a format of which nothing is assumed.
pub record Coder (A : Type 0) : Type 0 where
  pub marshal : A → Option Bytes
  pub unmarshal : Bytes → Option A

-- `if err != nil { panic(err) }`
abbrev pub or_panic {ℓ} : {A : Type ℓ} → Option A → Panic → Outcome A
or_panic none p = panic p
or_panic (some a) p = ok a
