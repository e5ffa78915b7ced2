-- ===== src/Base/Fallible.antt =====
-- Code that may panic. A panic ends the process, so no state goes with it.
use mathlib.Core.Path.{◌≡◌, refl}
use mathlib.Core.Logic.{◌⊎◌, inl, inr}
use mathlib.Core.Bool.{Bool, true, false}

-- The program's own panics, by their messages, and those that the Go runtime raises.
pub data Panic : Type 0 where
  system_failed marshal_failed unmarshal_failed version_mismatch : Panic
  unknown_update_type unknown_request_type unknown_change_type : Panic
  launch_not_all set_launched_failed : Panic
  empty_key_or_value no_members empty_app_name empty_key : Panic
  node_count_differs node_id_differs address_changed address_duplicated : Panic
  node_host_not_found shard_not_located : Panic
  nil_pointer index_out_of_range divide_by_zero : Panic
  unknown_response unknown_value no_session zero_tick log_info_not_included : Panic
  remove_failed request_failed unknown_result node_info_found unknown_join_restore no_plugin : Panic
  invalid_request election_unknown_state campaign_by_leader : Panic

pub data Outcome {ℓ} (A : Type ℓ) : Type ℓ where
  ok : A → Outcome A
  panic : Panic → Outcome A

infixl 5 ◌>>=◌ ◌>>◌
abbrev pub ◌>>=◌ {ℓ κ} : {A : Type ℓ} {B : Type κ} → Outcome A → (A → Outcome B) → Outcome B
ok a >>= f = f a
panic p >>= f = panic p

abbrev pub ◌>>◌ {ℓ} : {B : Type ℓ} → Outcome (Unit {0}) → Outcome B → Outcome B
m >> k = m >>= λ _. k

-- `if bad { panic(p) }`
abbrev pub panic_if : Bool → Panic → Outcome (Unit {0})
panic_if true p = panic p
panic_if false p = ok tt

-- What a successful chain says of its first step.
pub >>=-eq-ok {ℓ κ} :
    {S : Type ℓ} {R : Type κ} (first : Outcome S) (rest : S → Outcome R) {result : R}
    → (first >>= rest) ≡ ok result
    → (s : S) × (first ≡ ok s) × (rest s ≡ ok result)
>>=-eq-ok (ok s) rest h = (s, refl, h)
>>=-eq-ok (panic p) rest h = cc

pub Outcome-cases {ℓ} :
    {A : Type ℓ} (m : Outcome A) → ((p : Panic) × (m ≡ panic p)) ⊎ ((a : A) × (m ≡ ok a))
Outcome-cases (ok a) = inr (a, refl)
Outcome-cases (panic p) = inl (p, refl)
