-- ===== src/Errors.antt =====
-- The exception classes that the modelled code raises and catches: app/core/errors.py,
-- app/replacement/errors.py, app/providers/errors.py, app/master/errors.py and those that the
-- components declare for themselves. A message is not kept; the class decides what a caller does.
use aso_node_recovery.Prelude.{Bool, false, inl, inr, refl, true, ◌≡◌, ◌⊎◌}

pub data Error : Type 0 where
  configuration_error safety_violation_error : Error
  invalid_node_state_transition_error invalid_replacement_transition_error : Error
  invalid_deployment_transition_error : Error
  replacement_busy_error replacement_deferred_error replacement_configuration_error : Error
  provider_authentication_error provider_not_found_error provider_conflict_error : Error
  provider_rate_limit_error provider_transient_error provider_timeout_error : Error
  master_error master_transient_error master_authentication_error : Error
  master_node_verification_error check_host_error : Error
  value_error runtime_error other_error : Error

-- `isinstance(error, ProviderTransientError)`: the class and its subclass.
abbrev pub is_provider_transient : Error → Bool
is_provider_transient Error.provider_transient_error = true
is_provider_transient Error.provider_timeout_error = true
is_provider_transient _ = false

-- The class attribute `retryable` of app/providers/errors.py.
abbrev pub retryable : Error → Bool
retryable Error.provider_rate_limit_error = true
retryable Error.provider_transient_error = true
retryable Error.provider_timeout_error = true
retryable _ = false

-- What a function that may raise returns.
pub data Result {ℓ} (A : Type ℓ) : Type ℓ where
  ok : A → Result A
  err : Error → Result A

abbrev pub is_ok {ℓ} : {A : Type ℓ} → Result A → Bool
is_ok (ok _) = true
is_ok (err _) = false

infixl 5 ◌>>=◌
abbrev pub ◌>>=◌ {ℓ κ} : {A : Type ℓ} {B : Type κ} → Result A → (A → Result B) → Result B
ok a >>= f = f a
err e >>= f = err e

-- To split on a computed result and keep the equation.
pub Result-cases {ℓ} :
    {A : Type ℓ} (r : Result A) → ((a : A) × (r ≡ ok a)) ⊎ ((e : Error) × (r ≡ err e))
Result-cases (ok a) = inl (a, refl)
Result-cases (err e) = inr (e, refl)
