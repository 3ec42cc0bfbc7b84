-- ===== src/Dispatch/Refusals.antt =====
-- The refusals of the messages that take text (src/condrv/condrv_server.hpp): each is an error.
use conhost.Prelude.{◌≢◌, if◌then◌else◌, Bool, true, false, Text}
use conhost.Prelude.Result.{Expected, expected, unexpected, ◌>>=◌}
use conhost.Dispatch.{Status, status_success, status_unsuccessful, status_invalid_parameter}
use conhost.Dispatch.Strings.{
  TextError, error_outofmemory, other_error, or_status, or_invalid, or_unsuccessful,
}

-- A refusal is an error.
abbrev pub IsRefusal {ℓ} : {A : Type ℓ} → Expected Status A → Type 0
IsRefusal (expected a) = Unit
IsRefusal (unexpected status) = status ≢ status_success

or_status-IsRefusal :
    (status : Status) (x : Expected TextError Text)
    → status ≢ status_success
    → IsRefusal (or_status status x)
or_status-IsRefusal status (expected text) n = tt
or_status-IsRefusal status (unexpected error_outofmemory) n = λ e. cc
or_status-IsRefusal status (unexpected other_error) n = n

pub or_invalid-IsRefusal : (x : Expected TextError Text) → IsRefusal (or_invalid x)
or_invalid-IsRefusal x = or_status-IsRefusal status_invalid_parameter x (λ e. cc)

pub or_unsuccessful-IsRefusal : (x : Expected TextError Text) → IsRefusal (or_unsuccessful x)
or_unsuccessful-IsRefusal x = or_status-IsRefusal status_unsuccessful x (λ e. cc)

pub >>=-IsRefusal {ℓ κ} :
    {A : Type ℓ} {B : Type κ} (x : Expected Status A) (f : A → Expected Status B)
    → IsRefusal x
    → ((a : A) → IsRefusal (f a))
    → IsRefusal (x >>= f)
>>=-IsRefusal (expected a) f h k = k a
>>=-IsRefusal (unexpected status) f h k = h

pub guarded-IsRefusal {ℓ} :
    {A : Type ℓ} (a : Bool) (x : Expected Status A)
    → IsRefusal x
    → IsRefusal (if a then unexpected status_invalid_parameter else x)
guarded-IsRefusal true x h = λ e. cc
guarded-IsRefusal false x h = h
