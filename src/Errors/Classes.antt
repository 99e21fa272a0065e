-- ===== src/Errors/Classes.antt =====
-- From an error code to the exception that a call without an error argument throws.
use netb.Prelude.{◌≡◌, Option, none, some, Outcome, ok, fault, aborted, refl, ap}
use netb.Memory.{Bytes}
use netb.Errors.{
  Errno, Error, ErrorClass, Exception, Verdict, Call, classify, set_error, throw_error, no_error,
  set_error_of, general_error, logic_error, runtime_error, exception, logic_exception,
  runtime_exception, sets, asserts, does_nothing, set_classified,
}

-- The exception of a class.
unfoldable pub exception_of : ErrorClass → Bytes → Option Errno → Exception
exception_of general_error msg code = exception msg code
exception_of logic_error msg code = logic_exception msg code
exception_of runtime_error msg code = runtime_exception msg code

throw_class :
    (cls : ErrorClass) (msg : Bytes) (code : Option Errno)
    → throw_error (record { error_class = some cls; message = msg; code = code })
      ≡ some (exception_of cls msg code)
unfolding throw_error exception_of
throw_class general_error msg code = refl
throw_class logic_error msg code = refl
throw_class runtime_error msg code = refl

-- What a failing call throws, by the verdict on its code.
unfoldable pub outcome_of : Verdict → Bytes → Errno → Outcome (Option Exception)
outcome_of (sets cls) msg x = ok (some (exception_of cls msg (some x)))
outcome_of asserts msg x = fault aborted
outcome_of does_nothing msg x = ok none

-- The exception that the error set by a call throws.
unfoldable pub thrown_by : Outcome (Option Error) → Outcome (Option Exception)
thrown_by (ok none) = ok none
thrown_by (ok (some e)) = ok (throw_error e)
thrown_by (fault x) = fault x

pub set_error-throw_error :
    (c : Call) (msg : Bytes) (x : Errno)
    → thrown_by (set_error c msg x (some no_error)) ≡ outcome_of (classify c x) msg x
unfolding set_error set_error_of set_classified thrown_by outcome_of throw_error
set_error-throw_error c msg x = go (classify c x)
  where
    go :
        (v : Verdict)
        → thrown_by (elim v [
          | sets cls ↦ ok (set_error_of cls msg (some x) (some no_error))
          | asserts ↦ fault aborted
          | does_nothing ↦ ok (some no_error)
        ])
          ≡ outcome_of v msg x
    go (sets cls) = ap ok (throw_class cls msg (some x))
    go asserts = refl
    go does_nothing = refl
