-- ===== src/Errors.antt =====
-- `Error` of netb/Error.hpp and netb/Error.cpp, `ErrorClass` of netb/ErrorClass.hpp and
-- netb/ErrorClass.cpp, the exceptions of netb/Exception.hpp and the classification of error codes of
-- netb/SocketError.cpp. An error code is named as in <errno.h>; a message is its bytes.
pub mod Classes
pub mod Documented
use netb.Prelude.{
  ℕ, List, [], Bool, true, false, ◌||◌, Option, none, some, Outcome, ok, fault, aborted,
}
use netb.Memory.{Bytes}

-- The error codes that the source names; `other` is any other one.
pub data Errno : Type 0 where
  eacces eaddrinuse eaddrnotavail eafnosupport eagain ealready ebadf econnrefused : Errno
  econnreset edestaddrreq efault einprogress eintr einval eio eisconn : Errno
  emfile emsgsize enetunreach enfile enobufs enolck enomem enoprotoopt : Errno
  enotconn enotsock eopnotsupp eperm epipe eprotonosupport eprototype etimedout : Errno
  other : ℕ → Errno

-- GeneralError, LogicError and RuntimeError; the base ErrorClass is the missing class of an error.
pub data ErrorClass : Type 0 where
  general_error logic_error runtime_error : ErrorClass

-- `_class`, `_message` and `_code`, where no code is 0.
pub record Error : Type 0 where
  pub error_class : Option ErrorClass
  pub message : Bytes
  pub code : Option Errno

-- Error(), and what Reset() leaves
abbrev pub no_error : Error
no_error = record { error_class = none; message = []; code = none }

-- Error(msg, code)
abbrev pub unclassified : Bytes → Option Errno → Error
unclassified msg code = record { error_class = some general_error; message = msg; code = code }

-- Error(cls, msg, code)
abbrev pub classified : ErrorClass → Bytes → Option Errno → Error
classified cls msg code = record { error_class = some cls; message = msg; code = code }

-- `operator bool`
unfoldable pub is_error : Error → Bool
is_error e = elim e.error_class [ none ↦ false | some c ↦ true ]

-- `if(!_class) _class = &GeneralError();`
abbrev pub class_or_general : Option ErrorClass → Option ErrorClass
class_or_general none = some general_error
class_or_general (some c) = some c

-- Set(msg, code)
unfoldable pub set_unclassified : Bytes → Option Errno → Error → Error
set_unclassified msg code e = record {
  error_class = class_or_general e.error_class;
  message = msg;
  code = code;
}

-- Set(cls, msg, code)
unfoldable pub set_classified : ErrorClass → Bytes → Option Errno → Error → Error
set_classified cls msg code e = classified cls msg code

-- SetClass(cls)
unfoldable pub set_class : ErrorClass → Error → Error
set_class cls e = record e { error_class = some cls }

-- SetMessage(msg)
unfoldable pub set_message : Bytes → Error → Error
set_message msg e = record e { error_class = class_or_general e.error_class; message = msg }

-- SetCode(code)
unfoldable pub set_code : Option Errno → Error → Error
set_code code e = record e { error_class = class_or_general e.error_class; code = code }

-- Exception, LogicException and RuntimeException with their message and code
pub data Exception : Type 0 where
  exception logic_exception runtime_exception : Bytes → Option Errno → Exception

-- THROW_ERROR(e): `none` is to go on
unfoldable pub throw_error : Error → Option Exception
throw_error e = elim e.error_class [
  | none ↦ none
  | some general_error ↦ some (exception e.message e.code)
  | some logic_error ↦ some (logic_exception e.message e.code)
  | some runtime_error ↦ some (runtime_exception e.message e.code)
]

-- What a SetError function does with a code: it sets the error with a class, it fails an
-- `assert`, or it does nothing.
pub data Verdict : Type 0 where
  sets : ErrorClass → Verdict
  asserts does_nothing : Verdict

-- The functions of the socket interface that have a SetError function.
pub data Call : Type 0 where
  select_call open_call close_call shutdown_call bind_call connect_call listen_call : Call
  accept_call send_call receive_call name_call control_call option_call : Call

-- Select::SetError
abbrev pub classify_select : Errno → Verdict
classify_select x = elim x [
  | ebadf ↦ sets logic_error
  | einval ↦ sets logic_error
  | enomem ↦ sets runtime_error
  | _ ↦ sets general_error
]

-- Open::SetError
abbrev pub classify_open : Errno → Verdict
classify_open x = elim x [
  | eafnosupport ↦ sets logic_error
  | einval ↦ sets logic_error
  | eprotonosupport ↦ sets logic_error
  | eacces ↦ sets runtime_error
  | emfile ↦ sets runtime_error
  | enfile ↦ sets runtime_error
  | enobufs ↦ sets runtime_error
  | enomem ↦ sets runtime_error
  | _ ↦ sets general_error
]

-- Close::SetError
abbrev pub classify_close : Errno → Verdict
classify_close x = elim x [
  | ebadf ↦ sets logic_error
  | eintr ↦ sets runtime_error
  | eio ↦ sets runtime_error
  | _ ↦ sets general_error
]

-- Shutdown::SetError
abbrev pub classify_shutdown : Errno → Verdict
classify_shutdown x = elim x [
  | ebadf ↦ sets logic_error
  | einval ↦ sets logic_error
  | enotsock ↦ sets logic_error
  | enotconn ↦ sets runtime_error
  | _ ↦ sets general_error
]

-- Bind::SetError
abbrev pub classify_bind : Errno → Verdict
classify_bind x = elim x [
  | eacces ↦ sets logic_error
  | eaddrinuse ↦ sets logic_error
  | ebadf ↦ sets logic_error
  | einval ↦ sets logic_error
  | enotsock ↦ sets logic_error
  | _ ↦ sets general_error
]

-- Connect::SetError
abbrev pub classify_connect : Errno → Verdict
classify_connect x = elim x [
  | eafnosupport ↦ sets logic_error
  | ealready ↦ sets logic_error
  | ebadf ↦ sets logic_error
  | efault ↦ sets logic_error
  | eisconn ↦ sets logic_error
  | enotsock ↦ sets logic_error
  | eprototype ↦ sets logic_error
  | eacces ↦ sets runtime_error
  | eperm ↦ sets runtime_error
  | eaddrinuse ↦ sets runtime_error
  | eaddrnotavail ↦ sets runtime_error
  | enetunreach ↦ sets runtime_error
  | eagain ↦ asserts
  | econnrefused ↦ asserts
  | einprogress ↦ asserts
  | eintr ↦ asserts
  | etimedout ↦ asserts
  | _ ↦ sets general_error
]

-- Send::SetError
abbrev pub classify_send : Errno → Verdict
classify_send x = elim x [
  | eacces ↦ sets logic_error
  | ebadf ↦ sets logic_error
  | edestaddrreq ↦ sets logic_error
  | efault ↦ sets logic_error
  | einval ↦ sets logic_error
  | eisconn ↦ sets logic_error
  | emsgsize ↦ sets logic_error
  | enotconn ↦ sets logic_error
  | enotsock ↦ sets logic_error
  | eopnotsupp ↦ sets logic_error
  | econnreset ↦ sets runtime_error
  | enobufs ↦ sets runtime_error
  | enomem ↦ sets runtime_error
  | eagain ↦ asserts
  | eintr ↦ asserts
  | epipe ↦ asserts
  | _ ↦ sets general_error
]

-- Receive::SetError
abbrev pub classify_receive : Errno → Verdict
classify_receive x = elim x [
  | ebadf ↦ sets logic_error
  | efault ↦ sets logic_error
  | einval ↦ sets logic_error
  | enotconn ↦ sets logic_error
  | enotsock ↦ sets logic_error
  | econnrefused ↦ sets runtime_error
  | enomem ↦ sets runtime_error
  | eagain ↦ asserts
  | eintr ↦ asserts
  | _ ↦ sets general_error
]

-- Name::SetError
abbrev pub classify_name : Errno → Verdict
classify_name x = elim x [
  | ebadf ↦ sets logic_error
  | efault ↦ sets logic_error
  | einval ↦ sets logic_error
  | enotsock ↦ sets logic_error
  | enotconn ↦ sets logic_error
  | enobufs ↦ sets runtime_error
  | _ ↦ sets general_error
]

-- Control::SetError
abbrev pub classify_control : Errno → Verdict
classify_control x = elim x [
  | ebadf ↦ sets logic_error
  | einval ↦ sets logic_error
  | eacces ↦ sets runtime_error
  | eagain ↦ sets runtime_error
  | efault ↦ sets runtime_error
  | enolck ↦ sets runtime_error
  | _ ↦ sets general_error
]

-- Option::SetError
abbrev pub classify_option : Errno → Verdict
classify_option x = elim x [
  | ebadf ↦ sets logic_error
  | efault ↦ sets logic_error
  | einval ↦ sets logic_error
  | enoprotoopt ↦ sets logic_error
  | enotsock ↦ sets logic_error
  | _ ↦ sets general_error
]

-- The SetError function of each call; those of Listen and Accept have an empty body.
unfoldable pub classify : Call → Errno → Verdict
classify select_call x = classify_select x
classify open_call x = classify_open x
classify close_call x = classify_close x
classify shutdown_call x = classify_shutdown x
classify bind_call x = classify_bind x
classify connect_call x = classify_connect x
classify listen_call x = does_nothing
classify accept_call x = does_nothing
classify send_call x = classify_send x
classify receive_call x = classify_receive x
classify name_call x = classify_name x
classify control_call x = classify_control x
classify option_call x = classify_option x

-- SET_ERROR, SET_LOGIC_ERROR and SET_RUNTIME_ERROR: `none` is the null pointer
unfoldable pub set_error_of : ErrorClass → Bytes → Option Errno → Option Error → Option Error
unfolding set_classified
set_error_of cls msg code none = none
set_error_of cls msg code (some e) = some (set_classified cls msg code e)

-- SetError(e, msg, code) of a call
unfoldable pub set_error : Call → Bytes → Errno → Option Error → Outcome (Option Error)
unfolding classify set_error_of
set_error c msg x e = elim (classify c x) [
  | sets cls ↦ ok (set_error_of cls msg (some x) e)
  | asserts ↦ fault aborted
  | does_nothing ↦ ok e
]

-- Interrupted(code)
unfoldable pub interrupted : Errno → Bool
interrupted x = elim x [ eintr ↦ true | _ ↦ false ]

-- WouldBlock(code), where EWOULDBLOCK is EAGAIN
unfoldable pub would_block : Errno → Bool
would_block x = elim x [ eagain ↦ true | _ ↦ false ]

-- InProgress(code)
unfoldable pub in_progress : Errno → Bool
in_progress x = elim x [ einprogress ↦ true | _ ↦ false ]
