-- ===== src/Clients/Errors.antt =====
-- sdk/errors/errors.go: the error classes, and the tests of a library's error. Such an error is what
-- errors.Is and errors.As find in it, and its text in lower case.
use tcg.Common.{
  String, Bool, true, false, ◌||◌, Option, none, some, is_some, contains, if◌then◌else◌,
}

pub data Sentinel : Type 0 where
  permanent_error transient_error gateway synchronizer : Sentinel
  unauthorized undecided not_configured not_found : Sentinel

-- The class that the text of a sentinel wraps.
unfoldable pub wraps : Sentinel → Option Sentinel
wraps gateway = some transient_error
wraps synchronizer = some transient_error
wraps unauthorized = some permanent_error
wraps undecided = some permanent_error
wraps not_configured = some permanent_error
wraps not_found = some permanent_error
wraps _ = none

pub data Errno : Type 0 where
  eaddrinuse econnaborted econnrefused econnreset etimedout : Errno
  wsaeaddrinuse wsaeconnaborted wsaeconnrefused wsaeconnreset wsaetimedout : Errno

-- `dns` is none where errors.As finds no net.DNSError, and else its IsNotFound.
pub record Foreign : Type 0 where
  pub has_errno : Errno → Bool
  pub dns : Option Bool
  pub canceled : Bool
  pub deadline_exceeded : Bool
  pub lower_text : String

-- An error of the clients: `fmt.Errorf("%w: %v", ErrX, text)`, or one of a library.
pub data Error : Type 0 where
  wrapped : Sentinel → String → Error
  foreign : Foreign → Error

-- errors.Is(err, ErrTransient), through the chain of an error.
unfoldable pub sentinel_is_transient : Sentinel → Bool
unfolding wraps
sentinel_is_transient transient_error = true
sentinel_is_transient s = elim (wraps s) [ some transient_error ↦ true | _ ↦ false ]

unfoldable pub is_transient : Error → Bool
unfolding sentinel_is_transient
is_transient (wrapped s text) = sentinel_is_transient s
is_transient (foreign e) = false

unfoldable pub is_unauthorized : Error → Bool
is_unauthorized (wrapped unauthorized text) = true
is_unauthorized _ = false

unfoldable pub is_error_dns : Foreign → Bool
is_error_dns e = is_some e.dns

-- `windows` is `runtime.GOOS == "windows"`.
module _ (windows : Bool) where
  unfoldable pub is_error_address_in_use : Foreign → Bool
  is_error_address_in_use e = e.has_errno (if windows then wsaeaddrinuse else eaddrinuse)

  unfoldable pub is_error_connection_aborted : Foreign → Bool
  is_error_connection_aborted e = e.has_errno (if windows then wsaeconnaborted else econnaborted)

  unfoldable pub is_error_connection_refused : Foreign → Bool
  is_error_connection_refused e = e.has_errno (if windows then wsaeconnrefused else econnrefused)

  unfoldable pub is_error_connection_reset : Foreign → Bool
  is_error_connection_reset e = e.has_errno (if windows then wsaeconnreset else econnreset)

  unfoldable pub is_error_connection : Foreign → Bool
  unfolding is_error_connection_aborted is_error_connection_refused is_error_connection_reset
  is_error_connection e =
      is_error_connection_aborted e
      || (is_error_connection_refused e || is_error_connection_reset e)

  unfoldable pub is_error_timed_out : Foreign → Bool
  unfolding contains
  is_error_timed_out e =
      e.has_errno (if windows then wsaetimedout else etimedout)
      || (contains e.lower_text "deadline" || contains e.lower_text "timeout")

  -- What the clients test of the error of a login.
  unfoldable pub is_error_network : Foreign → Bool
  unfolding is_error_dns is_error_connection is_error_timed_out
  is_error_network e = is_error_dns e || (is_error_connection e || is_error_timed_out e)

unfoldable pub is_error_no_such_host : Foreign → Bool
is_error_no_such_host e = elim e.dns [ none ↦ false | some missing ↦ missing ]
