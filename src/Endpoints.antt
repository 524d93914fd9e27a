-- ===== src/Endpoints.antt =====
-- The sockets that the programs open: `wc_tcp_open_listener` of src/server_tcp.c, `wc_uds_open_listener` of
-- src/server_uds.c, `wc_threaded_uds_open_listener` of src/server_uds_threaded.c, and the connecting of
-- src/main_client.c. What the system calls return is an argument; the result of a call that is not
-- reached is not looked at.
pub mod Closed
pub mod Plain
use wire_command_c.Common.{
  ℕ, suc, Bool, true, false, Option, none, some, List, [], ◌∷◌, ◌==◌, ◌||◌, if◌then◌else◌, leb,
  length, Status, ok, fail, Errno, einval, enoent, enametoolong, Outcome, value, error, Bytes,
  bytes, is_null,
}

-- What an opening returns, with the descriptors that it has opened and closed, and how often it has called
-- `unlink()` on the path.
pub record Opened : Type 0 where
  pub result : Outcome ℕ
  pub opened : List ℕ
  pub closed : List ℕ
  pub unlinks : ℕ

-- Nothing was opened.
abbrev pub refused : Errno → Opened
refused e = record { result = error e; opened = []; closed = []; unlinks = 0 }

-- The descriptor is closed, and `errno` is that of the call that failed.
abbrev pub given_up : ℕ → ℕ → Errno → Opened
given_up fd unlinks e = record {
  result = error e;
  opened = fd ∷ [];
  closed = fd ∷ [];
  unlinks = unlinks;
}

abbrev pub kept : ℕ → ℕ → Opened
kept fd unlinks = record { result = value fd; opened = fd ∷ []; closed = []; unlinks = unlinks }

-- `a == -1 || b == -1`, as the status of the first call that fails.
abbrev pub and_then : Status → Status → Status
and_then (fail e) s = fail e
and_then ok s = s

-- `unlink(path) == -1 && errno != ENOENT` is a failure.
abbrev pub or_missing : Status → Status
or_missing ok = ok
or_missing (fail enoent) = ok
or_missing (fail e) = fail e

-- The size of `sun_path` on Linux.
abbrev pub path_size : ℕ
path_size = 108

-- What `inet_pton()` does: it converts the text, or the text is no address, or it fails.
pub data Converted : Type 0 where
  converted not_an_address : Converted
  conversion_failed : Errno → Converted

-- What the calls return: each program makes some of them.
pub record Calls : Type 0 where
  pub inet_pton : Converted
  pub socket : Outcome ℕ
  pub setsockopt : Status
  pub nonblocking : Status
  pub unlink : Status
  pub bind : Status
  pub listen : Status
  pub connect : Status

-- What follows `socket()`.
abbrev pub with_socket : Outcome ℕ → (ℕ → Opened) → Opened
with_socket (error e) next = refused e
with_socket (value fd) next = next fd

-- What follows `inet_pton()`.
abbrev pub with_address : Converted → Opened → Opened
with_address converted next = next
with_address not_an_address next = refused einval
with_address (conversion_failed e) next = refused e

-- The descriptor is kept if the calls have worked.
abbrev pub if_ok : Status → ℕ → ℕ → Opened
if_ok ok fd unlinks = kept fd unlinks
if_ok (fail e) fd unlinks = given_up fd unlinks e

-- `wc_tcp_open_listener`
unfoldable pub open_tcp_listener : Calls → Option Bytes → ℕ → Opened
open_tcp_listener calls bind_address port =
    if is_null bind_address || (length (bytes bind_address) == 0 || port == 0)
    then refused einval
    else with_address calls.inet_pton (
        with_socket calls.socket (λ fd.
          if_ok
            (and_then calls.setsockopt
              (and_then calls.nonblocking (and_then calls.bind calls.listen)))
            fd 0))

-- The calls of `wc_uds_open_listener` behind `unlink()`: when they fail, the path is unlinked again.
abbrev pub bound_to_path : Status → ℕ → Opened
bound_to_path ok fd = kept fd 1
bound_to_path (fail e) fd = given_up fd 2 e

abbrev pub after_unlink : Calls → ℕ → Status → Opened
after_unlink calls fd (fail e) = given_up fd 1 e
after_unlink calls fd ok = bound_to_path (and_then calls.bind calls.listen) fd

abbrev pub after_nonblocking : Calls → ℕ → Status → Opened
after_nonblocking calls fd (fail e) = given_up fd 0 e
after_nonblocking calls fd ok = after_unlink calls fd (or_missing calls.unlink)

-- `wc_uds_open_listener`
unfoldable pub open_uds_listener : Calls → Option Bytes → Opened
open_uds_listener calls socket_path =
    if is_null socket_path
      || (length (bytes socket_path) == 0 || leb path_size (length (bytes socket_path)))
    then refused enametoolong
    else with_socket calls.socket (λ fd. after_nonblocking calls fd calls.nonblocking)

-- `wc_threaded_uds_open_listener`, written once more in the source
unfoldable pub open_threaded_listener : Calls → Option Bytes → Opened
open_threaded_listener calls socket_path =
    if is_null socket_path
      || (length (bytes socket_path) == 0 || leb path_size (length (bytes socket_path)))
    then refused enametoolong
    else with_socket calls.socket (λ fd. after_nonblocking calls fd calls.nonblocking)

-- `wc_client_connect_uds`
unfoldable pub connect_uds : Calls → Bytes → Opened
connect_uds calls socket_path =
    if length socket_path == 0 || leb path_size (length socket_path)
    then refused enametoolong
    else with_socket calls.socket (λ fd. if_ok calls.connect fd 0)

-- `wc_client_connect_tcp`
unfoldable pub connect_tcp : Calls → Opened
connect_tcp calls =
    with_address calls.inet_pton (with_socket calls.socket (λ fd. if_ok calls.connect fd 0))
