-- ===== src/Endpoints/Closed.antt =====
-- The descriptors that the openings of Endpoints leave open.
use wire_command_c.Common.{
  ℕ, ◌≡◌, refl, Bool, true, false, Option, [], ◌∷◌, if◌then◌else◌, Status, ok, fail, Errno, einval,
  enametoolong, Outcome, value, error, Bytes,
}
use wire_command_c.Endpoints.{
  Opened, Calls, Converted, converted, not_an_address, conversion_failed, refused, and_then,
  or_missing, with_socket, with_address, if_ok, bound_to_path, after_unlink, after_nonblocking,
  open_tcp_listener, open_uds_listener, open_threaded_listener, connect_uds, connect_tcp,
}

-- A success leaves open the one descriptor that it returns, and a failure none.
abbrev pub IsTight : Opened → Type 0
IsTight o = elim o.result as (λ x. Type 0) [
  | value fd ↦ (o.opened ≡ fd ∷ []) × (o.closed ≡ [])
  | error e ↦ o.closed ≡ o.opened
]

if_ok-IsTight : (s : Status) (fd unlinks : ℕ) → IsTight (if_ok s fd unlinks)
if_ok-IsTight ok fd unlinks = (refl, refl)
if_ok-IsTight (fail e) fd unlinks = refl

after_unlink-IsTight : (calls : Calls) (fd : ℕ) (s : Status) → IsTight (after_unlink calls fd s)
after_unlink-IsTight calls fd (fail e) = refl
after_unlink-IsTight calls fd ok = bound (and_then calls.bind calls.listen)
  where
    bound : (s : Status) → IsTight (bound_to_path s fd)
    bound ok = (refl, refl)
    bound (fail e) = refl

after_nonblocking-IsTight :
    (calls : Calls) (fd : ℕ) (s : Status) → IsTight (after_nonblocking calls fd s)
after_nonblocking-IsTight calls fd (fail e) = refl
after_nonblocking-IsTight calls fd ok = after_unlink-IsTight calls fd (or_missing calls.unlink)

with_socket-IsTight :
    (s : Outcome ℕ) (next : ℕ → Opened)
    → ((fd : ℕ) → IsTight (next fd))
    → IsTight (with_socket s next)
with_socket-IsTight (error e) next law = refl
with_socket-IsTight (value fd) next law = law fd

with_address-IsTight :
    (a : Converted) (next : Opened) → IsTight next → IsTight (with_address a next)
with_address-IsTight converted next law = law
with_address-IsTight not_an_address next law = refl
with_address-IsTight (conversion_failed e) next law = refl

if-IsTight :
    (b : Bool) (e : Errno) (next : Opened) → IsTight next → IsTight (if b then refused e else next)
if-IsTight true e next law = refl
if-IsTight false e next law = law

pub connect_tcp-IsTight : (calls : Calls) → IsTight (connect_tcp calls)
unfolding connect_tcp
connect_tcp-IsTight calls =
    with_address-IsTight calls.inet_pton _
      (with_socket-IsTight calls.socket _ (λ fd. if_ok-IsTight calls.connect fd 0))

pub connect_uds-IsTight : (calls : Calls) (path : Bytes) → IsTight (connect_uds calls path)
unfolding connect_uds
connect_uds-IsTight calls path =
    if-IsTight _ enametoolong _
      (with_socket-IsTight calls.socket _ (λ fd. if_ok-IsTight calls.connect fd 0))

pub open_uds_listener-IsTight :
    (calls : Calls) (path : Option Bytes) → IsTight (open_uds_listener calls path)
unfolding open_uds_listener
open_uds_listener-IsTight calls path = if-IsTight _ enametoolong _ (
    with_socket-IsTight calls.socket _ (λ fd. after_nonblocking-IsTight calls fd calls.nonblocking))

pub open_threaded_listener-IsTight :
    (calls : Calls) (path : Option Bytes) → IsTight (open_threaded_listener calls path)
unfolding open_threaded_listener
open_threaded_listener-IsTight calls path = if-IsTight _ enametoolong _ (
    with_socket-IsTight calls.socket _ (λ fd. after_nonblocking-IsTight calls fd calls.nonblocking))

pub open_tcp_listener-IsTight :
    (calls : Calls) (address : Option Bytes) (port : ℕ)
    → IsTight (open_tcp_listener calls address port)
unfolding open_tcp_listener
open_tcp_listener-IsTight calls address port = if-IsTight _ einval _ (
    with_address-IsTight calls.inet_pton _
      (with_socket-IsTight calls.socket _ (λ fd. if_ok-IsTight _ fd 0)))

-- Whatever the system calls return, each of the three servers' openings and the two connects of the
-- client either returns the descriptor that it has opened and closes none, or fails and has closed
-- what it had opened.
pub openings-IsTight :
    (calls : Calls) (address path : Option Bytes) (port : ℕ) (text : Bytes)
    → IsTight (open_tcp_listener calls address port)
      × IsTight (open_uds_listener calls path)
      × IsTight (open_threaded_listener calls path)
      × IsTight (connect_uds calls text)
      × IsTight (connect_tcp calls)
openings-IsTight calls address path port text = (
  open_tcp_listener-IsTight calls address port,
  open_uds_listener-IsTight calls path,
  open_threaded_listener-IsTight calls path,
  connect_uds-IsTight calls text,
  connect_tcp-IsTight calls,
)
