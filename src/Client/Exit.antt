-- ===== src/Client/Exit.antt =====
-- What the exit status of the client says.
use wire_command_c.Common.{
  ℕ, ◌≡◌, ◌≢◌, refl, ◌∙◌, ap, arith, ◌⊎◌, inl, inr, Bool-cases, Option, none, some, List, [], ◌∷◌,
  All, ◌==◌, length, take, take_all, Status, ok, fail, einval, Outcome, value, error, Bytes, bytes,
}
use wire_command_c.Buffer.{Buffer}
use wire_command_c.Buffer.Contents.{IsRealloc, contents}
use wire_command_c.Protocol.{RequestType, request_pwd}
use wire_command_c.Protocol.Frame.{request_frame}
use wire_command_c.Protocol.Encode.{RequestEncoded, encode_request_lem}
use wire_command_c.Sockets.{Written, returned, blocked, write_all}
use wire_command_c.Sockets.Laws.{WrittenOf, write_all-WrittenOf}
use wire_command_c.Endpoints.{Opened}
use wire_command_c.Endpoints.Closed.{IsTight, connect_tcp-IsTight, connect_uds-IsTight}
use wire_command_c.Client.Options.{
  Options, Command, parse_command, no_argument, one_argument, with_type, with_options,
  OptionsResult, parse_options, default_options, parse_arguments,
}
use wire_command_c.Client.Whole.{Begins, taken_from, IsSoundRead, receive_response-Begins}
use wire_command_c.Client.Receive.{receive_response}
use wire_command_c.Client.Main.{
  MainCalls, Ended, no_request, closing, after_close, after_receive, after_send, connect,
  after_connect, after_sigpipe, after_encode, after_arguments, run_client,
}

-- Everything has worked: the request of the command line was sent whole, the bytes taken from the socket
-- begin with a response frame, and the whole text of that frame was printed.
pub record Succeeded (calls : MainCalls) (parsed : Option Command) (r : Ended) : Type 0 where
  pub command : Command
  pub accepted : parsed ≡ some command
  pub sent_all : r.sent ≡ request_frame command.type (bytes command.argument)
  pub printed_all : Begins r.printed (taken_from 0 calls.reads)

-- The client has not ended, or has closed what it has opened; and it has not exited with 0, or everything
-- has worked.
abbrev pub IsExit : MainCalls → Option Command → Ended → Type 0
IsExit calls parsed r =
    ((r.status ≡ none) ⊎ (r.closed ≡ r.opened)) × ((r.status ≢ some 0) ⊎ Succeeded calls parsed r)

after_close-one : (s : Status) → some (after_close s 1) ≢ some 0
after_close-one ok = λ e. cc
after_close-one (fail x) = λ e. cc

-- Calls that have failed.
failed-IsExit :
    (calls : MainCalls) (parsed : Option Command) (r : Ended)
    → r.closed ≡ r.opened
    → r.status ≢ some 0
    → IsExit calls parsed r
failed-IsExit calls parsed r c s = (inr c, inl s)

after_receive-IsExit :
    (calls : MainCalls) (command : Command) (fd : ℕ) (sent : Bytes) (w : Written)
    → All IsSoundRead calls.reads
    → sent ≡ request_frame command.type (bytes command.argument)
    → receive_response calls.prints calls.reads ≡ w
    → IsExit calls (some command) (after_receive calls.close fd sent w)
unfolding after_receive
after_receive-IsExit calls command fd sent (returned ok printed) law e p = (
  inr refl,
  inr (record {
    command = command;
    accepted = refl;
    sent_all = e;
    printed_all = receive_response-Begins calls.prints calls.reads printed law p;
  }),
)
after_receive-IsExit calls command fd sent (returned (fail x) printed) law e p =
    failed-IsExit calls (some command) (closing calls.close fd sent printed 1) refl
      (after_close-one calls.close)
after_receive-IsExit calls command fd sent (blocked printed) law e p = (inl refl, inl (λ q. cc))

after_send-IsExit :
    (calls : MainCalls) (command : Command) (fd : ℕ) (w : Written)
    → All IsSoundRead calls.reads
    → WrittenOf (request_frame command.type (bytes command.argument)) w
    → IsExit calls (some command) (after_send calls fd w)
unfolding after_send
after_send-IsExit calls command fd (returned ok sent) law e =
    after_receive-IsExit calls command fd sent _ law e refl
after_send-IsExit calls command fd (returned (fail x) sent) law e =
    failed-IsExit calls (some command) (closing calls.close fd sent [] 1) refl
      (after_close-one calls.close)
after_send-IsExit calls command fd (blocked sent) law e = (inl refl, inl (λ q. cc))

connect-IsTight : (calls : MainCalls) (o : Options) → IsTight (connect calls.endpoint o)
connect-IsTight calls o = elim (Bool-cases o.use_tcp) [
  | inl e ↦ rw e (connect_tcp-IsTight calls.endpoint)
  | inr e ↦ rw e (connect_uds-IsTight calls.endpoint o.socket_path)
]

after_connect-IsExit :
    (calls : MainCalls) (command : Command) (request : Buffer) (o : Opened) (x : Outcome ℕ)
    → All IsSoundRead calls.reads
    → o.result ≡ x
    → IsTight o
    → contents request ≡ request_frame command.type (bytes command.argument)
    → IsExit calls (some command) (after_connect calls request o x)
unfolding after_connect
after_connect-IsExit calls command request o (error err) law e tight holds =
    let c : o.closed ≡ o.opened = rw e at tight in (inr c, inl (λ q. cc))
after_connect-IsExit calls command request o (value fd) law e tight holds =
    after_send-IsExit calls command fd _ law
      (written (write_all-WrittenOf calls.writes request.block request.length))
  where
    written :
        ((request.block ≡ none)
            × (request.length ≢ 0)
            × (write_all calls.writes request.block request.length ≡ returned (fail einval) []))
          ⊎ WrittenOf (contents request) (write_all calls.writes request.block request.length)
        → WrittenOf
            (request_frame command.type (bytes command.argument))
            (write_all calls.writes request.block request.length)
    written (inl (n, z, more)) =
        rw more (request_frame command.type (bytes command.argument), refl, omega arith)
    written (inr w) = rw holds at w

-- The length that goes with the argument is the argument's.
abbrev IsGiven : Command → Type 0
IsGiven c = c.argument_length ≡ length (bytes c.argument)

abbrev AllGiven : Option Command → Type 0
AllGiven none = Unit
AllGiven (some c) = IsGiven c

no_argument-AllGiven :
    (o : Options) (type : RequestType) (rest : List Bytes) → AllGiven (no_argument o type rest)
no_argument-AllGiven o type [] = refl
no_argument-AllGiven o type (a ∷ rest) = tt

one_argument-AllGiven :
    (o : Options) (type : RequestType) (rest : List Bytes) → AllGiven (one_argument o type rest)
one_argument-AllGiven o type [] = tt
one_argument-AllGiven o type (a ∷ []) = refl
one_argument-AllGiven o type (a ∷ b ∷ rest) = tt

with_type-AllGiven :
    (o : Options) (rest : List Bytes) (x : Outcome RequestType) → AllGiven (with_type o rest x)
with_type-AllGiven o rest (error e) = tt
with_type-AllGiven o rest (value type) = elim (Bool-cases (type == request_pwd)) [
  | inl e ↦ rw e (no_argument-AllGiven o type rest)
  | inr e ↦ rw e (one_argument-AllGiven o type rest)
]

with_options-AllGiven : (r : OptionsResult) → AllGiven (with_options r)
with_options-AllGiven none = tt
with_options-AllGiven (some (o, [])) = tt
with_options-AllGiven (some (o, name ∷ rest)) = with_type-AllGiven o rest (parse_command name)

parse_arguments-AllGiven : (arguments : List Bytes) → AllGiven (parse_arguments arguments)
unfolding parse_arguments
parse_arguments-AllGiven arguments = with_options-AllGiven (parse_options default_options arguments)

after_encode-IsExit :
    (calls : MainCalls) (command : Command) (x : Status × Buffer)
    → All IsSoundRead calls.reads
    → IsGiven command
    → RequestEncoded calls.realloc₁ calls.realloc₂ no_request command.type command.argument
        command.argument_length x
    → IsExit calls (some command) (after_encode calls command x)
unfolding after_encode after_sigpipe
after_encode-IsExit calls command (fail e, request) law given enc = (inr refl, inl (λ q. cc))
after_encode-IsExit calls command (ok, request) law given (inr (e, bad, same, why)) = absurd (cc)
after_encode-IsExit calls command (ok, request) law given (inl (same, t, small, l, x)) =
    sigpipe calls.ignore_sigpipe
  where
    sigpipe : (s : Status) → IsExit calls (some command) (after_sigpipe calls command request s)
    sigpipe (fail e) = (inr refl, inl (λ q. cc))
    sigpipe ok =
        let whole : take command.argument_length (bytes command.argument) ≡ bytes command.argument =
          take_all command.argument_length (bytes command.argument) (omega (arith, given)) in
        after_connect-IsExit calls command request (connect calls.endpoint command.options)
          (connect calls.endpoint command.options).result law refl
          (connect-IsTight calls command.options) (x.holds ∙ ap (request_frame command.type) whole)

-- Whatever the system calls return, `read()` giving bytes: when the client ends, it has closed every descriptor that it has
-- opened; and it exits with 0 only if its command line is well formed, exactly the frame of the request
-- that it asks for was written to the socket, the bytes taken from the socket begin with a response frame, and the whole
-- text of that frame was printed.
pub run_client-IsExit :
    (calls : MainCalls) (arguments : List Bytes)
    → IsRealloc calls.realloc₁
    → IsRealloc calls.realloc₂
    → All IsSoundRead calls.reads
    → IsExit calls (parse_arguments arguments) (run_client calls arguments)
unfolding run_client
run_client-IsExit calls arguments law₁ law₂ law =
    parsed (parse_arguments arguments) (parse_arguments-AllGiven arguments)
  where
    parsed : (p : Option Command) → AllGiven p → IsExit calls p (after_arguments calls p)
    parsed none given = (inr refl, inl (λ q. cc))
    parsed (some command) given = after_encode-IsExit calls command _ law given (
        encode_request_lem calls.realloc₁ calls.realloc₂ law₁ law₂ no_request (omega arith)
          command.type command.argument command.argument_length (inr (omega (arith, given))))
