-- ===== src/Osc/Server.antt =====
-- `OSCServer` of abletonosc/osc_server.py. `World` is the server together with all that the callbacks
-- read and change. What is not the repository's own is a parameter: the decoding and the encoding of
-- datagrams (the package pythonosc), the socket's answer to `sendto`, `re.match` of a pattern with
-- special characters, and what a callback does.
pub mod Sends
pub mod Drain
pub mod Wildcard
use ohmic_bridge.Prelude.{
  ℕ, zero, suc, ◌+◌, ◌≡◌, Bool, true, false, if◌then◌else◌, Option, none, some, List, [], ◌∷◌, ◌++◌,
  Text, text_eq, length, Outcome, returned, raised, Exn, ExnClass, value_error, attribute_error,
  assertion_error,
}
use ohmic_bridge.Constants.{osc_response_port}
use ohmic_bridge.Osc.Pattern.{glob, has_star, is_plain}

pub record Addr : Type 0 where
  pub host : Text
  pub port : ℕ

-- A datagram that `sendto` has been given.
pub record Sent : Type 0 where
  pub payload : List ℕ
  pub to : Addr

pub data LogEntry : Type 0 where
  unknown_address : (address : Text) → LogEntry
  build_failed : (address : Text) → LogEntry
  send_failed : (address : Text) → (size : ℕ) → (to : Addr) → LogEntry
  parse_failed : LogEntry
  processing_failed : Exn → LogEntry
  socket_reset : LogEntry
  socket_failed : LogEntry

-- `K` names the callbacks, and `S` is the state behind them.
pub record World (K : Type 0) (S : Type 0) : Type 0 where
  pub remote_addr : Addr
  pub response_port : ℕ
  pub callbacks : List (Text × K)
  pub sent : List Sent
  pub log : List LogEntry
  pub state : S

-- What a callback returns: `None`, a tuple, or something else.
pub data Reply (A : Type 0) : Type 0 where
  no_reply : Reply A
  tuple : List A → Reply A
  not_a_tuple : Reply A

-- `OscMessageBuilder`: `add_arg` may raise, `build` may raise a `BuildError`.
pub data Encoded : Type 0 where
  bad_arg : Exn → Encoded
  build_error : Encoded
  dgram : List ℕ → Encoded

mutual
  pub data Packet (A : Type 0) : Type 0 where
    message : (address : Text) → (params : List A) → Packet A
    bundle : Packets A → Packet A

  pub data Packets (A : Type 0) : Type 0 where
    no_more : Packets A
    then_packet : Packet A → Packets A → Packets A

-- How `recvfrom` ends the loop.
pub data SocketError : Type 0 where
  conn_reset would_block other_errno : SocketError

pub record Library (A K S : Type 0) : Type 0 where
  pub encode : Text → List A → Encoded
  -- `none` is a `ParseError`.
  pub decode : List ℕ → Option (Packet A)
  -- Does the socket take the datagram, behind those that it has taken?
  pub accepts : List Sent → Sent → Bool
  pub re_match : Text → Text → Outcome Bool
  pub call : K → List A → World K S → Outcome (Reply A) × World K S

-- A call without a value: whether it returns or raises, and the world that it leaves.
abbrev pub Ended : Type 0 → Type 0 → Type 0
Ended K S = Outcome (Unit {0}) × World K S

abbrev pub Run : Type 0 → Type 0 → Type 0
Run K S = World K S → Ended K S

-- `self._callbacks[address] = handler`
unfoldable pub set_callback : {K : Type 0} → List (Text × K) → Text → K → List (Text × K)
set_callback [] address k = (address, k) ∷ []
set_callback (e ∷ m) address k =
    let rest = set_callback m address k in if text_eq e.0 address then (e.0, k) ∷ m else e ∷ rest

unfoldable pub get_callback : {K : Type 0} → List (Text × K) → Text → Option K
get_callback [] address = none
get_callback (e ∷ m) address = if text_eq e.0 address then some e.1 else get_callback m address

module _ {K S : Type 0} where
  unfoldable pub add_handler : Text → K → World K S → World K S
  add_handler address k w = record w { callbacks = set_callback w.callbacks address k }

  unfoldable pub clear_handlers : World K S → World K S
  clear_handlers w = record w { callbacks = [] }

  abbrev pub logged : LogEntry → World K S → World K S
  logged entry w = record w { log = w.log ++ entry ∷ [] }

  -- A test that may raise, and what is done in either case.
  abbrev pub if_matched : Outcome Bool → Run K S → Run K S → Run K S
  if_matched (raised e) hit miss w = (raised e, w)
  if_matched (returned true) hit miss w = hit w
  if_matched (returned false) hit miss w = miss w

  -- One call, and then another unless the first has raised.
  abbrev pub and_then : Ended K S → Run K S → Ended K S
  and_then (raised e, w) next = (raised e, w)
  and_then (returned u, w) next = next w

module _ {A K S : Type 0} (lib : Library A K S) where
  -- `send`, to an address that is given, behind `add_arg` and `build`.
  unfoldable pub deliver : Text → Addr → Encoded → Run K S
  deliver address to (bad_arg e) w = (raised e, w)
  deliver address to build_error w = (returned tt, logged (build_failed address) w)
  deliver address to (dgram d) w =
      let out : Sent = record { payload = d; to = to } in
      if lib.accepts w.sent out
      then (returned tt, record w { sent = w.sent ++ out ∷ [] })
      else (returned tt, logged (send_failed address (length d) to) w)

  unfoldable pub send : Text → List A → Addr → Run K S
  send address params to w = deliver address to (lib.encode address params) w

  -- `send` without an address: to the client that was last heard of.
  unfoldable pub send_update : Text → List A → Run K S
  send_update address params w = send address params w.remote_addr w

  -- What `process_message` does with a callback's return value.
  unfoldable pub reply : Text → Text → Reply A → Run K S
  reply address host no_reply w = (returned tt, w)
  reply address host not_a_tuple w = (raised (record { class = assertion_error; message = [] }), w)
  reply address host (tuple rv) w =
      send address rv (record { host = host; port = w.response_port }) w

  unfoldable pub answer : Text → Text → Outcome (Reply A) × World K S → Ended K S
  answer address host (raised e, w) = (raised e, w)
  answer address host (returned rv, w) = reply address host rv w

  -- The two handlers of the loop over a pattern.
  abbrev pub is_skipped : ExnClass → Bool
  is_skipped value_error = true
  is_skipped attribute_error = true
  is_skipped _ = false

  unfoldable pub answer_or_skip : Text → Text → Outcome (Reply A) × World K S → Ended K S
  answer_or_skip address host (raised e, w) =
      if is_skipped e.class then (returned tt, w) else (raised e, w)
  answer_or_skip address host (returned rv, w) = reply address host rv w

  -- `re.match` of the pattern made from an address.
  unfoldable pub pattern_match : Text → Text → Outcome Bool
  pattern_match pattern address =
      if is_plain pattern then returned (glob pattern address) else lib.re_match pattern address

  unfoldable pub wildcard_loop : Text → List A → Text → List (Text × K) → Run K S
  wildcard_loop pattern params host [] w = (returned tt, w)
  wildcard_loop pattern params host ((address, k) ∷ rest) w =
      if_matched (pattern_match pattern address)
        (λ w.
          and_then (answer_or_skip address host (lib.call k params w))
            (wildcard_loop pattern params host rest))
        (wildcard_loop pattern params host rest) w

  -- `process_message`, by the callback that is registered for the very address, if there is one.
  unfoldable pub dispatch : Option K → Text → List A → Addr → Run K S
  dispatch (some k) address params from w = answer address from.host (lib.call k params w)
  dispatch none address params from w =
      if has_star address
      then wildcard_loop address params from.host w.callbacks w
      else (returned tt, logged (unknown_address address) w)

  unfoldable pub process_message : Text → List A → Addr → Run K S
  process_message address params from w =
      dispatch (get_callback w.callbacks address) address params from w

  unfoldable mutual
    pub process_packet : Packet A → Addr → Run K S
    process_packet (message address params) from w = process_message address params from w
    process_packet (bundle ps) from w = process_bundle ps from w

    pub process_bundle : Packets A → Addr → Run K S
    process_bundle no_more from w = (returned tt, w)
    process_bundle (then_packet p ps) from w =
        and_then (process_packet p from w) (process_bundle ps from)

  unfoldable pub process_decoded : Option (Packet A) → Addr → Run K S
  process_decoded none from w = (returned tt, logged parse_failed w)
  process_decoded (some p) from w = process_packet p from w

  unfoldable pub parse_bundle : List ℕ → Addr → Run K S
  parse_bundle received from w = process_decoded (lib.decode received) from w

  -- The `except Exception` around one datagram.
  abbrev pub settle : Ended K S → World K S
  settle (returned u, w) = w
  settle (raised e, w) = logged (processing_failed e) w

  -- One round of the loop of `process`.
  unfoldable pub serve : List ℕ × Addr → World K S → World K S
  serve (received, from) w = settle (
      parse_bundle received from
        (record w { remote_addr = record { host = from.host; port = osc_response_port } }))

  unfoldable pub stopped : SocketError → World K S → World K S
  stopped conn_reset w = logged socket_reset w
  stopped would_block w = w
  stopped other_errno w = logged socket_failed w

  -- `process`: the datagrams that `recvfrom` gives, and the error that it then raises.
  unfoldable pub process : List (List ℕ × Addr) → SocketError → World K S → World K S
  process [] stop w = stopped stop w
  process (d ∷ rest) stop w = process rest stop (serve d w)
