-- ===== src/Osc/Examples.antt =====
-- The server at work with two callbacks.
use ohmic_bridge.Prelude.{
  ℕ, zero, suc, ◌≡◌, refl, sym, append-nil, ◌↔◌, ◌==◌, if◌then◌else◌, true, false, Option, none,
  some, List, [], ◌∷◌, text_eq, codes, Outcome, returned, raised, value_error,
}
use ohmic_bridge.Constants.{osc_response_port}
use ohmic_bridge.Osc.Pattern.{glob}
use ohmic_bridge.Osc.Pattern.Meaning.{Matches, glob_iff}
use ohmic_bridge.Osc.Server.{
  Addr, Sent, World, Reply, tuple, dgram, Packet, message, Library, get_callback, process_message,
  process, would_block, serve, parse_bundle, process_decoded, process_packet, dispatch, answer,
}
use ohmic_bridge.Osc.Server.Sends.{Adds, Calls, parse_bundle-Adds}
use ohmic_bridge.Osc.Server.Drain.{Contains, served, process-answers}

-- A callback `k` raises if it is 0, and answers with itself and its parameters otherwise.
abbrev call_back : ℕ → List ℕ → World ℕ (Unit {0}) → Outcome (Reply ℕ) × World ℕ (Unit {0})
call_back zero params w = (raised (record { class = value_error; message = [] }), w)
call_back (suc k) params w = (returned (tuple (suc k ∷ params)), w)

-- A datagram is a first number, which picks the address, and the parameters.
abbrev decoded : List ℕ → Option (Packet ℕ)
decoded [] = none
decoded (n ∷ params) = some (message (if n == 0 then codes "/live/a" else codes "/live/b") params)

abbrev lib : Library ℕ ℕ (Unit {0})
lib = record {
  encode = λ address params. dgram params;
  decode = decoded;
  accepts = λ sent out. true;
  re_match = λ pattern address. returned false;
  call = call_back;
}

abbrev client : Addr
client = record { host = codes "10.0.0.2"; port = 50000 }

abbrev world : World ℕ (Unit {0})
world = record {
  remote_addr = record { host = codes "127.0.0.1"; port = 11003 };
  response_port = 11003;
  callbacks = (codes "/live/a", 0) ∷ (codes "/live/b", 7) ∷ [];
  sent = [];
  log = [];
  state = tt;
}

abbrev to_client : List ℕ → Sent
to_client payload = record {
  payload = payload;
  to = record { host = codes "10.0.0.2"; port = 11003 };
}

glob_iff_example :
    (glob (codes "/live/*/name") (codes "/live/song/name") ≡ true)
    ↔ Matches (codes "/live/*/name") (codes "/live/song/name")
glob_iff_example = glob_iff (codes "/live/*/name") (codes "/live/song/name")

calls_Adds : (P : Sent → Type 0) → Calls lib P
calls_Adds P zero params w = record {
  response_port = refl;
  more = [];
  sent = sym (append-nil w.sent);
  good = tt;
}
calls_Adds P (suc k) params w = record {
  response_port = refl;
  more = [];
  sent = sym (append-nil w.sent);
  good = tt;
}

parse_bundle-Adds_example :
    Adds
      (λ out. out.to ≡ record { host = codes "10.0.0.2"; port = 11003 })
      world
      (parse_bundle lib (1 ∷ 5 ∷ []) client world).1
parse_bundle-Adds_example =
    parse_bundle-Adds lib (λ out. out.to ≡ record { host = codes "10.0.0.2"; port = 11003 })
      (calls_Adds _) (1 ∷ 5 ∷ []) client world (λ payload. refl)

-- The world at the third datagram's turn.
abbrev turn : World ℕ (Unit {0})
turn = record (served lib (([], client) ∷ (0 ∷ [], client) ∷ []) world) {
  remote_addr = record { host = codes "10.0.0.2"; port = osc_response_port };
}

found : get_callback turn.callbacks (codes "/live/b") ≡ some 7
unfolding serve parse_bundle process_decoded process_packet process_message dispatch get_callback
    text_eq answer
found = refl

-- The first datagram is not a packet, the second one's callback raises; the third is answered.
process-answers_example :
    Contains
      (to_client (7 ∷ 5 ∷ []))
      (process lib (([], client) ∷ (0 ∷ [], client) ∷ (1 ∷ 5 ∷ [], client) ∷ []) would_block world)
unfolding serve parse_bundle process_decoded process_packet process_message dispatch get_callback
    text_eq answer
process-answers_example =
    process-answers lib (calls_Adds _) (([], client) ∷ (0 ∷ [], client) ∷ []) [] would_block world
      (1 ∷ 5 ∷ []) client {w2 = turn} refl found refl refl refl
