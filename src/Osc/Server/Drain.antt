-- ===== src/Osc/Server/Drain.antt =====
-- The loop over the socket: a datagram that cannot be handled does not keep another from its answer.
use ohmic_bridge.Prelude.{
  ℕ, ◌≡◌, refl, sym, subst, ap, ◌∙◌, true, some, List, [], ◌∷◌, ◌++◌, append_assoc, append-nil,
  Text, returned, raised,
}
use ohmic_bridge.Constants.{osc_response_port}
use ohmic_bridge.Osc.Server.{
  Addr, Sent, World, tuple, dgram, message, process_decoded, Library, Ended, get_callback, deliver,
  send, reply, answer, process_message, process_packet, dispatch, parse_bundle, settle, serve,
  stopped, process, SocketError, conn_reset, would_block, other_errno,
}
use ohmic_bridge.Osc.Server.Sends.{Calls, parse_bundle-Adds}

-- Only more is sent.
abbrev pub Grows : {K S : Type 0} → World K S → World K S → Type 0
Grows w w' = (more : List Sent) × (w'.sent ≡ w.sent ++ more)

abbrev pub Contains : {K S : Type 0} → Sent → World K S → Type 0
Contains out w = (before after : List Sent) × (w.sent ≡ before ++ out ∷ after)

module _ {A K S : Type 0} (lib : Library A K S) where
  -- The world that a list of datagrams leaves.
  abbrev pub served : List (List ℕ × Addr) → World K S → World K S
  served [] w = w
  served (d ∷ rest) w = served rest (serve lib d w)

  process-append :
      (ds es : List (List ℕ × Addr)) (stop : SocketError) (w : World K S)
      → process lib (ds ++ es) stop w ≡ process lib es stop (served ds w)
  unfolding process
  process-append [] es stop w = refl
  process-append (d ∷ ds) es stop w = process-append ds es stop (serve lib d w)

  Contains-grown : (out : Sent) (w w' : World K S) → Contains out w → Grows w w' → Contains out w'
  Contains-grown out w w' (before, after, e) (more, f) =
      (before, after ++ more, f ∙ ap (λ l. l ++ more) e ∙ append_assoc before (out ∷ after) more)

  settled : (w : World K S) (r : Ended K S) → Grows w r.1 → Grows w (settle lib r)
  settled w (returned u, w') g = g
  settled w (raised e, w') g = g

  -- The callbacks only add to what is sent.
  module _ (calls : Calls lib (λ out. Unit {0})) where
    serve-Grows : (d : List ℕ × Addr) (w : World K S) → Grows w (serve lib d w)
    unfolding serve
    serve-Grows (received, from) w =
        let w1 : World K S = record w {
          remote_addr = record { host = from.host; port = osc_response_port };
        } in
        let p = parse_bundle-Adds lib (λ out. Unit {0}) calls received from w1 (λ payload. tt) in
        settled w (parse_bundle lib received from w1) (p.more, p.sent)

    process-Grows :
        (ds : List (List ℕ × Addr)) (stop : SocketError) (w : World K S)
        → Grows w (process lib ds stop w)
    unfolding process stopped
    process-Grows [] conn_reset w = ([], sym (append-nil w.sent))
    process-Grows [] would_block w = ([], sym (append-nil w.sent))
    process-Grows [] other_errno w = ([], sym (append-nil w.sent))
    process-Grows (d ∷ ds) stop w =
        let (more, e) = serve-Grows d w in
        let (others, f) = process-Grows ds stop (serve lib d w) in
        (more ++ others, f ∙ ap (λ l. l ++ others) e ∙ append_assoc w.sent more others)

    -- A datagram anywhere in the queue is answered, whatever the datagrams before and behind it do: if
    -- it holds a message to an address that is registered when its turn comes, and the callback
    -- returns a tuple that can be encoded and that the socket takes, then the encoded reply has been
    -- sent, to the host of the sender at the response port, when `process` is done.
    pub process-answers :
        (ds es : List (List ℕ × Addr)) (stop : SocketError) (w : World K S) (received : List ℕ)
        (from : Addr) {address : Text} {params : List A} {k : K} {rv : List A} {w2 : World K S}
        {d : List ℕ}
        → let w1 = record (served ds w) {
          remote_addr = record { host = from.host; port = osc_response_port };
        } in
          lib.decode received ≡ some (message address params)
          → get_callback w1.callbacks address ≡ some k
          → lib.call k params w1 ≡ (returned (tuple rv), w2)
          → lib.encode address rv ≡ dgram d
          → lib.accepts w2.sent
              (record { payload = d; to = record { host = from.host; port = w2.response_port } })
            ≡ true
          → Contains
              (record { payload = d; to = record { host = from.host; port = w2.response_port } })
              (process lib (ds ++ (received, from) ∷ es) stop w)
    unfolding process serve parse_bundle process_decoded process_packet process_message dispatch
        answer reply send deliver
    process-answers ds es stop w received from {w2 = w2} {d = d} decoded found called encoded
          taken =
        let out : Sent = record {
          payload = d;
          to = record { host = from.host; port = w2.response_port };
        } in
        let turn : serve lib (received, from) (served ds w)
            ≡ record w2 { sent = w2.sent ++ out ∷ [] } =
          rw (decoded, found, called, encoded, taken) refl in
        subst (Contains out) (sym (process-append ds ((received, from) ∷ es) stop w)) (
          Contains-grown out (serve lib (received, from) (served ds w))
            (process lib es stop (serve lib (received, from) (served ds w)))
            (w2.sent, [], ap (λ (x : World K S). x.sent) turn)
            (process-Grows es stop (serve lib (received, from) (served ds w))))
