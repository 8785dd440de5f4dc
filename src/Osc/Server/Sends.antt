-- ===== src/Osc/Server/Sends.antt =====
-- What the handling of a packet adds to the datagrams that are sent.
use ohmic_bridge.Prelude.{
  ℕ, ◌≡◌, refl, sym, subst, ap, ◌∙◌, Bool, true, false, Option, none, some, List, [], ◌∷◌, ◌++◌,
  append_assoc, append-nil, All, All-append, Text, Outcome, returned, raised, if◌then◌else◌,
}
use ohmic_bridge.Osc.Pattern.{has_star}
use ohmic_bridge.Osc.Server.{
  Addr, Sent, World, Reply, no_reply, tuple, not_a_tuple, Encoded, bad_arg, build_error, dgram,
  Packet, message, bundle, Packets, no_more, then_packet, Library, Ended, Run, get_callback,
  deliver, send, reply, answer, answer_or_skip, is_skipped, pattern_match, wildcard_loop,
  process_message, process_packet, process_bundle, parse_bundle, and_then, if_matched, logged,
  LogEntry, unknown_address, parse_failed, dispatch, process_decoded,
}

module _ {K S : Type 0} (P : Sent → Type 0) where
  -- The port for replies stays, and of the datagrams only more are sent, each with the property.
  pub record Adds (w w' : World K S) : Type 0 where
    pub response_port : w'.response_port ≡ w.response_port
    pub more : List Sent
    pub sent : w'.sent ≡ w.sent ++ more
    pub good : All P more

  pub Adds-refl : (w : World K S) → Adds w w
  Adds-refl w = record {
    response_port = refl;
    more = [];
    sent = sym (append-nil w.sent);
    good = tt;
  }

  pub Adds-trans : {u v w : World K S} → Adds u v → Adds v w → Adds u w
  Adds-trans {u} {v} {w} p q = record {
    response_port = q.response_port ∙ p.response_port;
    more = p.more ++ q.more;
    sent = q.sent ∙ ap (λ s. s ++ q.more) p.sent ∙ append_assoc u.sent p.more q.more;
    good = All-append P p.more q.more p.good q.good;
  }

module _ {A K S : Type 0} (lib : Library A K S) (P : Sent → Type 0) where
  abbrev pub Calls : Type 0
  Calls = (k : K) (params : List A) (w : World K S) → Adds P w (lib.call k params w).1

  -- The property holds of what goes to an address.
  abbrev pub GoodTo : Addr → Type 0
  GoodTo to = (payload : List ℕ) → P (record { payload = payload; to = to })

  pick-Adds :
      {w : World K S} (b : Bool) (x y : Ended K S)
      → Adds P w x.1
      → Adds P w y.1
      → Adds P w (if b then x else y).1
  pick-Adds true x y p q = p
  pick-Adds false x y p q = q

  logged-Adds : (entry : LogEntry) (w : World K S) → Adds P w (logged entry w)
  logged-Adds entry w = record {
    response_port = refl;
    more = [];
    sent = sym (append-nil w.sent);
    good = tt;
  }

  if_matched-Adds :
      (m : Outcome Bool) (hit miss : Run K S) (v : World K S)
      → Adds P v (hit v).1
      → Adds P v (miss v).1
      → Adds P v (if_matched m hit miss v).1
  if_matched-Adds (raised e) hit miss v p q = Adds-refl P v
  if_matched-Adds (returned true) hit miss v p q = p
  if_matched-Adds (returned false) hit miss v p q = q

  and_then-Adds :
      {w : World K S} (r : Ended K S) (next : Run K S)
      → Adds P w r.1
      → ((w' : World K S) → Adds P w w' → Adds P w' (next w').1)
      → Adds P w (and_then r next).1
  and_then-Adds (raised e, w') next p q = p
  and_then-Adds (returned u, w') next p q = Adds-trans P p (q w' p)

  port-GoodTo :
      (host : Text) {w w' : World K S}
      → Adds P w w'
      → GoodTo (record { host = host; port = w.response_port })
      → GoodTo (record { host = host; port = w'.response_port })
  port-GoodTo host p h =
      subst (λ n. GoodTo (record { host = host; port = n })) (sym p.response_port) h

  deliver-Adds :
      (address : Text) (to : Addr) (d : Encoded) (w : World K S)
      → GoodTo to
      → Adds P w (deliver lib address to d w).1
  unfolding deliver
  deliver-Adds address to (bad_arg e) w h = Adds-refl P w
  deliver-Adds address to build_error w h = record {
    response_port = refl;
    more = [];
    sent = sym (append-nil w.sent);
    good = tt;
  }
  deliver-Adds address to (dgram d) w h =
      pick-Adds (lib.accepts w.sent (record { payload = d; to = to })) _ _
        (record {
          response_port = refl;
          more = record { payload = d; to = to } ∷ [];
          sent = refl;
          good = (h d, tt);
        })
        (record { response_port = refl; more = []; sent = sym (append-nil w.sent); good = tt })

  reply-Adds :
      (address host : Text) (rv : Reply A) (w : World K S)
      → GoodTo (record { host = host; port = w.response_port })
      → Adds P w (reply lib address host rv w).1
  unfolding reply send
  reply-Adds address host no_reply w h = Adds-refl P w
  reply-Adds address host not_a_tuple w h = Adds-refl P w
  reply-Adds address host (tuple rv) w h =
      deliver-Adds address (record { host = host; port = w.response_port }) (lib.encode address rv)
        w h

  module _ (calls : Calls) where
    answer-Adds :
        (address host : Text) (k : K) (params : List A) (w : World K S)
        → GoodTo (record { host = host; port = w.response_port })
        → Adds P w (answer lib address host (lib.call k params w)).1
    unfolding answer
    answer-Adds address host k params w h = go (lib.call k params w) (calls k params w)
      where
        go :
            (r : Outcome (Reply A) × World K S)
            → Adds P w r.1
            → Adds P w (answer lib address host r).1
        go (raised e, w') p = p
        go (returned rv, w') p =
            Adds-trans P p (reply-Adds address host rv w' (port-GoodTo host p h))

    answer_or_skip-Adds :
        (address host : Text) (k : K) (params : List A) (w : World K S)
        → GoodTo (record { host = host; port = w.response_port })
        → Adds P w (answer_or_skip lib address host (lib.call k params w)).1
    unfolding answer_or_skip
    answer_or_skip-Adds address host k params w h = go (lib.call k params w) (calls k params w)
      where
        go :
            (r : Outcome (Reply A) × World K S)
            → Adds P w r.1
            → Adds P w (answer_or_skip lib address host r).1
        go (raised e, w') p = pick-Adds (is_skipped lib e.class) _ _ p p
        go (returned rv, w') p =
            Adds-trans P p (reply-Adds address host rv w' (port-GoodTo host p h))

    wildcard_loop-Adds :
        (host pattern : Text) (params : List A) (entries : List (Text × K)) (w : World K S)
        → GoodTo (record { host = host; port = w.response_port })
        → Adds P w (wildcard_loop lib pattern params host entries w).1
    unfolding wildcard_loop
    wildcard_loop-Adds host pattern params [] w h = Adds-refl P w
    wildcard_loop-Adds host pattern params ((address, k) ∷ rest) w h =
        let others : (w' : World K S)
            → Adds P w w'
            → Adds P w' (wildcard_loop lib pattern params host rest w').1 =
          λ w' p. wildcard_loop-Adds host pattern params rest w' (port-GoodTo host p h) in
        if_matched-Adds (pattern_match lib pattern address) _ _ w
          (and_then-Adds _ _ (answer_or_skip-Adds address host k params w h) others)
          (others w (Adds-refl P w))

    dispatch-Adds :
        (found : Option K) (address : Text) (params : List A) (from : Addr) (w : World K S)
        → GoodTo (record { host = from.host; port = w.response_port })
        → Adds P w (dispatch lib found address params from w).1
    unfolding dispatch
    dispatch-Adds (some k) address params from w h = answer-Adds address from.host k params w h
    dispatch-Adds none address params from w h =
        pick-Adds (has_star address) _ _
          (wildcard_loop-Adds from.host address params w.callbacks w h)
          (logged-Adds (unknown_address address) w)

    mutual
      unfolding process_packet process_message

      process_packet-Adds :
          (p : Packet A) (from : Addr) (w : World K S)
          → GoodTo (record { host = from.host; port = w.response_port })
          → Adds P w (process_packet lib p from w).1
      process_packet-Adds (message address params) from w h =
          dispatch-Adds (get_callback w.callbacks address) address params from w h
      process_packet-Adds (bundle ps) from w h = process_bundle-Adds ps from w h

      process_bundle-Adds :
          (ps : Packets A) (from : Addr) (w : World K S)
          → GoodTo (record { host = from.host; port = w.response_port })
          → Adds P w (process_bundle lib ps from w).1
      process_bundle-Adds no_more from w h = Adds-refl P w
      process_bundle-Adds (then_packet p ps) from w h =
          and_then-Adds _ _ (process_packet-Adds p from w h)
            (λ w' more. process_bundle-Adds ps from w' (port-GoodTo from.host more h))

    -- If the callbacks only add datagrams that have a property, and every datagram to the sender's
    -- host at the response port has it, then handling a received datagram, whether it is a message, a
    -- pattern, bundles within bundles or no packet at all, adds only datagrams that have it.
    pub parse_bundle-Adds :
        (received : List ℕ) (from : Addr) (w : World K S)
        → GoodTo (record { host = from.host; port = w.response_port })
        → Adds P w (parse_bundle lib received from w).1
    unfolding parse_bundle process_decoded
    parse_bundle-Adds received from w h = decoded (lib.decode received)
      where
        decoded : (p : Option (Packet A)) → Adds P w (process_decoded lib p from w).1
        decoded none = logged-Adds parse_failed w
        decoded (some p) = process_packet-Adds p from w h
