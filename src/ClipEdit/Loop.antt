-- ===== src/ClipEdit/Loop.antt =====
-- `arrangement_clip_set_loop` of abletonosc/clip.py. A clip of Live is an interface: its attributes, and
-- what Live promises of their setters.
use ohmic_bridge.Prelude.{
  ◌≡◌, refl, subst, ◌∙◌, Bool, true, false, Bool-cases, if◌then◌else◌, inl, inr, List, [], ◌∷◌,
  Outcome, returned, raised, ◌>>=◌, Exn, arith,
}
use ohmic_bridge.Prelude.Order.{WeakOrder}
use ohmic_bridge.ClipEdit.{bad_window}

-- The attributes of a clip that the handler uses. A setter that raises leaves the clip as it was.
pub record LoopOps (V C : Type 0) : Type 0 where
  pub loop_start : C → V
  pub loop_end : C → V
  pub looping : C → Bool
  pub set_loop_start : V → C → Outcome C
  pub set_loop_end : V → C → Outcome C
  pub set_looping : Bool → C → Outcome C

-- The clip behind a write that may raise.
abbrev written : {C : Type 0} → C → Outcome C → Outcome (Unit {0}) × C
written clip (returned clip') = (returned tt, clip')
written clip (raised e) = (raised e, clip)

-- A write to an attribute.
abbrev write : {C : Type 0} → (C → Outcome C) → C → Outcome (Unit {0}) × C
write set clip = written clip (set clip)

-- What follows a write, unless it raised.
abbrev if_written :
    {C : Type 0} → Outcome (Unit {0}) × C → (C → Outcome (Unit {0}) × C) → Outcome (Unit {0}) × C
if_written (returned done, clip) next = next clip
if_written (raised e, clip) next = (raised e, clip)

module _ {V C : Type 0} (l : LoopOps V C) (lt : V → V → Bool) where
  -- The two writes of the region, ordered by direction.
  unfoldable pub set_region : V → V → C → Outcome (Unit {0}) × C
  set_region start stop clip =
      if lt (l.loop_start clip) stop
      then if_written (write (l.set_loop_end stop) clip) (write (l.set_loop_start start))
      else if_written (write (l.set_loop_start start) clip) (write (l.set_loop_end stop))

  -- `looping`, `loop_start` and `loop_end` of a request: `bool(int(...))` and `float(...)`.
  module _ (to_flag : V → Outcome Bool) (to_float : V → Outcome V) where
    unfoldable pub read_loop : List V → Outcome (Bool × V × V)
    read_loop (a ∷ b ∷ c ∷ []) = to_flag a >>= λ looping.
        to_float b >>= λ start. to_float c >>= λ stop. returned (looping, start, stop)
    read_loop [] = raised bad_window
    read_loop (a ∷ []) = raised bad_window
    read_loop (a ∷ b ∷ []) = raised bad_window
    read_loop (a ∷ b ∷ c ∷ d ∷ rest) = raised bad_window

    unfoldable pub set_read : Outcome (Bool × V × V) → C → Outcome (Unit {0}) × C
    set_read (raised e) clip = (raised e, clip)
    set_read (returned (looping, start, stop)) clip =
        if_written (set_region start stop clip) (write (l.set_looping looping))

    unfoldable pub set_loop : List V → C → Outcome (Unit {0}) × C
    set_loop params clip = set_read (read_loop params) clip

-- A clip with a loop from `start` to `stop`.
abbrev pub HasLoop : {V C : Type 0} → LoopOps V C → V → V → Bool → C → Type 0
HasLoop l start stop looping clip =
    (l.loop_start clip ≡ start) × (l.loop_end clip ≡ stop) × (l.looping clip ≡ looping)

-- What a setter does: it writes its attribute and no other if the clip accepts the value, and raises
-- otherwise.
module _ {V C : Type 0} (l : LoopOps V C) where
  abbrev pub Writes : Bool → Outcome C → V → V → Bool → Type 0
  Writes true o start stop looping =
      (clip : C) × (o ≡ returned clip) × HasLoop l start stop looping clip
  Writes false o start stop looping = (e : Exn) × (o ≡ raised e)

-- Live's setters of the region: one whose end is not behind its start is rejected. Nothing is asked of
-- the setter of `looping`.
pub record LoopLaws {V C : Type 0} (l : LoopOps V C) (order : WeakOrder V) : Type 0 where
  pub set_loop_start-Writes :
      (v : V) (c : C)
      → Writes l (order.lt v (l.loop_end c)) (l.set_loop_start v c) v (l.loop_end c) (l.looping c)
  pub set_loop_end-Writes :
      (v : V) (c : C)
      → Writes l (order.lt (l.loop_start c) v) (l.set_loop_end v c) (l.loop_start c) v (l.looping c)

module _ {V C : Type 0} (l : LoopOps V C) (order : WeakOrder V) (laws : LoopLaws l order) where
  -- The clip has a loop that Live accepts.
  abbrev pub IsRegion : C → Type 0
  IsRegion clip = order.lt (l.loop_start clip) (l.loop_end clip) ≡ true

  -- How the writes of a region end.
  abbrev Ends : Bool → V → V → Bool → C → Outcome (Unit {0}) × C → Type 0
  Ends true start stop looping clip (answer, clip') =
      (answer ≡ returned tt) × HasLoop l start stop looping clip'
  Ends false start stop looping clip (answer, clip') =
      ((e : Exn) × (answer ≡ raised e)) × (l.looping clip' ≡ l.looping clip) × IsRegion clip'

  end_accepted :
      (v : V) (c : C)
      → order.lt (l.loop_start c) v ≡ true
      → Writes l true (l.set_loop_end v c) (l.loop_start c) v (l.looping c)
  end_accepted v c h =
      subst (λ b. Writes l b (l.set_loop_end v c) (l.loop_start c) v (l.looping c)) h
        (laws.set_loop_end-Writes v c)

  start_accepted :
      (v : V) (c : C)
      → order.lt v (l.loop_end c) ≡ true
      → Writes l true (l.set_loop_start v c) v (l.loop_end c) (l.looping c)
  start_accepted v c h =
      subst (λ b. Writes l b (l.set_loop_start v c) v (l.loop_end c) (l.looping c)) h
        (laws.set_loop_start-Writes v c)

  end_rejected :
      (v : V) (c : C)
      → order.lt (l.loop_start c) v ≡ false
      → (e : Exn) × (l.set_loop_end v c ≡ raised e)
  end_rejected v c h =
      subst (λ b. Writes l b (l.set_loop_end v c) (l.loop_start c) v (l.looping c)) h
        (laws.set_loop_end-Writes v c)

  start_rejected :
      (v : V) (c : C)
      → order.lt v (l.loop_end c) ≡ false
      → (e : Exn) × (l.set_loop_start v c ≡ raised e)
  start_rejected v c h =
      subst (λ b. Writes l b (l.set_loop_start v c) v (l.loop_end c) (l.looping c)) h
        (laws.set_loop_start-Writes v c)

  -- A region that ends before the clip's starts, starts before the clip's ends.
  before_end :
      (start stop : V) (clip : C)
      → IsRegion clip
      → order.lt (l.loop_start clip) stop ≡ false
      → order.lt start stop ≡ true
      → order.lt start (l.loop_end clip) ≡ true
  before_end start stop clip valid shrinks good =
      let outer = order.split (l.loop_start clip) stop (l.loop_end clip) valid in
      let below : order.lt stop (l.loop_end clip) ≡ true = ground (arith, outer, shrinks) in
      ground (
        arith,
        order.split start (l.loop_end clip) stop good,
        order.asym stop (l.loop_end clip) below,
      )

  grown-Ends :
      (start stop : V) (clip : C)
      → order.lt (l.loop_start clip) stop ≡ true
      → Ends
          (order.lt start stop)
          start
          stop
          (l.looping clip)
          clip
          (if_written (write (l.set_loop_end stop) clip) (write (l.set_loop_start start)))
  grown-Ends start stop clip grows =
      let (c1, e1, (s1, t1, k1)) = end_accepted stop clip grows in
      elim (Bool-cases (order.lt start stop)) [
        | inl good ↦
            let (c2, e2, (s2, t2, k2)) = start_accepted start c1 (rw t1 good) in
            rw (good, e1, e2) (refl, (s2, t2 ∙ t1, k2 ∙ k1))
        | inr bad ↦
            let (e, e2) = start_rejected start c1 (rw t1 bad) in
            rw (bad, e1, e2) ((e, refl), k1, rw (s1, t1) grows)
      ]

  shrunk-Ends :
      (start stop : V) (clip : C)
      → IsRegion clip
      → order.lt (l.loop_start clip) stop ≡ false
      → Ends
          (order.lt start stop)
          start
          stop
          (l.looping clip)
          clip
          (if_written (write (l.set_loop_start start) clip) (write (l.set_loop_end stop)))
  shrunk-Ends start stop clip valid shrinks = elim (Bool-cases (order.lt start stop)) [
    | inl good ↦
        let (c1, e1, (s1, t1, k1)) =
          start_accepted start clip (before_end start stop clip valid shrinks good) in
        let (c2, e2, (s2, t2, k2)) = end_accepted stop c1 (rw s1 good) in
        rw (good, e1, e2) (refl, (s2 ∙ s1, t2, k2 ∙ k1))
    | inr bad ↦ elim (Bool-cases (order.lt start (l.loop_end clip))) [
      | inl fits ↦
          let (c1, e1, (s1, t1, k1)) = start_accepted start clip fits in
          let (e, e2) = end_rejected stop c1 (rw s1 bad) in
          rw (bad, e1, e2) ((e, refl), k1, rw (s1, t1) fits)
      | inr outside ↦
          let (e, e1) = start_rejected start clip outside in rw (bad, e1) ((e, refl), refl, valid)
    ]
  ]

  set_region-Ends :
      (start stop : V) (clip : C)
      → IsRegion clip
      → Ends
          (order.lt start stop)
          start
          stop
          (l.looping clip)
          clip
          (set_region l order.lt start stop clip)
  unfolding set_region
  set_region-Ends start stop clip valid = elim (Bool-cases (order.lt (l.loop_start clip) stop)) [
    | inl grows ↦ rw grows (grown-Ends start stop clip grows)
    | inr shrinks ↦ rw shrinks (shrunk-Ends start stop clip valid shrinks)
  ]

  -- How a request ends whose arguments are read: with the region set, what is left is the setter of
  -- `looping`, whatever that does.
  abbrev pub Finishes : Bool → V → V → Bool → C → Outcome (Unit {0}) × C → Type 0
  Finishes true start stop looping clip r =
      (set : C) × HasLoop l start stop (l.looping clip) set
      × ((clip' : C) → l.set_looping looping set ≡ returned clip' → r ≡ (returned tt, clip'))
      × ((e : Exn) → l.set_looping looping set ≡ raised e → r ≡ (raised e, set))
  Finishes false start stop looping clip (answer, clip') =
      ((e : Exn) × (answer ≡ raised e)) × (l.looping clip' ≡ l.looping clip) × IsRegion clip'

  set_read-Finishes :
      (looping : Bool) (start stop : V) (clip : C)
      → IsRegion clip
      → Finishes
          (order.lt start stop)
          start
          stop
          looping
          clip
          (if_written (set_region l order.lt start stop clip) (write (l.set_looping looping)))
  set_read-Finishes looping start stop clip valid =
      go (order.lt start stop) (set_region l order.lt start stop clip)
        (set_region-Ends start stop clip valid)
    where
      go :
          (b : Bool) (behind : Outcome (Unit {0}) × C)
          → Ends b start stop (l.looping clip) clip behind
          → Finishes b start stop looping clip (if_written behind (write (l.set_looping looping)))
      go true (returned done, c) h = (c, h.1, (λ clip' e. rw e refl), λ e f. rw f refl)
      go true (raised e, c) h = absurd (cc (h.0))
      go false (answer, c) h = let (e, raises) = h.0 in rw raises ((e, refl), h.1, h.2)

  -- If Live's setters of `loop_start` and `loop_end` reject exactly a region whose end is not behind its
  -- start, and otherwise change no other of the three attributes, and the clip has a region, then a request
  -- whose arguments are read, with its end behind its start, sets exactly this region and then does what
  -- the setter of `looping` does; with its end not behind its start it raises, and leaves `looping` and some
  -- region of the clip; any other request raises and changes nothing.
  pub set_loop-right :
      (to_flag : V → Outcome Bool) (to_float : V → Outcome V) (params : List V) (clip : C)
      → IsRegion clip
      → ((looping : Bool) (start stop : V)
          → read_loop l order.lt to_flag to_float params ≡ returned (looping, start, stop)
          → Finishes
              (order.lt start stop)
              start
              stop
              looping
              clip
              (set_loop l order.lt to_flag to_float params clip))
        × ((e : Exn)
            → read_loop l order.lt to_flag to_float params ≡ raised e
            → set_loop l order.lt to_flag to_float params clip ≡ (raised e, clip))
  unfolding set_loop set_read
  set_loop-right to_flag to_float params clip valid = (
    λ looping start stop h. rw h (set_read-Finishes looping start stop clip valid),
    λ e h. rw h refl,
  )
