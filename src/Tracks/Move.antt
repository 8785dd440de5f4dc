-- ===== src/Tracks/Move.antt =====
-- `track_move_device` of abletonosc/track.py, with Live's `find_device_position` and `move_device` as
-- parameters.
use ohmic_bridge.Prelude.{
  ℕ, ◌≤◌, ◌≡◌, ◌≢◌, ◌⊎◌, refl, subst, Bool, true, false, leb, leb→le, if◌then◌else◌, Option-cases,
  Outcome-cases, Option, none, some, List, [], ◌∷◌, ◌++◌, Text, codes, length, get_elem?, Outcome,
  returned, raised, ◌>>=◌, Exn, value_error, inl, inr,
}
use ohmic_bridge.Prelude.Int.{ℤ, pos, negsuc}
use ohmic_bridge.Handlers.{Called, Callback, or_reply, error_reply, guarded_lom}
use ohmic_bridge.Tracks.{Args, item_at, range_error}

-- The song, as the handler uses it. `none` as a position is Python's `None`.
pub record SongApi (A W T D : Type 0) : Type 0 where
  pub tracks : W → List T
  pub devices : T → W → List D
  pub has_move_device : W → Bool
  pub has_find_device_position : W → Bool
  pub find_device_position : D → T → ℕ → W → Outcome (Option ℤ)
  pub move_device : D → T → ℕ → W → Outcome (Option ℤ) × W
  pub name : D → W → Outcome A

abbrev pub unpack_failed : Exn
unpack_failed = record { class = value_error; message = codes "not enough values to unpack" }

abbrev or_minus_one : Option ℤ → ℤ
or_minus_one none = negsuc 0
or_minus_one (some i) = i

-- A position from 0 up to some number.
unfoldable pub position_at : ℕ → ℤ → Option ℕ
position_at n (negsuc i) = none
position_at n (pos i) = if leb i n then some i else none

module _ {A W T D : Type 0} (args : Args A) (song : SongApi A W T D) where
  -- The names of the devices of a track.
  unfoldable pub names_of : List D → W → Outcome (List A)
  names_of [] w = returned []
  names_of (d ∷ devices) w =
      song.name d w >>= λ name. names_of devices w >>= λ rest. returned (name ∷ rest)

  abbrev error_tuple : Text → W → Called A W
  error_tuple t w = (returned (some (args.text (codes "error: " ++ t) ∷ [])), w)

  -- `valid_position`
  unfoldable pub valid_position : D → T → ℕ → W → Outcome ℤ
  valid_position device target position w =
      if song.has_find_device_position w
      then (song.find_device_position device target position w >>= λ found.
          returned (or_minus_one found))
      else returned (negsuc 0)

  -- The reply behind a move.
  unfoldable pub moved : ℤ → ℤ → ℤ → T → ℤ → Outcome (Option ℤ) × W → Called A W
  moved device_index target_index position target valid (raised e, w) = (raised e, w)
  moved device_index target_index position target valid (returned actual, w) = (
    names_of (song.devices target w) w >>= λ names. returned (
        some (
          args.int device_index
          ∷ args.int target_index
          ∷ args.int position
          ∷ args.int valid
          ∷ args.int (or_minus_one actual)
          ∷ args.text (codes "ok")
          ∷ names)),
    w,
  )

  unfoldable pub move_found : ℤ → ℤ → D → T → ℕ → Outcome ℤ → W → Called A W
  move_found device_index target_index device target position (raised e) w = (raised e, w)
  move_found device_index target_index device target position (returned valid) w =
      moved device_index target_index (pos position) target valid
        (song.move_device device target position w)

  abbrev to_position : ℤ → ℤ → D → T → ℤ → Option ℕ → W → Called A W
  to_position device_index target_index device target asked none w =
      error_tuple (range_error (codes "target_position") asked) w
  to_position device_index target_index device target asked (some position) w =
      move_found device_index target_index device target position
        (valid_position device target position w) w

  abbrev to_track : ℤ → ℤ → ℤ → D → Option T → W → Called A W
  to_track device_index target_index asked device none w =
      error_tuple (range_error (codes "target_track_index") target_index) w
  to_track device_index target_index asked device (some target) w =
      to_position device_index target_index device target asked
        (position_at (length (song.devices target w)) asked) w

  abbrev of_device : ℤ → ℤ → ℤ → Option D → W → Called A W
  of_device device_index target_index asked none w =
      error_tuple (range_error (codes "device_index") device_index) w
  of_device device_index target_index asked (some device) w =
      to_track device_index target_index asked device (item_at (song.tracks w) target_index) w

  -- The handler behind the conversions of its arguments.
  unfoldable pub move_checked : T → Outcome (ℤ × ℤ × ℤ) → W → Called A W
  move_checked track (raised e) w = (raised e, w)
  move_checked track (returned (device_index, target_index, asked)) w =
      if song.has_move_device w
      then of_device device_index target_index asked (item_at (song.devices track w) device_index) w
      else error_tuple (codes "song.move_device not available") w

  unfoldable pub read_move : List A → Outcome (ℤ × ℤ × ℤ)
  read_move (a ∷ b ∷ c ∷ []) = args.to_int a >>= λ device_index. args.to_int b >>= λ target_index.
      args.to_int c >>= λ asked. returned (device_index, target_index, asked)
  read_move [] = raised unpack_failed
  read_move (a ∷ []) = raised unpack_failed
  read_move (a ∷ b ∷ []) = raised unpack_failed
  read_move (a ∷ b ∷ c ∷ d ∷ rest) = raised unpack_failed

  unfoldable pub track_move_device : (Exn → Text) → T → Callback A W
  track_move_device name_of track =
      guarded_lom name_of args.text (λ params w. move_checked track (read_move params) w)

  -- A device of the track, a track of the song, and a place among its devices or behind them.
  abbrev pub IsMove : T → D → T → ℕ → W → Type 0
  IsMove track device target position w =
      ((i : ℕ) × (get_elem? (song.devices track w) i ≡ some device))
      × ((j : ℕ) × (get_elem? (song.tracks w) j ≡ some target))
      × (position ≤ length (song.devices target w))

  item_at-get :
      {X : Type 0} (xs : List X) (i : ℤ) {x : X}
      → item_at xs i ≡ some x
      → (n : ℕ) × (get_elem? xs n ≡ some x)
  unfolding item_at
  item_at-get xs (negsuc n) h = absurd (cc h)
  item_at-get xs (pos n) h = (n, h)

  abbrev or_zero : Option ℕ → ℕ
  or_zero none = 0
  or_zero (some i) = i

  position_at-le : (n : ℕ) (i : ℤ) {position : ℕ} → position_at n i ≡ some position → position ≤ n
  unfolding position_at
  position_at-le n (negsuc i) h = absurd (cc h)
  position_at-le n (pos i) {position} h = go (leb i n) refl h
    where
      go : (b : Bool) → leb i n ≡ b → (if b then some i else none) ≡ some position → position ≤ n
      go true le found = leb→le position n (subst (λ o. leb (or_zero o) n ≡ true) found le)
      go false le found = absurd (cc found)

  -- A call left the state as it was, or it is one allowed move that Live knows of.
  abbrev pub Moved : T → W → W → Type 0
  Moved track w w' =
      (w' ≡ w)
      ⊎ ((device : D) × (target : T) × (position : ℕ) × IsMove track device target position w
          × (song.has_move_device w ≡ true)
          × (w' ≡ (song.move_device device target position w).1))

  abbrev IsFine : T → W → Called A W → Type 0
  IsFine track w called = (called.0 ≢ returned none) × Moved track w called.1

  unmoved :
      (track : T) (w : W) (o : Outcome (Option (List A)))
      → o ≢ returned none
      → IsFine track w (o, w)
  unmoved track w o h = (h, inl refl)

  moved-state :
      (a b c : ℤ) (target : T) (valid : ℤ) (behind : Outcome (Option ℤ) × W)
      → ((moved a b c target valid behind).0 ≢ returned none)
        × ((moved a b c target valid behind).1 ≡ behind.1)
  unfolding moved
  moved-state a b c target valid (raised e, w) = ((λ h. cc h), refl)
  moved-state a b c target valid (returned actual, w) =
      elim (Outcome-cases (names_of (song.devices target w) w)) [
        | inl (e, h) ↦ rw h ((λ k. cc k), refl)
        | inr (names, h) ↦ rw h ((λ k. cc k), refl)
      ]

  move_found-IsFine :
      (track : T) (a b : ℤ) (device : D) (target : T) (position : ℕ) (valid : Outcome ℤ) (w : W)
      → IsMove track device target position w
      → song.has_move_device w ≡ true
      → IsFine track w (move_found a b device target position valid w)
  unfolding move_found
  move_found-IsFine track a b device target position (raised e) w is_move has =
      unmoved track w (raised e) (λ h. cc h)
  move_found-IsFine track a b device target position (returned valid) w is_move has =
      let (some_reply, state) =
        moved-state a b (pos position) target valid (song.move_device device target position w) in
      (some_reply, inr (device, target, position, is_move, has, state))

  of_device-IsFine :
      (track : T) (a b c : ℤ) (w : W)
      → song.has_move_device w ≡ true
      → IsFine track w (of_device a b c (item_at (song.devices track w) a) w)
  of_device-IsFine track a b c w has = elim (Option-cases (item_at (song.devices track w) a)) [
    | inl no_device ↦ rw no_device ((λ h. cc h), inl refl)
    | inr (device, at_a) ↦ elim (Option-cases (item_at (song.tracks w) b)) [
      | inl no_track ↦ rw (at_a, no_track) ((λ h. cc h), inl refl)
      | inr (target, at_b) ↦ elim (Option-cases (position_at (length (song.devices target w)) c)) [
        | inl no_place ↦ rw (at_a, at_b, no_place) ((λ h. cc h), inl refl)
        | inr (position, at_c) ↦
            rw (at_a, at_b, at_c)
              (move_found-IsFine track a b device target position
                (valid_position device target position w) w
                (
                  item_at-get (song.devices track w) a at_a,
                  item_at-get (song.tracks w) b at_b,
                  position_at-le (length (song.devices target w)) c at_c,
                )
                has)
      ]
    ]
  ]

  move_checked-IsFine :
      (track : T) (read : Outcome (ℤ × ℤ × ℤ)) (w : W) → IsFine track w (move_checked track read w)
  unfolding move_checked
  move_checked-IsFine track (raised e) w = unmoved track w (raised e) (λ h. cc h)
  move_checked-IsFine track (returned (a, b, c)) w = go (song.has_move_device w) refl
    where
      device : Option D
      device = item_at (song.devices track w) a

      go :
          (b' : Bool)
          → song.has_move_device w ≡ b'
          → IsFine track w (
              if b'
              then of_device a b c device w
              else error_tuple (codes "song.move_device not available") w)
      go true has = of_device-IsFine track a b c w has
      go false has = ((λ h. cc h), inl refl)

  -- Whatever its arguments and whatever Live raises, a request to move a device is answered by a tuple, and
  -- the state stays as it was or is that behind one call of `move_device`, which Live has, with a device of
  -- the track, a track of the song, and a place among the devices of that track or behind them.
  pub track_move_device-IsSafe :
      (name_of : Exn → Text) (track : T) (params : List A) (w : W)
      → ((rv : List A) × ((track_move_device name_of track params w).0 ≡ returned (some rv)))
        × Moved track w (track_move_device name_of track params w).1
  unfolding track_move_device guarded_lom or_reply
  track_move_device-IsSafe name_of track params w =
      answer (move_checked track (read_move params) w)
        (move_checked-IsFine track (read_move params) w)
    where
      answer :
          (called : Called A W)
          → IsFine track w called
          → ((rv : List A) × ((or_reply (error_reply name_of args.text) called).0
                ≡ returned (some rv)))
            × Moved track w (or_reply (error_reply name_of args.text) called).1
      answer (raised e, v) fine = ((error_reply name_of args.text e, refl), fine.1)
      answer (returned none, v) fine = absurd (fine.0 refl)
      answer (returned (some rv), v) fine = ((rv, refl), fine.1)
