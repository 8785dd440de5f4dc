-- ===== src/Tracks/Visits.antt =====
-- Which tracks a callback of abletonosc/track.py visits, and what it answers.
use ohmic_bridge.Prelude.{
  ℕ, suc, ◌≡◌, refl, sym, ap, subst, ◌∙◌, Bool, true, none, some, List, [], ◌∷◌, ◌++◌, length,
  get_elem?, get_elem?-behind, length-behind, append_assoc, returned, raised, Outcome-cases,
  Option-cases, inl, inr,
}
use ohmic_bridge.Prelude.Int.{ℤ, pos, negsuc}
use ohmic_bridge.Handlers.{Called}
use ohmic_bridge.Tracks.{
  Args, item_at, range, or_next_track, visit_tracks, indices_of, passed, visit_read, track_callback,
}

module _ {A W T : Type 0} (args : Args A) (tracks : W → List T) where
  -- The tracks of a list one after the other, from an index on, until one of them answers.
  unfoldable pub in_turn : (ℤ → T → W → Called A W) → ℕ → List T → W → Called A W
  in_turn func i [] w = (returned none, w)
  in_turn func i (track ∷ rest) w =
      or_next_track args tracks (pos i) (func (pos i) track w) (in_turn func (suc i) rest)

  -- A function that leaves the list of tracks as it is.
  abbrev pub KeepsTracks : (ℤ → T → W → Called A W) → Type 0
  KeepsTracks func = (i : ℤ) (track : T) (w : W) → tracks (func i track w).1 ≡ tracks w

  or_next_track-cong :
      (i : ℤ) (called : Called A W) (f g : W → Called A W)
      → f called.1 ≡ g called.1
      → or_next_track args tracks i called f ≡ or_next_track args tracks i called g
  or_next_track-cong i (raised e, w) f g h = refl
  or_next_track-cong i (returned none, w) f g h = h
  or_next_track-cong i (returned (some rv), w) f g h = refl

  or_next_track-answers :
      (i : ℤ) (called : Called A W) (next : W → Called A W) {rv : List A}
      → called.0 ≡ returned (some rv)
      → or_next_track args tracks i called next ≡ (returned (some (args.int i ∷ rv)), called.1)
  or_next_track-answers i (raised e, w) next h = absurd (cc h)
  or_next_track-answers i (returned none, w) next h = absurd (cc h)
  or_next_track-answers i (returned (some rv), w) next h = cc h

  visit_tracks-in_turn :
      (func : ℤ → T → W → Called A W) (before rest : List T) (w : W)
      → KeepsTracks func
      → tracks w ≡ before ++ rest
      → visit_tracks args tracks func (range (length before) (length rest)) w
        ≡ in_turn func (length before) rest w
  unfolding visit_tracks in_turn range item_at
  visit_tracks-in_turn func before [] w keeps e = refl
  visit_tracks-in_turn func before (track ∷ rest) w keeps e =
      let found : get_elem? (tracks w) (length before) ≡ some track =
        ap (λ l. get_elem? l (length before)) e ∙ get_elem?-behind before track rest in
      let called = func (pos (length before)) track w in
      let same : tracks called.1 ≡ (before ++ track ∷ []) ++ rest =
        keeps (pos (length before)) track w ∙ e ∙ sym (append_assoc before (track ∷ []) rest) in
      let later =
        subst
          (λ n.
            visit_tracks args tracks func (range n (length rest)) called.1
            ≡ in_turn func n rest called.1)
          (length-behind before track)
          (visit_tracks-in_turn func (before ++ track ∷ []) rest called.1 keeps same) in
      rw found (or_next_track-cong (pos (length before)) called _ _ later)

  -- A message to all tracks, to a function that leaves the list of tracks as it is, calls it on each track
  -- with its index, from the first on, until a call raises or answers; so if the call on the first
  -- track answers, no other track is visited, and the reply tells that track only.
  pub track_callback-in_turn :
      (func : T → List A → W → Called A W) (include_track_id : Bool) (p : A) (params : List A)
      (w : W)
      → ((track : T) (l : List A) (v : W) → tracks (func track l v).1 ≡ tracks v)
      → args.is_all p ≡ true
      → (track_callback args tracks func include_track_id (p ∷ params) w
          ≡ in_turn
              (λ i track. func track (passed args tracks include_track_id i params))
              0
              (tracks w)
              w)
        × ((first : T) (rest : List T) (rv : List A)
            → tracks w ≡ first ∷ rest
            → (func first (passed args tracks include_track_id (pos 0) params) w).0
              ≡ returned (some rv)
            → track_callback args tracks func include_track_id (p ∷ params) w ≡ (
              returned (some (args.int (pos 0) ∷ rv)),
              (func first (passed args tracks include_track_id (pos 0) params) w).1,
            ))
  unfolding track_callback visit_read indices_of in_turn
  track_callback-in_turn func include_track_id p params w keeps all =
      let visits =
        visit_tracks-in_turn (λ i track. func track (passed args tracks include_track_id i params))
          [] (tracks w) w
          (λ i track v. keeps track (passed args tracks include_track_id i params) v) refl in
      (
        rw all visits,
        λ first rest rv e h. rw all (
            visits
            ∙ ap
                (λ l.
                  in_turn (λ i track. func track (passed args tracks include_track_id i params)) 0 l
                    w)
                e
            ∙ or_next_track-answers (pos 0)
                (func first (passed args tracks include_track_id (pos 0) params) w) _ h),
      )

  or_next_track-keeps {κ} :
      (P : W → Type κ) (i : ℤ) (called : Called A W) (next : W → Called A W)
      → P called.1
      → ((v : W) → P v → P (next v).1)
      → P (or_next_track args tracks i called next).1
  or_next_track-keeps P i (raised e, v) next h k = h
  or_next_track-keeps P i (returned none, v) next h k = k v h
  or_next_track-keeps P i (returned (some rv), v) next h k = h

  visit_tracks-keeps {κ} :
      (P : W → Type κ) (func : ℤ → T → W → Called A W) (indices : List ℤ) (w : W)
      → ((i : ℕ) (track : T) (v : W)
          → P v
          → get_elem? (tracks v) i ≡ some track
          → P (func (pos i) track v).1)
      → P w
      → P (visit_tracks args tracks func indices w).1
  unfolding visit_tracks item_at
  visit_tracks-keeps P func [] w step start = start
  visit_tracks-keeps P func (negsuc n ∷ indices) w step start = start
  visit_tracks-keeps P func (pos i ∷ indices) w step start =
      elim (Option-cases (get_elem? (tracks w) i)) [
        | inl none_there ↦ rw none_there start
        | inr (track, found) ↦ rw found (
            or_next_track-keeps P (pos i) (func (pos i) track w) _ (step i track w start found)
              (λ v h. visit_tracks-keeps P func indices v step h))
      ]

  -- What holds of the state, and holds behind each call for a track of the song at the index that the
  -- call is for, holds behind every message, also if its index is out of range or no number at all.
  pub track_callback-keeps {κ} :
      (P : W → Type κ) (func : T → List A → W → Called A W) (include_track_id : Bool)
      (params : List A) (w : W)
      → ((i : ℕ) (track : T) (l : List A) (v : W)
          → P v
          → get_elem? (tracks v) i ≡ some track
          → P (func track (passed args tracks include_track_id (pos i) l) v).1)
      → P w
      → P (track_callback args tracks func include_track_id params w).1
  unfolding track_callback visit_read
  track_callback-keeps P func include_track_id [] w step start = start
  track_callback-keeps P func include_track_id (p ∷ params) w step start =
      elim (Outcome-cases (indices_of args tracks p w)) [
        | inl (e, h) ↦ rw h start
        | inr (indices, h) ↦ rw h (
            visit_tracks-keeps P
              (λ i track. func track (passed args tracks include_track_id i params)) indices w
              (λ i track v. step i track params v) start)
      ]
