-- ===== src/Capabilities/Probe.antt =====
-- What the probe's answers say of Live.
use ohmic_bridge.Prelude.{
  ◌≡◌, refl, sym, ap, ◌∙◌, ◌↔◌, inl, inr, Bool, true, false, Bool-cases, none, some, List, [], ◌∷◌,
  Text, codes, All, Outcome, returned, raised, ◌>>=◌, >>=-eq-returned, arith,
}
use ohmic_bridge.Arrangement.Reading.{Value, LiveClip, get_or, clip_id, identity_text, integer_text}
use ohmic_bridge.Arrangement.Reading.Song.{LiveTrack, LiveSong, clips_or_none}
use ohmic_bridge.Capabilities.{
  Check, capability_groups, all_checks, or_false, probe_groups, ProbeResult, probe_capabilities,
  bucket_of, has_identity, is_missing, clips_identified, tracks_identified, identified_if,
  probe_arrangement_deltas,
}

-- The snapshot can name the clip.
abbrev pub HasIdentity : LiveClip → Type 0
HasIdentity clip = (id : Text) × (clip_id clip ≡ returned id)

has_identity-text :
    (ptr : Outcome Value)
    → has_identity ptr ≡ returned true
    → (id : Text) × (identity_text ptr ≡ returned id)
unfolding has_identity identity_text
has_identity-text (raised e) h = elim (Bool-cases (is_missing e.class)) [
  | inl missing ↦ absurd (ground (arith, h, missing))
  | inr other ↦ absurd (ground (arith, h, other))
]
has_identity-text (returned v) h = elim (Bool-cases v.is_none) [
  | inl missing ↦ absurd (ground (arith, h, missing))
  | inr there ↦
      let int : (v.as_int >>= λ n. returned true) ≡ returned true = ground (arith, h, there) in
      let (n, e1, p1) = >>=-eq-returned v.as_int _ int in
      (integer_text n, ground (arith, there, e1))
]

clips_identified-HasIdentity :
    (clips : List LiveClip) → clips_identified clips ≡ returned true → All HasIdentity clips
unfolding clips_identified clip_id
clips_identified-HasIdentity [] e = tt
clips_identified-HasIdentity (clip ∷ rest) e =
    let (there, e1, p1) = >>=-eq-returned (has_identity clip.live_ptr) _ e in
    elim (Bool-cases there) [
      | inl yes_there ↦ (
        has_identity-text clip.live_ptr (e1 ∙ ap returned yes_there),
        clips_identified-HasIdentity rest (ground (arith, p1, yes_there)),
      )
      | inr not_there ↦ absurd (ground (arith, p1, not_there))
    ]

tracks_identified-HasIdentity :
    (tracks : List LiveTrack)
    → tracks_identified tracks ≡ returned true
    → All (λ (t : LiveTrack). All HasIdentity (clips_or_none t.arrangement_clips)) tracks
unfolding tracks_identified
tracks_identified-HasIdentity [] e = tt
tracks_identified-HasIdentity (track ∷ rest) e =
    let (there, e1, p1) =
      >>=-eq-returned (clips_identified (clips_or_none track.arrangement_clips)) _ e in
    elim (Bool-cases there) [
      | inl yes_there ↦ (
        clips_identified-HasIdentity (clips_or_none track.arrangement_clips)
            (e1 ∙ ap returned yes_there),
        tracks_identified-HasIdentity rest (ground (arith, p1, yes_there)),
      )
      | inr not_there ↦ absurd (ground (arith, p1, not_there))
    ]

or_false-true :
    (logging : Outcome (Unit {0})) (m : Outcome Bool)
    → or_false logging m ≡ returned true
    → m ≡ returned true
or_false-true logging (returned b) e = e
or_false-true (returned u) (raised x) e = absurd (cc e)
or_false-true (raised y) (raised x) e = absurd (cc e)

-- If the probe of arrangement deltas answers true for a song, with a cached result or without, then
-- `_clip_id` returns for each clip of the tracks of that song whose clips can be read: no snapshot of
-- the same song fails for want of a clip's identity.
pub probe_arrangement_deltas-HasIdentity :
    (live : Check → Outcome Bool) (logging : Outcome (Unit {0})) (cached : ProbeResult)
    (song : LiveSong) (tracks : List LiveTrack)
    → probe_arrangement_deltas live logging cached song ≡ returned true
    → song.tracks ≡ returned tracks
    → All (λ (t : LiveTrack). All HasIdentity (clips_or_none t.arrangement_clips)) tracks
unfolding probe_arrangement_deltas
probe_arrangement_deltas-HasIdentity live logging cached song tracks e has =
    let inner = or_false-true logging _ e in
    let (buckets, e1, p1) = >>=-eq-returned (probe_capabilities live logging cached).0 _ inner in
    identified (bucket_of buckets (codes "arrangement_deltas")) p1
  where
    identified :
        (b : Bool)
        → identified_if song b ≡ returned true
        → All (λ (t : LiveTrack). All HasIdentity (clips_or_none t.arrangement_clips)) tracks
    identified false p = unfold identified_if in absurd (cc p)
    identified true p =
        tracks_identified-HasIdentity tracks
          (sym (ap (λ m. get_or [] m >>= tracks_identified) has) ∙ (unfold identified_if in p))

all_checks_iff :
    (live : Check → Outcome Bool) (checks : List Check)
    → (all_checks live checks ≡ returned true) ↔ All (λ c. live c ≡ returned true) checks
unfolding all_checks
all_checks_iff live [] = (λ e. tt, λ h. refl)
all_checks_iff live (c ∷ rest) = (
  λ e.
      let (there, e1, p1) = >>=-eq-returned (live c) _ e in
      elim (Bool-cases there) [
        | inl yes_there ↦ (
          e1 ∙ ap returned yes_there,
          (all_checks_iff live rest).0 (ground (arith, p1, yes_there)),
        )
        | inr not_there ↦ absurd (ground (arith, p1, not_there))
      ],
  λ h. rw h.0 ((all_checks_iff live rest).1 h.1),
)

-- A bucket is true exactly if all its checks are.
abbrev pub Truthful :
    (Check → Outcome Bool) → List (Text × List Check) → List (Text × Bool) → Type 0
Truthful live [] [] = Unit
Truthful live [] (b ∷ buckets) = ⊥
Truthful live (g ∷ groups) [] = ⊥
Truthful live (g ∷ groups) (b ∷ buckets) =
    ((b.0 ≡ g.0) × ((b.1 ≡ true) ↔ All (λ c. live c ≡ returned true) g.1))
    × Truthful live groups buckets

value_iff :
    (m : Outcome Bool)
    → (b : Bool) × (or_false (returned tt) m ≡ returned b) × ((b ≡ true) ↔ (m ≡ returned true))
value_iff (returned true) = (true, refl, (λ h. refl, λ h. refl))
value_iff (returned false) = (false, refl, (λ h. cc h, λ h. cc h))
value_iff (raised e) = (false, refl, (λ h. cc h, λ h. cc h))

probe_groups-Truthful :
    (live : Check → Outcome Bool) (groups : List (Text × List Check))
    → (buckets : List (Text × Bool)) × (probe_groups live (returned tt) groups ≡ returned buckets)
      × Truthful live groups buckets
unfolding probe_groups
probe_groups-Truthful live [] = ([], refl, tt)
probe_groups-Truthful live ((bucket, checks) ∷ rest) =
    let (b, value, means) = value_iff (all_checks live checks) in
    let (buckets, found, truthful) = probe_groups-Truthful live rest in
    let checks_iff = all_checks_iff live checks in
    (
      (bucket, b) ∷ buckets,
      rw (value, found) refl,
      ((refl, (λ h. checks_iff.0 (means.0 h), λ h. means.1 (checks_iff.1 h))), truthful),
    )

-- If writing to the log does not raise, a first probe of the capabilities returns, and for each group a
-- bucket of its name that is true exactly if each of its checks gives true; and every later probe
-- returns the same buckets, whatever Live and the log then do.
pub probe_capabilities-Truthful :
    (live : Check → Outcome Bool)
    → (buckets : List (Text × Bool)) × (probe_capabilities live (returned tt) none
        ≡ (returned buckets, some buckets))
      × Truthful live capability_groups buckets
      × ((later : Check → Outcome Bool) (logging : Outcome (Unit {0}))
          → probe_capabilities later logging (some buckets) ≡ (returned buckets, some buckets))
unfolding probe_capabilities
probe_capabilities-Truthful live =
    let (buckets, found, truthful) = probe_groups-Truthful live capability_groups in
    (buckets, rw found refl, truthful, λ later logging. refl)
