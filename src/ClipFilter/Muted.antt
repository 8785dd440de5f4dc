-- ===== src/ClipFilter/Muted.antt =====
-- What /live/clips/filter and /live/clips/unfilter of abletonosc/clip.py mute, against the names of the
-- clips.
use ohmic_bridge.Prelude.{
  ℕ, suc, ◌+◌, ◌-◌, min, ◌≡◌, refl, sym, ap, ap₂, subst, ◌∙◌, not, Option, none, some, List, [],
  ◌∷◌, ◌++◌, map, append-nil, append_assoc, Text, length, take, drop, get_elem?, get_elem?-behind,
  length-behind, Outcome, returned, raised, arith, ◌⊎◌, inl, inr,
}
use ohmic_bridge.ClipFilter.{
  note_name_to_midi, name_notes, NamedClip, Grid, NoteCache, slot_notes, build_clip_name_cache,
  all_notes, no_such_index, filter_slot, filter_slots, filter_tracks, FilterState, cache_or_build,
  clips_filter, unmute, slice_end, unmute_between, clips_unfilter,
}

-- The clip is muted if its name has notes and not all of them are asked for; a clip without notes in its name stays.
abbrev mute_unless : List (Option ℕ) → List (Option ℕ) → NamedClip → NamedClip
mute_unless indices [] clip = clip
mute_unless indices (n ∷ notes) clip = record clip { muted = not (all_notes indices (n ∷ notes)) }

unfoldable pub filtered : List (Option ℕ) → Option NamedClip → Option NamedClip
filtered indices none = none
filtered indices (some clip) = some (mute_unless indices (name_notes clip.name) clip)

filter_slot-filtered :
    (indices : List (Option ℕ)) (slot : Option NamedClip)
    → filter_slot indices (some (slot_notes slot)) slot ≡ returned (filtered indices slot)
unfolding filter_slot filtered slot_notes
filter_slot-filtered indices none = refl
filter_slot-filtered indices (some clip) = go (name_notes clip.name)
  where
    go :
        (notes : List (Option ℕ))
        → filter_slot indices (some notes) (some clip)
          ≡ returned (some (mute_unless indices notes clip))
    go [] = refl
    go (n ∷ notes) = refl

module _ {X : Type 0} where
  get_elem?-end : (xs : List X) → get_elem? xs (length xs) ≡ none
  get_elem?-end [] = refl
  get_elem?-end (x ∷ xs) = get_elem?-end xs

filter_slots-filtered :
    (indices : List (Option ℕ)) (before : List (List (Option ℕ))) (slots : List (Option NamedClip))
    → filter_slots indices (some (before ++ map slot_notes slots)) (length before) slots
      ≡ (map (filtered indices) slots, returned tt)
unfolding filter_slots
filter_slots-filtered indices before [] = refl
filter_slots-filtered indices before (slot ∷ slots) =
    let later : filter_slots indices (some (before ++ slot_notes slot ∷ map slot_notes slots))
          (suc (length before)) slots
        ≡ (map (filtered indices) slots, returned tt) =
      subst
        (λ n.
          filter_slots indices (some (before ++ slot_notes slot ∷ map slot_notes slots)) n slots
          ≡ (map (filtered indices) slots, returned tt))
        (length-behind before (slot_notes slot))
        (subst
          (λ row.
            filter_slots indices (some row) (length (before ++ slot_notes slot ∷ [])) slots
            ≡ (map (filtered indices) slots, returned tt))
          (append_assoc before (slot_notes slot ∷ []) (map slot_notes slots))
          (filter_slots-filtered indices (before ++ slot_notes slot ∷ []) slots)) in
    rw
      (
        get_elem?-behind before (slot_notes slot) (map slot_notes slots),
        filter_slot-filtered indices slot,
        later,
      )
      refl

-- The tracks that the cache has, and then those that it has not.
filter_tracks-filtered :
    (indices : List (Option ℕ)) (before : NoteCache) (tracks more : Grid)
    → (more' : Grid) (answer : Outcome (Unit {0}))
    → filter_tracks indices
        (before ++ build_clip_name_cache tracks)
        (length (before ++ build_clip_name_cache tracks))
        more
      ≡ (more', answer)
    → filter_tracks indices
        (before ++ build_clip_name_cache tracks)
        (length before)
        (tracks ++ more)
      ≡ (map (map (filtered indices)) tracks ++ more', answer)
unfolding filter_tracks build_clip_name_cache
filter_tracks-filtered indices before [] more more' answer h =
    subst (λ cache. filter_tracks indices (before ++ []) (length cache) more ≡ (more', answer))
      (append-nil before) h
filter_tracks-filtered indices before (slots ∷ tracks) more more' answer h =
    let row = map slot_notes slots in
    let rows = map (map slot_notes) tracks in
    let shift : (before ++ row ∷ []) ++ rows ≡ before ++ row ∷ rows =
      append_assoc before (row ∷ []) rows in
    let later : filter_tracks indices (before ++ row ∷ rows) (suc (length before)) (tracks ++ more)
        ≡ (map (map (filtered indices)) tracks ++ more', answer) =
      subst
        (λ n.
          filter_tracks indices (before ++ row ∷ rows) n (tracks ++ more)
          ≡ (map (map (filtered indices)) tracks ++ more', answer))
        (length-behind before row)
        (subst
          (λ cache.
            filter_tracks indices cache (length (before ++ row ∷ [])) (tracks ++ more)
            ≡ (map (map (filtered indices)) tracks ++ more', answer))
          shift
          (filter_tracks-filtered indices (before ++ row ∷ []) tracks more more' answer (
            subst (λ cache. filter_tracks indices cache (length cache) more ≡ (more', answer))
              (sym shift) h))) in
    rw (get_elem?-behind before row rows, filter_slots-filtered indices [] slots, later) refl

-- The cache is that of the names of the clips.
abbrev pub IsFresh : FilterState → Type 0
IsFresh s = (s.cache ≡ []) ⊎ (s.cache ≡ build_clip_name_cache s.tracks)

cache_or_build-fresh :
    (s : FilterState) → IsFresh s → cache_or_build s.cache s.tracks ≡ build_clip_name_cache s.tracks
unfolding cache_or_build
cache_or_build-fresh s (inl nothing) = rw nothing refl
cache_or_build-fresh s (inr built) = go s.cache built
  where
    go :
        (cache : NoteCache)
        → cache ≡ build_clip_name_cache s.tracks
        → cache_or_build cache s.tracks ≡ build_clip_name_cache s.tracks
    go [] h = refl
    go (row ∷ rows) h = h

-- A filter changes no name.
slot_notes-filtered :
    (indices : List (Option ℕ)) (slot : Option NamedClip)
    → slot_notes (filtered indices slot) ≡ slot_notes slot
unfolding slot_notes filtered
slot_notes-filtered indices none = refl
slot_notes-filtered indices (some clip) = go (name_notes clip.name)
  where
    go :
        (notes : List (Option ℕ))
        → name_notes (mute_unless indices notes clip).name ≡ name_notes clip.name
    go [] = refl
    go (n ∷ notes) = refl

slot_notes-unmute : (slot : Option NamedClip) → slot_notes (unmute slot) ≡ slot_notes slot
unfolding slot_notes unmute
slot_notes-unmute none = refl
slot_notes-unmute (some clip) = refl

-- A change of slots that keeps their notes keeps the cache.
build-kept :
    (f : Option NamedClip → Option NamedClip)
    → ((slot : Option NamedClip) → slot_notes (f slot) ≡ slot_notes slot)
    → (tracks : Grid) → build_clip_name_cache (map (map f) tracks) ≡ build_clip_name_cache tracks
unfolding build_clip_name_cache
build-kept f keeps [] = refl
build-kept f keeps (slots ∷ tracks) =
    ap₂ (λ row rows. row ∷ rows) (row_kept slots) (build-kept f keeps tracks)
  where
    row_kept :
        (slots : List (Option NamedClip)) → map slot_notes (map f slots) ≡ map slot_notes slots
    row_kept [] = refl
    row_kept (slot ∷ slots) = ap₂ (λ x xs. x ∷ xs) (keeps slot) (row_kept slots)

module _ {X : Type 0} where
  take-all : (xs : List X) → take (length xs) xs ≡ xs
  take-all [] = refl
  take-all (x ∷ xs) = ap (λ l. x ∷ l) (take-all xs)

  drop-all : (xs : List X) → drop (length xs) xs ≡ []
  drop-all [] = refl
  drop-all (x ∷ xs) = drop-all xs

-- The notes that a request asks for.
abbrev pub asked : List Text → List (Option ℕ)
asked names = map note_name_to_midi names

filter_tracks-all :
    (indices : List (Option ℕ)) (tracks : Grid)
    → filter_tracks indices (build_clip_name_cache tracks) 0 tracks
      ≡ (map (map (filtered indices)) tracks, returned tt)
unfolding filter_tracks
filter_tracks-all indices tracks =
    subst (λ l. filter_tracks indices (build_clip_name_cache tracks) 0 tracks ≡ (l, returned tt))
      (append-nil (map (map (filtered indices)) tracks))
      (subst
        (λ l.
          filter_tracks indices (build_clip_name_cache tracks) 0 l
          ≡ (map (map (filtered indices)) tracks ++ [], returned tt))
        (append-nil tracks) (filter_tracks-filtered indices [] tracks [] [] (returned tt) refl))

-- If the cache is empty or that of the names of the clips, then a filter raises nothing, mutes each
-- clip whose name has notes that are not all asked for, unmutes the others with notes, leaves those
-- without, and its cache is that of the names of the clips as they are behind it.
pub clips_filter-right :
    (names : List Text) (s : FilterState)
    → IsFresh s
    → clips_filter names s ≡ (
      returned tt,
      record {
        cache = build_clip_name_cache s.tracks;
        tracks = map (map (filtered (asked names))) s.tracks;
      },
    )
      × IsFresh (clips_filter names s).1
unfolding clips_filter filter_tracks
clips_filter-right names s fresh =
    let behind : filter_tracks (asked names) (build_clip_name_cache s.tracks) 0 s.tracks
        ≡ (map (map (filtered (asked names))) s.tracks, returned tt) =
      filter_tracks-all (asked names) s.tracks in
    rw (cache_or_build-fresh s fresh, behind)
      ((
        refl,
        inr (
            sym (build-kept (filtered (asked names)) (slot_notes-filtered (asked names)) s.tracks)),
      ))

-- A track that the cache has not.
outside_cache :
    (indices : List (Option ℕ)) (cache : NoteCache) (slot : Option NamedClip)
    (slots : List (Option NamedClip)) (more : Grid)
    → filter_tracks indices cache (length cache) ((slot ∷ slots) ∷ more)
      ≡ ((slot ∷ slots) ∷ more, raised no_such_index)
unfolding filter_tracks filter_slots filter_slot
outside_cache indices cache slot slots more = rw (get_elem?-end cache) refl

-- If the song got tracks behind those that the cache was built for, the first of the new ones with a
-- slot, then a filter mutes the clips of the tracks that were there, as before, and raises IndexError.
pub clips_filter-stale :
    (names : List Text) (first : List (Option NamedClip)) (tracks : Grid) (slot : Option NamedClip)
    (slots : List (Option NamedClip)) (more : Grid)
    → clips_filter names (record {
      cache = build_clip_name_cache (first ∷ tracks);
      tracks = (first ∷ tracks) ++ (slot ∷ slots) ∷ more;
    })
      ≡ (
        raised no_such_index,
        record {
          cache = build_clip_name_cache (first ∷ tracks);
          tracks = map (map (filtered (asked names))) (first ∷ tracks) ++ (slot ∷ slots) ∷ more;
        },
      )
unfolding clips_filter cache_or_build build_clip_name_cache
clips_filter-stale names first tracks slot slots more =
    rw
      (filter_tracks-filtered (asked names) [] (first ∷ tracks) ((slot ∷ slots) ∷ more)
        ((slot ∷ slots) ∷ more) (raised no_such_index)
        (outside_cache (asked names) (build_clip_name_cache (first ∷ tracks)) slot slots more))
      refl

unmute_between-all :
    (tracks : Grid) (a b : ℕ)
    → a ≡ 0
    → b ≡ length tracks
    → unmute_between a b tracks ≡ map (map unmute) tracks
unfolding unmute_between
unmute_between-all tracks a b start stop =
    let k : b - a ≡ length tracks = omega (arith, start, stop) in
    let l : a + length tracks ≡ length tracks = omega (arith, start) in
    rw (k, l, start, take-all tracks, drop-all tracks) (append-nil (map (map unmute) tracks))

-- Without arguments, every clip is unmuted, also behind a filter, and the cache stays that of the names.
pub clips_unfilter-right :
    (s : FilterState)
    → IsFresh s
    → ((clips_unfilter [] s).tracks ≡ map (map unmute) s.tracks) × IsFresh (clips_unfilter [] s)
unfolding clips_unfilter unmute_between slice_end
clips_unfilter-right s fresh =
    let all : unmute_between (min 0 (length s.tracks)) (min (length s.tracks) (length s.tracks))
          s.tracks
        ≡ map (map unmute) s.tracks =
      unmute_between-all s.tracks (min 0 (length s.tracks))
        (min (length s.tracks) (length s.tracks)) (omega arith) (omega arith) in
    (
      all,
      elim fresh [
        | inl nothing ↦ inl nothing
        | inr built ↦ inr (
            built
            ∙ sym (ap build_clip_name_cache all ∙ build-kept unmute slot_notes-unmute s.tracks))
      ],
    )
