-- ===== src/SessionInfo/Columns.antt =====
-- How the lists of `session_info` of abletonosc/song.py stand to the tracks.
use ohmic_bridge.Prelude.{
  ℕ, suc, ◌+◌, ◌≡◌, refl, ap, ap₂, sym, ◌∙◌, Bool, true, false, Bool-cases, List, [], ◌∷◌, ◌++◌,
  map, append_assoc, append-nil, All, Text, length, length-behind, returned, Outcome-cases, inl,
  inr, arith, if◌then◌else◌,
}
use ohmic_bridge.Arrangement.Reading.{TrackRef}
use ohmic_bridge.SessionInfo.{
  InfoTrack, TrackColumns, no_columns, InfoRow, push, error_row, read_info_track, or_error_row,
  info_loop, track_columns,
}
use ohmic_bridge.SessionInfo.Rows.{
  info_row, or_error, has_returned, IsLate, read_whole, read-IsLate, read_unnamed,
}

-- One row for each track.
abbrev pub rows_of : List TrackRef → List InfoTrack → List InfoRow
rows_of refs tracks = map (λ t. or_error (info_row refs t)) tracks

-- The lists with one item for each row, in their order.
abbrev pub columns_of : List InfoRow → TrackColumns
columns_of rows = record {
  track_names = map (λ r. r.name) rows;
  track_colors = map (λ r. r.color) rows;
  midi_tracks = map (λ r. r.is_midi) rows;
  is_group_tracks = map (λ r. r.is_group) rows;
  group_parent_indices = map (λ r. r.parent_index) rows;
  track_mutes = map (λ r. r.mute) rows;
  playing_slots = map (λ r. r.playing_slot) rows;
}

-- The name of the track is read, and then something of it raises.
unfoldable pub fails_late : List TrackRef → InfoTrack → Bool
fails_late refs t = if has_returned (info_row refs t) then false else has_returned t.name

unfoldable pub count_late : List TrackRef → List InfoTrack → ℕ
count_late refs [] = 0
count_late refs (t ∷ tracks) = (if fails_late refs t then 1 else 0) + count_late refs tracks

-- A track that does not fail behind its name gives one row.
sound_row :
    (refs : List TrackRef) (t : InfoTrack) (c : TrackColumns)
    → fails_late refs t ≡ false
    → or_error_row (read_info_track refs t c) ≡ push (or_error (info_row refs t)) c
unfolding fails_late
sound_row refs t c sound = elim (Outcome-cases (info_row refs t)) [
  | inr (row, h) ↦
      ap or_error_row (read_whole refs t row c h) ∙ ap (λ o. push (or_error o) c) (sym h)
  | inl (e, h) ↦
      let unnamed : has_returned t.name ≡ false =
        sym (ap (λ o. if has_returned o then false else has_returned t.name) h) ∙ sound in
      let (nothing, row) = read_unnamed refs t c unnamed in
      ap or_error_row nothing ∙ ap (λ r. push r c) (sym row)
]

map_snoc {ℓ κ} :
    {X : Type ℓ} {Y : Type κ} (f : X → Y) (xs : List X) (x : X)
    → map f (xs ++ x ∷ []) ≡ map f xs ++ f x ∷ []
map_snoc f [] x = refl
map_snoc f (y ∷ xs) x = ap (λ l. f y ∷ l) (map_snoc f xs x)

push-columns_of :
    (row : InfoRow) (rows : List InfoRow)
    → push row (columns_of rows) ≡ columns_of (rows ++ row ∷ [])
push-columns_of row rows =
    rw
      (
        map_snoc (λ r. r.name) rows row,
        map_snoc (λ r. r.color) rows row,
        map_snoc (λ r. r.is_midi) rows row,
        map_snoc (λ r. r.is_group) rows row,
        map_snoc (λ r. r.parent_index) rows row,
        map_snoc (λ r. r.mute) rows row,
        map_snoc (λ r. r.playing_slot) rows row,
      )
      refl

info_loop-rows :
    (refs : List TrackRef) (tracks : List InfoTrack) (before : List InfoRow)
    → All (λ t. fails_late refs t ≡ false) tracks
    → info_loop refs tracks (columns_of before) ≡ columns_of (before ++ rows_of refs tracks)
unfolding info_loop
info_loop-rows refs [] before sound = ap columns_of (sym (append-nil before))
info_loop-rows refs (t ∷ tracks) before sound =
    let row = or_error (info_row refs t) in
    ap (info_loop refs tracks)
      (sound_row refs t (columns_of before) sound.0 ∙ push-columns_of row before)
    ∙ info_loop-rows refs tracks (before ++ row ∷ []) sound.1
    ∙ ap columns_of (append_assoc before (row ∷ []) (rows_of refs tracks))

late_named :
    (refs : List TrackRef) (t : InfoTrack)
    → fails_late refs t ≡ true
    → ((name : Text) × (t.name ≡ returned name)) × (has_returned (info_row refs t) ≡ false)
unfolding fails_late
late_named refs t late = elim (Outcome-cases (info_row refs t)) [
  | inr (row, h) ↦
      absurd (cc (sym (ap (λ o. if has_returned o then false else has_returned t.name) h) ∙ late))
  | inl (e, h) ↦ elim (Outcome-cases t.name) [
    | inr (name, named) ↦ ((name, named), ap has_returned h)
    | inl (f, unnamed) ↦
        absurd (
          cc (sym (ap₂ (λ o n. if has_returned o then false else has_returned n) h unnamed) ∙ late))
  ]
]

late_counts :
    (refs : List TrackRef) (t : InfoTrack) (c : TrackColumns)
    → fails_late refs t ≡ true
    → (length (or_error_row (read_info_track refs t c)).track_names
        ≡ length c.track_names + (1 + 1))
      × (length (or_error_row (read_info_track refs t c)).playing_slots
          ≡ suc (length c.playing_slots))
late_counts refs t c late =
    let ((name, named), part) = late_named refs t late in
    go (read_info_track refs t c) (read-IsLate refs t name c named part)
  where
    go :
        (r : Bool × TrackColumns)
        → IsLate c r
        → (length (or_error_row r).track_names ≡ length c.track_names + (1 + 1))
          × (length (or_error_row r).playing_slots ≡ suc (length c.playing_slots))
    go (true, c') h = absurd (cc (h.0))
    go (false, c') h =
        let names = length-behind c'.track_names error_row.name in
        (
          omega (arith, names, h.1),
          length-behind c'.playing_slots error_row.playing_slot ∙ ap (λ l. suc (length l)) h.2,
        )

-- How many names and slots one track adds.
row_counts :
    (refs : List TrackRef) (t : InfoTrack) (c : TrackColumns)
    → (length (or_error_row (read_info_track refs t c)).track_names
        ≡ length c.track_names + (1 + (if fails_late refs t then 1 else 0)))
      × (length (or_error_row (read_info_track refs t c)).playing_slots
          ≡ suc (length c.playing_slots))
row_counts refs t c = elim (Bool-cases (fails_late refs t)) [
  | inl late ↦ rw late (late_counts refs t c late)
  | inr sound ↦
      let row = or_error (info_row refs t) in
      rw (sound, sound_row refs t c sound)
        (
          (length-behind c.track_names row.name ∙ omega arith),
          length-behind c.playing_slots row.playing_slot,
        )
]

info_loop-counts :
    (refs : List TrackRef) (tracks : List InfoTrack) (c : TrackColumns)
    → (length (info_loop refs tracks c).track_names
        ≡ length c.track_names + length tracks + count_late refs tracks)
      × (length (info_loop refs tracks c).playing_slots ≡ length c.playing_slots + length tracks)
unfolding info_loop count_late
info_loop-counts refs [] c = (omega arith, omega arith)
info_loop-counts refs (t ∷ tracks) c =
    let (names, slots) = row_counts refs t c in
    let (names', slots') = info_loop-counts refs tracks (or_error_row (read_info_track refs t c)) in
    (omega (arith, names, names'), omega (arith, slots, slots'))

-- The lists of session_info have one slot for each track, and as many names as there are tracks and, besides,
-- tracks whose name is read and whose later attributes raise; if there is none of these, every list has
-- exactly one item for each track, in the order of the tracks: its attributes, or the marks of an error.
pub track_columns-rows :
    (tracks : List InfoTrack)
    → (length (track_columns tracks).playing_slots ≡ length tracks)
      × (length (track_columns tracks).track_names
          ≡ length tracks + count_late (map (λ t. t.ref) tracks) tracks)
      × (All (λ t. fails_late (map (λ u. u.ref) tracks) t ≡ false) tracks
          → track_columns tracks ≡ columns_of (rows_of (map (λ t. t.ref) tracks) tracks))
unfolding track_columns
track_columns-rows tracks =
    let refs = map (λ t. t.ref) tracks in
    let (names, slots) = info_loop-counts refs tracks no_columns in
    (omega (arith, slots), omega (arith, names), info_loop-rows refs tracks [])
