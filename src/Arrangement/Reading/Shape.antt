-- ===== src/Arrangement/Reading/Shape.antt =====
-- How long the lists of a body are that is read, and how its rows are numbered.
use ohmic_bridge.Prelude.{
  ℕ, suc, ◌+◌, ◌≡◌, refl, sym, subst, ap, ◌∙◌, List, [], ◌∷◌, ◌++◌, map, append_assoc, append-nil,
  arith, All, All-append, length, Outcome, returned, >>=-eq-returned, false,
}
use ohmic_bridge.Arrangement.Rows.{Float, ClipRow, Clips}
use ohmic_bridge.Arrangement.Rows.Dict.{dict_set-fresh}
use ohmic_bridge.Arrangement.Body.{Body}
use ohmic_bridge.Arrangement.Reading.{convert_or, clip_rows, TrackRef, track_index_for_parent}
use ohmic_bridge.Arrangement.Reading.Song.{
  LiveTrack, LiveSong, TrackRow, track_row, track_rows, snapshot_body, safe_attr, clips_or_none,
  track_color,
}
use ohmic_bridge.Arrangement.Reading.Columns.{clips_of_tracks, indices}
use ohmic_bridge.Arrangement.Reading.Formed.{
  Placed, clip_rows-Placed, length-track_rows, snapshot_body-Parts, Below, Below-fresh, Below-suc,
}

length-map : {A B : Type 0} (f : A → B) (xs : List A) → length (map f xs) ≡ length xs
length-map f [] = refl
length-map f (x ∷ xs) = ap suc (length-map f xs)

length-indices : (i : ℕ) (rows : List TrackRow) → length (indices i rows) ≡ length rows
unfolding indices
length-indices i [] = refl
length-indices i (row ∷ rows) = ap suc (length-indices (i + 1) rows)

abbrev RowsPlaced : List TrackRow → Type 0
RowsPlaced = All (λ row. Placed 0 row.clips)

-- How many clips a track has, and how many rows the entries of clips have.
abbrev clip_counts : List LiveTrack → List ℕ
clip_counts tracks = map (λ t. length (clips_or_none t.arrangement_clips)) tracks

abbrev pub row_counts : Clips → List ℕ
row_counts clips = map (λ e. length e.1) clips

map-append : (f : ℕ × List ClipRow → ℕ) (xs ys : Clips) → map f (xs ++ ys) ≡ map f xs ++ map f ys
map-append f [] ys = refl
map-append f (x ∷ xs) ys = ap (λ l. f x ∷ l) (map-append f xs ys)

abbrev clips_or : List ClipRow → Outcome TrackRow → List ClipRow
clips_or rows m = elim m [ returned row ↦ row.clips | _ ↦ rows ]

track_row-Placed :
    (float_add : Float → Float → Float) (refs : List TrackRef) (track : LiveTrack) {row : TrackRow}
    → track_row float_add refs track ≡ returned row
    → Placed 0 row.clips × (length row.clips ≡ length (clips_or_none track.arrangement_clips))
unfolding track_row
track_row-Placed float_add refs track {row} e =
    let (name, e0, p0) = >>=-eq-returned (convert_or (λ v. v.as_str) [] track.name) _ e in
    let (midi, e1, p1) =
      >>=-eq-returned (convert_or (λ v. v.as_bool) false track.has_midi_input) _ p0 in
    let (color, e2, p2) = >>=-eq-returned (track_color track.color) _ p1 in
    let (parent, e3, p3) =
      >>=-eq-returned (track_index_for_parent (safe_attr track.group_track) refs) _ p2 in
    let (clips, e4, p4) =
      >>=-eq-returned (clip_rows float_add (clips_or_none track.arrangement_clips) 0 midi) _ p3 in
    subst (λ rows. Placed 0 rows × (length rows ≡ length (clips_or_none track.arrangement_clips)))
      (ap (clips_or clips) p4)
      (clip_rows-Placed float_add (clips_or_none track.arrangement_clips) 0 midi e4)

track_rows-Placed :
    (float_add : Float → Float → Float) (refs : List TrackRef) (tracks : List LiveTrack)
    {rows : List TrackRow}
    → track_rows float_add refs tracks ≡ returned rows
    → RowsPlaced rows × (map (λ r. length r.clips) rows ≡ clip_counts tracks)
unfolding track_rows
track_rows-Placed float_add refs [] {rows} e =
    let none_left : [] ≡ rows = ground (arith, e) in
    subst (λ l. RowsPlaced l × (map (λ r. length r.clips) l ≡ [])) none_left (tt, refl)
track_rows-Placed float_add refs (track ∷ tracks) {rows} e =
    let (row, e1, p1) = >>=-eq-returned (track_row float_add refs track) _ e in
    let (others, e2, p2) = >>=-eq-returned (track_rows float_add refs tracks) _ p1 in
    let whole : row ∷ others ≡ rows = ground (arith, p2) in
    let (placed, size) = track_row-Placed float_add refs track e1 in
    let (all, sizes) = track_rows-Placed float_add refs tracks e2 in
    subst (λ l. RowsPlaced l × (map (λ r. length r.clips) l ≡ clip_counts (track ∷ tracks))) whole
      (
        (placed, all),
        ap (λ n. n ∷ map (λ r. length r.clips) others) size
            ∙ ap (λ l. length (clips_or_none track.arrangement_clips) ∷ l) sizes,
      )

clips_of_tracks-Placed :
    (m : Clips) (i : ℕ) (rows : List TrackRow)
    → Below i m
    → All (λ e. Placed 0 e.1) m
    → RowsPlaced rows
    → All (λ e. Placed 0 e.1) (clips_of_tracks m i rows)
      × (row_counts (clips_of_tracks m i rows) ≡ row_counts m ++ map (λ r. length r.clips) rows)
unfolding clips_of_tracks
clips_of_tracks-Placed m i [] below placed h = (placed, sym (append-nil (row_counts m)))
clips_of_tracks-Placed m i (row ∷ rows) below placed h =
    let (all, sizes) =
      clips_of_tracks-Placed (m ++ (i, row.clips) ∷ []) (i + 1) rows (Below-suc i m row.clips below)
        (All-append (λ e. Placed 0 e.1) m ((i, row.clips) ∷ []) placed (h.0, tt)) h.1 in
    let others = map (λ r. length r.clips) rows in
    rw (dict_set-fresh m i row.clips (Below-fresh i m below)) (
      (
        all,
        sizes
            ∙ ap (λ l. l ++ others) (map-append (λ e. length e.1) m ((i, row.clips) ∷ []))
            ∙ append_assoc (row_counts m) (length row.clips ∷ []) others,
      ))

-- The shape of a body that is read: for each track of the song one name, one colour, one entry in each
-- of the other lists and one entry of clips, which has a row for each clip of the track, and each
-- row carries its place.
pub record IsShaped (tracks : List LiveTrack) (body : Body) : Type 0 where
  pub names : length body.layout.track_names ≡ length tracks
  pub indexed : length body.layout.track_indices ≡ length tracks
  pub midi : length body.layout.midi_tracks ≡ length tracks
  pub colors : length body.layout.track_colors ≡ length tracks
  pub groups : length body.layout.is_group_tracks ≡ length tracks
  pub parents : length body.layout.group_parent_indices ≡ length tracks
  pub counted : row_counts body.clips ≡ clip_counts tracks
  pub placed : All (λ e. Placed 0 e.1) body.clips

-- A body that is read from a song with these tracks has for each track one entry in every list of the
-- layout and one entry of clips; the entry has as many rows as the track has arrangement clips (none
-- if they cannot be read), and each row carries its place among them.
pub snapshot_body-IsShaped :
    (float_add : Float → Float → Float) (song : LiveSong) (tracks : List LiveTrack) {body : Body}
    → song.tracks ≡ returned tracks
    → snapshot_body float_add song ≡ returned body
    → IsShaped tracks body
snapshot_body-IsShaped float_add song tracks {body} has e =
    let parts = snapshot_body-Parts float_add song e in
    let same : parts.tracks ≡ tracks = ground (arith, parts.has_tracks, has) in
    let rows : length parts.rows ≡ length tracks =
      length-track_rows float_add _ parts.tracks parts.has_rows ∙ ap length same in
    let (each, sizes) = track_rows-Placed float_add _ parts.tracks parts.has_rows in
    let (placed, counts) = clips_of_tracks-Placed [] 0 parts.rows tt tt each in
    subst (IsShaped tracks) parts.whole (record {
      names = length-map _ parts.rows ∙ rows;
      indexed = length-indices 0 parts.rows ∙ rows;
      midi = length-map _ parts.rows ∙ rows;
      colors = length-map _ parts.rows ∙ rows;
      groups = length-map _ parts.rows ∙ rows;
      parents = length-map _ parts.rows ∙ rows;
      counted = counts ∙ sizes ∙ ap clip_counts same;
      placed = placed;
    })
