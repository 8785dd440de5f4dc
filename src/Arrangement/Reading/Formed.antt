-- ===== src/Arrangement/Reading/Formed.antt =====
-- What a body that is read is like: one entry of clips for each track, in their order.
use ohmic_bridge.Prelude.{
  ℕ, suc, ◌+◌, ◌<◌, ◌≡◌, refl, sym, subst, ap, ◌∙◌, Bool, false, Option, none, List, [], ◌∷◌, ◌++◌,
  map, append_assoc, append-nil, arith, All, codes, length, Outcome, returned, raised,
  >>=-eq-returned,
}
use ohmic_bridge.Arrangement.Rows.{Float, ClipRow, Clips, has_key}
use ohmic_bridge.Arrangement.Rows.Dict.{IsDict, has_key-append, dict_set-fresh}
use ohmic_bridge.Arrangement.Body.{Body, Locator}
use ohmic_bridge.Arrangement.Cache.Delta.{keys}
use ohmic_bridge.Arrangement.Cache.Sync.{IsBody}
use ohmic_bridge.Arrangement.Reading.{
  get_or, convert_or, optional_float, optional_int, signature_if, clip_id, LiveClip, clip_row,
  clip_rows, TrackRef,
}
use ohmic_bridge.Arrangement.Reading.Columns.{
  clips_of_tracks, indices, columns_of, body_of-columns_of,
}
use ohmic_bridge.Arrangement.Reading.Song.{
  LiveTrack, LiveSong, TrackRow, track_row, track_rows, snapshot_body, read_locators, body_of,
  read_song_time,
}

abbrev value_or {ℓ} : {A : Type ℓ} → A → Outcome A → A
value_or a (returned b) = b
value_or a (raised e) = a

abbrev index_or : ℕ → Outcome ClipRow → ℕ
index_or i (returned row) = row.index
index_or i (raised e) = i

-- The keys are below a number.
abbrev pub Below : ℕ → Clips → Type 0
Below i = All (λ e. e.0 < i)

pub Below-fresh : (i : ℕ) (m : Clips) → Below i m → has_key m i ≡ false
unfolding has_key
Below-fresh i [] h = refl
Below-fresh i (e ∷ m) h = ground (arith, h.0, Below-fresh i m h.1)

pub Below-suc :
    (i : ℕ) (m : Clips) (v : List ClipRow) → Below i m → Below (i + 1) (m ++ (i, v) ∷ [])
Below-suc i [] v h = (omega arith, tt)
Below-suc i (e ∷ m) v h = (omega (arith, h.0), Below-suc i m v h.1)

IsDict-behind :
    (m : Clips) (k : ℕ) (v : List ClipRow)
    → IsDict m
    → has_key m k ≡ false
    → IsDict (m ++ (k, v) ∷ [])
unfolding has_key
IsDict-behind [] k v d h = (refl, tt)
IsDict-behind (e ∷ m) k v d h = (
  ground (arith, d.0, h, has_key-append m ((k, v) ∷ []) e.0),
  IsDict-behind m k v d.1 (ground (arith, h)),
)

keys-append : (m n : Clips) → keys (m ++ n) ≡ keys m ++ keys n
keys-append [] n = refl
keys-append (e ∷ m) n = ap (λ l. e.0 ∷ l) (keys-append m n)

clips_of_tracks-formed :
    (m : Clips) (i : ℕ) (rows : List TrackRow)
    → IsDict m
    → Below i m
    → IsDict (clips_of_tracks m i rows)
      × (keys (clips_of_tracks m i rows) ≡ keys m ++ indices i rows)
unfolding clips_of_tracks indices
clips_of_tracks-formed m i [] d below = (d, sym (append-nil (keys m)))
clips_of_tracks-formed m i (row ∷ rows) d below =
    let fresh = Below-fresh i m below in
    let (d', same) =
      clips_of_tracks-formed (m ++ (i, row.clips) ∷ []) (i + 1) rows
        (IsDict-behind m i row.clips d fresh) (Below-suc i m row.clips below) in
    rw (dict_set-fresh m i row.clips fresh) (
      (
        d',
        same
            ∙ ap (λ l. l ++ indices (i + 1) rows) (keys-append m ((i, row.clips) ∷ []))
            ∙ append_assoc (keys m) (i ∷ []) (indices (i + 1) rows),
      ))

-- What a body that was read is made of.
pub record Parts (float_add : Float → Float → Float) (song : LiveSong) (body : Body) : Type 0 where
  pub tracks : List LiveTrack
  pub rows : List TrackRow
  pub locators : List Locator
  pub time : Option Float
  pub has_tracks : get_or [] song.tracks ≡ returned tracks
  pub has_rows : track_rows float_add (map (λ (t : LiveTrack). t.ref) tracks) tracks ≡ returned rows
  pub whole : columns_of rows locators time ≡ body

pub snapshot_body-Parts :
    (float_add : Float → Float → Float) (song : LiveSong) {body : Body}
    → snapshot_body float_add song ≡ returned body
    → Parts float_add song body
unfolding snapshot_body
snapshot_body-Parts float_add song {body} e =
    let (tracks, e1, p1) = >>=-eq-returned (get_or [] song.tracks) _ e in
    let (rows, e2, p2) =
      >>=-eq-returned (track_rows float_add (map (λ (t : LiveTrack). t.ref) tracks) tracks) _ p1 in
    let (cues, e3, p3) = >>=-eq-returned (get_or [] song.cue_points) _ p2 in
    let (locators, e4, p4) = >>=-eq-returned (read_locators cues) _ p3 in
    record {
      tracks = tracks;
      rows = rows;
      locators = locators;
      time = read_song_time song.current_song_time;
      has_tracks = e1;
      has_rows = e2;
      whole =
          sym (body_of-columns_of rows locators (read_song_time song.current_song_time))
          ∙ ap (value_or (body_of rows locators none)) p4;
    }

-- Every body that is read from a song is well formed: its clips have one entry for each track index,
-- and in the order of the tracks.
pub snapshot_body-IsBody :
    (float_add : Float → Float → Float) (song : LiveSong) {body : Body}
    → snapshot_body float_add song ≡ returned body
    → IsBody body
snapshot_body-IsBody float_add song {body} e =
    let parts = snapshot_body-Parts float_add song e in
    let (d, same) = clips_of_tracks-formed [] 0 parts.rows tt tt in
    subst IsBody parts.whole (record { distinct = d; indexed = same })

pub length-track_rows :
    (float_add : Float → Float → Float) (refs : List TrackRef) (tracks : List LiveTrack)
    {rows : List TrackRow}
    → track_rows float_add refs tracks ≡ returned rows
    → length rows ≡ length tracks
unfolding track_rows
length-track_rows float_add refs [] e = ground arith
length-track_rows float_add refs (t ∷ tracks) e =
    let (row, e1, p1) = >>=-eq-returned (track_row float_add refs t) _ e in
    let (rows, e2, p2) = >>=-eq-returned (track_rows float_add refs tracks) _ p1 in
    ground (arith, length-track_rows float_add refs tracks e2)

-- Each row of a clip carries its place among the clips of its track.
abbrev pub Placed : ℕ → List ClipRow → Type 0
Placed i [] = Unit
Placed i (row ∷ rows) = (row.index ≡ i) × Placed (i + 1) rows

clip_row-index :
    (float_add : Float → Float → Float) (clip : LiveClip) (i : ℕ) (midi : Bool) {row : ClipRow}
    → clip_row float_add clip i midi ≡ returned row
    → row.index ≡ i
unfolding clip_row
clip_row-index float_add clip i midi {row} e =
    let (v0, e0, p0) =
      >>=-eq-returned (convert_or (λ v. v.as_float) (codes "0.0") clip.start_time) _ e in
    let (v1, e1, p1) =
      >>=-eq-returned (convert_or (λ v. v.as_float) (codes "0.0") clip.length) _ p0 in
    let (v2, e2, p2) = >>=-eq-returned (optional_float clip.end_time) _ p1 in
    let (v3, e3, p3) = >>=-eq-returned (clip_id clip) _ p2 in
    let (v4, e4, p4) = >>=-eq-returned (convert_or (λ v. v.as_str) [] clip.name) _ p3 in
    let (v5, e5, p5) = >>=-eq-returned (convert_or (λ v. v.as_bool) false clip.looping) _ p4 in
    let (v6, e6, p6) = >>=-eq-returned (optional_float clip.loop_start) _ p5 in
    let (v7, e7, p7) = >>=-eq-returned (optional_float clip.loop_end) _ p6 in
    let (v8, e8, p8) = >>=-eq-returned (optional_float clip.start_marker) _ p7 in
    let (v9, e9, p9) = >>=-eq-returned (optional_int clip.color_index) _ p8 in
    let (v10, e10, p10) = >>=-eq-returned (signature_if midi clip) _ p9 in ap (index_or i) (sym p10)

pub clip_rows-Placed :
    (float_add : Float → Float → Float) (clips : List LiveClip) (i : ℕ) (midi : Bool)
    {rows : List ClipRow}
    → clip_rows float_add clips i midi ≡ returned rows
    → Placed i rows × (length rows ≡ length clips)
unfolding clip_rows
clip_rows-Placed float_add [] i midi {rows} e =
    let none_left : [] ≡ rows = ground (arith, e) in
    subst (λ l. Placed i l × (length l ≡ 0)) none_left (tt, refl)
clip_rows-Placed float_add (clip ∷ clips) i midi {rows} e =
    let (row, e1, p1) = >>=-eq-returned (clip_row float_add clip i midi) _ e in
    let (others, e2, p2) = >>=-eq-returned (clip_rows float_add clips (i + 1) midi) _ p1 in
    let (placed, same) = clip_rows-Placed float_add clips (i + 1) midi e2 in
    let whole : row ∷ others ≡ rows = ground (arith, p2) in
    subst (λ l. Placed i l × (length l ≡ suc (length clips))) whole
      ((clip_row-index float_add clip i midi e1, placed), ap suc same)
