-- ===== src/SessionInfo/Rows.antt =====
-- What the loop of `session_info` of abletonosc/song.py makes of one track.
use ohmic_bridge.Prelude.{
  ℕ, suc, ◌≡◌, refl, ap, ◌∙◌, Bool, true, false, Option, List, Text, length, length-behind, Outcome,
  returned, raised, ◌>>=◌, >>=-eq-returned, Outcome-cases, inl, inr,
}
use ohmic_bridge.Prelude.Int.{ℤ}
use ohmic_bridge.Color.{color_hex}
use ohmic_bridge.Arrangement.Reading.{TrackRef, track_index_for_parent}
use ohmic_bridge.SessionInfo.{
  InfoTrack, TrackColumns, InfoRow, push, error_row, group_flag, or_no_parent, read_info_track,
}

-- The row of a track all of whose attributes can be read.
unfoldable pub info_row : List TrackRef → InfoTrack → Outcome InfoRow
info_row refs t = t.name >>= λ name. t.color >>= λ color. t.has_midi_input >>= λ is_midi.
    track_index_for_parent (or_no_parent t.group_track) refs >>= λ parent_index. t.mute >>= λ mute.
    t.playing_slot_index >>= λ playing_slot. returned (record {
      name = name;
      color = color_hex color;
      is_midi = is_midi;
      is_group = group_flag t.is_foldable;
      parent_index = parent_index;
      mute = mute;
      playing_slot = playing_slot;
    })

abbrev pub or_error : Outcome InfoRow → InfoRow
or_error (returned row) = row
or_error (raised e) = error_row

abbrev pub has_returned : {V : Type 0} → Outcome V → Bool
has_returned (returned v) = true
has_returned (raised e) = false

read_values :
    (refs : List TrackRef) (t : InfoTrack) (c : TrackColumns) (name : Text) (color : ℤ)
    (is_midi : Bool) (parent : Option ℕ) (mute : Bool) (slot : ℤ)
    → t.name ≡ returned name
    → t.color ≡ returned color
    → t.has_midi_input ≡ returned is_midi
    → track_index_for_parent (or_no_parent t.group_track) refs ≡ returned parent
    → t.mute ≡ returned mute
    → t.playing_slot_index ≡ returned slot
    → read_info_track refs t c ≡ (
      true,
      push
          (record {
            name = name;
            color = color_hex color;
            is_midi = is_midi;
            is_group = group_flag t.is_foldable;
            parent_index = parent;
            mute = mute;
            playing_slot = slot;
          })
          c,
    )
unfolding read_info_track
read_values refs t c name color is_midi parent mute slot e1 e2 e3 e4 e5 e6 =
    rw (e1, e2, e3, e4, e5, e6) refl

pub read_whole :
    (refs : List TrackRef) (t : InfoTrack) (row : InfoRow) (c : TrackColumns)
    → info_row refs t ≡ returned row
    → read_info_track refs t c ≡ (true, push row c)
unfolding info_row read_info_track
read_whole refs t row c h =
    let (name, e1, r1) = >>=-eq-returned t.name _ h in
    let (color, e2, r2) = >>=-eq-returned t.color _ r1 in
    let (is_midi, e3, r3) = >>=-eq-returned t.has_midi_input _ r2 in
    let (parent, e4, r4) =
      >>=-eq-returned (track_index_for_parent (or_no_parent t.group_track) refs) _ r3 in
    let (mute, e5, r5) = >>=-eq-returned t.mute _ r4 in
    let (slot, e6, r6) = >>=-eq-returned t.playing_slot_index _ r5 in
    read_values refs t c name color is_midi parent mute slot e1 e2 e3 e4 e5 e6
    ∙ (ap (λ o. (true, push (or_error o) c)) r6)

-- What a track leaves that raises behind its name.
abbrev pub IsLate : TrackColumns → Bool × TrackColumns → Type 0
IsLate c (ended, c') =
    (ended ≡ false)
    × (length c'.track_names ≡ suc (length c.track_names))
    × (c'.playing_slots ≡ c.playing_slots)

pub read-IsLate :
    (refs : List TrackRef) (t : InfoTrack) (name : Text) (c : TrackColumns)
    → t.name ≡ returned name
    → has_returned (info_row refs t) ≡ false
    → IsLate c (read_info_track refs t c)
unfolding info_row read_info_track
read-IsLate refs t name c named h =
    let longer = length-behind c.track_names name in
    elim (Outcome-cases t.color) [
      | inl (e, h1) ↦ rw (named, h1) (refl, longer, refl)
      | inr (color, h1) ↦ elim (Outcome-cases t.has_midi_input) [
        | inl (e, h2) ↦ rw (named, h1, h2) (refl, longer, refl)
        | inr (is_midi, h2) ↦
            elim (Outcome-cases (track_index_for_parent (or_no_parent t.group_track) refs)) [
              | inl (e, h3) ↦ rw (named, h1, h2, h3) (refl, longer, refl)
              | inr (parent, h3) ↦ elim (Outcome-cases t.mute) [
                | inl (e, h4) ↦ rw (named, h1, h2, h3, h4) (refl, longer, refl)
                | inr (mute, h4) ↦ elim (Outcome-cases t.playing_slot_index) [
                  | inl (e, h5) ↦ rw (named, h1, h2, h3, h4, h5) (refl, longer, refl)
                  | inr (slot, h5) ↦ absurd (cc (h, named, h1, h2, h3, h4, h5))
                ]
              ]
            ]
      ]
    ]

-- A track whose name raises leaves nothing.
pub read_unnamed :
    (refs : List TrackRef) (t : InfoTrack) (c : TrackColumns)
    → has_returned t.name ≡ false
    → (read_info_track refs t c ≡ (false, c)) × (or_error (info_row refs t) ≡ error_row)
unfolding info_row read_info_track
read_unnamed refs t c h = elim (Outcome-cases t.name) [
  | inl (e, raises) ↦ rw raises (refl, refl)
  | inr (name, named) ↦ absurd (cc (h, named))
]
