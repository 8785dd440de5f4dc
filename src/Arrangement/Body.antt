-- ===== src/Arrangement/Body.antt =====
-- The value of `_snapshot_body` in abletonosc/arrangement_view.py, its text with sorted keys, and
-- the identity of a snapshot.
use ohmic_bridge.Prelude.{
  ℕ, Bool, true, false, if◌then◌else◌, ltb, ◌==◌, Option, List, [], ◌∷◌, ◌++◌, map, Text, codes,
  take,
}
use ohmic_bridge.Decimal.{decimal}
use ohmic_bridge.Json.{default, json_str, json_int, json_bool, json_option, json_array, json_object}
use ohmic_bridge.Arrangement.Rows.{Float, ClipRow, Clips}

pub record Locator : Type 0 where
  pub name : Text
  pub time : Float

-- The keys that `_metadata_changed` compares.
pub record Layout : Type 0 where
  pub track_names : List Text
  pub track_indices : List ℕ
  pub midi_tracks : List Bool
  pub track_colors : List Text
  pub is_group_tracks : List Bool
  pub group_parent_indices : List (Option ℕ)

-- `locators_available` is always true, and is not a field.
pub record Body : Type 0 where
  pub layout : Layout
  pub clips : Clips
  pub locators : List Locator
  pub current_song_time : Option Float

-- A clip's row as `sort_keys=True` writes it.
sorted_row_json : ClipRow → Text
sorted_row_json r = json_object default (
    (codes "clip_id", json_str r.clip_id)
    ∷ (codes "color", json_option json_str r.color)
    ∷ (codes "color_index", json_option json_int r.color_index)
    ∷ (codes "end", r.end)
    ∷ (codes "index", decimal r.index)
    ∷ (codes "length", r.length)
    ∷ (codes "loop_end", json_option (λ x. x) r.loop_end)
    ∷ (codes "loop_start", json_option (λ x. x) r.loop_start)
    ∷ (codes "looping", json_bool r.looping)
    ∷ (codes "name", json_str r.name)
    ∷ (codes "notes_signature", json_option json_str r.notes_signature)
    ∷ (codes "start", r.start)
    ∷ (codes "start_marker", json_option (λ x. x) r.start_marker)
    ∷ [])

-- The order of texts, by code points.
text_ltb : Text → Text → Bool
text_ltb s [] = false
text_ltb [] (d ∷ t) = true
text_ltb (c ∷ s) (d ∷ t) = if c == d then text_ltb s t else ltb c d

insert_entry : Text × Text → List (Text × Text) → List (Text × Text)
unfolding text_ltb
insert_entry e [] = e ∷ []
insert_entry e (f ∷ m) = if text_ltb f.0 e.0 then f ∷ insert_entry e m else e ∷ f ∷ m

sort_entries : List (Text × Text) → List (Text × Text)
unfolding insert_entry
sort_entries [] = []
sort_entries (e ∷ m) = insert_entry e (sort_entries m)

sorted_clips_json : Clips → Text
unfolding sort_entries sorted_row_json
sorted_clips_json m =
    json_object default
      (sort_entries (map (λ e. (decimal e.0, json_array default (map sorted_row_json e.1))) m))

pub locator_json : Locator → Text
locator_json l = json_object default ((codes "name", json_str l.name) ∷ (codes "time", l.time) ∷ [])

sorted_body_json : Body → Text
unfolding sorted_clips_json locator_json
sorted_body_json b = json_object default (
    (codes "clips", sorted_clips_json b.clips)
    ∷ (codes "current_song_time", json_option (λ x. x) b.current_song_time)
    ∷ (
      codes "group_parent_indices",
      json_array default (map (json_option decimal) b.layout.group_parent_indices),
    )
    ∷ (codes "is_group_tracks", json_array default (map json_bool b.layout.is_group_tracks))
    ∷ (codes "locators", json_array default (map locator_json b.locators))
    ∷ (codes "locators_available", json_bool true)
    ∷ (codes "midi_tracks", json_array default (map json_bool b.layout.midi_tracks))
    ∷ (codes "track_colors", json_array default (map json_str b.layout.track_colors))
    ∷ (codes "track_indices", json_array default (map decimal b.layout.track_indices))
    ∷ (codes "track_names", json_array default (map json_str b.layout.track_names))
    ∷ [])

-- `_snapshot_id`, from the hexadecimal SHA-1 digest.
unfoldable pub snapshot_id : (Text → Text) → Body → ℕ → Text
unfolding sorted_body_json
snapshot_id sha1_hex body revision =
    codes "arrangement-"
    ++ decimal revision
    ++ codes "-"
    ++ take 16 (
        sha1_hex (
          json_object default
            ((codes "body", sorted_body_json body) ∷ (codes "revision", decimal revision) ∷ [])))
