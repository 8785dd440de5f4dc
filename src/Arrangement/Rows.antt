-- ===== src/Arrangement/Rows.antt =====
-- The data of abletonosc/arrangement_view.py: a clip's row, the clips of each track as the
-- snapshot's dictionary holds them, and their JSON. A key `str(track_index)` is the index itself,
-- and a float is its `repr`, which is what `json.dumps` writes.
pub mod Dict
use ohmic_bridge.Prelude.{
  ℕ, Bool, true, false, ◌||◌, ◌==◌, if◌then◌else◌, Option, List, [], ◌∷◌, ◌++◌, map, Text, codes,
}
use ohmic_bridge.Prelude.Int.{ℤ}
use ohmic_bridge.Decimal.{decimal}
use ohmic_bridge.Json.{
  default, json_str, json_int, json_bool, json_option, json_array, json_object, json_null,
}

-- A float is the text that `json.dumps` writes for it, so floats are compared by these texts. Python's
-- `==` differs from that at two places: it takes 0.0 and -0.0 for the same, and NaN for another.
abbrev pub Float : Type 0
Float = Text

-- What `_clip_row` returns.
pub record ClipRow : Type 0 where
  pub index : ℕ
  pub clip_id : Text
  pub name : Text
  pub start : Float
  pub length : Float
  pub end : Float
  pub looping : Bool
  pub loop_start : Option Float
  pub loop_end : Option Float
  pub start_marker : Option Float
  pub color : Option Text
  pub color_index : Option ℤ
  pub notes_signature : Option Text

unfoldable pub row_json : ClipRow → Text
row_json r = json_object default (
    (codes "index", decimal r.index)
    ∷ (codes "clip_id", json_str r.clip_id)
    ∷ (codes "name", json_str r.name)
    ∷ (codes "start", r.start)
    ∷ (codes "length", r.length)
    ∷ (codes "end", r.end)
    ∷ (codes "looping", json_bool r.looping)
    ∷ (codes "loop_start", json_option (λ x. x) r.loop_start)
    ∷ (codes "loop_end", json_option (λ x. x) r.loop_end)
    ∷ (codes "start_marker", json_option (λ x. x) r.start_marker)
    ∷ (codes "color", json_option json_str r.color)
    ∷ (codes "color_index", json_option json_int r.color_index)
    ∷ (codes "notes_signature", json_option json_str r.notes_signature)
    ∷ [])

-- A dictionary from track keys to clip rows, in insertion order.
abbrev pub Clips : Type 0
Clips = List (ℕ × List ClipRow)

-- `key in d`
unfoldable pub has_key : Clips → ℕ → Bool
has_key [] k = false
has_key ((j, v) ∷ m) k = j == k || has_key m k

-- `d[key] = v`
unfoldable pub dict_set : Clips → ℕ → List ClipRow → Clips
dict_set [] k v = (k, v) ∷ []
dict_set ((j, w) ∷ m) k v = if j == k then (j, v) ∷ m else (j, w) ∷ dict_set m k v

-- `d.setdefault(key, []).extend(v)`
unfoldable pub dict_extend : Clips → ℕ → List ClipRow → Clips
dict_extend [] k v = (k, v) ∷ []
dict_extend ((j, w) ∷ m) k v = if j == k then (j, w ++ v) ∷ m else (j, w) ∷ dict_extend m k v

-- `d.get(key, [])`
unfoldable pub dict_get : Clips → ℕ → List ClipRow
dict_get [] k = []
dict_get ((j, v) ∷ m) k = if j == k then v else dict_get m k

abbrev pub entry_json : ℕ × List ClipRow → Text × Text
entry_json e = (decimal e.0, json_array default (map row_json e.1))

unfoldable pub clips_json : Clips → Text
clips_json m = json_object default (map entry_json m)
