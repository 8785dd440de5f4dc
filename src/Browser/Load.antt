-- ===== src/Browser/Load.antt =====
-- `load_item` of abletonosc/browser.py: an item of the browser is loaded onto a track, perhaps before or
-- behind one of its devices. `Answers` is what Live answers to each call on the way; loading may change
-- anything in Live.
pub mod Restores
mod Examples
use ohmic_bridge.Prelude.{
  ℕ, ◌+◌, ◌<◌, Bool, true, false, ◌&&◌, ◌||◌, not, ◌==◌, ltb, leb, if◌then◌else◌, Option, none,
  some, List, [], ◌∷◌, Text, length, Outcome, returned, raised,
}
use ohmic_bridge.Prelude.Int.{ℤ, pos, negsuc}
use ohmic_bridge.Browser.{find_inserted_device_index}

-- `append`, `before` and `after` are the values 0, 1 and 2 of `device_insert_mode`; a text that is none
-- of them is unknown.
pub data InsertMode : Type 0 where
  append before after unknown : InsertMode

-- A fourth argument makes a load positioned; the fifth, if it is given, is read by `int`.
pub data Position : Type 0 where
  not_positioned : Position
  positioned : (insert_mode : InsertMode) → (device_index : Option (Outcome ℤ)) → Position

-- The arguments, if there are three or more: the first as `int` reads it.
pub data Request : Type 0 where
  too_few : Request
  load : (track_index : Outcome ℤ) → Position → Request

pub data LoadError : Type 0 where
  requires_arguments bad_track_index bad_device_index bad_insert_mode device_index_required :
      LoadError
  no_browser not_supported no_load_item unknown_category category_not_supported : LoadError
  item_not_found not_loadable track_out_of_range select_failed : LoadError
  no_track_view no_insert_mode device_out_of_range prepare_failed load_failed : LoadError

-- The index of the inserted device stands in the reply to a positioned load.
pub data Reply : Type 0 where
  load_error : LoadError → Reply
  loaded : (actual_index : Option ℕ) → Reply
  unchanged_warning : (actual_index : Option ℕ) → Reply

-- The part of Live that the handler changes or reads: each track's `device_insert_mode` and devices.
pub record Live : Type 0 where
  pub device_insert_mode : ℕ → ℕ
  -- A track's `devices`, each with its name.
  pub devices : ℕ → Outcome (List (Outcome Text))

pub record Answers : Type 0 where
  pub has_browser : Bool
  pub max_for_live_missing : Bool
  pub has_load_item : Bool
  pub category_known : Bool
  pub category_supported : Bool
  -- The item that is found, with its `is_loadable`.
  pub target : Option (Outcome Bool)
  -- `len(self.song.tracks)`, and the selection of the track.
  pub tracks : Outcome ℕ
  pub select_track : Outcome (Unit {0})
  pub has_view : Outcome Bool
  pub has_insert_mode : Outcome Bool
  pub select_device : Outcome (Unit {0})
  pub set_mode : Outcome (Unit {0})
  -- `browser.load_item(target)`
  pub load_item : Live → Outcome (Unit {0}) × Live
  pub restore_mode : Outcome (Unit {0})

abbrev pub mode_value : InsertMode → ℕ
mode_value append = 0
mode_value before = 1
mode_value after = 2
mode_value unknown = 0

-- An assignment to the mode of a track, if Live accepts it.
unfoldable pub assign_mode : Outcome (Unit {0}) → ℕ → ℕ → Live → Live
assign_mode (raised e) track mode live = live
assign_mode (returned u) track mode live = record live {
  device_insert_mode = λ t. if t == track then mode else live.device_insert_mode t;
}

abbrev pub Ended : Type 0
Ended = Reply × Live

-- `_device_names`: none at all if one of them cannot be read.
abbrev pub all_names : List (Outcome Text) → Option (List Text)
all_names [] = some []
all_names (raised e ∷ rest) = none
all_names (returned name ∷ rest) = elim (all_names rest) [
  | none ↦ none
  | some names ↦ some (name ∷ names)
]

abbrev pub device_names : Outcome (List (Outcome Text)) → List Text
device_names (raised e) = []
device_names (returned devices) = elim (all_names devices) [ none ↦ [] | some names ↦ names ]

-- `len(track.devices)`; none is -1.
abbrev pub device_count : Outcome (List (Outcome Text)) → Option ℕ
device_count (raised e) = none
device_count (returned devices) = some (length devices)

-- Is it known that there are no more devices than before?
abbrev pub not_increased : Option ℕ → Option ℕ → Bool
not_increased none m = false
not_increased (some n) none = false
not_increased (some n) (some m) = leb m n

-- The test of the device counts, unless the category is one of presets, and the reply after a load.
unfoldable pub verify :
    Bool → Bool → Outcome (List (Outcome Text)) → Outcome (List (Outcome Text)) → Reply
verify is_preset is_positioned devices_before devices_after =
    let actual =
      if is_positioned
      then find_inserted_device_index (device_names devices_before) (device_names devices_after)
      else none in
    if not is_preset && not_increased (device_count devices_before) (device_count devices_after)
    then unchanged_warning actual
    else loaded actual

-- The `finally` clause: the mode from before, of a positioned load.
unfoldable pub restore : Answers → ℕ → Option ℕ → Live → Live
restore live_answers track none live = live
restore live_answers track (some previous) live =
    assign_mode live_answers.restore_mode track previous live

abbrev pub is_some : Option ℕ → Bool
is_some none = false
is_some (some n) = true

-- The load with its `except` and `finally`.
unfoldable pub finish_load :
    Answers
    → Bool
    → ℕ
    → Option ℕ
    → Outcome (List (Outcome Text))
    → Outcome (Unit {0}) × Live
    → Ended
finish_load a is_preset track previous devices_before (raised e, live) =
    (load_error load_failed, restore a track previous live)
finish_load a is_preset track previous devices_before (returned u, live) =
    let live' = restore a track previous live in
    (verify is_preset (is_some previous) devices_before (live'.devices track), live')

unfoldable pub do_load : Answers → Bool → ℕ → Option ℕ → Live → Ended
do_load a is_preset track previous live =
    finish_load a is_preset track previous (live.devices track) (a.load_item live)

-- The mode is set for the load, or that failed.
unfoldable pub set_and_load : Answers → Bool → ℕ → InsertMode → Outcome (Unit {0}) → Live → Ended
set_and_load a is_preset track mode (raised e) live = (load_error prepare_failed, live)
set_and_load a is_preset track mode (returned u) live =
    do_load a is_preset track (some (live.device_insert_mode track))
      (assign_mode (returned u) track (mode_value mode) live)

unfoldable pub select_anchor : Answers → Bool → ℕ → InsertMode → Outcome (Unit {0}) → Live → Ended
select_anchor a is_preset track mode (raised e) live = (load_error prepare_failed, live)
select_anchor a is_preset track mode (returned u) live =
    set_and_load a is_preset track mode a.set_mode live

-- The selection of the device before or behind which to insert.
abbrev pub outside : ℤ → ℕ → Bool
outside (negsuc n) count = true
outside (pos i) count = leb count i

unfoldable pub anchor : Answers → Bool → ℕ → InsertMode → ℤ → Option ℕ → Live → Ended
anchor a is_preset track mode i none live = (load_error prepare_failed, live)
anchor a is_preset track mode i (some count) live =
    if outside i count
    then (load_error device_out_of_range, live)
    else select_anchor a is_preset track mode a.select_device live

abbrev pub is_relative : InsertMode → Bool
is_relative before = true
is_relative after = true
is_relative _ = false

unfoldable pub prepare :
    Answers → Bool → ℕ → InsertMode → ℤ → Outcome Bool → Outcome Bool → Live → Ended
prepare a is_preset track mode device_index (raised e) has_mode live =
    (load_error prepare_failed, live)
prepare a is_preset track mode device_index (returned false) has_mode live =
    (load_error no_track_view, live)
prepare a is_preset track mode device_index (returned true) (raised e) live =
    (load_error prepare_failed, live)
prepare a is_preset track mode device_index (returned true) (returned false) live =
    (load_error no_insert_mode, live)
prepare a is_preset track mode device_index (returned true) (returned true) live =
    if is_relative mode
    then anchor a is_preset track mode device_index (device_count (live.devices track)) live
    else set_and_load a is_preset track mode a.set_mode live

-- The position of a load: none, or the mode and the index, which is -1 if it is not given.
unfoldable pub on_track : Answers → Bool → ℕ → Option (InsertMode × ℤ) → Live → Ended
on_track a is_preset track none live = do_load a is_preset track none live
on_track a is_preset track (some (mode, device_index)) live =
    prepare a is_preset track mode device_index a.has_view a.has_insert_mode live

unfoldable pub select_then :
    Answers → Bool → ℕ → Option (InsertMode × ℤ) → Outcome (Unit {0}) → Live → Ended
select_then a is_preset track position (raised e) live = (load_error select_failed, live)
select_then a is_preset track position (returned u) live = on_track a is_preset track position live

unfoldable pub select : Answers → Bool → ℤ → Option (InsertMode × ℤ) → Outcome ℕ → Live → Ended
select a is_preset track_index position (raised e) live = (load_error select_failed, live)
select a is_preset (negsuc n) position (returned count) live = (load_error track_out_of_range, live)
select a is_preset (pos track) position (returned count) live =
    if leb count track
    then (load_error track_out_of_range, live)
    else select_then a is_preset track position a.select_track live

-- The tests on the browser and the item.
unfoldable pub check_target : Answers → Option LoadError
check_target a =
    if not a.has_browser
    then some no_browser
    else if a.max_for_live_missing
    then some not_supported
    else if not a.has_load_item
    then some no_load_item
    else if not a.category_known
    then some unknown_category
    else if not a.category_supported
    then some category_not_supported
    else elim (a.target) [
      | none ↦ some item_not_found
      | some (raised e) ↦ some not_loadable
      | some (returned loadable) ↦ if loadable then none else some not_loadable
    ]

-- The tests on the arguments: an error, or the mode and the index of a positioned load.
pub data Checked : Type 0 where
  refused : LoadError → Checked
  placed : Option (InsertMode × ℤ) → Checked

-- `before` and `after` want an index that is not negative.
abbrev pub check_mode : InsertMode → ℤ → Checked
check_mode unknown i = refused bad_insert_mode
check_mode append i = placed (some (append, i))
check_mode before (pos i) = placed (some (before, pos i))
check_mode before (negsuc n) = refused device_index_required
check_mode after (pos i) = placed (some (after, pos i))
check_mode after (negsuc n) = refused device_index_required

unfoldable pub read_position : Position → Checked
read_position not_positioned = placed none
read_position (positioned mode none) = check_mode mode (negsuc 0)
read_position (positioned mode (some (raised e))) = refused bad_device_index
read_position (positioned mode (some (returned i))) = check_mode mode i

unfoldable pub check_then : Answers → Bool → ℤ → Checked → Option LoadError → Live → Ended
check_then a is_preset track (refused e) wrong live = (load_error e, live)
check_then a is_preset track (placed position) (some e) live = (load_error e, live)
check_then a is_preset track (placed position) none live =
    select a is_preset track position a.tracks live

unfoldable pub load_item : Answers → Bool → Request → Live → Ended
load_item a is_preset too_few live = (load_error requires_arguments, live)
load_item a is_preset (load (raised e) position) live = (load_error bad_track_index, live)
load_item a is_preset (load (returned track) position) live =
    check_then a is_preset track (read_position position) (check_target a) live
