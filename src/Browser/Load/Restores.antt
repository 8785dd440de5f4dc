-- ===== src/Browser/Load/Restores.antt =====
-- The insert mode of the track after a positioned load, and what a good reply says.
use ohmic_bridge.Prelude.{
  ℕ, ◌≡◌, refl, Bool, true, false, leb, if◌then◌else◌, Option, none, some, List, Text, Outcome,
  returned, raised, arith,
}
use ohmic_bridge.Prelude.Int.{ℤ, pos, negsuc}
use ohmic_bridge.Browser.Load.{
  InsertMode, append, before, after, unknown, positioned, load, LoadError, Live, Answers,
  assign_mode, Ended, restore, finish_load, do_load, set_and_load, outside, select_anchor, anchor,
  is_relative, prepare, on_track, select_then, select, check_target, Checked, refused, placed,
  check_mode, read_position, check_then, load_item, device_count,
}

-- The position of a positioned load.
abbrev IsPlaced : Checked → Type 0
IsPlaced (placed none) = ⊥
IsPlaced _ = Unit

check_mode-IsPlaced : (mode : InsertMode) (i : ℤ) → IsPlaced (check_mode mode i)
check_mode-IsPlaced unknown i = tt
check_mode-IsPlaced append i = tt
check_mode-IsPlaced before (pos i) = tt
check_mode-IsPlaced before (negsuc n) = tt
check_mode-IsPlaced after (pos i) = tt
check_mode-IsPlaced after (negsuc n) = tt

positioned-IsPlaced :
    (mode : InsertMode) (device_index : Option (Outcome ℤ))
    → IsPlaced (read_position (positioned mode device_index))
unfolding read_position
positioned-IsPlaced mode none = check_mode-IsPlaced mode (negsuc 0)
positioned-IsPlaced mode (some (raised e)) = tt
positioned-IsPlaced mode (some (returned i)) = check_mode-IsPlaced mode i

module _ (a : Answers) (is_preset : Bool) (track : ℕ) (accepts : a.restore_mode ≡ returned tt) where
  -- The mode of the track is as it was in `live`.
  abbrev Restored : Live → Ended → Type 0
  Restored live r = r.1.device_insert_mode track ≡ live.device_insert_mode track

  pick-Restored :
      (live : Live) (b : Bool) (x y : Ended)
      → Restored live x
      → Restored live y
      → Restored live (if b then x else y)
  pick-Restored live true x y p q = p
  pick-Restored live false x y p q = q

  restored_mode :
      (previous : ℕ) (live : Live)
      → (restore a track (some previous) live).device_insert_mode track ≡ previous
  unfolding restore assign_mode
  restored_mode previous live = rw accepts (ground arith)

  finish_load-Restored :
      (live : Live) (devices : Outcome (List (Outcome Text))) (r : Outcome (Unit {0}) × Live)
      → Restored live
          (finish_load a is_preset track (some (live.device_insert_mode track)) devices r)
  unfolding finish_load
  finish_load-Restored live devices (raised e, after_load) =
      restored_mode (live.device_insert_mode track) after_load
  finish_load-Restored live devices (returned u, after_load) =
      restored_mode (live.device_insert_mode track) after_load

  set_and_load-Restored :
      (live : Live) (mode : InsertMode) (answer : Outcome (Unit {0}))
      → Restored live (set_and_load a is_preset track mode answer live)
  unfolding set_and_load do_load
  set_and_load-Restored live mode (raised e) = refl
  set_and_load-Restored live mode (returned u) = finish_load-Restored live _ _

  anchor-Restored :
      (live : Live) (mode : InsertMode) (i : ℤ) (count : Option ℕ)
      → Restored live (anchor a is_preset track mode i count live)
  unfolding anchor
  anchor-Restored live mode i none = refl
  anchor-Restored live mode i (some count) =
      pick-Restored live (outside i count) _ _ refl (selected a.select_device)
    where
      selected :
          (answer : Outcome (Unit {0}))
          → Restored live (select_anchor a is_preset track mode answer live)
      selected (raised e) = unfold select_anchor in refl
      selected (returned u) = unfold select_anchor in set_and_load-Restored live mode a.set_mode

  prepare-Restored :
      (live : Live) (mode : InsertMode) (i : ℤ) (has_view has_mode : Outcome Bool)
      → Restored live (prepare a is_preset track mode i has_view has_mode live)
  unfolding prepare
  prepare-Restored live mode i (raised e) has_mode = refl
  prepare-Restored live mode i (returned false) has_mode = refl
  prepare-Restored live mode i (returned true) (raised e) = refl
  prepare-Restored live mode i (returned true) (returned false) = refl
  prepare-Restored live mode i (returned true) (returned true) =
      pick-Restored live (is_relative mode) _ _
        (anchor-Restored live mode i (device_count (live.devices track)))
        (set_and_load-Restored live mode a.set_mode)

  select-Restored :
      (live : Live) (mode : InsertMode) (i : ℤ) (count : Outcome ℕ)
      → Restored live (select a is_preset (pos track) (some (mode, i)) count live)
  unfolding select
  select-Restored live mode i (raised e) = refl
  select-Restored live mode i (returned count) =
      pick-Restored live (leb count track) _ _ refl (selected a.select_track)
    where
      selected :
          (answer : Outcome (Unit {0}))
          → Restored live (select_then a is_preset track (some (mode, i)) answer live)
      selected (raised e) = unfold select_then in refl
      selected (returned u) =
          unfold select_then on_track in prepare-Restored live mode i a.has_view a.has_insert_mode

  checked-Restored :
      (live : Live) (c : Checked) (wrong : Option LoadError)
      → IsPlaced c
      → Restored live (check_then a is_preset (pos track) c wrong live)
  unfolding check_then
  checked-Restored live (refused e) wrong h = refl
  checked-Restored live (placed none) wrong h = absurd h
  checked-Restored live (placed (some (mode, i))) none h = select-Restored live mode i a.tracks
  checked-Restored live (placed (some (mode, i))) (some e) h = refl

  -- A positioned load onto a track, with any mode and index: if Live accepts the mode from before when
  -- it is assigned again, then the track has that mode afterwards, whichever test fails, whatever
  -- raises, and whatever the loading itself changes.
  pub load_item-Restored :
      (live : Live) (mode : InsertMode) (device_index : Option (Outcome ℤ))
      → (load_item a is_preset
            (load (returned (pos track)) (positioned mode device_index))
            live).1.device_insert_mode
          track
        ≡ live.device_insert_mode track
  unfolding load_item
  load_item-Restored live mode device_index =
      checked-Restored live (read_position (positioned mode device_index)) (check_target a)
        (positioned-IsPlaced mode device_index)
