-- ===== src/Browser/Load/Examples.antt =====
-- A device loaded behind the first of a track; the loading itself sets another insert mode.
use ohmic_bridge.Prelude.{◌≡◌, refl, true, false, some, [], ◌∷◌, codes, returned}
use ohmic_bridge.Prelude.Int.{pos}
use ohmic_bridge.Browser.Load.{after, positioned, load, Live, Answers, load_item}
use ohmic_bridge.Browser.Load.Restores.{load_item-Restored}

abbrev live : Live
live = record {
  device_insert_mode = λ t. 0;
  devices = λ t. returned (returned (codes "Operator") ∷ []);
}

abbrev answers : Answers
answers = record {
  has_browser = true;
  max_for_live_missing = false;
  has_load_item = true;
  category_known = true;
  category_supported = true;
  target = some (returned true);
  tracks = returned 2;
  select_track = returned tt;
  has_view = returned true;
  has_insert_mode = returned true;
  select_device = returned tt;
  set_mode = returned tt;
  load_item = λ l. (
    returned tt,
    record {
      device_insert_mode = λ t. 2;
      devices = λ t. returned (returned (codes "Operator") ∷ returned (codes "Reverb") ∷ []);
    },
  );
  restore_mode = returned tt;
}

load_item-Restored_example :
    (load_item answers false
        (load (returned (pos 1)) (positioned after (some (returned (pos 0)))))
        live).1.device_insert_mode
      1
    ≡ 0
load_item-Restored_example =
    load_item-Restored answers false 1 refl live after (some (returned (pos 0)))
