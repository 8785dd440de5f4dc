-- ===== src/Browser/Examples.antt =====
-- A short listing.
use ohmic_bridge.Prelude.{List, [], ◌∷◌, Text, codes, arith}
use ohmic_bridge.Browser.{names_marker, search_marker}
use ohmic_bridge.Browser.Budget.{ListingFits, listings-fit}

abbrev devices : List Text
devices = codes "Wavetable" ∷ codes "Reverb" ∷ []

listings-fit_example : ListingFits names_marker devices × ListingFits search_marker devices
listings-fit_example = listings-fit devices (omega arith)
