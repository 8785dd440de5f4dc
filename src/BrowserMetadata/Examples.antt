-- ===== src/BrowserMetadata/Examples.antt =====
-- A rack that is read, one that is too large, and one that changes while it is read.
use ohmic_bridge.Prelude.{
  ◌*◌, ◌≤◌, ◌≡◌, refl, true, none, some, [], ◌∷◌, Text, codes, text_eq, returned, Exn, os_error,
  arith,
}
use ohmic_bridge.Prelude.Int.{pos}
use ohmic_bridge.Json.{json_int}
use ohmic_bridge.Decimal.{decimal}
use ohmic_bridge.Prelude.Texts.{strip, replace, leaf, has_char, starts_with}
use ohmic_bridge.Browser.Paths.{strip_slashes_left, strip_slashes_right}
use ohmic_bridge.BrowserMetadata.{
  Stat, FileAnswers, Key, FileMetadata, fresh_hashes, hash_within_budget, sha256_metadata, lookup,
  sha256_cache_key, is_unchanged, safe_file_id, stat_identity_changed, metadata_for_file,
}
use ohmic_bridge.BrowserMetadata.Budget.{behind, hashed-le-budget}
use ohmic_bridge.BrowserMetadata.Sound.{IsSound, stat_of, metadata_for_file-IsTold}
use ohmic_bridge.BrowserMetadata.Identity.{
  darwin, stat_file_id, file_id_for_path, safe_browser_path,
}

abbrev rack : Stat
rack = record { size = 4096; mtime_ns = pos 7 }

abbrev denied : Exn
denied = record { class = os_error; message = [] }

abbrev read_rack : FileAnswers
read_rack = record {
  is_supported = true;
  stat = returned rack;
  file_id = returned (some (codes "id"));
  read_size = 4096;
  digest = returned (codes "abc");
  stat_again = returned rack;
  file_id_again = returned (some (codes "id"));
}

abbrev changing : FileAnswers
changing = record read_rack { stat_again = returned (record { size = 5000; mtime_ns = pos 8 }) }

abbrev large : FileAnswers
large = record read_rack { stat = returned (record { size = 600000; mtime_ns = pos 7 }) }

rack_ready : metadata_for_file read_rack (codes "/Kit.adg") (fresh_hashes []) ≡ (
  returned (
      some (record {
        size = 4096;
        mtime_ns = pos 7;
        file_id = some (codes "id");
        sha256 = some (codes "abc");
      })),
  record {
    cache = (sha256_cache_key (codes "/Kit.adg") rack (some (codes "id")), codes "abc") ∷ [];
    budget = some (record { remaining = some 2093056; remaining_bytes = some 2093056 });
    hashed = 4096;
  },
)
unfolding metadata_for_file sha256_metadata hash_within_budget lookup is_unchanged safe_file_id
    stat_identity_changed text_eq
rack_ready = refl

changing_pending :
    (metadata_for_file changing (codes "/Kit.adg") (fresh_hashes [])).0
    ≡ returned (
        some (record { size = 4096; mtime_ns = pos 7; file_id = some (codes "id"); sha256 = none }))
unfolding metadata_for_file sha256_metadata hash_within_budget lookup is_unchanged safe_file_id
    stat_identity_changed text_eq
changing_pending = refl

hashed-le-budget_example :
    (behind
      ((read_rack, codes "/Kit.adg")
        ∷ (large, codes "/Big.amxd")
        ∷ (changing, codes "/Kit.adg")
        ∷ [])
      (fresh_hashes [])).hashed
    ≤ 2 * 1024 * 1024
hashed-le-budget_example =
    hashed-le-budget
      ((read_rack, codes "/Kit.adg")
        ∷ (large, codes "/Big.amxd")
        ∷ (changing, codes "/Kit.adg")
        ∷ [])
      []

-- The digest that belongs to a key of this size.
abbrev IsAbc : Key → Text → Type 0
IsAbc key d = d ≡ codes "abc"

metadata_for_file-IsTold_example :
    IsSound IsAbc (metadata_for_file read_rack (codes "/Kit.adg") (fresh_hashes [])).1.cache
    × ((m : FileMetadata) (d : Text)
        → (metadata_for_file read_rack (codes "/Kit.adg") (fresh_hashes [])).0 ≡ returned (some m)
        → m.sha256 ≡ some d
        → IsAbc (sha256_cache_key (codes "/Kit.adg") (stat_of m) m.file_id) d
          × (is_unchanged read_rack (stat_of m) m.file_id ≡ returned true))
metadata_for_file-IsTold_example =
    metadata_for_file-IsTold IsAbc read_rack (codes "/Kit.adg")
      (λ stat file_id d unchanged read. ground (arith, read)) (fresh_hashes []) tt

mac_identity :
    file_id_for_path darwin
      (returned (record { device = returned (pos 1); inode = returned (pos 42) }))
      none
    ≡ returned (some (codes "stat:darwin:1:42"))
unfolding file_id_for_path stat_file_id json_int decimal
mac_identity = refl

no_folders : safe_browser_path (codes "C:\\Users\\me\\Kit.adg") ≡ codes "Kit.adg"
unfolding safe_browser_path strip replace leaf has_char starts_with strip_slashes_left
    strip_slashes_right
no_folders = refl
