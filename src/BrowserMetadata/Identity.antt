-- ===== src/BrowserMetadata/Identity.antt =====
-- The identity of a file, and the path that is told of it: `file_id_for_path`, `_stat_file_id_for_path` and
-- `_safe_browser_path` of abletonosc/browser_metadata.py. The identity that Windows gives by a handle
-- is a parameter.
use ohmic_bridge.Prelude.{
  ◌≡◌, refl, inl, inr, Bool, false, Bool-cases, arith, ◌&&◌, ◌||◌, ◌==◌, if◌then◌else◌, Option,
  none, some, ◌∷◌, ◌++◌, Text, codes, Outcome, returned, raised, ◌>>=◌, type_error, value_error,
}
use ohmic_bridge.Prelude.Int.{ℤ, pos, negsuc}
use ohmic_bridge.Prelude.Texts.{strip, replace, leaf, starts_with, has_char}
use ohmic_bridge.Json.{json_int}
use ohmic_bridge.Browser.Paths.{strip_slashes_left, strip_slashes_right}
use ohmic_bridge.Browser.Paths.Output.{leaf-NoSlash}

-- `sys.platform`, as far as it is told apart.
pub data Platform : Type 0 where
  darwin win32 other_platform : Platform

-- What `int` makes of two fields of `os.stat`.
pub record FileNumbers : Type 0 where
  pub device : Outcome ℤ
  pub inode : Outcome ℤ

-- No identity for an inode that is not positive.
abbrev pub identity_of : Text → ℤ → ℤ → Option Text
identity_of platform device (negsuc n) = none
identity_of platform device (pos inode) =
    if inode == 0
    then none
    else some (
        codes "stat:"
        ++ platform
        ++ codes ":"
        ++ json_int device
        ++ codes ":"
        ++ json_int (pos inode))

-- `except (TypeError, ValueError): return None`
abbrev pub none_on_bad_value : Outcome (Option Text) → Outcome (Option Text)
none_on_bad_value (returned r) = returned r
none_on_bad_value (raised e) = elim (e.class) [
  | type_error ↦ returned none
  | value_error ↦ returned none
  | _ ↦ raised e
]

unfoldable pub stat_file_id : Text → Outcome FileNumbers → Outcome (Option Text)
stat_file_id platform (raised e) = raised e
stat_file_id platform (returned stat) =
    none_on_bad_value (
      stat.device >>= λ device.
      stat.inode >>= λ inode. returned (identity_of platform device inode))

-- The volume and the index of a file that Windows gives.
abbrev pub windows_identity : Option (Text × Text) → Option Text
windows_identity none = none
windows_identity (some (volume, index)) =
    some (codes "fileid:win32:" ++ volume ++ codes ":" ++ index)

abbrev pub or_windows : Option (Text × Text) → Outcome (Option Text) → Outcome (Option Text)
or_windows file_index (raised e) = raised e
or_windows file_index (returned (some id)) = returned (some id)
or_windows file_index (returned none) = returned (windows_identity file_index)

unfoldable pub file_id_for_path :
    Platform → Outcome FileNumbers → Option (Text × Text) → Outcome (Option Text)
file_id_for_path darwin stat file_index = stat_file_id (codes "darwin") stat
file_id_for_path win32 stat file_index = or_windows file_index (stat_file_id (codes "win32") stat)
file_id_for_path other_platform stat file_index = returned none

abbrev pub has_colon_second : Text → Bool
has_colon_second (c ∷ d ∷ s) = d == b':'
has_colon_second _ = false

-- `os.path.isabs` holds of no other path, on either system.
unfoldable pub safe_browser_path : Text → Text
safe_browser_path path =
    let normalised = replace b'\\' b'/' (strip path) in
    if has_colon_second normalised || starts_with normalised (codes "/")
    then leaf (strip_slashes_right (strip_slashes_left normalised))
    else normalised

-- The path that is told of a file names no folder above the browser's root: it has no slash, or it is
-- relative, without a drive.
pub safe_browser_path-tells_no_root :
    (path : Text)
    → has_char b'/' (safe_browser_path path)
        && (has_colon_second (safe_browser_path path)
            || starts_with (safe_browser_path path) (codes "/"))
      ≡ false
unfolding safe_browser_path
safe_browser_path-tells_no_root path = chosen (replace b'\\' b'/' (strip path))
  where
    chosen :
        (n : Text)
        → (let out =
              if has_colon_second n || starts_with n (codes "/")
              then leaf (strip_slashes_right (strip_slashes_left n))
              else n in
            has_char b'/' out && (has_colon_second out || starts_with out (codes "/")))
          ≡ false
    chosen n = elim (Bool-cases (has_colon_second n || starts_with n (codes "/"))) [
      | inl rooted ↦ rw (rooted, leaf-NoSlash (strip_slashes_right (strip_slashes_left n))) refl
      | inr relative ↦ rw relative (ground (arith, relative))
    ]
