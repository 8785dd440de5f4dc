-- ===== src/BrowserMetadata.antt =====
-- abletonosc/browser_metadata.py: what is told of a file of the user library, with a digest of its
-- content that is kept in a cache and costs a budget of bytes. What the file system answers to each
-- call is an argument.
pub mod Budget
pub mod Sound
pub mod Identity
mod Examples
use ohmic_bridge.Prelude.{
  ℕ, ◌+◌, ◌-◌, ◌*◌, Bool, true, false, ◌&&◌, ◌||◌, not, ◌==◌, ltb, if◌then◌else◌, Option, none,
  some, List, [], ◌∷◌, ◌++◌, Text, text_eq, codes, is_empty, Outcome, returned, raised, ◌>>=◌,
  os_error, type_error, value_error,
}
use ohmic_bridge.Prelude.Int.{ℤ, pos, negsuc}
use ohmic_bridge.Prelude.Texts.{strip, replace, leaf, starts_with}
use ohmic_bridge.Json.{json_int}
use ohmic_bridge.Browser.Paths.{strip_slashes_left, strip_slashes_right}

-- `MAX_METADATA_HASH_BYTES_PER_CALL` and `MAX_SINGLE_SYNC_HASH_BYTES`
abbrev pub max_metadata_hash_bytes_per_call : ℕ
max_metadata_hash_bytes_per_call = 2 * 1024 * 1024

abbrev pub max_single_sync_hash_bytes : ℕ
max_single_sync_hash_bytes = 512 * 1024

pub record Stat : Type 0 where
  pub size : ℕ
  pub mtime_ns : ℤ

-- The answers to the calls for one file: `os.stat` and the identity at first, the bytes that
-- `sha256_for_path` reads, to the end of the file or to an error, with the digest of them, and the two
-- again behind it.
pub record FileAnswers : Type 0 where
  pub is_supported : Bool
  pub stat : Outcome Stat
  pub file_id : Outcome (Option Text)
  pub read_size : ℕ
  pub digest : Outcome Text
  pub stat_again : Outcome Stat
  pub file_id_again : Outcome (Option Text)

-- The key of the cache: the absolute path, and the identity of the file.
pub record Key : Type 0 where
  pub path : Text
  pub size : ℕ
  pub mtime_ns : ℤ
  pub file_id : Text

-- `str(file_id or "")`
abbrev pub id_text : Option Text → Text
id_text none = []
id_text (some t) = t

abbrev pub sha256_cache_key : Text → Stat → Option Text → Key
sha256_cache_key path stat file_id = record {
  path = path;
  size = stat.size;
  mtime_ns = stat.mtime_ns;
  file_id = id_text file_id;
}

abbrev pub int_eq : ℤ → ℤ → Bool
int_eq (pos a) (pos b) = a == b
int_eq (pos a) (negsuc b) = false
int_eq (negsuc a) (pos b) = false
int_eq (negsuc a) (negsuc b) = a == b

unfoldable pub same_key : Key → Key → Bool
same_key k l =
    text_eq k.path l.path
    && k.size == l.size
    && int_eq k.mtime_ns l.mtime_ns
    && text_eq k.file_id l.file_id

unfoldable pub lookup : Key → List (Key × Text) → Option Text
lookup key [] = none
lookup key (e ∷ entries) = if same_key e.0 key then some e.1 else lookup key entries

-- The entries of the dictionary that a caller passes as `hash_budget`.
pub record HashBudget : Type 0 where
  pub remaining : Option ℕ
  pub remaining_bytes : Option ℕ

-- `_SHA256_CACHE`, the newest entry first, and the budget of a call; `hashed` counts the bytes that
-- `sha256_for_path` has read.
pub record Hashes : Type 0 where
  pub cache : List (Key × Text)
  pub budget : Option HashBudget
  pub hashed : ℕ

abbrev pub or_else_number : Option ℕ → ℕ → ℕ
or_else_number none n = n
or_else_number (some m) n = m

-- What is left by `_normalise_hash_budget`.
abbrev pub remaining_of : Option HashBudget → ℕ
remaining_of none = max_metadata_hash_bytes_per_call
remaining_of (some b) =
    or_else_number b.remaining (or_else_number b.remaining_bytes max_metadata_hash_bytes_per_call)

-- Both entries of the caller's dictionary are set; without one, nothing is kept.
abbrev pub with_remaining : Option HashBudget → ℕ → Option HashBudget
with_remaining none n = none
with_remaining (some b) n = some (record { remaining = some n; remaining_bytes = some n })

-- The start of a call for one page of metadata, with what the cache holds by then.
abbrev pub fresh_hashes : List (Key × Text) → Hashes
fresh_hashes cache = record {
  cache = cache;
  budget =
      some (record { remaining = none; remaining_bytes = some max_metadata_hash_bytes_per_call });
  hashed = 0;
}

-- `except OSError`
abbrev pub or_on_os_error {ℓ} : {A : Type ℓ} → A → Outcome A → Outcome A
or_on_os_error default (returned a) = returned a
or_on_os_error default (raised e) = elim (e.class) [ os_error ↦ returned default | _ ↦ raised e ]

unfoldable pub safe_file_id : Outcome (Option Text) → Outcome (Option Text)
safe_file_id file_id = or_on_os_error none file_id

unfoldable pub stat_identity_changed : Stat → Option Text → Stat → Option Text → Bool
stat_identity_changed before before_id after after_id =
    not (before.size == after.size)
    || not (int_eq before.mtime_ns after.mtime_ns)
    || not (text_eq (id_text before_id) (id_text after_id))

-- Is the file, looked at again, the one that it was? If it cannot be looked at, it is not.
unfoldable pub is_unchanged : FileAnswers → Stat → Option Text → Outcome Bool
is_unchanged a stat file_id = or_on_os_error false (
    a.stat_again >>= λ later. safe_file_id a.file_id_again >>= λ later_id.
    returned (not (stat_identity_changed stat file_id later later_id)))

-- The digest of a call: none is `pending`.
abbrev pub Ended : Type 0
Ended = Outcome (Option Text) × Hashes

abbrev pub from_cache : Text → Outcome Bool → Hashes → Ended
from_cache digest (raised e) s = (raised e, s)
from_cache digest (returned unchanged) s = (returned (if unchanged then some digest else none), s)

abbrev pub keep_digest : Key → Text → Outcome Bool → Hashes → Ended
keep_digest key digest (raised e) s = (raised e, s)
keep_digest key digest (returned false) s = (returned none, s)
keep_digest key digest (returned true) s =
    (returned (some digest), record s { cache = (key, digest) ∷ s.cache })

abbrev pub hash_file : FileAnswers → Key → Stat → Option Text → Outcome Text → Hashes → Ended
hash_file a key stat file_id (returned digest) s =
    keep_digest key digest (is_unchanged a stat file_id) s
hash_file a key stat file_id (raised e) s = (or_on_os_error none (raised e), s)

-- The part of `_sha256_metadata` behind the cache.
unfoldable pub hash_within_budget : FileAnswers → Key → Stat → Option Text → Hashes → Ended
hash_within_budget a key stat file_id s =
    let remaining = remaining_of s.budget in
    if ltb max_single_sync_hash_bytes stat.size
    then (returned none, s)
    else if ltb remaining stat.size
    then (returned none, record s { budget = with_remaining s.budget remaining })
    else hash_file a key stat file_id a.digest (record s {
      budget = with_remaining s.budget (remaining - stat.size);
      hashed = s.hashed + a.read_size;
    })

-- An empty digest in the cache counts as none.
abbrev pub cached_or : FileAnswers → Key → Stat → Option Text → Option Text → Hashes → Ended
cached_or a key stat file_id none s = hash_within_budget a key stat file_id s
cached_or a key stat file_id (some digest) s =
    if is_empty digest
    then hash_within_budget a key stat file_id s
    else from_cache digest (is_unchanged a stat file_id) s

unfoldable pub sha256_metadata : FileAnswers → Text → Stat → Option Text → Hashes → Ended
sha256_metadata a path stat file_id s =
    let key = sha256_cache_key path stat file_id in
    cached_or a key stat file_id (lookup key s.cache) s

-- What is told of a file, but for what its path alone tells. A digest is `ready`, none is `pending`.
pub record FileMetadata : Type 0 where
  pub size : ℕ
  pub mtime_ns : ℤ
  pub file_id : Option Text
  pub sha256 : Option Text

abbrev pub describe_file : Stat → Option Text → Ended → Outcome (Option FileMetadata) × Hashes
describe_file stat file_id (raised e, s) = (raised e, s)
describe_file stat file_id (returned digest, s) = (
  returned (
      some (record {
        size = stat.size;
        mtime_ns = stat.mtime_ns;
        file_id = file_id;
        sha256 = digest;
      })),
  s,
)

abbrev pub with_file_id :
    FileAnswers
    → Text
    → Stat
    → Outcome (Option Text)
    → Hashes
    → Outcome (Option FileMetadata) × Hashes
with_file_id a path stat (raised e) s = (raised e, s)
with_file_id a path stat (returned file_id) s =
    describe_file stat file_id (sha256_metadata a path stat file_id s)

abbrev pub with_stat :
    FileAnswers → Text → Outcome Stat → Hashes → Outcome (Option FileMetadata) × Hashes
with_stat a path (raised e) s = (or_on_os_error none (raised e), s)
with_stat a path (returned stat) s = with_file_id a path stat (safe_file_id a.file_id) s

unfoldable pub metadata_for_file :
    FileAnswers → Text → Hashes → Outcome (Option FileMetadata) × Hashes
metadata_for_file a path s =
    if a.is_supported then with_stat a path a.stat s else (returned none, s)
