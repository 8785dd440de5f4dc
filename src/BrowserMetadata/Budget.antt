-- ===== src/BrowserMetadata/Budget.antt =====
-- How many bytes are read for the files of one call.
use ohmic_bridge.Prelude.{
  ℕ, ◌+◌, ◌-◌, ◌*◌, ◌≤◌, ◌≡◌, refl, sym, subst, inl, inr, true, false, Bool, Bool-cases, ltb,
  if◌then◌else◌, is_empty, Option, none, some, List, [], ◌∷◌, Text, Outcome, returned, raised,
  arith,
}
use ohmic_bridge.BrowserMetadata.{
  Ended, fresh_hashes, max_single_sync_hash_bytes, HashBudget, Hashes, Stat, Key, FileAnswers,
  remaining_of, with_remaining, from_cache, keep_digest, hash_file, hash_within_budget, cached_or,
  sha256_metadata, lookup, safe_file_id, sha256_cache_key, describe_file, with_file_id, with_stat,
  metadata_for_file, is_unchanged, max_metadata_hash_bytes_per_call,
}

-- A caller's dictionary is there, and what is spent and what is left are no more than the total.
abbrev pub IsWithin : ℕ → Hashes → Type 0
IsWithin total s =
    ((b : HashBudget) × (s.budget ≡ some b)) × (s.hashed + remaining_of s.budget ≤ total)

-- The state behind some files, one after the other.
abbrev pub behind : List (FileAnswers × Text) → Hashes → Hashes
behind [] s = s
behind ((a, path) ∷ files) s = behind files (metadata_for_file a path s).1

-- How much of a file is read beyond the size that `os.stat` gave for it at first.
abbrev pub growth : FileAnswers → ℕ
growth a = elim (a.stat) [ returned stat ↦ a.read_size - stat.size | raised e ↦ 0 ]

abbrev pub total_growth : List (FileAnswers × Text) → ℕ
total_growth [] = 0
total_growth ((a, path) ∷ files) = growth a + total_growth files

-- More may be spent of a larger total.
IsWithin-more : (total more : ℕ) (s : Hashes) → total ≤ more → IsWithin total s → IsWithin more s
IsWithin-more total more s le h = (h.0, omega (arith, le, h.1))

affordable : (left size : ℕ) → ltb left size ≡ false → size ≤ left
affordable left size h = ground (arith, h)

remaining_set :
    (o : Option HashBudget) (b : HashBudget) (n : ℕ)
    → o ≡ some b
    → ((x : HashBudget) × (with_remaining o n ≡ some x)) × (remaining_of (with_remaining o n) ≡ n)
remaining_set none b n h = cc
remaining_set (some o) b n h =
    ((record { remaining = some n; remaining_bytes = some n }, refl), refl)

module _ (total : ℕ) where
  from_cache-IsWithin :
      (digest : Text) (ok : Outcome Bool) (s : Hashes)
      → IsWithin total s
      → IsWithin total (from_cache digest ok s).1
  from_cache-IsWithin digest (raised e) s h = h
  from_cache-IsWithin digest (returned b) s h = h

  keep_digest-IsWithin :
      (key : Key) (digest : Text) (ok : Outcome Bool) (s : Hashes)
      → IsWithin total s
      → IsWithin total (keep_digest key digest ok s).1
  keep_digest-IsWithin key digest (raised e) s h = h
  keep_digest-IsWithin key digest (returned false) s h = h
  keep_digest-IsWithin key digest (returned true) s h = h

  module _ (a : FileAnswers) (path : Text) (stat : Stat) (file_id : Option Text) where
    hash_file-IsWithin :
        (key : Key) (digest : Outcome Text) (s : Hashes)
        → IsWithin total s
        → IsWithin total (hash_file a key stat file_id digest s).1
    hash_file-IsWithin key (returned digest) s h =
        keep_digest-IsWithin key digest (is_unchanged a stat file_id) s h
    hash_file-IsWithin key (raised e) s h = h

module _ (total : ℕ) where
  module _ (a : FileAnswers) (path : Text) (stat : Stat) (file_id : Option Text) where
    hash_within_budget-IsWithin :
        (key : Key) (s : Hashes)
        → IsWithin total s
        → IsWithin (total + (a.read_size - stat.size)) (hash_within_budget a key stat file_id s).1
    unfolding hash_within_budget
    hash_within_budget-IsWithin key s ((b, e), h) =
        elim (Bool-cases (ltb max_single_sync_hash_bytes stat.size)) [
          | inl large ↦
              rw large (
                IsWithin-more total (total + (a.read_size - stat.size)) s (omega arith) ((b, e), h))
          | inr small ↦ elim (Bool-cases (ltb (remaining_of s.budget) stat.size)) [
            | inl costly ↦
                rw (small, costly)
                  (
                    (remaining_set s.budget b (remaining_of s.budget) e).0,
                    omega (arith, h, (remaining_set s.budget b (remaining_of s.budget) e).1),
                  )
            | inr cheap ↦
                rw (small, cheap)
                  (hash_file-IsWithin (total + (a.read_size - stat.size)) a path stat file_id key
                    a.digest _
                    (
                      (remaining_set s.budget b (remaining_of s.budget - stat.size) e).0,
                      omega (
                        arith,
                        h,
                        (remaining_set s.budget b (remaining_of s.budget - stat.size) e).1,
                        affordable (remaining_of s.budget) stat.size cheap,
                      ),
                    ))
          ]
        ]

    sha256_metadata-IsWithin :
        (s : Hashes)
        → IsWithin total s
        → IsWithin (total + (a.read_size - stat.size)) (sha256_metadata a path stat file_id s).1
    unfolding sha256_metadata
    sha256_metadata-IsWithin s h = found (lookup (sha256_cache_key path stat file_id) s.cache)
      where
        found :
            (o : Option Text)
            → IsWithin
                (total + (a.read_size - stat.size))
                (cached_or a (sha256_cache_key path stat file_id) stat file_id o s).1
        found none = hash_within_budget-IsWithin (sha256_cache_key path stat file_id) s h
        found (some digest) = elim (Bool-cases (is_empty digest)) [
          | inl blank ↦
              rw blank (hash_within_budget-IsWithin (sha256_cache_key path stat file_id) s h)
          | inr kept ↦ rw kept (
              from_cache-IsWithin (total + (a.read_size - stat.size)) digest
                (is_unchanged a stat file_id) s
                (IsWithin-more total (total + (a.read_size - stat.size)) s (omega arith) h))
        ]

  describe_file-same :
      (stat : Stat) (file_id : Option Text) (r : Ended) → (describe_file stat file_id r).1 ≡ r.1
  describe_file-same stat file_id (raised e, s) = refl
  describe_file-same stat file_id (returned d, s) = refl

  module _ (a : FileAnswers) (path : Text) where
    with_file_id-IsWithin :
        (stat : Stat) (file_id : Outcome (Option Text)) (s : Hashes)
        → IsWithin total s
        → IsWithin (total + (a.read_size - stat.size)) (with_file_id a path stat file_id s).1
    with_file_id-IsWithin stat (raised e) s h =
        IsWithin-more total (total + (a.read_size - stat.size)) s (omega arith) h
    with_file_id-IsWithin stat (returned file_id) s h =
        subst (IsWithin (total + (a.read_size - stat.size)))
          (sym (describe_file-same stat file_id (sha256_metadata a path stat file_id s)))
          (sha256_metadata-IsWithin a path stat file_id s h)

    with_stat-IsWithin :
        (s : Hashes) → IsWithin total s → IsWithin (total + growth a) (with_stat a path a.stat s).1
    with_stat-IsWithin s h = of a.stat
      where
        of :
            (stat : Outcome Stat)
            → IsWithin
                (total + elim stat [ returned t ↦ a.read_size - t.size | raised e ↦ 0 ])
                (with_stat a path stat s).1
        of (raised e) = IsWithin-more total (total + 0) s (omega arith) h
        of (returned stat) = with_file_id-IsWithin stat (safe_file_id a.file_id) s h

    metadata_for_file-IsWithin :
        (s : Hashes) → IsWithin total s → IsWithin (total + growth a) (metadata_for_file a path s).1
    unfolding metadata_for_file
    metadata_for_file-IsWithin s h = chosen a.is_supported
      where
        chosen :
            (b : Bool)
            → IsWithin
                (total + growth a)
                (if b then with_stat a path a.stat s else (returned none, s)).1
        chosen true = with_stat-IsWithin s h
        chosen false = IsWithin-more total (total + growth a) s (omega arith) h

behind-IsWithin :
    (files : List (FileAnswers × Text)) (total : ℕ) (s : Hashes)
    → IsWithin total s
    → IsWithin (total + total_growth files) (behind files s)
behind-IsWithin [] total s h = IsWithin-more total (total + 0) s (omega arith) h
behind-IsWithin ((a, path) ∷ files) total s h =
    let same : total + growth a + total_growth files ≡ total + (growth a + total_growth files) =
      omega arith in
    subst (λ n. IsWithin n (behind files (metadata_for_file a path s).1)) same
      (behind-IsWithin files (total + growth a) (metadata_for_file a path s).1
        (metadata_for_file-IsWithin total a path s h))

-- The bytes that are read for the digests of one call, whatever files it describes and whatever the file
-- system answers, exceed 2 MiB by no more than the files grew between the `os.stat` at first and the
-- end of their reading; so they are 2 MiB at most in all if none grows.
pub hashed-le-budget :
    (files : List (FileAnswers × Text)) (cache : List (Key × Text))
    → (behind files (fresh_hashes cache)).hashed ≤ 2 * 1024 * 1024 + total_growth files
hashed-le-budget files cache =
    let start : IsWithin max_metadata_hash_bytes_per_call (fresh_hashes cache) = (
      (record { remaining = none; remaining_bytes = some max_metadata_hash_bytes_per_call }, refl),
      omega arith,
    ) in
    let end = behind-IsWithin files max_metadata_hash_bytes_per_call (fresh_hashes cache) start in
    omega (arith, end.1)
