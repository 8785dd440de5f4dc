-- ===== src/BrowserMetadata/Sound.antt =====
-- A digest is told only of a file that was the same before it was read and behind it.
use ohmic_bridge.Prelude.{
  ◌≡◌, refl, sym, ap, subst, ◌∙◌, inl, inr, Bool, true, false, Bool-cases, ltb, is_empty,
  if◌then◌else◌, Option, none, some, List, [], ◌∷◌, All, Text, text_eq_iff, Outcome, returned,
  raised, Exn, arith,
}
use ohmic_bridge.Prelude.Int.{ℤ, pos, negsuc}
use ohmic_bridge.BrowserMetadata.{
  Hashes, Stat, Key, FileAnswers, FileMetadata, Ended, remaining_of, from_cache, keep_digest,
  hash_file, hash_within_budget, cached_or, sha256_metadata, lookup, same_key, int_eq, safe_file_id,
  sha256_cache_key, describe_file, with_file_id, with_stat, metadata_for_file, is_unchanged,
  max_single_sync_hash_bytes, or_on_os_error,
}

int_eq_lem : (a b : ℤ) → int_eq a b ≡ true → a ≡ b
int_eq_lem (pos a) (pos b) h = ground (arith, h)
int_eq_lem (pos a) (negsuc b) h = cc
int_eq_lem (negsuc a) (pos b) h = cc
int_eq_lem (negsuc a) (negsuc b) h = ground (arith, h)

same_key_lem : (k l : Key) → same_key k l ≡ true → k ≡ l
unfolding same_key
same_key_lem k l h = ground (
  arith,
  (text_eq_iff k.path l.path).0,
  (text_eq_iff k.file_id l.file_id).0,
  int_eq_lem k.mtime_ns l.mtime_ns,
)

never_some : {A : Type 0} (e : Exn) (d : A) → or_on_os_error none (raised e) ≡ returned (some d) → ⊥
never_some e d h = ground (arith, h)

-- The identity that is told with a digest.
abbrev pub stat_of : FileMetadata → Stat
stat_of m = record { size = m.size; mtime_ns = m.mtime_ns }

-- `IsDigest key d`: `d` is the digest of the file of that key.
module _ (IsDigest : Key → Text → Type 0) where
  abbrev pub IsSound : List (Key × Text) → Type 0
  IsSound cache = All (λ e. IsDigest e.0 e.1) cache

  lookup-IsSound :
      (key : Key) (cache : List (Key × Text)) {d : Text}
      → IsSound cache
      → lookup key cache ≡ some d
      → IsDigest key d
  unfolding lookup
  lookup-IsSound key [] h e = cc
  lookup-IsSound key (entry ∷ cache) {d} h e = elim (Bool-cases (same_key entry.0 key)) [
    | inl same ↦
        let value : entry.1 ≡ d = ground (arith, rw same at e) in
        subst (λ k. IsDigest k d) (same_key_lem entry.0 key same)
          (subst (IsDigest entry.0) value h.0)
    | inr other ↦ lookup-IsSound key cache h.1 (rw other at e)
  ]

  -- The cache is sound behind a call, and a digest that it gives is that of the key, of a file that was
  -- looked at again and is unchanged.
  Tells : Key → Outcome Bool → Ended → Type 0
  Tells key ok r =
      IsSound r.1.cache
      × ((d : Text) → r.0 ≡ returned (some d) → IsDigest key d × (ok ≡ returned true))

  silent-Tells :
      (key : Key) (ok : Outcome Bool) (r : Outcome (Option Text)) (s : Hashes)
      → IsSound s.cache
      → ((d : Text) → r ≡ returned (some d) → ⊥)
      → Tells key ok (r, s)
  unfolding Tells
  silent-Tells key ok r s h silent = (h, λ d e. absurd (silent d e))

  from_cache-Tells :
      (key : Key) (digest : Text) (ok : Outcome Bool) (s : Hashes)
      → IsSound s.cache
      → IsDigest key digest
      → Tells key ok (from_cache digest ok s)
  unfolding Tells
  from_cache-Tells key digest (raised e) s h k =
      silent-Tells key (raised e) (raised e) s h (λ d e. cc)
  from_cache-Tells key digest (returned false) s h k =
      silent-Tells key (returned false) (returned none) s h (λ d e. cc)
  from_cache-Tells key digest (returned true) s h k =
      (h, λ d e. (subst (IsDigest key) (ground (arith, e)) k, refl))

  keep_digest-Tells :
      (key : Key) (digest : Text) (ok : Outcome Bool) (s : Hashes)
      → IsSound s.cache
      → (ok ≡ returned true → IsDigest key digest)
      → Tells key ok (keep_digest key digest ok s)
  unfolding Tells
  keep_digest-Tells key digest (raised e) s h k =
      silent-Tells key (raised e) (raised e) s h (λ d e. cc)
  keep_digest-Tells key digest (returned false) s h k =
      silent-Tells key (returned false) (returned none) s h (λ d e. cc)
  keep_digest-Tells key digest (returned true) s h k =
      ((k refl, h), λ d e. (subst (IsDigest key) (ground (arith, e)) (k refl), refl))

  module _ (a : FileAnswers) (path : Text) (stat : Stat) (file_id : Option Text)
      (honest : (d : Text)
        → is_unchanged a stat file_id ≡ returned true
        → a.digest ≡ returned d
        → IsDigest (sha256_cache_key path stat file_id) d) where
    hash_file-Tells :
        (digest : Outcome Text) (s : Hashes)
        → a.digest ≡ digest
        → IsSound s.cache
        → Tells
            (sha256_cache_key path stat file_id)
            (is_unchanged a stat file_id)
            (hash_file a (sha256_cache_key path stat file_id) stat file_id digest s)
    hash_file-Tells (returned d) s e h =
        keep_digest-Tells (sha256_cache_key path stat file_id) d (is_unchanged a stat file_id) s h
          (λ unchanged. honest d unchanged e)
    hash_file-Tells (raised e) s same h =
        silent-Tells (sha256_cache_key path stat file_id) (is_unchanged a stat file_id) _ s h
          (λ d told. never_some e d told)

    hash_within_budget-Tells :
        (s : Hashes)
        → IsSound s.cache
        → Tells
            (sha256_cache_key path stat file_id)
            (is_unchanged a stat file_id)
            (hash_within_budget a (sha256_cache_key path stat file_id) stat file_id s)
    unfolding hash_within_budget
    hash_within_budget-Tells s h = elim (Bool-cases (ltb max_single_sync_hash_bytes stat.size)) [
      | inl large ↦ rw large (silent-Tells _ _ (returned none) s h (λ d e. cc))
      | inr small ↦ elim (Bool-cases (ltb (remaining_of s.budget) stat.size)) [
        | inl costly ↦ rw (small, costly) (silent-Tells _ _ (returned none) _ h (λ d e. cc))
        | inr cheap ↦ rw (small, cheap) (hash_file-Tells a.digest _ refl h)
      ]
    ]

    sha256_metadata-Tells :
        (s : Hashes)
        → IsSound s.cache
        → Tells
            (sha256_cache_key path stat file_id)
            (is_unchanged a stat file_id)
            (sha256_metadata a path stat file_id s)
    unfolding sha256_metadata
    sha256_metadata-Tells s h =
        found (lookup (sha256_cache_key path stat file_id) s.cache)
          (λ d e. lookup-IsSound _ s.cache h e)
      where
        found :
            (o : Option Text)
            → ((d : Text) → o ≡ some d → IsDigest (sha256_cache_key path stat file_id) d)
            → Tells
                (sha256_cache_key path stat file_id)
                (is_unchanged a stat file_id)
                (cached_or a (sha256_cache_key path stat file_id) stat file_id o s)
        found none k = hash_within_budget-Tells s h
        found (some digest) k = elim (Bool-cases (is_empty digest)) [
          | inl blank ↦ rw blank (hash_within_budget-Tells s h)
          | inr kept ↦ rw kept (
              from_cache-Tells (sha256_cache_key path stat file_id) digest
                (is_unchanged a stat file_id) s h (k digest refl))
        ]

    -- What is told of the file.
    Describes : Outcome (Option FileMetadata) × Hashes → Type 0
    Describes r =
        IsSound r.1.cache
        × ((m : FileMetadata) (d : Text)
            → r.0 ≡ returned (some m)
            → m.sha256 ≡ some d
            → (m.size ≡ stat.size)
              × (m.mtime_ns ≡ stat.mtime_ns)
              × (m.file_id ≡ file_id)
              × IsDigest (sha256_cache_key path stat file_id) d
              × (is_unchanged a stat file_id ≡ returned true))

    describe_file-Describes :
        (r : Ended)
        → Tells (sha256_cache_key path stat file_id) (is_unchanged a stat file_id) r
        → Describes (describe_file stat file_id r)
    unfolding Tells Describes
    describe_file-Describes (raised e, s) (sound, told) = (sound, λ m d e k. cc)
    describe_file-Describes (returned digest, s) (sound, told) = (
      sound,
      λ m d e k.
          let size : stat.size ≡ m.size = ground (arith, e) in
          let mtime : stat.mtime_ns ≡ m.mtime_ns = ground (arith, e) in
          let id : file_id ≡ m.file_id = ground (arith, e) in
          let value : digest ≡ m.sha256 = ground (arith, e) in
          let (is_digest, unchanged) = told d (ap (λ o. returned o) (value ∙ k)) in
          (sym size, sym mtime, sym id, is_digest, unchanged),
    )

  module _ (a : FileAnswers) (path : Text)
      (honest : (stat : Stat) (file_id : Option Text) (d : Text)
        → is_unchanged a stat file_id ≡ returned true
        → a.digest ≡ returned d
        → IsDigest (sha256_cache_key path stat file_id) d) where
    IsTold : Outcome (Option FileMetadata) × Hashes → Type 0
    IsTold r =
        IsSound r.1.cache
        × ((m : FileMetadata) (d : Text)
            → r.0 ≡ returned (some m)
            → m.sha256 ≡ some d
            → IsDigest (sha256_cache_key path (stat_of m) m.file_id) d
              × (is_unchanged a (stat_of m) m.file_id ≡ returned true))

    Describes-IsTold :
        (stat : Stat) (file_id : Option Text) (r : Outcome (Option FileMetadata) × Hashes)
        → Describes a path stat file_id (honest stat file_id) r
        → IsTold r
    unfolding Describes IsTold
    Describes-IsTold stat file_id r (sound, told) = (
      sound,
      λ m d e k.
          let (size, mtime, id, is_digest, unchanged) = told m d e k in
          let same : stat ≡ stat_of m = ground (arith, size, mtime) in
          (
            subst (λ i. IsDigest (sha256_cache_key path (stat_of m) i) d) (sym id)
                (subst (λ st. IsDigest (sha256_cache_key path st file_id) d) same is_digest),
            subst (λ i. is_unchanged a (stat_of m) i ≡ returned true) (sym id)
                (subst (λ st. is_unchanged a st file_id ≡ returned true) same unchanged),
          ),
    )

    with_file_id-IsTold :
        (stat : Stat) (file_id : Outcome (Option Text)) (s : Hashes)
        → IsSound s.cache
        → IsTold (with_file_id a path stat file_id s)
    unfolding IsTold
    with_file_id-IsTold stat (raised e) s h = (h, λ m d e k. cc)
    with_file_id-IsTold stat (returned file_id) s h =
        Describes-IsTold stat file_id
          (describe_file stat file_id (sha256_metadata a path stat file_id s))
          (describe_file-Describes a path stat file_id (honest stat file_id)
            (sha256_metadata a path stat file_id s)
            (sha256_metadata-Tells a path stat file_id (honest stat file_id) s h))

    with_stat-IsTold :
        (stat : Outcome Stat) (s : Hashes) → IsSound s.cache → IsTold (with_stat a path stat s)
    unfolding IsTold
    with_stat-IsTold (raised e) s h = (h, λ m d told k. absurd (never_some e m told))
    with_stat-IsTold (returned stat) s h = with_file_id-IsTold stat (safe_file_id a.file_id) s h

    -- If what is read from a file is its digest whenever the file has one identity before it is read and
    -- behind it, then a cache that holds the digests of its keys still does so behind
    -- `metadata_for_file`, also if that raises; and a digest that is told is the digest of the file of the
    -- path and the identity that are told with it, which the file still had when it was looked at again.
    pub metadata_for_file-IsTold :
        (s : Hashes)
        → IsSound s.cache
        → IsSound (metadata_for_file a path s).1.cache
          × ((m : FileMetadata) (d : Text)
              → (metadata_for_file a path s).0 ≡ returned (some m)
              → m.sha256 ≡ some d
              → IsDigest (sha256_cache_key path (stat_of m) m.file_id) d
                × (is_unchanged a (stat_of m) m.file_id ≡ returned true))
    unfolding metadata_for_file IsTold
    metadata_for_file-IsTold s h = chosen a.is_supported
      where
        chosen : (b : Bool) → IsTold (if b then with_stat a path a.stat s else (returned none, s))
        chosen true = with_stat-IsTold a.stat s h
        chosen false = (h, λ m d e k. cc)
