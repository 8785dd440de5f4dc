-- ===== src/Arrangement/Rows/Dict.antt =====
-- Laws of the dictionary of clips, and the merge of chunks that `snapshot_manifest` makes.
use ohmic_bridge.Prelude.{ℕ, ◌≡◌, refl, false, ◌||◌, ◌==◌, List, [], ◌∷◌, ◌++◌, append_assoc, arith}
use ohmic_bridge.Arrangement.Rows.{ClipRow, Clips, has_key, dict_set, dict_extend}

-- The keys differ, as those of a Python dictionary do.
abbrev pub IsDict : Clips → Type 0
IsDict [] = Unit
IsDict (e ∷ m) = (has_key m e.0 ≡ false) × IsDict m

pub has_key-append : (m n : Clips) (k : ℕ) → has_key (m ++ n) k ≡ (has_key m k || has_key n k)
unfolding has_key
has_key-append [] n k = refl
has_key-append (e ∷ m) n k = ground (arith, has_key-append m n k)

-- A key behind others is none of them.
pub fresh_in_prefix :
    (m n : Clips) (k : ℕ) (v : List ClipRow) → IsDict (m ++ (k, v) ∷ n) → has_key m k ≡ false
unfolding has_key
fresh_in_prefix [] n k v h = refl
fresh_in_prefix (e ∷ m) n k v h =
    ground (arith, fresh_in_prefix m n k v h.1, has_key-append m ((k, v) ∷ n) e.0)

pub dict_set-fresh :
    (m : Clips) (k : ℕ) (v : List ClipRow) → has_key m k ≡ false → dict_set m k v ≡ m ++ (k, v) ∷ []
unfolding has_key dict_set
dict_set-fresh [] k v h = refl
dict_set-fresh (e ∷ m) k v h = ground (arith, dict_set-fresh m k v)

pub dict_extend-fresh :
    (m : Clips) (k : ℕ) (v : List ClipRow)
    → has_key m k ≡ false
    → dict_extend m k v ≡ m ++ (k, v) ∷ []
unfolding has_key dict_extend
dict_extend-fresh [] k v h = refl
dict_extend-fresh (e ∷ m) k v h = ground (arith, dict_extend-fresh m k v)

-- The rows of a key that is already there go behind its rows.
pub dict_extend-last :
    (m : Clips) (k : ℕ) (v w : List ClipRow)
    → has_key m k ≡ false
    → dict_extend (m ++ (k, v) ∷ []) k w ≡ m ++ (k, v ++ w) ∷ []
unfolding has_key dict_extend
dict_extend-last [] k v w h = ground arith
dict_extend-last (e ∷ m) k v w h = ground (arith, dict_extend-last m k v w)

pub dict_extend-twice :
    (m : Clips) (k : ℕ) (v w : List ClipRow)
    → dict_extend (dict_extend m k v) k w ≡ dict_extend m k (v ++ w)
unfolding dict_extend
dict_extend-twice [] k v w = ground arith
dict_extend-twice ((j, u) ∷ m) k v w = ground (arith, dict_extend-twice m k v w, append_assoc u v w)

pub has_key-extend :
    (m : Clips) (k j : ℕ) (v : List ClipRow)
    → has_key (dict_extend m k v) j ≡ (has_key m j || k == j)
unfolding has_key dict_extend
has_key-extend [] k j v = ground arith
has_key-extend (e ∷ m) k j v = ground (arith, has_key-extend m k j v)

-- `for key, rows in chunk.items(): d.setdefault(key, []).extend(rows)`
unfoldable pub merge_chunk : Clips → Clips → Clips
merge_chunk d [] = d
merge_chunk d ((k, v) ∷ chunk) = merge_chunk (dict_extend d k v) chunk

unfoldable pub merge_chunks : Clips → List Clips → Clips
merge_chunks d [] = d
merge_chunks d (chunk ∷ chunks) = merge_chunks (merge_chunk d chunk) chunks

pub merge_chunk-append : (d m n : Clips) → merge_chunk d (m ++ n) ≡ merge_chunk (merge_chunk d m) n
unfolding merge_chunk
merge_chunk-append d [] n = refl
merge_chunk-append d (e ∷ m) n = merge_chunk-append (dict_extend d e.0 e.1) m n

pub merge_chunks-append :
    (d : Clips) (ms ns : List Clips)
    → merge_chunks d (ms ++ ns) ≡ merge_chunks (merge_chunks d ms) ns
unfolding merge_chunks
merge_chunks-append d [] ns = refl
merge_chunks-append d (m ∷ ms) ns = merge_chunks-append (merge_chunk d m) ms ns

pub has_key-merge_chunk :
    (d m : Clips) (k : ℕ) → has_key (merge_chunk d m) k ≡ (has_key d k || has_key m k)
unfolding merge_chunk has_key
has_key-merge_chunk d [] k = ground arith
has_key-merge_chunk d (e ∷ m) k =
    ground (arith, has_key-merge_chunk (dict_extend d e.0 e.1) m k, has_key-extend d e.0 k e.1)

pub merge_chunks-last :
    (d : Clips) (ms : List Clips) (m : Clips)
    → merge_chunks d (ms ++ m ∷ []) ≡ merge_chunk (merge_chunks d ms) m
unfolding merge_chunks
merge_chunks-last d ms m = merge_chunks-append d ms (m ∷ [])

-- What is in a chunk is in the dictionary that it was merged into.
pub fresh_before_merge :
    (d m : Clips) (k : ℕ) → has_key (merge_chunk d m) k ≡ false → has_key m k ≡ false
fresh_before_merge d m k h = ground (arith, has_key-merge_chunk d m k)
