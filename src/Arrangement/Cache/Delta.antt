-- ===== src/Arrangement/Cache/Delta.antt =====
-- What a client that applies the changes of a delta has.
use mathlib.Core.Logic.{ite, if_pos, if_neg}
use ohmic_bridge.Prelude.{
  ℕ, ◌≡◌, refl, ap, sym, subst, ◌∙◌, ◌||◌, ◌==◌, false, List, [], ◌∷◌, ◌++◌, map, arith,
  append_assoc,
}
use ohmic_bridge.Arrangement.Rows.{ClipRow, Clips, has_key, dict_set, dict_get}
use ohmic_bridge.Arrangement.Rows.Dict.{IsDict, fresh_in_prefix}
use ohmic_bridge.Arrangement.Body.{Layout, Locator}
use ohmic_bridge.Arrangement.Cache.{
  Change, replace_track_clips, replace_locators, rows-discrete, locators-discrete, clip_changes,
  locator_changes,
}

-- A client's copy of the arrangement.
pub record Replica : Type 0 where
  pub revision : ℕ
  pub layout : Layout
  pub clips : Clips
  pub locators : List Locator

-- What the names of the changes ask a client to do.
unfoldable pub apply_change : Change → Replica → Replica
apply_change (replace_track_clips k v) r = record r { clips = dict_set r.clips k v }
apply_change (replace_locators ls) r = record r { locators = ls }

unfoldable pub apply_changes : List Change → Replica → Replica
apply_changes [] r = r
apply_changes (x ∷ xs) r = apply_changes xs (apply_change x r)

abbrev pub keys : Clips → List ℕ
keys = map (λ e. e.0)

dict_get-middle :
    (d m : Clips) (k : ℕ) (v : List ClipRow)
    → has_key d k ≡ false
    → dict_get (d ++ (k, v) ∷ m) k ≡ v
unfolding has_key dict_get
dict_get-middle [] m k v h = ground arith
dict_get-middle (e ∷ d) m k v h = ground (arith, dict_get-middle d m k v)

dict_set-middle :
    (d m : Clips) (k : ℕ) (v w : List ClipRow)
    → has_key d k ≡ false
    → dict_set (d ++ (k, v) ∷ m) k w ≡ d ++ (k, w) ∷ m
unfolding has_key dict_set
dict_set-middle [] m k v w h = ground arith
dict_set-middle (e ∷ d) m k v w h = ground (arith, dict_set-middle d m k v w)

-- The changes of the entries from a point on, for dictionaries with the same keys.
pub zip_changes : Clips → Clips → List Change
zip_changes ((j, w) ∷ previous) ((k, v) ∷ rest) =
    let others = zip_changes previous rest in
    ite (rows-discrete w v) others (replace_track_clips k v ∷ others)
zip_changes _ _ = []

-- Which rows stand at a key does not matter to the keys.
has_key-replace :
    (d m : Clips) (k j : ℕ) (v w : List ClipRow)
    → has_key (d ++ (k, v) ∷ m) j ≡ has_key (d ++ (k, w) ∷ m) j
unfolding has_key
has_key-replace [] m k j v w = refl
has_key-replace (e ∷ d) m k j v w = ap (λ b. e.0 == j || b) (has_key-replace d m k j v w)

IsDict-replace :
    (d m : Clips) (k : ℕ) (v w : List ClipRow) → IsDict (d ++ (k, v) ∷ m) → IsDict (d ++ (k, w) ∷ m)
IsDict-replace [] m k v w h = h
IsDict-replace (e ∷ d) m k v w h =
    (sym (has_key-replace d m k e.0 v w) ∙ h.0, IsDict-replace d m k v w h.1)

pub clip_changes-zip :
    (d previous current : Clips)
    → keys previous ≡ keys current
    → IsDict (d ++ previous)
    → clip_changes (d ++ previous) current ≡ zip_changes previous current
unfolding clip_changes zip_changes
clip_changes-zip d [] [] same h = refl
clip_changes-zip d [] (e ∷ current) same h = cc
clip_changes-zip d (e ∷ previous) [] same h = cc
clip_changes-zip d ((j, w) ∷ previous) ((k, v) ∷ current) same h =
    let key : j ≡ k = cc in
    let found : dict_get (d ++ (j, w) ∷ previous) k ≡ w =
      subst (λ i. dict_get (d ++ (j, w) ∷ previous) i ≡ w) key
        (dict_get-middle d previous j w (fresh_in_prefix d previous j w h)) in
    let others : clip_changes (d ++ (j, w) ∷ previous) current ≡ zip_changes previous current =
      subst (λ l. clip_changes l current ≡ zip_changes previous current)
        (append_assoc d ((j, w) ∷ []) previous)
        (clip_changes-zip (d ++ (j, w) ∷ []) previous current (cc)
          (subst IsDict (sym (append_assoc d ((j, w) ∷ []) previous)) h)) in
    rw (found, others)

-- A step of the induction below: the entry at hand moves over to those that are done.
through :
    (d : Clips) (k : ℕ) (v : List ClipRow) (previous current : Clips) (r : Replica)
    → keys previous ≡ keys current
    → IsDict (d ++ (k, v) ∷ previous)
    → r.clips ≡ d ++ (k, v) ∷ previous
    → (IsDict ((d ++ (k, v) ∷ []) ++ previous)
        → r.clips ≡ (d ++ (k, v) ∷ []) ++ previous
        → apply_changes (zip_changes previous current) r
          ≡ record r { clips = (d ++ (k, v) ∷ []) ++ current })
    → apply_changes (zip_changes previous current) r ≡ record r { clips = d ++ (k, v) ∷ current }
through d k v previous current r same h e ih =
    let back = append_assoc d ((k, v) ∷ []) previous in
    ih (subst IsDict (sym back) h) (e ∙ sym back)
    ∙ ap (λ l. record r { clips = l }) (append_assoc d ((k, v) ∷ []) current)

-- Applied to a copy of the old clips, the changes give the new ones.
pub apply-zip :
    (d previous current : Clips) (r : Replica)
    → keys previous ≡ keys current
    → IsDict (d ++ previous)
    → r.clips ≡ d ++ previous
    → apply_changes (zip_changes previous current) r ≡ record r { clips = d ++ current }
unfolding apply_changes apply_change zip_changes
apply-zip d [] [] r same h e = ap (λ l. record r { clips = l }) e
apply-zip d [] (x ∷ current) r same h e = cc
apply-zip d (x ∷ previous) [] r same h e = cc
apply-zip d ((j, w) ∷ previous) ((k, v) ∷ current) r same h e =
    let key : j ≡ k = cc in
    let rest : keys previous ≡ keys current = cc in
    let new : has_key d k ≡ false =
      subst (λ i. has_key d i ≡ false) key (fresh_in_prefix d previous j w h) in
    let e_k : r.clips ≡ d ++ (k, w) ∷ previous =
      subst (λ i. r.clips ≡ d ++ (i, w) ∷ previous) key e in
    let h_k : IsDict (d ++ (k, w) ∷ previous) =
      subst (λ i. IsDict (d ++ (i, w) ∷ previous)) key h in
    elim (rows-discrete w v) [
      | yes p ↦ rw (if_pos _ p) (
          subst
            (λ x.
              apply_changes (zip_changes previous current) r
              ≡ record r { clips = d ++ (k, x) ∷ current })
            p
            (through d k w previous current r rest h_k e_k
              (apply-zip (d ++ (k, w) ∷ []) previous current r rest)))
      | no p ↦ rw (if_neg _ p) (
          through d k v previous current (record r { clips = dict_set r.clips k v }) rest
            (IsDict-replace d previous k w v h_k)
            (ap (λ l. dict_set l k v) e_k ∙ dict_set-middle d previous k w v new)
            (apply-zip (d ++ (k, v) ∷ []) previous current
              (record r { clips = dict_set r.clips k v }) rest))
    ]

pub apply_changes-append :
    (xs ys : List Change) (r : Replica)
    → apply_changes (xs ++ ys) r ≡ apply_changes ys (apply_changes xs r)
unfolding apply_changes
apply_changes-append [] ys r = refl
apply_changes-append (x ∷ xs) ys r = apply_changes-append xs ys (apply_change x r)

pub apply-locators :
    (previous current : List Locator) (r : Replica)
    → r.locators ≡ previous
    → apply_changes (locator_changes previous current) r ≡ record r { locators = current }
unfolding locator_changes apply_changes apply_change
apply-locators previous current r e = elim (locators-discrete previous current) [
  | yes p ↦ rw (if_pos _ p) (ap (λ l. record r { locators = l }) (e ∙ p))
  | no p ↦ rw (if_neg _ p)
]
