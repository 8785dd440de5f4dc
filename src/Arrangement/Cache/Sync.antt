-- ===== src/Arrangement/Cache/Sync.antt =====
-- A client that was in step with the cache is in step after a delta, and has the song of that moment.
use mathlib.Core.Logic.{if_pos, if_neg}
use ohmic_bridge.Prelude.{
  ℕ, ◌+◌, ◌≡◌, ◌≢◌, refl, ap, sym, subst, ◌∙◌, ◌⊎◌, inl, inr, Bool-cases, Option-cases, true, some,
  List, [], ◌∷◌, ◌++◌, arith, Outcome, returned, raised,
}
use ohmic_bridge.Prelude.Int.{ℤ, pos, negsuc}
use ohmic_bridge.Arrangement.Rows.Dict.{IsDict}
use ohmic_bridge.Arrangement.Body.{Layout, Body}
use ohmic_bridge.Arrangement.Cache.{
  Cache, Change, changed, metadata_changed, Layout-discrete, clip_changes, locator_changes,
  changes_between, answer_changes, compare_snapshot, delta, is_revision,
}
use ohmic_bridge.Arrangement.Cache.Delta.{
  Replica, apply_changes, keys, clip_changes-zip, zip_changes, apply-zip, apply_changes-append,
  apply-locators,
}

-- A body as `_snapshot_body` makes it: one entry of clips for each track index, in their order.
pub record IsBody (b : Body) : Type 0 where
  pub distinct : IsDict b.clips
  pub indexed : keys b.clips ≡ b.layout.track_indices

-- The client has what the snapshot says.
pub record Agrees (s : Body) (r : Replica) : Type 0 where
  pub layout : s.layout ≡ r.layout
  pub clips : s.clips ≡ r.clips
  pub locators : s.locators ≡ r.locators

pub apply-changes_between :
    (previous current : Body) (r : Replica)
    → IsBody previous
    → IsBody current
    → previous.layout ≡ current.layout
    → Agrees previous r
    → Agrees current (apply_changes (changes_between previous current) r)
unfolding changes_between
apply-changes_between previous current r hp hc layout agrees =
    let same : keys previous.clips ≡ keys current.clips =
      hp.indexed ∙ ap (λ (l : Layout). l.track_indices) layout ∙ sym hc.indexed in
    let cut : clip_changes previous.clips current.clips ≡ zip_changes previous.clips current.clips =
      clip_changes-zip [] previous.clips current.clips same hp.distinct in
    let clips : apply_changes (clip_changes previous.clips current.clips) r
        ≡ record r { clips = current.clips } =
      ap (λ xs. apply_changes xs r) cut
      ∙ apply-zip [] previous.clips current.clips r same hp.distinct (sym agrees.clips) in
    let r' : Replica = record r { clips = current.clips } in
    let final : apply_changes
          (clip_changes previous.clips current.clips
            ++ locator_changes previous.locators current.locators)
          r
        ≡ record r' { locators = current.locators } =
      apply_changes-append (clip_changes previous.clips current.clips) _ r
      ∙ ap (apply_changes (locator_changes previous.locators current.locators)) clips
      ∙ apply-locators previous.locators current.locators r' (sym agrees.locators) in
    subst (Agrees current) (sym final)
      (record { layout = sym layout ∙ agrees.layout; clips = refl; locators = refl })

pub record InSync (c : Cache) (r : Replica) : Type 0 where
  pub snapshot : Body
  pub kept : c.snapshot ≡ some snapshot
  pub formed : IsBody snapshot
  pub agrees : Agrees snapshot r
  pub revision : c.revision ≡ r.revision

-- A client's copy after a reply with changes.
abbrev pub receive : ℕ → List Change → Replica → Replica
receive revision changes r = record (apply_changes changes r) { revision = revision }

answer_changes_changed :
    (c : Cache) (since : ℤ) (current : Body) (xs : List Change) {base : ℤ} {revision : ℕ}
    {changes : List Change} {c' : Cache}
    → answer_changes c since current xs ≡ (changed base revision changes, c')
    → (changes ≡ xs)
      × (((xs ≡ []) × (revision ≡ c.revision) × (c' ≡ c))
          ⊎ ((revision ≡ c'.revision) × (c'.snapshot ≡ some current)))
unfolding answer_changes
answer_changes_changed c since current [] e = ground arith
answer_changes_changed c since current (x ∷ xs) e = ground arith

answer-InSync :
    (c : Cache) (r : Replica) (since : ℤ) (current : Body) {base : ℤ} {revision : ℕ}
    {changes : List Change} {c' : Cache} (sync : InSync c r)
    → IsBody current
    → sync.snapshot.layout ≡ current.layout
    → answer_changes c since current (changes_between sync.snapshot current)
      ≡ (changed base revision changes, c')
    → InSync c' (receive revision changes r) × Agrees current (receive revision changes r)
answer-InSync c r since current {base} {revision} {changes} {c'} sync hc layout e =
    let (all, how) =
      answer_changes_changed c since current (changes_between sync.snapshot current) e in
    let now : Agrees current (apply_changes changes r) =
      subst (λ xs. Agrees current (apply_changes xs r)) (sym all)
        (apply-changes_between sync.snapshot current r sync.formed hc layout sync.agrees) in
    let now' : Agrees current (receive revision changes r) = record {
      layout = now.layout;
      clips = now.clips;
      locators = now.locators;
    } in
    elim how [
      | inl (nothing, same, still) ↦ (
        record {
          snapshot = sync.snapshot;
          kept = ap (λ (x : Cache). x.snapshot) still ∙ sync.kept;
          formed = sync.formed;
          agrees =
              unfold apply_changes in
              subst (λ xs. Agrees sync.snapshot (receive revision xs r)) (sym (all ∙ nothing))
                (record {
                  layout = sync.agrees.layout;
                  clips = sync.agrees.clips;
                  locators = sync.agrees.locators;
                });
          revision = ap (λ (x : Cache). x.revision) still ∙ sym same;
        },
        now',
      )
      | inr (same, kept) ↦ (
        record { snapshot = current; kept = kept; formed = hc; agrees = now'; revision = sym same },
        now',
      )
    ]

answer_effect :
    (c : Cache) (since : ℤ) (current : Body) (xs : List Change)
    → let c' = (answer_changes c since current xs).1 in
      (c' ≡ c) ⊎ ((c'.revision ≡ c.revision + 1) × (c'.snapshot ≡ some current))
unfolding answer_changes
answer_effect c since current [] = ground arith
answer_effect c since current (x ∷ xs) = ground arith

module _ (c : Cache) (since : ℤ) (previous current : Body) where
  compare_same :
      previous.layout ≡ current.layout
      → let found = answer_changes c since current (changes_between previous current) in
        compare_snapshot c since previous (returned current) ≡ (returned found.0, found.1)
  unfolding compare_snapshot
  compare_same p = rw (if_pos _ p)

  compare_other :
      previous.layout ≢ current.layout
      → compare_snapshot c since previous (returned current) ≡ (returned metadata_changed, c)
  unfolding compare_snapshot
  compare_other p = rw (if_neg _ p)

compare_effect :
    (c : Cache) (body : Outcome Body) (since : ℤ) (previous : Body)
    → let c' = (compare_snapshot c since previous body).1 in
      (c' ≡ c)
      ⊎ ((c'.revision ≡ c.revision + 1)
          × ((current : Body) × (body ≡ returned current) × (c'.snapshot ≡ some current)))
unfolding compare_snapshot
compare_effect c (raised x) since previous = inl refl
compare_effect c (returned current) since previous =
    elim (Layout-discrete previous.layout current.layout) [
      | yes p ↦ elim (answer_effect c since current (changes_between previous current)) [
        | inl still ↦ inl (ground (arith, compare_same c since previous current p))
        | inr (forward, kept) ↦
            let answered = compare_same c since previous current p in
            inr (ground (arith, answered), (current, refl, ground (arith, answered)))
      ]
      | no p ↦ inl (ground (arith, compare_other c since previous current p))
    ]

pub is_revision-eq : (since : ℤ) (r : ℕ) → is_revision since r ≡ true → since ≡ pos r
is_revision-eq (pos n) r h = ground arith
is_revision-eq (negsuc n) r h = cc

-- A client asks for the changes since any revision and gets them, at a moment when the song is
-- `current`. If the copy `r` was in step with the cache, then the copy with the changes applied is
-- in step with the new cache, and has the layout, the clips and the locators of the song.
pub delta-InSync :
    (c : Cache) (r : Replica) (since : ℤ) (current : Body) {base : ℤ} {revision : ℕ}
    {changes : List Change} {c' : Cache}
    → IsBody current
    → InSync c r
    → delta c (returned current) since ≡ (returned (changed base revision changes), c')
    → InSync c' (receive revision changes r) × Agrees current (receive revision changes r)
unfolding delta compare_snapshot
delta-InSync c r since current {base} {revision} {changes} {c'} hc sync e =
    let compared : compare_snapshot c since sync.snapshot (returned current)
        ≡ (returned (changed base revision changes), c') =
      ground (arith, sync.kept) in
    elim (Layout-discrete sync.snapshot.layout current.layout) [
      | yes p ↦
          let answered = rw (if_pos _ p) at compared in
          answer-InSync c r since current {base = base} sync hc p (ground (arith, answered))
      | no p ↦ let refused = rw (if_neg _ p) at compared in absurd (cc refused)
    ]

-- What a delta does to the cache: nothing, or, asked for the changes since the cache's own revision
-- and with the song's body at hand, it goes on by one revision and keeps that body.
pub delta_effect :
    (c : Cache) (body : Outcome Body) (since : ℤ)
    → let c' = (delta c body since).1 in
      (c' ≡ c)
      ⊎ ((since ≡ pos c.revision)
          × (c'.revision ≡ c.revision + 1)
          × ((current : Body) × (body ≡ returned current) × (c'.snapshot ≡ some current)))
unfolding delta
delta_effect c body since = elim (Option-cases c.snapshot) [
  | inl fresh ↦ inl (ground arith)
  | inr (previous, kept) ↦ elim (Bool-cases (is_revision since c.revision)) [
    | inl same ↦
        let open_up : delta c body since ≡ compare_snapshot c since previous body = ground arith in
        rw open_up (elim (compare_effect c body since previous) [
          | inl still ↦ inl still
          | inr (forward, now) ↦ inr (is_revision-eq since c.revision same, forward, now)
        ])
    | inr other ↦ inl (ground arith)
  ]
]
