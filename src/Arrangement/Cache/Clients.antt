-- ===== src/Arrangement/Cache/Clients.antt =====
-- Several clients of one cache: what one of them holds, whatever the others ask for in between.
use ohmic_bridge.Prelude.{
  ℕ, ◌+◌, ◌≤◌, ◌≡◌, ap, sym, subst, ◌∙◌, ◌⊎◌, inl, inr, Bool-cases, Option-cases, some, List, arith,
  Text, Outcome, returned,
}
use ohmic_bridge.Prelude.Int.{ℤ, pos}
use ohmic_bridge.Arrangement.Chunks.{SnapshotChunk}
use ohmic_bridge.Arrangement.Body.{Body}
use ohmic_bridge.Arrangement.Build.{Manifest}
use ohmic_bridge.Arrangement.Cache.{
  Cache, ManifestReply, manifest, snapshot_manifest, Change, DeltaReply, changed, delta,
  is_revision,
}
use ohmic_bridge.Arrangement.Cache.Delta.{Replica}
use ohmic_bridge.Arrangement.Cache.Sync.{
  IsBody, InSync, Agrees, receive, delta-InSync, delta_effect, is_revision-eq,
}
use ohmic_bridge.Arrangement.Cache.Fetch.{fetch, assemble, manifest-total, manifest-InSync}

-- What the song gives at a request: a body, or an error.
abbrev pub IsReading : Outcome Body → Type 0
IsReading body = (b : Body) → body ≡ returned b → IsBody b

-- A request that the cache answers, beside what the client then holds.
pub data Step (sha1_hex : Text → Text) : Cache → Replica → Cache → Replica → Type 0 where
  -- The client takes a snapshot.
  take_snapshot :
      {c c' : Cache} {r : Replica} {m : Manifest} {chunks : List SnapshotChunk} (body : Body)
      → IsBody body
      → snapshot_manifest sha1_hex c (returned body) ≡ some (returned (manifest m), c')
      → fetch c' m.snapshot_id 0 m.chunk_count ≡ some chunks
      → Step sha1_hex c r c' (assemble m chunks)
  -- The client asks for the changes since its revision, and applies them.
  poll :
      {c c' : Cache} {r : Replica} {base : ℤ} {revision : ℕ} {changes : List Change} (body : Body)
      → IsBody body
      → delta c (returned body) (pos r.revision) ≡ (returned (changed base revision changes), c')
      → Step sha1_hex c r c' (receive revision changes r)
  -- Another client takes a snapshot, or the snapshot fails.
  other_snapshot :
      {c c' : Cache} {r : Replica} {reply : Outcome ManifestReply} (body : Outcome Body)
      → IsReading body
      → snapshot_manifest sha1_hex c body ≡ some (reply, c')
      → Step sha1_hex c r c' r
  -- Another client asks for changes since any revision, or a reply to this client is refused or lost.
  other_delta :
      {c c' : Cache} {r : Replica} {reply : Outcome DeltaReply} (body : Outcome Body) (since : ℤ)
      → IsReading body
      → delta c body since ≡ (reply, c')
      → Step sha1_hex c r c' r

pub data Steps (sha1_hex : Text → Text) : Cache → Replica → Cache → Replica → Type 0 where
  done : {c : Cache} {r : Replica} → Steps sha1_hex c r c r
  then_step :
      {c c' c'' : Cache} {r r' r'' : Replica}
      → Steps sha1_hex c r c' r'
      → Step sha1_hex c' r' c'' r''
      → Steps sha1_hex c r c'' r''

-- The client is behind the cache, or in step with it.
pub record Follows (c : Cache) (r : Replica) : Type 0 where
  pub behind : r.revision ≤ c.revision
  pub current : r.revision ≡ c.revision → InSync c r

pub InSync-Follows : {c : Cache} {r : Replica} → InSync c r → Follows c r
InSync-Follows sync = record { behind = omega (arith, sync.revision); current = λ e. sync }

-- Requests of others leave a client where it is, or behind.
moved-Follows :
    {c c' : Cache} {r : Replica}
    → Follows c r
    → (c' ≡ c) ⊎ (c'.revision ≡ c.revision + 1)
    → Follows c' r
moved-Follows {r = r} f (inl still) = subst (λ x. Follows x r) (sym still) f
moved-Follows f (inr forward) = record {
  behind = omega (arith, f.behind, forward);
  current = λ e. absurd (omega (arith, f.behind, forward, e));
}

delta_moves :
    {c c' : Cache} {reply : Outcome DeltaReply} (body : Outcome Body) (since : ℤ)
    → delta c body since ≡ (reply, c')
    → (c' ≡ c) ⊎ (c'.revision ≡ c.revision + 1)
delta_moves {c} {c'} body since e = elim (delta_effect c body since) [
  | inl still ↦ inl (ap (λ x. x.1) (sym e) ∙ still)
  | inr (asked, forward, kept) ↦
      inr (ap (λ (x : Outcome DeltaReply × Cache). x.1.revision) (sym e) ∙ forward)
]

-- An answer with changes is one to the revision of the cache.
changed_asked :
    (c : Cache) {c' : Cache} (body : Outcome Body) (since : ℤ) {base : ℤ} {revision : ℕ}
    {changes : List Change}
    → delta c body since ≡ (returned (changed base revision changes), c')
    → since ≡ pos c.revision
unfolding delta
changed_asked c body since e = elim (Option-cases c.snapshot) [
  | inl fresh ↦ absurd (ground arith)
  | inr (previous, kept) ↦ elim (Bool-cases (is_revision since c.revision)) [
    | inl same ↦ is_revision-eq since c.revision same
    | inr other ↦ absurd (ground arith)
  ]
]

Step-Follows :
    {sha1_hex : Text → Text} {c c' : Cache} {r r' : Replica}
    → Step sha1_hex c r c' r'
    → Follows c r
    → Follows c' r'
Step-Follows {sha1_hex} {c} {c'} (take_snapshot {m = m} {chunks = chunks} body h e got) f =
    let (all, same, bounded, sync, agrees) = manifest-InSync sha1_hex c body h e in
    InSync-Follows (subst (λ xs. InSync c' (assemble m xs)) (ground (arith, got, same)) sync)
Step-Follows {c = c} {r = r} (poll body h e) f =
    let asked = changed_asked c (returned body) (pos r.revision) e in
    InSync-Follows (delta-InSync c r (pos r.revision) body h (f.current (cc asked)) e).0
Step-Follows {sha1_hex} {c} (other_snapshot body h e) f =
    let (reply, c', ends, forward) = manifest-total sha1_hex c body (λ b p. (h b p).distinct) in
    moved-Follows f (inr (ground (arith, e, ends, forward)))
Step-Follows (other_delta body since h e) f = moved-Follows f (delta_moves body since e)

-- An invariant of all the requests: a client that has once taken a snapshot is behind the cache or in
-- step with it.
pub Steps-Follows :
    {sha1_hex : Text → Text} {c c' : Cache} {r r' : Replica}
    → Steps sha1_hex c r c' r'
    → Follows c r
    → Follows c' r'
Steps-Follows done f = f
Steps-Follows (then_step before step) f = Step-Follows step (Steps-Follows before f)

-- Once a client has been in step with the cache, and after any requests of that client and of others
-- to one cache, among them snapshots that fail: if the client asks for the changes since its revision
-- and gets them, then what it holds with them applied is the layout, the clips and the locators of
-- the song at that moment.
pub poll-Agrees :
    {sha1_hex : Text → Text} {c c' c'' : Cache} {r r' : Replica} {base : ℤ} {revision : ℕ}
    {changes : List Change} (body : Body)
    → InSync c r
    → Steps sha1_hex c r c' r'
    → IsBody body
    → delta c' (returned body) (pos r'.revision) ≡ (returned (changed base revision changes), c'')
    → Agrees body (receive revision changes r')
poll-Agrees {c' = c'} {r' = r'} body sync steps h e =
    let f = Steps-Follows steps (InSync-Follows sync) in
    let asked = changed_asked c' (returned body) (pos r'.revision) e in
    (delta-InSync c' r' (pos r'.revision) body h (f.current (cc asked)) e).1
