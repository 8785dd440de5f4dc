-- ===== src/Arrangement/Reading/Group.antt =====
-- The track that `_track_index_for_parent` finds.
use ohmic_bridge.Prelude.{
  ℕ, zero, suc, ◌+◌, ◌≤◌, ◌<◌, ◌≡◌, refl, sym, subst, ap, ◌∙◌, inl, inr, true, ◌==◌, Bool-cases,
  Option, none, some, List, [], ◌∷◌, arith, length, get_elem?, Outcome, returned, >>=-eq-returned,
}
use ohmic_bridge.Prelude.Int.{ℤ}
use ohmic_bridge.Arrangement.Reading.{
  get_or, TrackRef, Parent, index_by_identity, index_by_equality, index_by_ptr, index_by_live_ptr,
  track_index_for_parent, same_ptr, holds, found_or,
}

-- An index, if there is one, is that of a track.
abbrev Inside : ℕ → List TrackRef → Option ℕ → Type 0
Inside i tracks none = Unit
Inside i tracks (some j) = (i ≤ j) × (j < i + length tracks)

Inside-later :
    (i : ℕ) (t : TrackRef) (rest : List TrackRef) (o : Option ℕ)
    → Inside (i + 1) rest o
    → Inside i (t ∷ rest) o
Inside-later i t rest none h = tt
Inside-later i t rest (some j) h = (omega (arith, h), omega (arith, h))

index_by_identity-Inside :
    (tracks : List TrackRef) (i identity : ℕ)
    → Inside i tracks (index_by_identity tracks i identity)
unfolding index_by_identity
index_by_identity-Inside [] i identity = tt
index_by_identity-Inside (t ∷ rest) i identity = elim (Bool-cases (t.identity == identity)) [
  | inl same ↦ rw same ((omega arith, omega arith))
  | inr other ↦ rw other (Inside-later i t rest _ (index_by_identity-Inside rest (i + 1) identity))
]

index_by_equality-Inside :
    (tracks : List TrackRef) (i : ℕ) (parent : Parent)
    → Inside i tracks (index_by_equality tracks i parent)
unfolding index_by_equality
index_by_equality-Inside [] i parent = tt
index_by_equality-Inside (t ∷ rest) i parent =
    let later = Inside-later i t rest _ (index_by_equality-Inside rest (i + 1) parent) in
    elim (Bool-cases (holds (parent.equals t))) [
      | inl same ↦ rw same ((omega arith, omega arith))
      | inr other ↦ rw other later
    ]

index_by_ptr-Inside :
    (tracks : List TrackRef) (i : ℕ) (ptr : ℤ) {found : Option ℕ}
    → index_by_ptr tracks i ptr ≡ returned found
    → Inside i tracks found
unfolding index_by_ptr
index_by_ptr-Inside [] i ptr {found} e =
    let nothing : none ≡ found = ground (arith, e) in subst (Inside i []) nothing tt
index_by_ptr-Inside (t ∷ rest) i ptr {found} e =
    let (p, e1, p1) = >>=-eq-returned (get_or none t.live_ptr) _ e in
    elim (Bool-cases (same_ptr p ptr)) [
      | inl same ↦
          let here : some i ≡ found = ground (arith, p1, same) in
          subst (Inside i (t ∷ rest)) here ((omega arith, omega arith))
      | inr other ↦
          Inside-later i t rest found
            (index_by_ptr-Inside rest (i + 1) ptr (ground (arith, p1, other)))
    ]

found_or-Inside :
    (tracks : List TrackRef) (o : Option ℕ) (next : Outcome (Option ℕ)) {found : Option ℕ}
    → Inside 0 tracks o
    → (next ≡ returned found → Inside 0 tracks found)
    → found_or o next ≡ returned found
    → Inside 0 tracks found
found_or-Inside tracks none next h later e = later e
found_or-Inside tracks (some i) next {found} h later e =
    let here : some i ≡ found = ground (arith, e) in subst (Inside 0 tracks) here h

index_by_live_ptr-Inside :
    (parent : Parent) (tracks : List TrackRef) {found : Option ℕ}
    → index_by_live_ptr parent tracks ≡ returned found
    → Inside 0 tracks found
unfolding index_by_live_ptr
index_by_live_ptr-Inside parent tracks {found} e =
    let (p, e1, p1) = >>=-eq-returned (get_or none parent.live_ptr) _ e in by_ptr p p1
  where
    by_ptr :
        (p : Option ℤ)
        → elim p [ none ↦ returned none | some ptr ↦ index_by_ptr tracks 0 ptr ] ≡ returned found
        → Inside 0 tracks found
    by_ptr none q =
        let nothing : none ≡ found = ground (arith, q) in subst (Inside 0 tracks) nothing tt
    by_ptr (some ptr) q = index_by_ptr-Inside tracks 0 ptr q

identity-first :
    (tracks : List TrackRef) (i k : ℕ) {t : TrackRef}
    → get_elem? tracks k ≡ some t
    → (j : ℕ) × (u : TrackRef) × (index_by_identity tracks i t.identity ≡ some (i + j))
      × (j ≤ k)
      × (get_elem? tracks j ≡ some u)
      × (u.identity ≡ t.identity)
unfolding index_by_identity
identity-first [] i k e = absurd (cc e)
identity-first (s ∷ rest) i zero {t} e =
    let same : s ≡ t = ground (arith, e) in
    let hit : (s.identity == t.identity) ≡ true = ground (arith, same) in
    (
      0,
      s,
      rw hit (ap some (omega arith)),
      omega arith,
      refl,
      ap (λ (x : TrackRef). x.identity) same,
    )
identity-first (s ∷ rest) i (suc k) {t} e = elim (Bool-cases (s.identity == t.identity)) [
  | inl same ↦ (0, s, rw same (ap some (omega arith)), omega arith, refl, ground (arith, same))
  | inr other ↦
      let (j, u, found, less, at, same) = identity-first rest (i + 1) k e in
      (suc j, u, rw other (found ∙ ap some (omega arith)), omega (arith, less), at, same)
]

-- An index that `_track_index_for_parent` answers with is that of a track. If the group track is the
-- very object of a track, then it answers with an index, and not a later one, of that very object.
pub track_index_for_parent-right :
    (parent : Parent) (tracks : List TrackRef)
    → ((i : ℕ)
        → track_index_for_parent (some parent) tracks ≡ returned (some i)
        → i < length tracks)
      × ((k : ℕ) (t : TrackRef)
          → get_elem? tracks k ≡ some t
          → t.identity ≡ parent.identity
          → (j : ℕ) × (u : TrackRef) × (track_index_for_parent (some parent) tracks
              ≡ returned (some j))
            × (j ≤ k)
            × (get_elem? tracks j ≡ some u)
            × (u.identity ≡ parent.identity))
unfolding track_index_for_parent
track_index_for_parent-right parent tracks = (
  λ i e.
      let inside : Inside 0 tracks (some i) =
        found_or-Inside tracks (index_by_identity tracks 0 parent.identity) _
          (index_by_identity-Inside tracks 0 parent.identity)
          (found_or-Inside tracks (index_by_equality tracks 0 parent) _
            (index_by_equality-Inside tracks 0 parent) (index_by_live_ptr-Inside parent tracks))
          e in
      omega (arith, inside),
  λ k t at same.
      let (j, u, found, less, at', same') = identity-first tracks 0 k at in
      let first : index_by_identity tracks 0 parent.identity ≡ some j =
        ap (index_by_identity tracks 0) (sym same) ∙ found ∙ ap some (omega arith) in
      (j, u, rw first refl, less, at', same' ∙ same),
)
