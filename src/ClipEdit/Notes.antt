-- ===== src/ClipEdit/Notes.antt =====
-- The notes that `clip_add_notes` reads from the arguments of abletonosc/clip.py, against the notes that
-- a client wrote there.
use ohmic_bridge.Prelude.{
  ℕ, zero, suc, ◌*◌, ◌%◌, ◌≤◌, ◌<◌, ◌≡◌, ◌≢◌, refl, sym, ap, subst, ◌∙◌, List, [], ◌∷◌, ◌++◌, map,
  length, take, drop, concat, All, length-append, length-drop, Outcome, returned, raised, ◌>>=◌,
  >>=-eq-returned, Outcome-cases, inl, inr, arith,
}
use ohmic_bridge.ClipEdit.{
  NoteSpec, Reading, note_step, read_probability, read_chunk, read_specs, specs_of, add_specs,
  add_notes,
}

-- The fields of a note as a client writes them, with the probability and without.
abbrev pub six_fields : {V : Type 0} → NoteSpec V → List V
six_fields n = n.pitch ∷ n.start_time ∷ n.duration ∷ n.velocity ∷ n.mute ∷ n.probability ∷ []

abbrev pub five_fields : {V : Type 0} → NoteSpec V → List V
five_fields n = n.pitch ∷ n.start_time ∷ n.duration ∷ n.velocity ∷ n.mute ∷ []

module _ {V : Type 0} where
  take-chunk : (c rest : List V) → take (length c) (c ++ rest) ≡ c
  take-chunk [] rest = refl
  take-chunk (x ∷ c) rest = ap (λ l. x ∷ l) (take-chunk c rest)

  drop-chunk : (c rest : List V) → drop (length c) (c ++ rest) ≡ rest
  drop-chunk [] rest = refl
  drop-chunk (x ∷ c) rest = drop-chunk c rest

step-six : (n : ℕ) → 6 ≤ n → n % 6 ≡ 0 → note_step n ≡ 6
unfolding note_step
step-six n long whole = ground (arith, long, whole)

step-five : (n : ℕ) → n % 6 ≢ 0 → note_step n ≡ 5
unfolding note_step
step-five n part = ground (arith, part)

module _ {V N : Type 0} (r : Reading V N) where
  -- The notes of given chunks, one after the other.
  abbrev read_each : ℕ → List (List V) → Outcome (List N)
  read_each step [] = returned []
  read_each step (c ∷ cs) =
      read_chunk r step c >>= λ spec. read_each step cs >>= λ others. returned (spec ∷ others)

  read_specs-concat :
      (fuel step : ℕ) (cs : List (List V))
      → All (λ c. length c ≡ suc step) cs
      → length (concat cs) ≤ fuel
      → read_specs r fuel (suc step) (concat cs) ≡ read_each (suc step) cs
  unfolding read_specs
  read_specs-concat zero step [] h enough = refl
  read_specs-concat (suc fuel) step [] h enough = refl
  read_specs-concat fuel step ([] ∷ cs) h enough = absurd (ground (arith, h.0))
  read_specs-concat zero step ((x ∷ c) ∷ cs) h enough = absurd (omega (arith, enough))
  read_specs-concat (suc fuel) step ((x ∷ c) ∷ cs) h enough =
      let len : length c ≡ step = omega (arith, h.0) in
      let cut : take step (c ++ concat cs) ≡ c =
        subst (λ k. take k (c ++ concat cs) ≡ c) len (take-chunk c (concat cs)) in
      let rest : drop step (c ++ concat cs) ≡ concat cs =
        subst (λ k. drop k (c ++ concat cs) ≡ concat cs) len (drop-chunk c (concat cs)) in
      let shorter : length (concat cs) ≤ fuel =
        omega (arith, enough, length-append c (concat cs)) in
      rw (cut, rest, read_specs-concat fuel step cs h.1 shorter) refl

  -- The notes as `specify` takes them, the first that fails ending the request.
  abbrev pub specify_all : List (NoteSpec V) → Outcome (List N)
  specify_all [] = returned []
  specify_all (n ∷ notes) =
      r.specify n >>= λ spec. specify_all notes >>= λ others. returned (spec ∷ others)

  -- The probability behind `float`.
  abbrev pub floated : NoteSpec V → Outcome (NoteSpec V)
  floated n = r.to_float n.probability >>= λ p. returned (record n { probability = p })

  abbrev pub with_one : NoteSpec V → NoteSpec V
  with_one n = record n { probability = r.one }

  -- The notes with the probabilities that `float` gives, as `specify` takes them.
  abbrev pub specify_floated : List (NoteSpec V) → Outcome (List N)
  specify_floated [] = returned []
  specify_floated (n ∷ notes) = floated n >>= r.specify >>= λ spec.
      specify_floated notes >>= λ others. returned (spec ∷ others)

  read_each-six :
      (notes : List (NoteSpec V)) → read_each 6 (map six_fields notes) ≡ specify_floated notes
  unfolding read_chunk read_probability
  read_each-six [] = refl
  read_each-six (n ∷ notes) = elim (Outcome-cases (r.to_float n.probability)) [
    | inl (e, failed) ↦ rw failed refl
    | inr (p, float) ↦ rw (float, read_each-six notes) refl
  ]

  read_each-five :
      (notes : List (NoteSpec V))
      → read_each 5 (map five_fields notes) ≡ specify_all (map with_one notes)
  unfolding read_chunk read_probability
  read_each-five [] = refl
  read_each-five (n ∷ notes) = rw (read_each-five notes) refl

  length-six :
      (notes : List (NoteSpec V)) → length (concat (map six_fields notes)) ≡ 6 * length notes
  length-six [] = refl
  length-six (n ∷ notes) = omega (arith, length-six notes)

  length-five :
      (notes : List (NoteSpec V)) → length (concat (map five_fields notes)) ≡ 5 * length notes
  length-five [] = refl
  length-five (n ∷ notes) = omega (arith, length-five notes)

  -- The notes of a request that did not fail.
  abbrev from_result : Outcome (List N) → List N
  from_result (returned specs) = specs
  from_result (raised e) = []

  -- What is read has a note for each chunk of six.
  length-read_specs :
      (fuel q : ℕ) (params : List V) {specs : List N}
      → length params ≤ fuel
      → length params ≡ 6 * q
      → read_specs r fuel 6 params ≡ returned specs
      → length specs ≡ q
  unfolding read_specs
  length-read_specs zero q [] {specs} enough whole h =
      subst (λ o. length (from_result o) ≡ q) h (omega (arith, whole))
  length-read_specs (suc fuel) q [] {specs} enough whole h =
      subst (λ o. length (from_result o) ≡ q) h (omega (arith, whole))
  length-read_specs zero q (p ∷ params) enough whole h = absurd (omega (arith, enough))
  length-read_specs (suc fuel) zero (p ∷ params) enough whole h = absurd (omega (arith, whole))
  length-read_specs (suc fuel) (suc q) (p ∷ params) {specs} enough whole h =
      let (spec, first, then) = >>=-eq-returned (read_chunk r 6 (take 6 (p ∷ params))) _ h in
      let (others, later, end) =
        >>=-eq-returned (read_specs r fuel 6 (drop 6 (p ∷ params))) _ then in
      let inner : length others ≡ q =
        length-read_specs fuel q (drop 6 (p ∷ params))
          (omega (arith, enough, length-drop 6 (p ∷ params)))
          (omega (arith, whole, length-drop 6 (p ∷ params))) later in
      subst (λ o. length (from_result o) ≡ suc q) end (omega (arith, inner))

  -- The request of notes of six fields each, and that of notes of five.
  abbrev pub six_request : List (NoteSpec V) → List V
  six_request notes = concat (map six_fields notes)

  abbrev pub five_request : List (NoteSpec V) → List V
  five_request notes = concat (map five_fields notes)

  six_chunks : (notes : List (NoteSpec V)) → All (λ c. length c ≡ 6) (map six_fields notes)
  six_chunks [] = tt
  six_chunks (n ∷ notes) = (refl, six_chunks notes)

  five_chunks : (notes : List (NoteSpec V)) → All (λ c. length c ≡ 5) (map five_fields notes)
  five_chunks [] = tt
  five_chunks (n ∷ notes) = (refl, five_chunks notes)

  specs-six : (notes : List (NoteSpec V)) → specs_of r (six_request notes) ≡ specify_floated notes
  unfolding specs_of read_specs
  specs-six [] = refl
  specs-six (n ∷ notes) =
      let step : note_step (length (six_request (n ∷ notes))) ≡ 6 =
        step-six (length (six_request (n ∷ notes))) (omega (arith, length-six notes))
          (omega (arith, length-six notes)) in
      ap (λ t. read_specs r (length (six_request (n ∷ notes))) t (six_request (n ∷ notes))) step
      ∙ read_specs-concat (length (six_request (n ∷ notes))) 5 (map six_fields (n ∷ notes))
          (six_chunks (n ∷ notes)) (omega arith)
      ∙ read_each-six (n ∷ notes)

  specs-five :
      (notes : List (NoteSpec V))
      → length notes % 6 ≢ 0
      → specs_of r (five_request notes) ≡ specify_all (map with_one notes)
  unfolding specs_of
  specs-five notes odd =
      let step : note_step (length (five_request notes)) ≡ 5 =
        step-five (length (five_request notes))
          (λ whole. odd (omega (arith, whole, length-five notes))) in
      ap (λ t. read_specs r (length (five_request notes)) t (five_request notes)) step
      ∙ read_specs-concat (length (five_request notes)) 4 (map five_fields notes)
          (five_chunks notes) (omega arith)
      ∙ read_each-five notes

  length-specs :
      (notes : List (NoteSpec V)) (k : ℕ) (specs : List N)
      → 0 < k
      → length notes ≡ 6 * k
      → specs_of r (five_request notes) ≡ returned specs
      → length specs ≡ 5 * k
  unfolding specs_of
  length-specs notes k specs some_notes many h =
      let step : note_step (length (five_request notes)) ≡ 6 =
        step-six (length (five_request notes)) (omega (arith, length-five notes, some_notes, many))
          (omega (arith, length-five notes, some_notes, many)) in
      length-read_specs (length (five_request notes)) (5 * k) (five_request notes) (omega arith)
        (omega (arith, length-five notes, many))
        (subst
          (λ t. read_specs r (length (five_request notes)) t (five_request notes) ≡ returned specs)
          step h)

  module _ {C : Type 0} (add_new_notes : List N → C → Outcome (Unit {0}) × C) where
    -- A request that is answered by a number has added that many notes.
    add_specs-count :
        (specs : Outcome (List N)) (clip : C) {count : ℕ}
        → (add_specs r add_new_notes specs clip).0 ≡ returned count
        → (l : List N) × (specs ≡ returned l) × (length l ≡ count)
    unfolding add_specs
    add_specs-count (raised e) clip h = absurd (cc h)
    add_specs-count (returned []) clip h = ([], refl, ground (arith, h))
    add_specs-count (returned (spec ∷ specs)) clip h =
        let (done, ok, end) = >>=-eq-returned (add_new_notes (spec ∷ specs) clip).0 _ h in
        (spec ∷ specs, refl, ground (arith, end))

    -- Notes that a client wrote with six fields each, with the probabilities that `float` gives, are the
    -- notes that go to the clip. So are those with five fields, with the probability 1.0, unless their number
    -- is a positive multiple of 6: 6 k notes of five fields each, if they are answered by a number of notes
    -- that went to the clip, are answered by 5 k.
    pub add_notes-roundtrip :
        (notes : List (NoteSpec V)) (clip : C)
        → (add_notes r add_new_notes (six_request notes) clip
            ≡ add_specs r add_new_notes (specify_floated notes) clip)
          × (length notes % 6 ≢ 0
              → add_notes r add_new_notes (five_request notes) clip
                ≡ add_specs r add_new_notes (specify_all (map with_one notes)) clip)
          × ((k count : ℕ)
              → 0 < k
              → length notes ≡ 6 * k
              → (add_notes r add_new_notes (five_request notes) clip).0 ≡ returned count
              → count ≡ 5 * k)
    unfolding add_notes
    add_notes-roundtrip notes clip = (
      ap (λ o. add_specs r add_new_notes o clip) (specs-six notes),
      λ odd. ap (λ o. add_specs r add_new_notes o clip) (specs-five notes odd),
      λ k count some_notes many h.
          let (specs, read, all) = add_specs-count (specs_of r (five_request notes)) clip h in
          sym all ∙ length-specs notes k specs some_notes many read,
    )
