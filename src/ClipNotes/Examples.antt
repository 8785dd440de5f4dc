-- ===== src/ClipNotes/Examples.antt =====
-- A clip with one note, read by its first page.
use ohmic_bridge.Prelude.{
  ℕ, ◌*◌, ◌-◌, ◌≤◌, ◌<◌, ◌≡◌, ◌⊎◌, refl, List, [], ◌∷◌, length, concat, get_elem?, some, Outcome,
  returned, raised,
}
use ohmic_bridge.Prelude.Int.{ℤ, pos, negsuc}
use ohmic_bridge.ClipNotes.{
  Param, LiveNote, NoteFields, Window, whole_clip, page_outside, read_request, read_note,
  read_notes, paged_notes_reply,
}
use ohmic_bridge.ClipNotes.Pages.{Serves, paged_notes_reply-pages}

abbrev note : LiveNote ℤ
note = record {
  pitch = returned (pos 60);
  start_time = returned (pos 0);
  duration = returned (pos 1);
  velocity = returned (pos 100);
  mute = returned (pos 0);
  probability = returned (pos 1);
}

abbrev fields : NoteFields ℤ
fields = record {
  pitch = pos 60;
  start_time = pos 0;
  duration = pos 1;
  velocity = pos 100;
  mute = pos 0;
  probability = pos 1;
}

abbrev index : ℤ → Param ℤ
index i = record { value = i; as_int = returned i }

abbrev ask : ℤ → List (Param ℤ)
ask i = index i ∷ []

asked : (i : ℤ) → read_request 128 (ask i) ≡ returned (whole_clip 128, some (index i))
unfolding read_request
asked i = refl

readable : read_notes (pos 1) (note ∷ []) ≡ returned (fields ∷ [])
unfolding read_notes read_note
readable = refl

-- What `get_notes_extended` gives.
abbrev clip : Window ℤ → Outcome (List (LiveNote ℤ))
clip w = returned (note ∷ [])

paged_notes_reply-pages_example :
    (pages : List (List (NoteFields ℤ))) × (concat pages ≡ fields ∷ [])
    × (1 ≤ length pages)
    × ((length pages ≡ 1) ⊎ ((length pages - 1) * 300 < 1))
    × ((i : ℕ) (page : List (NoteFields ℤ))
        → get_elem? pages i ≡ some page
        → Serves (pos 1) clip 128 (ask (pos i)) (length pages) 1 page)
    × ((i : ℕ)
        → length pages ≤ i
        → paged_notes_reply clip (pos 1) 128 (ask (pos i)) ≡ raised page_outside)
    × ((n : ℕ) → paged_notes_reply clip (pos 1) 128 (ask (negsuc n)) ≡ raised page_outside)
paged_notes_reply-pages_example =
    paged_notes_reply-pages (pos 1) clip 128 ask (whole_clip 128) index (note ∷ []) (fields ∷ [])
      asked (λ i. refl) refl readable
