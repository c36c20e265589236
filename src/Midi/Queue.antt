-- ===== src/Midi/Queue.antt =====
-- The message queue of src/input/midi_input.c is a first-in first-out queue of at most 255.
use mathlib.Core.Path.{subst}
use de_mo_d.Prelude.{
  ◌<◌, ◌==◌, if◌then◌else◌, arith, length, Bool-cases, inl, inr, if_true, if_false,
}
use de_mo_d.Prelude.{true, ==→eq, ap, ◌≡◌, sym, ◌∙◌, Option, none, some, List, [], ◌∷◌, ◌++◌}
use de_mo_d.Ring.{
  next_index, next_lem, entries, entries_full, entries_fits, entries-put, entries_front,
  entries_empty,
}
use de_mo_d.Midi.{DmMidi, DmMidiMsg, midi_push, dequeue}

-- The messages, the oldest first.
unfoldable pub queued : DmMidi → List DmMidiMsg
unfolding entries
queued m = entries m.q m.head m.tail

abbrev pub IsRing : DmMidi → Type 0
IsRing m = (m.head < 256) × (m.tail < 256)

abbrev Pushed : DmMidi → DmMidiMsg → DmMidi → Type 0
Pushed m msg m' =
    IsRing m'
    × (queued m' ≡ (if length (queued m) == 255 then queued m else queued m ++ (msg ∷ [])))

-- A push to a queue appends the message, unless 255 wait: then it changes nothing.
pub midi_push_lem :
    (m : DmMidi) (msg : DmMidiMsg)
    → IsRing m
    → IsRing (midi_push m msg)
      × (queued (midi_push m msg)
          ≡ (if length (queued m) == 255 then queued m else queued m ++ (msg ∷ [])))
unfolding midi_push queued
midi_push_lem m msg h = elim (Bool-cases (next_index m.head == m.tail)) [
  | inl full ↦
      subst (Pushed m msg) (sym (if_true _ _ full))
        (h, sym (if_true _ _ (entries_full m.q m.head m.tail h.0 h.1 full)))
  | inr fits ↦ subst (Pushed m msg) (sym (if_false _ _ fits)) (
    (omega (arith, next_lem m.head), h.1),
    entries-put m.q m.head m.tail h.0 h.1 msg fits
        ∙ sym (if_false _ _ (entries_fits m.q m.head m.tail h.0 h.1 fits)),
  )
]

abbrev pub first : List DmMidiMsg → Option DmMidiMsg
first [] = none
first (msg ∷ msgs) = some msg

abbrev pub others : List DmMidiMsg → List DmMidiMsg
others [] = []
others (msg ∷ msgs) = msgs

abbrev Taken : DmMidi → Option DmMidiMsg × DmMidi → Type 0
Taken m r = IsRing r.1 × (r.0 ≡ first (queued m)) × (queued r.1 ≡ others (queued m))

-- On a ring whose indices are below its size, taking from a queue with at least one message returns
-- its first message and leaves exactly the others, in their order. Taking from an empty queue returns
-- nothing and leaves it empty.
pub dequeue_lem :
    (m : DmMidi)
    → IsRing m
    → IsRing (dequeue m).1
      × ((dequeue m).0 ≡ first (queued m))
      × (queued (dequeue m).1 ≡ others (queued m))
unfolding dequeue queued
dequeue_lem m h = elim (Bool-cases (m.tail == m.head)) [
  | inl empty ↦ subst (Taken m) (sym (if_true _ _ empty)) (
    h,
    ap first (sym (nothing_queued empty)),
    nothing_queued empty ∙ ap others (sym (nothing_queued empty)),
  )
  | inr some_there ↦
      (let front = entries_front m.q m.head m.tail h.0 h.1 some_there in
        subst (Taken m) (sym (if_false _ _ some_there))
          ((h.0, omega (arith, next_lem m.tail)), ap first (sym front), ap others (sym front)))
]
  where
    nothing_queued : (m.tail == m.head) ≡ true → entries m.q m.head m.tail ≡ []
    nothing_queued e =
        ap (entries m.q m.head) (==→eq m.tail m.head e) ∙ entries_empty m.q m.head h.0
