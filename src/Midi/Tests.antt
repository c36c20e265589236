-- ===== src/Midi/Tests.antt =====
-- Runs of src/input/midi_input.c.
use de_mo_d.Prelude.{
  ℕ, ◌≡◌, refl, arith, true, false, some, List, [], ◌∷◌, ◌++◌, length, ◌==◌, if◌then◌else◌,
}
use de_mo_d.Ipc.Spsc.Window.{window}
use de_mo_d.Ring.{entries}
use de_mo_d.Midi.{
  DmMidi, DmMidiMsg, midi_push, midi_feed, feed_all, feed_status, feed_data, finish_data, dequeue,
  poll, drain, voice_data_len,
}
use de_mo_d.Midi.Queue.{queued, IsRing, first, others, midi_push_lem, dequeue_lem}
use de_mo_d.Midi.Stream.{pair_bytes, messages, message, feed_all-messages, feed_all-unended_sysex}

abbrev silent : DmMidiMsg
silent = record { status = 0; d1 = 0; d2 = 0 }

-- A parser with an empty queue, whose indices are about to wrap.
abbrev opened : DmMidi
opened = record {
  q = λ i. silent;
  head = 255;
  tail = 255;
  run_status = 0;
  bytes = λ i. 0;
  data_have = 0;
  data_need = 0;
  in_sysex = false;
}

abbrev notes : List (ℕ × ℕ)
notes = (60, 100) ∷ (60, 0) ∷ []

feed_all-messages_example :
    queued (feed_all opened (144 ∷ pair_bytes notes)) ≡ queued opened ++ messages 144 notes
unfolding voice_data_len queued window
feed_all-messages_example =
    feed_all-messages opened 144 notes refl (omega arith) (omega arith) refl
      ((omega arith, omega arith), ((omega arith, omega arith), tt)) (omega arith, omega arith)
      (omega arith)

midi_push_lem_example :
    IsRing (midi_push opened (message 144 (60, 100)))
    × (queued (midi_push opened (message 144 (60, 100))) ≡ (
        if length (queued opened) == 255
        then queued opened
        else queued opened ++ (message 144 (60, 100) ∷ [])))
midi_push_lem_example = midi_push_lem opened (message 144 (60, 100)) (omega arith, omega arith)

-- Two messages wait, one on each side of the wrap.
abbrev two_waiting : DmMidi
two_waiting = midi_push (midi_push opened (message 144 (60, 100))) (message 128 (60, 0))

two_waiting-queued : queued two_waiting ≡ message 144 (60, 100) ∷ message 128 (60, 0) ∷ []
unfolding queued midi_push entries window
two_waiting-queued = refl

two_waiting-IsRing : IsRing two_waiting
unfolding midi_push
two_waiting-IsRing = (omega arith, omega arith)

dequeue_lem_example :
    IsRing (dequeue two_waiting).1
    × ((dequeue two_waiting).0 ≡ first (queued two_waiting))
    × (queued (dequeue two_waiting).1 ≡ others (queued two_waiting))
dequeue_lem_example = dequeue_lem two_waiting two_waiting-IsRing

-- A program change comes out of the first read.
poll_program :
    (poll opened ((192 ∷ 5 ∷ []) ∷ [])).0 ≡ some (record { status = 192; d1 = 5; d2 = 0 })
unfolding poll drain feed_all midi_feed feed_status feed_data finish_data midi_push voice_data_len
    dequeue
poll_program = refl

abbrev in_message : DmMidi
in_message = record opened { in_sysex = true }

feed_all-unended_sysex_example :
    queued (feed_all in_message (144 ∷ 60 ∷ 100 ∷ [])) ≡ queued in_message
feed_all-unended_sysex_example =
    feed_all-unended_sysex in_message 144 (60 ∷ 100 ∷ []) refl (omega arith) (omega arith)
      (omega arith, (omega arith, tt))
