-- ===== src/Midi/Stream.antt =====
-- Streams of channel messages with running status through `midi_feed` (src/input/midi_input.c).
use mathlib.Core.Path.{ap₂}
use mathlib.Core.List.{append-nil, append_assoc}
use de_mo_d.Prelude.{ℕ, ◌+◌, ◌≤◌, ◌<◌, arith, true, false}
use de_mo_d.Prelude.{
  ◌≡◌, refl, sym, ap, ◌∙◌, List, [], ◌∷◌, ◌++◌, length, length-append, ne→==, All, if_false,
}
use de_mo_d.Midi.{
  DmMidi, DmMidiMsg, midi_push, midi_feed, feed_all, feed_status, feed_data, finish_data,
  voice_data_len, put,
}
use de_mo_d.Midi.Queue.{queued, IsRing, midi_push_lem}
use de_mo_d.Midi.Voice.{top_bit}

-- The parser after a message of two data bytes.
abbrev ready : DmMidi → ℕ → (ℕ → ℕ) → DmMidi
ready m st b = record m {
  run_status = st;
  bytes = b;
  data_have = 0;
  data_need = 2;
  in_sysex = false;
}

abbrev half : DmMidi → ℕ → (ℕ → ℕ) → DmMidi
half m st b = record m {
  run_status = st;
  bytes = b;
  data_have = 1;
  data_need = 2;
  in_sysex = false;
}

abbrev pub message : ℕ → ℕ × ℕ → DmMidiMsg
message st (d1, d2) = record { status = st; d1 = d1; d2 = d2 }

first_byte :
    (m : DmMidi) (st d : ℕ) (b : ℕ → ℕ)
    → 128 ≤ st
    → d < 128
    → midi_feed (ready m st b) d ≡ half m st (put b 0 d)
unfolding midi_feed feed_data finish_data
first_byte m st d b lo hi = ground (arith, top_bit d (omega arith))

second_byte :
    (m : DmMidi) (st d : ℕ) (b : ℕ → ℕ)
    → 128 ≤ st
    → d < 128
    → midi_feed (half m st b) d ≡ ready (midi_push m (message st (b 0, d))) st (put b 1 d)
unfolding midi_feed feed_data finish_data midi_push
second_byte m st d b lo hi = ground (arith, top_bit d (omega arith))

status_fields :
    (m : DmMidi) (st : ℕ)
    → 128 ≤ st
    → st < 240
    → midi_feed m st ≡ record m { run_status = st; data_need = voice_data_len st; data_have = 0 }
unfolding midi_feed feed_status
status_fields m st lo hi = ground (arith, top_bit st (omega arith))

status_byte :
    (m : DmMidi) (st : ℕ)
    → m.in_sysex ≡ false
    → 128 ≤ st
    → st < 240
    → voice_data_len st ≡ 2
    → midi_feed m st ≡ ready m st m.bytes
unfolding midi_feed feed_status
status_byte m st out lo hi two =
    status_fields m st lo hi
    ∙ ap₂ (λ n x. record m { run_status = st; data_need = n; data_have = 0; in_sysex = x }) two out

abbrev pub pair_bytes : List (ℕ × ℕ) → List ℕ
pair_bytes [] = []
pair_bytes ((d1, d2) ∷ ps) = d1 ∷ d2 ∷ pair_bytes ps

abbrev pub messages : ℕ → List (ℕ × ℕ) → List DmMidiMsg
messages st [] = []
messages st (p ∷ ps) = message st p ∷ messages st ps

abbrev pub IsData : ℕ × ℕ → Type 0
IsData (d1, d2) = (d1 < 128) × (d2 < 128)

pairs_lem :
    (ps : List (ℕ × ℕ)) (m : DmMidi) (st : ℕ) (b : ℕ → ℕ)
    → 128 ≤ st
    → All IsData ps
    → IsRing m
    → length (queued m) + length ps ≤ 255
    → queued (feed_all (ready m st b) (pair_bytes ps)) ≡ queued m ++ messages st ps
unfolding feed_all queued
pairs_lem [] m st b lo ds ring room = sym (append-nil (queued m))
pairs_lem ((d1, d2) ∷ ps) m st b lo ds ring room =
    let msg : DmMidiMsg = message st (d1, d2) in
    let (ring1, pushed) = midi_push_lem m msg ring in
    let grown : queued (midi_push m msg) ≡ queued m ++ (msg ∷ []) =
      pushed
      ∙ if_false (queued m) _ (ne→== (length (queued m)) 255 (λ e. absurd (omega (arith, e)))) in
    ap (λ s. queued (feed_all (midi_feed s d2) (pair_bytes ps))) (first_byte m st d1 b lo ds.0.0)
    ∙ ap (λ s. queued (feed_all s (pair_bytes ps))) (second_byte m st d2 (put b 0 d1) lo ds.0.1)
    ∙ pairs_lem ps (midi_push m msg) st (put (put b 0 d1) 1 d2) lo ds.1 ring1
        (omega (arith, ap length grown, length-append (queued m) (msg ∷ [])))
    ∙ ap (λ t. t ++ messages st ps) grown
    ∙ append_assoc (queued m) (msg ∷ []) (messages st ps)

-- Outside a system-exclusive message, a status byte of a message of two data bytes and the data of
-- any number of such messages append those messages to the queue, where it has room for them.
pub feed_all-messages :
    (m : DmMidi) (st : ℕ) (ps : List (ℕ × ℕ))
    → m.in_sysex ≡ false
    → 128 ≤ st
    → st < 240
    → voice_data_len st ≡ 2
    → All IsData ps
    → IsRing m
    → length (queued m) + length ps ≤ 255
    → queued (feed_all m (st ∷ pair_bytes ps)) ≡ queued m ++ messages st ps
unfolding feed_all
feed_all-messages m st ps out lo hi two ds ring room =
    ap (λ s. queued (feed_all s (pair_bytes ps))) (status_byte m st out lo hi two)
    ∙ pairs_lem ps m st m.bytes lo ds ring room

ignored : (m : DmMidi) (ds : List ℕ) → m.in_sysex ≡ true → All (λ d. d < 128) ds → feed_all m ds ≡ m
unfolding feed_all midi_feed feed_data
ignored m [] h ds = refl
ignored m (d ∷ more) h ds =
    ap (λ s. feed_all s more) (ground (arith, top_bit d (omega (arith, ds.0))))
    ∙ ignored m more h ds.1

-- A system-exclusive message that its end byte does not close swallows the channel messages after
-- it: their status byte and data leave the queue as it was.
pub feed_all-unended_sysex :
    (m : DmMidi) (st : ℕ) (ds : List ℕ)
    → m.in_sysex ≡ true
    → 128 ≤ st
    → st < 240
    → All (λ d. d < 128) ds
    → queued (feed_all m (st ∷ ds)) ≡ queued m
unfolding feed_all queued
feed_all-unended_sysex m st ds h lo hi low =
    let after : DmMidi = record m {
      run_status = st;
      data_need = voice_data_len st;
      data_have = 0;
    } in
    ap (λ s. queued (feed_all s ds)) (status_fields m st lo hi) ∙ ap queued (ignored after ds h low)
