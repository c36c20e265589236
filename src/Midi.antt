-- ===== src/Midi.antt =====
-- The MIDI byte parser and its message queue, src/input/midi_input.c.
pub mod Queue
pub mod Voice
pub mod Stream
mod Tests
use Prim.Native.Nat.{bit_and}
use de_mo_d.Prelude.{ℕ, suc, ◌+◌, ◌==◌, ltb, leb, if◌then◌else◌, Bool, true, false, not, ◌&&◌, ◌||◌}
use de_mo_d.Ring.{put}
use de_mo_d.Prelude.{Option, none, some, List, [], ◌∷◌, length}

-- `DmMidiMsg`
pub record DmMidiMsg : Type 0 where
  pub status : ℕ
  pub d1 : ℕ
  pub d2 : ℕ

-- `struct DmMidi`, less the file descriptor and the path. The arrays are functions of the index;
-- `bytes` is the array `data`.
pub record DmMidi : Type 0 where
  pub q : ℕ → DmMidiMsg
  pub head : ℕ
  pub tail : ℕ
  pub run_status : ℕ
  pub bytes : ℕ → ℕ
  pub data_have : ℕ
  pub data_need : ℕ
  pub in_sysex : Bool

unfoldable pub voice_data_len : ℕ → ℕ
voice_data_len status =
    let kind = bit_and status 240 in
    if kind == 128 || kind == 144 || kind == 160 || kind == 176 || kind == 224
    then 2
    else if kind == 192 || kind == 208
    then 1
    else 0

-- `DM_MIDI_RING`
abbrev pub dm_midi_ring : ℕ
dm_midi_ring = 256

-- "full: drop newest"
unfoldable pub midi_push : DmMidi → DmMidiMsg → DmMidi
midi_push m msg =
    let next = bit_and (m.head + 1) 255 in
    if next == m.tail then m else record m { q = put m.q m.head msg; head = next }

-- The part of `midi_feed` for bytes with the top bit.
unfoldable pub feed_status : DmMidi → ℕ → DmMidi
unfolding midi_push voice_data_len
feed_status m c =
    if leb 248 c
    then (if c == 248 || c == 250 || c == 251 || c == 252
        then midi_push m (record { status = c; d1 = 0; d2 = 0 })
        else m)
    else if c == 240
    then record m { in_sysex = true }
    else if c == 247
    then record m { in_sysex = false }
    else if leb 241 c && leb c 246
    then record m { run_status = 0; data_need = 0; data_have = 0 }
    else record m { run_status = c; data_need = voice_data_len c; data_have = 0 }

-- The end of `midi_feed`, once the data byte is stored.
unfoldable pub finish_data : DmMidi → DmMidi
unfolding midi_push
finish_data m =
    if leb m.data_need m.data_have
    then (let d2 = if m.data_need == 2 then m.bytes 1 else 0 in
        record (midi_push m (record { status = m.run_status; d1 = m.bytes 0; d2 = d2 })) {
          data_have = 0;
        })
    else m

-- The part of `midi_feed` for data bytes.
unfoldable pub feed_data : DmMidi → ℕ → DmMidi
unfolding finish_data
feed_data m c =
    if m.in_sysex
    then m
    else if m.run_status == 0
    then m
    else finish_data (record m {
      bytes = if ltb m.data_have 2 then put m.bytes m.data_have c else m.bytes;
      data_have = m.data_have + 1;
    })

unfoldable pub midi_feed : DmMidi → ℕ → DmMidi
unfolding feed_status feed_data
midi_feed m c = if bit_and c 128 == 0 then feed_data m c else feed_status m c

unfoldable pub feed_all : DmMidi → List ℕ → DmMidi
unfolding midi_feed
feed_all m [] = m
feed_all m (c ∷ cs) = feed_all (midi_feed m c) cs

-- The loop of `dm_midi_poll` over the results of `read`: at most 256 bytes each, none at the end or
-- on an error.
unfoldable pub drain : DmMidi → List (List ℕ) → DmMidi
unfolding feed_all
drain m [] = m
drain m (buf ∷ more) =
    let m' = feed_all m buf in
    let rest = drain m' more in
    if length buf == 0 then m else if ltb (length buf) 256 then m' else rest

-- The end of `dm_midi_poll`: `none` where it returns 0.
unfoldable pub dequeue : DmMidi → Option DmMidiMsg × DmMidi
dequeue m =
    if m.tail == m.head
    then (none, m)
    else (some (m.q m.tail), record m { tail = bit_and (m.tail + 1) 255 })

unfoldable pub poll : DmMidi → List (List ℕ) → Option DmMidiMsg × DmMidi
unfolding drain dequeue
poll m reads = dequeue (drain m reads)
