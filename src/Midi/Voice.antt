-- ===== src/Midi/Voice.antt =====
-- Channel messages through `midi_feed` (src/input/midi_input.c).
use Prim.Native.Nat.{bit_and}
use de_mo_d.Prelude.{
  ℕ, ◌≤◌, ◌<◌, ◌==◌, ltb, if◌then◌else◌, arith, Bool, true, not, every, every_sound, ◌≡◌, refl,
}
use de_mo_d.Midi.{DmMidi, midi_push, midi_feed, feed_status, feed_data, finish_data}

top_bit_test : ℕ → Bool
top_bit_test c = if bit_and c 128 == 0 then ltb c 128 else not (ltb c 128)

top_bit_table : every 256 top_bit_test ≡ true
unfolding every top_bit_test
top_bit_table = refl

-- The top bit of a byte.
pub top_bit : (c : ℕ) → c < 256 → (bit_and c 128 == 0) ≡ ltb c 128
unfolding top_bit_test
top_bit c h = ground (arith, every_sound 256 top_bit_test c top_bit_table h)

-- A real-time byte leaves the parser's state, whatever it puts into the queue.
pub midi_feed-real_time :
    (m : DmMidi) (c : ℕ)
    → 248 ≤ c
    → c < 256
    → ((midi_feed m c).run_status ≡ m.run_status)
      × ((midi_feed m c).data_have ≡ m.data_have)
      × ((midi_feed m c).data_need ≡ m.data_need)
      × ((midi_feed m c).bytes ≡ m.bytes)
      × ((midi_feed m c).in_sysex ≡ m.in_sysex)
unfolding midi_feed feed_status feed_data finish_data midi_push
midi_feed-real_time m c lo hi = ground (arith, top_bit c hi)
