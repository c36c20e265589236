-- ===== src/Ipc/Tests.antt =====
-- Runs of the primitives of audio-stack/ipc/include on small rings and buffers.
use de_mo_d.Prelude.{ℕ, ◌+◌, ◌≤◌, ◌<◌, arith, ◌≡◌, ◌≢◌, ◌⊎◌, refl}
use de_mo_d.Prelude.{none, List, [], ◌∷◌, ◌++◌, length}
use de_mo_d.Ipc.Spsc.{Spsc, init, write_loop, push, pop}
use de_mo_d.Ipc.Spsc.Window.{window}
use de_mo_d.Ipc.Spsc.Refine.{IsValid, contents, used, push_refines, pop_refines}
use de_mo_d.Ipc.TripleBuf
use de_mo_d.Ipc.TripleBuf.{
  TripleBuf, tb_pack, tb_w, tb_m, tb_r, tb_dirty, begin_write, read_active, read_copy,
}
use de_mo_d.Ipc.TripleBuf.Ownership.{Event, filling, swapping, counting, reading, IsOwned, run}
use de_mo_d.Ipc.TripleBuf.Ownership.{read_copy-latest, writer-ne-reader}

-- A ring of four, one sample before the indices wrap, with one sample in it.
abbrev wrapping : Spsc ℕ
wrapping = record {
  write_idx = 18446744073709551615;
  read_idx_cached = 18446744073709551613;
  read_idx = 18446744073709551614;
  write_idx_cached = 18446744073709551614;
  capacity = 4;
  mask = 3;
  samples = λ i. i;
}

wrapping-IsValid : IsValid 2 wrapping
wrapping-IsValid = record {
  small = omega arith;
  power = refl;
  masked = refl;
  bounded = omega arith;
  write_fits = omega arith;
  read_fits = omega arith;
  within = omega arith;
  reader_lags = omega arith;
  reader_behind = omega arith;
  writer_behind = omega arith;
  cached_fits = (omega arith, omega arith);
}

init_fails : init {A = ℕ} 0 6 ≡ none
unfolding init
init_fails = refl

abbrev three_samples : List ℕ
three_samples = 7 ∷ 8 ∷ 9 ∷ []

wrapping-push : contents (push wrapping three_samples).1 ≡ 2 ∷ 7 ∷ 8 ∷ 9 ∷ []
unfolding contents push window write_loop
wrapping-push = refl

push_refines_example :
    IsValid 2 (push wrapping three_samples).1
    × (((used wrapping + length three_samples ≤ wrapping.capacity)
          × ((push wrapping three_samples).0 ≡ length three_samples)
          × (contents (push wrapping three_samples).1 ≡ contents wrapping ++ three_samples))
        ⊎ ((wrapping.capacity < used wrapping + length three_samples)
            × ((push wrapping three_samples).0 ≡ 0)
            × (contents (push wrapping three_samples).1 ≡ contents wrapping)))
push_refines_example = push_refines 2 wrapping three_samples wrapping-IsValid

abbrev max_three : ℕ
max_three = 3

pop_refines_example :
    IsValid 2 (pop wrapping 3).1
    × (contents wrapping ≡ (pop wrapping 3).0 ++ contents (pop wrapping 3).1)
    × (length (pop wrapping 3).0 ≤ 3)
    × ((length (pop wrapping 3).0 ≡ 0) → (max_three ≡ 0) ⊎ (used wrapping ≡ 0))
pop_refines_example = pop_refines 2 wrapping 3 wrapping-IsValid

-- Two snapshots, with a read between the exchange and the count.
abbrev steps : List (Event ℕ)
steps = filling 5 ∷ swapping ∷ reading ∷ counting ∷ filling 6 ∷ swapping ∷ []

read_copy-latest_example : (read_copy (run (TripleBuf.init {A = ℕ} 0) steps)).0 ≡ 6
read_copy-latest_example = read_copy-latest 0 6 steps refl

writer-ne-reader_example :
    begin_write (run (TripleBuf.init {A = ℕ} 0) steps)
    ≢ (read_active (run (TripleBuf.init {A = ℕ} 0) steps)).0
writer-ne-reader_example = writer-ne-reader 0 steps

start-IsOwned : IsOwned (TripleBuf.init {A = ℕ} 0).state
unfolding TripleBuf.init tb_pack tb_w tb_m tb_r
start-IsOwned = record {
  w_in = omega arith;
  m_in = omega arith;
  r_in = omega arith;
  w_m = omega arith;
  m_r = omega arith;
  w_r = omega arith;
}

abbrev writes : List (Event ℕ)
writes = filling 5 ∷ swapping ∷ counting ∷ filling 6 ∷ []
