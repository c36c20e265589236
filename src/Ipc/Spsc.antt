-- ===== src/Ipc/Spsc.antt =====
-- The single-producer single-consumer ring of audio-stack/ipc/include/demod_spsc.h. The samples are
-- of any type, and `data` is a function of the index.
pub mod Window
pub mod Refine
use Prim.Native.Nat.{bit_and}
use de_mo_d.Prelude.{ℕ, zero, suc, ◌+◌, ◌-◌, ◌%◌, ◌^◌, ◌==◌, ltb, if◌then◌else◌, add64, sub64}
use de_mo_d.Prelude.{Bool, true, false, not, ◌&&◌, ◌||◌, Option, none, some, List, [], ◌∷◌, length}

-- `struct DemodSpsc`
pub record Spsc (A : Type 0) : Type 0 where
  pub write_idx : ℕ
  pub read_idx_cached : ℕ
  pub read_idx : ℕ
  pub write_idx_cached : ℕ
  pub capacity : ℕ
  pub mask : ℕ
  pub samples : ℕ → A

-- `v && !(v & (v - 1))`
unfoldable pub is_power_of_2 : ℕ → Bool
is_power_of_2 v = not (v == 0) && (bit_and v (sub64 v 1) == 0)

-- `demod_spsc_init` on memory that is there; `silence` is the sample of all zero bytes.
unfoldable pub init : {A : Type 0} → A → ℕ → Option (Spsc A)
unfolding is_power_of_2
init silence capacity =
    if not (is_power_of_2 capacity) || ltb capacity 2
    then none
    else some (record {
      write_idx = 0;
      read_idx_cached = 0;
      read_idx = 0;
      write_idx_cached = 0;
      capacity = capacity;
      mask = sub64 capacity 1;
      samples = λ _. silence;
    })

-- `data[i] = x`
abbrev pub store : {A : Type 0} → (ℕ → A) → ℕ → A → ℕ → A
store f i x j = if j == i then x else f j

-- The loop `data[(w + i) & mask] = data_in[i]`, from the index `i = w + ...` on.
unfoldable pub write_loop : {A : Type 0} → ℕ → ℕ → List A → (ℕ → A) → ℕ → A
write_loop mask i [] f = f
write_loop mask i (x ∷ xs) f = write_loop mask (add64 i 1) xs (store f (bit_and i mask) x)

-- The loop `buf[i] = data[(r + i) & mask]`, `n` rounds.
unfoldable pub read_loop : {A : Type 0} → ℕ → ℕ → ℕ → (ℕ → A) → List A
read_loop mask i zero f = []
read_loop mask i (suc n) f = f (bit_and i mask) ∷ read_loop mask (add64 i 1) n f

module _ {A : Type 0} where
  -- Room for writing, by the producer's copy of the read index.
  abbrev pub room : Spsc A → ℕ → ℕ
  room rb r = sub64 rb.capacity (sub64 rb.write_idx r)

  -- The end of `demod_spsc_push`: the samples, then the index.
  unfoldable pub push_all : Spsc A → List A → ℕ × Spsc A
  push_all rb xs = (
    length xs,
    record rb {
      samples = write_loop rb.mask rb.write_idx xs rb.samples;
      write_idx = add64 rb.write_idx (length xs);
    },
  )

  -- `demod_spsc_push`: all samples or none.
  unfoldable pub push : Spsc A → List A → ℕ × Spsc A
  unfolding push_all
  push rb xs =
      if ltb (room rb rb.read_idx_cached) (length xs)
      then (let rb' = record rb { read_idx_cached = rb.read_idx } in
          if ltb (room rb' rb'.read_idx_cached) (length xs) then (0, rb') else push_all rb' xs)
      else push_all rb xs

  -- The end of `demod_spsc_pop`. The list is what it stores through `buf`.
  unfoldable pub pop_some : Spsc A → ℕ → ℕ → List A × Spsc A
  pop_some rb available max_count =
      let count = if ltb available max_count then available else max_count in
      (
        read_loop rb.mask rb.read_idx count rb.samples,
        record rb { read_idx = add64 rb.read_idx count },
      )

  -- `demod_spsc_pop`; the count that it returns is the list's length.
  unfoldable pub pop : Spsc A → ℕ → List A × Spsc A
  unfolding pop_some
  pop rb max_count =
      let available = sub64 rb.write_idx_cached rb.read_idx in
      if available == 0
      then (let rb' = record rb { write_idx_cached = rb.write_idx } in
          let fresh = sub64 rb'.write_idx_cached rb'.read_idx in
          if fresh == 0 then ([], rb') else pop_some rb' fresh max_count)
      else pop_some rb available max_count

  unfoldable pub available_read : Spsc A → ℕ
  available_read rb = sub64 rb.write_idx rb.read_idx

  unfoldable pub available_write : Spsc A → ℕ
  available_write rb = sub64 rb.capacity (sub64 rb.write_idx rb.read_idx)
