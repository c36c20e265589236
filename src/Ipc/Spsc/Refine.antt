-- ===== src/Ipc/Spsc/Refine.antt =====
-- A ring of audio-stack/ipc/include/demod_spsc.h holds a queue of at most `capacity` samples, and
-- its calls are those of the queue, also where the indices wrap at 2 ^ 64.
use mathlib.Core.Path.{subst, ap₂}
use de_mo_d.Prelude.{ℕ, ◌+◌, ◌-◌, ◌%◌, ◌^◌, ◌≤◌, ◌<◌, ◌==◌, ltb, if◌then◌else◌, add64, sub64, arith}
use de_mo_d.Prelude.{
  ◌≡◌, ◌⊎◌, inl, inr, refl, sym, ap, ◌∙◌, List, ◌++◌, length, false, Bool-cases, ==→eq, ltb→le,
  ltb→lt, if_true, if_false,
}
use de_mo_d.Ipc.Spsc.{
  Spsc, push, push_all, pop, pop_some, room, write_loop, read_loop, available_read, available_write,
}
use de_mo_d.Ipc.Spsc.Window.{
  window, store_all, window_mod, store_all_mod, window-store_all, window-append, length-window,
}
use de_mo_d.Ipc.Spsc.Window.{mod_word, write_loop-eq-store_all, read_loop-eq-window}

-- `(available < max_count) ? available : max_count`
abbrev smaller : ℕ → ℕ → ℕ
smaller a m = if ltb a m then a else m

smaller_lem :
    (a m : ℕ)
    → (a == 0) ≡ false
    → (smaller a m ≤ a) × (smaller a m ≤ m) × ((smaller a m ≡ 0) → m ≡ 0)
smaller_lem a m h = ground arith

module _ {A : Type 0} where
  -- The number of samples in the ring.
  abbrev pub used : Spsc A → ℕ
  used rb = sub64 rb.write_idx rb.read_idx

  -- The samples, the oldest first.
  unfoldable pub contents : Spsc A → List A
  contents rb = window rb.capacity rb.samples rb.read_idx (used rb)

  -- The capacity is `2 ^ k`; each side's copy of the other's index lags behind it, by no more than
  -- the ring holds.
  pub record IsValid (k : ℕ) (rb : Spsc A) : Type 0 where
    pub small : k ≤ 63
    pub power : rb.capacity ≡ 2 ^ k
    pub masked : rb.mask ≡ 2 ^ k - 1
    pub bounded : rb.capacity ≤ 2 ^ 63
    pub write_fits : rb.write_idx < 2 ^ 64
    pub read_fits : rb.read_idx < 2 ^ 64
    pub within : used rb ≤ rb.capacity
    pub reader_lags : sub64 rb.write_idx rb.read_idx_cached ≤ rb.capacity
    pub reader_behind : used rb ≤ sub64 rb.write_idx rb.read_idx_cached
    pub writer_behind : sub64 rb.write_idx_cached rb.read_idx ≤ used rb
    pub cached_fits : (rb.read_idx_cached < 2 ^ 64) × (rb.write_idx_cached < 2 ^ 64)

  -- Stores of what fits append to the contents.
  push_all-contents :
      (k : ℕ) (rb : Spsc A) (xs : List A)
      → IsValid k rb
      → used rb + length xs ≤ rb.capacity
      → contents (push_all rb xs).1 ≡ contents rb ++ xs
  unfolding contents push_all
  push_all-contents k rb xs v h =
      ap (λ f. window cap f rb.read_idx grown) same_stores
      ∙ ap (window cap (store_all cap (rb.read_idx + used rb) xs rb.samples) rb.read_idx)
          {x = grown} {y = used rb + length xs} (omega arith)
      ∙ window-store_all cap xs rb.samples rb.read_idx (used rb) h
    where
      cap : ℕ
      cap = rb.capacity

      grown : ℕ
      grown = sub64 (add64 rb.write_idx (length xs)) rb.read_idx

      wrapped : rb.write_idx ≡ (rb.read_idx + used rb) % 2 ^ 64
      wrapped = omega arith

      same_slot : rb.write_idx % cap ≡ (rb.read_idx + used rb) % cap
      same_slot =
          ap (λ t. t % cap) wrapped
          ∙ ap (λ c. (rb.read_idx + used rb) % 2 ^ 64 % c) v.power
          ∙ mod_word k (rb.read_idx + used rb) (omega arith)
          ∙ ap (λ c. (rb.read_idx + used rb) % c) (sym v.power)

      same_stores :
          write_loop rb.mask rb.write_idx xs rb.samples
          ≡ store_all cap (rb.read_idx + used rb) xs rb.samples
      same_stores =
          ap (λ m. write_loop m rb.write_idx xs rb.samples) v.masked
          ∙ write_loop-eq-store_all k xs rb.samples rb.write_idx (omega arith)
          ∙ ap (λ c. store_all c rb.write_idx xs rb.samples) (sym v.power)
          ∙ store_all_mod cap xs rb.samples rb.write_idx (rb.read_idx + used rb) same_slot

  push_all-IsValid :
      (k : ℕ) (rb : Spsc A) (xs : List A)
      → IsValid k rb
      → sub64 rb.write_idx rb.read_idx_cached + length xs ≤ rb.capacity
      → IsValid k (push_all rb xs).1
  unfolding push_all
  push_all-IsValid k rb xs v h = omega arith

  -- The producer looks at the true read index.
  refreshed : Spsc A → Spsc A
  refreshed rb = record rb { read_idx_cached = rb.read_idx }

  refreshed-IsValid : (k : ℕ) (rb : Spsc A) → IsValid k rb → IsValid k (refreshed rb)
  unfolding refreshed
  refreshed-IsValid k rb v = omega arith

  -- `demod_spsc_push` appends all samples where they fit, and none otherwise, and says so.
  abbrev pub Pushed : ℕ → Spsc A → List A → ℕ × Spsc A → Type 0
  Pushed k rb xs r =
      IsValid k r.1
      × (((used rb + length xs ≤ rb.capacity)
            × (r.0 ≡ length xs)
            × (contents r.1 ≡ contents rb ++ xs))
          ⊎ ((rb.capacity < used rb + length xs) × (r.0 ≡ 0) × (contents r.1 ≡ contents rb)))

  push_all-Pushed :
      (k : ℕ) (rb : Spsc A) (xs : List A)
      → IsValid k rb
      → ltb (room rb rb.read_idx_cached) (length xs) ≡ false
      → Pushed k rb xs (push_all rb xs)
  push_all-Pushed k rb xs v h =
      let enough : sub64 rb.write_idx rb.read_idx_cached + length xs ≤ rb.capacity =
        omega (arith, ltb→le _ _ h) in
      (
        push_all-IsValid k rb xs v enough,
        inl (omega arith, unfold push_all in refl, push_all-contents k rb xs v (omega arith)),
      )

  -- A push to a valid ring appends all samples where they fit beside the contents, and none
  -- otherwise, returns how many it wrote, and leaves the ring valid.
  pub push_refines :
      (k : ℕ) (rb : Spsc A) (xs : List A)
      → IsValid k rb
      → IsValid k (push rb xs).1
        × (((used rb + length xs ≤ rb.capacity)
              × ((push rb xs).0 ≡ length xs)
              × (contents (push rb xs).1 ≡ contents rb ++ xs))
            ⊎ ((rb.capacity < used rb + length xs)
                × ((push rb xs).0 ≡ 0)
                × (contents (push rb xs).1 ≡ contents rb)))
  unfolding push contents refreshed
  push_refines k rb xs v = elim (Bool-cases (ltb (room rb rb.read_idx_cached) (length xs))) [
    | inr enough ↦
        subst (Pushed k rb xs) (sym (if_false _ _ enough)) (push_all-Pushed k rb xs v enough)
    | inl short ↦ elim (Bool-cases (ltb (room rb rb.read_idx) (length xs))) [
      | inr enough ↦
          subst (Pushed k rb xs) (sym (if_true _ _ short ∙ if_false _ _ enough))
            (push_all-Pushed k (refreshed rb) xs (refreshed-IsValid k rb v) enough)
      | inl full ↦
          subst (Pushed k rb xs) (sym (if_true _ _ short ∙ if_true _ _ full))
            (refreshed-IsValid k rb v, inr (omega (arith, ltb→lt _ _ full), refl, refl))
    ]
  ]

  -- `demod_spsc_pop` takes samples from the front, at most `max_count`.
  abbrev pub Popped : ℕ → Spsc A → ℕ → List A × Spsc A → Type 0
  Popped k rb max_count r =
      IsValid k r.1
      × (contents rb ≡ r.0 ++ contents r.1)
      × (length r.0 ≤ max_count)
      × ((length r.0 ≡ 0) → (max_count ≡ 0) ⊎ (used rb ≡ 0))

  -- What the end of a pop does with `n` samples that are there.
  pop_front :
      (k : ℕ) (rb : Spsc A) (n : ℕ)
      → IsValid k rb
      → n ≤ sub64 rb.write_idx_cached rb.read_idx
      → let rb' = record rb { read_idx = add64 rb.read_idx n } in
        IsValid k rb'
        × (contents rb ≡ read_loop rb.mask rb.read_idx n rb.samples ++ contents rb')
        × (length (read_loop rb.mask rb.read_idx n rb.samples) ≡ n)
  unfolding contents
  pop_front k rb n v h =
      (omega arith, split, ap length read ∙ length-window rb.capacity rb.samples rb.read_idx n)
    where
      left : ℕ
      left = sub64 rb.write_idx (add64 rb.read_idx n)

      read :
          read_loop rb.mask rb.read_idx n rb.samples ≡ window rb.capacity rb.samples rb.read_idx n
      read =
          ap (λ m. read_loop m rb.read_idx n rb.samples) v.masked
          ∙ read_loop-eq-window k n rb.samples rb.read_idx (omega arith)
          ∙ ap (λ c. window c rb.samples rb.read_idx n) (sym v.power)

      same_slot : (rb.read_idx + n) % rb.capacity ≡ add64 rb.read_idx n % rb.capacity
      same_slot =
          ap (λ c. (rb.read_idx + n) % c) v.power
          ∙ sym (mod_word k (rb.read_idx + n) (omega arith))
          ∙ ap (λ c. add64 rb.read_idx n % c) (sym v.power)

      split :
          window rb.capacity rb.samples rb.read_idx (used rb)
          ≡ read_loop rb.mask rb.read_idx n rb.samples
            ++ window rb.capacity rb.samples (add64 rb.read_idx n) left
      split =
          ap (window rb.capacity rb.samples rb.read_idx) {x = used rb} {y = n + left} (omega arith)
          ∙ window-append rb.capacity rb.samples rb.read_idx n left
          ∙ ap₂ ◌++◌ (sym read) (
              window_mod rb.capacity rb.samples (rb.read_idx + n) (add64 rb.read_idx n) left
                same_slot)

  pop_some-Popped :
      (k : ℕ) (rb : Spsc A) (max_count : ℕ)
      → IsValid k rb
      → (sub64 rb.write_idx_cached rb.read_idx == 0) ≡ false
      → Popped k rb max_count (pop_some rb (sub64 rb.write_idx_cached rb.read_idx) max_count)
  unfolding pop_some
  pop_some-Popped k rb max_count v some_there =
      let n : ℕ = smaller (sub64 rb.write_idx_cached rb.read_idx) max_count in
      let (le_all, le_max, zero_only) =
        smaller_lem (sub64 rb.write_idx_cached rb.read_idx) max_count some_there in
      let (valid, split, len) = pop_front k rb n v le_all in
      (valid, split, omega (arith, len), λ e. inl (zero_only (sym len ∙ e)))

  -- A pop from a valid ring takes samples from the front of the contents, at most `max_count`, none
  -- only if `max_count` is 0 or the ring is empty, and leaves the ring valid.
  pub pop_refines :
      (k : ℕ) (rb : Spsc A) (max_count : ℕ)
      → IsValid k rb
      → IsValid k (pop rb max_count).1
        × (contents rb ≡ (pop rb max_count).0 ++ contents (pop rb max_count).1)
        × (length (pop rb max_count).0 ≤ max_count)
        × ((length (pop rb max_count).0 ≡ 0) → (max_count ≡ 0) ⊎ (used rb ≡ 0))
  unfolding pop contents
  pop_refines k rb max_count v = elim (Bool-cases (sub64 rb.write_idx_cached rb.read_idx == 0)) [
    | inr some_there ↦
        subst (Popped k rb max_count) (sym (if_false _ _ some_there))
          (pop_some-Popped k rb max_count v some_there)
    | inl stale ↦ elim (Bool-cases (used rb == 0)) [
      | inr some_there ↦
          subst (Popped k rb max_count) (sym (if_true _ _ stale ∙ if_false _ _ some_there)) (
            pop_some-Popped k (record rb { write_idx_cached = rb.write_idx }) max_count
              (omega arith) some_there)
      | inl empty ↦
          subst (Popped k rb max_count) (sym (if_true _ _ stale ∙ if_true _ _ empty))
            (omega arith, refl, omega arith, λ e. inr (==→eq _ _ empty))
    ]
  ]

  -- The two queries of a valid ring add up to the capacity, and the first is the contents' length.
  pub available_lem :
      (k : ℕ) (rb : Spsc A)
      → IsValid k rb
      → (available_read rb ≡ length (contents rb))
        × (available_read rb + available_write rb ≡ rb.capacity)
  unfolding available_read available_write contents
  available_lem k rb v =
      (sym (length-window rb.capacity rb.samples rb.read_idx (used rb)), omega arith)
