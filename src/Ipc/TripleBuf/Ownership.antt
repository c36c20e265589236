-- ===== src/Ipc/TripleBuf/Ownership.antt =====
-- Who owns which buffer (audio-stack/ipc/include/demod_triple_buf.h), over all interleavings of the
-- producer's and the consumer's calls.
use de_mo_d.Prelude.{ℕ, ◌<◌, if◌then◌else◌, arith, true, false, ◌≡◌, ◌≢◌, refl, sym, ap, ◌∙◌}
use de_mo_d.Prelude.{Option, none, some, List, [], ◌∷◌, eq→==, All}
use de_mo_d.Ipc.TripleBuf.{TripleBuf, tb_w, tb_m, tb_r, tb_dirty, init, begin_write, fill}
use de_mo_d.Ipc.TripleBuf.{published, publish_swap, publish_count, taken, read_active, read_copy}
use de_mo_d.Ipc.TripleBuf.Fields.{fields_lem}

-- The three indices are 0, 1 and 2 in some order.
pub record IsOwned (s : ℕ) : Type 0 where
  pub w_in : tb_w s < 3
  pub m_in : tb_m s < 3
  pub r_in : tb_r s < 3
  pub w_m : tb_w s ≢ tb_m s
  pub m_r : tb_m s ≢ tb_r s
  pub w_r : tb_w s ≢ tb_r s

pub published-IsOwned : (s : ℕ) → IsOwned s → IsOwned (published s)
unfolding published
published-IsOwned s v =
    ground
      (arith, fields_lem (tb_m s) (tb_w s) (tb_r s) true (omega arith) (omega arith) (omega arith))

pub taken-IsOwned : (s : ℕ) → IsOwned s → IsOwned (taken s)
unfolding taken
taken-IsOwned s v =
    ground
      (arith, fields_lem (tb_w s) (tb_r s) (tb_m s) false (omega arith) (omega arith) (omega arith))

tb_r-published : (s : ℕ) → IsOwned s → tb_r (published s) ≡ tb_r s
unfolding published
tb_r-published s v =
    (fields_lem (tb_m s) (tb_w s) (tb_r s) true (omega (arith, v.m_in)) (omega (arith, v.w_in))
      (omega (arith, v.r_in))).2

-- One atomic step: the producer writes into its buffer, exchanges it, counts; the consumer reads.
pub data Event (A : Type 0) : Type 0 where
  filling : A → Event A
  swapping : Event A
  counting : Event A
  reading : Event A

-- What the producer has written since its last exchange, and what it last handed over; `none`
-- where it handed over a buffer that it had not filled.
pub record History (A : Type 0) : Type 0 where
  pub draft : Option A
  pub latest : Option A

module _ {A : Type 0} where
  unfoldable pub step : TripleBuf A → Event A → TripleBuf A
  unfolding fill publish_swap publish_count read_active
  step tb (filling x) = fill tb x
  step tb swapping = publish_swap tb
  step tb counting = publish_count tb
  step tb reading = (read_active tb).1

  unfoldable pub run : TripleBuf A → List (Event A) → TripleBuf A
  unfolding step
  run tb [] = tb
  run tb (e ∷ es) = run (step tb e) es

  abbrev pub record_step : History A → Event A → History A
  record_step h (filling x) = record h { draft = some x }
  record_step h swapping = record { draft = none; latest = h.draft }
  record_step h counting = h
  record_step h reading = h

  abbrev pub history : History A → List (Event A) → History A
  history h [] = h
  history h (e ∷ es) = history (record_step h e) es

  -- The buffer that the next read returns.
  abbrev shown : TripleBuf A → A
  shown tb = tb.buffers (if tb_dirty tb.state then tb_m tb.state else tb_r tb.state)

  record Agrees (h : History A) (tb : TripleBuf A) : Type 0 where
    owned : IsOwned tb.state
    drafted : (x : A) → h.draft ≡ some x → tb.buffers (tb_w tb.state) ≡ x
    handed : (x : A) → h.latest ≡ some x → shown tb ≡ x

  step-Agrees :
      (e : Event A) {h : History A} {tb : TripleBuf A}
      → Agrees h tb
      → Agrees (record_step h e) (step tb e)
  unfolding step begin_write
  step-Agrees (filling x) {h} {tb} a = record {
    owned = a.owned;
    drafted = λ y e. ground (arith, eq→== (tb_w tb.state) (tb_w tb.state) refl);
    handed = λ y e. ground (arith, a.handed y e, a.owned.w_m, a.owned.w_r);
  }
  step-Agrees swapping {h} {tb} a =
      let own = a.owned in
      let fields =
        fields_lem (tb_m tb.state) (tb_w tb.state) (tb_r tb.state) true (omega (arith, own.m_in))
          (omega (arith, own.w_in)) (omega (arith, own.r_in)) in
      record {
        owned = published-IsOwned tb.state own;
        drafted = λ y e. cc e;
        handed = λ y e. unfold published in ground (arith, fields, a.drafted y e);
      }
  step-Agrees counting {h} {tb} a = record {
    owned = a.owned;
    drafted = a.drafted;
    handed = a.handed;
  }
  step-Agrees reading {h} {tb} a =
      let own = a.owned in
      let fields =
        fields_lem (tb_w tb.state) (tb_r tb.state) (tb_m tb.state) false (omega (arith, own.w_in))
          (omega (arith, own.r_in)) (omega (arith, own.m_in)) in
      record {
        owned = ground (arith, taken-IsOwned tb.state own);
        drafted = λ y e. unfold taken in ground (arith, fields, a.drafted y e);
        handed = λ y e. unfold taken in ground (arith, fields, a.handed y e);
      }

  run-Agrees :
      (es : List (Event A)) {h : History A} {tb : TripleBuf A}
      → Agrees h tb
      → Agrees (history h es) (run tb es)
  unfolding run
  run-Agrees [] a = a
  run-Agrees (e ∷ es) a = run-Agrees es (step-Agrees e a)

  abbrev pub start : A → History A
  start blank = record { draft = none; latest = some blank }

  init-Agrees : (blank : A) → Agrees (start blank) (init blank)
  unfolding init
  init-Agrees blank =
      let fields = fields_lem 0 1 2 false (omega arith) (omega arith) (omega arith) in
      record { owned = ground (arith, fields); drafted = λ y e. cc e; handed = λ y e. cc e }

  read_copy-eq-shown : (tb : TripleBuf A) → IsOwned tb.state → (read_copy tb).0 ≡ shown tb
  unfolding read_copy taken
  read_copy-eq-shown tb v = ground (
    arith,
    fields_lem (tb_w tb.state) (tb_r tb.state) (tb_m tb.state) false (omega (arith, v.w_in))
        (omega (arith, v.r_in)) (omega (arith, v.m_in)),
  )

  -- After any sequence of steps of both sides, a read copies the snapshot that was last handed
  -- over, or the initial one, if the producer filled its buffer before it handed it over.
  pub read_copy-latest :
      (blank x : A) (es : List (Event A))
      → (history (start blank) es).latest ≡ some x
      → (read_copy (run (init blank) es)).0 ≡ x
  read_copy-latest blank x es h =
      let a = run-Agrees es (init-Agrees blank) in
      read_copy-eq-shown (run (init blank) es) a.owned ∙ a.handed x h

  -- In any state that steps lead to, the producer's buffer is not the one that a read returns.
  pub writer-ne-reader :
      (blank : A) (es : List (Event A))
      → begin_write (run (init blank) es) ≢ (read_active (run (init blank) es)).0
  unfolding begin_write read_active taken
  writer-ne-reader blank es =
      let tb = run (init blank) es in
      let v = (run-Agrees es (init-Agrees blank)).owned in
      ground (
        arith,
        fields_lem (tb_w tb.state) (tb_r tb.state) (tb_m tb.state) false (omega (arith, v.w_in))
            (omega (arith, v.r_in)) (omega (arith, v.m_in)),
        v.w_m,
        v.w_r,
      )

  abbrev pub IsProducer : Event A → Type 0
  IsProducer reading = ⊥
  IsProducer e = Unit {0}

  -- No steps of the producer change the buffer that the consumer holds, or take it away.
  pub reader_undisturbed :
      (es : List (Event A)) (tb : TripleBuf A)
      → IsOwned tb.state
      → All IsProducer es
      → (tb_r (run tb es).state ≡ tb_r tb.state)
        × ((run tb es).buffers (tb_r tb.state) ≡ tb.buffers (tb_r tb.state))
  unfolding run begin_write
  reader_undisturbed [] tb v h = (refl, refl)
  reader_undisturbed (filling x ∷ es) tb v h =
      let next = fill tb x in
      let (r, b) = reader_undisturbed es next v h.1 in (r, b ∙ ground (arith, v.w_r))
  reader_undisturbed (swapping ∷ es) tb v h =
      let (r, b) = reader_undisturbed es (publish_swap tb) (published-IsOwned tb.state v) h.1 in
      let kept = tb_r-published tb.state v in
      (r ∙ kept, ap (run (publish_swap tb) es).buffers (sym kept) ∙ b ∙ ap tb.buffers kept)
  reader_undisturbed (counting ∷ es) tb v h = reader_undisturbed es (publish_count tb) v h.1
  reader_undisturbed (reading ∷ es) tb v h = absurd h.0
