-- ===== src/Ipc/TripleBuf.antt =====
-- The triple buffer of audio-stack/ipc/include/demod_triple_buf.h. The snapshots are of any type.
pub mod Fields
pub mod Ownership
use Prim.Native.Nat.{bit_and, bit_or}
use de_mo_d.Prelude.{ℕ, ◌+◌, ◌*◌, ◌/◌, ◌%◌, ◌^◌, ◌==◌, if◌then◌else◌, add64, Bool, true, false, not}

-- `tb_pack`: writer in bits 0 and 1, middle in bits 2 and 3, reader in bits 4 and 5, dirty in bit 6.
unfoldable pub tb_pack : ℕ → ℕ → ℕ → Bool → ℕ
tb_pack w m r d =
    bit_or (bit_or (bit_or (w * 2 ^ 0) (m * 2 ^ 2)) (r * 2 ^ 4)) (if d then 2 ^ 6 else 0)

unfoldable pub tb_w : ℕ → ℕ
tb_w s = bit_and (s / 2 ^ 0) 3

unfoldable pub tb_m : ℕ → ℕ
tb_m s = bit_and (s / 2 ^ 2) 3

unfoldable pub tb_r : ℕ → ℕ
tb_r s = bit_and (s / 2 ^ 4) 3

unfoldable pub tb_dirty : ℕ → Bool
tb_dirty s = not (bit_and s (2 ^ 6) == 0)

-- The word that a successful exchange of `demod_triple_buf_publish` stores.
unfoldable pub published : ℕ → ℕ
published s = tb_pack (tb_m s) (tb_w s) (tb_r s) true

-- The word that a successful exchange of `demod_triple_buf_read_active` stores.
unfoldable pub taken : ℕ → ℕ
taken s = tb_pack (tb_w s) (tb_r s) (tb_m s) false

-- `struct DemodTripleBuf`
pub record TripleBuf (A : Type 0) : Type 0 where
  pub state : ℕ
  pub sequence : ℕ
  pub buffers : ℕ → A

module _ {A : Type 0} where
  -- `demod_triple_buf_init`; `blank` is the snapshot of all zero bytes.
  unfoldable pub init : A → TripleBuf A
  init blank = record { state = tb_pack 0 1 2 false; sequence = 0; buffers = λ _. blank }

  -- The buffer that `demod_triple_buf_begin_write` hands out.
  unfoldable pub begin_write : TripleBuf A → ℕ
  begin_write tb = tb_w tb.state

  -- The producer fills its buffer.
  unfoldable pub fill : TripleBuf A → A → TripleBuf A
  fill tb x = record tb { buffers = λ i. if i == begin_write tb then x else tb.buffers i }

  -- `demod_triple_buf_publish`: the exchange, and the increment of `sequence`.
  unfoldable pub publish_swap : TripleBuf A → TripleBuf A
  publish_swap tb = record tb { state = published tb.state }

  unfoldable pub publish_count : TripleBuf A → TripleBuf A
  publish_count tb = record tb { sequence = add64 tb.sequence 1 }

  unfoldable pub publish : TripleBuf A → TripleBuf A
  unfolding publish_swap publish_count published
  publish tb = publish_count (publish_swap tb)

  -- `demod_triple_buf_read_active`, with the index of the buffer that it returns.
  unfoldable pub read_active : TripleBuf A → ℕ × TripleBuf A
  unfolding taken
  read_active tb =
      if tb_dirty tb.state
      then (tb_r (taken tb.state), record tb { state = taken tb.state })
      else (tb_r tb.state, tb)

  -- `demod_triple_buf_read_copy`: the snapshot and the sequence number.
  unfoldable pub read_copy : TripleBuf A → A × ℕ × TripleBuf A
  unfolding read_active
  read_copy tb = let (i, tb') = read_active tb in (tb'.buffers i, tb'.sequence, tb')
