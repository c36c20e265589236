-- ===== src/Ipc/TripleBuf/Fields.antt =====
-- The fields of the state word of audio-stack/ipc/include/demod_triple_buf.h.
use de_mo_d.Prelude.{
  every, every_sound, ℕ, ◌<◌, ◌==◌, arith, Bool, true, false, not, ◌&&◌, ◌≡◌, refl,
}
use de_mo_d.Ipc.TripleBuf.{tb_pack, tb_w, tb_m, tb_r, tb_dirty}

same : Bool → Bool → Bool
same true b = b
same false b = not b

abbrev reads_back : Bool → ℕ → ℕ → ℕ → Bool
reads_back d w m r =
    (tb_w (tb_pack w m r d) == w)
    && (tb_m (tb_pack w m r d) == m)
    && (tb_r (tb_pack w m r d) == r)
    && same d (tb_dirty (tb_pack w m r d))

table : (d : Bool) → every 4 (λ w. every 4 (λ m. every 4 (λ r. reads_back d w m r))) ≡ true
unfolding every same tb_pack tb_w tb_m tb_r tb_dirty
table true = refl
table false = refl

-- Packing and reading the fields are inverse, for fields of two bits.
pub fields_lem :
    (w m r : ℕ) (d : Bool)
    → w < 4
    → m < 4
    → r < 4
    → (tb_w (tb_pack w m r d) ≡ w)
      × (tb_m (tb_pack w m r d) ≡ m)
      × (tb_r (tb_pack w m r d) ≡ r)
      × (tb_dirty (tb_pack w m r d) ≡ d)
unfolding same
fields_lem w m r d hw hm hr =
    let row =
      every_sound 4 (λ w. every 4 (λ m. every 4 (λ r. reads_back d w m r))) w (table d) hw in
    let column = every_sound 4 (λ m. every 4 (λ r. reads_back d w m r)) m row hm in
    let cell = every_sound 4 (λ r. reads_back d w m r) r column hr in ground (arith, cell)
