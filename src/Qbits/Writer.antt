-- ===== src/Qbits/Writer.antt =====
-- What the writer of quanta/include/qbits.h leaves in its buffer.
use Prim.Native.Nat.{bit_or}
use mathlib.Core.Path.{subst}
use native.Mathlib.Nat.{two-pow-succ}
use de_mo_d.Prelude.{ℕ, zero, suc, ◌+◌, ◌-◌, ◌*◌, ◌/◌, ◌%◌, ◌^◌, ◌≤◌, ◌<◌, ◌==◌, leb, if◌then◌else◌}
use de_mo_d.Prelude.{
  Bool, true, false, ◌&&◌, arith, every, every_sound, on_branches, &&-both, ==→eq,
}
use de_mo_d.Prelude.{◌≡◌, refl, sym, ap, ◌∙◌, ◌⊎◌, inl, inr}
use de_mo_d.Ring.{put}
use de_mo_d.Qbits.{BitW, bw_put1}

-- Bit `p` of a buffer, the highest of a byte first.
unfoldable pub bit_at : (ℕ → ℕ) → ℕ → ℕ
bit_at buf p = buf (p / 8) / 2 ^ (7 - p % 8) % 2

abbrev pub position : BitW → ℕ
position w = w.byte * 8 + w.bit

-- The bits of the open byte from the next one on are zero, and the byte is in the buffer.
pub record IsWriter (w : BitW) : Type 0 where
  pub within : w.bit < 8
  pub high : ℕ
  pub small : high < 2 ^ w.bit
  pub open_byte : w.buf w.byte ≡ high * 2 ^ (8 - w.bit)
  pub room : w.byte < w.cap

-- Bit `j` of an open byte with the bits `h`, before and after a one is added.
abbrev keeps : ℕ → ℕ → ℕ → Bool
keeps k h j = (h * 2 + 1) * 2 ^ (7 - k) / 2 ^ (7 - j) % 2 == h * 2 ^ (8 - k) / 2 ^ (7 - j) % 2

-- What `|=` does to such a byte, and what a zero leaves.
abbrev ors : ℕ → ℕ → Bool
ors k h = bit_or (h * 2 ^ (8 - k)) (128 / 2 ^ k) == (h * 2 + 1) * 2 ^ (7 - k)

abbrev stays : ℕ → ℕ → Bool
stays k h = h * 2 ^ (8 - k) == h * 2 * 2 ^ (7 - k)

abbrev one : ℕ → ℕ → Bool
one k h = (h * 2 + 1) * 2 ^ (7 - k) / 2 ^ (7 - k) % 2 == 1

abbrev nought : ℕ → ℕ → Bool
nought k h = h * 2 * 2 ^ (7 - k) / 2 ^ (7 - k) % 2 == 0

abbrev step : ℕ → ℕ → Bool
step k h = ors k h && (stays k h && (one k h && (nought k h && every k (keeps k h))))

all_steps : every 8 (λ k. every (2 ^ k) (step k)) ≡ true
unfolding every
all_steps = refl

record Step (k h : ℕ) : Type 0 where
  ors_lem : bit_or (h * 2 ^ (8 - k)) (128 / 2 ^ k) ≡ (h * 2 + 1) * 2 ^ (7 - k)
  stays_lem : h * 2 ^ (8 - k) ≡ h * 2 * 2 ^ (7 - k)
  one_lem : (h * 2 + 1) * 2 ^ (7 - k) / 2 ^ (7 - k) % 2 ≡ 1
  nought_lem : h * 2 * 2 ^ (7 - k) / 2 ^ (7 - k) % 2 ≡ 0
  keeps_lem :
      (j : ℕ)
      → j < k
      → (h * 2 + 1) * 2 ^ (7 - k) / 2 ^ (7 - j) % 2 ≡ h * 2 ^ (8 - k) / 2 ^ (7 - j) % 2

each_lem : (k h : ℕ) → k < 8 → h < 2 ^ k → Step k h
each_lem k h lk lh =
    let s =
      every_sound (2 ^ k) (step k) h (every_sound 8 (λ k. every (2 ^ k) (step k)) k all_steps lk)
        lh in
    let (s1, t1) =
      &&-both (ors k h) (stays k h && (one k h && (nought k h && every k (keeps k h)))) s in
    let (s2, t2) = &&-both (stays k h) (one k h && (nought k h && every k (keeps k h))) t1 in
    let (s3, t3) = &&-both (one k h) (nought k h && every k (keeps k h)) t2 in
    let (s4, s5) = &&-both (nought k h) (every k (keeps k h)) t3 in
    record {
      ors_lem = ==→eq _ _ s1;
      stays_lem = ==→eq _ _ s2;
      one_lem = ==→eq _ _ s3;
      nought_lem = ==→eq _ _ s4;
      keeps_lem = λ j lj. ==→eq _ _ (every_sound k (keeps k h) j s5 lj);
    }

-- The buffer that `bw_put1` leaves, before the next byte is cleared.
abbrev written_buf : BitW → ℕ → ℕ → ℕ
written_buf w b =
    if b == 0 then w.buf else put w.buf w.byte (bit_or (w.buf w.byte) (128 / 2 ^ w.bit))

-- What a new bit does to the open byte: `h` are the bits with it.
record Added (w : BitW) (b : ℕ) : Type 0 where
  h : ℕ
  small : h < 2 ^ suc w.bit
  byte_lem : written_buf w b w.byte ≡ h * 2 ^ (7 - w.bit)
  last : h * 2 ^ (7 - w.bit) / 2 ^ (7 - w.bit) % 2 ≡ b
  before :
      (j : ℕ) → j < w.bit → h * 2 ^ (7 - w.bit) / 2 ^ (7 - j) % 2 ≡ w.buf w.byte / 2 ^ (7 - j) % 2
  others : (i : ℕ) → i < w.byte → written_buf w b i ≡ w.buf i

put_there : (f : ℕ → ℕ) (i x : ℕ) → put f i x i ≡ x
put_there f i x = ground arith

put_else : (f : ℕ → ℕ) (i x j : ℕ) → j < i → put f i x j ≡ f j
put_else f i x j h = ground arith

byte_after : (w : BitW) (b : ℕ) → IsWriter w → b < 2 → Added w b
byte_after w zero s hb =
    let st = each_lem w.bit s.high s.within s.small in
    record {
      h = s.high * 2;
      small = omega (arith, two-pow-succ w.bit, s.small);
      byte_lem = s.open_byte ∙ st.stays_lem;
      last = st.nought_lem;
      before = λ j lj. ap (λ x. x / 2 ^ (7 - j) % 2) (sym (s.open_byte ∙ st.stays_lem));
      others = λ i li. refl;
    }
byte_after w (suc zero) s hb =
    let st = each_lem w.bit s.high s.within s.small in
    record {
      h = s.high * 2 + 1;
      small = omega (arith, two-pow-succ w.bit, s.small);
      byte_lem =
          put_there w.buf w.byte _ ∙ ap (λ x. bit_or x (128 / 2 ^ w.bit)) s.open_byte ∙ st.ors_lem;
      last = st.one_lem;
      before = λ j lj. st.keeps_lem j lj ∙ ap (λ x. x / 2 ^ (7 - j) % 2) (sym s.open_byte);
      others = λ i li. put_else w.buf w.byte _ i li;
    }
byte_after w (suc (suc b)) s hb = absurd (omega arith)

-- `bw_put1` from `w` to `w'`: a bit at the end, and the bits before it as they were.
pub record Wrote (w : BitW) (b : ℕ) (w' : BitW) : Type 0 where
  pub writer : IsWriter w'
  pub next : position w' ≡ position w + 1
  pub last : bit_at w'.buf (position w) ≡ b
  pub before : (p : ℕ) → p < position w → bit_at w'.buf p ≡ bit_at w.buf p

-- The bits of a buffer that agrees with the written one up to the open byte.
module _ (w : BitW) (b : ℕ) (s : IsWriter w) (a : Added w b) (f : ℕ → ℕ)
    (agrees : (i : ℕ) → i ≤ w.byte → f i ≡ written_buf w b i) where
  last_bit : bit_at f (position w) ≡ b
  unfolding bit_at
  last_bit =
      ap (λ i. f i / 2 ^ (7 - position w % 8) % 2) {x = position w / 8} {y = w.byte}
        (omega (arith, s.within))
      ∙ ap (λ k. f w.byte / 2 ^ (7 - k) % 2) {x = position w % 8} {y = w.bit}
          (omega (arith, s.within))
      ∙ ap (λ x. x / 2 ^ (7 - w.bit) % 2) (agrees w.byte (omega arith) ∙ a.byte_lem)
      ∙ a.last

  same_byte : (p : ℕ) → p / 8 ≡ w.byte → p % 8 < w.bit → bit_at f p ≡ bit_at w.buf p
  unfolding bit_at
  same_byte p e l =
      ap (λ i. f i / 2 ^ (7 - p % 8) % 2) e
      ∙ ap (λ x. x / 2 ^ (7 - p % 8) % 2) (agrees w.byte (omega arith) ∙ a.byte_lem)
      ∙ a.before (p % 8) l
      ∙ ap (λ i. w.buf i / 2 ^ (7 - p % 8) % 2) (sym e)

  lower_byte : (p : ℕ) → p / 8 < w.byte → bit_at f p ≡ bit_at w.buf p
  unfolding bit_at
  lower_byte p l =
      ap (λ x. x / 2 ^ (7 - p % 8) % 2) (agrees (p / 8) (omega arith) ∙ a.others (p / 8) l)

  bits_before : (p : ℕ) → p < position w → bit_at f p ≡ bit_at w.buf p
  bits_before p l = elim (place p l s.within) [
    | inl lower ↦ lower_byte p lower
    | inr (e, l') ↦ same_byte p e l'
  ]
    where
      place :
          (p : ℕ)
          → p < position w
          → w.bit < 8
          → (p / 8 < w.byte) ⊎ ((p / 8 ≡ w.byte) × (p % 8 < w.bit))
      place p l k = ground arith

pub bw_put1-Wrote : (w : BitW) (b : ℕ) → IsWriter w → b < 2 → Wrote w b (bw_put1 w b)
unfolding bw_put1
bw_put1-Wrote w b s hb =
    let a = byte_after w b s hb in
    on_branches (Wrote w b) (w.bit + 1 == 8)
      (λ full. record {
        writer = record {
          within = omega arith;
          high = 0;
          small = omega arith;
          open_byte = put_there (written_buf w b) (w.byte + 1) 0 ∙ omega arith;
          room = grown s.room;
        };
        next = omega (arith, ==→eq (w.bit + 1) 8 full);
        last =
            last_bit w b s a (put (written_buf w b) (w.byte + 1) 0)
              (λ i li. put_else (written_buf w b) (w.byte + 1) 0 i (omega arith));
        before =
            bits_before w b s a (put (written_buf w b) (w.byte + 1) 0)
              (λ i li. put_else (written_buf w b) (w.byte + 1) 0 i (omega arith));
      })
      (λ more. record {
        writer = record {
          within = below more s.within;
          high = a.h;
          small = subst (λ k. a.h < 2 ^ k) {x = suc w.bit} {y = w.bit + 1} (omega arith) a.small;
          open_byte =
              a.byte_lem
              ∙ ap (λ k. a.h * 2 ^ k) {x = 7 - w.bit} {y = 8 - (w.bit + 1)} (omega arith);
          room = omega (arith, grown s.room);
        };
        next = omega arith;
        last = last_bit w b s a (written_buf w b) (λ i li. refl);
        before = bits_before w b s a (written_buf w b) (λ i li. refl);
      })
  where
    grown : w.byte < w.cap → w.byte + 1 < (if leb w.cap (w.byte + 1) then w.cap * 2 else w.cap)
    grown room = ground arith

    below : (w.bit + 1 == 8) ≡ false → w.bit < 8 → w.bit + 1 < 8
    below more h = ground arith
