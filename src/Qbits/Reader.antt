-- ===== src/Qbits/Reader.antt =====
-- The reader of quanta/include/qbits.h on what the writer leaves, and the bits of numbers.
use mathlib.Core.Path.{subst}
use de_mo_d.Prelude.{ℕ, zero, suc, ◌+◌, ◌-◌, ◌*◌, ◌/◌, ◌%◌, ◌^◌, ◌≤◌, ◌<◌, ◌==◌, leb}
use de_mo_d.Prelude.{true, false, List, [], ◌∷◌, ◌++◌, length, All, arith, on_branches, ==→eq}
use de_mo_d.Prelude.{◌≡◌, refl, ap, ◌∙◌}
use de_mo_d.Qbits.{BitW, bw_put1, bw_putn, BitR, br_get1}
use de_mo_d.Qbits.Writer.{bit_at, position, IsWriter, bw_put1-Wrote}

unfoldable pub put_bits : BitW → List ℕ → BitW
unfolding bw_put1
put_bits w [] = w
put_bits w (b ∷ bs) = put_bits (bw_put1 w b) bs

abbrev pub Bits : List ℕ → Type 0
Bits = All (λ b. b < 2)

-- The bits `bs` stand from `p` on.
abbrev pub Stand : (ℕ → ℕ) → ℕ → List ℕ → Type 0
Stand buf p [] = Unit
Stand buf p (b ∷ bs) = (bit_at buf p ≡ b) × Stand buf (p + 1) bs

pub Stand-agree :
    (f g : ℕ → ℕ) (p : ℕ) (bs : List ℕ)
    → ((q : ℕ) → q < p + length bs → bit_at f q ≡ bit_at g q)
    → Stand g p bs
    → Stand f p bs
Stand-agree f g p [] h s = tt
Stand-agree f g p (b ∷ bs) h (e, s) =
    (h p (omega arith) ∙ e, Stand-agree f g (p + 1) bs (λ q l. h q (omega arith)) s)

pub record WroteAll (w : BitW) (bs : List ℕ) (w' : BitW) : Type 0 where
  pub writer : IsWriter w'
  pub next : position w' ≡ position w + length bs
  pub stand : Stand w'.buf (position w) bs
  pub before : (p : ℕ) → p < position w → bit_at w'.buf p ≡ bit_at w.buf p

pub put_bits-WroteAll :
    (w : BitW) (bs : List ℕ) → IsWriter w → Bits bs → WroteAll w bs (put_bits w bs)
unfolding put_bits
put_bits-WroteAll w [] s h = record {
  writer = s;
  next = omega arith;
  stand = tt;
  before = λ p l. refl;
}
put_bits-WroteAll w (b ∷ bs) s (hb, hs) =
    let first = bw_put1-Wrote w b s hb in
    let rest = put_bits-WroteAll (bw_put1 w b) bs first.writer hs in
    record {
      writer = rest.writer;
      next = omega (arith, first.next, rest.next);
      stand = (
        rest.before (position w) (omega (arith, first.next)) ∙ first.last,
        subst (λ p. Stand (put_bits (bw_put1 w b) bs).buf p bs) first.next rest.stand,
      );
      before = λ p l. rest.before p (omega (arith, first.next)) ∙ first.before p l;
    }

pub put_bits-append :
    (w : BitW) (xs ys : List ℕ) → put_bits w (xs ++ ys) ≡ put_bits (put_bits w xs) ys
unfolding put_bits
put_bits-append w [] ys = refl
put_bits-append w (x ∷ xs) ys = put_bits-append (bw_put1 w x) xs ys

-- The lowest `n` bits of `v`, the highest first.
unfoldable pub bits_of : ℕ → ℕ → List ℕ
bits_of v zero = []
bits_of v (suc i) = (v / 2 ^ i % 2) ∷ bits_of v i

pub bits_of-Bits : (v n : ℕ) → Bits (bits_of v n)
unfolding bits_of
bits_of-Bits v zero = tt
bits_of-Bits v (suc i) = (omega arith, bits_of-Bits v i)

pub bw_putn-bits_of : (w : BitW) (v n : ℕ) → bw_putn w v n ≡ put_bits w (bits_of v n)
unfolding bw_putn put_bits bits_of
bw_putn-bits_of w v zero = refl
bw_putn-bits_of w v (suc i) = bw_putn-bits_of (bw_put1 w (v / 2 ^ i % 2)) v i

-- The reader is in front of the bits `bs`, and they end before the buffer's end.
pub record Over (r : BitR) (bs : List ℕ) : Type 0 where
  pub within : r.bit < 8
  pub stand : Stand r.buf (r.byte * 8 + r.bit) bs
  pub room : r.byte * 8 + r.bit + length bs ≤ r.cap * 8

Got : ℕ → List ℕ → ℕ × BitR → Type 0
Got b bs r = (r.0 ≡ b) × Over r.1 bs

pub br_get1-Over :
    (r : BitR) (b : ℕ) (bs : List ℕ) → Over r (b ∷ bs) → ((br_get1 r).0 ≡ b) × Over (br_get1 r).1 bs
unfolding br_get1 Got
br_get1-Over r b bs o =
    on_branches (Got b bs) (leb r.cap r.byte) (λ out. absurd (outside out o.room o.within))
      (λ _.
        on_branches (Got b bs) (r.bit + 1 == 8)
          (λ full. (
            value o.within,
            record {
              within = omega arith;
              stand =
                  subst (λ p. Stand r.buf p bs) (omega (arith, ==→eq (r.bit + 1) 8 full)) o.stand.1;
              room = omega (arith, ==→eq (r.bit + 1) 8 full, o.room);
            },
          ))
          (λ more. (
            value o.within,
            record {
              within = below more o.within;
              stand = subst (λ p. Stand r.buf p bs) (omega arith) o.stand.1;
              room = omega (arith, o.room);
            },
          )))
  where
    outside :
        leb r.cap r.byte ≡ true → r.byte * 8 + r.bit + suc (length bs) ≤ r.cap * 8 → r.bit < 8 → ⊥
    outside out room k = ground arith

    below : (r.bit + 1 == 8) ≡ false → r.bit < 8 → r.bit + 1 < 8
    below more h = ground arith

    value : r.bit < 8 → r.buf r.byte / 2 ^ (7 - r.bit) % 2 ≡ b
    value k =
        ap (λ i. r.buf i / 2 ^ (7 - r.bit) % 2) {x = r.byte} {y = (r.byte * 8 + r.bit) / 8}
          (omega arith)
        ∙ ap (λ j. r.buf ((r.byte * 8 + r.bit) / 8) / 2 ^ (7 - j) % 2) {x = r.bit}
            {y = (r.byte * 8 + r.bit) % 8} (omega arith)
        ∙ unfold bit_at in o.stand.0
