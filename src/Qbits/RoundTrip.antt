-- ===== src/Qbits/RoundTrip.antt =====
-- A buffer of columns of quanta/src/pack.c, from the first bit to the last byte.
use mathlib.Core.Path.{subst}
use de_mo_d.Prelude.{ℕ, ◌+◌, ◌*◌, ◌≤◌, ◌<◌, ◌==◌, if◌then◌else◌}
use de_mo_d.Prelude.{
  List, [], ◌∷◌, ◌++◌, length, All, All-append, arith, Option, some, ◌≡◌, refl, sym, ap, ◌∙◌,
}
use de_mo_d.Qbits.{◌>>=◌, BitW, bw_init, bw_bytes, BitR, br_init, put_col, get_col}
use de_mo_d.Qbits.Writer.{position, IsWriter}
use de_mo_d.Qbits.Reader.{put_bits, Bits, put_bits-append, put_bits-WroteAll, WroteAll, Over, Stand}
use de_mo_d.Qbits.Columns.{IsWord, col_bits, col_bits-Bits, put_col-col_bits, get_col-col_bits}

-- Columns written one after the other.
unfoldable pub put_cols : BitW → List (List ℕ) → BitW
unfolding put_col
put_cols w [] = w
put_cols w (vs ∷ cols) = put_cols (put_col w vs) cols

-- Columns read one after the other, of the lengths given.
unfoldable pub get_cols : BitR → List ℕ → Option (List (List ℕ))
unfolding get_col
get_cols r [] = some []
get_cols r (n ∷ ns) = get_col r n >>= λ p. get_cols p.1 ns >>= λ cols. some (p.0 ∷ cols)

abbrev pub lengths : List (List ℕ) → List ℕ
lengths [] = []
lengths (vs ∷ cols) = length vs ∷ lengths cols

-- The buffer of the columns, as the reader is given it.
abbrev pub opened : BitW → BitR
opened w = br_init w.buf (bw_bytes w)

unfoldable all_bits : List (List ℕ) → List ℕ
unfolding col_bits
all_bits [] = []
all_bits (vs ∷ cols) = col_bits vs ++ all_bits cols

all_bits-Bits : (cols : List (List ℕ)) → Bits (all_bits cols)
unfolding all_bits
all_bits-Bits [] = tt
all_bits-Bits (vs ∷ cols) =
    All-append (λ b. b < 2) (col_bits vs) (all_bits cols) (col_bits-Bits vs) (all_bits-Bits cols)

put_cols-all_bits : (w : BitW) (cols : List (List ℕ)) → put_cols w cols ≡ put_bits w (all_bits cols)
unfolding put_cols all_bits
put_cols-all_bits w [] = unfold put_bits in refl
put_cols-all_bits w (vs ∷ cols) =
    ap (λ u. put_cols u cols) (put_col-col_bits w vs)
    ∙ put_cols-all_bits (put_bits w (col_bits vs)) cols
    ∙ sym (put_bits-append w (col_bits vs) (all_bits cols))

get_cols-all_bits :
    (cols : List (List ℕ)) (r : BitR)
    → All (All IsWord) cols
    → Over r (all_bits cols)
    → get_cols r (lengths cols) ≡ some cols
unfolding get_cols all_bits
get_cols-all_bits [] r h o = refl
get_cols-all_bits (vs ∷ cols) r (hv, hs) o =
    let first = get_col-col_bits vs r (all_bits cols) hv o in
    ap (λ o. o >>= λ p. get_cols p.1 (lengths cols) >>= λ cols. some (p.0 ∷ cols)) first.yields
    ∙ ap (λ o. o >>= λ cols. some (vs ∷ cols)) (get_cols-all_bits cols first.after hs first.left)

bw_init-IsWriter : (junk : ℕ → ℕ) → IsWriter (bw_init junk)
unfolding bw_init
bw_init-IsWriter junk = record {
  within = omega arith;
  high = 0;
  small = omega arith;
  open_byte = refl;
  room = omega arith;
}

-- The bits written from the start fill the bytes that the writer counts.
opened-Over :
    (w : BitW) (bs : List ℕ)
    → IsWriter w
    → position w ≡ length bs
    → Stand w.buf 0 bs
    → Over (opened w) bs
unfolding br_init bw_bytes
opened-Over w bs s e stand = record { within = omega arith; stand = stand; room = fits e s.within }
  where
    fits :
        position w ≡ length bs
        → w.bit < 8
        → 0 * 8 + 0 + length bs ≤ (w.byte + (if w.bit == 0 then 0 else 1)) * 8
    fits e h = ground arith

-- Any columns of 32-bit words, each written with the `k` that is best for it, are read back from the
-- writer's bytes: `get_col`, called once for each column with its length, yields all of them, whatever
-- `malloc` left in the buffer.
pub get_cols-put_cols :
    (junk : ℕ → ℕ) (cols : List (List ℕ))
    → All (All IsWord) cols
    → get_cols (opened (put_cols (bw_init junk) cols)) (lengths cols) ≡ some cols
get_cols-put_cols junk cols h =
    ap (λ w. get_cols (opened w) (lengths cols)) (put_cols-all_bits (bw_init junk) cols)
    ∙ get_cols-all_bits cols (opened (put_bits (bw_init junk) (all_bits cols))) h (
        opened-Over (put_bits (bw_init junk) (all_bits cols)) (all_bits cols) wrote.writer
          (wrote.next ∙ ap (λ p. p + length (all_bits cols)) start ∙ omega arith)
          (subst (λ p. Stand (put_bits (bw_init junk) (all_bits cols)).buf p (all_bits cols)) start
            wrote.stand))
  where
    wrote : WroteAll (bw_init junk) (all_bits cols) (put_bits (bw_init junk) (all_bits cols))
    wrote =
        put_bits-WroteAll (bw_init junk) (all_bits cols) (bw_init-IsWriter junk)
          (all_bits-Bits cols)

    start : position (bw_init junk) ≡ 0
    start = unfold bw_init in refl
