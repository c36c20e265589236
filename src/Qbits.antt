-- ===== src/Qbits.antt =====
-- quanta/include/qbits.h: the bit writer and reader, the zig-zag map and the Rice code, with the columns
-- of quanta/src/pack.c. Bytes and 32-bit words are numbers, an `int32_t` its bit pattern. `malloc` and
-- `realloc` succeed, as the code assumes.
pub mod Writer
pub mod Reader
pub mod Rice
pub mod Columns
pub mod RoundTrip
pub mod ZigZag
mod Tests
use Prim.Native.Nat.{bit_or, bit_xor}
use de_mo_d.Prelude.{ℕ, zero, suc, ◌+◌, ◌-◌, ◌*◌, ◌/◌, ◌%◌, ◌^◌, ◌==◌, ltb, leb, if◌then◌else◌}
use de_mo_d.Prelude.{Bool, true, false, Option, none, some, List, [], ◌∷◌, add64}
use de_mo_d.Ring.{put}
use mathlib.Core.Option

-- `BitW`
pub record BitW : Type 0 where
  pub buf : ℕ → ℕ
  pub cap : ℕ
  pub byte : ℕ
  pub bit : ℕ

-- `bw_init`, with what `malloc` leaves in the buffer.
unfoldable pub bw_init : (ℕ → ℕ) → BitW
bw_init junk = record { buf = put junk 0 0; cap = 64; byte = 0; bit = 0 }

unfoldable pub bw_put1 : BitW → ℕ → BitW
bw_put1 w b =
    let cap : ℕ = if leb w.cap (w.byte + 1) then w.cap * 2 else w.cap in
    let buf : ℕ → ℕ =
      if b == 0 then w.buf else put w.buf w.byte (bit_or (w.buf w.byte) (128 / 2 ^ w.bit)) in
    if w.bit + 1 == 8
    then record { buf = put buf (w.byte + 1) 0; cap = cap; byte = w.byte + 1; bit = 0 }
    else record { buf = buf; cap = cap; byte = w.byte; bit = w.bit + 1 }

-- The lowest `n` bits, the highest of them first.
unfoldable pub bw_putn : BitW → ℕ → ℕ → BitW
unfolding bw_put1
bw_putn w v zero = w
bw_putn w v (suc i) = bw_putn (bw_put1 w (v / 2 ^ i % 2)) v i

unfoldable pub bw_bytes : BitW → ℕ
bw_bytes w = w.byte + (if w.bit == 0 then 0 else 1)

-- `BitR`
pub record BitR : Type 0 where
  pub buf : ℕ → ℕ
  pub cap : ℕ
  pub byte : ℕ
  pub bit : ℕ

unfoldable pub br_init : (ℕ → ℕ) → ℕ → BitR
br_init b n = record { buf = b; cap = n; byte = 0; bit = 0 }

unfoldable pub br_get1 : BitR → ℕ × BitR
br_get1 r =
    let b : ℕ = r.buf r.byte / 2 ^ (7 - r.bit) % 2 in
    if leb r.cap r.byte
    then (0, r)
    else if r.bit + 1 == 8
    then (b, record r { bit = 0; byte = r.byte + 1 })
    else (b, record r { bit = r.bit + 1 })

-- The loop of `br_getn` from the value `v`.
unfoldable pub getn_loop : ℕ → ℕ → BitR → ℕ × BitR
unfolding br_get1
getn_loop zero v r = (v, r)
getn_loop (suc n) v r = let (b, r') = br_get1 r in getn_loop n (bit_or (v * 2 % 2 ^ 32) b) r'

unfoldable pub br_getn : BitR → ℕ → ℕ × BitR
unfolding getn_loop
br_getn r n = getn_loop n 0 r

-- `v >> 31` is all ones for a negative `v`.
unfoldable pub zz_enc : ℕ → ℕ
zz_enc v = bit_xor (v * 2 % 2 ^ 32) (if ltb v (2 ^ 31) then 0 else 2 ^ 32 - 1)

unfoldable pub zz_dec : ℕ → ℕ
zz_dec u = bit_xor (u / 2) (if u % 2 == 0 then 0 else 2 ^ 32 - 1)

-- `n` times `bw_put1(w,1)`
unfoldable pub put_ones : ℕ → BitW → BitW
unfolding bw_put1
put_ones zero w = w
put_ones (suc n) w = put_ones n (bw_put1 w 1)

unfoldable pub rice_put : BitW → ℕ → ℕ → BitW
unfolding bw_put1 bw_putn put_ones
rice_put w v k =
    let q : ℕ = v / 2 ^ k in
    if ltb 47 q
    then bw_putn (bw_put1 (put_ones 48 w) 0) v 32
    else bw_putn (bw_put1 (put_ones q w) 0) (v % 2 ^ k) k

-- The escape of `rice_get`: a zero, and 32 bits.
unfoldable pub read_raw : BitR → ℕ × BitR
read_raw r = br_getn (br_get1 r).1 32

-- The loop of `rice_get`, with `none` for rounds that run out.
unfoldable pub rice_loop : ℕ → ℕ → BitR → ℕ → Option (ℕ × BitR)
rice_loop zero q r k = none
rice_loop (suc n) q r k =
    let (b, r1) = br_get1 r in
    let (low, r2) = br_getn r1 k in
    let rest = rice_loop n (q + 1) r1 k in
    if b == 0
    then some (bit_or (q * 2 ^ k % 2 ^ 32) low, r2)
    else if leb 48 (q + 1)
    then some (read_raw r1)
    else rest

-- `rice_get`; the loop ends with its 48th one at the latest.
unfoldable pub rice_get : BitR → ℕ → Option (ℕ × BitR)
rice_get r k = rice_loop 48 0 r k

-- The bits that a block takes for one `k`.
unfoldable pub block_bits : ℕ → List ℕ → ℕ
block_bits k [] = 0
block_bits k (v ∷ vs) =
    add64 (if ltb 47 (v / 2 ^ k) then 81 else v / 2 ^ k + 1 + k) (block_bits k vs)

-- The loop of `rice_best_k` over `n` values of `k`.
unfoldable pub best_loop : ℕ → ℕ → List ℕ → ℕ → ℕ → ℕ
unfolding block_bits
best_loop zero k vs best bk = bk
best_loop (suc n) k vs best bk =
    let bits : ℕ = block_bits k vs in
    if ltb bits best then best_loop n (k + 1) vs bits k else best_loop n (k + 1) vs best bk

unfoldable pub rice_best_k : List ℕ → ℕ
unfolding best_loop
rice_best_k vs = best_loop 25 0 vs (2 ^ 64 - 1) 0

unfoldable pub put_each : BitW → List ℕ → ℕ → BitW
unfolding rice_put
put_each w [] k = w
put_each w (v ∷ vs) k = put_each (rice_put w v k) vs k

unfoldable pub put_col : BitW → List ℕ → BitW
unfolding bw_putn rice_best_k put_each
put_col w vs = let k : ℕ = rice_best_k vs in put_each (bw_putn w k 5) vs k

infixl 40 ◌>>=◌
abbrev pub ◌>>=◌ : {A B : Type 0} → Option A → (A → Option B) → Option B
none >>= f = none
some a >>= f = f a

unfoldable pub get_each : ℕ → BitR → ℕ → Option (List ℕ × BitR)
get_each zero r k = some ([], r)
get_each (suc n) r k = do (v, r1) ← rice_get r k; (vs, r2) ← get_each n r1 k; some (v ∷ vs, r2)

unfoldable pub get_col : BitR → ℕ → Option (List ℕ × BitR)
get_col r n = let (k, r1) = br_getn r 5 in get_each n r1 k
