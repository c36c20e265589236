-- ===== src/Qbits/Tests.antt =====
-- Runs of the bit writer, the zig-zag map and the columns of quanta.
use de_mo_d.Qbits.ZigZag.{zz_dec-zz_enc}
use de_mo_d.Prelude.{ltb, if◌then◌else◌, ◌*◌, ◌-◌, ◌^◌, ℕ, ◌≡◌, refl, some, List, [], ◌∷◌, arith}
use de_mo_d.Qbits.{bw_init, zz_enc, zz_dec}
use de_mo_d.Qbits.RoundTrip.{put_cols, get_cols, lengths, opened, get_cols-put_cols}

-- `-1` is coded as 1, and read back.
minus_one : zz_enc 4294967295 ≡ 1
unfolding zz_enc
minus_one = refl

minus_one_back : zz_dec 1 ≡ 4294967295
unfolding zz_dec
minus_one_back = refl

-- Two columns; the last number takes the escape.
abbrev two_cols : List (List ℕ)
two_cols = (3 ∷ 0 ∷ 7 ∷ []) ∷ (0 ∷ 1 ∷ 100000000 ∷ []) ∷ []

get_cols-put_cols_example :
    get_cols (opened (put_cols (bw_init (λ i. 170)) two_cols)) (lengths two_cols) ≡ some two_cols
get_cols-put_cols_example =
    get_cols-put_cols (λ i. 170) two_cols
      (
        (omega arith, (omega arith, (omega arith, tt))),
        ((omega arith, (omega arith, (omega arith, tt))), tt),
      )

zz_dec-zz_enc_example :
    (zz_enc 4294967295
      ≡ (if ltb 4294967295 (2 ^ 31) then 2 * 4294967295 else 2 * (2 ^ 32 - 4294967295) - 1))
    × (zz_dec (zz_enc 4294967295) ≡ 4294967295)
zz_dec-zz_enc_example = zz_dec-zz_enc 4294967295 (omega arith)
