-- ===== src/Font/Text.antt =====
-- Whole texts: the loops of `dm_utf8_len` and `dm_font_text_width_n` (src/core/font.c).
use de_mo_d.Prelude.{ℕ, zero, suc, ◌+◌, ◌<◌, ◌==◌, if◌then◌else◌}
use de_mo_d.Prelude.{none, some, List, [], ◌∷◌, ◌++◌}
use de_mo_d.Prelude.{length, length-append, drop, All, if_false, arith, ne→==}
use de_mo_d.Prelude.{◌≡◌, refl, ap, ◌∙◌}
use de_mo_d.Font.{
  dm_utf8_decode, len_loop, dm_utf8_len, Ext, FontHost, DmFont, dm_font_cp_advance, width_loop,
  dm_font_text_width_n,
}
use de_mo_d.Font.Utf8.{encode, IsScalar, dm_utf8_decode-encode}

unfoldable pub encode_all : List ℕ → List ℕ
unfolding encode
encode_all [] = []
encode_all (c ∷ cs) = encode c ++ encode_all cs

-- The sum of the advances of code points, from `w`.
unfoldable pub advances : FontHost → DmFont → Ext → List ℕ → ℕ → ℕ × Ext
unfolding dm_font_cp_advance
advances host f g [] w = (w, g)
advances host f g (c ∷ cs) w =
    let (a, g') = dm_font_cp_advance host f g c in advances host f g' cs (w + a)

encode_nonempty : (c : ℕ) → 0 < length (encode c)
unfolding encode
encode_nonempty c = ground arith

drop-append : (xs ys : List ℕ) → drop (length xs) (xs ++ ys) ≡ ys
drop-append [] ys = refl
drop-append (x ∷ xs) ys = drop-append xs ys

-- A round whose decoder consumes something.
len_loop-step :
    (k n c : ℕ) (e rest : List ℕ)
    → 0 < length e
    → dm_utf8_decode (e ++ rest) ≡ (c, length e)
    → len_loop (suc k) (e ++ rest) n ≡ len_loop k rest (n + 1)
unfolding len_loop
len_loop-step k n c e rest pos d =
    ap (λ r. if r.1 == 0 then some n else len_loop k (drop r.1 (e ++ rest)) (n + 1)) d
    ∙ if_false {b = length e == 0} _ _ (ne→== _ _ (omega arith))
    ∙ ap (λ t. len_loop k t (n + 1)) (drop-append e rest)

len_loop-encode_all :
    (k n : ℕ) (cs : List ℕ)
    → All IsScalar cs
    → length (encode_all cs) < k
    → len_loop k (encode_all cs) n ≡ some (n + length cs)
unfolding encode_all
len_loop-encode_all zero n cs h room = absurd (omega arith)
len_loop-encode_all (suc k) n [] h room = unfold len_loop dm_utf8_decode in ap some (omega arith)
len_loop-encode_all (suc k) n (c ∷ cs) (hc, hs) room =
    len_loop-step k n c (encode c) (encode_all cs) (encode_nonempty c)
      (dm_utf8_decode-encode c (encode_all cs) hc)
    ∙ len_loop-encode_all k (n + 1) cs hs
        (omega (arith, length-append (encode c) (encode_all cs), encode_nonempty c))
    ∙ ap some (omega arith)

width_loop-step :
    (k : ℕ) (host : FontHost) (f : DmFont) (g : Ext) (pos w c : ℕ) (e rest : List ℕ)
    → 0 < length e
    → dm_utf8_decode (e ++ rest) ≡ (c, length e)
    → width_loop (suc k) host f none g (e ++ rest) pos w
      ≡ width_loop k host f none
          (dm_font_cp_advance host f g c).1
          rest
          (pos + length e)
          (w + (dm_font_cp_advance host f g c).0)
unfolding width_loop
width_loop-step k host f g pos w c e rest ne d =
    ap
      (λ r.
        if r.1 == 0
        then some (w, g)
        else width_loop k host f none (dm_font_cp_advance host f g r.0).1 (drop r.1 (e ++ rest))
            (pos + r.1) (w + (dm_font_cp_advance host f g r.0).0))
      d
    ∙ if_false {b = length e == 0} _ _ (ne→== _ _ (omega arith))
    ∙ ap
        (λ t.
          width_loop k host f none (dm_font_cp_advance host f g c).1 t (pos + length e)
            (w + (dm_font_cp_advance host f g c).0))
        (drop-append e rest)

width_loop-encode_all :
    (k : ℕ) (host : FontHost) (f : DmFont) (g : Ext) (pos w : ℕ) (cs : List ℕ)
    → All IsScalar cs
    → length (encode_all cs) < k
    → width_loop k host f none g (encode_all cs) pos w ≡ some (advances host f g cs w)
unfolding encode_all advances
width_loop-encode_all zero host f g pos w cs h room = absurd (omega arith)
width_loop-encode_all (suc k) host f g pos w [] h room = unfold width_loop dm_utf8_decode in refl
width_loop-encode_all (suc k) host f g pos w (c ∷ cs) (hc, hs) room =
    width_loop-step k host f g pos w c (encode c) (encode_all cs) (encode_nonempty c)
      (dm_utf8_decode-encode c (encode_all cs) hc)
    ∙ width_loop-encode_all k host f (dm_font_cp_advance host f g c).1 (pos + length (encode c))
        (w + (dm_font_cp_advance host f g c).0) cs hs
        (omega (arith, length-append (encode c) (encode_all cs), encode_nonempty c))

-- A text of any code points is counted and measured by its code points: the length is their number,
-- and the width, without a limit on the bytes, the sum of their advances from the first to the last.
pub text_measures :
    (host : FontHost) (f : DmFont) (g : Ext) (cs : List ℕ)
    → All IsScalar cs
    → (dm_utf8_len (encode_all cs) ≡ some (length cs))
      × (dm_font_text_width_n host f none g (encode_all cs) ≡ some (advances host f g cs 0))
unfolding dm_utf8_len dm_font_text_width_n
text_measures host f g cs h = (
  len_loop-encode_all (suc (length (encode_all cs))) 0 cs h (omega arith) ∙ ap some (omega arith),
  width_loop-encode_all (suc (length (encode_all cs))) host f g 0 0 cs h (omega arith),
)
