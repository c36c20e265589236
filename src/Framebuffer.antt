-- ===== src/Framebuffer.antt =====
-- The software rasterizer, src/core/framebuffer.c and include/demod/framebuffer.h: colours,
-- rectangles, the frame with its clip, and the operations that need no floating point. An `int` is an
-- integer, since its overflow is undefined. The memory of the pixels is a function of the index.
pub mod Lines
pub mod Blits
pub mod Floats
pub mod Rounded
pub mod Scaled
pub mod Triangles
pub mod Curves
pub mod Loops
pub mod Regions
pub mod Clipping
pub mod Sessions
pub mod Drawings
pub mod Clearing
pub mod Memory
pub mod Painted
pub mod Painting
mod Tests
use Prim.Native.Nat.{bit_and, bit_or}
use mathlib.Core.Option.{Option, none, some}
use de_mo_d.Prelude.{ℕ, zero, suc, ◌+◌, ◌-◌, ◌*◌, ◌/◌, ◌%◌, ◌^◌, ◌==◌, if◌then◌else◌}
use de_mo_d.Prelude.{Bool, true, false, not, ◌&&◌, ◌||◌}
use de_mo_d.Prelude.{ℤ, pos, pos_part, ◌+ℤ◌, ◌-ℤ◌, ◌*ℤ◌, ltb_ℤ, leb_ℤ, eqb_ℤ, tdiv}

-- `DmColor`
pub record DmColor : Type 0 where
  pub r : ℕ
  pub g : ℕ
  pub b : ℕ
  pub a : ℕ

unfoldable pub dm_color_pack : DmColor → ℕ
dm_color_pack c = bit_or (bit_or (bit_or (c.a * 2 ^ 24) (c.r * 2 ^ 16)) (c.g * 2 ^ 8)) c.b

unfoldable pub dm_color_unpack : ℕ → DmColor
dm_color_unpack p = record {
  r = bit_and (p / 2 ^ 16) 255;
  g = bit_and (p / 2 ^ 8) 255;
  b = bit_and p 255;
  a = bit_and (p / 2 ^ 24) 255;
}

-- The mean of two channels by the source's alpha.
abbrev pub mix : ℕ → ℕ → ℕ → ℕ
mix sa s d = (s * sa + d * (255 - sa)) / 255 % 256

unfoldable pub blend_pixel : ℕ → DmColor → ℕ
unfolding dm_color_pack dm_color_unpack
blend_pixel dst src =
    let d = dm_color_unpack dst in
    if src.a == 255
    then dm_color_pack src
    else if src.a == 0
    then dst
    else dm_color_pack (record {
      r = mix src.a src.r d.r;
      g = mix src.a src.g d.g;
      b = mix src.a src.b d.b;
      a = (src.a + d.a * (255 - src.a) / 255) % 256;
    })

-- `DmRect`
pub record DmRect : Type 0 where
  pub x : ℤ
  pub y : ℤ
  pub w : ℤ
  pub h : ℤ

unfoldable pub dm_rect_contains : DmRect → ℤ → ℤ → Bool
dm_rect_contains r px py =
    leb_ℤ r.x px && ltb_ℤ px (r.x +ℤ r.w) && leb_ℤ r.y py && ltb_ℤ py (r.y +ℤ r.h)

abbrev pub max_ℤ : ℤ → ℤ → ℤ
max_ℤ a b = if ltb_ℤ b a then a else b

abbrev pub min_ℤ : ℤ → ℤ → ℤ
min_ℤ a b = if ltb_ℤ a b then a else b

abbrev pub rect : ℤ → ℤ → ℤ → ℤ → DmRect
rect x y w h = record { x = x; y = y; w = w; h = h }

unfoldable pub dm_rect_intersect : DmRect → DmRect → DmRect
dm_rect_intersect a b =
    let x1 = max_ℤ a.x b.x in
    let y1 = max_ℤ a.y b.y in
    let x2 = min_ℤ (a.x +ℤ a.w) (b.x +ℤ b.w) in
    let y2 = min_ℤ (a.y +ℤ a.h) (b.y +ℤ b.h) in
    if leb_ℤ x2 x1 || leb_ℤ y2 y1
    then rect (pos 0) (pos 0) (pos 0) (pos 0)
    else rect x1 y1 (x2 -ℤ x1) (y2 -ℤ y1)

unfoldable pub dm_rect_inset : DmRect → ℤ → ℤ → DmRect
dm_rect_inset r dx dy = rect (r.x +ℤ dx) (r.y +ℤ dy) (r.w -ℤ pos 2 *ℤ dx) (r.h -ℤ pos 2 *ℤ dy)

-- `DmFramebuffer`; index 0 is the first pixel, and the other indices are the memory around.
pub record DmFramebuffer : Type 0 where
  pub pixels : ℤ → ℕ
  pub width : ℤ
  pub height : ℤ
  pub stride : ℤ
  pub clip : DmRect
  pub owns_buffer : Bool

-- The memory after `calloc` of `n` pixels.
unfoldable pub zeroed : ℤ → (ℤ → ℕ) → ℤ → ℕ
zeroed n memory i = if leb_ℤ (pos 0) i && ltb_ℤ i n then 0 else memory i

abbrev pub frame_of : (ℤ → ℕ) → ℤ → ℤ → ℤ → Bool → DmFramebuffer
frame_of pixels w h stride owned = record {
  pixels = pixels;
  width = w;
  height = h;
  stride = stride;
  clip = rect (pos 0) (pos 0) w h;
  owns_buffer = owned;
}

-- `dm_fb_create`, with what the two calls of `calloc` do; `none` is a null pointer.
unfoldable pub dm_fb_create : Bool → Bool → (ℤ → ℕ) → ℤ → ℤ → Option DmFramebuffer
unfolding zeroed
dm_fb_create fine fine' memory w h =
    if fine && fine' then some (frame_of (zeroed (w *ℤ h) memory) w h w true) else none

unfoldable pub dm_fb_wrap : Bool → (ℤ → ℕ) → ℤ → ℤ → ℤ → Option DmFramebuffer
dm_fb_wrap fine pixels w h stride = if fine then some (frame_of pixels w h stride false) else none

unfoldable pub dm_fb_resize : Bool → (ℤ → ℕ) → DmFramebuffer → ℤ → ℤ → DmFramebuffer
unfolding zeroed
dm_fb_resize fine memory fb w h =
    if not fb.owns_buffer
    then fb
    else if not fine
    then fb
    else frame_of (zeroed (w *ℤ h) memory) w h w true

unfoldable pub dm_fb_clip_push : DmFramebuffer → DmRect → DmFramebuffer
unfolding dm_rect_intersect
dm_fb_clip_push fb clip = record fb { clip = dm_rect_intersect fb.clip clip }

unfoldable pub dm_fb_clip_reset : DmFramebuffer → DmFramebuffer
dm_fb_clip_reset fb = record fb { clip = rect (pos 0) (pos 0) fb.width fb.height }

-- `f[i] = v`
abbrev pub store : (ℤ → ℕ) → ℤ → ℕ → ℤ → ℕ
store f i v j = if eqb_ℤ j i then v else f j

-- `n` rounds of a loop that counts up from `i`.
unfoldable pub rounds_up {ℓ} : {S : Type ℓ} → ℕ → ℤ → (ℤ → S → S) → S → S
rounds_up zero i f s = s
rounds_up (suc n) i f s = rounds_up n (i +ℤ pos 1) f (f i s)

-- `for (i = lo; i < hi; i++)`
abbrev pub for_below {ℓ} : {S : Type ℓ} → ℤ → ℤ → (ℤ → S → S) → S → S
for_below lo hi f s = rounds_up (pos_part (hi -ℤ lo)) lo f s

-- `for (i = lo; i <= hi; i++)`
abbrev pub for_to {ℓ} : {S : Type ℓ} → ℤ → ℤ → (ℤ → S → S) → S → S
for_to lo hi f s = for_below lo (hi +ℤ pos 1) f s

-- `fb->pixels[y * fb->stride + x]`
abbrev pub index : DmFramebuffer → ℤ → ℤ → ℤ
index fb x y = y *ℤ fb.stride +ℤ x

unfoldable pub pixel : DmFramebuffer → ℤ → ℤ → ℕ
pixel fb x y = fb.pixels (index fb x y)

unfoldable pub set_pixel : DmFramebuffer → ℤ → ℤ → ℕ → DmFramebuffer
set_pixel fb x y v = record fb { pixels = store fb.pixels (index fb x y) v }

-- A pixel blended over itself.
unfoldable pub blend_at : DmColor → ℤ → ℤ → DmFramebuffer → DmFramebuffer
unfolding pixel set_pixel blend_pixel
blend_at c x y fb = set_pixel fb x y (blend_pixel (pixel fb x y) c)

-- The first `width * height` pixels of the memory, by `memset` where every byte is 0.
unfoldable pub dm_fb_clear : DmFramebuffer → DmColor → DmFramebuffer
unfolding dm_color_pack zeroed
dm_fb_clear fb c =
    let packed = dm_color_pack c in
    let total = fb.width *ℤ fb.height in
    let set : ℤ → DmFramebuffer → DmFramebuffer =
      λ i fb. record fb { pixels = store fb.pixels i packed } in
    if packed == 0
    then record fb { pixels = zeroed total fb.pixels }
    else for_below (pos 0) total set fb

unfoldable pub dm_fb_put_pixel : DmFramebuffer → ℤ → ℤ → DmColor → DmFramebuffer
unfolding dm_rect_contains blend_at
dm_fb_put_pixel fb x y c = if dm_rect_contains fb.clip x y then blend_at c x y fb else fb

-- A run of pixels of a row, set or blended.
unfoldable pub row_run : DmColor → ℤ → ℤ → ℤ → DmFramebuffer → DmFramebuffer
unfolding dm_color_pack set_pixel blend_at rounds_up
row_run c x1 x2 y fb =
    if c.a == 255
    then for_to x1 x2 (λ x fb. set_pixel fb x y (dm_color_pack c)) fb
    else for_to x1 x2 (λ x. blend_at c x y) fb

-- The part of `dm_fb_hline` for `x1 <= x2`.
unfoldable pub hline_sorted : DmFramebuffer → ℤ → ℤ → ℤ → DmColor → DmFramebuffer
unfolding row_run
hline_sorted fb x1 x2 y c =
    let right = fb.clip.x +ℤ fb.clip.w in
    let lo = if ltb_ℤ x1 fb.clip.x then fb.clip.x else x1 in
    let hi = if leb_ℤ right x2 then right -ℤ pos 1 else x2 in
    if ltb_ℤ hi lo then fb else row_run c lo hi y fb

unfoldable pub dm_fb_hline : DmFramebuffer → ℤ → ℤ → ℤ → DmColor → DmFramebuffer
unfolding hline_sorted
dm_fb_hline fb x1 x2 y c =
    if ltb_ℤ y fb.clip.y || leb_ℤ (fb.clip.y +ℤ fb.clip.h) y
    then fb
    else if ltb_ℤ x2 x1
    then hline_sorted fb x2 x1 y c
    else hline_sorted fb x1 x2 y c

-- A run of pixels of a column, set or blended.
unfoldable pub column_run : DmColor → ℤ → ℤ → ℤ → DmFramebuffer → DmFramebuffer
unfolding dm_color_pack set_pixel blend_at rounds_up
column_run c x y1 y2 fb =
    if c.a == 255
    then for_to y1 y2 (λ y fb. set_pixel fb x y (dm_color_pack c)) fb
    else for_to y1 y2 (λ y. blend_at c x y) fb

-- The part of `dm_fb_vline` for `y1 <= y2`.
unfoldable pub vline_sorted : DmFramebuffer → ℤ → ℤ → ℤ → DmColor → DmFramebuffer
unfolding column_run
vline_sorted fb x y1 y2 c =
    let bottom = fb.clip.y +ℤ fb.clip.h in
    let lo = if ltb_ℤ y1 fb.clip.y then fb.clip.y else y1 in
    let hi = if leb_ℤ bottom y2 then bottom -ℤ pos 1 else y2 in
    if ltb_ℤ hi lo then fb else column_run c x lo hi fb

unfoldable pub dm_fb_vline : DmFramebuffer → ℤ → ℤ → ℤ → DmColor → DmFramebuffer
unfolding vline_sorted
dm_fb_vline fb x y1 y2 c =
    if ltb_ℤ x fb.clip.x || leb_ℤ (fb.clip.x +ℤ fb.clip.w) x
    then fb
    else if ltb_ℤ y2 y1
    then vline_sorted fb x y2 y1 c
    else vline_sorted fb x y1 y2 c

unfoldable pub dm_fb_fill_rect : DmFramebuffer → DmRect → DmColor → DmFramebuffer
unfolding dm_rect_intersect dm_fb_hline rounds_up
dm_fb_fill_rect fb r c =
    let clipped = dm_rect_intersect r fb.clip in
    if leb_ℤ clipped.w (pos 0) || leb_ℤ clipped.h (pos 0)
    then fb
    else for_below clipped.y (clipped.y +ℤ clipped.h)
        (λ y fb. dm_fb_hline fb clipped.x (clipped.x +ℤ clipped.w -ℤ pos 1) y c) fb

-- A round of `dm_fb_stroke_rect`.
unfoldable pub stroke_ring : DmRect → DmColor → ℤ → DmFramebuffer → DmFramebuffer
unfolding dm_fb_hline dm_fb_vline
stroke_ring r c i fb =
    let right = r.x +ℤ r.w -ℤ pos 1 in
    let bottom = r.y +ℤ r.h -ℤ pos 1 in
    let fb1 = dm_fb_hline fb r.x right (r.y +ℤ i) c in
    let fb2 = dm_fb_hline fb1 r.x right (bottom -ℤ i) c in
    let fb3 = dm_fb_vline fb2 (r.x +ℤ i) r.y bottom c in dm_fb_vline fb3 (right -ℤ i) r.y bottom c

unfoldable pub dm_fb_stroke_rect : DmFramebuffer → DmRect → DmColor → ℤ → DmFramebuffer
unfolding stroke_ring rounds_up
dm_fb_stroke_rect fb r c t = for_below (pos 0) t (stroke_ring r c) fb
