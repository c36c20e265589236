-- ===== src/Font.antt =====
-- src/core/font.c: the UTF-8 decoder, the blob of extended glyphs and the measurement and drawing of texts. A
-- string is the list of its bytes up to the terminating zero, which stands for all that follows; an
-- `int` that counts bytes or pixels is a number.
pub mod Utf8
pub mod Text
pub mod Forms
pub mod Strict
pub mod Blob
pub mod Drawing
pub mod Pictures
pub mod Pen
mod Tests
use Prim.Native.Nat.{bit_and, bit_or}
use de_mo_d.Prelude.{ℕ, zero, suc, ◌+◌, ◌-◌, ◌*◌, ◌/◌, ◌%◌, ◌^◌, ◌==◌, ltb, leb, if◌then◌else◌}
use de_mo_d.Prelude.{Bool, true, false, not, ◌&&◌, ◌||◌, Option, none, some, List, [], ◌∷◌, ◌++◌}
use de_mo_d.Prelude.{length, get_or, take, drop}

-- `b[i]`
abbrev pub byte_at : List ℕ → ℕ → ℕ
byte_at s i = get_or s i 0

-- What an invalid byte yields: U+FFFD, and one byte is consumed.
abbrev pub invalid : ℕ × ℕ
invalid = (65533, 1)

-- `(b & 0xC0) == 0x80`
unfoldable pub is_tail : ℕ → Bool
is_tail b = bit_and b 192 == 128

unfoldable pub decode_two : ℕ → ℕ → ℕ × ℕ
decode_two b0 b1 =
    let c : ℕ = bit_or (bit_and b0 31 * 2 ^ 6) (bit_and b1 63) in
    if leb 128 c then (c, 2) else invalid

unfoldable pub decode_three : ℕ → ℕ → ℕ → ℕ × ℕ
decode_three b0 b1 b2 =
    let c : ℕ = bit_or (bit_or (bit_and b0 15 * 2 ^ 12) (bit_and b1 63 * 2 ^ 6)) (bit_and b2 63) in
    if leb 2048 c && (ltb c 55296 || ltb 57343 c) then (c, 3) else invalid

unfoldable pub decode_four : ℕ → ℕ → ℕ → ℕ → ℕ × ℕ
decode_four b0 b1 b2 b3 =
    let c : ℕ =
      bit_or
        (bit_or (bit_or (bit_and b0 7 * 2 ^ 18) (bit_and b1 63 * 2 ^ 12)) (bit_and b2 63 * 2 ^ 6))
        (bit_and b3 63) in
    if leb 65536 c && leb c 1114111 then (c, 4) else invalid

-- `dm_utf8_decode`: the code point and the bytes consumed.
unfoldable pub dm_utf8_decode : List ℕ → ℕ × ℕ
unfolding is_tail decode_two decode_three decode_four
dm_utf8_decode s =
    let b0 : ℕ = byte_at s 0 in
    let b1 : ℕ = byte_at s 1 in
    let b2 : ℕ = byte_at s 2 in
    let b3 : ℕ = byte_at s 3 in
    if ltb b0 128
    then (b0, if b0 == 0 then 0 else 1)
    else if bit_and b0 224 == 192 && is_tail b1
    then decode_two b0 b1
    else if bit_and b0 240 == 224 && is_tail b1 && is_tail b2
    then decode_three b0 b1 b2
    else if bit_and b0 248 == 240 && is_tail b1 && is_tail b2 && is_tail b3
    then decode_four b0 b1 b2 b3
    else invalid

-- The loop of `dm_utf8_len`, with `none` for rounds that run out.
unfoldable pub len_loop : ℕ → List ℕ → ℕ → Option ℕ
unfolding dm_utf8_decode
len_loop zero s n = none
len_loop (suc k) s n =
    let adv : ℕ = (dm_utf8_decode s).1 in
    let rest = len_loop k (drop adv s) (n + 1) in if adv == 0 then some n else rest

-- `dm_utf8_len`; a round consumes a byte, and the last one sees the zero.
unfoldable pub dm_utf8_len : List ℕ → Option ℕ
unfolding len_loop
dm_utf8_len s = len_loop (suc (length s)) s 0

-- `state` of `g_ext`: 0, 1 and -1.
pub data BlobState : Type 0 where
  untried : BlobState
  loaded : BlobState
  unavailable : BlobState

-- `g_ext`; `size` is the length of `data`.
pub record Ext : Type 0 where
  pub content : List ℕ
  pub heap_base : ℕ
  pub heap_size : ℕ
  pub state : BlobState

-- `p[0] | p[1] << 8 | p[2] << 16 | p[3] << 24`
unfoldable pub le32 : List ℕ → ℕ → ℕ
le32 b off =
    bit_or
      (bit_or (bit_or (byte_at b off) (byte_at b (off + 1) * 2 ^ 8)) (byte_at b (off + 2) * 2 ^ 16))
      (byte_at b (off + 3) * 2 ^ 24)

-- `ext_rd32`, with `none` for an offset from which four bytes do not fit in the blob.
unfoldable pub ext_rd32 : Ext → ℕ → Option ℕ
unfolding le32
ext_rd32 g off = if leb (off + 4) (length g.content) then some (le32 g.content off) else none

-- "DMF1", version 1 and glyphs of 16 rows
unfoldable pub has_header : List ℕ → Bool
has_header b =
    byte_at b 0 == 68
    && byte_at b 1 == 77
    && byte_at b 2 == 70
    && byte_at b 3 == 49
    && byte_at b 4 == 1
    && byte_at b 5 == 16

-- `16 + 256 * 4`
abbrev pub tables : ℕ
tables = 1040

-- `dm_font_load_ext`, with the file's bytes, or `none` if they cannot be opened, held or read.
unfoldable pub dm_font_load_ext : Option (List ℕ) → Ext → Bool × Ext
unfolding le32 has_header
dm_font_load_ext none g = (false, g)
dm_font_load_ext (some buf) g =
    let heap_size : ℕ = le32 buf 12 in
    let opened : Ext = record {
      content = buf;
      heap_base = length buf - heap_size;
      heap_size = heap_size;
      state = loaded;
    } in
    if ltb (length buf) tables || not (has_header buf) || ltb (length buf - tables) heap_size
    then (false, g)
    else (true, opened)

-- What the system answers to the calls of `ext_autoload`: the variables DEMOD_FONT and HOME, an empty
-- one being `none`, and the files.
pub record FontHost : Type 0 where
  pub demod_font : Option (List ℕ)
  pub home : Option (List ℕ)
  pub file : List ℕ → Option (List ℕ)

-- A try to load, which the others follow if it fails.
unfoldable pub try_path : FontHost → Option (List ℕ) → Bool × Ext → Bool × Ext
unfolding dm_font_load_ext
try_path host path (true, g) = (true, g)
try_path host none (false, g) = (false, g)
try_path host (some p) (false, g) = dm_font_load_ext (host.file p) g

-- "/.local/share/demod/unifont.dmf"
abbrev share_path : List ℕ
share_path =
    47 ∷ 46 ∷ 108 ∷ 111 ∷ 99 ∷ 97 ∷ 108 ∷ 47 ∷ 115 ∷ 104 ∷ 97 ∷ 114 ∷ 101 ∷ 47 ∷ 100 ∷ 101 ∷ 109
    ∷ 111 ∷ 100 ∷ 47 ∷ 117 ∷ 110 ∷ 105 ∷ 102 ∷ 111 ∷ 110 ∷ 116 ∷ 46 ∷ 100 ∷ 109 ∷ 102 ∷ []

-- "unifont.dmf"
abbrev here_path : List ℕ
here_path = 117 ∷ 110 ∷ 105 ∷ 102 ∷ 111 ∷ 110 ∷ 116 ∷ 46 ∷ 100 ∷ 109 ∷ 102 ∷ []

-- `snprintf` into 512 bytes.
abbrev home_path : Option (List ℕ) → Option (List ℕ)
home_path none = none
home_path (some p) = some (take 511 (p ++ share_path))

-- The tries, one after the other.
unfoldable pub autoload_in : BlobState → FontHost → Ext → Ext
unfolding try_path
autoload_in untried host g =
    let first = try_path host host.demod_font (false, record g { state = unavailable }) in
    let second = try_path host (home_path host.home) first in
    (try_path host (some here_path) second).1
autoload_in s host g = g

-- `ext_autoload`
unfoldable pub ext_autoload : FontHost → Ext → Ext
unfolding autoload_in
ext_autoload host g = autoload_in g.state host g

-- A glyph: its width flag and where its rows begin in the blob.
pub data Glyph : Type 0 where
  missing : Glyph
  found : Bool → ℕ → Glyph
  out_of_bounds : Glyph

-- The rows of a glyph.
abbrev pub glyph_bytes : Bool → ℕ
glyph_bytes true = 32
glyph_bytes false = 16

unfoldable pub glyph_of : Ext → Option ℕ → Glyph
glyph_of g none = out_of_bounds
glyph_of g (some entry) =
    let fw : Bool = bit_and entry 1 == 1 in
    let off : ℕ = entry / 2 in
    if entry == 4294967295 || ltb g.heap_size (off + glyph_bytes fw)
    then missing
    else found fw (g.heap_base + off)

-- The entry of the page's table; `page + 256 * 4` is a sum of 32 bits.
unfoldable pub entry_in : Ext → ℕ → Option ℕ → Glyph
unfolding ext_rd32 glyph_of
entry_in g cp none = out_of_bounds
entry_in g cp (some page) =
    if page == 0 || ltb g.heap_base ((page + 1024) % 2 ^ 32)
    then missing
    else glyph_of g (ext_rd32 g (page + bit_and cp 255 * 4))

abbrev pub is_unavailable : BlobState → Bool
is_unavailable unavailable = true
is_unavailable s = false

-- `ext_glyph`, after `ext_autoload`
unfoldable pub lookup_glyph : Ext → ℕ → Glyph
unfolding ext_rd32 entry_in
lookup_glyph g cp =
    if is_unavailable g.state then missing else entry_in g cp (ext_rd32 g (16 + cp / 2 ^ 8 * 4))

-- `ext_glyph`
unfoldable pub ext_glyph : FontHost → Ext → ℕ → Glyph × Ext
unfolding ext_autoload lookup_glyph
ext_glyph host g cp =
    let g' = ext_autoload host g in if ltb 65535 cp then (missing, g) else (lookup_glyph g' cp, g')

-- `DmFont`; `bits` is the bitmap, `data` in the source.
pub record DmFont : Type 0 where
  pub bits : List ℕ
  pub first_cp : ℕ
  pub num_glyphs : ℕ
  pub glyph_w : ℕ
  pub glyph_h : ℕ

unfoldable pub advance_of : DmFont → Glyph → ℕ
advance_of f (found true at) = f.glyph_w * 2
advance_of f r = f.glyph_w

-- `dm_font_cp_advance`
unfoldable pub dm_font_cp_advance : FontHost → DmFont → Ext → ℕ → ℕ × Ext
unfolding ext_glyph advance_of
dm_font_cp_advance host f g cp =
    let (r, g') = ext_glyph host g cp in if ltb cp 128 then (f.glyph_w, g) else (advance_of f r, g')

-- `end && text >= end`
abbrev pub ended : Option ℕ → ℕ → Bool
ended none pos = false
ended (some n) pos = leb n pos

-- The loop of `dm_font_text_width_n`, `pos` bytes into the text.
unfoldable pub width_loop :
    ℕ → FontHost → DmFont → Option ℕ → Ext → List ℕ → ℕ → ℕ → Option (ℕ × Ext)
unfolding dm_utf8_decode dm_font_cp_advance
width_loop zero host f limit g s pos w = none
width_loop (suc k) host f limit g s pos w =
    let (cp, adv) = dm_utf8_decode s in
    let (a, g') = dm_font_cp_advance host f g cp in
    let rest = width_loop k host f limit g' (drop adv s) (pos + adv) (w + a) in
    if ended limit pos || adv == 0 then some (w, g) else rest

-- `dm_font_text_width_n`; a negative `nbytes` is `none`.
unfoldable pub dm_font_text_width_n : FontHost → DmFont → Option ℕ → Ext → List ℕ → Option (ℕ × Ext)
unfolding width_loop
dm_font_text_width_n host f limit g s = width_loop (suc (length s)) host f limit g s 0 0
