-- ===== src/Font/Blob.antt =====
-- The bounds of the blob of extended glyphs, `dm_font_load_ext` and `ext_glyph` of src/core/font.c.
use Prim.Native.Nat.{bit_and}
use mathlib.Core.Path.{subst}
use de_mo_d.Prelude.{ℕ, ◌+◌, ◌-◌, ◌*◌, ◌/◌, ◌%◌, ◌^◌, ◌≤◌, ◌<◌, ◌==◌, ltb, leb, if◌then◌else◌}
use de_mo_d.Prelude.{Bool, true, false, not, ◌||◌, some, List}
use de_mo_d.Prelude.{length, bit_and_mask, on_branches, if_true, if_false, ltb→le, arith}
use de_mo_d.Prelude.{◌≡◌, refl, sym, ap, ◌∙◌, ◌↔◌, inl, inr}
use de_mo_d.Font.Utf8.{le_or_lt}
use de_mo_d.Font.{is_unavailable}
use de_mo_d.Font.{
  Ext, loaded, tables, le32, ext_rd32, has_header, dm_font_load_ext, FontHost, autoload_in,
  ext_autoload, Glyph, missing, found, out_of_bounds, glyph_bytes, glyph_of, entry_in, lookup_glyph,
  ext_glyph,
}

-- The tables are before the heap, and the heap ends the blob.
pub record IsBlob (g : Ext) : Type 0 where
  pub opened : g.state ≡ loaded
  pub room : tables ≤ g.heap_base
  pub whole : g.heap_base + g.heap_size ≡ length g.content

-- The table of a code point's page, as the first table says.
abbrev pub page_of : Ext → ℕ → ℕ
page_of g cp = le32 g.content (16 + cp / 2 ^ 8 * 4)

abbrev pub InBlob : Ext → Glyph → Type 0
InBlob g (found fw at) = at + glyph_bytes fw ≤ length g.content
InBlob g r = Unit

-- A blob that the loader accepts has its parts in order.
pub dm_font_load_ext-IsBlob :
    (buf : List ℕ) (g : Ext)
    → (dm_font_load_ext (some buf) g).0 ≡ true
    → IsBlob (dm_font_load_ext (some buf) g).1
unfolding dm_font_load_ext
dm_font_load_ext-IsBlob buf g =
    on_branches (λ (r : Bool × Ext). r.0 ≡ true → IsBlob r.1)
      (ltb (length buf) tables || not (has_header buf) || ltb (length buf - tables) (le32 buf 12))
      (λ _ h. absurd (cc h))
      (λ fits h.
        let (lo, hi) =
          checks (ltb (length buf) tables) (not (has_header buf))
            (ltb (length buf - tables) (le32 buf 12)) fits in
        record {
          opened = refl;
          room = omega (arith, ltb→le _ _ lo, ltb→le _ _ hi);
          whole = omega (arith, ltb→le _ _ lo, ltb→le _ _ hi);
        })
  where
    checks : (p q r : Bool) → (p || q || r) ≡ false → (p ≡ false) × (r ≡ false)
    checks p q r h = ground arith

-- The first read is inside the tables.
lookup_glyph-page :
    (g : Ext) (cp : ℕ)
    → IsBlob g
    → cp < 65536
    → lookup_glyph g cp ≡ entry_in g cp (some (page_of g cp))
unfolding lookup_glyph ext_rd32
lookup_glyph-page g cp b h =
    ap (λ s. if is_unavailable s then missing else entry_in g cp (ext_rd32 g (16 + cp / 2 ^ 8 * 4)))
      b.opened
    ∙ ap (entry_in g cp)
        (if_true {b = leb (16 + cp / 2 ^ 8 * 4 + 4) (length g.content)} _ _ (inside b.room b.whole))
  where
    inside :
        tables ≤ g.heap_base
        → g.heap_base + g.heap_size ≡ length g.content
        → leb (16 + cp / 2 ^ 8 * 4 + 4) (length g.content) ≡ true
    inside room whole = ground arith

ext_glyph-page :
    (host : FontHost) (g : Ext) (cp : ℕ)
    → IsBlob g
    → cp < 65536
    → ext_glyph host g cp ≡ (entry_in g cp (some (page_of g cp)), g)
unfolding ext_glyph ext_autoload autoload_in
ext_glyph-page host g cp b h =
    ap
      (λ s.
        if ltb 65535 cp
        then (missing, g)
        else (lookup_glyph (autoload_in s host g) cp, autoload_in s host g))
      b.opened
    ∙ if_false {b = ltb 65535 cp} _ _ (ground arith)
    ∙ ap (λ r. (r, g)) (lookup_glyph-page g cp b h)

-- An entry of a table leads to no read outside, and to a glyph inside the heap.
glyph_of-InBlob :
    (g : Ext) (entry : ℕ)
    → IsBlob g
    → ((glyph_of g (some entry) ≡ out_of_bounds) → ⊥) × InBlob g (glyph_of g (some entry))
unfolding glyph_of
glyph_of-InBlob g entry b =
    on_branches (λ r. ((r ≡ out_of_bounds) → ⊥) × InBlob g r)
      (entry == 4294967295 || ltb g.heap_size (entry / 2 + glyph_bytes (bit_and entry 1 == 1)))
      (λ _. ((λ e. cc e), tt)) (λ fits. inside fits b.whole)
  where
    inside :
        (entry == 4294967295 || ltb g.heap_size (entry / 2 + glyph_bytes (bit_and entry 1 == 1)))
          ≡ false
        → g.heap_base + g.heap_size ≡ length g.content
        → ((found (bit_and entry 1 == 1) (g.heap_base + entry / 2) ≡ out_of_bounds) → ⊥)
          × (g.heap_base + entry / 2 + glyph_bytes (bit_and entry 1 == 1) ≤ length g.content)
    inside fits whole = ((λ e. cc e), ground arith)

entry_in-inside :
    (g : Ext) (cp page : ℕ)
    → IsBlob g
    → page + 1024 < 2 ^ 32
    → ((entry_in g cp (some page) ≡ out_of_bounds) → ⊥) × InBlob g (entry_in g cp (some page))
unfolding entry_in ext_rd32
entry_in-inside g cp page b h =
    on_branches (λ r. ((r ≡ out_of_bounds) → ⊥) × InBlob g r)
      (page == 0 || ltb g.heap_base ((page + 1024) % 2 ^ 32)) (λ _. ((λ e. cc e), tt))
      (λ fits.
        subst (λ o. ((glyph_of g o ≡ out_of_bounds) → ⊥) × InBlob g (glyph_of g o))
          (sym (
            if_true {b = leb (page + bit_and cp 255 * 4 + 4) (length g.content)} _ _
              (inside fits b.whole)))
          (glyph_of-InBlob g (le32 g.content (page + bit_and cp 255 * 4)) b))
  where
    inside :
        (page == 0 || ltb g.heap_base ((page + 1024) % 2 ^ 32)) ≡ false
        → g.heap_base + g.heap_size ≡ length g.content
        → leb (page + bit_and cp 255 * 4 + 4) (length g.content) ≡ true
    inside fits whole = ground (arith, bit_and_mask 8 cp)

entry_in-outside :
    (g : Ext) (cp page : ℕ)
    → IsBlob g
    → 2 ^ 32 ≤ page + 1024
    → page < 2 ^ 32
    → length g.content ≤ 2 ^ 32 - 1024
    → entry_in g cp (some page) ≡ out_of_bounds
unfolding entry_in ext_rd32 glyph_of
entry_in-outside g cp page b h top small =
    if_false {b = page == 0 || ltb g.heap_base ((page + 1024) % 2 ^ 32)} _ _ (passes b.room)
    ∙ ap (glyph_of g)
        (if_false {b = leb (page + bit_and cp 255 * 4 + 4) (length g.content)} _ _ (ground arith))
  where
    passes : tables ≤ g.heap_base → (page == 0 || ltb g.heap_base ((page + 1024) % 2 ^ 32)) ≡ false
    passes room = ground arith

-- A lookup below 0x10000 in a loaded blob of at most 2^32 - 1024 bytes reads outside of the blob exactly
-- when the table's offset is one of the last 1024 numbers of 32 bits, where the sum that the code
-- compares with the heap's offset wraps around; and a glyph that is found lies inside the blob.
pub ext_glyph-out_of_bounds :
    (host : FontHost) (g : Ext) (cp : ℕ)
    → IsBlob g
    → cp < 65536
    → page_of g cp < 2 ^ 32
    → length g.content ≤ 2 ^ 32 - 1024
    → (((ext_glyph host g cp).0 ≡ out_of_bounds) ↔ (2 ^ 32 ≤ page_of g cp + 1024))
      × InBlob g (ext_glyph host g cp).0
ext_glyph-out_of_bounds host g cp b h word small =
    subst
      (λ (r : Glyph × Ext). ((r.0 ≡ out_of_bounds) ↔ (2 ^ 32 ≤ page_of g cp + 1024)) × InBlob g r.0)
      (sym (ext_glyph-page host g cp b h))
      (elim (le_or_lt (2 ^ 32) (page_of g cp + 1024)) [
        | inl top ↦
            subst (λ r. ((r ≡ out_of_bounds) ↔ (2 ^ 32 ≤ page_of g cp + 1024)) × InBlob g r)
              (sym (entry_in-outside g cp (page_of g cp) b top word small))
              (((λ _. top), (λ _. refl)), tt)
        | inr low ↦ (
          (
            (λ e. absurd ((entry_in-inside g cp (page_of g cp) b low).0 e)),
            (λ top. absurd (omega arith)),
          ),
          (entry_in-inside g cp (page_of g cp) b low).1,
        )
      ])
