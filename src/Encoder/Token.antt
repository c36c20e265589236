-- ===== src/Encoder/Token.antt =====
-- The queue and the open word of src/input/serial_encoder.c, byte by byte.
use mathlib.Core.Path.{subst}
use mathlib.Core.List.{append-nil, append_assoc}
use de_mo_d.Prelude.{every, every_sound}
use de_mo_d.Prelude.{ℕ, ◌+◌, ◌≤◌, ◌<◌, ◌==◌, ltb, if◌then◌else◌, Bool, true, false, not, ◌&&◌, ◌||◌}
use de_mo_d.Prelude.{List, [], ◌∷◌, ◌++◌, length, length-append, All, arith, if_true, if_false}
use de_mo_d.Prelude.{◌≡◌, refl, sym, ap, ◌∙◌}
use de_mo_d.Ring.{put, next_index, next_lem, entries, entries_room, entries-put}
use de_mo_d.Encoder.{
  DmNavAction, nav_none, nav_prev, nav_next, nav_activate, nav_back, nav_tab, nav_tab_prev,
  DmEncoder, enc_push, flush_token, is_symbol, is_delimiter, isgraph, feed_byte, feed_bytes,
}

-- The actions that wait, the oldest first.
unfoldable pub queued : DmEncoder → List DmNavAction
unfolding entries
queued enc = entries enc.q enc.head enc.tail

abbrev pub IsRing : DmEncoder → Type 0
IsRing enc = (enc.head < 256) × (enc.tail < 256)

abbrev pub is_plain : ℕ → Bool
is_plain c = not (is_symbol c) && not (is_delimiter c) && isgraph c

-- What is queued for an action: nothing for `DM_NAV_NONE`.
unfoldable pub kept : DmNavAction → List DmNavAction
kept nav_none = []
kept a = a ∷ []

abbrev pub Queues : DmEncoder → List DmNavAction → DmEncoder → Type 0
Queues enc xs enc' = IsRing enc' × (queued enc' ≡ xs) × (enc'.tok ≡ enc.tok)

enc_push_one :
    (enc : DmEncoder) (a : DmNavAction)
    → IsRing enc
    → length (queued enc) < 255
    → Queues enc (queued enc ++ (a ∷ [])) (
        if next_index enc.head == enc.tail
        then enc
        else record enc { q = put enc.q enc.head a; head = next_index enc.head })
unfolding queued
enc_push_one enc a h room =
    subst (Queues enc (queued enc ++ (a ∷ [])))
      (sym (
        if_false {b = next_index enc.head == enc.tail} _ _
          (entries_room enc.q enc.head enc.tail h.0 h.1 room)))
      (
        (omega (arith, next_lem enc.head), h.1),
        entries-put enc.q enc.head enc.tail h.0 h.1 a
            (entries_room enc.q enc.head enc.tail h.0 h.1 room),
        refl,
      )

pub enc_push-kept :
    (enc : DmEncoder) (a : DmNavAction)
    → IsRing enc
    → length (queued enc) + length (kept a) ≤ 255
    → Queues enc (queued enc ++ kept a) (enc_push enc a)
unfolding enc_push kept
enc_push-kept enc nav_none h room = (h, sym (append-nil (queued enc)), refl)
enc_push-kept enc nav_prev h room = enc_push_one enc nav_prev h (omega arith)
enc_push-kept enc nav_next h room = enc_push_one enc nav_next h (omega arith)
enc_push-kept enc nav_activate h room = enc_push_one enc nav_activate h (omega arith)
enc_push-kept enc nav_back h room = enc_push_one enc nav_back h (omega arith)
enc_push-kept enc nav_tab h room = enc_push_one enc nav_tab h (omega arith)
enc_push-kept enc nav_tab_prev h room = enc_push_one enc nav_tab_prev h (omega arith)

lt→ltb : (a b : ℕ) → a < b → ltb a b ≡ true
lt→ltb a b h = ground arith

plain_parts : (p q r : Bool) → (not p && not q && r) ≡ true → (p ≡ false) × (q ≡ false) × (r ≡ true)
plain_parts p q r h = ground arith

both_true : (p q : Bool) → p ≡ true → q ≡ true → (p && q) ≡ true
both_true p q h k = ground arith

feed_byte-plain :
    (enc : DmEncoder) (c : ℕ)
    → is_plain c ≡ true
    → length enc.tok < 31
    → feed_byte enc c ≡ record enc { tok = enc.tok ++ (c ∷ []) }
unfolding feed_byte
feed_byte-plain enc c p room =
    let (no_symbol, no_delimiter, graph) =
      plain_parts (is_symbol c) (is_delimiter c) (isgraph c) p in
    if_false {b = is_symbol c} _ _ no_symbol
    ∙ if_false {b = is_delimiter c} _ _ no_delimiter
    ∙ if_true {b = isgraph c && ltb (length enc.tok) 31} _ _
        (both_true (isgraph c) (ltb (length enc.tok) 31) graph (lt→ltb _ _ room))

-- The characters of a word go to the token.
pub feed_bytes-plain :
    (w rest : List ℕ) (enc : DmEncoder)
    → All (λ c. is_plain c ≡ true) w
    → length enc.tok + length w ≤ 31
    → feed_bytes enc (w ++ rest) ≡ feed_bytes (record enc { tok = enc.tok ++ w }) rest
unfolding feed_bytes
feed_bytes-plain [] rest enc h room =
    ap (λ t. feed_bytes (record enc { tok = t }) rest) (sym (append-nil enc.tok))
feed_bytes-plain (c ∷ w) rest enc (hc, hs) room =
    ap (λ e. feed_bytes e (w ++ rest)) (feed_byte-plain enc c hc (omega arith))
    ∙ feed_bytes-plain w rest (record enc { tok = enc.tok ++ (c ∷ []) }) hs
        (omega (arith, length-append enc.tok (c ∷ [])))
    ∙ ap (λ t. feed_bytes (record enc { tok = t }) rest) (append_assoc enc.tok (c ∷ []) w)

delimiter_below : (c : ℕ) → is_delimiter c ≡ true → c < 64
delimiter_below c h = ground arith

delimiter_no_symbol : (c : ℕ) → is_delimiter c ≡ true → is_symbol c ≡ false
delimiter_no_symbol c h = second (is_delimiter c) (is_symbol c) h (
    every_sound 64 (λ c. not (is_delimiter c) || not (is_symbol c)) c (unfold every in refl)
      (delimiter_below c h))
  where
    second : (p q : Bool) → p ≡ true → (not p || not q) ≡ true → q ≡ false
    second p q h k = ground arith

-- A delimiter closes the word.
pub feed_byte-delimiter :
    (enc : DmEncoder) (d : ℕ) → is_delimiter d ≡ true → feed_byte enc d ≡ flush_token enc
unfolding feed_byte
feed_byte-delimiter enc d h =
    if_false {b = is_symbol d} _ _ (delimiter_no_symbol d h) ∙ if_true {b = is_delimiter d} _ _ h
