-- ===== src/Encoder/Words.antt =====
-- What the parser of src/input/serial_encoder.c makes of a stream of words and symbols.
use mathlib.Core.Path.{subst}
use mathlib.Core.List.{append-nil, append_assoc}
use de_mo_d.Prelude.{ne→==, eq→==}
use de_mo_d.Encoder.{word_action, matches, ieq, dm_nav_name}
use de_mo_d.Prelude.{ℕ, ◌+◌, ◌≤◌, ◌<◌, ◌==◌, true}
use de_mo_d.Prelude.{List, [], ◌∷◌, ◌++◌, length, length-append, All, arith, if_true, if_false}
use de_mo_d.Prelude.{◌≡◌, refl, sym, ap, ◌∙◌}
use de_mo_d.Encoder.{
  DmNavAction, nav_none, nav_prev, nav_next, nav_activate, nav_back, nav_tab, nav_tab_prev,
  DmEncoder, enc_push, flush_token, is_symbol, is_delimiter, feed_byte, feed_bytes,
  dm_nav_from_name,
}
use de_mo_d.Encoder.Token.{
  queued, IsRing, is_plain, kept, enc_push-kept, feed_bytes-plain, feed_byte-delimiter,
}

-- What is sent: a word with the delimiter after it, or a symbol.
pub data Item : Type 0 where
  word : List ℕ → ℕ → Item
  symbol : ℕ → Item

abbrev pub IsItem : Item → Type 0
IsItem (word w d) =
    (0 < length w) × (length w ≤ 31) × All (λ c. is_plain c ≡ true) w × (is_delimiter d ≡ true)
IsItem (symbol c) = is_symbol c ≡ true

abbrev pub bytes_of : Item → List ℕ
bytes_of (word w d) = w ++ (d ∷ [])
bytes_of (symbol c) = c ∷ []

unfoldable pub written : List Item → List ℕ
written [] = []
written (x ∷ xs) = bytes_of x ++ written xs

abbrev pub action_of : Item → DmNavAction
action_of (word w d) = dm_nav_from_name w
action_of (symbol c) = dm_nav_from_name (c ∷ [])

unfoldable pub actions : List Item → List DmNavAction
unfolding kept dm_nav_from_name
actions [] = []
actions (x ∷ xs) = kept (action_of x) ++ actions xs

-- The queue is `xs`, and no word is open.
record Holds (enc : DmEncoder) (xs : List DmNavAction) : Type 0 where
  ring : IsRing enc
  queue : queued enc ≡ xs
  idle : enc.tok ≡ []

-- Where the parser stands after an item, with `rest` to come.
record After (enc : DmEncoder) (x : Item) (rest : List ℕ) (xs : List DmNavAction) : Type 0 where
  enc' : DmEncoder
  reached : feed_bytes enc (bytes_of x ++ rest) ≡ feed_bytes enc' rest
  holds : Holds enc' (xs ++ kept (action_of x))

feed_word :
    (enc : DmEncoder) (w : List ℕ) (d : ℕ) (rest : List ℕ) (xs : List DmNavAction)
    → Holds enc xs
    → IsItem (word w d)
    → length xs + length (kept (dm_nav_from_name w)) ≤ 255
    → After enc (word w d) rest xs
unfolding feed_bytes queued
feed_word enc w d rest xs h (some_char, short, plain, ends) room =
    let typed : DmEncoder = record enc { tok = w } in
    let pushed =
      enc_push-kept typed (dm_nav_from_name w) h.ring
        (subst (λ l. length l + length (kept (dm_nav_from_name w)) ≤ 255) (sym h.queue) room) in
    record {
      enc' = record (enc_push typed (dm_nav_from_name w)) { tok = [] };
      reached =
          ap (feed_bytes enc) (append_assoc w (d ∷ []) rest)
          ∙ feed_bytes-plain w (d ∷ rest) enc plain (omega (arith, ap length h.idle))
          ∙ ap (λ t. feed_bytes (record enc { tok = t ++ w }) (d ∷ rest)) h.idle
          ∙ ap (λ e. feed_bytes e rest)
              (feed_byte-delimiter typed d ends ∙ flushed typed some_char);
      holds = record {
        ring = pushed.0;
        queue = pushed.1 ∙ ap (λ l. l ++ kept (dm_nav_from_name w)) h.queue;
        idle = refl;
      };
    }
  where
    flushed :
        (e : DmEncoder)
        → 0 < length e.tok
        → flush_token e ≡ record (enc_push e (dm_nav_from_name e.tok)) { tok = [] }
    flushed e pos =
        unfold flush_token in
        if_false {b = length e.tok == 0} _ _ (ne→== (length e.tok) 0 (omega arith))

feed_symbol :
    (enc : DmEncoder) (c : ℕ) (rest : List ℕ) (xs : List DmNavAction)
    → Holds enc xs
    → IsItem (symbol c)
    → length xs + length (kept (dm_nav_from_name (c ∷ []))) ≤ 255
    → After enc (symbol c) rest xs
unfolding feed_bytes queued
feed_symbol enc c rest xs h is room =
    let pushed = enc_push-kept enc (dm_nav_from_name (c ∷ [])) h.ring (
      subst (λ l. length l + length (kept (dm_nav_from_name (c ∷ []))) ≤ 255) (sym h.queue) room) in
    record {
      enc' = enc_push enc (dm_nav_from_name (c ∷ []));
      reached =
          ap (λ e. feed_bytes e rest)
            (symbol_fed ∙ ap (λ e. enc_push e (dm_nav_from_name (c ∷ []))) (no_word h.idle));
      holds = record {
        ring = pushed.0;
        queue = pushed.1 ∙ ap (λ l. l ++ kept (dm_nav_from_name (c ∷ []))) h.queue;
        idle = pushed.2 ∙ h.idle;
      };
    }
  where
    symbol_fed : feed_byte enc c ≡ enc_push (flush_token enc) (dm_nav_from_name (c ∷ []))
    symbol_fed = unfold feed_byte in if_true {b = is_symbol c} _ _ is

    no_word : enc.tok ≡ [] → flush_token enc ≡ enc
    no_word e =
        unfold flush_token in
        if_true {b = length enc.tok == 0} _ _ (eq→== (length enc.tok) 0 (ap length e))

feed_item :
    (enc : DmEncoder) (x : Item) (rest : List ℕ) (xs : List DmNavAction)
    → Holds enc xs
    → IsItem x
    → length xs + length (kept (action_of x)) ≤ 255
    → After enc x rest xs
feed_item enc (word w d) rest xs h is room = feed_word enc w d rest xs h is room
feed_item enc (symbol c) rest xs h is room = feed_symbol enc c rest xs h is room

feed_items :
    (enc : DmEncoder) (items : List Item) (xs : List DmNavAction)
    → Holds enc xs
    → All IsItem items
    → length xs + length (actions items) ≤ 255
    → Holds (feed_bytes enc (written items)) (xs ++ actions items)
unfolding written actions
feed_items enc [] xs h are room = unfold feed_bytes in subst (Holds enc) (sym (append-nil xs)) h
feed_items enc (x ∷ items) xs h (is, are) room =
    let after =
      feed_item enc x (written items) xs h is
        (omega (arith, length-append (kept (action_of x)) (actions items))) in
    let rest = feed_items after.enc' items (xs ++ kept (action_of x)) after.holds are (
      omega (
        arith,
        length-append xs (kept (action_of x)),
        length-append (kept (action_of x)) (actions items),
      )) in
    subst (λ e. Holds e (xs ++ (kept (action_of x) ++ actions items))) (sym after.reached)
      (subst (Holds (feed_bytes after.enc' (written items)))
        (append_assoc xs (kept (action_of x)) (actions items)) rest)

-- A stream of words, each of 1 to 31 printable characters and ended by a delimiter, and of symbols puts
-- exactly their actions behind those that wait, in order and without `DM_NAV_NONE`, if no word was open
-- before and no more than 255 actions wait at the end; then no word is open again.
pub feed_bytes-written :
    (enc : DmEncoder) (items : List Item)
    → IsRing enc
    → enc.tok ≡ []
    → All IsItem items
    → length (queued enc) + length (actions items) ≤ 255
    → (queued (feed_bytes enc (written items)) ≡ queued enc ++ actions items)
      × ((feed_bytes enc (written items)).tok ≡ [])
      × IsRing (feed_bytes enc (written items))
feed_bytes-written enc items ring idle are room =
    let held =
      feed_items enc items (queued enc) (record { ring = ring; queue = refl; idle = idle }) are
        room in
    (held.queue, held.idle, held.ring)

-- The name of an action, read back.
pub dm_nav_from_name-dm_nav_name : (a : DmNavAction) → dm_nav_from_name (dm_nav_name a) ≡ a
unfolding dm_nav_from_name dm_nav_name word_action matches ieq
dm_nav_from_name-dm_nav_name nav_none = refl
dm_nav_from_name-dm_nav_name nav_prev = refl
dm_nav_from_name-dm_nav_name nav_next = refl
dm_nav_from_name-dm_nav_name nav_activate = refl
dm_nav_from_name-dm_nav_name nav_back = refl
dm_nav_from_name-dm_nav_name nav_tab = refl
dm_nav_from_name-dm_nav_name nav_tab_prev = refl
