-- ===== src/Encoder.antt =====
-- The serial encoder's reader, src/input/serial_encoder.c: names of actions, the token parser and its
-- queue. Characters are their codes; `tolower` and `isgraph` are those of the C locale.
pub mod Token
pub mod Words
mod Tests
use Prim.Native.Nat.{bit_and}
use Prim.Native.Char.{code}
use Prim.Native.String
use Prim.Native.String.{String}
use de_mo_d.Prelude.{
  ℕ, zero, suc, ◌+◌, ◌==◌, ltb, leb, if◌then◌else◌, Bool, true, false, not, ◌&&◌, ◌||◌,
}
use de_mo_d.Prelude.{List, [], ◌∷◌, ◌++◌, length}
use de_mo_d.Ring.{put, next_index}

-- The characters of a literal.
abbrev pub chars : String → List ℕ
chars String.[] = []
chars (String.◌∷◌ c s) = code c ∷ chars s

-- `DmNavAction`
pub data DmNavAction : Type 0 where
  nav_none : DmNavAction
  nav_prev : DmNavAction
  nav_next : DmNavAction
  nav_activate : DmNavAction
  nav_back : DmNavAction
  nav_tab : DmNavAction
  nav_tab_prev : DmNavAction

-- `tolower`
abbrev pub tolower : ℕ → ℕ
tolower c = if leb 65 c && leb c 90 then c + 32 else c

unfoldable pub ieq : List ℕ → List ℕ → Bool
ieq [] [] = true
ieq (x ∷ a) (y ∷ b) = tolower x == tolower y && ieq a b
ieq a b = false

-- A loop over one of the tables of words.
unfoldable pub matches : List ℕ → List String → Bool
unfolding ieq
matches t [] = false
matches t (w ∷ ws) = ieq t (chars w) || matches t ws

abbrev next_w : List String
next_w = "next" ∷ "cw" ∷ "right" ∷ "down" ∷ "fwd" ∷ "forward" ∷ "inc" ∷ "r" ∷ []

abbrev prev_w : List String
prev_w = "prev" ∷ "ccw" ∷ "left" ∷ "up" ∷ "rev" ∷ "reverse" ∷ "dec" ∷ "l" ∷ []

abbrev act_w : List String
act_w =
    "activate" ∷ "select" ∷ "sel" ∷ "ok" ∷ "enter" ∷ "push" ∷ "press" ∷ "click" ∷ "fire" ∷ "s" ∷ "p"
    ∷ []

abbrev back_w : List String
back_w = "back" ∷ "esc" ∷ "escape" ∷ "cancel" ∷ "long" ∷ "longpress" ∷ "home" ∷ "exit" ∷ "b" ∷ []

abbrev tab_w : List String
tab_w = "tab" ∷ "screen" ∷ "screen_next" ∷ "page" ∷ "page_next" ∷ "t" ∷ []

abbrev tabp_w : List String
tabp_w = "tab_prev" ∷ "screen_prev" ∷ "page_prev" ∷ "shift_tab" ∷ "y" ∷ []

-- The six loops over the tables.
unfoldable pub word_action : List ℕ → DmNavAction
unfolding matches
word_action t =
    if matches t next_w
    then nav_next
    else if matches t prev_w
    then nav_prev
    else if matches t act_w
    then nav_activate
    else if matches t back_w
    then nav_back
    else if matches t tab_w
    then nav_tab
    else if matches t tabp_w
    then nav_tab_prev
    else nav_none

-- The `switch` on a single character, and the tables after it.
unfoldable pub symbol_action : ℕ → DmNavAction
unfolding word_action
symbol_action c =
    if c == 43 || c == 62
    then nav_next
    else if c == 45 || c == 60
    then nav_prev
    else if c == 42 || c == 33
    then nav_activate
    else if c == 126 || c == 94
    then nav_back
    else word_action (c ∷ [])

unfoldable pub dm_nav_from_name : List ℕ → DmNavAction
unfolding symbol_action word_action
dm_nav_from_name [] = nav_none
dm_nav_from_name (c ∷ []) = symbol_action c
dm_nav_from_name t = word_action t

unfoldable pub dm_nav_name : DmNavAction → List ℕ
dm_nav_name nav_prev = chars "prev"
dm_nav_name nav_next = chars "next"
dm_nav_name nav_activate = chars "activate"
dm_nav_name nav_back = chars "back"
dm_nav_name nav_tab = chars "tab"
dm_nav_name nav_tab_prev = chars "tab_prev"
dm_nav_name nav_none = chars "none"

-- `struct DmEncoder`, less the file descriptor; `tok` has the first `toklen` characters.
pub record DmEncoder : Type 0 where
  pub q : ℕ → DmNavAction
  pub head : ℕ
  pub tail : ℕ
  pub tok : List ℕ

unfoldable pub enc_push : DmEncoder → DmNavAction → DmEncoder
enc_push enc nav_none = enc
enc_push enc a =
    if next_index enc.head == enc.tail
    then enc
    else record enc { q = put enc.q enc.head a; head = next_index enc.head }

unfoldable pub flush_token : DmEncoder → DmEncoder
unfolding enc_push dm_nav_from_name
flush_token enc =
    if length enc.tok == 0
    then enc
    else record (enc_push enc (dm_nav_from_name enc.tok)) { tok = [] }

abbrev pub is_symbol : ℕ → Bool
is_symbol c = c == 43 || c == 62 || c == 45 || c == 60 || c == 42 || c == 33 || c == 126 || c == 94

abbrev pub is_delimiter : ℕ → Bool
is_delimiter c = c == 32 || c == 9 || c == 13 || c == 10 || c == 44 || c == 59

-- `isgraph`
abbrev pub isgraph : ℕ → Bool
isgraph c = leb 33 c && leb c 126

unfoldable pub feed_byte : DmEncoder → ℕ → DmEncoder
unfolding flush_token enc_push dm_nav_from_name
feed_byte enc c =
    if is_symbol c
    then enc_push (flush_token enc) (dm_nav_from_name (c ∷ []))
    else if is_delimiter c
    then flush_token enc
    else if isgraph c && ltb (length enc.tok) 31
    then record enc { tok = enc.tok ++ (c ∷ []) }
    else enc

unfoldable pub feed_bytes : DmEncoder → List ℕ → DmEncoder
unfolding feed_byte
feed_bytes enc [] = enc
feed_bytes enc (c ∷ cs) = feed_bytes (feed_byte enc c) cs

-- The loop of `dm_encoder_poll` over the results of `read`: at most 128 bytes each, none at the end
-- or on an error.
unfoldable pub read_all : DmEncoder → List (List ℕ) → DmEncoder
unfolding feed_bytes
read_all enc [] = enc
read_all enc (buf ∷ more) =
    let enc' = feed_bytes enc buf in
    let rest = read_all enc' more in
    if length buf == 0 then enc else if ltb (length buf) 128 then enc' else rest

-- The end of `dm_encoder_poll`.
unfoldable pub take_action : DmEncoder → DmNavAction × DmEncoder
take_action enc =
    if enc.tail == enc.head
    then (nav_none, enc)
    else (enc.q enc.tail, record enc { tail = next_index enc.tail })

unfoldable pub dm_encoder_poll : DmEncoder → List (List ℕ) → DmNavAction × DmEncoder
unfolding read_all take_action
dm_encoder_poll enc reads = take_action (read_all enc reads)

-- `dm_encoder_open`, with the result of `calloc` in the place of the device.
abbrev pub opened_encoder : DmEncoder
opened_encoder = record { q = λ i. nav_none; head = 0; tail = 0; tok = [] }
