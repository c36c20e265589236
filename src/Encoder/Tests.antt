-- ===== src/Encoder/Tests.antt =====
-- Runs of the parser of src/input/serial_encoder.c.
use de_mo_d.Ring.{entries_empty}
use de_mo_d.Prelude.{length, ap, arith, ◌≡◌, refl, List, [], ◌∷◌, ◌++◌}
use de_mo_d.Encoder.{
  chars, nav_none, nav_next, nav_back, dm_nav_from_name, word_action, symbol_action, matches, ieq,
  feed_bytes, opened_encoder,
}
use de_mo_d.Encoder.Token.{queued, IsRing, kept}
use de_mo_d.Encoder.Words.{Item, word, symbol, written, actions, feed_bytes-written}

longpress_is_back : dm_nav_from_name (chars "LongPress") ≡ nav_back
unfolding dm_nav_from_name word_action matches ieq
longpress_is_back = refl

abbrev three_items : List Item
three_items = word (chars "CW") 10 ∷ symbol 126 ∷ word (chars "hello") 32 ∷ []

two_actions : actions three_items ≡ nav_next ∷ nav_back ∷ []
unfolding actions kept dm_nav_from_name symbol_action word_action matches ieq
two_actions = refl

nothing_waits : queued opened_encoder ≡ []
unfolding queued
nothing_waits = entries_empty (λ i. nav_none) 0 (omega arith)

feed_bytes-written_example :
    (queued (feed_bytes opened_encoder (written three_items))
      ≡ queued opened_encoder ++ actions three_items)
    × ((feed_bytes opened_encoder (written three_items)).tok ≡ [])
    × IsRing (feed_bytes opened_encoder (written three_items))
feed_bytes-written_example =
    feed_bytes-written opened_encoder three_items (omega arith, omega arith) refl
      (
        (omega arith, omega arith, (refl, (refl, tt)), refl),
        (refl, ((omega arith, omega arith, (refl, (refl, (refl, (refl, (refl, tt))))), refl), tt)),
      )
      (omega (arith, ap length nothing_waits, ap length two_actions))
