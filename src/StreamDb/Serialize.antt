-- ===== src/StreamDb/Serialize.antt =====
-- `serialize_trie` of src/db/streamdb.c. Numbers are written as a
-- little-endian machine stores them: an `int` in 4 bytes, a `size_t` in 8.
pub mod Encoding
pub mod Ends
use de_mo_d.Prelude.{ℕ, zero, suc, ◌+◌, ◌-◌, ◌/◌, ◌%◌, ◌==◌, leb, if◌then◌else◌, length, take}
use de_mo_d.Prelude.{Bool, true, false, not, Option, none, some, List, [], ◌∷◌, ◌++◌}
use mathlib.Core.Option
use de_mo_d.StreamDb.Types.{Trie, null, node, Mem, malloc}
use de_mo_d.StreamDb.Find.{not_null}

unfoldable pub le_bytes : ℕ → ℕ → List ℕ
le_bytes zero x = []
le_bytes (suc n) x = x % 256 ∷ le_bytes n (x / 256)

-- An open file: what was written, and the outcomes of the coming calls of `fwrite`. After the end
-- of the list all calls succeed.
pub record Out : Type 0 where
  pub written : List ℕ
  pub outcomes : List Bool

unfoldable pub fwrite : List ℕ → Out → Bool × Out
fwrite bs o = elim o.outcomes [
  | [] ↦ (true, record o { written = o.written ++ bs })
  | fine ∷ rest ↦
      if fine
      then (true, record { written = o.written ++ bs; outcomes = rest })
      else (false, record o { outcomes = rest })
]

-- Writes in order, until one fails.
unfoldable pub write_each : List (List ℕ) → Out → Bool × Out
unfolding fwrite
write_each [] o = (true, o)
write_each (bs ∷ more) o =
    let (fine, o') = fwrite bs o in
    let rest = write_each more o' in if fine then rest else (false, o')

-- "Count and write child count": `n` rounds from `i` on.
unfoldable pub count_children : ℕ → ℕ → (ℕ → Trie) → ℕ
unfolding not_null
count_children zero i ch = 0
count_children (suc n) i ch = (if not_null (ch i) then 1 else 0) + count_children n (suc i) ch

-- `if (node->is_end && node->value) fwrite(node->value, 1, node->value_size, fp)`
unfoldable pub value_chunk : Option (List ℕ) → ℕ → ℕ → List (List ℕ)
value_chunk none s e = []
value_chunk (some v) s e = if e == 0 then [] else take s v ∷ []

-- "Write node header", with the child count.
unfoldable pub header_of : Option (List ℕ) → ℕ → ℕ → ℕ → List (List ℕ)
unfolding value_chunk
header_of v s e n = le_bytes 4 e ∷ le_bytes 8 s ∷ (value_chunk v s e ++ (le_bytes 4 n ∷ []))

unfoldable pub header_chunks : Trie → List (List ℕ)
header_chunks null = []
header_chunks (node ch v s e) = header_of v s e (count_children 256 0 ch)

-- `SerializeStackEntry`; `none` is the index -1.
pub record SerializeStackEntry : Type 0 where
  pub node_at : Trie
  pub child_index : Option ℕ

-- "Find next child to process": the first from `i` on, `n` rounds.
unfoldable pub next_child : ℕ → ℕ → Trie → Option ℕ
unfolding not_null
next_child n i null = none
next_child zero i (node ch v s e) = none
next_child (suc n) i (node ch v s e) =
    let later = next_child n (suc i) (node ch v s e) in if not_null (ch i) then some i else later

unfoldable pub child_of : Trie → ℕ → Trie
child_of null i = null
child_of (node ch v s e) i = ch i

-- SERIALIZE_STACK_SIZE
abbrev pub serialize_stack_size : ℕ
serialize_stack_size = 4096

-- What a round does with the next child: "Push child onto stack", or "pop this node".
unfoldable pub push_child :
    Trie → List SerializeStackEntry → Out → Option ℕ → Bool × List SerializeStackEntry × Out
push_child t rest o none = (true, rest, o)
push_child t rest o (some j) =
    let (fine, o') = fwrite (j ∷ []) o in
    let parent : SerializeStackEntry = record { node_at = t; child_index = some (suc j) } in
    let child : SerializeStackEntry = record { node_at = child_of t j; child_index = none } in
    if not fine
    then (false, parent ∷ rest, o')
    else if leb serialize_stack_size (suc (length rest))
    then (false, parent ∷ rest, o')
    else (true, child ∷ parent ∷ rest, o')

-- The second half of a round: from the entry with index `i`, over a stack `rest`.
unfoldable pub serialize_child :
    Trie → ℕ → List SerializeStackEntry → Out → Bool × List SerializeStackEntry × Out
unfolding push_child next_child
serialize_child t i rest o = push_child t rest o (next_child (256 - i) i t)

-- A round of `while (stack_top > 0 && success)`: the success flag, the stack (its top first), the
-- file.
unfoldable pub serialize_round :
    List SerializeStackEntry → Out → Bool × List SerializeStackEntry × Out
serialize_round [] o = (true, [], o)
serialize_round (entry ∷ rest) o = elim entry.child_index [
  | some i ↦ serialize_child entry.node_at i rest o
  | none ↦
      (let (fine, o') = write_each (header_chunks entry.node_at) o in
        if fine then serialize_child entry.node_at 0 rest o' else (false, entry ∷ rest, o'))
]

-- The loop, with `none` for rounds that run out.
unfoldable pub serialize_loop : ℕ → Bool → List SerializeStackEntry → Out → Option (Bool × Out)
serialize_loop n false stack o = some (false, o)
serialize_loop n true [] o = some (true, o)
serialize_loop zero true (entry ∷ rest) o = none
serialize_loop (suc n) true (entry ∷ rest) o =
    let (success, stack, o') = serialize_round (entry ∷ rest) o in serialize_loop n success stack o'

-- `serialize_trie` in at most `n` rounds: the success flag, the file, the allocator.
unfoldable pub serialize_trie : ℕ → Trie → Out → Mem → Option (Bool × Out × Mem)
unfolding malloc serialize_loop
serialize_trie n null o m = some (false, o, m)
serialize_trie n (node ch v s e) o m =
    let (fine, m') = malloc m in
    let root : SerializeStackEntry = record { node_at = node ch v s e; child_index = none } in
    if fine
    then Option.map (λ r. (r.0, r.1, m')) (serialize_loop n true (root ∷ []) o)
    else some (false, o, m')
