-- ===== src/StreamDb/Deserialize.antt =====
-- `deserialize_trie` and `free_node_recursive` of src/db/streamdb.c.
pub mod Total
pub mod Loading
pub mod Rounds
pub mod RoundTrip
pub mod Counting
use mathlib.Core.Option
use de_mo_d.Prelude.{ℕ, zero, suc, ◌+◌, ◌-◌, ◌*◌, ◌^◌, ◌==◌, ltb, leb, if◌then◌else◌, add64, loop}
use de_mo_d.Prelude.{
  Bool, true, false, not, ◌&&◌, Option, none, some, List, [], ◌∷◌, length, take, drop,
}
use de_mo_d.StreamDb.Types.{
  Trie, null, node, set_child, empty_node, Counts, Mem, malloc, create_node,
}
use de_mo_d.StreamDb.Find.{not_null}
use de_mo_d.StreamDb.Delete.{free_node}
use de_mo_d.StreamDb.Input.{Load, M, ◌>>=◌, ◌>>◌, pure, fread, fread_number, le_value}
use de_mo_d.StreamDb.Serialize.{serialize_stack_size}

unfoldable pub allocate : M (Unit {0})
unfolding malloc
allocate l = let (fine, m) = malloc l.mem in (if fine then some tt else none, record l { mem = m })

-- `create_node(db)`: an empty node, or a null pointer.
unfoldable pub make_node : M (Unit {0})
unfolding create_node not_null
make_node l =
    let (t, c, m) = create_node l.counts l.mem in
    (if not_null t then some tt else none, record l { counts = c; mem = m })

-- `db->key_count++` and `db->total_size += ...`
abbrev pub add_key : ℕ → Counts → Counts
add_key s c = record c { key_count = add64 c.key_count 1; total_size = add64 c.total_size s }

abbrev pub count_key : ℕ → M (Unit {0})
count_key s l = (some tt, record l { counts = add_key s l.counts })

-- What the file says of a node.
pub record NodeData : Type 0 where
  pub value : Option (List ℕ)
  pub value_size : ℕ
  pub is_end : ℕ
  pub child_count : ℕ

-- A node as `calloc` leaves it.
abbrev no_data : NodeData
no_data = record { value = none; value_size = 0; is_end = 0; child_count = 0 }

unfoldable pub read_value : ℕ → ℕ → M (Option (List ℕ))
unfolding allocate fread
read_value e s =
    if not (e == 0) && ltb 0 s
    then (do allocate; bs ← fread s; count_key s; pure (some bs))
    else pure none

-- "Read child data"
unfoldable pub read_node : M NodeData
unfolding fread_number read_value
read_node = do
  e ← fread_number 4
  s ← fread_number 8
  v ← read_value e s
  n ← fread_number 4
  pure (record { value = v; value_size = s; is_end = e; child_count = n })

-- `child_count > 0` for the `int` with these four bytes.
abbrev pub positive : ℕ → Bool
positive n = ltb 0 n && ltb n (2 ^ 31)

-- `DeserializeEntry`: its node in parts, and the byte under which it hangs in the node of the entry
-- below it.
pub record DeserializeEntry : Type 0 where
  pub slot : ℕ
  pub children : ℕ → Trie
  pub value : Option (List ℕ)
  pub value_size : ℕ
  pub is_end : ℕ
  pub remaining_children : ℕ

abbrev pub entry_of : ℕ → NodeData → DeserializeEntry
entry_of slot d = record {
  slot = slot;
  children = λ _. null;
  value = d.value;
  value_size = d.value_size;
  is_end = d.is_end;
  remaining_children = d.child_count;
}

-- `entry->node`, less the open child.
abbrev pub node_of : DeserializeEntry → Trie
node_of f = node f.children f.value f.value_size f.is_end

-- `entry->node->children[i] = t`
abbrev pub attach : ℕ → Trie → DeserializeEntry → DeserializeEntry
attach i t f = record f { children = set_child f.children i t }

-- The tree that hangs from `root`, where `t` is open under byte `i` of the top entry.
unfoldable pub root_over : Trie → ℕ → List DeserializeEntry → Trie
root_over t i [] = t
root_over t i (f ∷ fs) = root_over (node_of (attach i t f)) f.slot fs

unfoldable pub root_of : List DeserializeEntry → Trie
unfolding root_over
root_of [] = null
root_of (f ∷ fs) = root_over (node_of f) f.slot fs

-- `free_node_recursive`, by its recursion. Its stack changes the order, and the order changes
-- nothing: each node takes one from `node_count`.
unfoldable pub free_node_recursive : Trie → Counts → Counts
unfolding free_node
free_node_recursive null c = c
free_node_recursive (node ch v s e) c =
    free_node (loop 256 0 (λ i d. free_node_recursive (ch i) d) c)

-- Where the loop stands.
pub data Progress : Type 0 where
  reading : List DeserializeEntry → Progress
  loaded : Trie → Progress
  failed : Progress

-- `fail:`
unfoldable pub give_up : List DeserializeEntry → Load → Progress × Load
unfolding free_node_recursive root_of
give_up stack l = (failed, record l { counts = free_node_recursive (root_of stack) l.counts })

-- `stack_top--`
unfoldable pub pop_entry : DeserializeEntry → List DeserializeEntry → Progress
pop_entry f [] = loaded (node_of f)
pop_entry f (g ∷ fs) = reading (attach f.slot (node_of f) g ∷ fs)

-- The end of a round: the child with its data, and its own entry if it has children.
unfoldable pub place :
    ℕ → NodeData → DeserializeEntry → List DeserializeEntry → Load → Progress × Load
unfolding give_up
place byte d f fs l =
    if positive d.child_count
    then (if leb serialize_stack_size (suc (length fs))
        then give_up (attach byte (node_of (entry_of byte d)) f ∷ fs) l
        else (reading (entry_of byte d ∷ f ∷ fs), l))
    else (reading (attach byte (node_of (entry_of byte d)) f ∷ fs), l)

-- "Read child data"; the child already hangs from its parent.
unfoldable pub load_data :
    Option NodeData × Load → ℕ → DeserializeEntry → List DeserializeEntry → Progress × Load
unfolding place give_up
load_data (none, l) byte f fs = give_up (f ∷ fs) l
load_data (some d, l) byte f fs = place byte d f fs l

-- "Create child node"
unfoldable pub load_child :
    Option (Unit {0}) × Load → ℕ → DeserializeEntry → List DeserializeEntry → Progress × Load
unfolding read_node load_data give_up
load_child (none, l) byte f fs = give_up (f ∷ fs) l
load_child (some made, l) byte f fs =
    load_data (read_node l) byte
      (record (attach byte empty_node f) { remaining_children = f.remaining_children - 1 }) fs

-- "Read child index"
unfoldable pub load_byte :
    Option ℕ × Load → DeserializeEntry → List DeserializeEntry → Progress × Load
unfolding make_node load_child give_up
load_byte (none, l) f fs = give_up (f ∷ fs) l
load_byte (some i, l) f fs = load_child (make_node l) i f fs

-- A round of `while (stack_top > 0)`.
unfoldable pub load_round : DeserializeEntry → List DeserializeEntry → Load → Progress × Load
unfolding fread_number load_byte pop_entry
load_round f fs l =
    if f.remaining_children == 0 then (pop_entry f fs, l) else load_byte (fread_number 1 l) f fs

-- The loop, with `none` for rounds that run out.
unfoldable pub load_loop : ℕ → Progress → Load → Option (Option Trie × Load)
load_loop n (loaded t) l = some (some t, l)
load_loop n failed l = some (none, l)
load_loop n (reading []) l = some (none, l)
load_loop zero (reading (f ∷ fs)) l = none
load_loop (suc n) (reading (f ∷ fs)) l = let (p, l') = load_round f fs l in load_loop n p l'

-- The root, and its entry if it has children.
unfoldable pub root_data : Option NodeData × Load → Progress × Load
unfolding give_up
root_data (none, l) = give_up (entry_of 0 no_data ∷ []) l
root_data (some d, l) =
    if positive d.child_count
    then (reading (entry_of 0 d ∷ []), l)
    else (loaded (node_of (entry_of 0 d)), l)

unfoldable pub load_root : Option (Unit {0}) × Load → Progress × Load
unfolding read_node root_data
load_root (none, l) = (failed, l)
load_root (some made, l) = root_data (read_node l)

-- A round takes a byte of the file or an entry of the stack, and a byte adds an entry at most.
unfoldable pub rounds_for : List ℕ → ℕ
rounds_for input = 2 * length input + 1

-- `deserialize_trie`: the trie, or a null pointer.
unfoldable pub deserialize_trie : Load → Option (Option Trie × Load)
unfolding malloc make_node load_root load_loop rounds_for
deserialize_trie l =
    let (fine, m) = malloc l.mem in
    let l1 : Load = record l { mem = m } in
    let (p, l2) = load_root (make_node l1) in
    if fine then load_loop (rounds_for l.input) p l2 else some (none, l1)
