-- ===== src/StreamDb/Deserialize/Total.antt =====
-- `deserialize_trie` (src/db/streamdb.c) ends on every file.
use de_mo_d.Prelude.{
  ℕ, zero, suc, ◌+◌, ◌*◌, ◌-◌, ◌≤◌, ◌<◌, ◌==◌, arith, length, drop, ltb, not, ◌&&◌, Option, none,
  some, List, [], ◌∷◌, ◌≡◌, refl, sym, Bool-cases, inl, inr, if_true, if_false,
}
use mathlib.Core.Path.{subst}
use de_mo_d.StreamDb.Types.{Trie, malloc}
use de_mo_d.StreamDb.Input.{Load, M, ◌>>=◌, ◌>>◌, pure, continue, le_value, fread, fread_number}
use de_mo_d.StreamDb.Deserialize.{
  NodeData, Progress, reading, loaded, failed, DeserializeEntry, load_byte, load_round, load_loop,
  load_child, load_data, root_data, place, give_up, pop_entry, read_node, read_value, make_node,
  allocate, load_root, deserialize_trie, rounds_for, count_key,
}

-- No step puts bytes back.
abbrev Shrinks : {A : Type 0} → M A → Type 0
Shrinks m = (l : Load) → length (m l).1.input ≤ length l.input

length-continue :
    {A B : Type 0} (r : Option A × Load) (f : A → M B) (k : ℕ)
    → length r.1.input ≤ k
    → ((a : A) → Shrinks (f a))
    → length (continue r f).1.input ≤ k
length-continue (none, l) f k h hf = h
length-continue (some a, l) f k h hf = omega (arith, hf a l)

Shrinks-bind :
    {A B : Type 0} (m : M A) (f : A → M B)
    → Shrinks m
    → ((a : A) → Shrinks (f a))
    → Shrinks (m >>= f)
Shrinks-bind m f hm hf l = length-continue (m l) f (length l.input) (hm l) hf

Shrinks-pure : {A : Type 0} (a : A) → Shrinks (pure a)
Shrinks-pure a l = omega arith

length-drop : {A : Type 0} (n : ℕ) (xs : List A) → length (drop n xs) ≡ length xs - n
length-drop zero xs = omega arith
length-drop (suc n) [] = omega arith
length-drop (suc n) (x ∷ xs) = omega (arith, length-drop n xs)

fread-Shrinks : (n : ℕ) → Shrinks (fread n)
unfolding fread
fread-Shrinks n l = ground (arith, length-drop n l.input)

fread_number-Shrinks : (n : ℕ) → Shrinks (fread_number n)
unfolding fread_number
fread_number-Shrinks n =
    Shrinks-bind (fread n) (λ bs. pure (le_value bs)) (fread-Shrinks n)
      (λ bs. Shrinks-pure (le_value bs))

make_node-Shrinks : Shrinks make_node
unfolding make_node
make_node-Shrinks l = omega arith

allocate-Shrinks : Shrinks allocate
unfolding allocate
allocate-Shrinks l = omega arith

abbrev if_key : ℕ → ℕ → M (Option (List ℕ))
if_key e s = do allocate; bs ← fread s; count_key s; pure (some bs)

read_value-Shrinks : (e s : ℕ) → Shrinks (read_value e s)
unfolding read_value
read_value-Shrinks e s = elim (Bool-cases (not (e == 0) && ltb 0 s)) [
  | inl there ↦ subst Shrinks (sym (if_true (if_key e s) (pure {A = Option (List ℕ)} none) there)) (
      Shrinks-bind allocate (λ _. fread s >>= λ bs. count_key s >> pure (some bs)) allocate-Shrinks
        λ _.
          Shrinks-bind (fread s) (λ bs. count_key s >> pure (some bs)) (fread-Shrinks s)
            λ bs l. omega arith)
  | inr no_key ↦
      subst Shrinks (sym (if_false (if_key e s) (pure {A = Option (List ℕ)} none) no_key))
        (Shrinks-pure {A = Option (List ℕ)} none)
]

abbrev data_of : ℕ → ℕ → Option (List ℕ) → ℕ → NodeData
data_of e s v n = record { value = v; value_size = s; is_end = e; child_count = n }

read_node-Shrinks : Shrinks read_node
unfolding read_node
read_node-Shrinks = Shrinks-bind (fread_number 4) _ (fread_number-Shrinks 4) λ e.
    Shrinks-bind (fread_number 8) _ (fread_number-Shrinks 8) λ s.
      Shrinks-bind (read_value e s) _ (read_value-Shrinks e s) λ v.
        Shrinks-bind (fread_number 4) _ (fread_number-Shrinks 4)
          (λ n. Shrinks-pure (data_of e s v n))

-- The bytes and entries that are left.
abbrev left : Progress × Load → ℕ
left (reading fs, l) = 2 * length l.input + length fs
left (loaded t, l) = 0
left (failed, l) = 0

place-left :
    (byte : ℕ) (d : NodeData) (f : DeserializeEntry) (fs : List DeserializeEntry) (l : Load)
    → left (place byte d f fs l) ≤ 2 * length l.input + length fs + 2
unfolding place give_up
place-left byte d f fs l = ground arith

load_data-left :
    (r : Option NodeData × Load) (byte : ℕ) (f : DeserializeEntry) (fs : List DeserializeEntry)
    → left (load_data r byte f fs) ≤ 2 * length r.1.input + length fs + 2
unfolding load_data give_up
load_data-left (none, l) byte f fs = omega arith
load_data-left (some d, l) byte f fs = place-left byte d f fs l

load_child-left :
    (r : Option (Unit {0}) × Load) (byte : ℕ) (f : DeserializeEntry) (fs : List DeserializeEntry)
    → left (load_child r byte f fs) ≤ 2 * length r.1.input + length fs + 2
unfolding load_child give_up
load_child-left (none, l) byte f fs = omega arith
load_child-left (some made, l) byte f fs =
    omega (arith, read_node-Shrinks l, load_data-left (read_node l) byte _ fs)

-- The byte of a round is gone from the file.
fread_number-one :
    (l : Load) (i : ℕ)
    → (fread_number 1 l).0 ≡ some i
    → length (fread_number 1 l).1.input + 1 ≤ length l.input
unfolding fread_number fread
fread_number-one l i h = ground (arith, length-drop 1 l.input)

pop_entry-left :
    (f : DeserializeEntry) (fs : List DeserializeEntry) (l : Load)
    → left (pop_entry f fs, l) ≤ 2 * length l.input + length fs
unfolding pop_entry
pop_entry-left f [] l = omega arith
pop_entry-left f (g ∷ fs) l = omega arith

load_byte-left :
    (r : Option ℕ × Load) (f : DeserializeEntry) (fs : List DeserializeEntry) (k : ℕ)
    → ((i : ℕ) → r.0 ≡ some i → length r.1.input + 1 ≤ k)
    → left (load_byte r f fs) < 2 * k + suc (length fs)
unfolding load_byte give_up
load_byte-left (none, l) f fs k h = omega arith
load_byte-left (some i, l) f fs k h =
    omega (arith, load_child-left (make_node l) i f fs, make_node-Shrinks l, h i refl)

load_round-left :
    (f : DeserializeEntry) (fs : List DeserializeEntry) (l : Load)
    → left (load_round f fs l) < 2 * length l.input + suc (length fs)
unfolding load_round
load_round-left f fs l = elim (Bool-cases (f.remaining_children == 0)) [
  | inl done ↦ rw done (omega (arith, pop_entry-left f fs l))
  | inr more ↦
      rw more (load_byte-left (fread_number 1 l) f fs (length l.input) (fread_number-one l))
]

load_loop_total :
    (n : ℕ) (p : Progress) (l : Load)
    → left (p, l) ≤ n
    → (r : Option Trie × Load) × (load_loop n p l ≡ some r)
unfolding load_loop
load_loop_total n (loaded t) l h = ((some t, l), refl)
load_loop_total n failed l h = ((none, l), refl)
load_loop_total n (reading []) l h = ((none, l), refl)
load_loop_total zero (reading (f ∷ fs)) l h = absurd (omega arith)
load_loop_total (suc n) (reading (f ∷ fs)) l h =
    let (p, l') = load_round f fs l in
    load_loop_total n p l' (omega (arith, load_round-left f fs l))

root_data-left : (r : Option NodeData × Load) → left (root_data r) ≤ rounds_for r.1.input
unfolding root_data give_up rounds_for
root_data-left (none, l) = omega arith
root_data-left (some d, l) = ground arith

load_root-left : (r : Option (Unit {0}) × Load) → left (load_root r) ≤ rounds_for r.1.input
unfolding load_root rounds_for
load_root-left (none, l) = omega arith
load_root-left (some made, l) = omega (arith, root_data-left (read_node l), read_node-Shrinks l)

-- `deserialize_trie` ends on every file, with every sequence of allocation failures.
pub deserialize_trie_total : (l : Load) → (r : Option Trie × Load) × (deserialize_trie l ≡ some r)
unfolding deserialize_trie rounds_for
deserialize_trie_total l =
    let l1 : Load = record l { mem = (malloc l.mem).1 } in
    elim (Bool-cases (malloc l.mem).0) [
      | inl fine ↦ rw fine (
          load_loop_total (rounds_for l.input) (load_root (make_node l1)).0
            (load_root (make_node l1)).1
            (omega (arith, load_root-left (make_node l1), make_node-Shrinks l1)))
      | inr refused ↦ rw refused ((none, l1), refl)
    ]
