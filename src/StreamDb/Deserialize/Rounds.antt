-- ===== src/StreamDb/Deserialize/Rounds.antt =====
-- The rounds of `deserialize_trie` (src/db/streamdb.c) over the children of one node.
use mathlib.Core.List.{append_assoc}
use mathlib.Core.Path.{ap₂}
use de_mo_d.Prelude.{ℕ, zero, suc, ◌+◌, ◌-◌, ◌≤◌, ◌==◌, if◌then◌else◌, arith, length, loop, gather}
use de_mo_d.Prelude.{◌≡◌, refl, sym, ap, ◌∙◌, inl, inr, true, false, Bool-cases}
use de_mo_d.Prelude.{Option, some, List, ◌∷◌, ◌++◌}
use de_mo_d.StreamDb.Types.{Trie, null, node, empty_node, Counts, malloc}
use de_mo_d.StreamDb.Find.{not_null}
use de_mo_d.StreamDb.Serialize.{count_children, header_chunks}
use de_mo_d.StreamDb.Serialize.Encoding.{joined, child_part, encode, total, Fits}
use de_mo_d.StreamDb.Input.{Load, fread, fread_number}
use de_mo_d.StreamDb.Input.Numbers.{file}
use de_mo_d.StreamDb.Deserialize.{DeserializeEntry, attach}
use de_mo_d.StreamDb.Deserialize.{
  make_node, read_node, place, load_child, load_data, load_byte, load_round, load_loop, Progress,
  reading, pop_entry,
}
use de_mo_d.StreamDb.Deserialize.Loading.{
  GoodEntry, Storable, counted, own_counts, add_node, data_of, upto, upto_all, upto_null,
  upto_child, null_of, count_children_le, read_node-header,
}

abbrev pub loads_child : Trie → ℕ → ℕ
loads_child t n = if not_null t then n else 0

-- The rounds for a node: one for itself, those of its children, one to take its entry off.
unfoldable pub loads : Trie → ℕ
loads null = 0
loads (node ch v s e) =
    if count_children 256 0 ch == 0
    then 1
    else suc (total 256 0 (λ i. loads_child (ch i) (loads (ch i))) + 1)

abbrev pub resume : ℕ → Progress × Load → Option (Option Trie × Load)
resume n r = load_loop n r.0 r.1

-- An entry with one more child to come.
abbrev pub more : DeserializeEntry → DeserializeEntry
more f = record f { remaining_children = suc f.remaining_children }

abbrev pub Loads : Trie → Type 0
Loads t =
    (d n i : ℕ) (f : DeserializeEntry) (fs : List DeserializeEntry) (rest : List ℕ) (c : Counts)
    → not_null t ≡ true
    → Fits d t
    → Storable t
    → length fs + suc d ≤ 4096
    → load_loop (loads t + n) (reading (more f ∷ fs)) (file (i ∷ (encode t ++ rest)) c)
      ≡ load_loop n (reading (attach i t f ∷ fs)) (file rest (counted t c))

pub make_node_lem :
    (input : List ℕ) (c : Counts) → make_node (file input c) ≡ (some tt, file input (add_node c))
unfolding make_node malloc
make_node_lem input c = refl

fread_byte :
    (i : ℕ) (input : List ℕ) (c : Counts)
    → fread_number 1 (file (i ∷ input) c) ≡ (some i, file input c)
unfolding fread_number fread
fread_byte i input c = ground arith

counted_null : (c : Counts) → counted null c ≡ c
unfolding counted
counted_null c = refl

-- A round reads the child's data.
pub load_round-node :
    (ch : ℕ → Trie) (v : Option (List ℕ)) (s e i : ℕ) (f : DeserializeEntry)
    (fs : List DeserializeEntry) (rest : List ℕ) (c : Counts)
    → GoodEntry v s e
    → load_round (more f) fs (file (i ∷ (joined (header_chunks (node ch v s e)) ++ rest)) c)
      ≡ place i
          (data_of v s e (count_children 256 0 ch))
          (attach i empty_node f)
          fs
          (file rest (own_counts v s (add_node c)))
unfolding load_round header_chunks load_child load_byte load_data
load_round-node ch v s e i f fs rest c good =
    let header = joined (header_chunks (node ch v s e)) in
    ap
      (λ b.
        if b
        then (pop_entry (more f) fs, file (i ∷ (header ++ rest)) c)
        else load_byte (fread_number 1 (file (i ∷ (header ++ rest)) c)) (more f) fs)
      {x = suc f.remaining_children == 0} {y = false} (ground arith)
    ∙ ap (λ r. load_byte r (more f) fs) (fread_byte i (header ++ rest) c)
    ∙ ap (λ r. load_child r i (more f) fs) (make_node_lem (header ++ rest) c)
    ∙ ap
        (λ k.
          load_data (read_node (file (header ++ rest) (add_node c))) i
            (record (attach i empty_node f) { remaining_children = k }) fs)
        {x = suc f.remaining_children - 1} {y = f.remaining_children} (omega arith)
    ∙ ap (λ r. load_data r i (attach i empty_node f) fs)
        (read_node-header v s e (count_children 256 0 ch) rest (add_node c) good
          (omega (arith, count_children_le 256 0 ch)))

module _ (ch : ℕ → Trie) (v : Option (List ℕ)) (s e slot d : ℕ) (fs : List DeserializeEntry) where
  abbrev pub parts : ℕ → ℕ → List ℕ
  parts m j = gather m j (λ i. child_part i (ch i) (encode (ch i)))

  abbrev pub rounds_left : ℕ → ℕ → ℕ
  rounds_left m j = total m j (λ i. loads_child (ch i) (loads (ch i)))

  abbrev pub counts_after : ℕ → ℕ → Counts → Counts
  counts_after m j c = loop m j (λ i d. counted (ch i) d) c

  -- The entry of the node when the children below `j` are read.
  abbrev pub open_at : ℕ → ℕ → DeserializeEntry
  open_at j r = record {
    slot = slot;
    children = upto j ch;
    value = v;
    value_size = s;
    is_end = e;
    remaining_children = r;
  }

  pub scan :
      (m j k n : ℕ) (rest : List ℕ) (c : Counts)
      → ((i : ℕ) → Loads (ch i))
      → ((i : ℕ) → Fits d (ch i))
      → ((i : ℕ) → Storable (ch i))
      → length fs + suc d ≤ 4096
      → j + m ≡ 256
      → k ≡ rounds_left m j + n
      → load_loop k (reading (open_at j (count_children m j ch) ∷ fs)) (file (parts m j ++ rest) c)
        ≡ load_loop n (reading (open_at 256 0 ∷ fs)) (file rest (counts_after m j c))
  unfolding count_children gather loop
  scan zero j k n rest c ih fits good room at count =
      ap₂ (λ i r. load_loop r (reading (open_at i 0 ∷ fs)) (file rest c)) (omega arith)
        (omega arith)
  scan (suc m) j k n rest c ih fits good room at count = elim (Bool-cases (not_null (ch j))) [
    | inr missing ↦ rw missing (
        ap₂
          (λ (u : ℕ → Trie) r.
            load_loop k
              (reading (record (open_at j 0) { children = u; remaining_children = r } ∷ fs))
              (file (parts m (suc j) ++ rest) c))
          (upto_null ch j missing) (omega arith)
        ∙ scan m (suc j) k n rest c ih fits good room (omega arith)
            (omega (arith, ap (λ b. if b then loads (ch j) else 0) missing))
        ∙ ap
            (λ x. load_loop n (reading (open_at 256 0 ∷ fs)) (file rest (counts_after m (suc j) x)))
            (sym (ap (λ t. counted t c) (null_of (ch j) missing) ∙ counted_null c)))
    | inl there ↦ rw there (
        ap₂ (λ r input. load_loop k (reading (open_at j r ∷ fs)) (file (j ∷ input) c))
          {y = suc (count_children m (suc j) ch)} (omega arith)
          (append_assoc (encode (ch j)) (parts m (suc j)) rest)
        ∙ ap
            (λ r.
              load_loop r (reading (more (open_at j (count_children m (suc j) ch)) ∷ fs))
                (file (j ∷ (encode (ch j) ++ (parts m (suc j) ++ rest))) c))
            {y = loads (ch j) + (rounds_left m (suc j) + n)}
            (omega (arith, ap (λ b. if b then loads (ch j) else 0) there))
        ∙ ih j d (rounds_left m (suc j) + n) j (open_at j (count_children m (suc j) ch)) fs
            (parts m (suc j) ++ rest) c there (fits j) (good j) room
        ∙ ap
            (λ (u : ℕ → Trie).
              load_loop (rounds_left m (suc j) + n)
                (reading (record (open_at j (count_children m (suc j) ch)) { children = u } ∷ fs))
                (file (parts m (suc j) ++ rest) (counted (ch j) c)))
            (upto_child ch j)
        ∙ scan m (suc j) (rounds_left m (suc j) + n) n rest (counted (ch j) c) ih fits good room
            (omega arith) refl)
  ]

  -- The last round of the node takes its entry off.
  pub closed :
      (n : ℕ) (g : DeserializeEntry) (rest : List ℕ) (c : Counts)
      → ((i : ℕ) → 256 ≤ i → ch i ≡ null)
      → load_loop (suc n) (reading (open_at 256 0 ∷ g ∷ fs)) (file rest c)
        ≡ load_loop n (reading (attach slot (node ch v s e) g ∷ fs)) (file rest c)
  unfolding load_loop load_round pop_entry
  closed n g rest c only =
      ap (λ (u : ℕ → Trie). load_loop n (reading (attach slot (node u v s e) g ∷ fs)) (file rest c))
        (upto_all ch only)
