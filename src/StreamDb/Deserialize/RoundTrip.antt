-- ===== src/StreamDb/Deserialize/RoundTrip.antt =====
-- `deserialize_trie` (src/db/streamdb.c) reads back the trie that `serialize_trie` wrote.
use mathlib.Core.List.{append_assoc}
use mathlib.Core.Path.{ap₂, subst}
use de_mo_d.Prelude.{ℕ, zero, suc, ◌+◌, ◌≤◌, ◌<◌, ◌==◌, leb, arith, length, loop, gather}
use de_mo_d.Prelude.{
  ◌≡◌, refl, sym, ap, ◌∙◌, inl, inr, true, false, Bool-cases, if_true, if_false, ==→eq,
}
use de_mo_d.Prelude.{Option, some, List, [], ◌∷◌, ◌++◌}
use de_mo_d.StreamDb.Types.{Trie, null, node, empty_node, Counts, malloc}
use de_mo_d.StreamDb.Find.{not_null}
use de_mo_d.StreamDb.Serialize.{count_children, header_chunks, serialize_stack_size}
use de_mo_d.StreamDb.Serialize.Encoding.{joined, child_part, encode, total, Fits}
use de_mo_d.StreamDb.Input.{Load}
use de_mo_d.StreamDb.Input.Numbers.{file}
use de_mo_d.StreamDb.Deserialize.{DeserializeEntry, attach, entry_of, positive}
use de_mo_d.StreamDb.Deserialize.{
  make_node, read_node, load_root, root_data, rounds_for, deserialize_trie, place, load_round,
  load_loop, Progress, reading, loaded, failed, pop_entry,
}
use de_mo_d.StreamDb.Deserialize.Total.{deserialize_trie_total}
use de_mo_d.StreamDb.Deserialize.Loading.{
  no_children, Storable, counted, own_counts, add_node, data_of, upto_all, upto_none,
  set_child-set_child, count_children_le, read_node-header,
}
use de_mo_d.StreamDb.Deserialize.Rounds.{
  loads, loads_child, Loads, more, resume, load_round-node, parts, rounds_left, counts_after, scan,
  closed, make_node_lem,
}

gather_none : (m j : ℕ) → gather m j (λ i. child_part i null (encode null)) ≡ []
unfolding gather not_null
gather_none zero j = refl
gather_none (suc m) j = gather_none m (suc j)

loop_none : (m j : ℕ) (c : Counts) → loop m j (λ i d. counted null d) c ≡ c
unfolding loop counted
loop_none zero j c = refl
loop_none (suc m) j c = loop_none m (suc j) c

module _ (ch : ℕ → Trie) (v : Option (List ℕ)) (s e : ℕ) (none_there : count_children 256 0 ch ≡ 0)
    (only : (i : ℕ) → 256 ≤ i → ch i ≡ null) where
  leaf_parts : parts ch v s e 0 0 [] 256 0 ≡ []
  leaf_parts =
      ap (λ (u : ℕ → Trie). gather 256 0 (λ i. child_part i (u i) (encode (u i))))
        (no_children ch none_there only)
      ∙ gather_none 256 0

  leaf_counts : (c : Counts) → counts_after ch v s e 0 0 [] 256 0 c ≡ c
  leaf_counts c =
      ap (λ (u : ℕ → Trie). loop 256 0 (λ i d. counted (u i) d) c) (no_children ch none_there only)
      ∙ loop_none 256 0 c

place_leaf :
    (i n : ℕ) (v : Option (List ℕ)) (s e : ℕ) (f : DeserializeEntry) (fs : List DeserializeEntry)
    (l : Load)
    → n ≡ 0
    → place i (data_of v s e n) f fs l ≡ (reading (attach i (node (λ _. null) v s e) f ∷ fs), l)
unfolding place
place_leaf i n v s e f fs l h = if_false {b = positive n} _ _ (ground arith)

place_parent :
    (i n : ℕ) (v : Option (List ℕ)) (s e : ℕ) (f : DeserializeEntry) (fs : List DeserializeEntry)
    (l : Load)
    → 0 < n
    → n ≤ 256
    → suc (length fs) < 4096
    → place i (data_of v s e n) f fs l ≡ (reading (entry_of i (data_of v s e n) ∷ f ∷ fs), l)
unfolding place
place_parent i n v s e f fs l pos few room =
    if_true {b = positive n} _ _ (ground arith)
    ∙ if_false {b = leb serialize_stack_size (suc (length fs))} _ _ (ground arith)

module _ (ch : ℕ → Trie) (v : Option (List ℕ)) (s e d n i : ℕ) (f : DeserializeEntry)
    (fs : List DeserializeEntry) (rest : List ℕ) (c : Counts) (good : Storable (node ch v s e))
    (fits : Fits (suc d) (node ch v s e)) where
  abbrev own : Counts
  own = own_counts v s (add_node c)

  abbrev own_after : Counts
  own_after = counts_after ch v s e i d fs 256 0 own

  abbrev Read : ℕ → Type 0
  Read k =
      load_loop (k + n) (reading (more f ∷ fs)) (file (i ∷ (encode (node ch v s e) ++ rest)) c)
      ≡ load_loop n (reading (attach i (node ch v s e) f ∷ fs))
          (file rest (counted (node ch v s e) c))

  first_round :
      (k : ℕ)
      → load_loop (suc k) (reading (more f ∷ fs)) (file (i ∷ (encode (node ch v s e) ++ rest)) c)
        ≡ resume k (
            place i
              (data_of v s e (count_children 256 0 ch))
              (attach i empty_node f)
              fs
              (file (parts ch v s e i d fs 256 0 ++ rest) own))
  unfolding load_loop encode
  first_round k =
      ap (λ t. resume k (load_round (more f) fs (file (i ∷ t) c)))
        (append_assoc (joined (header_chunks (node ch v s e))) (parts ch v s e i d fs 256 0) rest)
      ∙ ap (resume k)
          (load_round-node ch v s e i f fs (parts ch v s e i d fs 256 0 ++ rest) c good.0)

  leaf_reads : count_children 256 0 ch ≡ 0 → Read 1
  unfolding counted
  leaf_reads leaf =
      ap (λ k. load_loop k (reading (more f ∷ fs)) (file (i ∷ (encode (node ch v s e) ++ rest)) c))
        {y = suc n} (omega arith)
      ∙ first_round n
      ∙ ap (resume n) (place_leaf i _ v s e (attach i empty_node f) fs _ leaf)
      ∙ ap₂
          (λ input k.
            load_loop n (reading (attach i (node (λ _. null) v s e) (attach i empty_node f) ∷ fs))
              (file input k))
          (ap (λ t. t ++ rest) (leaf_parts ch v s e leaf good.2))
          (sym (leaf_counts ch v s e leaf good.2 own))
      ∙ ap
          (λ (u : ℕ → Trie).
            load_loop n (reading (record f { children = u } ∷ fs)) (file rest own_after))
          (set_child-set_child f.children i empty_node (node (λ _. null) v s e))
      ∙ ap
          (λ (u : ℕ → Trie).
            load_loop n (reading (attach i (node u v s e) f ∷ fs)) (file rest own_after))
          (sym (no_children ch leaf good.2))

  parent_reads :
      ((j : ℕ) → Loads (ch j))
      → length fs + suc (suc d) ≤ 4096
      → 0 < count_children 256 0 ch
      → Read (suc (rounds_left ch v s e i d fs 256 0 + 1))
  unfolding counted
  parent_reads ih room pos =
      let r = rounds_left ch v s e i d fs 256 0 in
      let f' = attach i empty_node f in
      let input = parts ch v s e i d fs 256 0 ++ rest in
      ap (λ k. load_loop k (reading (more f ∷ fs)) (file (i ∷ (encode (node ch v s e) ++ rest)) c))
        {x = suc (r + 1) + n} {y = suc (r + suc n)} (omega arith)
      ∙ first_round (r + suc n)
      ∙ ap (resume (r + suc n)) (
          place_parent i (count_children 256 0 ch) v s e f' fs _ pos (count_children_le 256 0 ch)
            (omega arith))
      ∙ ap
          (λ (u : ℕ → Trie).
            load_loop (r + suc n)
              (reading (
                record (entry_of i (data_of v s e (count_children 256 0 ch))) { children = u }
                ∷ f'
                ∷ fs))
              (file input own))
          (upto_none ch)
      ∙ scan ch v s e i d (f' ∷ fs) 256 0 (r + suc n) (suc n) rest own ih fits good.1 (omega arith)
          refl refl
      ∙ closed ch v s e i d fs n f' rest own_after good.2
      ∙ ap
          (λ (u : ℕ → Trie).
            load_loop n (reading (record f { children = u } ∷ fs)) (file rest own_after))
          (set_child-set_child f.children i empty_node (node ch v s e))

loads_leaf :
    (ch : ℕ → Trie) (v : Option (List ℕ)) (s e : ℕ)
    → (count_children 256 0 ch == 0) ≡ true
    → loads (node ch v s e) ≡ 1
unfolding loads
loads_leaf ch v s e h = if_true _ _ h

loads_parent :
    (ch : ℕ → Trie) (v : Option (List ℕ)) (s e : ℕ)
    → (count_children 256 0 ch == 0) ≡ false
    → loads (node ch v s e) ≡ suc (total 256 0 (λ i. loads_child (ch i) (loads (ch i))) + 1)
unfolding loads
loads_parent ch v s e h = if_false _ _ h

load_loop-Loads : (t : Trie) → Loads t
load_loop-Loads null d n i f fs rest c there fits good room = unfold not_null in cc there
load_loop-Loads (node ch v s e) zero n i f fs rest c there fits good room = absurd fits
load_loop-Loads (node ch v s e) (suc d) n i f fs rest c there fits good room =
    elim (Bool-cases (count_children 256 0 ch == 0)) [
      | inl leaf ↦
          subst (Read ch v s e d n i f fs rest c good fits) (sym (loads_leaf ch v s e leaf))
            (leaf_reads ch v s e d n i f fs rest c good fits (==→eq _ _ leaf))
      | inr parent ↦
          subst (Read ch v s e d n i f fs rest c good fits) (sym (loads_parent ch v s e parent)) (
            parent_reads ch v s e d n i f fs rest c good fits (λ j. load_loop-Loads (ch j)) room
              (ground arith))
    ]

more_fuel :
    (n k : ℕ) (p : Progress) (l : Load) (r : Option Trie × Load)
    → load_loop n p l ≡ some r
    → load_loop (n + k) p l ≡ some r
unfolding load_loop
more_fuel n k (loaded t) l r h = h
more_fuel n k failed l r h = h
more_fuel n k (reading []) l r h = h
more_fuel zero k (reading (f ∷ fs)) l r h = cc h
more_fuel (suc n) k (reading (f ∷ fs)) l r h =
    ap (λ j. load_loop j (reading (f ∷ fs)) l) {x = suc n + k} {y = suc (n + k)} (omega arith)
    ∙ more_fuel n k (load_round f fs l).0 (load_round f fs l).1 r h

-- The result does not depend on the rounds.
load_loop_unique :
    (n k : ℕ) (p : Progress) (l : Load) (r q : Option Trie × Load)
    → load_loop n p l ≡ some r
    → load_loop k p l ≡ some q
    → load_loop n p l ≡ load_loop k p l
load_loop_unique n k p l r q h g =
    h
    ∙ sym (more_fuel n k p l r h)
    ∙ ap (λ j. load_loop j p l) (omega arith)
    ∙ more_fuel k n p l q g
    ∙ sym g

module _ (ch : ℕ → Trie) (v : Option (List ℕ)) (s e : ℕ) (rest : List ℕ) (c : Counts)
    (good : Storable (node ch v s e)) where
  abbrev start : Load
  start = file (parts ch v s e 0 4095 [] 256 0 ++ rest) (own_counts v s (add_node c))

  root_lem :
      load_root (make_node (file (encode (node ch v s e) ++ rest) c))
      ≡ root_data (some (data_of v s e (count_children 256 0 ch)), start)
  unfolding load_root encode header_chunks
  root_lem =
      ap (λ r. load_root r) (make_node_lem (encode (node ch v s e) ++ rest) c)
      ∙ ap (λ t. root_data (read_node (file t (add_node c))))
          (append_assoc (joined (header_chunks (node ch v s e))) (parts ch v s e 0 4095 [] 256 0)
            rest)
      ∙ ap root_data (
          read_node-header v s e (count_children 256 0 ch) (parts ch v s e 0 4095 [] 256 0 ++ rest)
            (add_node c) good.0 (omega (arith, count_children_le 256 0 ch)))

  -- Some number of rounds reads the trie.
  abbrev Ends : Progress × Load → Type 0
  Ends p =
      (k : ℕ) × (resume k p ≡ some (some (node ch v s e), file rest (counted (node ch v s e) c)))

  root_leaf :
      count_children 256 0 ch ≡ 0
      → Ends (root_data (some (data_of v s e (count_children 256 0 ch)), start))
  unfolding root_data load_loop counted
  root_leaf leaf = (
    0,
    ap (resume 0) (if_false {b = positive (count_children 256 0 ch)} _ _ (ground arith))
        ∙ ap (λ (u : ℕ → Trie). some (some (node u v s e), start))
            (sym (no_children ch leaf good.2))
        ∙ ap₂ (λ input k. some (some (node ch v s e), file input k))
            (ap (λ t. t ++ rest) (leaf_parts ch v s e leaf good.2))
            (sym (leaf_counts ch v s e leaf good.2 (own_counts v s (add_node c)))),
  )

  root_parent :
      0 < count_children 256 0 ch
      → Fits 4096 (node ch v s e)
      → Ends (root_data (some (data_of v s e (count_children 256 0 ch)), start))
  unfolding root_data load_loop counted load_round pop_entry
  root_parent pos fits =
      let r = rounds_left ch v s e 0 4095 [] 256 0 in
      (
        r + 1,
        ap (resume (r + 1)) (
              if_true {b = positive (count_children 256 0 ch)} _ _
                (ground (arith, count_children_le 256 0 ch)))
            ∙ ap
                (λ (u : ℕ → Trie).
                  load_loop (r + 1)
                    (reading (
                      record (entry_of 0 (data_of v s e (count_children 256 0 ch))) { children = u }
                      ∷ []))
                    start)
                (upto_none ch)
            ∙ scan ch v s e 0 4095 [] 256 0 (r + 1) 1 rest (own_counts v s (add_node c))
                (λ j. load_loop-Loads (ch j)) fits good.1 (omega arith) refl refl
            ∙ ap
                (λ (u : ℕ → Trie).
                  some (some (node u v s e), file rest (counted (node ch v s e) c)))
                (upto_all ch good.2),
      )

  ends :
      Fits 4096 (node ch v s e)
      → Ends (load_root (make_node (file (encode (node ch v s e) ++ rest) c)))
  ends fits = subst Ends (sym root_lem) (elim (Bool-cases (count_children 256 0 ch == 0)) [
    | inl leaf ↦ root_leaf (==→eq _ _ leaf)
    | inr parent ↦ root_parent (ground arith) fits
  ])

-- What `deserialize_trie` makes of a file that begins with the encoding of a trie that is not null
-- and has at most 4096 levels, when all its allocations succeed: the trie, the rest of the file, and
-- the counters with the trie counted. In the trie, a node with `is_end` (of 32 bits) has a value of
-- its size, of 1 byte to 2 ^ 64 - 1, a node without has none and a size below 2 ^ 64, and only the
-- indices 0 to 255 have children. (A failed overwrite leaves a node with `is_end` and no value.)
pub deserialize_trie-encode :
    (t : Trie) (rest : List ℕ) (c : Counts)
    → not_null t ≡ true
    → Storable t
    → Fits 4096 t
    → deserialize_trie (file (encode t ++ rest) c) ≡ some (some t, file rest (counted t c))
unfolding deserialize_trie malloc
deserialize_trie-encode null rest c there good fits = unfold not_null in cc there
deserialize_trie-encode (node ch v s e) rest c there good fits =
    let l = file (encode (node ch v s e) ++ rest) c in
    let p = load_root (make_node l) in
    let (r, whole) = deserialize_trie_total l in
    let (k, found) = ends ch v s e rest c good fits in
    load_loop_unique (rounds_for l.input) k p.0 p.1 r
      (some (node ch v s e), file rest (counted (node ch v s e) c)) whole found
    ∙ found
