-- ===== src/StreamDb/Serialize/Encoding.antt =====
-- The format that `serialize_trie` (src/db/streamdb.c) writes, by recursion on the trie.
use mathlib.Core.List.{append-nil, append_assoc}
use de_mo_d.Prelude.{ℕ, zero, suc, ◌+◌, ◌-◌, ◌≤◌, if◌then◌else◌, arith, length, gather}
use de_mo_d.Prelude.{◌≡◌, refl, sym, ap, ◌∙◌, inl, inr, Bool, true, false, Bool-cases}
use de_mo_d.Prelude.{Option, none, some, List, [], ◌∷◌, ◌++◌}
use mathlib.Core.Option
use de_mo_d.StreamDb.Types.{Trie, null, node, malloc}
use de_mo_d.StreamDb.Find.{not_null}
use de_mo_d.StreamDb.Serialize.{
  Out, fwrite, write_each, header_chunks, SerializeStackEntry, next_child, child_of,
}
use de_mo_d.StreamDb.Serialize.{
  push_child, serialize_child, serialize_round, serialize_loop, serialize_trie,
}

abbrev pub joined : List (List ℕ) → List ℕ
joined [] = []
joined (bs ∷ more) = bs ++ joined more

-- A child that is there is its byte and its own encoding.
abbrev pub child_part : ℕ → Trie → List ℕ → List ℕ
child_part i t bytes = if not_null t then i ∷ bytes else []

-- The header of a node, then its children in the order of their bytes.
unfoldable pub encode : Trie → List ℕ
encode null = []
encode (node ch v s e) =
    joined (header_chunks (node ch v s e))
    ++ gather 256 0 (λ i. child_part i (ch i) (encode (ch i)))

abbrev pub child_rounds : Trie → ℕ → ℕ
child_rounds t n = if not_null t then suc n else 0

abbrev pub total : ℕ → ℕ → (ℕ → ℕ) → ℕ
total zero i g = 0
total (suc n) i g = g i + total n (suc i) g

-- The rounds that a node takes: one more than it has children, and those of the children.
unfoldable pub rounds : Trie → ℕ
rounds null = 0
rounds (node ch v s e) = suc (total 256 0 (λ i. child_rounds (ch i) (rounds (ch i))))

-- At most `d` levels.
abbrev pub Fits : ℕ → Trie → Type 0
Fits d null = Unit {0}
Fits zero (node ch v s e) = ⊥
Fits (suc d) (node ch v s e) = (i : ℕ) → Fits d (ch i)

pub Fits-pos : (d : ℕ) (t : Trie) → Fits d t → not_null t ≡ true → 1 ≤ d
unfolding not_null
Fits-pos d null h e = grind arith
Fits-pos zero (node ch v s e) h q = absurd h
Fits-pos (suc d) (node ch v s e) h q = omega arith

-- A file that takes all that is written.
abbrev pub done : List ℕ → Out
done w = record { written = w; outcomes = [] }

write_each_lem :
    (cs : List (List ℕ)) (w : List ℕ) → write_each cs (done w) ≡ (true, done (w ++ joined cs))
unfolding write_each
write_each_lem [] w = ap (λ t. (true, done t)) (sym (append-nil w))
write_each_lem (bs ∷ more) w =
    write_each_lem more (w ++ bs) ∙ ap (λ t. (true, done t)) (append_assoc w bs (joined more))

-- The loop after a round.
abbrev resume : ℕ → Bool × List SerializeStackEntry × Out → Option (Bool × Out)
resume n r = serialize_loop n r.0 r.1 r.2

abbrev fresh : Trie → SerializeStackEntry
fresh t = record { node_at = t; child_index = none }

abbrev Writes : Trie → Type 0
Writes t =
    (d n : ℕ) (rest : List SerializeStackEntry) (w : List ℕ)
    → not_null t ≡ true
    → Fits d t
    → length rest + d ≤ 4096
    → serialize_loop (rounds t + n) true (fresh t ∷ rest) (done w)
      ≡ serialize_loop n true rest (done (w ++ encode t))

push_child_lem :
    (t : Trie) (rest : List SerializeStackEntry) (w : List ℕ) (j : ℕ)
    → length rest + 2 ≤ 4096
    → push_child t rest (done w) (some j) ≡ (
      true,
      fresh (child_of t j) ∷ record { node_at = t; child_index = some (suc j) } ∷ rest,
      done (w ++ (j ∷ [])),
    )
unfolding push_child fwrite
push_child_lem t rest w j room = ground arith

module _ (ch : ℕ → Trie) (v : Option (List ℕ)) (s e d : ℕ) (rest : List SerializeStackEntry) where
  abbrev parts : ℕ → ℕ → List ℕ
  parts m i = gather m i (λ j. child_part j (ch j) (encode (ch j)))

  abbrev left : ℕ → ℕ → ℕ
  left m i = total m i (λ j. child_rounds (ch j) (rounds (ch j)))

  abbrev parent : ℕ → SerializeStackEntry
  parent i = record { node_at = node ch v s e; child_index = some (suc i) }

  -- The children from `i` on, of which `m` are left.
  scan :
      (m i k n : ℕ) (w : List ℕ)
      → ((j : ℕ) → Writes (ch j))
      → ((j : ℕ) → Fits d (ch j))
      → length rest + suc d ≤ 4096
      → i + m ≡ 256
      → k ≡ left m i + n
      → resume k (push_child (node ch v s e) rest (done w) (next_child m i (node ch v s e)))
        ≡ serialize_loop n true rest (done (w ++ parts m i))
  unfolding gather push_child next_child serialize_loop serialize_round serialize_child child_of
  scan zero i k n w ih fits room at count =
      ap (λ j. serialize_loop j true rest (done w)) (omega arith)
      ∙ ap (λ t. serialize_loop n true rest (done t)) (sym (append-nil w))
  scan (suc m) i k n w ih fits room at count = elim (Bool-cases (not_null (ch i))) [
    | inr missing ↦ rw missing (
        scan m (suc i) k n w ih fits room (omega arith)
          (omega (arith, ap (λ b. if b then suc (rounds (ch i)) else 0) missing)))
    | inl there ↦ rw there (
        ap (resume k) (
          push_child_lem (node ch v s e) rest w i (omega (arith, Fits-pos d (ch i) (fits i) there)))
        ∙ ap (λ j. serialize_loop j true (fresh (ch i) ∷ parent i ∷ rest) (done (w ++ (i ∷ []))))
            {y = rounds (ch i) + suc (left m (suc i) + n)}
            (omega (arith, ap (λ b. if b then suc (rounds (ch i)) else 0) there))
        ∙ ih i d (suc (left m (suc i) + n)) (parent i ∷ rest) (w ++ (i ∷ [])) there (fits i)
            (omega arith)
        ∙ ap
            (λ j. resume (left m (suc i) + n) (
              push_child (node ch v s e) rest (done ((w ++ (i ∷ [])) ++ encode (ch i)))
                (next_child j (suc i) (node ch v s e))))
            {x = 256 - suc i} {y = m} (omega arith)
        ∙ scan m (suc i) (left m (suc i) + n) n ((w ++ (i ∷ [])) ++ encode (ch i)) ih fits room
            (omega arith) refl
        ∙ ap (λ t. serialize_loop n true rest (done t))
            (append_assoc (w ++ (i ∷ [])) (encode (ch i)) (parts m (suc i))
              ∙ append_assoc w (i ∷ []) (encode (ch i) ++ parts m (suc i))))
  ]

serialize_loop-Writes : (t : Trie) → Writes t
unfolding encode rounds serialize_loop serialize_round serialize_child
serialize_loop-Writes null d n rest w there fits room = grind arith
serialize_loop-Writes (node ch v s e) zero n rest w there fits room = absurd fits
serialize_loop-Writes (node ch v s e) (suc d) n rest w there fits room =
    let t : Trie = node ch v s e in
    let k : ℕ = left ch v s e d rest 256 0 + n in
    ap (λ j. serialize_loop j true (fresh t ∷ rest) (done w)) {y = suc k} (omega arith)
    ∙ ap
        (λ r. resume k (if r.0 then serialize_child t 0 rest r.1 else (false, fresh t ∷ rest, r.1)))
        (write_each_lem (header_chunks t) w)
    ∙ scan ch v s e d rest 256 0 k n (w ++ joined (header_chunks t))
        (λ j. serialize_loop-Writes (ch j)) fits room (omega arith) refl
    ∙ ap (λ u. serialize_loop n true rest (done u))
        (append_assoc w (joined (header_chunks t)) (parts ch v s e d rest 256 0))

finish : (n : ℕ) (o : Out) → serialize_loop n true [] o ≡ some (true, o)
unfolding serialize_loop
finish zero o = refl
finish (suc n) o = refl

-- The loop that begins with the root of a trie writes its encoding.
pub serialize_loop-root :
    (ch : ℕ → Trie) (v : Option (List ℕ)) (s e n : ℕ) (w : List ℕ)
    → Fits 4096 (node ch v s e)
    → serialize_loop (rounds (node ch v s e) + n) true (fresh (node ch v s e) ∷ []) (done w)
      ≡ some (true, done (w ++ encode (node ch v s e)))
serialize_loop-root ch v s e n w fits =
    serialize_loop-Writes (node ch v s e) 4096 n [] w (unfold not_null in refl) fits (omega arith)
    ∙ finish n (done (w ++ encode (node ch v s e)))

-- With memory for the stack, a file that takes all, at most 4096 levels, and the rounds of the root
-- or more, `serialize_trie` returns success and has written the encoding of the trie.
pub serialize_trie_lem :
    (t : Trie) (n : ℕ) (w : List ℕ)
    → not_null t ≡ true
    → Fits 4096 t
    → serialize_trie (rounds t + n) t (done w) [] ≡ some (true, done (w ++ encode t), [])
unfolding serialize_trie malloc
serialize_trie_lem null n w there fits =
    let none_left : 1 ≤ 0 = Fits-pos 0 null tt there in absurd (omega arith)
serialize_trie_lem (node ch v s e) n w there fits =
    ap (Option.map (λ r. (r.0, r.1, []))) (serialize_loop-root ch v s e n w fits)
