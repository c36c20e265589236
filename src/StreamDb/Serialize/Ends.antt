-- ===== src/StreamDb/Serialize/Ends.antt =====
-- `serialize_trie` of src/db/streamdb.c ends whatever the calls of `fwrite` return: a round goes on
-- as it does when all of them succeed, or it is the last one.
use mathlib.Core.Option
use mathlib.Core.Path.{subst}
use de_mo_d.Prelude.{
  ℕ, zero, suc, ◌+◌, ◌-◌, leb, if◌then◌else◌, Bool, true, false, ◌≡◌, refl, sym, ap, ◌∙◌, ◌⊎◌, inl,
  inr, Bool-cases, if_true, if_false, Option, none, some, List, [], ◌∷◌, ◌++◌, length,
}
use de_mo_d.StreamDb.Types.{Trie, null, node, Mem, malloc}
use de_mo_d.StreamDb.Serialize.{
  Out, fwrite, write_each, header_chunks, SerializeStackEntry, next_child, push_child,
  serialize_stack_size, serialize_child, serialize_round, serialize_loop, serialize_trie,
}
use de_mo_d.StreamDb.Serialize.Encoding.{done, rounds, Fits, encode, serialize_loop-root}

-- A write to a file that refuses nothing.
write_each_succeeds :
    (cs : List (List ℕ)) (w : List ℕ) → (v : List ℕ) × (write_each cs (done w) ≡ (true, done v))
unfolding write_each fwrite
write_each_succeeds [] w = (w, refl)
write_each_succeeds (bs ∷ more) w = write_each_succeeds more (w ++ bs)

abbrev After : Type 0
After = Bool × List SerializeStackEntry × Out

-- A round `r'` failed, or left the stack that the round `r` without failures did.
Agree : After → After → Type 0
Agree r r' = (r'.0 ≡ false) ⊎ ((r'.0 ≡ true) × (w : List ℕ) × (r ≡ (true, r'.1, done w)))

push_child-Agree :
    (t : Trie) (rest : List SerializeStackEntry) (w : List ℕ) (w' : List ℕ) (outs : List Bool)
    (x : Option ℕ)
    → Agree
        (push_child t rest (done w) x)
        (push_child t rest (record { written = w'; outcomes = outs }) x)
unfolding Agree push_child fwrite
push_child-Agree t rest w w' outs none = inr (refl, w, refl)
push_child-Agree t rest w w' (false ∷ outs) (some j) = inl refl
push_child-Agree t rest w w' [] (some j) =
    elim (Bool-cases (leb serialize_stack_size (suc (length rest)))) [
      | inl full ↦ inl (rw full)
      | inr room ↦ inr (rw room, w ++ (j ∷ []), rw room)
    ]
push_child-Agree t rest w w' (true ∷ outs) (some j) =
    elim (Bool-cases (leb serialize_stack_size (suc (length rest)))) [
      | inl full ↦ inl (rw full)
      | inr room ↦ inr (rw room, w ++ (j ∷ []), rw room)
    ]

serialize_round-Agree :
    (t : Trie) (at : Option ℕ) (rest : List SerializeStackEntry) (w : List ℕ) (o : Out)
    → Agree
        (serialize_round (record { node_at = t; child_index = at } ∷ rest) (done w))
        (serialize_round (record { node_at = t; child_index = at } ∷ rest) o)
unfolding serialize_round serialize_child
serialize_round-Agree t (some i) rest w o =
    push_child-Agree t rest w o.written o.outcomes (next_child (256 - i) i t)
serialize_round-Agree t none rest w o =
    let (v, e) = write_each_succeeds (header_chunks t) w in
    subst (λ q. Agree (onward q) (onward (write_each (header_chunks t) o))) (sym e)
      (elim (Bool-cases (write_each (header_chunks t) o).0) [
        | inl fine ↦ subst (Agree (onward (true, done v))) (sym (if_true _ _ fine)) (
            push_child-Agree t rest v (write_each (header_chunks t) o).1.written
              (write_each (header_chunks t) o).1.outcomes (next_child 256 0 t))
        | inr refused ↦ unfold Agree in inl (rw refused)
      ])
  where
    onward : Bool × Out → After
    onward q =
        if q.0
        then serialize_child t 0 rest q.1
        else (false, record { node_at = t; child_index = none } ∷ rest, q.1)

-- The loop ends within the rounds that it takes without failures.
serialize_loop_ends :
    (n : ℕ) (success : Bool) (stack : List SerializeStackEntry) (w : List ℕ) (o : Out)
    (r : Bool × Out)
    → serialize_loop n success stack (done w) ≡ some r
    → (r' : Bool × Out) × (serialize_loop n success stack o ≡ some r')
unfolding serialize_loop Agree
serialize_loop_ends n false stack w o r e = ((false, o), refl)
serialize_loop_ends n true [] w o r e = ((true, o), refl)
serialize_loop_ends zero true (entry ∷ rest) w o r e = absurd (cc e)
serialize_loop_ends (suc n) true (entry ∷ rest) w o r e =
    elim (serialize_round-Agree entry.node_at entry.child_index rest w o) [
      | inl over ↦ ((false, next.2), ap (λ b. serialize_loop n b next.1 next.2) over)
      | inr (going, v, same) ↦
          (let (r', e') =
              serialize_loop_ends n true next.1 v next.2 r
                (sym (ap (λ q. serialize_loop n q.0 q.1 q.2) same) ∙ e) in
            (r', ap (λ b. serialize_loop n b next.1 next.2) going ∙ e'))
    ]
  where
    next : After
    next = serialize_round (entry ∷ rest) o

-- With the rounds of the root or more, the serializer ends for all results of the calls of `fwrite`
-- and of `malloc`.
pub serialize_trie_ends :
    (t : Trie) (n : ℕ) (o : Out) (m : Mem)
    → Fits 4096 t
    → (r : Bool × Out × Mem) × (serialize_trie (rounds t + n) t o m ≡ some r)
unfolding serialize_trie
serialize_trie_ends null n o m fits = ((false, o, m), refl)
serialize_trie_ends (node ch v s e) n o m fits = elim (Bool-cases (malloc m).0) [
  | inl fine ↦
      (let (r', e') =
          serialize_loop_ends (rounds (node ch v s e) + n) true
            (record { node_at = node ch v s e; child_index = none } ∷ []) [] o
            (true, done (encode (node ch v s e))) (serialize_loop-root ch v s e n [] fits) in
        (
          (r'.0, r'.1, (malloc m).1),
          if_true _ _ fine ∙ ap (Option.map (λ q. (q.0, q.1, (malloc m).1))) e',
        ))
  | inr refused ↦ ((false, o, (malloc m).1), if_false _ _ refused)
]
