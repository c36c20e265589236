-- ===== src/StreamDb/Search/Collected.antt =====
-- `collect_results` (src/db/streamdb.c) adds the entries of the trie in order, until an allocation
-- fails.
use mathlib.Core.List.{append_assoc}
use de_mo_d.Prelude.{ℕ, ◌+◌, ◌-◌, ◌≤◌, ◌==◌, ltb, leb, if◌then◌else◌, arith, length, length-append}
use de_mo_d.Prelude.{loop, loop-gather, ltb→lt}
use de_mo_d.Prelude.{
  ◌≡◌, refl, sym, ap, ◌∙◌, ◌⊎◌, inl, inr, Bool, true, false, Bool-cases, not, ◌&&◌,
}
use de_mo_d.Prelude.{Option, List, [], ◌∷◌, ◌++◌}
use de_mo_d.StreamDb.Types.{Trie, null, node, max_key_len}
use de_mo_d.StreamDb.Keys.{path_of}
use de_mo_d.StreamDb.Iterate.Entries.{Entry, own_entry, entries}
use de_mo_d.StreamDb.Search.{Result, Found, copied, malloc_each, add_result, collect_results}

-- Additions in order, until one fails.
pub add_all : List Entry → Found → Found
add_all [] f = f
add_all ((p, v, s) ∷ es) f = add_all es (if f.failed then f else add_result p v s f)

pub add_all_failed : (es : List Entry) (f : Found) → f.failed ≡ true → add_all es f ≡ f
unfolding add_all
add_all_failed [] f h = refl
add_all_failed ((p, v, s) ∷ es) f h = ap (add_all es) (simp h) ∙ add_all_failed es f h

add_all-append : (xs ys : List Entry) (f : Found) → add_all (xs ++ ys) f ≡ add_all ys (add_all xs f)
unfolding add_all
add_all-append [] ys f = refl
add_all-append ((p, v, s) ∷ xs) ys f =
    add_all-append xs ys (if f.failed then f else add_result p v s f)

-- A round of the loop: the test of the extension's length is that of the whole path's.
round_lem :
    (too_long short : Bool) (es : List Entry) (g deeper : Found)
    → too_long ≡ not short
    → (short ≡ true → deeper ≡ add_all es g)
    → (if too_long then g else deeper) ≡ add_all (if short then es else []) g
unfolding add_all
round_lem too_long true es g deeper e h = rw e (h refl)
round_lem too_long false es g deeper e h = rw e refl

-- The tests around the loop change nothing that the fold of additions does not do itself.
own_lem :
    (p : List ℕ) (v : Option (List ℕ)) (s e : ℕ) (f : Found) (too_long : Bool) (rest : List Entry)
    (below : Found → Found)
    → too_long ≡ false
    → ((g : Found) → below g ≡ add_all rest g)
    → (let f1 = if e == 0 then f else add_result p v s f in
        if f.failed
        then f
        else if not (e == 0) && too_long
        then f
        else if f1.failed
        then f1
        else below f1)
      ≡ add_all (own_entry p v s e ++ rest) f
unfolding add_all
own_lem p v s e f too_long rest below short h = ground (
  arith,
  add_all_failed (own_entry p v s e ++ rest) f,
  add_all_failed rest (add_result p v s f),
  h f,
  h (add_result p v s f),
)

pub collect_results-eq-add_all :
    (t : Trie) (extension rev_suffix : List ℕ) (f : Found)
    → length rev_suffix + length extension ≤ max_key_len
    → collect_results t extension rev_suffix f ≡ add_all (entries t (rev_suffix ++ extension)) f
unfolding collect_results entries
collect_results-eq-add_all null extension rev_suffix f h = unfold add_all in refl
collect_results-eq-add_all (node ch v s e) extension rev_suffix f h =
    own_lem (rev_suffix ++ extension) v s e f _ _
      (loop 256 0 (λ i g.
        if leb (max_key_len - length rev_suffix) (length extension)
        then g
        else collect_results (ch i) (extension ++ (i ∷ [])) rev_suffix g))
      (ground arith)
      (λ g.
        loop-gather add_all (λ u. unfold add_all in refl) add_all-append 256 0 _
          (λ i.
            if ltb (length (rev_suffix ++ extension)) max_key_len
            then entries (ch i) ((rev_suffix ++ extension) ++ (i ∷ []))
            else [])
          g
          (λ i u.
            round_lem (leb (max_key_len - length rev_suffix) (length extension))
              (ltb (length (rev_suffix ++ extension)) max_key_len) _ u _
              (ground (arith, length-append rev_suffix extension))
              (λ short.
                collect_results-eq-add_all (ch i) (extension ++ (i ∷ [])) rev_suffix u (
                  omega (
                    arith,
                    length-append rev_suffix extension,
                    length-append extension (i ∷ []),
                    ltb→lt _ _ short,
                  ))
                ∙ ap (λ p. add_all (entries (ch i) p) u)
                    (sym (append_assoc rev_suffix extension (i ∷ []))))))

abbrev pub result_of : Entry → Result
result_of x = record { key = path_of x.0; value = copied x.1 x.2; value_size = x.2 }

-- The results of the entries, the last first, in front of `rs`.
unfoldable pub listed : List Entry → List Result → List Result
listed [] rs = rs
listed (x ∷ es) rs = listed es (result_of x ∷ rs)

add_result_cases :
    (p : List ℕ) (v : Option (List ℕ)) (s : ℕ) (f : Found)
    → ((add_result p v s f).failed ≡ true)
      ⊎ ((add_result p v s f).results ≡ result_of (p, v, s) ∷ f.results)
unfolding add_result
add_result_cases p v s f = elim (Bool-cases (malloc_each 4 f.mem).0) [
  | inl fine ↦ inr (rw fine)
  | inr bad ↦ inl (rw bad)
]

-- Additions either fail, or add the results of all entries.
pub add_all_cases :
    (es : List Entry) (f : Found)
    → ((add_all es f).failed ≡ true) ⊎ ((add_all es f).results ≡ listed es f.results)
unfolding add_all listed
add_all_cases [] f = inr refl
add_all_cases ((p, v, s) ∷ es) f = elim (Bool-cases f.failed) [
  | inl bad ↦ inl (
      ap (λ g. (add_all es g).failed) (simp bad)
      ∙ ap (λ g. g.failed) (add_all_failed es f bad)
      ∙ bad)
  | inr fine ↦ simp fine (elim (add_result_cases p v s f) [
    | inl bad ↦ inl (ap (λ g. g.failed) (add_all_failed es (add_result p v s f) bad) ∙ bad)
    | inr added ↦ elim (add_all_cases es (add_result p v s f)) [
      | inl bad ↦ inl bad
      | inr all_added ↦ inr (all_added ∙ ap (listed es) added)
    ]
  ])
]

-- With enough memory nothing fails.
pub add_all_no_fail :
    (es : List Entry) (rs : List Result)
    → (add_all es (record { results = rs; failed = false; mem = [] })).failed ≡ false
unfolding add_all add_result malloc_each loop
add_all_no_fail [] rs = refl
add_all_no_fail ((p, v, s) ∷ es) rs = add_all_no_fail es (result_of (p, v, s) ∷ rs)
