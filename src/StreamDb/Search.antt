-- ===== src/StreamDb/Search.antt =====
-- `collect_results`, `streamdb_suffix_search` and `streamdb_free_results` of src/db/streamdb.c.
pub mod Collected
pub mod Answers
use de_mo_d.Prelude.{ℕ, ◌+◌, ◌-◌, ◌==◌, ltb, leb, if◌then◌else◌, length, take, loop}
use de_mo_d.Prelude.{Bool, true, false, not, ◌&&◌, Option, none, some, List, [], ◌∷◌, ◌++◌}
use de_mo_d.StreamDb.Types.{Trie, null, node, Mem, malloc, Db, max_key_len}
use de_mo_d.StreamDb.Find.{not_null, bad_len}
use de_mo_d.StreamDb.Keys.{path_of}

-- `StreamDBResult`, less its `next`: the results are a list. `none` for the value is what a copy
-- from a null pointer leaves (undefined in C).
pub record Result : Type 0 where
  pub key : List ℕ
  pub value : Option (List ℕ)
  pub value_size : ℕ

-- What the traversal updates: `*results`, `*error` and the allocator.
pub record Found : Type 0 where
  pub results : List Result
  pub failed : Bool
  pub mem : Mem

-- `memcpy(res->value, node->value, node->value_size)`
unfoldable pub copied : Option (List ℕ) → ℕ → Option (List ℕ)
copied none s = none
copied (some v) s = some (take s v)

-- The allocations of one result in order: `full_rev`, `key`, `res` and `res->value`. The first
-- failure ends them.
unfoldable pub malloc_each : ℕ → Mem → Bool × Mem
unfolding malloc
malloc_each n m = loop n 0 (λ i a. if a.0 then malloc a.1 else a) (true, m)

-- "Create result": the reversed key is reversed back, and the result put in front of the others.
unfoldable pub add_result : List ℕ → Option (List ℕ) → ℕ → Found → Found
unfolding copied
add_result full_rev v s f =
    let (fine, m) = malloc_each 4 f.mem in
    if fine
    then record f {
      results = record { key = path_of full_rev; value = copied v s; value_size = s } ∷ f.results;
      mem = m;
    }
    else record f { failed = true; mem = m }

-- `rev_suffix` and `extension` make up the reversed key of the node.
unfoldable pub collect_results : Trie → List ℕ → List ℕ → Found → Found
collect_results null extension rev_suffix f = f
collect_results (node ch v s e) extension rev_suffix f =
    let full_len = length rev_suffix + length extension in
    let f1 = if e == 0 then f else add_result (rev_suffix ++ extension) v s f in
    let below =
      loop 256 0
        (λ i g.
          let deeper = collect_results (ch i) (extension ++ (i ∷ [])) rev_suffix g in
          if leb (max_key_len - length rev_suffix) (length extension) then g else deeper)
        f1 in
    if f.failed
    then f
    else if not (e == 0) && ltb max_key_len full_len
    then f
    else if f1.failed
    then f1
    else below

-- The loop that follows the suffix from its last byte on; `null` where a child is missing.
unfoldable pub descend : List ℕ → Trie → Trie
descend p null = null
descend [] (node ch v s e) = node ch v s e
descend (b ∷ p) (node ch v s e) = descend p (ch b)

-- `none` for the suffix is a null pointer, and no result a null list. `rev_suffix` and `extension`
-- are allocated before the traversal. On an error the results are freed.
unfoldable pub suffix_search : Db → Option (List ℕ) → Mem → List Result × Mem
unfolding malloc not_null
suffix_search db none m = ([], m)
suffix_search db (some suffix) m =
    if bad_len suffix
    then ([], m)
    else (let (fine, m1) = malloc m in
        let current = descend (path_of suffix) db.root in
        let (fine2, m2) = malloc m1 in
        let f =
          collect_results current [] (path_of suffix)
            (record { results = []; failed = false; mem = m2 }) in
        if not fine
        then ([], m1)
        else if not (not_null current)
        then ([], m1)
        else if not fine2
        then ([], m2)
        else if f.failed
        then ([], f.mem)
        else (f.results, f.mem))
