-- ===== src/StreamDb/Iterate.antt =====
-- `collect_all_nodes` and `streamdb_foreach` of src/db/streamdb.c.
pub mod Entries
pub mod Visits
use de_mo_d.Prelude.{ℕ, ◌==◌, ltb, if◌then◌else◌, length, loop}
use de_mo_d.Prelude.{Bool, true, false, Option, none, some, List, [], ◌∷◌, ◌++◌}
use de_mo_d.StreamDb.Types.{Status, ok, invalid_arg, no_memory, Trie, null, node, Mem, malloc}
use de_mo_d.StreamDb.Types.{Db, max_key_len}
use de_mo_d.StreamDb.Keys.{path_of}

-- `streamdb_foreach_callback`: given the key, the value and its size, it updates `user_data` and
-- returns an `int`.
abbrev pub Callback : Type 0 → Type 0
Callback S = List ℕ → Option (List ℕ) → ℕ → S → ℕ × S

-- What the traversal updates: `*user_data`, the allocator and `*should_stop`.
pub record Visit (S : Type 0) : Type 0 where
  pub user : S
  pub mem : Mem
  pub should_stop : Bool

module _ {S : Type 0} (callback : Callback S) where
  -- The call for a node with `is_end`: the key buffer is reversed into fresh memory.
  unfoldable pub visit : List ℕ → Option (List ℕ) → ℕ → Visit S → Visit S
  unfolding malloc
  visit key_buf v s w =
      let (fine, m) = malloc w.mem in
      if fine
      then (let (ret, user) = callback (path_of key_buf) v s w.user in
          record { user = user; mem = m; should_stop = if ret == 0 then w.should_stop else true })
      else record w { mem = m }

  unfoldable pub collect_all_nodes : Trie → List ℕ → Visit S → Visit S
  collect_all_nodes null key_buf w = w
  collect_all_nodes (node ch v s e) key_buf w =
      let w1 = if w.should_stop then w else if e == 0 then w else visit key_buf v s w in
      loop 256 0
        (λ i u.
          let deeper = collect_all_nodes (ch i) (key_buf ++ (i ∷ [])) u in
          if u.should_stop then u else if ltb (length key_buf) max_key_len then deeper else u)
        w1

-- `none` for the callback is a null pointer. The buffer is allocated before the traversal.
unfoldable pub foreach : {S : Type 0} → Db → Option (Callback S) → S → Mem → Status × S × Mem
unfolding malloc
foreach db none user m = (invalid_arg, user, m)
foreach db (some callback) user m =
    let (fine, m') = malloc m in
    if fine
    then (let w =
          collect_all_nodes callback db.root []
            (record { user = user; mem = m'; should_stop = false }) in
        (ok, w.user, w.mem))
    else (no_memory, user, m')
