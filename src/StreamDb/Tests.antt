-- ===== src/StreamDb/Tests.antt =====
-- Runs of src/db/streamdb.c on small databases, and the theorems at concrete inputs.
use mathlib.Core.Path.{subst}
use de_mo_d.Prelude.{ℕ, arith, length, get_or, loop, In}
use de_mo_d.Prelude.{◌≡◌, ◌≢◌, inl, refl, sym, ap, true, false, none, some, List, [], ◌∷◌, ◌++◌}
use de_mo_d.StreamDb.Types.{ok, no_memory, empty_node, Db}
use de_mo_d.StreamDb.Types.{create_node}
use de_mo_d.StreamDb.Keys.{read_back}
use de_mo_d.StreamDb.Find.{not_null, find_node, get, exists}
use de_mo_d.StreamDb.Find.Laws.{lookup-empty_node}
use de_mo_d.StreamDb.Measure.{measure, sum_below}
use de_mo_d.StreamDb.Insert.{insert, insert_at}
use de_mo_d.StreamDb.Delete.{delete, remove_helper, has_no_children}
use de_mo_d.StreamDb.Iterate.{Callback, visit, foreach, collect_all_nodes}
use de_mo_d.StreamDb.Iterate.Entries.{entries}
use de_mo_d.StreamDb.Iterate.Visits.{fold_until, foreach_lem}
use de_mo_d.StreamDb.Search.{
  Result, suffix_search, collect_results, descend, malloc_each, add_result,
}
use de_mo_d.StreamDb.Search.Answers.{suffix_search_complete, suffix_search_sound}
use de_mo_d.StreamDb.Contract.{IsKey, IsValid, SoundEntry, view, update}
use de_mo_d.StreamDb.Contract.Insert.{view-insert, insert_succeeds, insert-IsValid}
use de_mo_d.StreamDb.Contract.Delete.{view-delete, delete-IsValid}
use de_mo_d.StreamDb.Contract.Read.{Fetched, get-Fetched}
use de_mo_d.StreamDb.Contract.Failure.{insert_overwrite_failure}

-- A database as `streamdb_init` makes it without a file.
abbrev fresh : Db
fresh = record {
  root = empty_node;
  counts = record { total_size = 0; key_count = 0; node_count = 1 };
  file_path = none;
  is_file_backend = false;
  dirty = false;
  running = true;
  shutdown_requested = false;
  auto_flush_interval_ms = 5000;
  thread_started = false;
}

abbrev cat : List ℕ
cat = 99 ∷ 97 ∷ 116 ∷ []

abbrev hat : List ℕ
hat = 104 ∷ 97 ∷ 116 ∷ []

abbrev at_key : List ℕ
at_key = 97 ∷ 116 ∷ []

abbrev one : List ℕ
one = 1 ∷ []

abbrev two : List ℕ
two = 2 ∷ 2 ∷ []

abbrev with_cat : Db
with_cat = (insert fresh (some cat) (some one) []).1

abbrev with_both : Db
with_both = (insert with_cat (some hat) (some two) []).1

cat-IsKey : IsKey cat
cat-IsKey = omega arith

hat-IsKey : IsKey hat
hat-IsKey = omega arith

at_key-IsKey : IsKey at_key
at_key-IsKey = omega arith

counts_of_both : with_both.counts ≡ record { total_size = 3; key_count = 2; node_count = 5 }
unfolding insert insert_at create_node read_back
counts_of_both = refl

search_both :
    (suffix_search with_both (some at_key) []).0
    ≡ record { key = hat; value = some two; value_size = 2 }
      ∷ record { key = cat; value = some one; value_size = 1 }
      ∷ []
unfolding insert insert_at create_node read_back suffix_search collect_results descend malloc_each
    add_result loop
search_both = refl

counts_without_cat :
    (delete with_both (some cat) []).1.counts
    ≡ record { total_size = 2; key_count = 1; node_count = 4 }
unfolding insert insert_at create_node read_back delete remove_helper has_no_children
counts_without_cat = refl

-- The keys that a traversal stops at: the first one.
abbrev first_key : Callback (List (List ℕ))
first_key key v s seen = (1, key ∷ seen)

foreach_stops : (foreach with_both (some first_key) [] []).1 ≡ cat ∷ []
unfolding insert insert_at create_node read_back foreach collect_all_nodes visit loop
foreach_stops = refl

fresh-IsValid : IsValid fresh
fresh-IsValid = record {
  rooted = unfold not_null in refl;
  counted = unfold measure sum_below in record { nodes = refl; keys = refl; bytes = refl };
  sound = λ p h. subst SoundEntry (sym (lookup-empty_node p)) tt;
}

with_cat-IsValid : IsValid with_cat
with_cat-IsValid =
    insert-IsValid fresh one [] fresh-IsValid cat-IsKey (omega arith)
      (insert_succeeds fresh one fresh-IsValid.rooted cat-IsKey (omega arith))

with_both-IsValid : IsValid with_both
with_both-IsValid =
    insert-IsValid with_cat two [] with_cat-IsValid hat-IsKey (omega arith)
      (insert_succeeds with_cat two with_cat-IsValid.rooted hat-IsKey (omega arith))

cat-ne-hat : cat ≢ hat
cat-ne-hat e = absurd (omega (arith, ap (λ l. get_or l 0 0) e))

-- The insertion of `hat` into the database with `cat`.
hat_inserted : (insert with_cat (some hat) (some two) []).0 ≡ ok
hat_inserted = insert_succeeds with_cat two with_cat-IsValid.rooted hat-IsKey (omega arith)

cat_shown : view with_cat cat ≡ some one
unfolding insert insert_at create_node read_back get find_node
cat_shown = refl

view-insert_example :
    view (insert with_cat (some hat) (some two) []).1 cat
    ≡ update (view with_cat) hat (some two) cat
view-insert_example = view-insert with_cat two [] hat-IsKey cat-IsKey (omega arith) hat_inserted

insert_succeeds_example : (insert fresh (some cat) (some one) []).0 ≡ ok
insert_succeeds_example = insert_succeeds fresh one fresh-IsValid.rooted cat-IsKey (omega arith)

insert-IsValid_example : IsValid (insert with_cat (some hat) (some two) []).1
insert-IsValid_example =
    insert-IsValid with_cat two [] with_cat-IsValid hat-IsKey (omega arith) hat_inserted

view-delete_example :
    view (delete with_both (some cat) []).1 hat ≡ update (view with_both) cat none hat
view-delete_example = view-delete with_both [] with_both-IsValid.rooted cat-IsKey hat-IsKey

delete-IsValid_example : IsValid (delete with_both (some cat) []).1
delete-IsValid_example = delete-IsValid with_both [] with_both-IsValid cat-IsKey

get-Fetched_example : Fetched (view with_cat cat) (get with_cat (some cat) [])
get-Fetched_example = get-Fetched with_cat [] with_cat-IsValid cat-IsKey

insert_overwrite_failure_example :
    ((insert with_cat (some cat) (some two) (false ∷ [])).0 ≡ no_memory)
    × (exists (insert with_cat (some cat) (some two) (false ∷ [])).1 (some cat) ≡ true)
    × (view (insert with_cat (some cat) (some two) (false ∷ [])).1 cat ≡ none)
insert_overwrite_failure_example =
    insert_overwrite_failure with_cat two cat-IsKey (omega arith) cat_shown

hat_shown : view with_both (104 ∷ at_key) ≡ some two
unfolding insert insert_at create_node read_back get find_node
hat_shown = refl

suffix_search_complete_example :
    In
      (record { key = hat; value = some two; value_size = 2 })
      (suffix_search with_both (some at_key) []).0
suffix_search_complete_example =
    suffix_search_complete with_both (104 ∷ []) at_key two with_both-IsValid at_key-IsKey hat-IsKey
      hat_shown

hat_found : Result
hat_found = record { key = hat; value = some two; value_size = 2 }

hat_is_listed : In hat_found (suffix_search with_both (some at_key) []).0
unfolding insert insert_at create_node read_back suffix_search collect_results descend malloc_each
    add_result loop hat_found
hat_is_listed = inl refl

suffix_search_sound_example :
    (pre v : List ℕ) × (hat_found
      ≡ record { key = pre ++ at_key; value = some v; value_size = length v })
    × IsKey (pre ++ at_key)
    × (view with_both (pre ++ at_key) ≡ some v)
suffix_search_sound_example =
    suffix_search_sound with_both [] hat_found with_both-IsValid at_key-IsKey hat_is_listed

foreach_lem_example :
    ((foreach with_both (some first_key) [] []).0 ≡ ok)
    × ((foreach with_both (some first_key) [] []).1
        ≡ fold_until first_key (entries with_both.root []) [])
foreach_lem_example = foreach_lem with_both first_key []
