-- ===== src/StreamDb/Search/Answers.antt =====
-- `streamdb_suffix_search` and `streamdb_foreach` (src/db/streamdb.c) against the map of a valid
-- database.
use mathlib.Core.Path.{subst}
use mathlib.Core.List.{append-nil}
use de_mo_d.Prelude.{
  ℕ, ◌+◌, ◌≤◌, arith, length, length-append, Bytes, take-length, All-append, All-append_left,
  IsByte,
}
use de_mo_d.Prelude.{In}
use de_mo_d.Prelude.{◌≡◌, ◌↔◌, refl, sym, ap, ◌∙◌, ◌⊎◌, inl, inr, false}
use de_mo_d.Prelude.{Option, none, some, List, [], ◌∷◌, ◌++◌}
use de_mo_d.StreamDb.Types.{Trie, null, node, Mem, malloc, Db, max_key_len}
use de_mo_d.StreamDb.Keys.{path_of, path_of-path_of, path_of-++, length-path_of, path_of-Bytes}
use de_mo_d.StreamDb.Find.{lookup, not_null}
use de_mo_d.StreamDb.Iterate.Entries.{Entry, entries, entries_complete, entries_sound}
use de_mo_d.StreamDb.Search.{Result, Found, copied, collect_results, descend, suffix_search}
use de_mo_d.StreamDb.Search.Collected.{
  add_all, collect_results-eq-add_all, result_of, listed, add_all_cases, add_all_no_fail,
}
use de_mo_d.StreamDb.Contract.{IsKey, IsValid, view, view_lem, good_len, value_of, SoundEntry}

-- A walk goes on from where a descent ended.
lookup-descend : (p q : List ℕ) (t : Trie) → lookup q (descend p t) ≡ lookup (p ++ q) t
unfolding lookup descend
lookup-descend p q null = refl
lookup-descend [] q (node ch v s e) = refl
lookup-descend (b ∷ p) q (node ch v s e) = lookup-descend p q (ch b)

listed-nil : listed [] [] ≡ []
unfolding listed
listed-nil = refl

-- All results of a search, in the order of the list.
abbrev pub answers : Db → List ℕ → List Result
answers db suffix = listed (entries (descend (path_of suffix) db.root) (path_of suffix)) []

collected_lem :
    (db : Db) {suffix : List ℕ} (f : Found)
    → IsKey suffix
    → collect_results (descend (path_of suffix) db.root) [] (path_of suffix) f
      ≡ add_all (entries (descend (path_of suffix) db.root) (path_of suffix)) f
collected_lem db {suffix} f k =
    collect_results-eq-add_all (descend (path_of suffix) db.root) [] (path_of suffix) f
      (omega (arith, length-path_of suffix, k.short))
    ∙ ap (λ p. add_all (entries (descend (path_of suffix) db.root) p) f)
        (append-nil (path_of suffix))

-- A search returns no results or all of them.
pub suffix_search_cases :
    (db : Db) {suffix : List ℕ} (m : Mem)
    → IsKey suffix
    → ((suffix_search db (some suffix) m).0 ≡ [])
      ⊎ ((suffix_search db (some suffix) m).0 ≡ answers db suffix)
unfolding suffix_search
suffix_search_cases db {suffix} m k =
    let start : Found = record { results = []; failed = false; mem = (malloc (malloc m).1).1 } in
    let es = entries (descend (path_of suffix) db.root) (path_of suffix) in
    ground (arith, good_len k, collected_lem db start k, add_all_cases es start)

not_null-entries : (t : Trie) (p : List ℕ) → not_null t ≡ false → entries t p ≡ []
unfolding not_null entries
not_null-entries null p h = refl
not_null-entries (node ch v s e) p h = cc h

-- With enough memory it returns all of them.
pub suffix_search_no_fail :
    (db : Db) {suffix : List ℕ}
    → IsKey suffix
    → (suffix_search db (some suffix) []).0 ≡ answers db suffix
unfolding suffix_search
suffix_search_no_fail db {suffix} k =
    let start : Found = record { results = []; failed = false; mem = [] } in
    let t = descend (path_of suffix) db.root in
    let es = entries t (path_of suffix) in
    ground (
      arith,
      good_len k,
      collected_lem db start k,
      add_all_cases es start,
      add_all_no_fail es [],
      not_null-entries t (path_of suffix),
      listed-nil,
    )

In-listed_keep : (r : Result) (es : List Entry) (rs : List Result) → In r rs → In r (listed es rs)
unfolding listed
In-listed_keep r [] rs h = h
In-listed_keep r (x ∷ es) rs h = In-listed_keep r es (result_of x ∷ rs) (inr h)

In-listed :
    (x : Entry) (es : List Entry) (rs : List Result) → In x es → In (result_of x) (listed es rs)
unfolding listed
In-listed x [] rs h = absurd h
In-listed x (y ∷ es) rs (inl e) = In-listed_keep (result_of x) es _ (inl (ap result_of e))
In-listed x (y ∷ es) rs (inr h) = In-listed x es (result_of y ∷ rs) h

In-listed_inv :
    (r : Result) (es : List Entry) (rs : List Result)
    → In r (listed es rs)
    → ((x : Entry) × In x es × (r ≡ result_of x)) ⊎ In r rs
unfolding listed
In-listed_inv r [] rs h = inr h
In-listed_inv r (y ∷ es) rs h = elim (In-listed_inv r es (result_of y ∷ rs) h) [
  | inl (x, d, e) ↦ inl (x, inr d, e)
  | inr d ↦ elim d [ inl e ↦ inl (y, inl refl, e) | inr d' ↦ inr d' ]
]

-- In a valid database an entry that shows a value has that value, of its length.
value_of_inv :
    (x : Option (Option (List ℕ) × ℕ)) (v : List ℕ)
    → SoundEntry x
    → value_of x ≡ some v
    → x ≡ some (some v, length v)
value_of_inv none v h e = cc e
value_of_inv (some (none, s)) v h e = absurd h
value_of_inv (some (some w, s)) v h e = ground (arith, take-length w)

sound_entry :
    (x : Option (Option (List ℕ) × ℕ)) (y : Option (List ℕ) × ℕ)
    → SoundEntry x
    → x ≡ some y
    → (v : List ℕ) × (y.0 ≡ some v) × (y.1 ≡ length v) × (value_of x ≡ some v)
sound_entry none y h e = cc e
sound_entry (some (none, s)) y h e = absurd h
sound_entry (some (some w, s)) y h e =
    (w, ground arith, ground arith, ground (arith, take-length w))

copied-length : (v : List ℕ) → copied (some v) (length v) ≡ some v
unfolding copied
copied-length v = ap some (take-length v)

abbrev hit : List ℕ → List ℕ → Result
hit key v = record { key = key; value = some v; value_size = length v }

-- A search of a valid database, with enough memory, finds every key that ends in the suffix.
pub suffix_search_complete :
    (db : Db) (pre suffix v : List ℕ)
    → IsValid db
    → IsKey suffix
    → IsKey (pre ++ suffix)
    → view db (pre ++ suffix) ≡ some v
    → In
        (record { key = pre ++ suffix; value = some v; value_size = length v })
        (suffix_search db (some suffix) []).0
suffix_search_complete db pre suffix v valid k kk e =
    subst (In (hit (pre ++ suffix) v)) (sym (suffix_search_no_fail db k)) (
      subst (λ r. In r (answers db suffix)) same
        (In-listed (path_of suffix ++ path_of pre, some v, length v) _ []
          (entries_complete (path_of pre) (path_of suffix) (descend (path_of suffix) db.root)
            (some v, length v) pre_bytes fits at_path)))
  where
    split : path_of (pre ++ suffix) ≡ path_of suffix ++ path_of pre
    split = path_of-++ pre suffix

    pre_bytes : Bytes (path_of pre)
    pre_bytes = path_of-Bytes pre (All-append_left IsByte pre suffix kk.bytes)

    fits : length (path_of suffix) + length (path_of pre) ≤ max_key_len
    fits =
        omega (arith, length-path_of suffix, length-path_of pre, length-append pre suffix, kk.short)

    at_path : lookup (path_of pre) (descend (path_of suffix) db.root) ≡ some (some v, length v)
    at_path =
        lookup-descend (path_of suffix) (path_of pre) db.root
        ∙ ap (λ p. lookup p db.root) (sym split)
        ∙ value_of_inv (lookup (path_of (pre ++ suffix)) db.root) v
            (valid.sound _ (path_of-Bytes (pre ++ suffix) kk.bytes)) (sym (view_lem db kk) ∙ e)

    same : result_of (path_of suffix ++ path_of pre, some v, length v) ≡ hit (pre ++ suffix) v
    same = ground (arith, copied-length v, path_of-path_of (pre ++ suffix), ap path_of split)

result_of-eq-hit :
    (x : Entry) (suffix q v : List ℕ)
    → x.0 ≡ path_of suffix ++ q
    → x.1 ≡ some v
    → x.2 ≡ length v
    → result_of x ≡ hit (path_of q ++ suffix) v
result_of-eq-hit x suffix q v spelled is_v is_len =
    ground (arith, copied-length v, path_of-++ (path_of suffix) q, path_of-path_of suffix)

-- What the entries below the suffix's node give are keys that end in the suffix, with their values.
answers_sound :
    (db : Db) {suffix : List ℕ} (r : Result)
    → IsValid db
    → IsKey suffix
    → In r (answers db suffix)
    → (pre v : List ℕ) × (r ≡ hit (pre ++ suffix) v)
      × IsKey (pre ++ suffix)
      × (view db (pre ++ suffix) ≡ some v)
answers_sound db {suffix} r valid k d =
    elim (In-listed_inv r (entries (descend (path_of suffix) db.root) (path_of suffix)) [] d) [
      | inr no_more ↦ absurd no_more
      | inl (x, inside, made) ↦
          (let (q, spelled, bytes, fits, at_path) =
              entries_sound (path_of suffix) (descend (path_of suffix) db.root) x
                (omega (arith, length-path_of suffix, k.short)) inside in
            let key_path : path_of (path_of q ++ suffix) ≡ path_of suffix ++ q =
              path_of-++ (path_of q) suffix ∙ ap (λ p. path_of suffix ++ p) (path_of-path_of q) in
            let looked : lookup (path_of (path_of q ++ suffix)) db.root ≡ some (x.1, x.2) =
              ap (λ p. lookup p db.root) key_path
              ∙ sym (lookup-descend (path_of suffix) q db.root)
              ∙ at_path in
            let (v, is_v, is_len, shown) =
              sound_entry (lookup (path_of (path_of q ++ suffix)) db.root) (x.1, x.2)
                (valid.sound _ (path_of-Bytes (path_of q ++ suffix) (bytes_of_key q bytes)))
                looked in
            let key_ok : IsKey (path_of q ++ suffix) = record {
              nonempty = omega (arith, length-append (path_of q) suffix, k.nonempty);
              short = omega (
                arith,
                length-append (path_of q) suffix,
                length-path_of q,
                length-path_of suffix,
                fits,
              );
              bytes = bytes_of_key q bytes;
            } in
            (
              path_of q,
              v,
              made ∙ result_of-eq-hit x suffix q v spelled is_v is_len,
              key_ok,
              view_lem db key_ok ∙ shown,
            ))
    ]
  where
    bytes_of_key : (q : List ℕ) → Bytes q → Bytes (path_of q ++ suffix)
    bytes_of_key q h = All-append IsByte (path_of q) suffix (path_of-Bytes q h) k.bytes

-- Whatever allocations fail, each result of a search of a valid database is a key that ends in the
-- suffix, with the value that the map has for it and the value's length.
pub suffix_search_sound :
    (db : Db) {suffix : List ℕ} (m : Mem) (r : Result)
    → IsValid db
    → IsKey suffix
    → In r (suffix_search db (some suffix) m).0
    → (pre v : List ℕ) × (r ≡ record { key = pre ++ suffix; value = some v; value_size = length v })
      × IsKey (pre ++ suffix)
      × (view db (pre ++ suffix) ≡ some v)
suffix_search_sound db m r valid k d = elim (suffix_search_cases db m k) [
  | inl nothing ↦ absurd (subst (In r) nothing d)
  | inr everything ↦ answers_sound db r valid k (subst (In r) everything d)
]

-- In a valid database the entries that `streamdb_foreach` visits are the keys of the map with their
-- values: every key is among them, and each of them of at least one byte is a key.
pub foreach_entries :
    (db : Db) (key v : List ℕ)
    → IsValid db
    → IsKey key
    → (view db key ≡ some v) ↔ In (path_of key, some v, length v) (entries db.root [])
foreach_entries db key v valid k = (to, from)
  where
    sound_here : SoundEntry (lookup (path_of key) db.root)
    sound_here = valid.sound (path_of key) (path_of-Bytes key k.bytes)

    to : view db key ≡ some v → In (path_of key, some v, length v) (entries db.root [])
    to e =
        entries_complete (path_of key) [] db.root (some v, length v) (path_of-Bytes key k.bytes)
          (omega (arith, length-path_of key, k.short))
          (value_of_inv (lookup (path_of key) db.root) v sound_here (sym (view_lem db k) ∙ e))

    from : In (path_of key, some v, length v) (entries db.root []) → view db key ≡ some v
    from d =
        let (q, spelled, bytes, fits, at_path) =
          entries_sound [] db.root (path_of key, some v, length v) (omega arith) d in
        view_lem db k
        ∙ ap (λ p. value_of (lookup p db.root)) spelled
        ∙ ap value_of at_path
        ∙ ap some (take-length v)
