-- ===== src/StreamDb/Iterate/Visits.antt =====
-- `streamdb_foreach` (src/db/streamdb.c) calls back for the entries of the trie, in order, until a
-- callback returns a number other than 0.
use de_mo_d.Prelude.{ℕ, ◌==◌, ltb, if◌then◌else◌, length}
use de_mo_d.Prelude.{loop-gather}
use de_mo_d.Prelude.{◌≡◌, refl, sym, ap, ◌∙◌, inl, inr, Bool, true, false, Bool-cases}
use de_mo_d.Prelude.{Option, some, List, [], ◌∷◌, ◌++◌}
use de_mo_d.StreamDb.Types.{ok, Trie, null, node, Db, max_key_len}
use de_mo_d.StreamDb.Keys.{path_of}
use de_mo_d.StreamDb.Iterate.{Callback, Visit, visit, collect_all_nodes, foreach}
use de_mo_d.StreamDb.Iterate.Entries.{Entry, own_entry, entries}

module _ {S : Type 0} (callback : Callback S) where
  -- Visits in order, until one stops the traversal.
  visit_all : List Entry → Visit S → Visit S
  visit_all [] w = w
  visit_all ((p, v, s) ∷ es) w = visit_all es (if w.should_stop then w else visit callback p v s w)

  visit_all_stopped : (es : List Entry) (w : Visit S) → w.should_stop ≡ true → visit_all es w ≡ w
  unfolding visit_all
  visit_all_stopped [] w h = refl
  visit_all_stopped ((p, v, s) ∷ es) w h = ap (visit_all es) (rw h) ∙ visit_all_stopped es w h

  visit_all-append :
      (xs ys : List Entry) (w : Visit S) → visit_all (xs ++ ys) w ≡ visit_all ys (visit_all xs w)
  unfolding visit_all
  visit_all-append [] ys w = refl
  visit_all-append ((p, v, s) ∷ xs) ys w =
      visit_all-append xs ys (if w.should_stop then w else visit callback p v s w)

  -- A round of the loop over the children: nothing is done after a stop, or below the limit.
  round_lem :
      (short : Bool) (es : List Entry) (u deeper : Visit S)
      → deeper ≡ visit_all es u
      → (if u.should_stop then u else if short then deeper else u)
        ≡ visit_all (if short then es else []) u
  unfolding visit_all
  round_lem short es u deeper h = elim (Bool-cases u.should_stop) [
    | inl stop ↦ simp stop (sym (visit_all_stopped (if short then es else []) u stop))
    | inr go ↦ simp go (by_limit short)
  ]
    where
      by_limit :
          (short : Bool) → (if short then deeper else u) ≡ visit_all (if short then es else []) u
      by_limit true = h
      by_limit false = refl

  own_visit :
      (p : List ℕ) (v : Option (List ℕ)) (s e : ℕ) (w : Visit S)
      → (if w.should_stop then w else if e == 0 then w else visit callback p v s w)
        ≡ visit_all (own_entry p v s e) w
  unfolding visit_all
  own_visit p v s e w = elim (Bool-cases (e == 0)) [
    | inl z ↦ rw z (same_branches w.should_stop)
    | inr nz ↦ rw nz refl
  ]
    where
      same_branches : (b : Bool) → (if b then w else w) ≡ w
      same_branches true = refl
      same_branches false = refl

  collect_all_nodes-eq-visit_all :
      (t : Trie) (p : List ℕ) (w : Visit S)
      → collect_all_nodes callback t p w ≡ visit_all (entries t p) w
  unfolding collect_all_nodes entries
  collect_all_nodes-eq-visit_all null p w = unfold visit_all in refl
  collect_all_nodes-eq-visit_all (node ch v s e) p w =
      loop-gather visit_all (λ u. unfold visit_all in refl) visit_all-append 256 0 _
        (λ i. if ltb (length p) max_key_len then entries (ch i) (p ++ (i ∷ [])) else []) _
        (λ i u.
          round_lem (ltb (length p) max_key_len) (entries (ch i) (p ++ (i ∷ []))) u _
            (collect_all_nodes-eq-visit_all (ch i) (p ++ (i ∷ [])) u))
      ∙ ap (visit_all _) (own_visit p v s e w)
      ∙ sym (visit_all-append (own_entry p v s e) _ w)

-- A fold over the entries, with their keys, that ends at the first number other than 0.
abbrev pub fold_until : {S : Type 0} → Callback S → List Entry → S → S
fold_until callback [] user = user
fold_until callback ((p, v, s) ∷ es) user =
    let (ret, user') = callback (path_of p) v s user in
    if ret == 0 then fold_until callback es user' else user'

-- The traversal goes on or stops as the fold does, whatever the callback returned.
resume_lem :
    {S : Type 0} (callback : Callback S) (es : List Entry)
    → ((user : S)
        → (visit_all callback es (record { user = user; mem = []; should_stop = false })).user
          ≡ fold_until callback es user)
    → (go : Bool) (user : S)
    → (visit_all callback es
        (record { user = user; mem = []; should_stop = if go then false else true })).user
      ≡ (if go then fold_until callback es user else user)
resume_lem callback es ih true user = ih user
resume_lem callback es ih false user =
    ap (λ w. w.user)
      (visit_all_stopped callback es (record { user = user; mem = []; should_stop = true }) refl)

visit_all-fold :
    {S : Type 0} (callback : Callback S) (es : List Entry) (user : S)
    → (visit_all callback es (record { user = user; mem = []; should_stop = false })).user
      ≡ fold_until callback es user
unfolding visit_all visit
visit_all-fold callback [] user = refl
visit_all-fold callback ((p, v, s) ∷ es) user =
    resume_lem callback es (visit_all-fold callback es) ((callback (path_of p) v s user).0 == 0)
      (callback (path_of p) v s user).1

-- With enough memory `streamdb_foreach` is the fold of its callback over the entries of the trie.
pub foreach_lem :
    {S : Type 0} (db : Db) (callback : Callback S) (user : S)
    → ((foreach db (some callback) user []).0 ≡ ok)
      × ((foreach db (some callback) user []).1 ≡ fold_until callback (entries db.root []) user)
unfolding foreach
foreach_lem db callback user = (
  refl,
  ap (λ w. w.user) (collect_all_nodes-eq-visit_all callback db.root [] _)
      ∙ visit_all-fold callback (entries db.root []) user,
)
