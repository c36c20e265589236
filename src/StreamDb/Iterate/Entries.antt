-- ===== src/StreamDb/Iterate/Entries.antt =====
-- The entries of a trie in the order in which the traversals of src/db/streamdb.c meet them, and
-- that they are exactly what the walks find.
use mathlib.Core.List.{append-nil, append_assoc}
use mathlib.Core.Path.{subst}
use de_mo_d.Prelude.{ℕ, ◌+◌, ◌≤◌, ◌==◌, ltb, if◌then◌else◌, arith, length, length-append, Bytes}
use de_mo_d.Prelude.{
  gather, In, In-append_left, In-append_right, In-append_cases, In-gather, In-gather_inv,
}
use de_mo_d.Prelude.{◌≡◌, refl, sym, ap, ◌∙◌, inl, inr, Bool, true, false, Bool-cases}
use de_mo_d.Prelude.{Option, some, List, [], ◌∷◌, ◌++◌, ltb→lt}
use de_mo_d.StreamDb.Types.{Trie, null, node, max_key_len}
use de_mo_d.StreamDb.Find.{lookup}
use de_mo_d.StreamDb.Find.Laws.{lookup-cons}

-- A path with the buffer and the size at its end.
abbrev pub Entry : Type 0
Entry = List ℕ × Option (List ℕ) × ℕ

abbrev pub own_entry : List ℕ → Option (List ℕ) → ℕ → ℕ → List Entry
own_entry p v s e = if e == 0 then [] else (p, v, s) ∷ []

-- The entries below a node that stands at path `p`, down to paths of the greatest length.
unfoldable pub entries : Trie → List ℕ → List Entry
entries null p = []
entries (node ch v s e) p =
    own_entry p v s e
    ++ gather 256 0 (λ i.
      let below = entries (ch i) (p ++ (i ∷ [])) in
      if ltb (length p) max_key_len then below else [])

own_entry_complete :
    (p : List ℕ) (ch : ℕ → Trie) (v : Option (List ℕ)) (s e : ℕ) (x : Option (List ℕ) × ℕ)
    → lookup [] (node ch v s e) ≡ some x
    → In (p, x.0, x.1) (own_entry p v s e)
unfolding lookup
own_entry_complete p ch v s e x h = elim (Bool-cases (e == 0)) [
  | inl z ↦ absurd (ground arith)
  | inr nz ↦ rw nz (inl (ground arith))
]

own_entry_sound :
    (p : List ℕ) (ch : ℕ → Trie) (v : Option (List ℕ)) (s e : ℕ) (x : Entry)
    → In x (own_entry p v s e)
    → (x.0 ≡ p) × (lookup [] (node ch v s e) ≡ some (x.1, x.2))
unfolding lookup
own_entry_sound p ch v s e x h = elim (Bool-cases (e == 0)) [
  | inl z ↦ absurd (rw z at h)
  | inr nz ↦ elim (rw nz at h) [
    | inl same ↦ (ap (λ r. r.0) same, ground arith)
    | inr more ↦ absurd more
  ]
]

In-if : (x : Entry) (b : Bool) (xs : List Entry) → b ≡ true → In x xs → In x (if b then xs else [])
In-if x true xs h d = d
In-if x false xs h d = cc h

In-if_inv :
    (x : Entry) (b : Bool) (xs : List Entry) → In x (if b then xs else []) → (b ≡ true) × In x xs
In-if_inv x true xs d = (refl, d)
In-if_inv x false xs d = absurd d

-- What a walk finds within the length limit is among the entries.
pub entries_complete :
    (q p : List ℕ) (t : Trie) (x : Option (List ℕ) × ℕ)
    → Bytes q
    → length p + length q ≤ max_key_len
    → lookup q t ≡ some x
    → In (p ++ q, x.0, x.1) (entries t p)
unfolding entries
entries_complete q p null x hq hl h = unfold lookup in cc h
entries_complete [] p (node ch v s e) x hq hl h =
    In-append_left (p ++ [], x.0, x.1) (own_entry p v s e) _
      (subst (λ r. In (r, x.0, x.1) (own_entry p v s e)) (sym (append-nil p))
        (own_entry_complete p ch v s e x h))
entries_complete (b ∷ q) p (node ch v s e) x hq hl h =
    In-append_right (p ++ (b ∷ q), x.0, x.1) (own_entry p v s e) _
      (In-gather (p ++ (b ∷ q), x.0, x.1) 256 0 b _ (omega arith) (omega arith)
        (In-if _ (ltb (length p) max_key_len) (entries (ch b) (p ++ (b ∷ []))) (ground arith) (
          subst (λ r. In (r, x.0, x.1) (entries (ch b) (p ++ (b ∷ [])))) (append_assoc p (b ∷ []) q)
            (entries_complete q (p ++ (b ∷ [])) (ch b) x hq.1
              (omega (arith, length-append p (b ∷ []))) (sym (lookup-cons b q ch v s e) ∙ h)))))

-- Each entry is what a walk within the length limit finds.
pub entries_sound :
    (p : List ℕ) (t : Trie) (x : Entry)
    → length p ≤ max_key_len
    → In x (entries t p)
    → (q : List ℕ) × (x.0 ≡ p ++ q)
      × Bytes q
      × (length p + length q ≤ max_key_len)
      × (lookup q t ≡ some (x.1, x.2))
unfolding entries
entries_sound p null x hl h = absurd h
entries_sound p (node ch v s e) x hl h = elim (In-append_cases x (own_entry p v s e) _ h) [
  | inl here ↦
      (let (same, at_end) = own_entry_sound p ch v s e x here in
        ([], same ∙ sym (append-nil p), tt, omega arith, at_end))
  | inr below ↦
      (let (b, lo, hi, d) = In-gather_inv x 256 0 _ below in
        let (short, d') =
          In-if_inv x (ltb (length p) max_key_len) (entries (ch b) (p ++ (b ∷ []))) d in
        let len : length (p ++ (b ∷ [])) ≡ length p + 1 = length-append p (b ∷ []) in
        let (q, spelled, hq, hm, found) =
          entries_sound (p ++ (b ∷ [])) (ch b) x (omega (arith, len, ltb→lt _ _ short)) d' in
        (
          b ∷ q,
          spelled ∙ append_assoc p (b ∷ []) q,
          (omega arith, hq),
          omega (arith, len),
          lookup-cons b q ch v s e ∙ found,
        ))
]
