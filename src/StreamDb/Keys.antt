-- ===== src/StreamDb/Keys.antt =====
-- Keys are walked from their last byte to their first: the loops over `key[i]` of `internal_find`,
-- `streamdb_insert` and `remove_helper`, and the reversals of `collect_results` and
-- `collect_all_nodes` (src/db/streamdb.c).
use mathlib.Core.List.{reverse, reverse-cons, reverse-append, reverse-reverse}
use mathlib.Core.Path.{subst, ap₂}
use de_mo_d.Prelude.{ℕ, zero, suc, ◌≡◌, refl, sym, ap, ◌∙◌, arith}
use de_mo_d.Prelude.{List, [], ◌∷◌, ◌++◌, length, get_or, Bytes, length-append, All-append, IsByte}

-- `key[n - 1], ..., key[0]`
unfoldable pub read_back : List ℕ → ℕ → List ℕ
read_back key zero = []
read_back key (suc i) = get_or key i 0 ∷ read_back key i

-- The bytes of a key in the order in which the loops read them.
abbrev pub path_of : List ℕ → List ℕ
path_of key = read_back key (length key)

read_back-cons :
    (x : ℕ) (xs : List ℕ) (n : ℕ) → read_back (x ∷ xs) (suc n) ≡ read_back xs n ++ (x ∷ [])
unfolding read_back
read_back-cons x xs zero = refl
read_back-cons x xs (suc n) = ap (λ t. get_or xs n 0 ∷ t) (read_back-cons x xs n)

pub path_of-cons : (x : ℕ) (xs : List ℕ) → path_of (x ∷ xs) ≡ path_of xs ++ (x ∷ [])
path_of-cons x xs = read_back-cons x xs (length xs)

-- The indexed loop reads the key in reverse.
pub path_of-eq-reverse : (key : List ℕ) → path_of key ≡ reverse key
unfolding read_back
path_of-eq-reverse [] = refl
path_of-eq-reverse (x ∷ xs) =
    path_of-cons x xs ∙ ap (λ t. t ++ (x ∷ [])) (path_of-eq-reverse xs) ∙ sym (reverse-cons x xs)

pub path_of-path_of : (key : List ℕ) → path_of (path_of key) ≡ key
path_of-path_of key =
    path_of-eq-reverse (path_of key) ∙ ap reverse (path_of-eq-reverse key) ∙ reverse-reverse key

pub path_of-injective : (k j : List ℕ) → path_of k ≡ path_of j → k ≡ j
path_of-injective k j e = sym (path_of-path_of k) ∙ ap path_of e ∙ path_of-path_of j

pub length-path_of : (key : List ℕ) → length (path_of key) ≡ length key
unfolding read_back
length-path_of [] = refl
length-path_of (x ∷ xs) =
    ap length (path_of-cons x xs)
    ∙ omega (arith, length-append (path_of xs) (x ∷ []), length-path_of xs)

pub path_of-Bytes : (key : List ℕ) → Bytes key → Bytes (path_of key)
unfolding read_back
path_of-Bytes [] h = tt
path_of-Bytes (x ∷ xs) h =
    subst Bytes (sym (path_of-cons x xs))
      (All-append IsByte (path_of xs) (x ∷ []) (path_of-Bytes xs h.1) (h.0, tt))

-- Adding a byte at the end of the path puts it in front of the key.
pub path_of-append : (p : List ℕ) (b : ℕ) → path_of (p ++ (b ∷ [])) ≡ b ∷ path_of p
path_of-append p b =
    ap path_of
      (ap (λ t. t ++ (b ∷ [])) (sym (path_of-path_of p)) ∙ sym (path_of-cons b (path_of p)))
    ∙ path_of-path_of (b ∷ path_of p)

pub path_of-++ : (p q : List ℕ) → path_of (p ++ q) ≡ path_of q ++ path_of p
path_of-++ p q =
    path_of-eq-reverse (p ++ q)
    ∙ reverse-append p q
    ∙ ap₂ ◌++◌ (sym (path_of-eq-reverse q)) (sym (path_of-eq-reverse p))
