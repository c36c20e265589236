-- ===== src/StreamDb/Find/Laws.antt =====
-- How `lookup` reads a node (src/db/streamdb.c, `internal_find`).
use de_mo_d.Prelude.{ℕ, ◌==◌, if◌then◌else◌, arith}
use de_mo_d.Prelude.{◌≡◌, refl, Option, none, List, [], ◌∷◌}
use de_mo_d.StreamDb.Types.{Trie, node, set_child, empty_node}
use de_mo_d.StreamDb.Find.{lookup}

pub lookup-empty_node : (q : List ℕ) → lookup q empty_node ≡ none
unfolding lookup
lookup-empty_node [] = refl
lookup-empty_node (b ∷ q) = refl

-- A walk through a node whose child `b` was replaced.
pub lookup-set_child :
    (x b : ℕ) (q : List ℕ) (ch : ℕ → Trie) (t : Trie) (v : Option (List ℕ)) (s e : ℕ)
    → lookup (x ∷ q) (node (set_child ch b t) v s e)
      ≡ (if x == b then lookup q t else lookup q (ch x))
unfolding lookup
lookup-set_child x b q ch t v s e = ground arith

pub lookup-cons :
    (x : ℕ) (q : List ℕ) (ch : ℕ → Trie) (v : Option (List ℕ)) (s e : ℕ)
    → lookup (x ∷ q) (node ch v s e) ≡ lookup q (ch x)
unfolding lookup
lookup-cons x q ch v s e = refl
