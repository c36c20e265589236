-- ===== src/StreamDb/Input.antt =====
-- The calls of `fread` in src/db/streamdb.c, and the order in which they fail. A file is the bytes
-- that are left to read; an input error is its end.
pub mod Numbers
use de_mo_d.Prelude.{
  ◌≡◌, ap, ℕ, ◌+◌, ◌*◌, ltb, if◌then◌else◌, Option, none, some, List, [], ◌∷◌, length, take, drop,
}
use de_mo_d.StreamDb.Types.{Counts, Mem}

-- A number from its bytes, the lowest first.
unfoldable pub le_value : List ℕ → ℕ
le_value [] = 0
le_value (b ∷ bs) = b + 256 * le_value bs

-- What reading changes: the file's rest, the counters, the allocator.
pub record Load : Type 0 where
  pub input : List ℕ
  pub counts : Counts
  pub mem : Mem

-- A step that may fail; a failure keeps what was changed before it.
abbrev pub M : Type 0 → Type 0
M A = Load → Option A × Load

abbrev pub continue : {A B : Type 0} → Option A × Load → (A → M B) → Option B × Load
continue (none, l) f = (none, l)
continue (some a, l) f = f a l

infixl 5 ◌>>=◌ ◌>>◌
abbrev pub ◌>>=◌ : {A B : Type 0} → M A → (A → M B) → M B
◌>>=◌ m f l = continue (m l) f

abbrev pub ◌>>◌ : {A B : Type 0} → M A → M B → M B
m >> k = m >>= λ _. k

abbrev pub pure : {A : Type 0} → A → M A
pure a l = (some a, l)

unfoldable pub fread : ℕ → M (List ℕ)
fread n l =
    if ltb (length l.input) n
    then (none, record l { input = [] })
    else (some (take n l.input), record l { input = drop n l.input })

unfoldable pub fread_number : ℕ → M ℕ
unfolding fread le_value
fread_number n = do bs ← fread n; pure (le_value bs)

pub >>=-some :
    {A B : Type 0} (m : M A) (f : A → M B) (l : Load) {a : A} {l' : Load}
    → m l ≡ (some a, l')
    → (m >>= f) l ≡ f a l'
>>=-some m f l h = ap (λ r. continue r f) h
