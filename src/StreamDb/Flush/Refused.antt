-- ===== src/StreamDb/Flush/Refused.antt =====
-- What a failed `streamdb_flush` (src/db/streamdb.c) leaves.
use mathlib.Core.Option
use mathlib.Core.Path.{subst}
use de_mo_d.Prelude.{
  ℕ, zero, suc, ◌+◌, ◌<◌, if◌then◌else◌, arith, Bool, true, false, not, ◌||◌, ◌≡◌, ◌≢◌, ◌⊎◌, inl,
  inr, ◌∙◌, ap, sym, refl, List, [], ◌∷◌, ◌++◌, take, length, length-append, Option, none, some,
  Bool-cases, if_false,
}
use de_mo_d.StreamDb.Types.{Status, io_error, not_supported, Db, Mem}
use de_mo_d.StreamDb.Insert.{is_ok}
use de_mo_d.StreamDb.Depth.{either}
use de_mo_d.StreamDb.Serialize.{Out, fwrite}
use de_mo_d.StreamDb.Serialize.Encoding.{rounds, Fits}
use de_mo_d.StreamDb.Serialize.Ends.{serialize_trie_ends}
use de_mo_d.StreamDb.Flush.{
  Disk, temp_path, same_path, is_target, internal_flush, finish_flush, no_path, flush,
}

same_path-length : (xs ys : List ℕ) → same_path xs ys ≡ true → length xs ≡ length ys
unfolding same_path
same_path-length [] [] h = refl
same_path-length [] (y ∷ ys) h = absurd (cc h)
same_path-length (x ∷ xs) [] h = absurd (cc h)
same_path-length (x ∷ xs) (y ∷ ys) h = ap suc (same_path-length xs ys (ground (arith, h)))

length-take : (n : ℕ) (xs : List ℕ) → (length (take n xs) ≡ n) ⊎ (take n xs ≡ xs)
length-take zero xs = inl refl
length-take (suc n) [] = inr refl
length-take (suc n) (x ∷ xs) = elim (length-take n xs) [
  | inl cut ↦ inl (ap suc cut)
  | inr whole ↦ inr (ap (λ ys. x ∷ ys) whole)
]

append-longer : (p q : List ℕ) → length (p ++ q) ≡ length p → 0 < length q → ⊥
append-longer p q e h = omega (arith, e, h, length-append p q)

-- A path of another length than the limit of the temporary one is not the temporary one.
is_target-other : (path pid : List ℕ) → length path ≢ 1099 → is_target (some path) pid ≡ false
unfolding is_target
is_target-other path pid other = elim (Bool-cases (is_target (some path) pid)) [
  | inr fine ↦ fine
  | inl equal ↦ elim (length-take 1099 (path ++ ((46 ∷ pid) ++ (46 ∷ 116 ∷ 109 ∷ 112 ∷ [])))) [
    | inl cut ↦ absurd (other (sym (same_path-length (temp_path path pid) path equal) ∙ cut))
    | inr whole ↦ absurd (
        append-longer path ((46 ∷ pid) ++ (46 ∷ 116 ∷ 109 ∷ 112 ∷ []))
          (sym (ap length whole) ∙ same_path-length (temp_path path pid) path equal) (omega arith))
  ]
]

pub is_target-apart :
    (x : Option (List ℕ)) (pid : List ℕ)
    → ((path : List ℕ) → x ≡ some path → length path ≢ 1099)
    → is_target x pid ≡ false
unfolding is_target
is_target-apart none pid apart = refl
is_target-apart (some path) pid apart = is_target-other path pid (apart path refl)

finish_flush-kept :
    (disk : Disk) (y : Bool × Out × Mem)
    → disk.windows ≡ false
    → is_ok (finish_flush false disk y).0 ≡ false
    → (finish_flush false disk y).1.file ≡ disk.file
unfolding finish_flush is_ok
finish_flush-kept disk y posix h = ground arith

-- The two functions after the serializer's result.
abbrev concluded : Db → Disk → Mem → Option (Bool × Out × Mem) → Option (Status × Db × Disk × Mem)
concluded db disk m x =
    if not db.is_file_backend
    then some (not_supported, db, disk, m)
    else Option.map (λ r. (r.0, if is_ok r.0 then record db { dirty = false } else db, r.1, r.2))
        (if not db.is_file_backend || no_path db.file_path
          then some (not_supported, disk, m)
          else if not disk.opens
          then some (io_error, disk, m)
          else Option.map (finish_flush (is_target db.file_path disk.pid) disk) x)

Outcome : Db → Disk → Option (Status × Db × Disk × Mem) → Type 0
Outcome db disk x =
    (r : Status × Db × Disk × Mem) × (x ≡ some r)
    × (is_ok r.0 ≡ false → (r.2.file ≡ disk.file) × (r.1 ≡ db))

concluded-Outcome :
    (db : Db) (disk : Disk) (m : Mem) (y : Bool × Out × Mem)
    → disk.windows ≡ false
    → is_target db.file_path disk.pid ≡ false
    → Outcome db disk (concluded db disk m (some y))
unfolding Outcome is_ok finish_flush
concluded-Outcome db disk m y posix apart =
    either (Outcome db disk) (not db.is_file_backend)
      ((not_supported, db, disk, m), refl, λ h. (refl, refl))
      (either P (not db.is_file_backend || no_path db.file_path)
        ((not_supported, db, disk, m), refl, λ h. (refl, refl))
        (either P (not disk.opens) ((io_error, db, disk, m), refl, λ h. (refl, refl))
          (subst (λ b. P (some (finish_flush b disk y))) (sym apart)
            (_, refl, λ h. (finish_flush-kept disk y posix h, if_false _ _ h)))))
  where
    P : Option (Status × Disk × Mem) → Type 0
    P x =
        Outcome db disk (
          Option.map (λ r. (r.0, if is_ok r.0 then record db { dirty = false } else db, r.1, r.2))
            x)

-- On a POSIX system, with a path that is not 1099 bytes long, a trie of at most 4096 levels and the
-- rounds of the root or more, a flush returns whatever the calls of `fopen`, `fwrite`, `fclose`,
-- `rename`, `remove` and `malloc` answer, and if it returns something else than ok, it leaves the
-- file at the path and the database as they were.
pub flush_failure :
    (n : ℕ) (db : Db) (disk : Disk) (m : Mem)
    → Fits 4096 db.root
    → disk.windows ≡ false
    → ((path : List ℕ) → db.file_path ≡ some path → length path ≢ 1099)
    → (r : Status × Db × Disk × Mem) × (flush (rounds db.root + n) db disk m ≡ some r)
      × (is_ok r.0 ≡ false → (r.2.file ≡ disk.file) × (r.1 ≡ db))
unfolding flush internal_flush is_ok fwrite Outcome
flush_failure n db disk m fits posix apart =
    let (y, e) = serialize_trie_ends db.root n _ m fits in
    subst (λ x. Outcome db disk (concluded db disk m x)) (sym e)
      (concluded-Outcome db disk m y posix (is_target-apart db.file_path disk.pid apart))
