-- ===== src/Userfs/Destroy.antt =====
-- `ufs_destroy` leaves no file.
use system_prog.Common.{
  ℕ, ◌≤◌, ◌≡◌, refl, false, ◌||◌, Option, none, some, List, [], ◌∷◌, arith, ◌==◌, inl, inr,
  Bool-cases,
}
use system_prog.Userfs.Alive.{refs_at, named_at, orphan_at}
use system_prog.Userfs.Safety.{Request, requests, requests_lem}
use system_prog.Userfs.Table.{uses, entries}
use system_prog.Userfs.{File, Filedesc, Ufs, is_used, is_listed, ufs_destroy, initial}

uses-is_used : (a : ℕ) (ds : List (Option Filedesc)) → is_used a ds ≡ false → uses a ds ≡ 0
uses-is_used a [] h = refl
uses-is_used a (none ∷ ds) h = omega (arith, uses-is_used a ds h)
uses-is_used a (some d ∷ ds) h = elim (Bool-cases (d.atfile == a)) [
  | inl e ↦ ground arith
  | inr e ↦ ground (arith, uses-is_used a ds (ground arith))
]

entries-is_listed : (a : ℕ) (bs : List ℕ) → is_listed a bs ≡ false → entries a bs ≡ 0
entries-is_listed a [] h = refl
entries-is_listed a (b ∷ bs) h = elim (Bool-cases (b == a)) [
  | inl e ↦ ground arith
  | inr e ↦ ground (arith, entries-is_listed a bs (ground arith))
]

-- A file that neither a descriptor nor the directory keeps is none.
no_file : (g : Option File) → named_at g ≡ 0 → orphan_at g ≤ 0 → g ≡ none
no_file none n o = refl
no_file (some f) n o = elim (Bool-cases f.deleted) [
  | inl e ↦ absurd (ground arith)
  | inr e ↦ absurd (ground arith)
]

destroyed :
    (u : Ufs) (a : ℕ)
    → refs_at (u.files a) ≡ uses a u.file_descriptors
    → named_at (u.files a) ≡ entries a u.file_list
    → orphan_at (u.files a) ≤ refs_at (u.files a)
    → (ufs_destroy u).files a ≡ none
unfolding ufs_destroy
destroyed u a r n o = elim (Bool-cases (is_used a u.file_descriptors || is_listed a u.file_list)) [
  | inl e ↦ rw e refl
  | inr e ↦
      let unused = uses-is_used a u.file_descriptors (ground arith) in
      let unlisted = entries-is_listed a u.file_list (ground arith) in
      rw e (no_file (u.files a) (omega (arith, n, unlisted)) (omega (arith, o, r, unused)))
]

-- After any sequence of calls of `ufs_open`, `ufs_close` and `ufs_delete` from the start,
-- `ufs_destroy` leaves no file at any address: none leaks.
ufs_destroy_lem :
    (qs : List Request) (a : ℕ)
    → (u : Ufs) × (requests qs initial ≡ some u) × ((ufs_destroy u).files a ≡ none)
ufs_destroy_lem qs a = let (u, e, r, n, o) = requests_lem qs a in (u, e, destroyed u a r n o)
