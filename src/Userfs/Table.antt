-- ===== src/Userfs/Table.antt =====
-- How many descriptors use a file and how many entries of the directory name it, after each change
-- of the tables.
use system_prog.Common.{
  ℕ, zero, suc, ◌+◌, ◌≤◌, ◌≡◌, refl, ap, Option, none, some, List, [], ◌∷◌, ◌++◌, arith, ◌==◌,
  if◌then◌else◌, get_elem?, set, inl, inr, Bool, true, false, Bool-cases,
}
use system_prog.Userfs.{Filedesc, place, reset_desc, reset, desc_of, remove}

abbrev pub one_if : ℕ → ℕ → ℕ
one_if b a = if b == a then 1 else 0

abbrev pub uses_desc : ℕ → Option Filedesc → ℕ
uses_desc a none = 0
uses_desc a (some d) = one_if d.atfile a

abbrev pub uses : ℕ → List (Option Filedesc) → ℕ
uses a [] = 0
uses a (d ∷ ds) = uses_desc a d + uses a ds

abbrev pub entries : ℕ → List ℕ → ℕ
entries a [] = 0
entries a (b ∷ bs) = one_if b a + entries a bs

pub uses-place :
    (a : ℕ) (ds : List (Option Filedesc)) (d : Filedesc)
    → uses a (place ds d).0 ≡ uses a ds + one_if d.atfile a
uses-place a [] d = omega arith
uses-place a (none ∷ ds) d = omega arith
uses-place a (some e ∷ ds) d = omega (arith, uses-place a ds d)

pub uses-set-none :
    (a : ℕ) (ds : List (Option Filedesc)) (i : ℕ) (d : Filedesc)
    → desc_of (get_elem? ds i) ≡ some d
    → uses a (set ds i none) + one_if d.atfile a ≡ uses a ds
uses-set-none a [] i d h = cc
uses-set-none a (none ∷ ds) zero d h = cc
uses-set-none a (some e ∷ ds) zero d h = let same : e ≡ d = cc in rw same (omega arith)
uses-set-none a (e ∷ ds) (suc i) d h = omega (arith, uses-set-none a ds i d h)

atfile-if :
    (c : Bool) (d e : Filedesc) → d.atfile ≡ e.atfile → (if c then d else e).atfile ≡ e.atfile
atfile-if true d e h = h
atfile-if false d e h = refl

atfile-reset_desc : (b : ℕ) (d : Filedesc) → (reset_desc b d).atfile ≡ d.atfile
atfile-reset_desc b d = atfile-if (d.atfile == b) _ d refl

pub uses-reset : (a b : ℕ) (ds : List (Option Filedesc)) → uses a (reset b ds) ≡ uses a ds
uses-reset a b [] = refl
uses-reset a b (none ∷ ds) = omega (arith, uses-reset a b ds)
uses-reset a b (some d ∷ ds) =
    omega (arith, uses-reset a b ds, ap (λ n. one_if n a) (atfile-reset_desc b d))

pub entries-append :
    (a : ℕ) (bs : List ℕ) (b : ℕ) → entries a (bs ++ b ∷ []) ≡ entries a bs + one_if b a
entries-append a [] b = omega arith
entries-append a (c ∷ bs) b = omega (arith, entries-append a bs b)

pub entries-remove :
    (a b : ℕ) (bs : List ℕ) → 1 ≤ entries b bs → entries a (remove b bs) + one_if b a ≡ entries a bs
entries-remove a b [] h = absurd (omega arith)
entries-remove a b (c ∷ bs) h = elim (Bool-cases (c == b)) [
  | inl e ↦ rw e (ground arith)
  | inr e ↦ rw e (ground (arith, entries-remove a b bs))
]
