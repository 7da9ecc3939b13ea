-- ===== src/Userfs/Alive.antt =====
-- No pointer to a file outlives the file: the invariant, and what is enough to keep it.
pub mod Open
pub mod Close
use mathlib.Core.Option.{some-injective}
use mathlib.Core.Path.{subst}
use native.Mathlib.Decide.{ℕ_discrete}
use system_prog.Common.{
  ℕ, zero, suc, ◌+◌, ◌-◌, ◌≤◌, ◌<◌, ◌≡◌, ◌≢◌, ◌⊎◌, ◌∙◌, refl, ap, sym, Bool, true, false, not, ◌&&◌,
  Option, none, some, List, [], ◌∷◌, ◌++◌, arith, ◌==◌, if◌then◌else◌, Bytes, get_elem?, set, inl,
  inr, Bool-cases, Option-cases,
}
use system_prog.Userfs.Table.{
  one_if, uses, entries, uses-place, uses-set-none, uses-reset, entries-append, entries-remove,
}
use system_prog.Userfs.{
  ℤ, pos, negsuc, File, Filedesc, Ufs, UfsErrorCode, ufs_err_no_err, ufs_err_no_file, put_file,
  failed, same_name, find_in, find_file_by_name, flag, place, opened_desc, open_desc, new_file,
  create_file, open_again, open_found, with_access, ufs_open, reset, delete_file, succeed,
  close_file, desc_of, close_desc, ufs_close, remove, delete_named, delete_found, ufs_delete,
  initial,
}

abbrev pub refs_at : Option File → ℕ
refs_at none = 0
refs_at (some f) = f.refs

-- Whether a file lives that the directory names.
abbrev pub named_at : Option File → ℕ
named_at none = 0
named_at (some f) = if f.deleted then 0 else 1

-- Whether a file lives that only descriptors lead to.
abbrev pub orphan_at : Option File → ℕ
orphan_at none = 0
orphan_at (some f) = if f.deleted then 1 else 0

-- A file counts its descriptors and is in the directory once, or not at all if it was deleted, and
-- then a descriptor uses it; what does not live has no descriptor and no entry.
pub record IsSound (files : ℕ → Option File) (fresh : ℕ) (file_list : List ℕ)
    (descriptors : List (Option Filedesc)) : Type 0 where
  pub counted : (a : ℕ) → refs_at (files a) ≡ uses a descriptors
  pub entered : (a : ℕ) → named_at (files a) ≡ entries a file_list
  pub used : (a : ℕ) → orphan_at (files a) ≤ refs_at (files a)
  pub unborn : (a : ℕ) → fresh ≤ a → files a ≡ none

abbrev pub Alive : Ufs → Type 0
Alive u = IsSound u.files u.fresh u.file_list u.file_descriptors

-- A call follows no pointer to a deleted file and leaves none.
abbrev pub Safe : Option (Ufs × ℤ) → Type 0
Safe r = (u : Ufs) × (result : ℤ) × (r ≡ some (u, result)) × Alive u

-- What the search finds is in the list, and it follows only pointers of the list.
abbrev pub Finds : Option (Option ℕ) → List ℕ → Type 0
Finds r listed = (r ≡ some none) ⊎ ((a : ℕ) × (r ≡ some (some a)) × (1 ≤ entries a listed))

Finds-cons :
    (r : Option (Option ℕ)) (a : ℕ) (listed : List ℕ) → Finds r listed → Finds r (a ∷ listed)
Finds-cons r a listed h = elim h [ inl e ↦ inl e | inr (b, e, n) ↦ inr (b, e, omega (arith, n)) ]

find_at :
    (f : File) (test : Bool) (rest : Option (Option ℕ)) (a : ℕ) (listed : List ℕ)
    → Finds rest listed
    → Finds (if test then some (some a) else rest) (a ∷ listed)
find_at f true rest a listed h = inr (a, refl, ground arith)
find_at f false rest a listed h = Finds-cons rest a listed h

find_in-Finds :
    (files : ℕ → Option File) (listed : List ℕ) (name : Bytes)
    → ((a : ℕ) → 1 ≤ entries a listed → 1 ≤ named_at (files a))
    → Finds (find_in files listed name) listed
find_in-Finds files [] name h = inl refl
find_in-Finds files (a ∷ listed) name h = elim (Option-cases (files a)) [
  | inl e ↦
      let one : 1 ≤ entries a (a ∷ listed) = ground arith in
      absurd (omega (arith, h a one, ap named_at e))
  | inr (f, e) ↦
      rw (find_in, e)
        (find_at f _ _ a listed (find_in-Finds files listed name (λ b n. h b (omega (arith, n)))))
]

pub find_file_by_name-Finds :
    (u : Ufs) (name : Bytes) → Alive u → Finds (find_file_by_name u name) u.file_list
unfolding find_file_by_name
find_file_by_name-Finds u name h =
    find_in-Finds u.files u.file_list name (λ a n. omega (arith, h.entered a, n))

pub put_self : (files : ℕ → Option File) (a : ℕ) (g : Option File) → put_file files a g a ≡ g
put_self files a g = let e : (a == a) ≡ true = ground arith in rw e

pub put-ne :
    (files : ℕ → Option File) (a b : ℕ) (g : Option File) → a ≢ b → put_file files a g b ≡ files b
put-ne files a b g h = let e : (b == a) ≡ false = ground arith in rw e

-- What is enough for a change at file `a`.
pub record Changes (u : Ufs) (a : ℕ) (g : Option File) (v : Ufs) : Type 0 where
  pub here : v.files a ≡ g
  pub elsewhere : (b : ℕ) → a ≢ b → v.files b ≡ u.files b
  pub counted_here : refs_at g ≡ uses a v.file_descriptors
  pub counted_else : (b : ℕ) → a ≢ b → uses b v.file_descriptors ≡ uses b u.file_descriptors
  pub entered_here : named_at g ≡ entries a v.file_list
  pub entered_else : (b : ℕ) → a ≢ b → entries b v.file_list ≡ entries b u.file_list
  pub used_here : orphan_at g ≤ refs_at g
  pub unborn_here : v.fresh ≤ a → g ≡ none
  pub later : u.fresh ≤ v.fresh

module _ {u : Ufs} {a : ℕ} {g : Option File} {v : Ufs} (c : Changes u a g v) (h : Alive u) where
  every :
      (P : ℕ → Option File → Type 0)
      → P a g
      → ((b : ℕ) → a ≢ b → P b (u.files b))
      → (b : ℕ) → P b (v.files b)
  every P at_a others b = elim (ℕ_discrete a b) [
    | yes e ↦ subst (λ k. P k (v.files k)) e (subst (P a) (sym c.here) at_a)
    | no ne ↦ subst (P b) (sym (c.elsewhere b ne)) (others b ne)
  ]

  pub Changes-Alive : Alive v
  Changes-Alive = record {
    counted =
        every (λ b f. refs_at f ≡ uses b v.file_descriptors) c.counted_here
          (λ b ne. h.counted b ∙ sym (c.counted_else b ne));
    entered =
        every (λ b f. named_at f ≡ entries b v.file_list) c.entered_here
          (λ b ne. h.entered b ∙ sym (c.entered_else b ne));
    used = every (λ b f. orphan_at f ≤ refs_at f) c.used_here (λ b ne. h.used b);
    unborn =
        every (λ b f. v.fresh ≤ b → f ≡ none) c.unborn_here
          (λ b ne le. h.unborn b (omega (arith, le, c.later)));
  }

pub failed-Safe : (u : Ufs) (code : UfsErrorCode) → Alive u → Safe (failed u code)
failed-Safe u code h = (record u { ufs_error_code = code }, negsuc 0, refl, h)

pub succeed-Safe : (u : Ufs) → Alive u → Safe (succeed u)
succeed-Safe u h = (record u { ufs_error_code = ufs_err_no_err }, pos 0, refl, h)

pub one_if_self : (a : ℕ) → one_if a a ≡ 1
one_if_self a = ground arith

pub one_if-ne : (a b : ℕ) → a ≢ b → one_if a b ≡ 0
one_if-ne a b h = ground arith

pub named_at-le : (f : Option File) → named_at f ≤ 1
named_at-le none = omega arith
named_at-le (some f) = ground arith
