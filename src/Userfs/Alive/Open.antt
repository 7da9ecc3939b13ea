-- ===== src/Userfs/Alive/Open.antt =====
-- `ufs_open` keeps the files alive that are pointed to.
use mathlib.Core.Path.{subst}
use system_prog.Common.{
  ℕ, ◌+◌, ◌≤◌, ◌≡◌, refl, ap, sym, false, Option, none, some, [], ◌∷◌, ◌++◌, arith, Bytes, inl, inr,
  Bool-cases,
}
use system_prog.Userfs.Table.{entries, uses-place, entries-append}
use system_prog.Userfs.{
  pos, File, Ufs, ufs_err_no_err, ufs_err_no_file, put_file, find_file_by_name, flag, place,
  opened_desc, open_desc, new_file, create_file, open_again, open_found, with_access, ufs_open,
}
use system_prog.Userfs.Alive.{
  refs_at, named_at, Alive, Safe, Finds, put_self, put-ne, Changes-Alive, failed-Safe, one_if_self,
  one_if-ne, named_at-le, find_file_by_name-Finds,
}

open_again-Safe :
    (u : Ufs) (a flags : ℕ) (f : File)
    → u.files a ≡ some f
    → 1 ≤ entries a u.file_list
    → Alive u
    → Safe (open_again u a flags (some f))
unfolding open_again open_desc
open_again-Safe u a flags f e n h =
    let d = opened_desc a flags in
    let again : Option File = some (record f { refs = f.refs + 1; deleted = false }) in
    let placed = place u.file_descriptors d in
    let v : Ufs = record u {
      files = put_file u.files a again;
      file_descriptors = placed.0;
      ufs_error_code = ufs_err_no_err;
    } in
    (
      v,
      pos (placed.1 + 1),
      refl,
      Changes-Alive {u = u} {a = a} {g = again} {v = v}
          (record {
            here = put_self u.files a again;
            elsewhere = λ b ne. put-ne u.files a b again ne;
            counted_here = omega (
              arith,
              h.counted a,
              ap refs_at e,
              uses-place a u.file_descriptors d,
              one_if_self a,
            );
            counted_else =
                λ b ne. omega (arith, uses-place b u.file_descriptors d, one_if-ne a b ne);
            entered_here = omega (arith, h.entered a, named_at-le (u.files a));
            entered_else = λ b ne. refl;
            used_here = omega arith;
            unborn_here = λ le. cc (h.unborn a le, e);
            later = omega arith;
          })
          h,
    )

create-Safe :
    (u : Ufs) (name : Bytes) (flags : ℕ)
    → Alive u
    → Safe (open_desc (create_file u name) u.fresh flags)
unfolding create_file open_desc
create-Safe u name flags h =
    let a = u.fresh in
    let d = opened_desc a flags in
    let none_yet : u.files a ≡ none = h.unborn a (omega arith) in
    let placed = place u.file_descriptors d in
    let v : Ufs = record u {
      files = put_file u.files a (some (new_file name));
      fresh = u.fresh + 1;
      file_list = u.file_list ++ a ∷ [];
      file_descriptors = placed.0;
      ufs_error_code = ufs_err_no_err;
    } in
    (
      v,
      pos (placed.1 + 1),
      refl,
      Changes-Alive {u = u} {a = a} {g = some (new_file name)} {v = v}
          (record {
            here = put_self u.files a (some (new_file name));
            elsewhere = λ b ne. put-ne u.files a b (some (new_file name)) ne;
            counted_here = omega (
              arith,
              h.counted a,
              ap refs_at none_yet,
              uses-place a u.file_descriptors d,
              one_if_self a,
            );
            counted_else =
                λ b ne. omega (arith, uses-place b u.file_descriptors d, one_if-ne a b ne);
            entered_here = omega (
              arith,
              h.entered a,
              ap named_at none_yet,
              entries-append a u.file_list a,
              one_if_self a,
            );
            entered_else = λ b ne. omega (arith, entries-append b u.file_list a, one_if-ne a b ne);
            used_here = omega arith;
            unborn_here = λ le. absurd (omega (arith, le));
            later = omega arith;
          })
          h,
    )

pub listed-lives :
    (u : Ufs) (a : ℕ) (g : Option File)
    → u.files a ≡ g
    → 1 ≤ entries a u.file_list
    → Alive u
    → (f : File) × (g ≡ some f)
listed-lives u a none e n h = absurd (omega (arith, h.entered a, ap named_at e, n))
listed-lives u a (some f) e n h = (f, refl)

open_at-Safe :
    (u : Ufs) (a flags : ℕ)
    → 1 ≤ entries a u.file_list
    → Alive u
    → Safe (open_again u a flags (u.files a))
open_at-Safe u a flags n h =
    (let (f, e) = listed-lives u a (u.files a) refl n h in
      subst (λ g. Safe (open_again u a flags g)) (sym e) (open_again-Safe u a flags f e n h))

open_found-Safe :
    (u : Ufs) (name : Bytes) (flags : ℕ) (r : Option (Option ℕ))
    → Finds r u.file_list
    → Alive u
    → Safe (open_found u name flags r)
unfolding open_found
open_found-Safe u name flags none found h = elim found [ inl e ↦ cc | inr (b, e, n) ↦ cc ]
open_found-Safe u name flags (some none) found h = elim (Bool-cases (flag 0 flags)) [
  | inl t ↦ rw t (create-Safe u name flags h)
  | inr t ↦ rw t (failed-Safe u ufs_err_no_file h)
]
open_found-Safe u name flags (some (some a)) found h = elim found [
  | inl e ↦ cc
  | inr (b, e, n) ↦
      let same : b ≡ a = cc in
      open_at-Safe u a flags (subst (λ c. 1 ≤ entries c u.file_list) same n) h
]

pub ufs_open-Safe :
    (u : Ufs) (name : Option Bytes) (flags : ℕ) → Alive u → Safe (ufs_open u name flags)
unfolding ufs_open
ufs_open-Safe u none flags h = failed-Safe u ufs_err_no_file h
ufs_open-Safe u (some name) flags h =
    open_found-Safe u name (with_access flags) (find_file_by_name u name)
      (find_file_by_name-Finds u name h) h
