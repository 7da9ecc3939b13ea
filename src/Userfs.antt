-- ===== src/Userfs.antt =====
-- 3/userfs.cpp: the files in memory, the directory and the table of descriptors. A file is known by
-- its address; following a pointer to a file that has been deleted gives `none`.
pub mod Table
pub mod Alive
pub mod Safety
pub mod Destroy
pub mod Blocks
mod Tests
pub use system_prog.Common.{ℤ, pos, negsuc}
use system_prog.Common.{
  ℕ, zero, suc, ◌+◌, ◌-◌, ◌/◌, ◌%◌, ◌^◌, Bool, true, false, not, ◌&&◌, ◌||◌, Option, none, some,
  List, [], ◌∷◌, ◌++◌, ◌==◌, if◌then◌else◌, Bytes, get_elem?, set,
}

pub data UfsErrorCode : Type 0 where
  ufs_err_no_err ufs_err_no_file ufs_err_no_mem ufs_err_not_implemented ufs_err_no_permission :
      UfsErrorCode

pub record Block : Type 0 where
  pub address : ℕ
  pub memory : Bytes

-- `refs` is an `int` in the source.
pub record File : Type 0 where
  pub blocks : List Block
  pub refs : ℕ
  pub name : Bytes
  pub size : ℕ
  pub last : Option ℕ
  pub blocks_count : ℕ
  pub deleted : Bool

pub record Filedesc : Type 0 where
  pub atfile : ℕ
  pub pos : ℕ
  pub cur_block : Option ℕ
  pub cur_block_index : ℤ
  pub flags : ℕ

-- The files that live, at their addresses, the address that the next one gets, and the globals.
pub record Ufs : Type 0 where
  pub files : ℕ → Option File
  pub fresh : ℕ
  pub file_list : List ℕ
  pub file_descriptors : List (Option Filedesc)
  pub ufs_error_code : UfsErrorCode

abbrev pub put_file : (ℕ → Option File) → ℕ → Option File → ℕ → Option File
put_file files a f b = if b == a then f else files b

abbrev pub failed : Ufs → UfsErrorCode → Option (Ufs × ℤ)
failed u code = some (record u { ufs_error_code = code }, negsuc 0)

abbrev same_name : Bytes → Bytes → Bool
same_name [] [] = true
same_name (c ∷ cs) (d ∷ ds) = (c == d) && same_name cs ds
same_name _ _ = false

-- The first file of the list that has the name, if all that are looked at live.
abbrev pub find_in : (ℕ → Option File) → List ℕ → Bytes → Option (Option ℕ)
find_in files [] name = some none
find_in files (a ∷ rest_list) name =
    let rest = find_in files rest_list name in
    elim (files a) [
      | none ↦ none
      | some f ↦ if not f.deleted && same_name f.name name then some (some a) else rest
    ]

pub find_file_by_name : Ufs → Bytes → Option (Option ℕ)
find_file_by_name u name = find_in u.files u.file_list name

abbrev flag : ℕ → ℕ → Bool
flag n flags = (flags / 2 ^ n) % 2 == 1

-- UFS_READ_WRITE if neither is asked for.
with_access : ℕ → ℕ
with_access flags = if (flags / 2) % 4 == 0 then flags + 6 else flags

-- The first free descriptor, or one more.
abbrev pub place : List (Option Filedesc) → Filedesc → List (Option Filedesc) × ℕ
place [] d = (some d ∷ [], 0)
place (none ∷ ds) d = (some d ∷ ds, 0)
place (some e ∷ ds) d = let rest = place ds d in (some e ∷ rest.0, suc rest.1)

abbrev pub opened_desc : ℕ → ℕ → Filedesc
opened_desc a flags = record {
  atfile = a;
  pos = 0;
  cur_block = none;
  cur_block_index = pos 0;
  flags = flags;
}

pub open_desc : Ufs → ℕ → ℕ → Option (Ufs × ℤ)
open_desc u a flags =
    let placed = place u.file_descriptors (opened_desc a flags) in
    some (
      record u { file_descriptors = placed.0; ufs_error_code = ufs_err_no_err },
      pos (placed.1 + 1),
    )

abbrev pub new_file : Bytes → File
new_file name = record {
  blocks = [];
  refs = 1;
  name = name;
  size = 0;
  last = none;
  blocks_count = 0;
  deleted = false;
}

pub create_file : Ufs → Bytes → Ufs
create_file u name = record u {
  files = put_file u.files u.fresh (some (new_file name));
  fresh = u.fresh + 1;
  file_list = u.file_list ++ u.fresh ∷ [];
}

pub open_again : Ufs → ℕ → ℕ → Option File → Option (Ufs × ℤ)
unfolding open_desc
open_again u a flags none = none
open_again u a flags (some f) =
    open_desc
      (record u {
        files = put_file u.files a (some (record f { refs = f.refs + 1; deleted = false }));
      })
      a flags

pub open_found : Ufs → Bytes → ℕ → Option (Option ℕ) → Option (Ufs × ℤ)
unfolding open_desc create_file open_again
open_found u name flags none = none
open_found u name flags (some (some a)) = open_again u a flags (u.files a)
open_found u name flags (some none) =
    if flag 0 flags then open_desc (create_file u name) u.fresh flags else failed u ufs_err_no_file

-- `none` for the name is a null pointer.
unfoldable pub ufs_open : Ufs → Option Bytes → ℕ → Option (Ufs × ℤ)
unfolding open_found find_file_by_name with_access
ufs_open u none flags = failed u ufs_err_no_file
ufs_open u (some name) flags = open_found u name (with_access flags) (find_file_by_name u name)

-- The descriptors of a file forget the block where they stand.
abbrev reset_desc : ℕ → Filedesc → Filedesc
reset_desc a d =
    if d.atfile == a then record d { cur_block = none; cur_block_index = negsuc 0 } else d

abbrev pub reset : ℕ → List (Option Filedesc) → List (Option Filedesc)
reset a [] = []
reset a (none ∷ ds) = none ∷ reset a ds
reset a (some d ∷ ds) = some (reset_desc a d) ∷ reset a ds

-- `free_file_blocks`, and the file with them.
abbrev pub delete_file : Ufs → ℕ → Ufs
delete_file u a = record u {
  files = put_file u.files a none;
  file_descriptors = reset a u.file_descriptors;
}

abbrev pub succeed : Ufs → Option (Ufs × ℤ)
succeed u = some (record u { ufs_error_code = ufs_err_no_err }, pos 0)

pub close_file : Ufs → ℕ → ℕ → Option File → Option (Ufs × ℤ)
close_file u i a none = none
close_file u i a (some f) =
    let closed = record u {
      files = put_file u.files a (some (record f { refs = f.refs - 1 }));
      file_descriptors = set u.file_descriptors i none;
    } in
    if (f.refs - 1 == 0) && f.deleted then succeed (delete_file closed a) else succeed closed

abbrev pub desc_of : Option (Option Filedesc) → Option Filedesc
desc_of none = none
desc_of (some d) = d

pub close_desc : Ufs → ℕ → Option Filedesc → Option (Ufs × ℤ)
unfolding close_file
close_desc u i none = failed u ufs_err_no_file
close_desc u i (some d) = close_file u i d.atfile (u.files d.atfile)

unfoldable pub ufs_close : Ufs → ℤ → Option (Ufs × ℤ)
unfolding close_desc
ufs_close u (negsuc k) = failed u ufs_err_no_file
ufs_close u (pos zero) = failed u ufs_err_no_file
ufs_close u (pos (suc i)) = close_desc u i (desc_of (get_elem? u.file_descriptors i))

abbrev pub remove : ℕ → List ℕ → List ℕ
remove a [] = []
remove a (b ∷ bs) = let rest = remove a bs in if b == a then bs else b ∷ rest

pub delete_named : Ufs → ℕ → Option File → Option (Ufs × ℤ)
delete_named u a none = none
delete_named u a (some f) =
    let unlinked = record u {
      files = put_file u.files a (some (record f { deleted = true }));
      file_list = remove a u.file_list;
      file_descriptors = reset a u.file_descriptors;
    } in
    if f.refs == 0 then succeed (delete_file unlinked a) else succeed unlinked

pub delete_found : Ufs → Option (Option ℕ) → Option (Ufs × ℤ)
unfolding delete_named
delete_found u none = none
delete_found u (some none) = failed u ufs_err_no_file
delete_found u (some (some a)) = delete_named u a (u.files a)

unfoldable pub ufs_delete : Ufs → Bytes → Option (Ufs × ℤ)
unfolding delete_found find_file_by_name
ufs_delete u name = delete_found u (find_file_by_name u name)

-- The files that descriptors use and that the directory names.
abbrev pub is_used : ℕ → List (Option Filedesc) → Bool
is_used a [] = false
is_used a (none ∷ ds) = is_used a ds
is_used a (some d ∷ ds) = (d.atfile == a) || is_used a ds

abbrev pub is_listed : ℕ → List ℕ → Bool
is_listed a [] = false
is_listed a (b ∷ bs) = (b == a) || is_listed a bs

unfoldable pub ufs_destroy : Ufs → Ufs
ufs_destroy u = record u {
  files = λ a. if is_used a u.file_descriptors || is_listed a u.file_list then none else u.files a;
  file_list = [];
  file_descriptors = [];
  ufs_error_code = ufs_err_no_err;
}

-- The state of a program that starts.
abbrev pub initial : Ufs
initial = record {
  files = λ a. none;
  fresh = 0;
  file_list = [];
  file_descriptors = [];
  ufs_error_code = ufs_err_no_err;
}
