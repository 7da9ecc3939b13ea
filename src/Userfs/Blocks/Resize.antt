-- ===== src/Userfs/Blocks/Resize.antt =====
-- `ufs_resize` of 3/userfs.cpp.
use system_prog.Common.{
  ℕ, zero, suc, ◌+◌, ◌-◌, ◌*◌, ◌/◌, ◌%◌, not, ◌&&◌, Option, none, some, List, [], ◌∷◌, ◌==◌, ltb,
  if◌then◌else◌, get_elem?, length,
}
use system_prog.Userfs.Blocks.Calls.{max_file_size, flag_set}
use system_prog.Userfs.Blocks.{block_size, min, zeros, copy_into, Open, add_blocks}
use system_prog.Userfs.{
  Block, Filedesc, Ufs, ℤ, pos, negsuc, put_file, failed, succeed, desc_of, ufs_err_no_file,
  ufs_err_no_mem, ufs_err_no_permission,
}

abbrev pub remove_last : List Block → List Block
remove_last [] = []
remove_last (b ∷ []) = []
remove_last (b ∷ c ∷ bs) = b ∷ remove_last (c ∷ bs)

-- `last` goes on to point to the block that was the last.
abbrev pub remove_blocks : ℕ → Open → Open
remove_blocks zero o = o
remove_blocks (suc n) o = remove_blocks n (record o {
  file = record o.file {
    blocks = remove_last o.file.blocks;
    blocks_count = o.file.blocks_count - 1;
  };
})

-- `memset` with zeros in the last block of the list.
abbrev pub clear_last : Open → ℕ → ℕ → Open
clear_last o offset count = record o {
  file = record o.file {
    blocks = copy_into o.file.blocks (length o.file.blocks - 1) offset (zeros count);
  };
}

abbrev pub blocks_for : ℕ → ℕ
blocks_for size = (size + block_size - 1) / block_size

abbrev pub clear_used : Open → ℕ → ℕ → Open
clear_used o old_size new_size =
    if not (old_size % block_size == 0) && ltb (old_size / block_size) (blocks_for new_size)
    then (let to = min new_size (blocks_for old_size * block_size) in
        if ltb old_size to then clear_last o (old_size % block_size) (to - old_size) else o)
    else o

abbrev pub clear_kept : Open → ℕ → Open
clear_kept o new_size =
    if not (new_size % block_size == 0) && ltb 0 o.file.blocks_count
    then clear_last o (new_size % block_size) (block_size - new_size % block_size)
    else o

unfoldable pub resize_blocks : Open → ℕ → Open
unfolding add_blocks
resize_blocks o new_size =
    if ltb o.file.size new_size
    then clear_used (add_blocks (blocks_for new_size - o.file.blocks_count) o) o.file.size new_size
    else if ltb new_size o.file.size
    then clear_kept (remove_blocks (o.file.blocks_count - blocks_for new_size) o) new_size
    else o

-- The descriptors of the file that stand behind its end.
abbrev cut_desc : ℕ → ℕ → Filedesc → Filedesc
cut_desc a new_size d =
    if d.atfile == a && ltb new_size d.pos
    then record d { pos = new_size; cur_block = none; cur_block_index = negsuc 0 }
    else d

abbrev pub cut : ℕ → ℕ → List (Option Filedesc) → List (Option Filedesc)
cut a new_size [] = []
cut a new_size (none ∷ ds) = none ∷ cut a new_size ds
cut a new_size (some d ∷ ds) = some (cut_desc a new_size d) ∷ cut a new_size ds

abbrev pub put_resized : Ufs → ℕ → Open → ℕ → Option (Ufs × ℤ)
put_resized u a o new_size = succeed (record u {
  files = put_file u.files a (some (record o.file { size = new_size }));
  fresh = o.fresh;
  file_descriptors = cut a new_size u.file_descriptors;
})

resize_open : Ufs → ℕ → Option Filedesc → Option (Ufs × ℤ)
unfolding resize_blocks
resize_open u new_size none = failed u ufs_err_no_file
resize_open u new_size (some d) =
    if flag_set 2 d.flags
    then elim (u.files d.atfile) [
      | none ↦ none
      | some f ↦
          if ltb max_file_size new_size
          then failed u ufs_err_no_mem
          else put_resized u d.atfile
              (resize_blocks (record { desc = d; file = f; fresh = u.fresh }) new_size) new_size
    ]
    else failed u ufs_err_no_permission

unfoldable pub ufs_resize : Ufs → ℤ → ℕ → Option (Ufs × ℤ)
unfolding resize_open
ufs_resize u (negsuc k) new_size = failed u ufs_err_no_file
ufs_resize u (pos zero) new_size = failed u ufs_err_no_file
ufs_resize u (pos (suc i)) new_size =
    resize_open u new_size (desc_of (get_elem? u.file_descriptors i))
