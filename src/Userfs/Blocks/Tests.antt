-- ===== src/Userfs/Blocks/Tests.antt =====
-- A write that crosses into a new block, and what is read after it.
use mathlib.Core.Path.{subst}
use system_prog.Common.{Option, ◌≡◌, refl, none, some, [], ◌∷◌, Bytes, arith}
use system_prog.Userfs.Blocks.Calls.{put_open, ufs_write, ufs_read}
use system_prog.Userfs.Blocks.Resize.{ufs_resize}
use system_prog.Userfs.Blocks.Found.{Sound, Cached}
use system_prog.Userfs.Blocks.RoundTrip.{Overwrites}
use system_prog.Userfs.Blocks.Descriptors.{Shares, ufs_write-ufs_read}
use system_prog.Userfs.Blocks.{Open, place_of, get_block_by_index}
use system_prog.Userfs.{
  File, Filedesc, Ufs, pos, negsuc, initial, new_file, opened_desc, ℤ, ufs_err_no_file,
}

abbrev file : File
file = record (new_file (97 ∷ [])) {
  blocks = record { address = 0; memory = 5 ∷ 6 ∷ [] } ∷ [];
  size = 511;
  last = some 0;
  blocks_count = 1;
}

abbrev near_end : Open
near_end = record {
  desc = record (opened_desc 0 6) { pos = 511; cur_block = some 0; cur_block_index = pos 0 };
  file = file;
  fresh = 1;
}

abbrev other : Filedesc
other = record (opened_desc 0 6) { pos = 511 }

near_end-Sound : Sound near_end
near_end-Sound = record { counted = refl; below = (omega arith, tt) }

near_end-Cached : Cached near_end
near_end-Cached =
    λ a e. let q : 0 ≡ a = cc in (0, subst (λ x. place_of x file.blocks ≡ some 0) q refl, refl)

abbrev text : Bytes
text = 7 ∷ 8 ∷ 9 ∷ []

abbrev shared : Ufs
shared = record initial {
  files = λ a. some file;
  fresh = 1;
  file_descriptors = some near_end.desc ∷ some other ∷ [];
}

near_end-Shares : Shares shared 0 1 near_end.desc other file
near_end-Shares = record {
  writer = refl;
  reader = refl;
  file = refl;
  same_file = refl;
  may_write = refl;
  may_read = refl;
  same_pos = refl;
  uncached = refl;
  sound = near_end-Sound;
  cached = near_end-Cached;
}

ufs_write-ufs_read_example :
    (o : Open) × (w : Ufs) × Overwrites near_end text o
    × (ufs_write shared (pos 1) text ≡ some (put_open shared 0 0 o, pos 3))
    × (ufs_read (put_open shared 0 0 o) (pos 2) 3 ≡ some (w, pos 3, text))
ufs_write-ufs_read_example =
    ufs_write-ufs_read shared 0 1 near_end.desc other file text (omega arith) near_end-Shares
      (omega arith) (omega arith) (omega arith)

no_file :
    ufs_write initial (pos 1) text
    ≡ some (record initial { ufs_error_code = ufs_err_no_file }, negsuc 0)
unfolding ufs_write
no_file = refl

-- A descriptor at the start of the second block of a file.
abbrev two_blocks : Ufs
two_blocks = record initial {
  files = λ a. some (record file {
    blocks = record { address = 0; memory = [] } ∷ record { address = 1; memory = [] } ∷ [];
    size = 1024;
    last = some 1;
    blocks_count = 2;
  });
  fresh = 2;
  file_descriptors = some (record (opened_desc 0 6) { pos = 512 }) ∷ [];
}

-- It reads no bytes, the file is cut there, and it writes.
read_resize_write : Option (Ufs × ℤ)
read_resize_write = elim (ufs_read two_blocks (pos 1) 0) [
  | none ↦ some (two_blocks, negsuc 0)
  | some (u, r, bytes) ↦ elim (ufs_resize u (pos 1) 512) [
    | none ↦ some (two_blocks, negsuc 0)
    | some (v, s) ↦ ufs_write v (pos 1) text
  ]
]

dangles : read_resize_write ≡ none
unfolding read_resize_write ufs_read ufs_write ufs_resize get_block_by_index
dangles = refl
