-- ===== src/Userfs/Blocks/Calls.antt =====
-- `ufs_write` and `ufs_read` of 3/userfs.cpp.
use system_prog.Common.{
  ℕ, zero, suc, ◌+◌, ◌-◌, ◌/◌, ◌%◌, ◌^◌, Bool, true, false, ◌||◌, Option, none, some, [], ◌++◌,
  ◌==◌, leb, ltb, if◌then◌else◌, is_empty, Bytes, get_elem?, set, length,
}
use system_prog.Userfs.Blocks.{
  block_size, memory_at, copy_into, slice, min, Pointer, null, dangling, at, Open, add_block, cache,
  get_block_by_index,
}
use system_prog.Userfs.{
  File, Filedesc, Ufs, ℤ, pos, negsuc, put_file, failed, desc_of, ufs_err_no_err, ufs_err_no_file,
  ufs_err_no_mem, ufs_err_no_permission,
}

abbrev pub max_file_size : ℕ
max_file_size = 104857600

-- `memcpy` into the block at place `k`, with the position that moves on.
abbrev pub copy_to : Open → ℕ → ℕ → ℕ → Bytes → Open
copy_to o k offset chunk bytes = record o {
  desc = record o.desc { pos = o.desc.pos + chunk };
  file = record o.file { blocks = copy_into o.file.blocks k offset bytes };
}

-- The block after the one at place `k`, new if there is none.
abbrev pub grow : Open → ℕ → Open
grow o k = if ltb (suc k) (length o.file.blocks) then o else add_block o

-- The loop, from `written` on, with the place of the block where it ends.
unfoldable pub write_loop : ℕ → ℕ → ℕ → ℕ → Bytes → Open → Open × ℕ
write_loop zero k offset written buf o = (o, k)
write_loop (suc fuel) k offset written buf o =
    let chunk = min (block_size - offset) (length buf - written) in
    let o' = copy_to o k offset chunk (slice chunk written buf) in
    let rest = write_loop fuel (suc k) 0 (written + chunk) buf (grow o' k) in
    if written + chunk == length buf then (o', k) else rest

abbrev pub cache_at : Open → ℕ → ℕ → Open
cache_at o k index = elim (get_elem? o.file.blocks k) [
  | none ↦ o
  | some b ↦ cache o b.address index
]

abbrev pub with_size : Open → Open
with_size o =
    if ltb o.file.size o.desc.pos
    then record o { file = record o.file { size = o.desc.pos } }
    else o

-- What is done with the block that is found: none where its pointer dangles, and whether there is
-- one; every round writes a byte at least, so the number of bytes is enough fuel.
unfoldable pub write_found : Bytes → Option (Open × Pointer) → Option (Open × Bool)
unfolding write_loop
write_found buf none = none
write_found buf (some (o, null)) = some (o, false)
write_found buf (some (o, dangling)) = none
write_found buf (some (o, at k)) =
    let r = write_loop (length buf) k (o.desc.pos % block_size) 0 buf o in
    some (cache_at (with_size r.0) r.1 (o.desc.pos / block_size + (r.1 - k)), true)

-- The part of `ufs_write` behind its checks.
unfoldable pub write_at : Open → Bytes → Option (Open × Bool)
unfolding write_found
write_at o buf = write_found buf (get_block_by_index o (o.desc.pos / block_size) true)

-- The loop, with what it reads from `read` on and the place where it ends.
unfoldable pub read_loop : ℕ → ℕ → ℕ → ℕ → ℕ → Open → Bytes × ℕ
read_loop zero k offset read to_read o = ([], k)
read_loop (suc fuel) k offset read to_read o =
    let chunk = min (block_size - offset) (to_read - read) in
    let part = slice chunk offset (memory_at o.file.blocks k) in
    let rest = read_loop fuel (suc k) 0 (read + chunk) to_read o in
    if read + chunk == to_read
    then (part, k)
    else if ltb (suc k) (length o.file.blocks)
    then (part ++ rest.0, rest.1)
    else (part, k)

-- Where no byte is asked for, a pointer that dangles is not followed.
unfoldable pub read_found : ℕ → Option (Open × Pointer) → Option (Open × Bytes)
unfolding read_loop
read_found to_read none = none
read_found to_read (some (o, null)) = some (o, [])
read_found to_read (some (o, dangling)) = if to_read == 0 then some (o, []) else none
read_found to_read (some (o, at k)) =
    let r = read_loop to_read k (o.desc.pos % block_size) 0 to_read o in
    let o' = record o { desc = record o.desc { pos = o.desc.pos + length r.0 } } in
    some (cache_at o' r.1 (o.desc.pos / block_size + (r.1 - k)), r.0)

unfoldable pub read_at : Open → ℕ → Option (Open × Bytes)
unfolding read_found
read_at o size =
    if leb o.file.size o.desc.pos
    then some (o, [])
    else read_found (min size (o.file.size - o.desc.pos))
        (get_block_by_index o (o.desc.pos / block_size) false)

-- The descriptor and its file go back where they are.
abbrev pub put_open : Ufs → ℕ → ℕ → Open → Ufs
put_open u i a o = record u {
  files = put_file u.files a (some o.file);
  fresh = o.fresh;
  file_descriptors = set u.file_descriptors i (some o.desc);
  ufs_error_code = ufs_err_no_err;
}

abbrev pub flag_set : ℕ → ℕ → Bool
flag_set n flags = (flags / 2 ^ n) % 2 == 1

abbrev pub wrote : Ufs → ℕ → ℕ → ℕ → Option (Open × Bool) → Option (Ufs × ℤ)
wrote u i a size none = none
wrote u i a size (some (o, false)) =
    some (record (put_open u i a o) { ufs_error_code = ufs_err_no_mem }, negsuc 0)
wrote u i a size (some (o, true)) = some (put_open u i a o, pos size)

abbrev pub has_read : Ufs → ℕ → ℕ → Option (Open × Bytes) → Option (Ufs × ℤ × Bytes)
has_read u i a none = none
has_read u i a (some (o, bytes)) = some (put_open u i a o, pos (length bytes), bytes)

-- The bit of UFS_WRITE_ONLY.
unfoldable pub write_desc : Ufs → ℕ → Bytes → Filedesc → Option File → Option (Ufs × ℤ)
unfolding write_at
write_desc u i buf d none = none
write_desc u i buf d (some f) =
    if is_empty buf
    then some (record u { ufs_error_code = ufs_err_no_err }, pos 0)
    else if ltb max_file_size (length buf) || ltb (max_file_size - length buf) d.pos
    then failed u ufs_err_no_mem
    else wrote u i d.atfile (length buf)
        (write_at (record { desc = d; file = f; fresh = u.fresh }) buf)

unfoldable pub write_open : Ufs → ℕ → Bytes → Option Filedesc → Option (Ufs × ℤ)
unfolding write_desc
write_open u i buf none = failed u ufs_err_no_file
write_open u i buf (some d) =
    if flag_set 2 d.flags
    then write_desc u i buf d (u.files d.atfile)
    else failed u ufs_err_no_permission

unfoldable pub ufs_write : Ufs → ℤ → Bytes → Option (Ufs × ℤ)
unfolding write_open
ufs_write u (negsuc k) buf = failed u ufs_err_no_file
ufs_write u (pos zero) buf = failed u ufs_err_no_file
ufs_write u (pos (suc i)) buf = write_open u i buf (desc_of (get_elem? u.file_descriptors i))

abbrev pub read_failed : Ufs → Option (Ufs × ℤ × Bytes)
read_failed u = some (record u { ufs_error_code = ufs_err_no_file }, negsuc 0, [])

unfoldable pub read_desc : Ufs → ℕ → ℕ → Filedesc → Option File → Option (Ufs × ℤ × Bytes)
unfolding read_at
read_desc u i size d none = none
read_desc u i size d (some f) =
    has_read u i d.atfile (read_at (record { desc = d; file = f; fresh = u.fresh }) size)

-- The bit of UFS_READ_ONLY.
unfoldable pub read_open : Ufs → ℕ → ℕ → Option Filedesc → Option (Ufs × ℤ × Bytes)
unfolding read_desc
read_open u i size none = read_failed u
read_open u i size (some d) =
    if flag_set 1 d.flags
    then read_desc u i size d (u.files d.atfile)
    else some (record u { ufs_error_code = ufs_err_no_permission }, negsuc 0, [])

unfoldable pub ufs_read : Ufs → ℤ → ℕ → Option (Ufs × ℤ × Bytes)
unfolding read_open
ufs_read u (negsuc k) size = read_failed u
ufs_read u (pos zero) size = read_failed u
ufs_read u (pos (suc i)) size = read_open u i size (desc_of (get_elem? u.file_descriptors i))
