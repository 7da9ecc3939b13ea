-- ===== src/Userfs/Blocks.antt =====
-- The data of a file: `get_block_by_index`, `ufs_write`, `ufs_read` and `ufs_resize` of 3/userfs.cpp. Within a call
-- a block is known by its place in the list of its file; a cached pointer is an address, and `none`
-- is what comes of following it when its block is gone.
pub mod Calls
pub mod Content
pub mod Loops
pub mod Found
pub mod RoundTrip
pub mod Descriptors
pub mod Resize
mod Tests
use system_prog.Common.{
  ℕ, zero, suc, ◌+◌, ◌-◌, ◌*◌, ◌/◌, ◌%◌, Bool, true, false, not, ◌&&◌, ◌||◌, Option, none, some,
  List, [], ◌∷◌, ◌++◌, ◌==◌, leb, ltb, if◌then◌else◌, is_empty, Bytes, get_elem?, set, length, drop,
}
use system_prog.Userfs.{Block, File, Filedesc, ℤ, pos, negsuc}

abbrev pub block_size : ℕ
block_size = 512

-- The byte at a place, and the bytes that `memcpy` takes from it on or puts there.
abbrev pub byte : Bytes → ℕ → ℕ
byte [] i = 0
byte (x ∷ xs) zero = x
byte (x ∷ xs) (suc i) = byte xs i

abbrev pub slice : ℕ → ℕ → Bytes → Bytes
slice zero offset memory = []
slice (suc n) offset memory = byte memory offset ∷ slice n (suc offset) memory

abbrev pub overlay : ℕ → Bytes → Bytes → Bytes
overlay zero [] memory = memory
overlay zero (b ∷ bs) [] = b ∷ overlay zero bs []
overlay zero (b ∷ bs) (x ∷ memory) = b ∷ overlay zero bs memory
overlay (suc n) bs [] = 0 ∷ overlay n bs []
overlay (suc n) bs (x ∷ memory) = x ∷ overlay n bs memory

abbrev pub min : ℕ → ℕ → ℕ
min a b = if leb a b then a else b

abbrev pub shift : Option ℕ → Option ℕ
shift none = none
shift (some k) = some (suc k)

-- Where the block at an address is.
abbrev pub place_of : ℕ → List Block → Option ℕ
place_of a [] = none
place_of a (b ∷ bs) = if b.address == a then some 0 else shift (place_of a bs)

-- What a block holds, and a `memcpy` into it.
abbrev pub memory_at : List Block → ℕ → Bytes
memory_at [] k = []
memory_at (b ∷ bs) zero = b.memory
memory_at (b ∷ bs) (suc k) = memory_at bs k

abbrev pub copy_into : List Block → ℕ → ℕ → Bytes → List Block
copy_into [] k offset bytes = []
copy_into (b ∷ bs) zero offset bytes = record b { memory = overlay offset bytes b.memory } ∷ bs
copy_into (b ∷ bs) (suc k) offset bytes = b ∷ copy_into bs k offset bytes

-- A pointer to a block.
pub data Pointer : Type 0 where
  null dangling : Pointer
  at : ℕ → Pointer

abbrev pub follow : Option ℕ → Pointer
follow none = dangling
follow (some k) = at k

-- A descriptor, its file, and the address that the next block gets.
pub record Open : Type 0 where
  pub desc : Filedesc
  pub file : File
  pub fresh : ℕ

abbrev pub zeros : ℕ → Bytes
zeros zero = []
zeros (suc n) = 0 ∷ zeros n

-- `allocate_block`, at the end of the list of the file.
abbrev pub add_block : Open → Open
add_block o = record o {
  file = record o.file {
    blocks = o.file.blocks ++ record { address = o.fresh; memory = zeros block_size } ∷ [];
    last = some o.fresh;
    blocks_count = o.file.blocks_count + 1;
  };
  fresh = o.fresh + 1;
}

unfoldable pub add_blocks : ℕ → Open → Open
add_blocks zero o = o
add_blocks (suc n) o = add_blocks n (add_block o)

abbrev pub cache : Open → ℕ → ℕ → Open
cache o a index = record o {
  desc = record o.desc { cur_block = some a; cur_block_index = pos index };
}

-- The block that `last` points to.
abbrev pub last_of : Open → Pointer
last_of o = elim o.file.last [ none ↦ null | some a ↦ follow (place_of a o.file.blocks) ]

abbrev pub set_last : Open → ℕ → Open
set_last o index = record o {
  desc = record o.desc { cur_block = o.file.last; cur_block_index = pos index };
}

-- The walk from the first block.
unfoldable pub walk : Open → ℕ → Bool → Open × Pointer
walk o index create = elim (get_elem? o.file.blocks index) [
  | some b ↦ (cache o b.address index, at index)
  | none ↦
      if create
      then (let grown = add_blocks (suc index - o.file.blocks_count) o in
          (set_last grown index, last_of grown))
      else (o, null)
]

-- The neighbour of the cached block, or the walk.
abbrev pub step_to : Open → ℕ → Bool → Option ℕ → Open × Pointer → Open × Pointer
step_to o index create none found = found
step_to o index create (some k) found = elim (get_elem? o.file.blocks k) [
  | some b ↦ (cache o b.address index, at k)
  | none ↦ found
]

abbrev pub before : ℕ → Option ℕ
before zero = none
before (suc k) = some k

-- The two branches that follow the cached pointer; none where it dangles.
abbrev pub neighbour :
    Open → ℕ → Bool → Option ℕ → Bool → Bool → Open × Pointer → Option (Open × Pointer)
neighbour o index create none false false found = some found
neighbour o index create none _ _ found = none
neighbour o index create (some k) true is_prev found =
    some (step_to o index create (some (suc k)) found)
neighbour o index create (some k) false true found = some (step_to o index create (before k) found)
neighbour o index create (some k) false false found = some found

abbrev pub is_at : ℤ → ℕ → Bool
is_at (pos n) index = n == index
is_at (negsuc n) index = false

abbrev pub is_next : ℤ → ℕ → Bool
is_next (pos n) index = suc n == index
is_next (negsuc n) index = n == 0 && index == 0

abbrev pub is_prev : ℤ → ℕ → Bool
is_prev (pos n) index = n == suc index
is_prev (negsuc n) index = false

abbrev pub find_from : Open → ℕ → Bool → Option ℕ → Option (Open × Pointer)
find_from o index create none = some (walk o index create)
find_from o index create (some a) =
    if is_at o.desc.cur_block_index index
    then some (o, follow (place_of a o.file.blocks))
    else neighbour o index create (place_of a o.file.blocks) (is_next o.desc.cur_block_index index)
        (is_prev o.desc.cur_block_index index) (walk o index create)

unfoldable pub get_block_by_index : Open → ℕ → Bool → Option (Open × Pointer)
unfolding walk add_blocks
get_block_by_index o index create = find_from o index create o.desc.cur_block
