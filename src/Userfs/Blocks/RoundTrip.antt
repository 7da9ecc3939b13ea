-- ===== src/Userfs/Blocks/RoundTrip.antt =====
-- `ufs_write` and then `ufs_read` of 3/userfs.cpp, behind their checks.
use mathlib.Core.Path.{subst}
use system_prog.Common.{
  ℕ, ◌+◌, ◌-◌, ◌*◌, ◌/◌, ◌%◌, ◌≤◌, ◌<◌, ◌≡◌, ap₂, ◌⊎◌, ◌∙◌, refl, sym, ap, true, false, ◌&&◌, none,
  some, Option-cases, leb, ltb, if_true, if_false, Bytes, get_elem?, length, arith, Bool-cases, inl,
  inr,
}
use system_prog.Userfs.Blocks.Calls.{
  write_loop, with_size, cache_at, write_found, write_at, read_found, read_at,
}
use system_prog.Userfs.Blocks.Content.{content, over, window, window-ext, window-byte}
use system_prog.Userfs.Blocks.Found.{Sound, Cached, Alike, get_block_by_index-Found}
use system_prog.Userfs.Blocks.Loops.{Wrote, write_loop-Wrote, read_loop-window}
use system_prog.Userfs.Blocks.{byte, min, Open}
use system_prog.Userfs.{Filedesc}

-- The buffer is in the file, at the position where the descriptor was, and nothing else has changed.
pub record Overwrites (o : Open) (buf : Bytes) (o' : Open) : Type 0 where
  pub bytes :
      (n : ℕ)
      → content o'.file.blocks n ≡ over o.desc.pos (length buf) 0 buf (content o.file.blocks) n
  pub moved : o'.desc.pos ≡ o.desc.pos + length buf
  pub size : (o'.file.size ≡ o.file.size) ⊎ (o'.file.size ≡ o.desc.pos + length buf)
  pub reaches : o.desc.pos + length buf ≤ o'.file.size
  pub keeps : o.file.size ≤ o'.file.size
  pub covers : o.desc.pos + length buf ≤ 512 * length o'.file.blocks
  pub sound : Sound o'

cache_at-Overwrites :
    (o : Open) (buf : Bytes) (o' : Open) (k index : ℕ)
    → Overwrites o buf o'
    → Overwrites o buf (cache_at o' k index)
cache_at-Overwrites o buf o' k index w = elim (Option-cases (get_elem? o'.file.blocks k)) [
  | inl e ↦ rw (cache_at, e) w
  | inr (b, e) ↦
      rw (cache_at, e)
        (record {
          bytes = w.bytes;
          moved = w.moved;
          size = w.size;
          reaches = w.reaches;
          keeps = w.keeps;
          covers = w.covers;
          sound = record { counted = w.sound.counted; below = w.sound.below };
        })
]

with_size-Overwrites :
    (o : Open) (buf : Bytes) (q : Open) (r : Open × ℕ)
    → Alike o q
    → Wrote o.desc.pos (length buf) 0 buf q r
    → Overwrites o buf (with_size r.0)
with_size-Overwrites o buf q r a w =
    let bytes =
      λ (n : ℕ). w.bytes n ∙ ap (λ y. over o.desc.pos (length buf) 0 buf (λ z. y) n) (a.bytes n) in
    let moved = w.moved ∙ ap (λ x. x + length buf) a.same_pos in
    elim (Bool-cases (ltb r.0.file.size r.0.desc.pos)) [
      | inl e ↦
          let h : r.0.file.size < r.0.desc.pos = ground arith in
          subst (Overwrites o buf) (sym (if_true _ _ e)) (record {
            bytes = bytes;
            moved = moved;
            size = inr moved;
            reaches = omega (arith, moved);
            keeps = omega (arith, h, w.same_size, a.same_size);
            covers = w.covers;
            sound = record { counted = w.sound.counted; below = w.sound.below };
          })
      | inr e ↦
          let h : r.0.desc.pos ≤ r.0.file.size = ground arith in
          subst (Overwrites o buf) (sym (if_false _ _ e)) (record {
            bytes = bytes;
            moved = moved;
            size = inl (w.same_size ∙ a.same_size);
            reaches = omega (arith, h, moved);
            keeps = omega (arith, w.same_size, a.same_size);
            covers = w.covers;
            sound = w.sound;
          })
    ]

-- The loop starts at the position of the descriptor.
write_loop-here :
    (o : Open) (buf : Bytes) (q : Open)
    → Alike o q
    → Sound q
    → o.desc.pos / 512 < length q.file.blocks
    → 0 < length buf
    → Wrote o.desc.pos
        (length buf)
        0
        buf
        q
        (write_loop (length buf) (o.desc.pos / 512) (q.desc.pos % 512) 0 buf q)
write_loop-here o buf q a v inside l =
    let here : 512 * (o.desc.pos / 512) + q.desc.pos % 512 ≡ o.desc.pos =
      omega (arith, a.same_pos) in
    let all : length buf - 0 ≡ length buf = omega arith in
    let r = write_loop (length buf) (o.desc.pos / 512) (q.desc.pos % 512) 0 buf q in
    subst (λ p. Wrote p (length buf) 0 buf q r) here
      (subst (λ n. Wrote (512 * (o.desc.pos / 512) + q.desc.pos % 512) n 0 buf q r) all
        (write_loop-Wrote (length buf) (o.desc.pos / 512) (q.desc.pos % 512) 0 buf q v inside
          (omega arith) l (omega arith)))

pub write_at-Overwrites :
    (o : Open) (buf : Bytes)
    → Sound o
    → Cached o
    → 0 < length buf
    → (o' : Open) × (write_at o buf ≡ some (o', true)) × Overwrites o buf o'
unfolding write_at write_found
write_at-Overwrites o buf v cached l =
    let ((q, p), e, f) = get_block_by_index-Found o (o.desc.pos / 512) true v cached (inl refl) in
    (
      _,
      ap (write_found buf) e ∙ ap (λ x. write_found buf (some (q, x))) f.pointer,
      cache_at-Overwrites o buf _ _ _ (
          with_size-Overwrites o buf q _ f.alike
            (write_loop-here o buf q f.alike f.sound f.inside l)),
    )

-- What is read, where the file and its blocks go so far.
pub read_at-window :
    (o : Open) (size : ℕ)
    → Sound o
    → Cached o
    → 0 < size
    → o.desc.pos + size ≤ o.file.size
    → o.desc.pos + size ≤ 512 * length o.file.blocks
    → (r : Open × Bytes) × (read_at o size ≡ some r)
      × (r.1 ≡ window (content o.file.blocks) o.desc.pos size)
unfolding read_at read_found
read_at-window o size v cached l s c =
    let ((q, p), e, f) =
      get_block_by_index-Found o (o.desc.pos / 512) false v cached (inr (omega (arith, l, c))) in
    let more : leb o.file.size o.desc.pos ≡ false = ground arith in
    let le : leb size (o.file.size - o.desc.pos) ≡ true = ground arith in
    let all : min size (o.file.size - o.desc.pos) ≡ size = if_true _ _ le in
    let text = content o.file.blocks in
    let start = 512 * (o.desc.pos / 512) + q.desc.pos % 512 in
    (
      _,
      if_false _ _ more ∙ ap₂ read_found all e ∙ ap (λ x. read_found size (some (q, x))) f.pointer,
      read_loop-window size (o.desc.pos / 512) (q.desc.pos % 512) 0 size q (omega arith) l
            (omega arith) (omega (arith, c, f.longer, f.alike.same_pos))
          ∙ window-ext (content q.file.blocks) text start o.desc.pos (size - 0)
              (λ i h. f.alike.bytes (start + i) ∙ ap text (omega (arith, f.alike.same_pos)))
          ∙ ap (window text o.desc.pos) (omega arith),
    )

-- What a read through a descriptor, where it stands after a write, gives.
pub record ReadBack (o : Open) (buf : Bytes) (d : Filedesc) (o' : Open) : Type 0 where
  pub wrote : write_at o buf ≡ some (o', true)
  pub overwrites : Overwrites o buf o'
  pub answer : Open × Bytes
  pub read : read_at (record o' { desc = d }) (length buf) ≡ some answer
  pub same : answer.1 ≡ buf

window-over :
    (p : ℕ) (buf : Bytes) (c t : ℕ → ℕ)
    → ((n : ℕ) → t n ≡ over p (length buf) 0 buf c n)
    → window t p (length buf) ≡ buf
window-over p buf c t h =
    window-ext t (byte buf) p 0 (length buf) (λ i l.
      let in_it : (leb p (p + i) && ltb (p + i) (p + length buf)) ≡ true = ground arith in
      h (p + i) ∙ if_true _ _ in_it ∙ ap (byte buf) (omega arith))
    ∙ window-byte buf

-- A write of some bytes, to a file that counts its blocks and gets new addresses, through a
-- descriptor whose cached block is where it was, succeeds, and puts the bytes into the file where the
-- descriptor stands and changes no other; it moves the descriptor behind them and makes the file as
-- long as that, if it was not. After it a read of as many bytes, through a descriptor of the file at
-- the position of the write that has no cached block, succeeds and gives those bytes.
pub write_at-read_at :
    (o : Open) (buf : Bytes) (d : Filedesc)
    → Sound o
    → Cached o
    → 0 < length buf
    → d.pos ≡ o.desc.pos
    → d.cur_block ≡ none
    → (o' : Open) × ReadBack o buf d o'
write_at-read_at o buf d v cached l same_pos uncached =
    let (o', e, w) = write_at-Overwrites o buf v cached l in
    let there = record o' { desc = d } in
    let (r, x, y) =
      read_at-window there (length buf)
        (record { counted = w.sound.counted; below = w.sound.below }) (λ a z. cc (uncached, z)) l
        (omega (arith, same_pos, w.reaches)) (omega (arith, same_pos, w.covers)) in
    (
      o',
      record {
        wrote = e;
        overwrites = w;
        answer = r;
        read = x;
        same =
            y
            ∙ ap (λ p. window (content o'.file.blocks) p (length buf)) same_pos
            ∙ window-over o.desc.pos buf (content o.file.blocks) (content o'.file.blocks) w.bytes;
      },
    )
