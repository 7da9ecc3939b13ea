-- ===== src/Userfs/Blocks/Descriptors.antt =====
-- A write through one descriptor of 3/userfs.cpp and a read through another.
use system_prog.Common.{
  ℕ, suc, ◌-◌, ◌≤◌, ◌<◌, ◌≡◌, ◌≢◌, ==_iff, ◌∙◌, refl, sym, ap, true, false, ◌||◌, none, some, [],
  ◌∷◌, ◌==◌, ltb, if_true, if_false, is_empty, Bytes, get_elem?, get_elem?-set_ne, length, arith,
}
use system_prog.Userfs.Blocks.Calls.{
  max_file_size, flag_set, put_open, wrote, has_read, write_at, read_at, write_desc, write_open,
  ufs_write, read_desc, read_open, ufs_read,
}
use system_prog.Userfs.Blocks.Found.{Sound, Cached}
use system_prog.Userfs.Blocks.RoundTrip.{Overwrites, write_at-read_at}
use system_prog.Userfs.Blocks.{Open}
use system_prog.Userfs.{Ufs, File, Filedesc, pos, desc_of}

-- Two descriptors of one file: the first may write, the second may read from the same position.
pub record Shares (u : Ufs) (i j : ℕ) (d e : Filedesc) (f : File) : Type 0 where
  pub writer : get_elem? u.file_descriptors i ≡ some (some d)
  pub reader : get_elem? u.file_descriptors j ≡ some (some e)
  pub file : u.files d.atfile ≡ some f
  pub same_file : e.atfile ≡ d.atfile
  pub may_write : flag_set 2 d.flags ≡ true
  pub may_read : flag_set 1 e.flags ≡ true
  pub same_pos : e.pos ≡ d.pos
  pub uncached : e.cur_block ≡ none
  pub sound : Sound (record { desc = d; file = f; fresh = u.fresh })
  pub cached : Cached (record { desc = d; file = f; fresh = u.fresh })

not_empty : (buf : Bytes) → 0 < length buf → is_empty buf ≡ false
not_empty [] h = absurd (omega (arith, h))
not_empty (b ∷ bs) h = refl

ufs_write-goes :
    (u : Ufs) (i j : ℕ) (d e : Filedesc) (f : File) (buf : Bytes) (o : Open)
    → Shares u i j d e f
    → 0 < length buf
    → length buf ≤ max_file_size
    → d.pos ≤ max_file_size - length buf
    → write_at (record { desc = d; file = f; fresh = u.fresh }) buf ≡ some (o, true)
    → ufs_write u (pos (suc i)) buf ≡ some (put_open u i d.atfile o, pos (length buf))
unfolding ufs_write write_open write_desc
ufs_write-goes u i j d e f buf o s l m p w =
    let fits : (ltb max_file_size (length buf) || ltb (max_file_size - length buf) d.pos) ≡ false =
      ground (arith, m, p) in
    ap (λ x. write_open u i buf (desc_of x)) s.writer
    ∙ if_true _ _ s.may_write
    ∙ ap (write_desc u i buf d) s.file
    ∙ if_false _ _ (not_empty buf l)
    ∙ if_false _ _ fits
    ∙ ap (wrote u i d.atfile (length buf)) w

ufs_read-goes :
    (u : Ufs) (j size : ℕ) (e : Filedesc) (f : File) (o : Open) (bytes : Bytes)
    → get_elem? u.file_descriptors j ≡ some (some e)
    → flag_set 1 e.flags ≡ true
    → u.files e.atfile ≡ some f
    → read_at (record { desc = e; file = f; fresh = u.fresh }) size ≡ some (o, bytes)
    → ufs_read u (pos (suc j)) size ≡ some (put_open u j e.atfile o, pos (length bytes), bytes)
unfolding ufs_read read_open read_desc
ufs_read-goes u j size e f o bytes at may file r =
    ap (λ x. read_open u j size (desc_of x)) at
    ∙ if_true _ _ may
    ∙ ap (read_desc u j size e) file
    ∙ ap (has_read u j e.atfile) r

-- Through two descriptors of a file, at the same position, of which the first may write and has its
-- cached block where it was, and the second may read and has no cached block: ufs_write of some bytes,
-- at most as far as files may go, returns how many they are, puts them into the file at that position
-- and changes no other byte, and makes the file as long as that, if it was not; and then ufs_read of
-- as many returns as many, and just those bytes.
pub ufs_write-ufs_read :
    (u : Ufs) (i j : ℕ) (d e : Filedesc) (f : File) (buf : Bytes)
    → j ≢ i
    → Shares u i j d e f
    → 0 < length buf
    → length buf ≤ max_file_size
    → d.pos ≤ max_file_size - length buf
    → (o : Open) × (w : Ufs) × Overwrites (record { desc = d; file = f; fresh = u.fresh }) buf o
      × (ufs_write u (pos (suc i)) buf ≡ some (put_open u i d.atfile o, pos (length buf)))
      × (ufs_read (put_open u i d.atfile o) (pos (suc j)) (length buf)
          ≡ some (w, pos (length buf), buf))
ufs_write-ufs_read u i j d e f buf apart s l m p =
    let (o, b) =
      write_at-read_at (record { desc = d; file = f; fresh = u.fresh }) buf e s.sound s.cached l
        s.same_pos s.uncached in
    let v = put_open u i d.atfile o in
    let here : (e.atfile == d.atfile) ≡ true = (==_iff e.atfile d.atfile).1 s.same_file in
    let at =
      get_elem?-set_ne u.file_descriptors i j (some o.desc) (λ x. apart (sym x)) ∙ s.reader in
    let (o2, bytes) = b.answer in
    (
      o,
      put_open v j e.atfile o2,
      b.overwrites,
      ufs_write-goes u i j d e f buf o s l m p b.wrote,
      ufs_read-goes v j (length buf) e o.file o2 bytes at s.may_read (if_true _ _ here) b.read
          ∙ ap (λ x. some (put_open v j e.atfile o2, pos (length x), x)) b.same,
    )
