-- ===== src/Userfs/Blocks/Loops.antt =====
-- What the loops of `ufs_write` and `ufs_read` do, as far as the bytes of the file go.
use mathlib.Core.Path.{subst}
use system_prog.Common.{
  ℕ, zero, suc, ◌+◌, ◌-◌, ◌*◌, ◌≤◌, ◌<◌, ◌≡◌, ◌≢◌, ap₂, ==_iff, ◌⊎◌, ◌∙◌, refl, sym, ap, true,
  false, ◌&&◌, [], ◌∷◌, ◌++◌, ◌==◌, leb, ltb, if_true, if_false, Bytes, length, length-append,
  arith, Bool-cases, inl, inr,
}
use system_prog.Userfs.Blocks.Calls.{write_loop, read_loop, copy_to, grow}
use system_prog.Userfs.Blocks.Content.{
  content, over, window, content-copy_into, content-add_block, window-append, slice-content,
}
use system_prog.Userfs.Blocks.Found.{Sound, add_block-Sound, length-copy_into, copy_to-Sound}
use system_prog.Userfs.Blocks.{block_size, byte, zeros, slice, min, Open}

pub min_cases : (a b : ℕ) → (min a b ≤ a) × (min a b ≤ b) × ((min a b ≡ a) ⊎ (min a b ≡ b))
min_cases a b = elim (Bool-cases (leb a b)) [
  | inl e ↦ let h : a ≤ b = ground arith in rw e (omega arith, h, inl refl)
  | inr e ↦ let h : b ≤ a = ground arith in rw e (h, omega arith, inr refl)
]

-- Two parts one behind the other.
over-over :
    (p a b w : ℕ) (buf : Bytes) (c : ℕ → ℕ) (n : ℕ)
    → over (p + a) b (w + a) buf (over p a w buf c) n ≡ over p (a + b) w buf c n
over-over p a b w buf c n = elim (Bool-cases (leb (p + a) n && ltb n (p + a + b))) [
  | inl e ↦
      let h : p + a ≤ n = ground arith in
      let all : (leb p n && ltb n (p + (a + b))) ≡ true = ground arith in
      if_true _ _ e ∙ ap (byte buf) (omega (arith, h)) ∙ sym (if_true _ _ all)
  | inr e ↦ if_false _ _ e ∙ (elim (Bool-cases (leb p n && ltb n (p + a))) [
    | inl t ↦
        let all : (leb p n && ltb n (p + (a + b))) ≡ true = ground arith in
        if_true _ _ t ∙ sym (if_true _ _ all)
    | inr t ↦
        let all : (leb p n && ltb n (p + (a + b))) ≡ false = ground arith in
        if_false _ _ t ∙ sym (if_false _ _ all)
  ])
]

-- The file that is left when `len` bytes of the buffer are written at `p`.
pub record Wrote (p len from : ℕ) (buf : Bytes) (o : Open) (r : Open × ℕ) : Type 0 where
  pub bytes : (n : ℕ) → content r.0.file.blocks n ≡ over p len from buf (content o.file.blocks) n
  pub moved : r.0.desc.pos ≡ o.desc.pos + len
  pub same_size : r.0.file.size ≡ o.file.size
  pub sound : Sound r.0
  pub covers : p + len ≤ 512 * length r.0.file.blocks

-- What `grow` leaves.
record Grows (o : Open) (k : ℕ) (g : Open) : Type 0 where
  bytes : (n : ℕ) → content g.file.blocks n ≡ content o.file.blocks n
  same_pos : g.desc.pos ≡ o.desc.pos
  same_size : g.file.size ≡ o.file.size
  sound : Sound g
  room : suc k < length g.file.blocks

grow-Grows : (o : Open) (k : ℕ) → Sound o → k < length o.file.blocks → Grows o k (grow o k)
grow-Grows o k v h = elim (Bool-cases (ltb (suc k) (length o.file.blocks))) [
  | inl e ↦
      let room : suc k < length o.file.blocks = ground arith in
      subst (Grows o k) (sym (if_true _ _ e))
        (record { bytes = λ n. refl; same_pos = refl; same_size = refl; sound = v; room = room })
  | inr e ↦ subst (Grows o k) (sym (if_false _ _ e)) (record {
    bytes = λ n. content-add_block o n;
    same_pos = refl;
    same_size = refl;
    sound = add_block-Sound o v;
    room = omega (
      arith,
      h,
      length-append o.file.blocks (record { address = o.fresh; memory = zeros block_size } ∷ []),
    );
  })
]

pub write_loop-Wrote :
    (fuel k offset written : ℕ) (buf : Bytes) (o : Open)
    → Sound o
    → k < length o.file.blocks
    → offset < 512
    → written < length buf
    → length buf ≤ written + fuel
    → Wrote
        (512 * k + offset)
        (length buf - written)
        written
        buf
        o
        (write_loop fuel k offset written buf o)
unfolding write_loop
write_loop-Wrote zero k offset written buf o v h f w l = absurd (omega (arith, w, l))
write_loop-Wrote (suc fuel) k offset written buf o v h f w l =
    let chunk = min (512 - offset) (length buf - written) in
    let (le_block, le_rest, which) = min_cases (512 - offset) (length buf - written) in
    let o' = copy_to o k offset chunk (slice chunk written buf) in
    let copied = λ (n : ℕ).
      content-copy_into o.file.blocks k offset chunk written buf n h (omega (arith, le_block, f)) in
    let sound = copy_to-Sound o k offset chunk (slice chunk written buf) v in
    let same = length-copy_into o.file.blocks k offset (slice chunk written buf) in
    let P = Wrote (512 * k + offset) (length buf - written) written buf o in
    elim (Bool-cases (written + chunk == length buf)) [
      | inl e ↦
          let q : chunk ≡ length buf - written = omega (arith, (==_iff _ _).0 e, w) in
          subst P (sym (if_true _ _ e)) (record {
            bytes = λ n.
                copied n
                ∙ ap (λ x. over (512 * k + offset) x written buf (content o.file.blocks) n) q;
            moved = ap (λ x. o.desc.pos + x) q;
            same_size = refl;
            sound = sound;
            covers = omega (arith, q, le_block, f, h, same);
          })
      | inr e ↦
          let q : written + chunk ≢ length buf = λ x. cc (e, (==_iff _ _).1 x) in
          let full : chunk ≡ 512 - offset = elim which [
            | inl z ↦ z
            | inr z ↦ absurd (q (omega (arith, z, w)))
          ] in
          let left = length buf - (written + chunk) in
          let before = over (512 * k + offset) chunk written buf (content o.file.blocks) in
          let g = grow-Grows o' k sound (omega (arith, h, same)) in
          let rest =
            write_loop-Wrote fuel (suc k) 0 (written + chunk) buf (grow o' k) g.sound g.room
              (omega arith) (omega (arith, q, le_rest, w)) (omega (arith, full, f, l)) in
          subst P (sym (if_false _ _ e)) (record {
            bytes = λ n.
                rest.bytes n
                ∙ ap (λ y. over (512 * suc k + 0) left (written + chunk) buf (λ x. y) n)
                    (g.bytes n ∙ copied n)
                ∙ ap (λ x. over x left (written + chunk) buf before n) (omega (arith, full, f))
                ∙ over-over (512 * k + offset) chunk left written buf (content o.file.blocks) n
                ∙ ap (λ x. over (512 * k + offset) x written buf (content o.file.blocks) n)
                    (omega (arith, le_rest, w));
            moved = rest.moved ∙ omega (arith, g.same_pos, le_rest, w);
            same_size = rest.same_size ∙ g.same_size;
            sound = rest.sound;
            covers = omega (arith, rest.covers, full, f, q, le_rest, w);
          })
    ]

pub read_loop-window :
    (fuel k offset read to_read : ℕ) (o : Open)
    → offset < 512
    → read < to_read
    → to_read ≤ read + fuel
    → 512 * k + offset + (to_read - read) ≤ 512 * length o.file.blocks
    → (read_loop fuel k offset read to_read o).0
      ≡ window (content o.file.blocks) (512 * k + offset) (to_read - read)
unfolding read_loop
read_loop-window zero k offset read to_read o f r l c = absurd (omega (arith, r, l))
read_loop-window (suc fuel) k offset read to_read o f r l c =
    let chunk = min (512 - offset) (to_read - read) in
    let (le_block, le_rest, which) = min_cases (512 - offset) (to_read - read) in
    let part = slice-content o.file.blocks k offset chunk (omega (arith, le_block, f)) in
    elim (Bool-cases (read + chunk == to_read)) [
      | inl e ↦
          let q : chunk ≡ to_read - read = omega (arith, (==_iff _ _).0 e, r) in
          ap (λ (x : Bytes × ℕ). x.0) (if_true _ _ e)
          ∙ part
          ∙ ap (window (content o.file.blocks) (512 * k + offset)) q
      | inr e ↦
          let q : read + chunk ≢ to_read = λ x. cc (e, (==_iff _ _).1 x) in
          let full : chunk ≡ 512 - offset = elim which [
            | inl z ↦ z
            | inr z ↦ absurd (q (omega (arith, z, r)))
          ] in
          let room : suc k < length o.file.blocks = omega (arith, c, full, q, le_rest, r, f) in
          let more : ltb (suc k) (length o.file.blocks) ≡ true = ground arith in
          let text = content o.file.blocks in
          let left = to_read - (read + chunk) in
          let rest =
            read_loop-window fuel (suc k) 0 (read + chunk) to_read o (omega arith)
              (omega (arith, q, le_rest, r)) (omega (arith, full, f, l))
              (omega (arith, c, full, f, r)) in
          ap (λ (x : Bytes × ℕ). x.0) (if_false _ _ e ∙ if_true _ _ more)
          ∙ ap₂ (λ a b. a ++ b) part (rest ∙ ap (λ p. window text p left) (omega (arith, full, f)))
          ∙ sym (window-append text (512 * k + offset) chunk left)
          ∙ ap (window text (512 * k + offset)) (omega (arith, le_rest, r))
    ]
