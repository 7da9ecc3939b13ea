-- ===== src/Userfs/Blocks/Content.antt =====
-- The bytes of a file, without its blocks, and what is done to one block.
use system_prog.Common.{
  ℕ, zero, suc, ◌+◌, ◌-◌, ◌*◌, ◌/◌, ◌%◌, ◌≤◌, ◌<◌, ◌≡◌, ◌≢◌, ap₂, ==_iff, ◌∙◌, refl, sym, ap, true,
  false, ◌&&◌, List, [], ◌∷◌, ◌++◌, ◌==◌, leb, ltb, if◌then◌else◌, if_true, if_false, Bytes, length,
  arith, Bool-cases, inl, inr,
}
use system_prog.Userfs.Blocks.{
  block_size, memory_at, copy_into, byte, slice, overlay, zeros, Open, add_block,
}
use system_prog.Userfs.{Block}

-- The byte at a position; what is behind the blocks counts as zeros.
unfoldable pub content : List Block → ℕ → ℕ
content blocks n = byte (memory_at blocks (n / 512)) (n % 512)

-- `len` bytes of a buffer, from `from` on, put at position `p` of a text.
abbrev pub over : ℕ → ℕ → ℕ → Bytes → (ℕ → ℕ) → ℕ → ℕ
over p len from buf c n = if leb p n && ltb n (p + len) then byte buf (from + (n - p)) else c n

-- The bytes of a text from `p` on.
abbrev pub window : (ℕ → ℕ) → ℕ → ℕ → Bytes
window c p zero = []
window c p (suc n) = c p ∷ window c (suc p) n

byte-slice : (n from i : ℕ) (buf : Bytes) → i < n → byte (slice n from buf) i ≡ byte buf (from + i)
byte-slice zero from i buf h = absurd (omega (arith, h))
byte-slice (suc n) from zero buf h = ap (byte buf) (omega arith)
byte-slice (suc n) from (suc i) buf h =
    byte-slice n (suc from) i buf (omega (arith, h)) ∙ ap (byte buf) (omega arith)

length-slice : (n from : ℕ) (buf : Bytes) → length (slice n from buf) ≡ n
length-slice zero from buf = refl
length-slice (suc n) from buf = ap suc (length-slice n (suc from) buf)

byte_back : (b : ℕ) (bs : Bytes) (i : ℕ) → byte bs (i - 0) ≡ byte (b ∷ bs) (suc i - 0)
byte_back b bs i = let e : suc (i - 0) ≡ suc i - 0 = omega arith in ap (byte (b ∷ bs)) e

byte-overlay_in :
    (o : ℕ) (a m : Bytes) (i : ℕ)
    → o ≤ i
    → i < o + length a
    → byte (overlay o a m) i ≡ byte a (i - o)
byte-overlay_in zero [] m i h k = absurd (omega (arith, k))
byte-overlay_in zero (b ∷ bs) [] zero h k = refl
byte-overlay_in zero (b ∷ bs) [] (suc i) h k =
    byte-overlay_in zero bs [] i (omega arith) (omega (arith, k)) ∙ byte_back b bs i
byte-overlay_in zero (b ∷ bs) (x ∷ m) zero h k = refl
byte-overlay_in zero (b ∷ bs) (x ∷ m) (suc i) h k =
    byte-overlay_in zero bs m i (omega arith) (omega (arith, k)) ∙ byte_back b bs i
byte-overlay_in (suc o) a m zero h k = absurd (omega (arith, h))
byte-overlay_in (suc o) a [] (suc i) h k =
    byte-overlay_in o a [] i (omega (arith, h)) (omega (arith, k)) ∙ ap (byte a) (omega arith)
byte-overlay_in (suc o) a (x ∷ m) (suc i) h k =
    byte-overlay_in o a m i (omega (arith, h)) (omega (arith, k)) ∙ ap (byte a) (omega arith)

byte-overlay_before : (o : ℕ) (a m : Bytes) (i : ℕ) → i < o → byte (overlay o a m) i ≡ byte m i
byte-overlay_before zero a m i h = absurd (omega (arith, h))
byte-overlay_before (suc o) a [] zero h = refl
byte-overlay_before (suc o) a [] (suc i) h = byte-overlay_before o a [] i (omega (arith, h))
byte-overlay_before (suc o) a (x ∷ m) zero h = refl
byte-overlay_before (suc o) a (x ∷ m) (suc i) h = byte-overlay_before o a m i (omega (arith, h))

byte-overlay_behind :
    (o : ℕ) (a m : Bytes) (i : ℕ) → o + length a ≤ i → byte (overlay o a m) i ≡ byte m i
byte-overlay_behind zero [] m i h = refl
byte-overlay_behind zero (b ∷ bs) [] zero h = absurd (omega (arith, h))
byte-overlay_behind zero (b ∷ bs) [] (suc i) h = byte-overlay_behind zero bs [] i (omega (arith, h))
byte-overlay_behind zero (b ∷ bs) (x ∷ m) zero h = absurd (omega (arith, h))
byte-overlay_behind zero (b ∷ bs) (x ∷ m) (suc i) h =
    byte-overlay_behind zero bs m i (omega (arith, h))
byte-overlay_behind (suc o) a [] zero h = refl
byte-overlay_behind (suc o) a [] (suc i) h = byte-overlay_behind o a [] i (omega (arith, h))
byte-overlay_behind (suc o) a (x ∷ m) zero h = refl
byte-overlay_behind (suc o) a (x ∷ m) (suc i) h = byte-overlay_behind o a m i (omega (arith, h))

byte-copied_outside :
    (o len from : ℕ) (buf m : Bytes) (i : ℕ)
    → (leb o i && ltb i (o + len)) ≡ false
    → byte (overlay o (slice len from buf) m) i ≡ byte m i
byte-copied_outside o len from buf m i e = elim (Bool-cases (leb o i)) [
  | inl l ↦
      let h : o + len ≤ i = ground arith in
      byte-overlay_behind o (slice len from buf) m i (omega (arith, h, length-slice len from buf))
  | inr l ↦ let h : i < o = ground arith in byte-overlay_before o (slice len from buf) m i h
]

-- A copy of bytes of a buffer into a block.
byte-copied :
    (o len from : ℕ) (buf m : Bytes) (i : ℕ)
    → byte (overlay o (slice len from buf) m) i ≡ over o len from buf (byte m) i
byte-copied o len from buf m i = elim (Bool-cases (leb o i && ltb i (o + len))) [
  | inl e ↦
      let h : o ≤ i = ground arith in
      let k : i < o + len = ground arith in
      byte-overlay_in o (slice len from buf) m i h (omega (arith, k, length-slice len from buf))
      ∙ byte-slice len from (i - o) buf (omega (arith, h, k))
      ∙ sym (if_true _ _ e)
  | inr e ↦ byte-copied_outside o len from buf m i e ∙ sym (if_false _ _ e)
]

memory_at-copy_into_self :
    (bs : List Block) (k o : ℕ) (a : Bytes)
    → k < length bs
    → memory_at (copy_into bs k o a) k ≡ overlay o a (memory_at bs k)
memory_at-copy_into_self [] k o a h = absurd (omega (arith, h))
memory_at-copy_into_self (b ∷ bs) zero o a h = refl
memory_at-copy_into_self (b ∷ bs) (suc k) o a h =
    memory_at-copy_into_self bs k o a (omega (arith, h))

memory_at-copy_into_ne :
    (bs : List Block) (k j o : ℕ) (a : Bytes)
    → j ≢ k
    → memory_at (copy_into bs k o a) j ≡ memory_at bs j
memory_at-copy_into_ne [] k j o a h = refl
memory_at-copy_into_ne (b ∷ bs) zero zero o a h = absurd (h refl)
memory_at-copy_into_ne (b ∷ bs) zero (suc j) o a h = refl
memory_at-copy_into_ne (b ∷ bs) (suc k) zero o a h = refl
memory_at-copy_into_ne (b ∷ bs) (suc k) (suc j) o a h =
    memory_at-copy_into_ne bs k j o a (λ e. h (ap suc e))

over_shift :
    (k o len from : ℕ) (buf : Bytes) (c : ℕ → ℕ) (r n : ℕ)
    → n ≡ 512 * k + r
    → over o len from buf c r ≡ over (512 * k + o) len from buf (λ x. c r) n
over_shift k o len from buf c r n e = elim (Bool-cases (leb o r && ltb r (o + len))) [
  | inl t ↦
      let h : o ≤ r = ground arith in
      let there : (leb (512 * k + o) n && ltb n (512 * k + o + len)) ≡ true = ground arith in
      if_true _ _ t ∙ ap (byte buf) (omega (arith, h, e)) ∙ sym (if_true _ _ there)
  | inr t ↦
      let there : (leb (512 * k + o) n && ltb n (512 * k + o + len)) ≡ false = ground arith in
      if_false _ _ t ∙ sym (if_false _ _ there)
]

outside :
    (k o len n : ℕ)
    → o + len ≤ 512
    → n / 512 ≢ k
    → (leb (512 * k + o) n && ltb n (512 * k + o + len)) ≡ false
outside k o len n fits q = elim (Bool-cases (leb (512 * k + o) n && ltb n (512 * k + o + len))) [
  | inl t ↦
      let h : 512 * k + o ≤ n = ground arith in
      let l : n < 512 * k + o + len = ground arith in absurd (q (omega (arith, h, l, fits)))
  | inr t ↦ t
]

-- A copy that stays inside the block at place `k`.
pub content-copy_into :
    (bs : List Block) (k o len from : ℕ) (buf : Bytes) (n : ℕ)
    → k < length bs
    → o + len ≤ 512
    → content (copy_into bs k o (slice len from buf)) n
      ≡ over (512 * k + o) len from buf (content bs) n
unfolding content
content-copy_into bs k o len from buf n h fits = elim (Bool-cases (n / 512 == k)) [
  | inl e ↦
      let q : n / 512 ≡ k = (==_iff _ _).0 e in
      ap (λ j. byte (memory_at (copy_into bs k o (slice len from buf)) j) (n % 512)) q
      ∙ ap (λ m. byte m (n % 512)) (memory_at-copy_into_self bs k o (slice len from buf) h)
      ∙ byte-copied o len from buf (memory_at bs k) (n % 512)
      ∙ over_shift k o len from buf (byte (memory_at bs k)) (n % 512) n (omega (arith, q))
      ∙ ap (λ j. over (512 * k + o) len from buf (λ x. byte (memory_at bs j) (n % 512)) n) (sym q)
  | inr e ↦
      let q : n / 512 ≢ k = λ x. cc (e, (==_iff _ _).1 x) in
      ap (λ m. byte m (n % 512)) (memory_at-copy_into_ne bs k (n / 512) o (slice len from buf) q)
      ∙ sym (if_false _ _ (outside k o len n fits q))
]

-- A new block changes no byte.
byte-zeros : (n i : ℕ) → byte (zeros n) i ≡ 0
byte-zeros zero i = refl
byte-zeros (suc n) zero = refl
byte-zeros (suc n) (suc i) = byte-zeros n i

memory_at-append :
    (bs : List Block) (b : Block) (k i : ℕ)
    → ((j : ℕ) → byte b.memory j ≡ 0)
    → byte (memory_at (bs ++ b ∷ []) k) i ≡ byte (memory_at bs k) i
memory_at-append [] b zero i h = h i
memory_at-append [] b (suc k) i h = refl
memory_at-append (x ∷ bs) b zero i h = refl
memory_at-append (x ∷ bs) b (suc k) i h = memory_at-append bs b k i h

pub content-add_block :
    (o : Open) (n : ℕ) → content (add_block o).file.blocks n ≡ content o.file.blocks n
unfolding content
content-add_block o n =
    memory_at-append o.file.blocks _ (n / 512) (n % 512) (λ j. byte-zeros block_size j)

pub window-append :
    (c : ℕ → ℕ) (p m n : ℕ) → window c p (m + n) ≡ window c p m ++ window c (p + m) n
window-append c p zero n =
    let e : 0 + n ≡ n = omega arith in let e2 : p + 0 ≡ p = omega arith in rw (e, e2) refl
window-append c p (suc m) n =
    let e : suc m + n ≡ suc (m + n) = omega arith in
    let e2 : p + suc m ≡ suc p + m = omega arith in
    rw (e, e2) (ap (λ r. c p ∷ r) (window-append c (suc p) m n))

pub window-ext :
    (c d : ℕ → ℕ) (p q n : ℕ)
    → ((i : ℕ) → i < n → c (p + i) ≡ d (q + i))
    → window c p n ≡ window d q n
window-ext c d p q zero h = refl
window-ext c d p q (suc n) h =
    let p0 : p ≡ p + 0 = omega arith in
    let q0 : q + 0 ≡ q = omega arith in
    ap₂ (λ x r. x ∷ r) (ap c p0 ∙ h 0 (omega arith) ∙ ap d q0)
      (window-ext c d (suc p) (suc q) n
        (λ i l. ap c (omega arith) ∙ h (suc i) (omega (arith, l)) ∙ ap d (omega arith)))

slice-window : (n o : ℕ) (m : Bytes) → slice n o m ≡ window (byte m) o n
slice-window zero o m = refl
slice-window (suc n) o m = ap (λ r. byte m o ∷ r) (slice-window n (suc o) m)

-- A part of a block is a part of the text.
pub slice-content :
    (bs : List Block) (k o len : ℕ)
    → o + len ≤ 512
    → slice len o (memory_at bs k) ≡ window (content bs) (512 * k + o) len
unfolding content
slice-content bs k o len h =
    slice-window len o (memory_at bs k)
    ∙ window-ext (byte (memory_at bs k)) (content bs) o (512 * k + o) len
        (λ i l. ap₂ (λ j r. byte (memory_at bs j) r) (omega (arith, l, h)) (omega (arith, l, h)))

pub window-byte : (buf : Bytes) → window (byte buf) 0 (length buf) ≡ buf
window-byte [] = refl
window-byte (b ∷ bs) =
    ap (λ r. b ∷ r)
      (window-ext (byte (b ∷ bs)) (byte bs) 1 0 (length bs)
          (λ i l. let e : 1 + i ≡ suc (0 + i) = omega arith in ap (byte (b ∷ bs)) e)
        ∙ window-byte bs)
