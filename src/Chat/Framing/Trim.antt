-- ===== src/Chat/Framing/Trim.antt =====
-- What `trim` leaves, and what is found again in a text that is put together from such words.
use system_prog.Common.{
  ℕ, ◌≡◌, ◌⊎◌, ◌∙◌, append_assoc, refl, sym, ap, Bool, true, false, not, ◌&&◌, Option, none, some,
  [], ◌∷◌, ◌++◌, ◌==◌, is_empty, Bytes, arith, Bool-cases, inl, inr,
}
use system_prog.Chat.Framing.Lines.{lines, cons_line}
use system_prog.Chat.Framing.{is_space, trim_left, trim_right, keep, trim, longer, split_author}

abbrev pub starts : Bytes → Bool
starts [] = false
starts (c ∷ cs) = not (is_space c)

abbrev pub no_newline : Bytes → Bool
no_newline [] = true
no_newline (c ∷ cs) = not (c == 10) && no_newline cs

-- A word or several, with no space at either end and no line feed.
pub record IsWord (s : Bytes) : Type 0 where
  pub begins : starts s ≡ true
  pub trimmed : trim_right s ≡ s
  pub one_line : no_newline s ≡ true

trim_left_cases : (s : Bytes) → (trim_left s ≡ []) ⊎ (starts (trim_left s) ≡ true)
unfolding trim_left
trim_left_cases [] = inl refl
trim_left_cases (c ∷ cs) = elim (Bool-cases (is_space c)) [
  | inl e ↦ rw e (trim_left_cases cs)
  | inr e ↦ rw e (inr (ap not e))
]

keep-starts : (c : ℕ) (cs : Bytes) → is_space c ≡ false → keep c cs ≡ c ∷ cs
keep-starts c cs e = ground arith

trim_right-starts : (s : Bytes) → starts s ≡ true → starts (trim_right s) ≡ true
unfolding trim_right
trim_right-starts [] h = cc
trim_right-starts (c ∷ cs) h =
    let e : is_space c ≡ false = ground arith in rw (keep-starts c (trim_right cs) e) h

keep_fixed : (c : ℕ) (r : Bytes) → trim_right r ≡ r → trim_right (keep c r) ≡ keep c r
unfolding trim_right
keep_fixed c r h = elim (Bool-cases (is_empty r && is_space c)) [
  | inl e ↦ rw e refl
  | inr e ↦ rw e (ap (keep c) h ∙ rw e)
]

pub trim_right_idem : (s : Bytes) → trim_right (trim_right s) ≡ trim_right s
unfolding trim_right
trim_right_idem [] = refl
trim_right_idem (c ∷ cs) = keep_fixed c (trim_right cs) (trim_right_idem cs)

keep-no_newline :
    (c : ℕ) (r : Bytes) → (c == 10) ≡ false → no_newline r ≡ true → no_newline (keep c r) ≡ true
keep-no_newline c r e h = ground arith

trim_right-no_newline : (s : Bytes) → no_newline s ≡ true → no_newline (trim_right s) ≡ true
unfolding trim_right
trim_right-no_newline [] h = refl
trim_right-no_newline (c ∷ cs) h =
    keep-no_newline c (trim_right cs) (ground arith) (trim_right-no_newline cs (ground arith))

trim_left-no_newline : (s : Bytes) → no_newline s ≡ true → no_newline (trim_left s) ≡ true
unfolding trim_left
trim_left-no_newline [] h = refl
trim_left-no_newline (c ∷ cs) h = elim (Bool-cases (is_space c)) [
  | inl e ↦ rw e (trim_left-no_newline cs (ground arith))
  | inr e ↦ rw e h
]

-- What is left of a line after `trim`, if anything is, is a word.
pub trim-IsWord :
    (line : Bytes) → no_newline line ≡ true → is_empty (trim line) ≡ false → IsWord (trim line)
unfolding trim trim_right
trim-IsWord line h e = elim (trim_left_cases line) [
  | inl z ↦ cc (ap (λ r. is_empty (trim_right r)) z, e)
  | inr z ↦ record {
    begins = trim_right-starts (trim_left line) z;
    trimmed = trim_right_idem (trim_left line);
    one_line = trim_right-no_newline (trim_left line) (trim_left-no_newline line h);
  }
]

keep-append : (x : ℕ) (xs t : Bytes) → is_empty t ≡ false → keep x (xs ++ t) ≡ x ∷ (xs ++ t)
keep-append x [] t e = rw e refl
keep-append x (y ∷ xs) t e = refl

trim_right-append :
    (xs t : Bytes) → is_empty t ≡ false → trim_right t ≡ t → trim_right (xs ++ t) ≡ xs ++ t
unfolding trim_right
trim_right-append [] t e h = h
trim_right-append (x ∷ xs) t e h = ap (keep x) (trim_right-append xs t e h) ∙ keep-append x xs t e

trim_left-starts : (s : Bytes) → starts s ≡ true → trim_left s ≡ s
unfolding trim_left
trim_left-starts [] h = refl
trim_left-starts (c ∷ cs) h = let e : is_space c ≡ false = ground arith in rw e refl

pub starts-append : (s r : Bytes) → starts s ≡ true → starts (s ++ r) ≡ true
starts-append [] r h = cc
starts-append (c ∷ cs) r h = h

pub starts-not_empty : (s : Bytes) → starts s ≡ true → is_empty s ≡ false
starts-not_empty [] h = cc
starts-not_empty (c ∷ cs) h = refl

-- A word is trimmed already.
pub trim_word : (s : Bytes) → IsWord s → trim s ≡ s
unfolding trim
trim_word s h = ap trim_right (trim_left-starts s h.begins) ∙ h.trimmed

-- Words with anything between them are trimmed already.
pub trim-between : (n m t : Bytes) → IsWord n → IsWord t → trim (n ++ (m ++ t)) ≡ n ++ (m ++ t)
unfolding trim
trim-between n m t hn ht =
    ap trim_right (trim_left-starts (n ++ (m ++ t)) (starts-append n (m ++ t) hn.begins))
    ∙ (ap trim_right (sym (append_assoc n m t))
        ∙ trim_right-append (n ++ m) t (starts-not_empty t ht.begins) ht.trimmed
        ∙ append_assoc n m t)

-- An author with no ": " in the name is found before the first ": ".
longer-none : (c : ℕ) (o : Option (Bytes × Bytes)) → longer c o ≡ none → o ≡ none
longer-none c none h = refl
longer-none c (some (a, b)) h = cc

split_author-here :
    (c d : ℕ) (cs : Bytes) → (c == 58 && d == 32) ≡ true → split_author (c ∷ d ∷ cs) ≡ some ([], cs)
unfolding split_author
split_author-here c d cs e = rw e

split_author-later :
    (c d : ℕ) (cs : Bytes)
    → (c == 58 && d == 32) ≡ false
    → split_author (c ∷ d ∷ cs) ≡ longer c (split_author (d ∷ cs))
unfolding split_author
split_author-later c d cs e = rw e

pub split_author-full :
    (n t : Bytes) → split_author n ≡ none → split_author (n ++ 58 ∷ 32 ∷ t) ≡ some (n, t)
unfolding split_author
split_author-full [] t h = refl
split_author-full (c ∷ []) t h = elim (Bool-cases (c == 58)) [
  | inl e ↦ rw e refl
  | inr e ↦ rw e refl
]
split_author-full (c ∷ d ∷ cs) t h = elim (Bool-cases (c == 58 && d == 32)) [
  | inl e ↦ cc (split_author-here c d cs e, h)
  | inr e ↦
      split_author-later c d (cs ++ 58 ∷ 32 ∷ t) e
      ∙ ap (longer c) (
          split_author-full (d ∷ cs) t
            (longer-none c (split_author (d ∷ cs)) (sym (split_author-later c d cs e) ∙ h)))
]

-- A line that ends is the first line.
pub lines-line :
    (s rest : Bytes)
    → no_newline s ≡ true
    → lines (s ++ 10 ∷ rest) ≡ (s ∷ (lines rest).0, (lines rest).1)
unfolding lines
lines-line [] rest h = refl
lines-line (c ∷ cs) rest h =
    let e : (c == 10) ≡ false = ground arith in
    rw e (ap (cons_line c) (lines-line cs rest (ground arith)))

pub no_newline-append :
    (a b : Bytes) → no_newline a ≡ true → no_newline b ≡ true → no_newline (a ++ b) ≡ true
no_newline-append [] b h k = k
no_newline-append (c ∷ cs) b h k = ground (arith, no_newline-append cs b)
