-- ===== src/Chat/Framing/Lines.antt =====
-- The lines of a text, as a function of the text, and that the loop runs over them.
use mathlib.Core.Path.{subst}
use system_prog.Common.{
  ℕ, zero, suc, ◌<◌, ◌≡◌, ◌∙◌, refl, sym, ap, true, false, Option, none, some, List, [], ◌∷◌, ◌++◌,
  if◌then◌else◌, ◌==◌, length, Bytes, arith, Bool-cases, Option-cases, inl, inr,
}
use system_prog.Chat.Framing.{longer, extract_message, each_line, all_lines}

abbrev pub cons_line : ℕ → List Bytes × Bytes → List Bytes × Bytes
cons_line c ([], rest) = ([], c ∷ rest)
cons_line c (line ∷ ls, rest) = ((c ∷ line) ∷ ls, rest)

-- The lines that end, and what follows the last line feed.
unfoldable pub lines : Bytes → List Bytes × Bytes
lines [] = ([], [])
lines (c ∷ cs) = if c == 10 then ([] ∷ (lines cs).0, (lines cs).1) else cons_line c (lines cs)

abbrev pub fold_lines : {S : Type 0} → (S → Bytes → S) → S → List Bytes → S
fold_lines body s [] = s
fold_lines body s (line ∷ ls) = fold_lines body (body s line) ls

-- What an extraction says of the lines.
abbrev Extracts : Option (Bytes × Bytes) → Bytes → Type 0
Extracts none buffer = lines buffer ≡ ([], buffer)
Extracts (some (line, rest)) buffer =
    (lines buffer ≡ (line ∷ (lines rest).0, (lines rest).1)) × (length rest < length buffer)

Extracts-longer :
    (c : ℕ) (cs : Bytes) (o : Option (Bytes × Bytes))
    → (c == 10) ≡ false
    → Extracts o cs
    → Extracts (longer c o) (c ∷ cs)
unfolding lines
Extracts-longer c cs none e h = rw e (ap (cons_line c) h)
Extracts-longer c cs (some (line, rest)) e h = (rw e (ap (cons_line c) h.0), omega (arith, h.1))

lines-newline :
    (c : ℕ) (cs : Bytes) → (c == 10) ≡ true → lines (c ∷ cs) ≡ ([] ∷ (lines cs).0, (lines cs).1)
unfolding lines
lines-newline c cs e = rw e

extract_message-Extracts : (buffer : Bytes) → Extracts (extract_message buffer) buffer
unfolding extract_message lines
extract_message-Extracts [] = refl
extract_message-Extracts (c ∷ cs) = elim (Bool-cases (c == 10)) [
  | inl e ↦ rw e (lines-newline c cs e, omega arith)
  | inr e ↦
      rw (extract_message, e)
        (Extracts-longer c cs (extract_message cs) e (extract_message-Extracts cs))
]

each_line_lem :
    {S : Type 0} (body : S → Bytes → S) (fuel : ℕ) (buffer : Bytes) (s : S)
    → length buffer < fuel
    → each_line body fuel buffer s ≡ (fold_lines body s (lines buffer).0, (lines buffer).1)
unfolding each_line
each_line_lem body zero buffer s h = absurd (omega arith)
each_line_lem body (suc fuel) buffer s h = elim (Option-cases (extract_message buffer)) [
  | inl e ↦
      let x : lines buffer ≡ ([], buffer) =
        subst (λ o. Extracts o buffer) e (extract_message-Extracts buffer) in
      rw (each_line, e) (sym (ap (λ r. (fold_lines body s r.0, r.1)) x))
  | inr ((line, rest), e) ↦
      let x = subst (λ o. Extracts o buffer) e (extract_message-Extracts buffer) in
      rw (each_line, e)
        (each_line_lem body fuel rest (body s line) (omega (arith, x.1))
          ∙ sym (ap (λ r. (fold_lines body s r.0, r.1)) x.0))
]

-- The loop runs over the lines of the buffer and leaves what follows them: its fuel is enough.
pub all_lines_lem :
    {S : Type 0} (body : S → Bytes → S) (buffer : Bytes) (s : S)
    → all_lines body buffer s ≡ (fold_lines body s (lines buffer).0, (lines buffer).1)
all_lines_lem body buffer s = each_line_lem body (suc (length buffer)) buffer s (omega arith)

lines-cons : (c : ℕ) (cs : Bytes) → (c == 10) ≡ false → lines (c ∷ cs) ≡ cons_line c (lines cs)
unfolding lines
lines-cons c cs e = rw e

cons_line-join :
    (c : ℕ) (r : List Bytes × Bytes) (b : Bytes)
    → (c == 10) ≡ false
    → cons_line c (r.0 ++ (lines (r.1 ++ b)).0, (lines (r.1 ++ b)).1) ≡ (
      (cons_line c r).0 ++ (lines ((cons_line c r).1 ++ b)).0,
      (lines ((cons_line c r).1 ++ b)).1,
    )
cons_line-join c ([], rest) b e = sym (lines-cons c (rest ++ b) e)
cons_line-join c (line ∷ ls, rest) b e = refl

pub lines-append :
    (a b : Bytes)
    → lines (a ++ b) ≡ ((lines a).0 ++ (lines ((lines a).1 ++ b)).0, (lines ((lines a).1 ++ b)).1)
unfolding lines
lines-append [] b = refl
lines-append (c ∷ cs) b = elim (Bool-cases (c == 10)) [
  | inl e ↦ rw e (ap (λ r. ([] ∷ r.0, r.1)) (lines-append cs b))
  | inr e ↦ rw e (ap (cons_line c) (lines-append cs b) ∙ cons_line-join c (lines cs) b e)
]

pub fold_lines-append :
    {S : Type 0} (body : S → Bytes → S) (s : S) (xs ys : List Bytes)
    → fold_lines body s (xs ++ ys) ≡ fold_lines body (fold_lines body s xs) ys
fold_lines-append body s [] ys = refl
fold_lines-append body s (x ∷ xs) ys = fold_lines-append body (body s x) xs ys

-- The loop over a buffer that is filled in two parts, with a run after each, does what one run over
-- both does.
pub all_lines-append :
    {S : Type 0} (body : S → Bytes → S) (a b : Bytes) (s : S)
    → all_lines body (a ++ b) s
      ≡ all_lines body ((all_lines body a s).1 ++ b) (all_lines body a s).0
all_lines-append body a b s =
    let la = lines a in
    let lb = lines (la.1 ++ b) in
    all_lines_lem body (a ++ b) s
    ∙ ap (λ (r : List Bytes × Bytes). (fold_lines body s r.0, r.1)) (lines-append a b)
    ∙ ap (λ x. (x, lb.1)) (fold_lines-append body s la.0 lb.0)
    ∙ sym (all_lines_lem body (la.1 ++ b) (fold_lines body s la.0))
    ∙ sym (ap (λ r. all_lines body (r.1 ++ b) r.0) (all_lines_lem body a s))
