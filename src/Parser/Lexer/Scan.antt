-- ===== src/Parser/Lexer/Scan.antt =====
-- One step of each loop of `parse_token`.
use system_prog.Common.{ℕ, ◌+◌, ◌≡◌, ◌≢◌, ap, true, false, [], ◌∷◌, ◌++◌, arith, length, Bytes}
use system_prog.Parser.Lexer.{
  Lexed, return_, next_one, next_two, round, scan, is_space, skip_spaces,
}

module _ (q : ℕ) (t : Bytes) {q' : ℕ} {t' : Bytes} (c : ℕ) (n : ℕ) where
  pub scan-next_one :
      (s : Bytes) → round q t c s n ≡ next_one q' t' → scan q t (c ∷ s) n ≡ scan q' t' s (n + 1)
  unfolding scan
  scan-next_one [] h = rw h
  scan-next_one (d ∷ s) h = rw h

  pub scan-next_two :
      (d : ℕ) (s : Bytes)
      → round q t c (d ∷ s) n ≡ next_two q' t'
      → scan q t (c ∷ d ∷ s) n ≡ scan q' t' s (n + 2)
  unfolding scan
  scan-next_two d s h = rw h

pub scan-return :
    (q : ℕ) (t : Bytes) (c : ℕ) (s : Bytes) (n : ℕ) {r : Lexed}
    → round q t c s n ≡ return_ r
    → scan q t (c ∷ s) n ≡ r
unfolding scan
scan-return q t c [] n h = rw h
scan-return q t c (d ∷ s) n h = rw h

-- Blanks other than the line feed.
abbrev pub AllBlank : Bytes → Type 0
AllBlank [] = Unit
AllBlank (c ∷ s) = (is_space c ≡ true) × (c ≢ b'\n') × AllBlank s

pub skip_spaces-blank :
    (bs s : Bytes) (n : ℕ) → AllBlank bs → skip_spaces (bs ++ s) n ≡ skip_spaces s (n + length bs)
unfolding skip_spaces
skip_spaces-blank [] s n h = ap (skip_spaces s) (omega arith)
skip_spaces-blank (c ∷ bs) s n (h, k, hs) = ground (arith, skip_spaces-blank bs s (n + 1) hs)

pub skip_spaces-scan :
    (c : ℕ) (s : Bytes) (n : ℕ) → is_space c ≡ false → skip_spaces (c ∷ s) n ≡ scan 0 [] (c ∷ s) n
unfolding skip_spaces
skip_spaces-scan c s n h = rw h
