-- ===== src/Parser/Pop/Steps.antt =====
-- Single tokens, read at the front of the rest.
use system_prog.Common.{
  ◌==◌, Bool-cases, inl, inr, ℕ, zero, suc, ◌+◌, ◌<◌, ◌≡◌, ◌≢◌, ◌∙◌, refl, ap, [], ◌∷◌, ◌++◌, arith,
  Bytes, length, length-append, drop, drop-add_length, zero-add,
}
use system_prog.Parser.Lexer.{
  parse_token, TokenType, Token, token_str, token_new_line, returned, lexed, skip_spaces,
  single_operator, double_operator,
}
use system_prog.Parser.Lexer.Bounds.{parse_token-eq}
use system_prog.Parser.Lexer.Scan.{AllBlank, skip_spaces-blank}
use system_prog.Parser.Lexer.Words.{escaped, quoted, escaped_size, skip_spaces-quoted}
use system_prog.Parser.Lexer.Operators.{
  IsOperator, skip_spaces-single, skip_spaces-double, skip_spaces-new_line,
}
use system_prog.Parser.Pop.Rules.{small}
use system_prog.Parser.Pop.{Then, after_token, next_token}

-- Token `t` stands first in `rest`, `r` follows it, and `m` counts what is taken.
pub record Reads (rest : Bytes) (n : ℕ) (t : Token) (r : Bytes) (m : ℕ) : Type 0 where
  pub reads : (go : Then) → next_token rest n go ≡ go t r m
  pub shorter : length r < length rest
  pub counted : m + length r ≡ n + length rest

after_token-pos :
    (u : ℕ) (t : Token) (rest : Bytes) (n : ℕ) (go : Then)
    → 0 < u
    → after_token (returned (u, t)) rest n go ≡ go t (drop u rest) (n + u)
after_token-pos zero t rest n go h = absurd (omega arith)
after_token-pos (suc u) t rest n go h = refl

abbrev pub token : TokenType → Bytes → Token
token ty text = record { type = ty; text = text }

-- A token of `u` bytes behind blanks.
Reads-skip_spaces :
    (bs s : Bytes) (n u : ℕ) (ty : TokenType) (text r : Bytes)
    → AllBlank bs
    → length (bs ++ s) < small
    → skip_spaces s (length bs) ≡ lexed (length bs + u) ty text
    → 0 < u
    → drop u s ≡ r
    → length s ≡ u + length r
    → Reads (bs ++ s) n (token ty text) r (n + (length bs + u))
unfolding next_token
Reads-skip_spaces bs s n u ty text r b l e p d c = record {
  reads = λ go.
      ap (λ k. after_token k (bs ++ s) n go) parsed
      ∙ after_token-pos (length bs + u) (token ty text) (bs ++ s) n go (omega arith)
      ∙ ap (λ k. go (token ty text) k (n + (length bs + u))) (drop-add_length bs s u ∙ d);
  shorter = omega (arith, length-append bs s);
  counted = omega (arith, length-append bs s);
}
  where
    parsed : parse_token (bs ++ s) ≡ lexed (length bs + u) ty text
    parsed = parse_token-eq (bs ++ s) l ∙ skip_spaces-blank bs s 0 b ∙ rw zero-add e

drop-escaped : (w r : Bytes) → drop (escaped_size w) (escaped w r) ≡ r
drop-escaped [] r = refl
drop-escaped (c ∷ w) r =
    let two : 2 + escaped_size w ≡ suc (suc (escaped_size w)) = omega arith in
    let one : 1 + escaped_size w ≡ suc (escaped_size w) = omega arith in
    elim (Bool-cases (c == b'"')) [
      | inl h ↦ rw (h, two) (drop-escaped w r)
      | inr h ↦ elim (Bool-cases (c == b'\\')) [
        | inl k ↦ rw (h, k, two) (drop-escaped w r)
        | inr k ↦ rw (h, k, one) (drop-escaped w r)
      ]
    ]

pub length-escaped : (w r : Bytes) → length (escaped w r) ≡ escaped_size w + length r
length-escaped [] r = omega arith
length-escaped (c ∷ w) r = ground (arith, length-escaped w r)

module _ (bs : Bytes) (n : ℕ) (b : AllBlank bs) where
  pub Reads-quoted :
      (w r : Bytes)
      → length (bs ++ quoted w r) < small
      → Reads (bs ++ quoted w r) n (token token_str w) r (n + (length bs + (suc (escaped_size w))))
  Reads-quoted w r l =
      Reads-skip_spaces bs (quoted w r) n (suc (escaped_size w)) token_str w r b l
        (skip_spaces-quoted w r (length bs) ∙ ap (λ i. lexed i token_str w) (omega arith))
        (omega arith) (drop-escaped w r) (omega (arith, length-escaped w r))

  pub Reads-single :
      (c d : ℕ) (r : Bytes)
      → IsOperator c
      → d ≢ c
      → length (bs ++ c ∷ d ∷ r) < small
      → Reads (bs ++ c ∷ d ∷ r) n (token (single_operator c) []) (d ∷ r) (n + (length bs + 1))
  Reads-single c d r o h l =
      Reads-skip_spaces bs (c ∷ d ∷ r) n 1 (single_operator c) [] (d ∷ r) b l
        (skip_spaces-single c d r (length bs) o h) (omega arith) refl (omega arith)

  pub Reads-double :
      (c : ℕ) (r : Bytes)
      → IsOperator c
      → length (bs ++ c ∷ c ∷ r) < small
      → Reads (bs ++ c ∷ c ∷ r) n (token (double_operator c) []) r (n + (length bs + 2))
  Reads-double c r o l =
      Reads-skip_spaces bs (c ∷ c ∷ r) n 2 (double_operator c) [] r b l
        (skip_spaces-double c r (length bs) o) (omega arith) refl (omega arith)

  pub Reads-new_line :
      (r : Bytes)
      → length (bs ++ b'\n' ∷ r) < small
      → Reads (bs ++ b'\n' ∷ r) n (token token_new_line []) r (n + (length bs + 1))
  Reads-new_line r l =
      Reads-skip_spaces bs (b'\n' ∷ r) n 1 token_new_line [] r b l
        (skip_spaces-new_line r (length bs)) (omega arith) refl (omega arith)
