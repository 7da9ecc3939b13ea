-- ===== src/Parser/Pop/Rules.antt =====
-- Rules for one token read by the search for a line.
use system_prog.Common.{
  ℕ, zero, suc, ◌+◌, ◌^◌, ◌<◌, ◌≡◌, ◌≢◌, ◌∙◌, refl, ap, ◌++◌, arith, Bytes, length, drop,
  drop-append, length-drop, length-append,
}
use system_prog.Parser.Lexer.{token_none, Token, returned, assert_failed, Lexed, parse_token}
use system_prog.Parser.Lexer.Bounds.{Within, parse_token-Within}
use system_prog.Parser.Lexer.Append.{IsDecided, parse_token-append}
use system_prog.Parser.Pop.{Verdict, no_line, assertion, exhausted, Then, after_token, next_token}

abbrev pub small : ℕ
small = 2 ^ 32

-- The rest after a token is shorter, and what was taken is counted.
pub record Taken (rest : Bytes) (n : ℕ) (r : Bytes) (m : ℕ) : Type 0 where
  pub shorter : length r < length rest
  pub counted : m + length r ≡ n + length rest

after_token-ind :
    (P : Verdict → Type 0) (l : Lexed) (rest : Bytes) (n : ℕ) (go : Then)
    → Within 0 (length rest) l
    → P no_line
    → P assertion
    → ((t : Token) (r : Bytes) (m : ℕ) → t.type ≢ token_none → Taken rest n r m → P (go t r m))
    → P (after_token l rest n go)
after_token-ind P (returned (zero, t)) rest n go w a b h = a
after_token-ind P (returned (suc u, t)) rest n go w a b h =
    h t (drop (suc u) rest) (n + suc u) (ground arith) (record {
      shorter = omega (arith, length-drop (suc u) rest, w.0);
      counted = omega (arith, length-drop (suc u) rest, w.0);
    })
after_token-ind P assert_failed rest n go w a b h = b

-- To prove something of what comes out, prove it of what follows each token.
pub next_token-ind :
    (P : Verdict → Type 0) (rest : Bytes) (n : ℕ) (go : Then)
    → length rest < small
    → P no_line
    → P assertion
    → ((t : Token) (r : Bytes) (m : ℕ) → t.type ≢ token_none → Taken rest n r m → P (go t r m))
    → P (next_token rest n go)
unfolding next_token
next_token-ind P rest n go l =
    after_token-ind P (parse_token rest) rest n go (parse_token-Within rest l)

after_token-cong :
    (l : Lexed) (rest : Bytes) (n : ℕ) (go go' : Then)
    → Within 0 (length rest) l
    → ((t : Token) (r : Bytes) (m : ℕ) → Taken rest n r m → go t r m ≡ go' t r m)
    → after_token l rest n go ≡ after_token l rest n go'
after_token-cong (returned (zero, t)) rest n go go' w h = refl
after_token-cong (returned (suc u, t)) rest n go go' w h =
    h t (drop (suc u) rest) (n + suc u) (record {
      shorter = omega (arith, length-drop (suc u) rest, w.0);
      counted = omega (arith, length-drop (suc u) rest, w.0);
    })
after_token-cong assert_failed rest n go go' w h = refl

pub next_token-cong :
    (rest : Bytes) (n : ℕ) (go go' : Then)
    → length rest < small
    → ((t : Token) (r : Bytes) (m : ℕ) → Taken rest n r m → go t r m ≡ go' t r m)
    → next_token rest n go ≡ next_token rest n go'
unfolding next_token
next_token-cong rest n go go' l =
    after_token-cong (parse_token rest) rest n go go' (parse_token-Within rest l)

-- The search has an answer: it does not wait for more bytes.
abbrev pub IsFinal : Verdict → Type 0
IsFinal no_line = ⊥
IsFinal exhausted = ⊥
IsFinal _ = Unit

after_token-IsDecided :
    (l : Lexed) (rest : Bytes) (n : ℕ) (go : Then) → IsFinal (after_token l rest n go) → IsDecided l
after_token-IsDecided (returned (zero, t)) rest n go h = absurd h
after_token-IsDecided (returned (suc u, t)) rest n go h = omega arith
after_token-IsDecided assert_failed rest n go h = tt

after_token-append :
    (l : Lexed) (rest e : Bytes) (n : ℕ) (go go' : Then)
    → Within 0 (length rest) l
    → ((t : Token) (r : Bytes) (m : ℕ)
        → Taken rest n r m
        → IsFinal (go t r m)
        → go' t (r ++ e) m ≡ go t r m)
    → IsFinal (after_token l rest n go)
    → after_token l (rest ++ e) n go' ≡ after_token l rest n go
after_token-append (returned (zero, t)) rest e n go go' w h f = absurd f
after_token-append (returned (suc u, t)) rest e n go go' w h f =
    ap (λ r. go' t r (n + suc u)) (drop-append (suc u) rest e (omega arith))
    ∙ h t (drop (suc u) rest) (n + suc u)
        (record {
          shorter = omega (arith, length-drop (suc u) rest, w.0);
          counted = omega (arith, length-drop (suc u) rest, w.0);
        })
        f
after_token-append assert_failed rest e n go go' w h f = refl

-- An answer stays the same when bytes arrive, if it does so after each token.
pub next_token-append :
    (rest e : Bytes) (n : ℕ) (go go' : Then)
    → length (rest ++ e) < small
    → ((t : Token) (r : Bytes) (m : ℕ)
        → Taken rest n r m
        → IsFinal (go t r m)
        → go' t (r ++ e) m ≡ go t r m)
    → IsFinal (next_token rest n go)
    → next_token (rest ++ e) n go' ≡ next_token rest n go
unfolding next_token
next_token-append rest e n go go' l h f =
    let l' : length rest < small = omega (arith, length-append rest e) in
    ap (λ k. after_token k (rest ++ e) n go')
      (parse_token-append rest e l l' (after_token-IsDecided (parse_token rest) rest n go f))
    ∙ after_token-append (parse_token rest) rest e n go go' (parse_token-Within rest l') h f
