-- ===== src/Parser/Lexer/Bounds.antt =====
-- How much `parse_token` uses: never more than there is, and with a token, something.
use system_prog.Common.{
  ℕ, suc, ◌+◌, ◌^◌, ◌≤◌, ◌<◌, ◌≡◌, ◌≢◌, ◌⊎◌, refl, ap, [], ◌∷◌, arith, length, u32-eq_of_lt, Bytes,
}
use system_prog.Parser.Lexer.{
  token_none, returned, assert_failed, Lexed, Round, return_, next_one, next_two, on_quote,
  on_operator, on_hash, on_backslash, append_and_next, on_blank, go_on, round, skip_comment, scan,
  skip_spaces, truncate, parse_token,
}

-- The result stays within the `l` bytes behind offset `n`, and is a token unless it is 0.
abbrev pub Within : ℕ → ℕ → Lexed → Type 0
Within n l (returned (m, t)) = (m ≤ n + l) × ((m ≡ 0) ⊎ (t.type ≢ token_none))
Within n l assert_failed = Unit

abbrev RoundWithin : ℕ → ℕ → Round → Type 0
RoundWithin n l (return_ r) = Within n l r
RoundWithin n l (next_one _ _) = Unit
RoundWithin n l (next_two _ _) = Unit

skip_comment-Within : (t s : Bytes) (n : ℕ) → Within n (length s) (skip_comment t s n)
unfolding skip_comment
skip_comment-Within t [] n = ground arith
skip_comment-Within t (c ∷ s) n = ground (arith, skip_comment-Within t s (n + 1))

module _ (q : ℕ) (t : Bytes) (c : ℕ) (s : Bytes) (n : ℕ) where
  on_quote-Within : RoundWithin n (suc (length s)) (on_quote q t c s n)
  unfolding on_quote
  on_quote-Within = ground arith

  on_operator-Within : RoundWithin n (suc (length s)) (on_operator q t c s n)
  unfolding on_operator
  on_operator-Within = ground arith

  on_hash-Within : RoundWithin n (suc (length s)) (on_hash q t c s n)
  unfolding on_hash
  on_hash-Within = ground (arith, skip_comment-Within t s (n + 1))

  on_backslash-Within : RoundWithin n (suc (length s)) (on_backslash q t c s)
  unfolding on_backslash
  on_backslash-Within = ground arith

  on_blank-Within : (m : ℕ) → m ≤ n + 1 → RoundWithin n (suc (length s)) (on_blank q t c m)
  unfolding on_blank
  on_blank-Within m h = ground arith

  round-Within : RoundWithin n (suc (length s)) (round q t c s n)
  unfolding round append_and_next
  round-Within = ground (
    arith,
    on_quote-Within,
    on_operator-Within,
    on_hash-Within,
    on_backslash-Within,
    on_blank-Within n,
    on_blank-Within (n + 1),
  )

Within-widen : (n m l k : ℕ) (r : Lexed) → Within m k r → m + k ≤ n + l → Within n l r
Within-widen n m l k (returned (u, t)) w h = ground arith
Within-widen n m l k assert_failed w h = tt

go_on-Within :
    (n l : ℕ) (r : Round) (one two : ℕ → Bytes → Lexed)
    → RoundWithin n l r
    → ((q : ℕ) (t : Bytes) → Within n l (one q t))
    → ((q : ℕ) (t : Bytes) → Within n l (two q t))
    → Within n l (go_on r one two)
go_on-Within n l (return_ r) one two w h k = w
go_on-Within n l (next_one q t) one two w h k = h q t
go_on-Within n l (next_two q t) one two w h k = k q t

scan-Within : (q : ℕ) (t s : Bytes) (n : ℕ) → Within n (length s) (scan q t s n)
unfolding scan
scan-Within q t [] n = ground arith
scan-Within q t (c ∷ []) n =
    go_on-Within n 1 (round q t c [] n) _ _ (round-Within q t c [] n) (λ _ _. ground arith)
      (λ _ _. ground arith)
scan-Within q t (c ∷ d ∷ s) n =
    go_on-Within n (suc (suc (length s))) (round q t c (d ∷ s) n) _ _ (round-Within q t c (d ∷ s) n)
      (λ q t.
        Within-widen n (n + 1) _ (suc (length s)) (scan q t (d ∷ s) (n + 1))
          (scan-Within q t (d ∷ s) (n + 1)) (omega arith))
      (λ q t.
        Within-widen n (n + 2) _ (length s) (scan q t s (n + 2)) (scan-Within q t s (n + 2))
          (omega arith))

skip_spaces-Within : (s : Bytes) (n : ℕ) → Within n (length s) (skip_spaces s n)
unfolding skip_spaces
skip_spaces-Within [] n = ground arith
skip_spaces-Within (c ∷ s) n = ground (
  arith,
  scan-Within 0 [] (c ∷ s) n,
  Within-widen n (n + 1) (suc (length s)) (length s) (skip_spaces s (n + 1))
      (skip_spaces-Within s (n + 1)) (omega arith),
)

truncate-eq : (l : ℕ) (r : Lexed) → Within 0 l r → l < 2 ^ 32 → truncate r ≡ r
unfolding truncate
truncate-eq l (returned (m, t)) w h = ap (λ k. returned (k, t)) (u32-eq_of_lt m (omega arith))
truncate-eq l assert_failed w h = refl

-- With less than 4 GiB of bytes the truncation to `uint32_t` changes nothing.
pub parse_token-eq : (s : Bytes) → length s < 2 ^ 32 → parse_token s ≡ skip_spaces s 0
unfolding parse_token
parse_token-eq s h = truncate-eq (length s) (skip_spaces s 0) (skip_spaces-Within s 0) h

-- With less than 4 GiB of bytes, what `parse_token` uses is there, and unless it uses nothing
-- it has set the type of the token.
pub parse_token-Within : (s : Bytes) → length s < 2 ^ 32 → Within 0 (length s) (parse_token s)
parse_token-Within s h = rw (parse_token-eq s h) (skip_spaces-Within s 0)
