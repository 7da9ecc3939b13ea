-- ===== src/Parser/Lexer/Append.antt =====
-- Bytes that arrive later do not change what `parse_token` has decided.
use system_prog.Common.{
  ℕ, ◌+◌, ◌^◌, ◌<◌, ◌≡◌, ◌≢◌, ◌∙◌, refl, sym, [], ◌∷◌, ◌++◌, arith, length, Bytes,
}
use system_prog.Parser.Lexer.Bounds.{parse_token-eq}
use system_prog.Parser.Lexer.{
  returned, assert_failed, Lexed, Round, return_, next_one, next_two, on_quote, on_operator,
  on_hash, on_backslash, go_on, round, skip_comment, scan, skip_spaces, parse_token,
}

-- The outcome is a token or a failure, and not a wish for more bytes.
abbrev pub IsDecided : Lexed → Type 0
IsDecided (returned (m, t)) = m ≢ 0
IsDecided assert_failed = Unit

abbrev RoundIsDecided : Round → Type 0
RoundIsDecided (return_ r) = IsDecided r
RoundIsDecided (next_one _ _) = Unit
RoundIsDecided (next_two _ _) = Unit

skip_comment-append :
    (t s e : Bytes) (n : ℕ)
    → IsDecided (skip_comment t s n)
    → skip_comment t (s ++ e) n ≡ skip_comment t s n
unfolding skip_comment
skip_comment-append t [] e n h = absurd (h refl)
skip_comment-append t (c ∷ s) e n h = ground (arith, skip_comment-append t s e (n + 1))

module _ (q : ℕ) (t : Bytes) (c : ℕ) (e : Bytes) (n : ℕ) where
  on_quote-append :
      (s : Bytes)
      → RoundIsDecided (on_quote q t c s n)
      → on_quote q t c (s ++ e) n ≡ on_quote q t c s n
  unfolding on_quote
  on_quote-append [] h = ground arith
  on_quote-append (d ∷ s) h = ground arith

  on_operator-append :
      (s : Bytes)
      → RoundIsDecided (on_operator q t c s n)
      → on_operator q t c (s ++ e) n ≡ on_operator q t c s n
  unfolding on_operator
  on_operator-append [] h = ground arith
  on_operator-append (d ∷ s) h = ground arith

  on_hash-append :
      (s : Bytes)
      → RoundIsDecided (on_hash q t c s n)
      → on_hash q t c (s ++ e) n ≡ on_hash q t c s n
  unfolding on_hash
  on_hash-append s h = ground (arith, skip_comment-append t s e (n + 1))

  on_backslash-append :
      (s : Bytes)
      → RoundIsDecided (on_backslash q t c s)
      → on_backslash q t c (s ++ e) ≡ on_backslash q t c s
  unfolding on_backslash
  on_backslash-append [] h = ground arith
  on_backslash-append (d ∷ s) h = ground arith

  round-append :
      (s : Bytes) → RoundIsDecided (round q t c s n) → round q t c (s ++ e) n ≡ round q t c s n
  unfolding round
  round-append s h =
      ground
        (arith, on_quote-append s, on_operator-append s, on_hash-append s, on_backslash-append s)

go_on-append :
    (r : Round) (one two one' two' : ℕ → Bytes → Lexed)
    → ((q : ℕ) (t : Bytes) → IsDecided (one q t) → one' q t ≡ one q t)
    → ((q : ℕ) (t : Bytes) → IsDecided (two q t) → two' q t ≡ two q t)
    → IsDecided (go_on r one two)
    → go_on r one' two' ≡ go_on r one two
go_on-append (return_ r) one two one' two' f g h = refl
go_on-append (next_one q t) one two one' two' f g h = f q t h
go_on-append (next_two q t) one two one' two' f g h = g q t h

go_on-RoundIsDecided :
    (r : Round) (one two : ℕ → Bytes → Lexed) → IsDecided (go_on r one two) → RoundIsDecided r
go_on-RoundIsDecided (return_ r) one two h = h
go_on-RoundIsDecided (next_one q t) one two h = tt
go_on-RoundIsDecided (next_two q t) one two h = tt

scan-append :
    (q : ℕ) (t s e : Bytes) (n : ℕ) → IsDecided (scan q t s n) → scan q t (s ++ e) n ≡ scan q t s n
unfolding scan
scan-append q t [] e n h = absurd (h refl)
scan-append q t (c ∷ []) [] n h = refl
scan-append q t (c ∷ []) (d ∷ e) n h =
    rw (round-append q t c (d ∷ e) n [] (go_on-RoundIsDecided (round q t c [] n) _ _ h)) (
      go_on-append (round q t c [] n) _ _ _ _ (λ _ _ k. absurd (k refl)) (λ _ _ k. absurd (k refl))
        h)
scan-append q t (c ∷ d ∷ s) e n h =
    rw (round-append q t c e n (d ∷ s) (go_on-RoundIsDecided (round q t c (d ∷ s) n) _ _ h)) (
      go_on-append (round q t c (d ∷ s) n) _ _ _ _ (λ q t. scan-append q t (d ∷ s) e (n + 1))
        (λ q t. scan-append q t s e (n + 2)) h)

skip_spaces-append :
    (s e : Bytes) (n : ℕ) → IsDecided (skip_spaces s n) → skip_spaces (s ++ e) n ≡ skip_spaces s n
unfolding skip_spaces
skip_spaces-append [] e n h = absurd (h refl)
skip_spaces-append (c ∷ s) e n h =
    ground (arith, scan-append 0 [] (c ∷ s) e n, skip_spaces-append s e (n + 1))

-- What `parse_token` returns from less than 4 GiB of bytes, or the failure of its assertion,
-- stays the same whatever bytes follow, unless it has asked for more.
pub parse_token-append :
    (s e : Bytes)
    → length (s ++ e) < 2 ^ 32
    → length s < 2 ^ 32
    → IsDecided (parse_token s)
    → parse_token (s ++ e) ≡ parse_token s
parse_token-append s e he hs h =
    parse_token-eq (s ++ e) he
    ∙ skip_spaces-append s e 0 (rw (parse_token-eq s hs) at h)
    ∙ sym (parse_token-eq s hs)
