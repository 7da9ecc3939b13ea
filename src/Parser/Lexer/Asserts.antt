-- ===== src/Parser/Lexer/Asserts.antt =====
-- When the assertions of `parse_token` fail: only behind a backslash before a line feed.
use mathlib.Core.List.{concat-ne-nil}
use system_prog.Common.{
  ℕ, ◌+◌, ◌^◌, ◌<◌, ◌≡◌, ◌≢◌, ◌⊎◌, inl, ◌∙◌, refl, true, false, [], ◌∷◌, ◌++◌, arith, Bytes, length,
}
use system_prog.Parser.Lexer.Bounds.{parse_token-eq}
use system_prog.Parser.Lexer.Scan.{
  scan-return, scan-next_two, AllBlank, skip_spaces-blank, skip_spaces-scan,
}
use system_prog.Parser.Lexer.{
  Lexed, returned, assert_failed, Round, return_, next_one, next_two, on_quote, on_operator,
  on_hash, on_backslash, append_and_next, on_blank, go_on, round, skip_comment, scan, is_space,
  skip_spaces, parse_token,
}

-- No backslash stands before a line feed.
abbrev pub NoContinuation : Bytes → Type 0
NoContinuation [] = Unit
NoContinuation (c ∷ []) = Unit
NoContinuation (c ∷ d ∷ s) = ((c ≡ b'\\') → (d ≢ b'\n')) × NoContinuation (d ∷ s)

abbrev IsQuote : ℕ → Type 0
IsQuote q = (q ≡ 0) ⊎ ((q ≡ b'\'') ⊎ (q ≡ b'"'))

abbrev Passes : Lexed → Type 0
Passes (returned _) = Unit
Passes assert_failed = ⊥

-- Outside quotes a word has begun.
abbrev Ready : ℕ → Bytes → Type 0
Ready q t = IsQuote q × (q ≡ 0 → t ≢ [])

abbrev RoundPasses : Round → Type 0
RoundPasses (return_ r) = Passes r
RoundPasses (next_one q t) = Ready q t
RoundPasses (next_two q t) = Ready q t

skip_comment-Passes : (t s : Bytes) (n : ℕ) → Passes (skip_comment t s n)
unfolding skip_comment
skip_comment-Passes t [] n = tt
skip_comment-Passes t (c ∷ s) n = ground (arith, skip_comment-Passes t s (n + 1))

module _ (q : ℕ) (t : Bytes) (c : ℕ) (n : ℕ) (quote : IsQuote q)
    (begun : q ≡ 0 → t ≡ [] → is_space c ≡ false) where
  on_quote-Passes : (s : Bytes) → (c ≡ b'\'') ⊎ (c ≡ b'"') → RoundPasses (on_quote q t c s n)
  unfolding on_quote append_and_next
  on_quote-Passes s h = ground (arith, concat-ne-nil c t)

  on_backslash-Passes :
      (s : Bytes) → c ≡ b'\\' → NoContinuation (c ∷ s) → RoundPasses (on_backslash q t c s)
  unfolding on_backslash append_and_next
  on_backslash-Passes [] e h = ground (arith, concat-ne-nil c t)
  on_backslash-Passes (d ∷ s) e h = ground (arith, concat-ne-nil c t, concat-ne-nil d t)

  on_blank-Passes : (m : ℕ) → is_space c ≡ true → RoundPasses (on_blank q t c m)
  unfolding on_blank append_and_next
  on_blank-Passes m h = ground (arith, concat-ne-nil c t)

  on_operator-Passes : (s : Bytes) → RoundPasses (on_operator q t c s n)
  unfolding on_operator append_and_next
  on_operator-Passes [] = ground (arith, concat-ne-nil c t)
  on_operator-Passes (d ∷ s) = ground (arith, concat-ne-nil c t)

  on_hash-Passes : (s : Bytes) → RoundPasses (on_hash q t c s n)
  unfolding on_hash append_and_next
  on_hash-Passes s = ground (arith, concat-ne-nil c t, skip_comment-Passes t s (n + 1))

  round-Passes : (s : Bytes) → NoContinuation (c ∷ s) → RoundPasses (round q t c s n)
  unfolding round append_and_next is_space
  round-Passes s h = ground (
    arith,
    concat-ne-nil c t,
    on_quote-Passes s,
    on_backslash-Passes s,
    on_blank-Passes n,
    on_blank-Passes (n + 1),
    on_operator-Passes s,
    on_hash-Passes s,
  )

abbrev Begun : ℕ → Bytes → Bytes → Type 0
Begun q t [] = Unit
Begun q t (c ∷ s) = q ≡ 0 → t ≡ [] → is_space c ≡ false

Begun-Ready : (q : ℕ) (t s : Bytes) → Ready q t → Begun q t s
Begun-Ready q t [] r = tt
Begun-Ready q t (c ∷ s) r = λ e f. absurd (r.1 e f)

NoContinuation-tail : (c : ℕ) (s : Bytes) → NoContinuation (c ∷ s) → NoContinuation s
NoContinuation-tail c [] h = tt
NoContinuation-tail c (d ∷ s) h = h.1

go_on-Passes :
    (r : Round) (one two : ℕ → Bytes → Lexed)
    → RoundPasses r
    → ((q : ℕ) (t : Bytes) → Ready q t → Passes (one q t))
    → ((q : ℕ) (t : Bytes) → Ready q t → Passes (two q t))
    → Passes (go_on r one two)
go_on-Passes (return_ r) one two w h k = w
go_on-Passes (next_one q t) one two w h k = h q t w
go_on-Passes (next_two q t) one two w h k = k q t w

scan-Passes :
    (q : ℕ) (t s : Bytes) (n : ℕ)
    → IsQuote q
    → Begun q t s
    → NoContinuation s
    → Passes (scan q t s n)
unfolding scan
scan-Passes q t [] n iq b h = tt
scan-Passes q t (c ∷ []) n iq b h =
    go_on-Passes (round q t c [] n) _ _ (round-Passes q t c n iq b [] h) (λ _ _ _. tt) (λ _ _ _. tt)
scan-Passes q t (c ∷ d ∷ s) n iq b h =
    go_on-Passes (round q t c (d ∷ s) n) _ _ (round-Passes q t c n iq b (d ∷ s) h)
      (λ q' t' r. scan-Passes q' t' (d ∷ s) (n + 1) r.0 (Begun-Ready q' t' (d ∷ s) r) h.1)
      (λ q' t' r.
        scan-Passes q' t' s (n + 2) r.0 (Begun-Ready q' t' s r) (NoContinuation-tail d s h.1))

skip_spaces-Passes : (s : Bytes) (n : ℕ) → NoContinuation s → Passes (skip_spaces s n)
unfolding skip_spaces
skip_spaces-Passes [] n h = tt
skip_spaces-Passes (c ∷ s) n h = ground (
  arith,
  scan-Passes 0 [] (c ∷ s) n (inl refl),
  skip_spaces-Passes s (n + 1),
  NoContinuation-tail c s h,
)

Passes-ne : (r : Lexed) → Passes r → r ≢ assert_failed
Passes-ne (returned _) h = λ e. cc
Passes-ne assert_failed h = absurd h

-- Where no backslash stands before a line feed, in less than 4 GiB of bytes, no assertion of
-- `parse_token` fails.
parse_token-ne-assert_failed :
    (s : Bytes) → length s < 2 ^ 32 → NoContinuation s → parse_token s ≢ assert_failed
parse_token-ne-assert_failed s l h =
    rw (parse_token-eq s l) (Passes-ne (skip_spaces s 0) (skip_spaces-Passes s 0 h))

round_continued : (s : Bytes) (n : ℕ) → round 0 [] b'\\' (b'\n' ∷ s) n ≡ next_two 0 []
unfolding round on_backslash
round_continued s n = refl

round_early :
    (b : ℕ) (s : Bytes) (n : ℕ)
    → (b ≡ b' ') ⊎ ((b ≡ b'\t') ⊎ ((b ≡ b'\r') ⊎ (b ≡ b'\n')))
    → round 0 [] b s n ≡ return_ assert_failed
unfolding round on_blank
round_early b s n h = ground arith

-- Where a token would begin with a backslash before a line feed, and a space, a tab, a carriage
-- return or a line feed follows, the assertion that the token is not empty fails. The bytes
-- before are blanks, and there are less than 4 GiB in all.
pub parse_token-continued :
    (bs : Bytes) (b : ℕ) (s : Bytes)
    → AllBlank bs
    → (b ≡ b' ') ⊎ ((b ≡ b'\t') ⊎ ((b ≡ b'\r') ⊎ (b ≡ b'\n')))
    → length (bs ++ b'\\' ∷ b'\n' ∷ b ∷ s) < 2 ^ 32
    → parse_token (bs ++ b'\\' ∷ b'\n' ∷ b ∷ s) ≡ assert_failed
unfolding is_space
parse_token-continued bs b s h k l =
    parse_token-eq (bs ++ b'\\' ∷ b'\n' ∷ b ∷ s) l
    ∙ skip_spaces-blank bs (b'\\' ∷ b'\n' ∷ b ∷ s) 0 h
    ∙ skip_spaces-scan b'\\' (b'\n' ∷ b ∷ s) (0 + length bs) refl
    ∙ scan-next_two 0 [] b'\\' (0 + length bs) b'\n' (b ∷ s)
        (round_continued (b ∷ s) (0 + length bs))
    ∙ scan-return 0 [] b s (0 + length bs + 2) (round_early b s (0 + length bs + 2) k)
