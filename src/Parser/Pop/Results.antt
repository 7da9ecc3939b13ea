-- ===== src/Parser/Pop/Results.antt =====
-- What `parser_pop_next` returns, and that the result does not depend on how the bytes came.
use system_prog.Common.{
  ℕ, ◌≤◌, ◌<◌, ◌^◌, ◌≡◌, ◌≢◌, ◌⊎◌, inl, inr, ◌∙◌, refl, ap, none, some, ◌++◌, arith, Bytes, length,
  length-append, drop, drop-append, u32, u32-eq_of_lt,
}
use system_prog.Parser.CommandLine.{err_none, new_line}
use system_prog.Parser.CommandLine.Grammar.{IsCommandLine}
use system_prog.Parser.Pop.Rules.{small, IsFinal}
use system_prog.Parser.Pop.Sound.{IsSound, search_line-IsSound}
use system_prog.Parser.Pop.Append.{search_line-append}
use system_prog.Parser.Pop.{
  Parser, parser_feed, Verdict, accepted, rejected, no_line, assertion, exhausted, search_line,
  PopResult, popped, pop_assertion, pop_exhausted, parser_consume, settle, parser_pop_next,
}

-- `q` is `p` less some bytes at the front of the buffer, at least one.
abbrev pub Consumes : Parser → Parser → Type 0
Consumes p q = (k : ℕ) × (0 < k) × (k ≤ length p.buffer) × (q.buffer ≡ drop k p.buffer)

abbrev pub Answers : Parser → PopResult → Type 0
Answers p (popped code (some line) q) = (code ≡ err_none) × IsCommandLine line × Consumes p q
Answers p (popped code none q) = ((code ≡ err_none) × (q ≡ p)) ⊎ ((code ≢ err_none) × Consumes p q)
Answers p pop_assertion = Unit
Answers p pop_exhausted = ⊥

pub parser_consume-some :
    (p : Parser) (n : ℕ)
    → n ≤ length p.buffer
    → length p.buffer < small
    → parser_consume p (u32 n) ≡ some (record { buffer = drop n p.buffer })
unfolding parser_consume
parser_consume-some p n h l = rw (u32-eq_of_lt n (omega arith)) (ground arith)

settle-Answers :
    (p : Parser) (v : Verdict)
    → length p.buffer < small
    → IsSound (length p.buffer) v
    → Answers p (settle p v)
settle-Answers p (accepted line n) l (h, k, w) =
    rw (parser_consume-some p n k l) (refl, w, (n, h, k, refl))
settle-Answers p (rejected code n) l (h, k, ne) =
    rw (parser_consume-some p n k l) (inr (ne, (n, h, k, refl)))
settle-Answers p no_line l s = inl (refl, refl)
settle-Answers p assertion l s = tt
settle-Answers p exhausted l s = s

-- From less than 4 GiB, unless an assertion fails, `parser_pop_next` returns a well-formed line
-- and no error, having consumed bytes; or an error and no line, having consumed bytes; or neither,
-- and then the parser is as it was. The fuel of the model is enough.
pub parser_pop_next-Answers :
    (p : Parser) → length p.buffer < 2 ^ 32 → Answers p (parser_pop_next p)
unfolding parser_pop_next
parser_pop_next-Answers p l =
    settle-Answers p (search_line new_line p.buffer 0) l (search_line-IsSound p.buffer l)

-- The result is a line, an error or the failure of an assertion.
abbrev pub IsAnswer : PopResult → Type 0
IsAnswer (popped err_none none q) = ⊥
IsAnswer (popped _ _ q) = Unit
IsAnswer pop_assertion = Unit
IsAnswer pop_exhausted = ⊥

-- The result, with bytes added to the buffer behind it.
abbrev pub feed_result : PopResult → Bytes → PopResult
feed_result (popped code line q) str = popped code line (parser_feed q str)
feed_result pop_assertion str = pop_assertion
feed_result pop_exhausted str = pop_exhausted

IsAnswer-IsFinal : (p : Parser) (v : Verdict) → IsAnswer (settle p v) → IsFinal v
IsAnswer-IsFinal p (accepted line n) h = tt
IsAnswer-IsFinal p (rejected code n) h = tt
IsAnswer-IsFinal p assertion h = tt
IsAnswer-IsFinal p no_line h = h
IsAnswer-IsFinal p exhausted h = h

settle-feed :
    (p : Parser) (str : Bytes) (v : Verdict)
    → length (p.buffer ++ str) < small
    → IsSound (length p.buffer) v
    → IsFinal v
    → settle (parser_feed p str) v ≡ feed_result (settle p v) str
unfolding parser_feed
settle-feed p str (accepted line n) l (h, k, w) f = rw (
  parser_consume-some p n k (omega (arith, length-append p.buffer str)),
  parser_consume-some (record { buffer = p.buffer ++ str }) n
      (omega (arith, length-append p.buffer str)) l,
  drop-append n p.buffer str k,
)
settle-feed p str (rejected code n) l (h, k, ne) f = rw (
  parser_consume-some p n k (omega (arith, length-append p.buffer str)),
  parser_consume-some (record { buffer = p.buffer ++ str }) n
      (omega (arith, length-append p.buffer str)) l,
  drop-append n p.buffer str k,
)
settle-feed p str no_line l s f = absurd f
settle-feed p str assertion l s f = refl
settle-feed p str exhausted l s f = absurd f

-- Once there is an answer, feeding bytes before the call or after it makes no difference: the
-- answer is the same, and so is the buffer behind it. The buffer stays below 4 GiB.
pub parser_pop_next-feed :
    (p : Parser) (str : Bytes)
    → length (p.buffer ++ str) < 2 ^ 32
    → IsAnswer (parser_pop_next p)
    → parser_pop_next (parser_feed p str) ≡ feed_result (parser_pop_next p) str
unfolding parser_pop_next parser_feed
parser_pop_next-feed p str l a =
    let v = search_line new_line p.buffer 0 in
    let f = IsAnswer-IsFinal p v a in
    let l' : length p.buffer < small = omega (arith, length-append p.buffer str) in
    ap (settle (parser_feed p str)) (search_line-append str new_line p.buffer 0 l f)
    ∙ settle-feed p str v l (search_line-IsSound p.buffer l') f
