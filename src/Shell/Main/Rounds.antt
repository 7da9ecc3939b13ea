-- ===== src/Shell/Main/Rounds.antt =====
-- Rules for the rounds of the inner loop, and that their number is bounded.
use system_prog.Common.{
  ℕ, zero, suc, ◌≤◌, ◌<◌, ◌^◌, ◌≡◌, inl, inr, refl, ap, Option, none, some, arith, length,
  length-drop,
}
use system_prog.Parser.CommandLine.{err_none, CommandLine}
use system_prog.Parser.Pop.{
  Parser, PopResult, popped, pop_assertion, pop_exhausted, parser_pop_next,
}
use system_prog.Parser.Pop.Results.{Consumes, Answers, parser_pop_next-Answers}
use system_prog.Shell.Execute.{System, Executed, status, process_exit, hangs, execute_command_line}
use system_prog.Shell.Main.{
  Shell, waiting, ended, aborted, hung, out_of_fuel, exit_line, after_line, run_line, after_pop,
  drain,
}

abbrev pub small : ℕ
small = 2 ^ 32

pub shorter : (p q : Parser) → Consumes p q → length q.buffer < length p.buffer
shorter p q (k, pos, le, e) = omega (arith, ap length e, length-drop k p.buffer)

module _ (sys : System) where
  open sys use {World}

  abbrev pub Rest : Type 0
  Rest = Parser → ℕ → World → Shell World

  after_line-cong :
      (e : Executed World) (go go' : ℕ → World → Shell World)
      → ((last : ℕ) (w : World) → go last w ≡ go' last w)
      → after_line sys e go ≡ after_line sys e go'
  after_line-cong (status code w) go go' h = h _ w
  after_line-cong (process_exit code w) go go' h = refl
  after_line-cong hangs go go' h = refl

  run_line-cong :
      (o : Option ℕ) (line : CommandLine) (w : World) (go go' : ℕ → World → Shell World)
      → ((last : ℕ) (w : World) → go last w ≡ go' last w)
      → run_line sys o line w go ≡ run_line sys o line w go'
  run_line-cong (some code) line w go go' h = refl
  run_line-cong none line w go go' h = after_line-cong (execute_command_line sys line w) go go' h

  after_pop-cong :
      (p : Parser) (r : PopResult) (last : ℕ) (w : World) (go go' : Rest)
      → Answers p r
      → ((q : Parser)
          → length q.buffer < length p.buffer
          → (last : ℕ) (w : World) → go q last w ≡ go' q last w)
      → after_pop sys r last w go ≡ after_pop sys r last w go'
  after_pop-cong p (popped err_none none q) last w go go' a h = refl
  after_pop-cong p (popped err_none (some line) q) last w go go' (_, _, c) h =
      run_line-cong (exit_line line.exprs) line w (go q) (go' q) (h q (shorter p q c))
  after_pop-cong p (popped code none q) last w go go' (inl (e, _)) h = cc
  after_pop-cong p (popped code none q) last w go go' (inr (_, c)) h = h q (shorter p q c) last w
  after_pop-cong p (popped code (some line) q) last w go go' (_, _, c) h =
      h q (shorter p q c) last w
  after_pop-cong p pop_assertion last w go go' a h = refl
  after_pop-cong p pop_exhausted last w go go' a h = refl

  pub drain-fuel :
      (f g : ℕ) (p : Parser) (last : ℕ) (w : World)
      → length p.buffer < small
      → length p.buffer < f
      → length p.buffer < g
      → drain sys f p last w ≡ drain sys g p last w
  unfolding drain
  drain-fuel zero g p last w l hf hg = absurd (omega arith)
  drain-fuel (suc f) zero p last w l hf hg = absurd (omega arith)
  drain-fuel (suc f) (suc g) p last w l hf hg =
      after_pop-cong p (parser_pop_next p) last w (drain sys f) (drain sys g)
        (parser_pop_next-Answers p l)
        λ q s last' w'. drain-fuel f g q last' w' (omega arith) (omega arith) (omega arith)

  -- The shell waits with at most `n` bytes in the buffer, or has ended by itself.
  abbrev pub Settles : ℕ → Shell World → Type 0
  Settles n (waiting p last w) = length p.buffer ≤ n
  Settles n (ended code w) = Unit
  Settles n aborted = Unit
  Settles n hung = Unit
  Settles n out_of_fuel = ⊥

  run_line-Settles :
      (n : ℕ) (o : Option ℕ) (line : CommandLine) (w : World) (go : ℕ → World → Shell World)
      → ((last : ℕ) (w : World) → Settles n (go last w))
      → Settles n (run_line sys o line w go)
  run_line-Settles n (some code) line w go h = tt
  run_line-Settles n none line w go h = by_status (execute_command_line sys line w)
    where
      by_status : (e : Executed World) → Settles n (after_line sys e go)
      by_status (status code w) = h _ w
      by_status (process_exit code w) = tt
      by_status hangs = tt

  after_pop-Settles :
      (n : ℕ) (p : Parser) (r : PopResult) (last : ℕ) (w : World) (go : Rest)
      → length p.buffer ≤ n
      → Answers p r
      → ((q : Parser)
          → length q.buffer < length p.buffer
          → (last : ℕ) (w : World) → Settles n (go q last w))
      → Settles n (after_pop sys r last w go)
  after_pop-Settles n p (popped err_none none q) last w go l (inl (_, e)) h =
      omega (arith, ap (λ p. length p.buffer) e)
  after_pop-Settles n p (popped err_none none q) last w go l (inr (e, _)) h = absurd (e refl)
  after_pop-Settles n p (popped err_none (some line) q) last w go l (_, _, c) h =
      run_line-Settles n (exit_line line.exprs) line w (go q) (h q (shorter p q c))
  after_pop-Settles n p (popped code none q) last w go l (inl (e, _)) h = cc
  after_pop-Settles n p (popped code none q) last w go l (inr (_, c)) h = h q (shorter p q c) last w
  after_pop-Settles n p (popped code (some line) q) last w go l (_, _, c) h =
      h q (shorter p q c) last w
  after_pop-Settles n p pop_assertion last w go l a h = tt
  after_pop-Settles n p pop_exhausted last w go l a h = absurd a

  pub drain-Settles :
      (n f : ℕ) (p : Parser) (last : ℕ) (w : World)
      → length p.buffer < small
      → length p.buffer ≤ n
      → length p.buffer < f
      → Settles n (drain sys f p last w)
  unfolding drain
  drain-Settles n zero p last w l m h = absurd (omega arith)
  drain-Settles n (suc f) p last w l m h =
      after_pop-Settles n p (parser_pop_next p) last w (drain sys f) m (parser_pop_next-Answers p l)
        λ q s last' w'. drain-Settles n f q last' w' (omega arith) (omega arith) (omega arith)
