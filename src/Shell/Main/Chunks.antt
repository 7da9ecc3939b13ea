-- ===== src/Shell/Main/Chunks.antt =====
-- The shell always comes back to `read` or ends, and it does the same however the input is cut.
use system_prog.Common.{
  ℕ, zero, suc, ◌+◌, ◌≤◌, ◌<◌, ◌^◌, ◌≡◌, ◌≢◌, ◌⊎◌, inl, inr, ◌∙◌, refl, ap, sym, Option, none, some,
  List, [], ◌∷◌, ◌++◌, arith, Bytes, length, length-append, append_assoc, append-nil,
}
use system_prog.Parser.CommandLine.{err_none, CommandLine}
use system_prog.Parser.Pop.{
  Parser, parser_new, parser_feed, PopResult, popped, pop_assertion, pop_exhausted, parser_pop_next,
}
use system_prog.Parser.Pop.Results.{
  Answers, parser_pop_next-Answers, IsAnswer, feed_result, parser_pop_next-feed,
}
use system_prog.Shell.Execute.{System, Executed, status, process_exit, hangs, execute_command_line}
use system_prog.Shell.Main.Rounds.{small, shorter, Rest, Settles, drain-fuel, drain-Settles}
use system_prog.Shell.Main.{
  Shell, waiting, ended, aborted, hung, out_of_fuel, exit_line, after_line, run_line, after_pop,
  drain, drain_all, and_wait, read_loop, at_end, main,
}

abbrev pub flat : List Bytes → Bytes
flat [] = []
flat (c ∷ cs) = c ++ flat cs

abbrev pub total : List Bytes → ℕ
total [] = 0
total (c ∷ cs) = length c + total cs

module _ (sys : System) where
  open sys use {World}

  read_loop-Settles :
      (chunks : List Bytes) (p : Parser) (last : ℕ) (w : World) (n : ℕ)
      → length p.buffer + total chunks ≤ n
      → n < small
      → Settles sys n (read_loop sys chunks p last w)
  unfolding read_loop parser_feed
  read_loop-Settles [] p last w n h l = omega arith
  read_loop-Settles (c ∷ cs) p last w n h l =
      by_shell (drain_all sys (parser_feed p c) last w)
        (drain-Settles sys (length (p.buffer ++ c)) (suc (length (p.buffer ++ c))) (parser_feed p c)
          last w (omega (arith, length-append p.buffer c)) (omega arith) (omega arith))
        (λ q last' w' s.
          read_loop-Settles cs q last' w' n (omega (arith, length-append p.buffer c)) l)
    where
      by_shell :
          (s : Shell World)
          → Settles sys (length (p.buffer ++ c)) s
          → ((q : Parser) (last : ℕ) (w : World)
              → length q.buffer ≤ length (p.buffer ++ c)
              → Settles sys n (read_loop sys cs q last w))
          → Settles sys n (and_wait sys s (read_loop sys cs))
      by_shell (waiting q last' w') s k = k q last' w' s
      by_shell (ended code w') s k = tt
      by_shell aborted s k = tt
      by_shell hung s k = tt
      by_shell out_of_fuel s k = absurd s

  run_line-and_wait :
      (o : Option ℕ) (line : CommandLine) (w : World) (go go' : ℕ → World → Shell World)
      (k : Rest sys)
      → ((last : ℕ) (w : World) → go' last w ≡ and_wait sys (go last w) k)
      → run_line sys o line w go' ≡ and_wait sys (run_line sys o line w go) k
  run_line-and_wait (some code) line w go go' k h = refl
  run_line-and_wait none line w go go' k h = by_status (execute_command_line sys line w)
    where
      by_status : (e : Executed World) → after_line sys e go' ≡ and_wait sys (after_line sys e go) k
      by_status (status code w) = h _ w
      by_status (process_exit code w) = refl
      by_status hangs = refl

  after_pop-feed :
      (p : Parser) (str : Bytes) (r : PopResult) (last : ℕ) (w : World) (go go' k : Rest sys)
      → Answers p r
      → IsAnswer r
      → ((q : Parser)
          → length q.buffer < length p.buffer
          → (last : ℕ) (w : World) → go' (parser_feed q str) last w ≡ and_wait sys (go q last w) k)
      → after_pop sys (feed_result r str) last w go' ≡ and_wait sys (after_pop sys r last w go) k
  after_pop-feed p str (popped err_none none q) last w go go' k a i h = absurd i
  after_pop-feed p str (popped err_none (some line) q) last w go go' k (_, _, c) i h =
      run_line-and_wait (exit_line line.exprs) line w (go q) (go' (parser_feed q str)) k
        (h q (shorter p q c))
  after_pop-feed p str (popped code none q) last w go go' k (inl (e, _)) i h = cc
  after_pop-feed p str (popped code none q) last w go go' k (inr (_, c)) i h =
      h q (shorter p q c) last w
  after_pop-feed p str (popped code (some line) q) last w go go' k (_, _, c) i h =
      h q (shorter p q c) last w
  after_pop-feed p str pop_assertion last w go go' k a i h = refl
  after_pop-feed p str pop_exhausted last w go go' k a i h = absurd a

  -- Waiting is the only way not to answer.
  IsAnswer-cases :
      (p : Parser) (r : PopResult) → Answers p r → IsAnswer r ⊎ (r ≡ popped err_none none p)
  IsAnswer-cases p (popped err_none none q) (inl (_, e)) = inr (ap (popped err_none none) e)
  IsAnswer-cases p (popped err_none none q) (inr (e, _)) = absurd (e refl)
  IsAnswer-cases p (popped err_none (some line) q) a = inl tt
  IsAnswer-cases p (popped code line q) a = inl tt
  IsAnswer-cases p pop_assertion a = inl tt
  IsAnswer-cases p pop_exhausted a = absurd a

  drain-feed :
      (f g : ℕ) (p : Parser) (str : Bytes) (last : ℕ) (w : World)
      → length (p.buffer ++ str) < small
      → length p.buffer < f
      → length (p.buffer ++ str) < g
      → drain sys g (parser_feed p str) last w
        ≡ and_wait sys (drain sys f p last w) (λ q. drain_all sys (parser_feed q str))
  unfolding drain parser_feed
  drain-feed zero g p str last w l hf hg = absurd (omega arith)
  drain-feed (suc f) zero p str last w l hf hg = absurd (omega arith)
  drain-feed (suc f) (suc g) p str last w l hf hg =
      let l' : length p.buffer < small = omega (arith, length-append p.buffer str) in
      let a = parser_pop_next-Answers p l' in
      elim (IsAnswer-cases p (parser_pop_next p) a) [
        | inl i ↦ rw (parser_pop_next-feed p str l i) (
            after_pop-feed p str (parser_pop_next p) last w (drain sys f) (drain sys g) _ a i
              λ q s last' w'.
                drain-feed f g q str last' w'
                  (omega (arith, length-append p.buffer str, length-append q.buffer str))
                  (omega arith)
                  (omega (arith, length-append p.buffer str, length-append q.buffer str)))
        | inr e ↦ rw e (
            drain-fuel sys (suc g) (suc (length (p.buffer ++ str))) (parser_feed p str) last w l hg
              (omega arith))
      ]

  and_wait_assoc :
      (s : Shell World) (j k : Rest sys)
      → and_wait sys (and_wait sys s j) k ≡ and_wait sys s (λ p l w. and_wait sys (j p l w) k)
  and_wait_assoc (waiting p last w) j k = refl
  and_wait_assoc (ended code w) j k = refl
  and_wait_assoc aborted j k = refl
  and_wait_assoc hung j k = refl
  and_wait_assoc out_of_fuel j k = refl

  read_loop-join :
      (a b : Bytes) (chunks : List Bytes) (p : Parser) (last : ℕ) (w : World)
      → length p.buffer + length (a ++ b) < small
      → read_loop sys ((a ++ b) ∷ chunks) p last w ≡ read_loop sys (a ∷ b ∷ chunks) p last w
  unfolding read_loop parser_feed
  read_loop-join a b chunks p last w l =
      let q : Parser = record { buffer = p.buffer ++ a } in
      rw (← append_assoc p.buffer a b) (
        ap (λ s. and_wait sys s (read_loop sys chunks))
          (drain-feed (suc (length (p.buffer ++ a))) (suc (length ((p.buffer ++ a) ++ b))) q b last
            w
            (omega
              (arith, length-append (p.buffer ++ a) b, length-append p.buffer a, length-append a b))
            (omega arith) (omega arith))
        ∙ and_wait_assoc (drain_all sys q last w) _ (read_loop sys chunks))

  read_loop-flat :
      (c : Bytes) (chunks : List Bytes) (p : Parser) (last : ℕ) (w : World)
      → length p.buffer + total (c ∷ chunks) < small
      → read_loop sys (c ∷ chunks) p last w ≡ read_loop sys (flat (c ∷ chunks) ∷ []) p last w
  read_loop-flat c [] p last w l = rw append-nil
  read_loop-flat c (d ∷ chunks) p last w l =
      sym (read_loop-join c d chunks p last w (omega (arith, length-append c d)))
      ∙ read_loop-flat (c ++ d) chunks p last w (omega (arith, length-append c d))
      ∙ rw append_assoc

  -- The shell does the same however `read` cuts the input into chunks, if the input is less than
  -- 4 GiB: as if one `read` had returned all of it.
  pub main-flat :
      (c : Bytes) (chunks : List Bytes) (w : World)
      → total (c ∷ chunks) < 2 ^ 32
      → main sys (c ∷ chunks) w ≡ main sys (flat (c ∷ chunks) ∷ []) w
  unfolding main
  main-flat c chunks w l = rw (read_loop-flat c chunks parser_new 0 w (omega arith))

  -- On an input of less than 4 GiB the fuel of the inner loop over the lines never runs out: that
  -- loop ends after every read, unless the shell waits for a child that never ends.
  pub main-ne-out_of_fuel :
      (chunks : List Bytes) (w : World) → total chunks < 2 ^ 32 → main sys chunks w ≢ out_of_fuel
  unfolding main
  main-ne-out_of_fuel chunks w l =
      by_shell (read_loop sys chunks parser_new 0 w)
        (read_loop-Settles chunks parser_new 0 w (total chunks) (omega arith) l)
    where
      by_shell : (s : Shell World) → Settles sys (total chunks) s → at_end sys s ≢ out_of_fuel
      by_shell (waiting q last' w') s = λ e. cc
      by_shell (ended code w') s = λ e. cc
      by_shell aborted s = λ e. cc
      by_shell hung s = λ e. cc
      by_shell out_of_fuel s = absurd s
