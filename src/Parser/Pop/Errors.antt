-- ===== src/Parser/Pop/Errors.antt =====
-- How far `parser_pop_next` skips after an error, and lines on which it stops in an assertion.
use system_prog.Common.{
  ℕ, suc, ◌+◌, ◌<◌, ◌^◌, ◌≡◌, ◌∙◌, refl, ap, sym, inl, inr, true, false, Bool, none, List, [], ◌∷◌,
  ◌++◌, arith, Bytes, length, length-append, drop, drop-length_append,
}
use system_prog.Parser.CommandLine.{
  ParserError, err_output_redirect_bad_arg, Command, command, OutputType, stdout, file_new,
  file_append, CommandLine, new_line,
}
use system_prog.Parser.Lexer.{Token, token_new_line, single_operator, double_operator}
use system_prog.Parser.Lexer.Words.{quoted}
use system_prog.Parser.Lexer.Scan.{AllBlank}
use system_prog.Parser.Pop.Leads.{blank, AllBlank-blank}
use system_prog.Parser.Pop.Pipeline.{Leads-show_exprs, length-show_exprs}
use system_prog.Parser.Pop.Fuel.{skip_line-fuel}
use system_prog.Parser.Pop.Results.{parser_consume-some}
use system_prog.Parser.Pop.Rules.{small}
use system_prog.Parser.Pop.RoundTrip.{search_line-close}
use system_prog.Parser.Pop.Steps.{
  Reads, token, Reads-quoted, Reads-single, Reads-double, Reads-new_line,
}
use system_prog.Parser.Pop.{
  Parser, search_line, on_token, next_token, close_line, background, redirect, end_line,
  return_error, skip_line, is_str, is_amp, is_new_line, Verdict, rejected, assertion,
  parser_pop_next, popped, pop_assertion,
}
use system_prog.Parser.Printer.{show_words, show_exprs, show_output, show_end}
use system_prog.Parser.Printer.Append.{show_words-append, show_exprs-append}

-- The verdict rejects all before `r`.
record Rejects (v : Verdict) (n : ℕ) (rest : Bytes) (code : ParserError) (r : Bytes) : Type 0 where
  offset : ℕ
  same : v ≡ rejected code offset
  counted : offset + length r ≡ n + length rest

skip_line_lem :
    (f : ℕ) (code : ParserError) (c : ℕ) (rest : Bytes) (n : ℕ) {t : Token} {r : Bytes} {m : ℕ}
    → Reads (c ∷ rest) n t r m
    → is_new_line t.type ≡ false
    → skip_line (suc f) code (c ∷ rest) n ≡ skip_line f code r m
unfolding skip_line
skip_line_lem f code c rest n k e = k.reads _ ∙ rw e

-- Words are skipped, and the line feed behind them is the last byte that is.
Rejects-show_words :
    (ws : List Bytes) (code : ParserError) (r : Bytes) (n : ℕ)
    → length (show_words ws (b'\n' ∷ r)) < small
    → Rejects (return_error code (show_words ws (b'\n' ∷ r)) n) n (show_words ws (b'\n' ∷ r)) code r
unfolding skip_line is_new_line
Rejects-show_words [] code r n l =
    let feed = Reads-new_line [] n tt r l in
    record { offset = n + (0 + 1); same = feed.reads _; counted = feed.counted }
Rejects-show_words (w ∷ ws) code r n l =
    let rest = show_words ws (b'\n' ∷ r) in
    let word = Reads-quoted blank n AllBlank-blank w rest l in
    let next = Rejects-show_words ws code r _ (omega (arith, word.shorter)) in
    record {
      offset = next.offset;
      same =
          skip_line_lem (length (show_words (w ∷ ws) (b'\n' ∷ r))) code b' ' (quoted w rest) n word
            refl
          ∙ skip_line-fuel (length (show_words (w ∷ ws) (b'\n' ∷ r))) (suc (length rest)) code rest
              _ (omega (arith, word.shorter)) word.shorter (omega arith)
          ∙ next.same;
      counted = omega (arith, next.counted, word.counted);
    }

-- `>` at the end of a line, and a line behind it.
abbrev pub bad_redirect : Command → List Bytes → Bytes → Bytes
bad_redirect c ws r = show_exprs (command c ∷ []) (b' ' ∷ b'>' ∷ b'\n' ∷ show_words ws (b'\n' ∷ r))

Rejects-bad_redirect :
    (c : Command) (ws : List Bytes) (r : Bytes)
    → length (bad_redirect c ws r) < small
    → Rejects
        (search_line new_line (bad_redirect c ws r) 0)
        0
        (bad_redirect c ws r)
        err_output_redirect_bad_arg
        r
unfolding on_token close_line single_operator redirect is_str
Rejects-bad_redirect c ws r l =
    let tail = show_words ws (b'\n' ∷ r) in
    let exprs =
      Leads-show_exprs new_line [] (command c ∷ []) (b' ' ∷ b'>' ∷ b'\n' ∷ tail) 0 tt tt
        (omega arith) l in
    let l' = length-show_exprs (command c ∷ []) (b' ' ∷ b'>' ∷ b'\n' ∷ tail) in
    let line : CommandLine = record new_line { exprs = command c ∷ [] } in
    let gt =
      Reads-single blank exprs.offset AllBlank-blank b'>' b'\n' tail (inr (inr refl)) (omega arith)
        (omega arith) in
    let feed = Reads-new_line [] (exprs.offset + (1 + 1)) tt tail (omega arith) in
    let skipped =
      Rejects-show_words ws err_output_redirect_bad_arg r _ (omega (arith, feed.shorter)) in
    record {
      offset = skipped.offset;
      same =
          exprs.same
          ∙ search_line-close line gt refl
          ∙ feed.reads (redirect (record line { out_type = file_new }))
          ∙ skipped.same;
      counted = omega (arith, skipped.counted, feed.counted, gt.counted, exprs.counted);
    }

bad_redirect-append :
    (c : Command) (ws : List Bytes) (r : Bytes) → bad_redirect c ws r ≡ bad_redirect c ws [] ++ r
bad_redirect-append c ws r = rw (
  show_words-append ws (b'\n' ∷ []) r,
  show_exprs-append (command c ∷ []) (b' ' ∷ b'>' ∷ b'\n' ∷ show_words ws (b'\n' ∷ [])) r,
)

-- After a command and `>` right before the line feed, `parser_pop_next` reports the bad argument of
-- the redirection and drops the whole line of words that follows too. There are less than 4 GiB.
pub parser_pop_next-bad_redirect :
    (c : Command) (ws : List Bytes) (r : Bytes)
    → length (bad_redirect c ws r) < 2 ^ 32
    → parser_pop_next (record { buffer = bad_redirect c ws r })
      ≡ popped err_output_redirect_bad_arg none (record { buffer = r })
unfolding parser_pop_next
parser_pop_next-bad_redirect c ws r h =
    let p : Parser = record { buffer = bad_redirect c ws r } in
    let a = Rejects-bad_redirect c ws r h in
    let size : a.offset ≡ length (bad_redirect c ws []) = omega (
      arith,
      a.counted,
      ap length (bad_redirect-append c ws r),
      length-append (bad_redirect c ws []) r,
    ) in
    let left : drop a.offset (bad_redirect c ws r) ≡ r =
      rw (size, bad_redirect-append c ws r, drop-length_append (bad_redirect c ws []) r) in
    rw (a.same, parser_consume-some p a.offset (omega (arith, a.counted)) h, left)

end_line-assertion :
    (line : CommandLine) (r : Bytes) (n : ℕ)
    → line.exprs ≡ []
    → end_line line (token token_new_line []) r n ≡ assertion
unfolding end_line is_new_line
end_line-assertion line r n e = rw e

-- The end of a line without expressions.
assertion_at_end :
    (bg : Bool) (line : CommandLine) (r : Bytes) (n : ℕ)
    → line.exprs ≡ []
    → length (show_end bg r) < small
    → next_token (show_end bg r) n (background line) ≡ assertion
unfolding background single_operator is_amp
assertion_at_end true line r n e l =
    let amp = Reads-single blank n AllBlank-blank b'&' b'\n' r (inl refl) (omega arith) l in
    let feed = Reads-new_line [] (n + (1 + 1)) tt r (omega arith) in
    amp.reads (background line)
    ∙ feed.reads (end_line (record line { is_background = true }))
    ∙ end_line-assertion (record line { is_background = true }) r _ e
assertion_at_end false line r n e l =
    let feed = Reads-new_line [] n tt r l in
    feed.reads (background line) ∙ end_line-assertion line r _ e

assertion_at_file :
    (bg : Bool) (line : CommandLine) (file r : Bytes) (n : ℕ)
    → line.exprs ≡ []
    → (bs : Bytes) → AllBlank bs
    → length (bs ++ quoted file (show_end bg r)) < small
    → next_token (bs ++ quoted file (show_end bg r)) n (redirect line) ≡ assertion
unfolding redirect is_str
assertion_at_file bg line file r n e bs ab l =
    let word = Reads-quoted bs n ab file (show_end bg r) l in
    word.reads (redirect line)
    ∙ assertion_at_end bg (record line { out_file = file }) r _ e (omega (arith, word.shorter))

search_line-assertion :
    (o : OutputType) (file : Bytes) (bg : Bool) (r : Bytes)
    → (o ≡ stdout → bg ≡ true)
    → length (show_output o file (show_end bg r)) < small
    → search_line new_line (show_output o file (show_end bg r)) 0 ≡ assertion
unfolding on_token close_line single_operator double_operator
search_line-assertion stdout file false r h l = cc (h refl)
search_line-assertion stdout file true r h l =
    let amp = Reads-single blank 0 AllBlank-blank b'&' b'\n' r (inl refl) (omega arith) l in
    search_line-close new_line amp refl
    ∙ sym (amp.reads (background new_line))
    ∙ assertion_at_end true new_line r 0 refl l
search_line-assertion file_new file bg r h l =
    let rest = quoted file (show_end bg r) in
    let gt = Reads-single blank 0 AllBlank-blank b'>' b' ' rest (inr (inr refl)) (omega arith) l in
    search_line-close new_line gt refl
    ∙ assertion_at_file bg (record new_line { out_type = file_new }) file r _ refl blank
        AllBlank-blank (omega (arith, gt.shorter))
search_line-assertion file_append file bg r h l =
    let gt =
      Reads-double blank 0 AllBlank-blank b'>' (quoted file (show_end bg r)) (inr (inr refl)) l in
    search_line-close new_line gt refl
    ∙ assertion_at_file bg (record new_line { out_type = file_append }) file r _ refl [] tt
        (omega (arith, gt.shorter))

-- On a line that has a redirection, a `&` or both, and no command, `parser_pop_next` stops in the
-- assertion that the line has expressions. There are less than 4 GiB.
pub parser_pop_next_no_command :
    (o : OutputType) (file : Bytes) (bg : Bool) (r : Bytes)
    → (o ≡ stdout → bg ≡ true)
    → length (show_output o file (show_end bg r)) < 2 ^ 32
    → parser_pop_next (record { buffer = show_output o file (show_end bg r) }) ≡ pop_assertion
unfolding parser_pop_next
parser_pop_next_no_command o file bg r h l = rw (search_line-assertion o file bg r h l)
