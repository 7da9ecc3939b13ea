-- ===== src/Parser/Pop/RoundTrip.antt =====
-- A command line that is written out is read back.
use system_prog.Common.{
  ℕ, ◌+◌, ◌<◌, ◌^◌, ◌≡◌, ◌∙◌, refl, ap, sym, ap₂, inl, inr, true, false, Bool, some, List, [], ◌∷◌,
  ◌++◌, arith, Bytes, length, length-append, is_empty, drop, drop-length_append,
}
use system_prog.Parser.CommandLine.{
  Expr, OutputType, stdout, file_new, file_append, CommandLine, ends_with_command, new_line,
  err_none,
}
use system_prog.Parser.CommandLine.Grammar.{IsCommandLine}
use system_prog.Parser.Lexer.{Token, token_new_line, single_operator, double_operator}
use system_prog.Parser.Lexer.Words.{quoted}
use system_prog.Parser.Lexer.Scan.{AllBlank}
use system_prog.Parser.Pop.Leads.{blank, AllBlank-blank, search_line_lem}
use system_prog.Parser.Pop.Pipeline.{Leads-show_exprs, NotBar, length-show_exprs}
use system_prog.Parser.Pop.Results.{parser_consume-some}
use system_prog.Parser.Pop.Rules.{small}
use system_prog.Parser.Pop.Steps.{
  Reads, token, Reads-quoted, Reads-single, Reads-double, Reads-new_line,
}
use system_prog.Parser.Pop.{
  Parser, search_line, is_new_line, is_amp, is_str, on_token, close, next_token, close_line,
  background, redirect, end_line, Verdict, accepted, parser_pop_next, popped,
}
use system_prog.Parser.Printer.Append.{show_line-append}
use system_prog.Parser.Printer.{show_output, show_end, show_line}

-- The verdict is that `line` ends before `r`.
record Accepts (v : Verdict) (n : ℕ) (rest : Bytes) (line : CommandLine) (r : Bytes) : Type 0 where
  offset : ℕ
  same : v ≡ accepted line offset
  counted : offset + length r ≡ n + length rest

abbrev IsComplete : CommandLine → Type 0
IsComplete line = (is_empty line.exprs ≡ false) × (ends_with_command line.exprs ≡ true)

end_line-accepted :
    (line : CommandLine) (text r : Bytes) (n : ℕ)
    → IsComplete line
    → end_line line (token token_new_line text) r n ≡ accepted line n
unfolding end_line is_new_line
end_line-accepted line text r n (e, c) = rw (e, c)

-- The end of a line, in the background or not.
Accepts-show_end :
    (bg : Bool) (line : CommandLine) (r : Bytes) (n : ℕ)
    → IsComplete line
    → line.is_background ≡ false
    → length (show_end bg r) < small
    → Accepts
        (next_token (show_end bg r) n (background line))
        n
        (show_end bg r)
        (record line { is_background = bg })
        r
unfolding background single_operator is_amp
Accepts-show_end true line r n c b l =
    let amp = Reads-single blank n AllBlank-blank b'&' b'\n' r (inl refl) (omega arith) l in
    let feed = Reads-new_line [] (n + (1 + 1)) tt r (omega arith) in
    record {
      offset = n + (1 + 1) + (0 + 1);
      same =
          amp.reads (background line)
          ∙ feed.reads (end_line (record line { is_background = true }))
          ∙ end_line-accepted (record line { is_background = true }) [] r _ c;
      counted = omega (arith, amp.counted, feed.counted);
    }
Accepts-show_end false line r n c b l =
    let feed = Reads-new_line [] n tt r l in
    record {
      offset = n + (0 + 1);
      same =
          feed.reads (background line)
          ∙ end_line-accepted line [] r _ c
          ∙ ap (λ k. accepted (record line { is_background = k }) (n + (0 + 1))) b;
      counted = feed.counted;
    }

-- A token that closes the expressions.
pub search_line-close :
    (line : CommandLine) {s : Bytes} {n : ℕ} {t : Token} {r : Bytes} {m : ℕ}
    → Reads s n t r m
    → on_token line.exprs t.type t.text ≡ close
    → search_line line s n ≡ close_line line t.type t r m
search_line-close line {s} {n} k e = search_line_lem line s n ∙ k.reads _ ∙ rw e

search_line-show_end :
    (bg : Bool) (line : CommandLine) (r : Bytes) (n : ℕ)
    → IsComplete line
    → length (show_end bg r) < small
    → search_line line (show_end bg r) n ≡ next_token (show_end bg r) n (background line)
unfolding on_token close_line single_operator
search_line-show_end true line r n c l =
    let amp = Reads-single blank n AllBlank-blank b'&' b'\n' r (inl refl) (omega arith) l in
    search_line-close line amp refl ∙ sym (amp.reads (background line))
search_line-show_end false line r n c l =
    let feed = Reads-new_line [] n tt r l in
    search_line-close line feed (rw (c.0)) ∙ sym (feed.reads (background line))

-- The file of a redirection and the end of the line.
Accepts-redirect :
    (bg : Bool) (line : CommandLine) (file r : Bytes) (n : ℕ)
    → IsComplete line
    → line.is_background ≡ false
    → (bs : Bytes) → AllBlank bs
    → length (bs ++ quoted file (show_end bg r)) < small
    → Accepts
        (next_token (bs ++ quoted file (show_end bg r)) n (redirect line))
        n
        (bs ++ quoted file (show_end bg r))
        (record line { out_file = file; is_background = bg })
        r
unfolding redirect is_str
Accepts-redirect bg line file r n c b bs ab l =
    let word = Reads-quoted bs n ab file (show_end bg r) l in
    let rest =
      Accepts-show_end bg (record line { out_file = file }) r _ c b (omega (arith, word.shorter)) in
    record {
      offset = rest.offset;
      same = word.reads (redirect line) ∙ rest.same;
      counted = omega (arith, rest.counted, word.counted);
    }

Accepts-show_output :
    (o : OutputType) (file : Bytes) (bg : Bool) (line : CommandLine) (r : Bytes) (n : ℕ)
    → (o ≡ stdout → file ≡ [])
    → IsComplete line
    → (line.out_type ≡ stdout) × (line.out_file ≡ []) × (line.is_background ≡ false)
    → length (show_output o file (show_end bg r)) < small
    → Accepts
        (search_line line (show_output o file (show_end bg r)) n)
        n
        (show_output o file (show_end bg r))
        (record line { out_type = o; out_file = file; is_background = bg })
        r
unfolding on_token close_line single_operator double_operator
Accepts-show_output stdout file bg line r n f c (ot, of, b) l =
    let rest = Accepts-show_end bg line r n c b l in
    record {
      offset = rest.offset;
      same =
          search_line-show_end bg line r n c l
          ∙ rest.same
          ∙ ap₂
              (λ o f.
                accepted (record line { out_type = o; out_file = f; is_background = bg })
                  rest.offset)
              ot (of ∙ sym (f refl));
      counted = rest.counted;
    }
Accepts-show_output file_new file bg line r n f c (ot, of, b) l =
    let gt =
      Reads-single blank n AllBlank-blank b'>' b' ' (quoted file (show_end bg r)) (inr (inr refl))
        (omega arith) l in
    let rest =
      Accepts-redirect bg (record line { out_type = file_new }) file r _ c b blank AllBlank-blank
        (omega (arith, gt.shorter)) in
    record {
      offset = rest.offset;
      same = search_line-close line gt refl ∙ rest.same;
      counted = omega (arith, rest.counted, gt.counted);
    }
Accepts-show_output file_append file bg line r n f c (ot, of, b) l =
    let gt =
      Reads-double blank n AllBlank-blank b'>' (quoted file (show_end bg r)) (inr (inr refl)) l in
    let rest =
      Accepts-redirect bg (record line { out_type = file_append }) file r _ c b [] tt
        (omega (arith, gt.shorter)) in
    record {
      offset = rest.offset;
      same = search_line-close line gt refl ∙ rest.same;
      counted = omega (arith, rest.counted, gt.counted);
    }

complete : (l : CommandLine) → IsCommandLine l → IsComplete l
unfolding ends_with_command
complete l w = (not_empty l.exprs w.complete, w.complete)
  where
    not_empty : (es : List Expr) → ends_with_command es ≡ true → is_empty es ≡ false
    not_empty [] h = cc
    not_empty (e ∷ es) h = refl

NotBar-show_output :
    (o : OutputType) (file : Bytes) (bg : Bool) (r : Bytes)
    → NotBar (show_output o file (show_end bg r))
NotBar-show_output stdout file true r = omega arith
NotBar-show_output stdout file false r = omega arith
NotBar-show_output file_new file bg r = omega arith
NotBar-show_output file_append file bg r = omega arith

Accepts-show_line :
    (l : CommandLine) (r : Bytes)
    → IsCommandLine l
    → length (show_line l r) < small
    → Accepts (search_line new_line (show_line l r) 0) 0 (show_line l r) l r
unfolding show_line
Accepts-show_line l r w h =
    let tail = show_output l.out_type l.out_file (show_end l.is_background r) in
    let exprs =
      Leads-show_exprs new_line [] l.exprs tail 0 tt w.alternates
        (NotBar-show_output l.out_type l.out_file l.is_background r) h in
    let end =
      Accepts-show_output l.out_type l.out_file l.is_background
        (record new_line { exprs = l.exprs }) r exprs.offset w.file (complete l w)
        (refl, refl, refl) (omega (arith, length-show_exprs l.exprs tail)) in
    record {
      offset = end.offset;
      same = exprs.same ∙ end.same;
      counted = omega (arith, end.counted, exprs.counted);
    }

-- Every well-formed command line, written with its words between double quotes, is read back by
-- one call of `parser_pop_next`, which consumes it and leaves what follows. There are less than
-- 4 GiB in all.
pub parser_pop_next-show_line :
    (l : CommandLine) (r : Bytes)
    → IsCommandLine l
    → length (show_line l r) < 2 ^ 32
    → parser_pop_next (record { buffer = show_line l r })
      ≡ popped err_none (some l) (record { buffer = r })
unfolding parser_pop_next
parser_pop_next-show_line l r w h =
    let p : Parser = record { buffer = show_line l r } in
    let a = Accepts-show_line l r w h in
    let size : a.offset ≡ length (show_line l []) =
      omega
        (arith, a.counted, ap length (show_line-append l r), length-append (show_line l []) r) in
    let left : drop a.offset (show_line l r) ≡ r =
      rw (size, show_line-append l r, drop-length_append (show_line l []) r) in
    rw (a.same, parser_consume-some p a.offset (omega (arith, a.counted)) h, left)
