-- ===== src/Shell/Execute/Sequence.antt =====
-- In which order, and under which conditions, `execute_command_line` runs the parts of a line.
use mathlib.Core.Path.{fun_ext}
use system_prog.Common.{
  is_empty-append, Option, none, inl, inr, ◌&&◌, ℕ, ◌%◌, ◌≡◌, ◌∙◌, refl, ap, sym, Bool, true, false,
  not, List, [], ◌∷◌, ◌++◌, codes, Bytes, append_assoc, is_empty, ◌==◌, if◌then◌else◌, Bool-cases,
}
use system_prog.Parser.CommandLine.{
  Command, Expr, command, pipe, and, or, CommandLine, ends_with_command,
}
use system_prog.Parser.CommandLine.Grammar.{Alternates, IsCommandLine}
use system_prog.Shell.Execute.{
  System, text_eq, inherited, run_pipeline, Segment, segment, push_command, split, sole_exit,
  only_exit, Executed, process_exit, hangs, status, run_segment, and_then, after_segment,
  run_segments, or_run, execute_command_line,
}

abbrev pub exit_command : List Bytes → Command
exit_command args = record { exe = codes "exit"; args = args }

-- Two commands with `&&` or `||` between them.
abbrev pub two : Command → Bool → Command → List Expr
two c b d = command c ∷ (if b then and else or) ∷ command d ∷ []

-- The commands of each part between `&&` and `||`, whichever of the two it is.
abbrev pub groups : List Expr → List Command → List (List Command)
groups [] cur = cur ∷ []
groups (command c ∷ es) cur = groups es (cur ++ c ∷ [])
groups (pipe ∷ es) cur = groups es cur
groups (and ∷ es) cur = cur ∷ groups es []
groups (or ∷ es) cur = cur ∷ groups es []

abbrev pub cmds_of : List Segment → List (List Command)
cmds_of [] = []
cmds_of (seg ∷ segs) = seg.cmds ∷ cmds_of segs

cmds_of-append : (a b : List Segment) → cmds_of (a ++ b) ≡ cmds_of a ++ cmds_of b
cmds_of-append [] b = refl
cmds_of-append (x ∷ a) b = ap (◌∷◌ (x.cmds)) (cmds_of-append a b)

cmds_of-split :
    (es : List Expr) (cur : Segment) (segs : List Segment)
    → cmds_of (split es cur segs) ≡ cmds_of segs ++ groups es cur.cmds
unfolding split
cmds_of-split [] cur segs = cmds_of-append segs (cur ∷ [])
cmds_of-split (command c ∷ es) cur segs = cmds_of-split es (push_command cur c) segs
cmds_of-split (pipe ∷ es) cur segs = cmds_of-split es cur segs
cmds_of-split (and ∷ es) cur segs =
    cmds_of-split es (segment 1) (segs ++ cur ∷ [])
    ∙ rw (cmds_of-append segs (cur ∷ []), append_assoc)
cmds_of-split (or ∷ es) cur segs =
    cmds_of-split es (segment 2) (segs ++ cur ∷ [])
    ∙ rw (cmds_of-append segs (cur ∷ []), append_assoc)

abbrev pub exit_of : List (List Command) → CommandLine → Option ℕ
exit_of (cs ∷ []) line = sole_exit cs line
exit_of _ line = none

only_exit-exit_of :
    (segs : List Segment) (line : CommandLine) → only_exit segs line ≡ exit_of (cmds_of segs) line
unfolding only_exit
only_exit-exit_of [] line = refl
only_exit-exit_of (s ∷ []) line = refl
only_exit-exit_of (s ∷ t ∷ segs) line = refl

exit_of-exprs :
    (css : List (List Command)) (es : List Expr) (line : CommandLine)
    → exit_of css (record line { exprs = es }) ≡ exit_of css line
unfolding sole_exit
exit_of-exprs [] es line = refl
exit_of-exprs ([] ∷ []) es line = refl
exit_of-exprs ((c ∷ []) ∷ []) es line = refl
exit_of-exprs ((c ∷ d ∷ cs) ∷ []) es line = refl
exit_of-exprs (_ ∷ _ ∷ _) es line = refl

-- `&&` for `||`, and the other way round.
abbrev pub swap : List Expr → List Expr
swap [] = []
swap (and ∷ es) = or ∷ swap es
swap (or ∷ es) = and ∷ swap es
swap (e ∷ es) = e ∷ swap es

groups-swap : (es : List Expr) (cur : List Command) → groups (swap es) cur ≡ groups es cur
groups-swap [] cur = refl
groups-swap (command c ∷ es) cur = groups-swap es (cur ++ c ∷ [])
groups-swap (pipe ∷ es) cur = groups-swap es cur
groups-swap (and ∷ es) cur = ap (◌∷◌ cur) (groups-swap es [])
groups-swap (or ∷ es) cur = ap (◌∷◌ cur) (groups-swap es [])

both_same {ℓ} : {A : Type ℓ} (b c : Bool) (x : A) → (if b then x else if c then x else x) ≡ x
both_same true c x = refl
both_same false true x = refl
both_same false false x = refl

after_segment_same :
    (sys : System) (segs : List Segment) (code : ℕ) (next : Executed (sys.World))
    → after_segment sys segs code next next ≡ next
after_segment_same sys [] code next = refl
after_segment_same sys (seg ∷ segs) code next =
    both_same (seg.sep_type == 1 && not (code == 0)) (seg.sep_type == 2 && code == 0) next

module _ (sys : System) where
  open sys use {World}

  -- One part after another, each whatever the last one gave.
  pub run_all : List (List Command) → ℕ → CommandLine → World → Executed World
  run_all [] last line w = status (last % 256) w
  run_all (cs ∷ css) last line w = elim (is_empty cs) [
    | true ↦ run_all css last line w
    | false ↦
        and_then sys (run_segment sys cs (is_empty css) line w)
          (λ code w'. run_all css code line w')
  ]

  is_empty-cmds_of : (segs : List Segment) → is_empty (cmds_of segs) ≡ is_empty segs
  is_empty-cmds_of [] = refl
  is_empty-cmds_of (s ∷ segs) = refl

  run_segments-run_all :
      (segs : List Segment) (last : ℕ) (line : CommandLine) (w : World)
      → run_segments sys segs last line w ≡ run_all (cmds_of segs) last line w
  unfolding run_segments run_all
  run_segments-run_all [] last line w = refl
  run_segments-run_all (seg ∷ segs) last line w = elim (Bool-cases (is_empty seg.cmds)) [
    | inl e ↦ rw (e, run_segments, run_all) (run_segments-run_all segs last line w)
    | inr e ↦
        rw (e, is_empty-cmds_of segs, run_segments, run_all)
          (ap (and_then sys (run_segment sys seg.cmds (is_empty segs) line w)) (
            fun_ext λ code.
              fun_ext
                λ w'. after_segment_same sys segs code _ ∙ run_segments-run_all segs code line w'))
  ]

  -- `execute_command_line` is a single `exit`, or runs every part of the line that has commands, one
  -- after another, whatever stands between them and whatever status the last one gave; so an `exit`
  -- before `&&` or `||` does not end it.
  pub execute_command_line-run_all :
      (line : CommandLine) (w : World)
      → execute_command_line sys line w
        ≡ or_run sys
            (exit_of (groups line.exprs []) line)
            (run_all (groups line.exprs []) 0 line w)
            w
  unfolding execute_command_line
  execute_command_line-run_all line w = rw (
    only_exit-exit_of (split line.exprs (segment 0) []) line,
    run_segments-run_all (split line.exprs (segment 0) []) 0 line w,
    cmds_of-split line.exprs (segment 0) [],
  )

  and_then-status :
      (e : Executed World) (go : ℕ → World → Executed World)
      → and_then sys (and_then sys e (λ code w. status code w)) go ≡ and_then sys e go
  and_then-status (status code w) go = refl
  and_then-status (process_exit code w) go = refl
  and_then-status hangs go = refl

  -- A line of `exit`, with any arguments, then `&&` or `||`, and a command: the `exit` is run as a
  -- child and, once it has ended, the shell goes on to the command, whatever the status; the shell
  -- ends only if that command ends it.
  pub execute_command_line-exit :
      (args : List Bytes) (b : Bool) (d : Command) (line : CommandLine) (w : World)
      → execute_command_line sys (record line { exprs = two (exit_command args) b d }) w
        ≡ and_then sys
            (run_pipeline sys (exit_command args ∷ []) inherited line.is_background w)
            (λ code w'.
              and_then sys
                (run_segment sys (d ∷ []) true line w')
                (λ last w''. status (last % 256) w''))
  unfolding run_all run_segment text_eq
  execute_command_line-exit args true d line w =
      execute_command_line-run_all (record line { exprs = two (exit_command args) true d }) w
      ∙ and_then-status (run_pipeline sys (exit_command args ∷ []) inherited line.is_background w) _
  execute_command_line-exit args false d line w =
      execute_command_line-run_all (record line { exprs = two (exit_command args) false d }) w
      ∙ and_then-status (run_pipeline sys (exit_command args ∷ []) inherited line.is_background w) _

  run_segment-exprs :
      (cs : List Command) (b : Bool) (es : List Expr) (line : CommandLine) (w : World)
      → run_segment sys cs b (record line { exprs = es }) w ≡ run_segment sys cs b line w
  unfolding run_segment
  run_segment-exprs [] b es line w = refl
  run_segment-exprs (c ∷ []) b es line w = refl
  run_segment-exprs (c ∷ d ∷ cs) b es line w = refl

  run_all-exprs :
      (css : List (List Command)) (last : ℕ) (es : List Expr) (line : CommandLine) (w : World)
      → run_all css last (record line { exprs = es }) w ≡ run_all css last line w
  unfolding run_all
  run_all-exprs [] last es line w = refl
  run_all-exprs (cs ∷ css) last es line w = elim (Bool-cases (is_empty cs)) [
    | inl e ↦ rw (e, run_all) (run_all-exprs css last es line w)
    | inr e ↦
        rw (e, run_segment-exprs cs (is_empty css) es line w, run_all)
          (ap (and_then sys (run_segment sys cs (is_empty css) line w))
            (fun_ext λ code. fun_ext λ w'. run_all-exprs css code es line w'))
  ]

  -- With every `&&` made a `||` and every `||` a `&&`, a command line does the same.
  pub execute_command_line-swap :
      (line : CommandLine) (w : World)
      → execute_command_line sys (record line { exprs = swap line.exprs }) w
        ≡ execute_command_line sys line w
  execute_command_line-swap line w =
      execute_command_line-run_all (record line { exprs = swap line.exprs }) w
      ∙ rw
          (
            groups-swap line.exprs [],
            exit_of-exprs (groups line.exprs []) (swap line.exprs) line,
            run_all-exprs (groups line.exprs []) 0 (swap line.exprs) line w,
          )
          (sym (execute_command_line-run_all line w))

-- No part is without commands.
abbrev pub AllFull : List (List Command) → Type 0
AllFull [] = Unit
AllFull (cs ∷ css) = (is_empty cs ≡ false) × AllFull css

-- The expressions end with a command; if none are left, one has just been read.
abbrev Ends : Bool → List Expr → Type 0
Ends b [] = b ≡ false
Ends b (e ∷ es) = ends_with_command (e ∷ es) ≡ true

Ends-tail :
    (b : Bool) (e : Expr) (es : List Expr)
    → Alternates b (e ∷ es)
    → Ends b (e ∷ es)
    → Ends (not b) es
unfolding ends_with_command
Ends-tail true (command c) [] a h = refl
Ends-tail false (command c) [] a h = absurd a
Ends-tail b pipe [] a h = cc
Ends-tail b and [] a h = cc
Ends-tail b or [] a h = cc
Ends-tail b (command c) (f ∷ es) a h = h
Ends-tail b pipe (f ∷ es) a h = h
Ends-tail b and (f ∷ es) a h = h
Ends-tail b or (f ∷ es) a h = h

groups-AllFull :
    (b : Bool) (es : List Expr) (cur : List Command)
    → Alternates b es
    → Ends b es
    → (b ≡ false → is_empty cur ≡ false)
    → AllFull (groups es cur)
groups-AllFull b [] cur a h f = (f h, tt)
groups-AllFull true (command c ∷ es) cur a h f =
    groups-AllFull false es (cur ++ c ∷ []) a (Ends-tail true (command c) es a h)
      (λ _. is_empty-append cur c [])
groups-AllFull true (pipe ∷ es) cur a h f = absurd a
groups-AllFull true (and ∷ es) cur a h f = absurd a
groups-AllFull true (or ∷ es) cur a h f = absurd a
groups-AllFull false (command c ∷ es) cur a h f = absurd a
groups-AllFull false (pipe ∷ es) cur a h f =
    groups-AllFull true es cur a (Ends-tail false pipe es a h) (λ e. cc)
groups-AllFull false (and ∷ es) cur a h f =
    (f refl, groups-AllFull true es [] a (Ends-tail false and es a h) (λ e. cc))
groups-AllFull false (or ∷ es) cur a h f =
    (f refl, groups-AllFull true es [] a (Ends-tail false or es a h) (λ e. cc))

-- Every segment of a well-formed line, as the parser returns them, has a command: the loop of
-- `execute_command_line` skips none as empty.
split-AllFull :
    (line : CommandLine) → IsCommandLine line → AllFull (cmds_of (split line.exprs (segment 0) []))
unfolding ends_with_command
split-AllFull line w =
    rw (cmds_of-split line.exprs (segment 0) [])
      (groups-AllFull true line.exprs [] w.alternates (start line.exprs w.complete) (λ e. cc))
  where
    start : (es : List Expr) → ends_with_command es ≡ true → Ends true es
    start [] h = cc
    start (e ∷ es) h = h
