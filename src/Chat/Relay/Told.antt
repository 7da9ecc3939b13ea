-- ===== src/Chat/Relay/Told.antt =====
-- The messages that 5/chat_client.cpp reads in what 5/chat_server.cpp passes on.
use system_prog.Chat.Client.{Client, read_lines, buffer_input, take_line, author_of}
use system_prog.Chat.Framing.Lines.{lines, cons_line, fold_lines, all_lines_lem}
use system_prog.Chat.Framing.Trim.{
  IsWord, no_newline, starts-append, starts-not_empty, trim-IsWord, trim-between, split_author-full,
  lines-line, no_newline-append,
}
use system_prog.Chat.Framing.{ChatMessage, trim, split_author, all_lines}
use system_prog.Chat.Server.Heard.{all_said, all_told}
use system_prog.Chat.Server.{full_message}
use system_prog.Common.{
  ℕ, ◌≡◌, ◌∙◌, append_assoc, append-nil, refl, sym, ap, true, false, none, List, [], ◌∷◌, ◌++◌,
  if◌then◌else◌, if_false, ◌==◌, is_empty, Bytes, arith, Bool-cases, inl, inr,
}

abbrev pub OneLine : List Bytes → Type 0
OneLine [] = Unit
OneLine (line ∷ ls) = (no_newline line ≡ true) × OneLine ls

cons_line-OneLine :
    (c : ℕ) (r : List Bytes × Bytes) → (c == 10) ≡ false → OneLine r.0 → OneLine (cons_line c r).0
cons_line-OneLine c ([], rest) e h = tt
cons_line-OneLine c (line ∷ ls, rest) e h = (ground (arith, h.0), h.1)

pub lines-OneLine : (bytes : Bytes) → OneLine (lines bytes).0
unfolding lines
lines-OneLine [] = tt
lines-OneLine (c ∷ cs) = elim (Bool-cases (c == 10)) [
  | inl e ↦ rw e (refl, lines-OneLine cs)
  | inr e ↦ rw e (cons_line-OneLine c (lines cs) e (lines-OneLine cs))
]

-- A client that receives the bytes and reads the lines in them.
abbrev pub reads : Client → Bytes → Client
reads c bytes = read_lines (buffer_input c bytes)

abbrev read_from : List ChatMessage → Bytes → List ChatMessage × Bytes
read_from messages bytes = (fold_lines take_line messages (lines bytes).0, (lines bytes).1)

-- A client that reads the bytes with nothing before them gets these messages, and nothing is left.
abbrev Reads : Bytes → List ChatMessage → Type 0
Reads bytes heard =
    (messages : List ChatMessage) → read_from messages bytes ≡ (messages ++ heard, [])

-- The name and the text of a message that is passed on.
module _ (name : Bytes) (word : IsWord name) (plain : split_author name ≡ none) where
  abbrev line_of : Bytes → Bytes
  line_of text = name ++ 58 ∷ 32 ∷ text

  full_message_lem : (text : Bytes) → full_message name text ≡ line_of text ++ 10 ∷ []
  full_message_lem text =
      if_false _ _ (starts-not_empty name word.begins)
      ∙ sym (append_assoc name (58 ∷ 32 ∷ text) (10 ∷ []))

  lines-full_message :
      (text rest : Bytes)
      → IsWord text
      → lines (full_message name text ++ rest) ≡ (line_of text ∷ (lines rest).0, (lines rest).1)
  lines-full_message text rest t =
      ap (λ r. lines (r ++ rest)) (full_message_lem text)
      ∙ ap lines (append_assoc (line_of text) (10 ∷ []) rest)
      ∙ lines-line (line_of text) rest
          (no_newline-append name (58 ∷ 32 ∷ text) word.one_line t.one_line)

  take_line-line_of :
      (messages : List ChatMessage) (text : Bytes)
      → IsWord text
      → take_line messages (line_of text) ≡ messages ++ record { author = name; text = text } ∷ []
  take_line-line_of messages text t =
      let take = λ (r : Bytes).
        if is_empty r then messages else messages ++ author_of r (split_author r) ∷ [] in
      ap take (trim-between name (58 ∷ 32 ∷ []) text word t)
      ∙ if_false _ _
          (starts-not_empty (line_of text) (starts-append name (58 ∷ 32 ∷ text) word.begins))
      ∙ ap (λ o. messages ++ author_of (line_of text) o ∷ []) (split_author-full name text plain)

  full_message-Reads :
      (text rest : Bytes) (heard : List ChatMessage)
      → IsWord text
      → Reads rest heard
      → Reads (full_message name text ++ rest) (record { author = name; text = text } ∷ heard)
  full_message-Reads text rest heard t more messages =
      let m : ChatMessage = record { author = name; text = text } in
      ap (λ (r : List Bytes × Bytes). (fold_lines take_line messages r.0, r.1))
        (lines-full_message text rest t)
      ∙ ap (λ ms. (fold_lines take_line ms (lines rest).0, (lines rest).1))
          (take_line-line_of messages text t)
      ∙ more (messages ++ m ∷ [])
      ∙ ap (λ ms. (ms, [])) (append_assoc messages (m ∷ []) heard)

  all_told-Reads : (ls : List Bytes) → OneLine ls → Reads (all_told name ls) (all_said name ls)
  unfolding lines
  all_told-Reads [] h = λ messages. ap (λ ms. (ms, [])) (sym (append-nil messages))
  all_told-Reads (line ∷ ls) h = elim (Bool-cases (is_empty (trim line))) [
    | inl e ↦ rw e (all_told-Reads ls h.1)
    | inr e ↦ rw e (
        full_message-Reads (trim line) (all_told name ls) (all_said name ls)
          (trim-IsWord line h.0 e) (all_told-Reads ls h.1))
  ]

  pub reads-all_told :
      (c : Client) (ls : List Bytes)
      → OneLine ls
      → c.input_buffer ≡ []
      → reads c (all_told name ls) ≡ record c { messages = c.messages ++ all_said name ls }
  unfolding read_lines
  reads-all_told c ls one empty =
      ap (λ (r : List ChatMessage × Bytes). record c { messages = r.0; input_buffer = r.1 })
        (ap (λ b. all_lines take_line (b ++ all_told name ls) c.messages) empty
          ∙ all_lines_lem take_line (all_told name ls) c.messages
          ∙ all_told-Reads ls one c.messages)
      ∙ ap (λ b. record c { messages = c.messages ++ all_said name ls; input_buffer = b })
          (sym empty)
