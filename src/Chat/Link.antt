-- ===== src/Chat/Link.antt =====
-- The way out of a peer and of a client: `flush_peer_output` of 5/chat_server.cpp, and `flush_output`
-- of 5/chat_client.cpp, which is the same.
pub mod Stream
use system_prog.Common.{
  ℕ, zero, suc, ◌+◌, ◌-◌, ◌≡◌, ◌∙◌, refl, sym, ap, Bool, true, false, List, [], ◌∷◌, ◌++◌,
  append_assoc, append-nil, ltb, leb, if◌then◌else◌, ◌==◌, length, drop, Bytes, arith, Bool-cases,
  inl, inr,
}

-- What `send` answers: that it takes bytes, at least one and at most all that it is offered; or one
-- of the errors.
pub data SendAnswer : Type 0 where
  takes : ℕ → SendAnswer
  interrupted would_block broken : SendAnswer

-- Whether the socket is open, what is to be sent and how much of it has been, and what the socket has
-- taken since it was opened.
pub record Link : Type 0 where
  pub connected : Bool
  pub output_buffer : Bytes
  pub output_sent : ℕ
  pub taken : Bytes

abbrev pub take : ℕ → Bytes → Bytes
take zero xs = []
take (suc n) [] = []
take (suc n) (x ∷ xs) = x ∷ take n xs

abbrev pub unsent : Link → Bytes
unsent l = drop l.output_sent l.output_buffer

-- `send` takes `suc n` bytes, or all.
abbrev pub send : Link → ℕ → Link
send l n =
    let count = length (take (suc n) (unsent l)) in
    record l { output_sent = l.output_sent + count; taken = l.taken ++ take (suc n) (unsent l) }

-- One round of the loop, which goes on by `more`, or ends; `unfinished` is its test.
abbrev pub round :
    Bool
    → SendAnswer
    → List SendAnswer
    → Link
    → (Link → Link × List SendAnswer)
    → Link × List SendAnswer
round false answer answers l more = (l, answer ∷ answers)
round true (takes n) answers l more = more (send l n)
round true interrupted answers l more = more l
round true would_block answers l more = (l, answers)
round true broken answers l more = (record l { connected = false }, answers)

-- The loop, with what the next calls of `send` answer; where they are not told, it would block.
pub flush_loop : List SendAnswer → Link → Link × List SendAnswer
flush_loop [] l = (l, [])
flush_loop (answer ∷ answers) l =
    round (ltb l.output_sent (length l.output_buffer)) answer answers l (flush_loop answers)

abbrev pub cleared : Link → Link
cleared l =
    if l.output_sent == length l.output_buffer
    then record l { output_buffer = []; output_sent = 0 }
    else l

unfoldable pub flush : List SendAnswer → Link → Link × List SendAnswer
unfolding flush_loop
flush answers l =
    if l.connected then (let r = flush_loop answers l in (cleared r.0, r.1)) else (l, answers)

abbrev pub append_output : Link → Bytes → Link
append_output l bytes = record l { output_buffer = l.output_buffer ++ bytes }

-- What the socket has taken, with what is left to send behind it.
abbrev pub stream : Link → Bytes
stream l = l.taken ++ unsent l
