-- ===== src/Corobus/Blocking.antt =====
-- The blocking calls and the calls that do not wait are the same where nothing has to be waited for.
use system_prog.Common.{
  ℕ, ◌≡◌, ◌⊎◌, refl, Bool, true, false, Option, none, some, List, [], ◌∷◌, if◌then◌else◌, length,
  inl, inr, ltb, leb, arith,
}
use system_prog.Corobus.{
  err_no_channel, err_would_block, Reply, pos, negsuc, Call, send, recv, Waiter, Channel, World,
  channel_at, fail, try_send_on, try_recv_on, recv_from, coro_bus_try_send, coro_bus_try_recv, Turn,
  returns, suspends, send_on, recv_on, recv_or, turn, round,
}

-- The turn returns what the call that does not wait returns, or that one would block and the turn
-- suspends.
abbrev pub Agrees : World → Turn → World × Reply → Type 0
Agrees w t r = (t ≡ returns r) ⊎ ((r ≡ fail w err_would_block) × ((w' : World) × (t ≡ suspends w')))

guards_agree :
    (w s : World) (r e : World × Reply) (closed room full : Bool)
    → room ≡ (if full then false else true)
    → Agrees w
        (if closed then returns e else if room then returns r else suspends s)
        (if closed then e else if full then fail w err_would_block else r)
guards_agree w s r e true room full h = inl refl
guards_agree w s r e false true true h = cc
guards_agree w s r e false true false h = inl refl
guards_agree w s r e false false true h = inr (refl, (s, refl))
guards_agree w s r e false false false h = cc

ltb-leb : (a b : ℕ) → ltb a b ≡ (if leb b a then false else true)
ltb-leb a b = ground arith

send_on-Agrees :
    (w : World) (i : ℕ) (x : Waiter) (m : ℕ) (o : Option Channel)
    → Agrees w (send_on w i x m o) (try_send_on w i m o)
unfolding send_on try_send_on
send_on-Agrees w i x m none = inl refl
send_on-Agrees w i x m (some ch) =
    guards_agree w _ _ _ ch.closed (ltb (length ch.messages) ch.size_limit)
      (leb ch.size_limit (length ch.messages)) (ltb-leb (length ch.messages) ch.size_limit)

recv_or-Agrees :
    (w : World) (i : ℕ) (x : Waiter) (ch : Channel) (closed : Bool) (ms : List ℕ)
    → Agrees w
        (if closed then returns (fail w err_no_channel) else recv_or w i x ch ms)
        (if closed then fail w err_no_channel else recv_from w i ch ms (fail w err_would_block))
recv_or-Agrees w i x ch true ms = inl refl
recv_or-Agrees w i x ch false [] = inr (refl, (_, refl))
recv_or-Agrees w i x ch false (m ∷ ms) = inl refl

recv_on-Agrees :
    (w : World) (i : ℕ) (x : Waiter) (o : Option Channel)
    → Agrees w (recv_on w i x o) (try_recv_on w i o)
unfolding recv_on try_recv_on
recv_on-Agrees w i x none = inl refl
recv_on-Agrees w i x (some ch) = recv_or-Agrees w i x ch ch.closed ch.messages

abbrev pub try_call : World → Call → World × Reply
try_call w (send channel m) = coro_bus_try_send w channel m
try_call w (recv channel) = coro_bus_try_recv w channel

turn-Agrees : (w : World) (x : Waiter) (c : Call) → Agrees w (turn w x c) (try_call w c)
unfolding turn coro_bus_try_send coro_bus_try_recv
turn-Agrees w x (send (negsuc k) m) = inl refl
turn-Agrees w x (send (pos i) m) = send_on-Agrees w i x m (channel_at w i)
turn-Agrees w x (recv (negsuc k)) = inl refl
turn-Agrees w x (recv (pos i)) = recv_on-Agrees w i x (channel_at w i)

-- A round of a blocking call returns what the call of the same arguments that does not wait returns,
-- with the same effect; or that one fails with the error that it would block and changes nothing
-- else, and the round suspends the coroutine.
pub round-try_call : (w : World) (x : Waiter) → Agrees w (round w x) (try_call w x.call)
unfolding round
round-try_call w x = turn-Agrees w x x.call
