-- ===== src/Corobus/Steps/Kept.antt =====
-- Every round of a call keeps the invariant of the channels.
use system_prog.Common.{
  Bool, ℕ, ◌≡◌, refl, true, false, Option, none, some, List, [], ◌∷◌, arith, if◌then◌else◌, length,
  inl, inr, Bool-cases, ltb, leb,
}
use system_prog.Corobus.Table.{sends_call, recvs_call}
use system_prog.Corobus.Steps.Inv.{
  IsServed-mono, Inv, Counted, deliver-Inv, suspend_sender-Inv, take_front-Inv,
  suspend_receiver-Inv,
}
use system_prog.Corobus.{
  ErrorCode, err_no_channel, err_would_block, ℤ, pos, negsuc, Call, send, recv, Waiter, Channel,
  World, Reply, channel_at, fail, try_send_on, try_recv_on, coro_bus_try_send, coro_bus_try_recv,
  send_on, recv_on, recv_or, recv_from, turn, round, after,
}

-- What holds of the branch that is taken.
under_false {ℓ ℓ'} :
    {A : Type ℓ} (P : A → Type ℓ') (b : Bool) (x y : A) → b ≡ false → P y → P (if b then x else y)
under_false P true x y e p = cc
under_false P false x y e p = p

pub Counted-Inv : (c : Call) (w : World) → Inv w → Counted c w
unfolding Inv
Counted-Inv c w h i ch at = IsServed-mono (h i ch at) (omega arith) (omega arith)

-- A call that reaches no channel leaves all as it was.
abbrev Misses : Call → World → Type 0
Misses c w =
    (j : ℕ) (ch : Channel) → channel_at w j ≡ some ch → (sends_call j c ≡ 0) × (recvs_call j c ≡ 0)

Inv-Misses :
    (c : Call) (w : World) (code : ErrorCode) → Counted c w → Misses c w → Inv (fail w code).0
unfolding Inv
Inv-Misses c w code h m i ch at =
    IsServed-mono (h i ch at) (omega (arith, (m i ch at).0)) (omega (arith, (m i ch at).1))

Misses-send : (w : World) (i m : ℕ) → channel_at w i ≡ none → Misses (send (pos i) m) w
Misses-send w i m e j ch at = (ground arith, refl)

Misses-recv : (w : World) (i : ℕ) → channel_at w i ≡ none → Misses (recv (pos i)) w
Misses-recv w i e j ch at = (refl, ground arith)

send_on-Inv :
    (w : World) (i : ℕ) (x : Waiter) (m : ℕ) (o : Option Channel)
    → channel_at w i ≡ o
    → x.call ≡ send (pos i) m
    → Counted (send (pos i) m) w
    → Inv (after (send_on w i x m o))
unfolding send_on
send_on-Inv w i x m none e c h =
    Inv-Misses (send (pos i) m) w err_no_channel h (Misses-send w i m e)
send_on-Inv w i x m (some ch) e c h =
    under_false (λ t. Inv (after t)) ch.closed _ _ (h i ch e).is_open
      (elim (Bool-cases (ltb (length ch.messages) ch.size_limit)) [
        | inl b ↦ rw b (deliver-Inv w i ch m e h (ground arith))
        | inr b ↦ rw b (suspend_sender-Inv w i ch m e h x c (ground arith))
      ])

recv_or-Inv :
    (w : World) (i : ℕ) (x : Waiter) (ch : Channel) (ms : List ℕ)
    → channel_at w i ≡ some ch
    → x.call ≡ recv (pos i)
    → Counted (recv (pos i)) w
    → ch.messages ≡ ms
    → Inv (after (recv_or w i x ch ms))
recv_or-Inv w i x ch [] e c h f = suspend_receiver-Inv w i ch e h x c f
recv_or-Inv w i x ch (m ∷ ms) e c h f = take_front-Inv w i ch e h m ms f

recv_on-Inv :
    (w : World) (i : ℕ) (x : Waiter) (o : Option Channel)
    → channel_at w i ≡ o
    → x.call ≡ recv (pos i)
    → Counted (recv (pos i)) w
    → Inv (after (recv_on w i x o))
unfolding recv_on
recv_on-Inv w i x none e c h = Inv-Misses (recv (pos i)) w err_no_channel h (Misses-recv w i e)
recv_on-Inv w i x (some ch) e c h =
    under_false (λ t. Inv (after t)) ch.closed _ _ (h i ch e).is_open
      (recv_or-Inv w i x ch ch.messages e c h refl)

turn-Inv : (w : World) (x : Waiter) (c : Call) → x.call ≡ c → Counted c w → Inv (after (turn w x c))
unfolding turn
turn-Inv w x (send (negsuc k) m) e h =
    Inv-Misses (send (negsuc k) m) w err_no_channel h (λ j ch at. (refl, refl))
turn-Inv w x (send (pos i) m) e h = send_on-Inv w i x m (channel_at w i) refl e h
turn-Inv w x (recv (negsuc k)) e h =
    Inv-Misses (recv (negsuc k)) w err_no_channel h (λ j ch at. (refl, refl))
turn-Inv w x (recv (pos i)) e h = recv_on-Inv w i x (channel_at w i) refl e h

pub round-Inv : (w : World) (x : Waiter) → Counted x.call w → Inv (after (round w x))
unfolding round
round-Inv w x h = turn-Inv w x x.call refl h

try_send_on-Inv :
    (w : World) (i m : ℕ) (o : Option Channel)
    → channel_at w i ≡ o
    → Inv w
    → Inv (try_send_on w i m o).0
unfolding try_send_on Inv
try_send_on-Inv w i m none e h = h
try_send_on-Inv w i m (some ch) e h =
    under_false (λ (t : World × Reply). Inv t.0) ch.closed _ _ (h i ch e).is_open
      (elim (Bool-cases (leb ch.size_limit (length ch.messages))) [
        | inl b ↦ rw b h
        | inr b ↦ rw b (deliver-Inv w i ch m e (Counted-Inv (send (pos i) m) w h) (ground arith))
      ])

recv_from-Inv :
    (w : World) (i : ℕ) (ch : Channel) (ms : List ℕ) (code : ErrorCode)
    → channel_at w i ≡ some ch
    → ch.messages ≡ ms
    → Inv w
    → Inv (recv_from w i ch ms (fail w code)).0
unfolding Inv
recv_from-Inv w i ch [] code e f h = h
recv_from-Inv w i ch (m ∷ ms) code e f h =
    take_front-Inv w i ch e (Counted-Inv (recv (pos i)) w h) m ms f

try_recv_on-Inv :
    (w : World) (i : ℕ) (o : Option Channel)
    → channel_at w i ≡ o
    → Inv w
    → Inv (try_recv_on w i o).0
unfolding try_recv_on Inv
try_recv_on-Inv w i none e h = h
try_recv_on-Inv w i (some ch) e h =
    under_false (λ (t : World × Reply). Inv t.0) ch.closed _ _ (h i ch e).is_open
      (recv_from-Inv w i ch ch.messages err_would_block e refl h)

pub try_send-Inv : (w : World) (channel : ℤ) (m : ℕ) → Inv w → Inv (coro_bus_try_send w channel m).0
unfolding coro_bus_try_send Inv
try_send-Inv w (negsuc k) m h = h
try_send-Inv w (pos i) m h = try_send_on-Inv w i m (channel_at w i) refl h

pub try_recv-Inv : (w : World) (channel : ℤ) → Inv w → Inv (coro_bus_try_recv w channel).0
unfolding coro_bus_try_recv Inv
try_recv-Inv w (negsuc k) h = h
try_recv-Inv w (pos i) h = try_recv_on-Inv w i (channel_at w i) refl h
