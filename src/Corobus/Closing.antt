-- ===== src/Corobus/Closing.antt =====
-- What `coro_bus_channel_close` does to the coroutines that wait on the channel.
use system_prog.Common.{ℕ, ◌≡◌, ◌∙◌, refl, ap, none, some, ◌++◌}
use system_prog.Corobus.Table.{channel_at-put_self}
use system_prog.Corobus.{
  err_no_channel, ℤ, pos, negsuc, Call, send, recv, Waiter, Channel, World, channel_at, fail,
  returns, send_on, recv_on, turn, round, close_on, coro_bus_channel_close,
}

-- The descriptor that a call is given.
abbrev pub descriptor : Call → ℤ
descriptor (send channel m) = channel
descriptor (recv channel) = channel

pos-injective : {i j : ℕ} → pos i ≡ pos j → i ≡ j
pos-injective e = cc

turn-none :
    (w : World) (i : ℕ) (x : Waiter) (c : Call)
    → descriptor c ≡ pos i
    → channel_at w i ≡ none
    → turn w x c ≡ returns (fail w err_no_channel)
unfolding turn send_on recv_on
turn-none w i x (send (pos j) m) d e =
    ap (send_on w j x m) (ap (channel_at w) (pos-injective d) ∙ e)
turn-none w i x (send (negsuc k) m) d e = refl
turn-none w i x (recv (pos j)) d e = ap (recv_on w j x) (ap (channel_at w) (pos-injective d) ∙ e)
turn-none w i x (recv (negsuc k)) d e = refl

round-none :
    (w : World) (i : ℕ) (x : Waiter)
    → descriptor x.call ≡ pos i
    → channel_at w i ≡ none
    → round w x ≡ returns (fail w err_no_channel)
unfolding round
round-none w i x d e = turn-none w i x x.call d e

close_at :
    (w : World) (i : ℕ) {ch : Channel}
    → channel_at w i ≡ some ch
    → coro_bus_channel_close w (pos i) ≡ close_on w i (some ch)
unfolding coro_bus_channel_close
close_at w i e = ap (close_on w i) e

close-channel_at :
    (w : World) (i : ℕ) {ch : Channel}
    → channel_at w i ≡ some ch
    → channel_at (coro_bus_channel_close w (pos i)) i ≡ none
unfolding close_on
close-channel_at w i e = ap (λ v. channel_at v i) (close_at w i e) ∙ channel_at-put_self w i none e

close-ready :
    (w : World) (i : ℕ) {ch : Channel}
    → channel_at w i ≡ some ch
    → (coro_bus_channel_close w (pos i)).ready ≡ w.ready ++ (ch.send_queue ++ ch.recv_queue)
unfolding close_on
close-ready w i e = ap (λ v. v.ready) (close_at w i e)

-- Closing an open channel frees its descriptor and makes all its waiting coroutines runnable, behind
-- the others, the senders first; and a call on the descriptor that runs next returns the error of a
-- missing channel.
pub coro_bus_channel_close_lem :
    (w : World) (i : ℕ) (ch : Channel) (x : Waiter)
    → channel_at w i ≡ some ch
    → descriptor x.call ≡ pos i
    → (channel_at (coro_bus_channel_close w (pos i)) i ≡ none)
      × ((coro_bus_channel_close w (pos i)).ready ≡ w.ready ++ (ch.send_queue ++ ch.recv_queue))
      × (round (coro_bus_channel_close w (pos i)) x
          ≡ returns (fail (coro_bus_channel_close w (pos i)) err_no_channel))
coro_bus_channel_close_lem w i ch x e d = (
  close-channel_at w i e,
  close-ready w i e,
  round-none (coro_bus_channel_close w (pos i)) i x d (close-channel_at w i e),
)
