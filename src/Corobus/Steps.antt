-- ===== src/Corobus/Steps.antt =====
-- Coroutines that use the bus, in any order, and what holds of every channel on the way.
pub mod Inv
pub mod Kept
pub mod Reached
use system_prog.Common.{ℕ, Option, some, List, [], ◌∷◌, ◌++◌, ◌≡◌}
use system_prog.Corobus.{
  ErrorCode, ℤ, Waiter, Channel, World, Reply, coro_bus_try_send, coro_bus_try_recv, round, after,
  coro_bus_channel_open, coro_bus_channel_close, coro_bus_new,
}

-- `call` is the first round of a blocking call, `resume` a further round of one that was woken up,
-- whichever the scheduler picks.
pub data Step (w : World) : World → Type 0 where
  call : (x : Waiter) → Step w (after (round w x))
  resume :
      (before later : List Waiter) (x : Waiter)
      → w.ready ≡ before ++ x ∷ later
      → Step w (after (round (record w { ready = before ++ later }) x))
  try_send : (channel : ℤ) (message : ℕ) → Step w (coro_bus_try_send w channel message).0
  try_recv : (channel : ℤ) → Step w (coro_bus_try_recv w channel).0
  open_channel :
      (limit : ℕ) {w' : World} (i : ℕ) → coro_bus_channel_open w limit ≡ some (w', i) → Step w w'
  close_channel : (channel : ℤ) → Step w (coro_bus_channel_close w channel)
  set_error : (code : ErrorCode) → Step w (record w { errno = code })

-- The worlds that are reached from a new bus that no coroutine uses yet.
pub data Reach : World → Type 0 where
  start : (w : World) → w.ready ≡ [] → Reach (coro_bus_new w)
  next : {w w' : World} → Reach w → Step w w' → Reach w'
