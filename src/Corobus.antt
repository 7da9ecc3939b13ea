-- ===== src/Corobus.antt =====
-- 1/corobus.cpp: a bus of bounded channels between coroutines. A waiting coroutine is inside its
-- call of `coro_bus_send` or `coro_bus_recv`, so an entry of a queue is that call.
pub mod Table
pub mod Steps
pub mod Channels
pub mod Order
pub mod Blocking
pub mod Closing
mod Tests
pub use system_prog.Common.{ℤ, pos, negsuc}
use system_prog.Common.{
  ℕ, zero, suc, Bool, true, false, Option, none, some, List, [], ◌∷◌, ◌++◌, ltb, leb, if◌then◌else◌,
  is_empty, length, get_elem?, set,
}

pub data ErrorCode : Type 0 where
  err_none err_no_channel err_would_block err_not_implemented : ErrorCode

pub data Call : Type 0 where
  send : ℤ → ℕ → Call
  recv : ℤ → Call

-- A coroutine inside a call.
pub record Waiter : Type 0 where
  pub coro : ℕ
  pub call : Call

pub record Channel : Type 0 where
  pub size_limit : ℕ
  pub closed : Bool
  pub send_queue : List Waiter
  pub recv_queue : List Waiter
  pub messages : List ℕ

pub record Bus : Type 0 where
  pub channels : List (Option Channel)

-- The bus that the calls are given, none for a null pointer; the last error; and the coroutines that
-- `coro_wakeup` has made runnable, which go on with the loop of their call when they run.
pub record World : Type 0 where
  pub bus : Option Bus
  pub errno : ErrorCode
  pub ready : List Waiter

-- What a call returns: 0, 0 and the message, or -1.
pub data Reply : Type 0 where
  sent : Reply
  received : ℕ → Reply
  failed : Reply

abbrev pub slot : Option (Option Channel) → Option Channel
slot none = none
slot (some c) = c

abbrev pub in_bus : Option Bus → ℕ → Option Channel
in_bus none i = none
in_bus (some b) i = slot (get_elem? b.channels i)

-- `bus->channels[i]`, none where the index is out of range or the pointer null.
abbrev pub channel_at : World → ℕ → Option Channel
channel_at w i = in_bus w.bus i

abbrev pub set_in : Option Bus → ℕ → Option Channel → Option Bus
set_in none i c = none
set_in (some b) i c = some (record b { channels = set b.channels i c })

abbrev pub put_channel : World → ℕ → Option Channel → World
put_channel w i c = record w { bus = set_in w.bus i c }

abbrev pub fail : World → ErrorCode → World × Reply
fail w code = (record w { errno = code }, failed)

-- `wakeup_queue_wakeup_first` on the receivers of channel `i`, with the channel written back.
pub wakeup_receiver : World → ℕ → Channel → List Waiter → World
wakeup_receiver w i ch [] = put_channel w i (some ch)
wakeup_receiver w i ch (x ∷ queue) =
    record (put_channel w i (some (record ch { recv_queue = queue }))) { ready = w.ready ++ x ∷ [] }

pub wakeup_sender : World → ℕ → Channel → List Waiter → World
wakeup_sender w i ch [] = put_channel w i (some ch)
wakeup_sender w i ch (x ∷ queue) =
    record (put_channel w i (some (record ch { send_queue = queue }))) { ready = w.ready ++ x ∷ [] }

-- `data.push_back(message)` and what follows.
pub deliver : World → ℕ → Channel → ℕ → World × Reply
deliver w i ch message =
    let pushed = record ch { messages = ch.messages ++ message ∷ [] } in
    (record (wakeup_receiver w i pushed ch.recv_queue) { errno = err_none }, sent)

-- `data.front()`, `data.pop_front()` and what follows.
pub take_front : World → ℕ → Channel → ℕ → List ℕ → World × Reply
take_front w i ch message messages =
    let popped = record ch { messages = messages } in
    (record (wakeup_sender w i popped ch.send_queue) { errno = err_none }, received message)

try_send_on : World → ℕ → ℕ → Option Channel → World × Reply
try_send_on w i message none = fail w err_no_channel
try_send_on w i message (some ch) =
    if ch.closed
    then fail w err_no_channel
    else if leb ch.size_limit (length ch.messages)
    then fail w err_would_block
    else deliver w i ch message

unfoldable pub coro_bus_try_send : World → ℤ → ℕ → World × Reply
unfolding try_send_on
coro_bus_try_send w (negsuc k) message = fail w err_no_channel
coro_bus_try_send w (pos i) message = try_send_on w i message (channel_at w i)

abbrev recv_from : World → ℕ → Channel → List ℕ → World × Reply → World × Reply
recv_from w i ch [] otherwise = otherwise
recv_from w i ch (m ∷ ms) otherwise = take_front w i ch m ms

try_recv_on : World → ℕ → Option Channel → World × Reply
try_recv_on w i none = fail w err_no_channel
try_recv_on w i (some ch) =
    if ch.closed
    then fail w err_no_channel
    else recv_from w i ch ch.messages (fail w err_would_block)

unfoldable pub coro_bus_try_recv : World → ℤ → World × Reply
unfolding try_recv_on
coro_bus_try_recv w (negsuc k) = fail w err_no_channel
coro_bus_try_recv w (pos i) = try_recv_on w i (channel_at w i)

-- A round of the loop of a blocking call either returns, or suspends the coroutine in a queue.
pub data Turn : Type 0 where
  returns : World × Reply → Turn
  suspends : World → Turn

send_on : World → ℕ → Waiter → ℕ → Option Channel → Turn
send_on w i x message none = returns (fail w err_no_channel)
send_on w i x message (some ch) =
    if ch.closed
    then returns (fail w err_no_channel)
    else if ltb (length ch.messages) ch.size_limit
    then returns (deliver w i ch message)
    else suspends (put_channel w i (some (record ch { send_queue = ch.send_queue ++ x ∷ [] })))

abbrev recv_or : World → ℕ → Waiter → Channel → List ℕ → Turn
recv_or w i x ch [] =
    suspends (put_channel w i (some (record ch { recv_queue = ch.recv_queue ++ x ∷ [] })))
recv_or w i x ch (m ∷ ms) = returns (take_front w i ch m ms)

recv_on : World → ℕ → Waiter → Option Channel → Turn
recv_on w i x none = returns (fail w err_no_channel)
recv_on w i x (some ch) =
    if ch.closed then returns (fail w err_no_channel) else recv_or w i x ch ch.messages

turn : World → Waiter → Call → Turn
unfolding send_on recv_on
turn w x (send (negsuc k) message) = returns (fail w err_no_channel)
turn w x (send (pos i) message) = send_on w i x message (channel_at w i)
turn w x (recv (negsuc k)) = returns (fail w err_no_channel)
turn w x (recv (pos i)) = recv_on w i x (channel_at w i)

-- One round of `coro_bus_send` or `coro_bus_recv`, from the call or from a wakeup.
unfoldable pub round : World → Waiter → Turn
unfolding turn
round w x = turn w x x.call

abbrev pub after : Turn → World
after (returns (w, r)) = w
after (suspends w) = w

-- The first free descriptor.
first_free : List (Option Channel) → Option ℕ
first_free [] = none
first_free (none ∷ cs) = some 0
first_free (some c ∷ cs) = elim (first_free cs) [ none ↦ none | some i ↦ some (suc i) ]

abbrev pub new_channel : ℕ → Channel
new_channel limit = record {
  size_limit = limit;
  closed = false;
  send_queue = [];
  recv_queue = [];
  messages = [];
}

open_at : World → List (Option Channel) → ℕ → Option ℕ → World × ℕ
open_at w cs limit (some i) = (
  record w {
    bus = some (record { channels = set cs i (some (new_channel limit)) });
    errno = err_none;
  },
  i,
)
open_at w cs limit none = (
  record w {
    bus = some (record { channels = cs ++ some (new_channel limit) ∷ [] });
    errno = err_none;
  },
  length cs,
)

open_in : World → Option Bus → ℕ → Option (World × ℕ)
unfolding open_at first_free
open_in w none limit = none
open_in w (some b) limit = some (open_at w b.channels limit (first_free b.channels))

-- `none` if the assertion on the bus fails.
unfoldable pub coro_bus_channel_open : World → ℕ → Option (World × ℕ)
unfolding open_in
coro_bus_channel_open w limit = open_in w w.bus limit

close_on : World → ℕ → Option Channel → World
close_on w i none = w
close_on w i (some ch) = record (put_channel w i none) {
  ready = w.ready ++ (ch.send_queue ++ ch.recv_queue);
}

-- Up to `coro_yield`; what is left is to delete the channel, which the bus no longer has.
unfoldable pub coro_bus_channel_close : World → ℤ → World
unfolding close_on
coro_bus_channel_close w (negsuc k) = w
coro_bus_channel_close w (pos i) = close_on w i (channel_at w i)

unfoldable pub coro_bus_new : World → World
coro_bus_new w = record w { bus = some (record { channels = [] }); errno = err_none }
