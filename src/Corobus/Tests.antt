-- ===== src/Corobus/Tests.antt =====
-- Runs of the bus, and examples of its theorems.
use system_prog.Common.{◌≡◌, ◌⊎◌, refl, none, some, List, [], ◌∷◌, length}
use system_prog.Corobus.Blocking.{Agrees, try_call, round-try_call}
use system_prog.Corobus.Closing.{coro_bus_channel_close_lem}
use system_prog.Corobus.Order.{Holds, Request, offer, poll, replies, queue_replies, replies_lem}
use system_prog.Corobus.Steps.Reached.{no_lost_wakeup}
use system_prog.Corobus.Steps.{call, resume, open_channel, Reach, start, next}
use system_prog.Corobus.{
  err_none, err_no_channel, pos, send, recv, Waiter, Channel, World, sent, channel_at, fail,
  deliver, wakeup_receiver, wakeup_sender, take_front, coro_bus_try_send, returns, suspends, round,
  new_channel, coro_bus_channel_open, coro_bus_channel_close, coro_bus_new,
}

abbrev nobody : World
nobody = record { bus = none; errno = err_none; ready = [] }

abbrev empty_bus : World
empty_bus = record { bus = some (record { channels = [] }); errno = err_none; ready = [] }

abbrev with_channel : Channel → World
with_channel ch = record {
  bus = some (record { channels = some ch ∷ [] });
  errno = err_none;
  ready = [];
}

abbrev receiver : Waiter
receiver = record { coro = 7; call = recv (pos 0) }

abbrev sender : Waiter
sender = record { coro = 8; call = send (pos 0) 5 }

abbrev awaited : Channel
awaited = record (new_channel 2) { recv_queue = receiver ∷ [] }

abbrev two_channels : World
two_channels = record {
  bus = some (record { channels = some awaited ∷ some (new_channel 3) ∷ [] });
  errno = err_none;
  ready = [];
}

opened : coro_bus_channel_open empty_bus 2 ≡ some (with_channel (new_channel 2), 0)
unfolding coro_bus_channel_open
opened = refl

receiver_waits : round (with_channel (new_channel 2)) receiver ≡ suspends (with_channel awaited)
unfolding round
receiver_waits = refl

sent_to_receiver : coro_bus_try_send (with_channel awaited) (pos 0) 5 ≡ (
  record (with_channel (record (new_channel 2) { messages = 5 ∷ [] })) { ready = receiver ∷ [] },
  sent,
)
unfolding coro_bus_try_send deliver wakeup_receiver
sent_to_receiver = refl

abbrev receiver_two : Waiter
receiver_two = record { coro = 9; call = recv (pos 0) }

abbrev one_waits : Channel
one_waits = record (new_channel 1) { recv_queue = receiver_two ∷ [] }

-- Two receivers wait, a sender comes, and the receiver that it wakes up takes the message.
served_one : Reach (with_channel one_waits)
unfolding round deliver wakeup_receiver take_front wakeup_sender coro_bus_new coro_bus_channel_open
served_one =
    next
      (next
        (next (next (next (start nobody refl) (open_channel 1 0 refl)) (call receiver))
          (call receiver_two))
        (call sender))
      (resume [] [] receiver refl)

no_lost_wakeup_example :
    ((one_waits.send_queue ≡ []) ⊎ (length one_waits.messages ≡ one_waits.size_limit))
    × ((one_waits.recv_queue ≡ []) ⊎ (one_waits.messages ≡ []))
no_lost_wakeup_example = no_lost_wakeup 0 served_one refl refl

abbrev three : List Request
three = offer 1 ∷ offer 2 ∷ poll ∷ offer 3 ∷ poll ∷ poll ∷ []

new_channel-Holds : Holds (with_channel (new_channel 1)) 0 1 []
new_channel-Holds = record {
  channel = new_channel 1;
  at = refl;
  is_open = refl;
  limited = refl;
  holds = refl;
}

replies_lem_example : replies (with_channel (new_channel 1)) 0 three ≡ queue_replies 1 [] three
replies_lem_example = replies_lem (with_channel (new_channel 1)) 0 1 [] three new_channel-Holds

round-try_call_example :
    Agrees
      (with_channel awaited)
      (round (with_channel awaited) sender)
      (try_call (with_channel awaited) sender.call)
round-try_call_example = round-try_call (with_channel awaited) sender

coro_bus_channel_close_lem_example :
    (channel_at (coro_bus_channel_close (with_channel awaited) (pos 0)) 0 ≡ none)
    × ((coro_bus_channel_close (with_channel awaited) (pos 0)).ready ≡ receiver ∷ [])
    × (round (coro_bus_channel_close (with_channel awaited) (pos 0)) receiver
        ≡ returns (fail (coro_bus_channel_close (with_channel awaited) (pos 0)) err_no_channel))
coro_bus_channel_close_lem_example =
    coro_bus_channel_close_lem (with_channel awaited) 0 awaited receiver refl refl
