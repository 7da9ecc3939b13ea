-- ===== src/Corobus/Steps/Reached.antt =====
-- Every step of the coroutines keeps the invariant, and what it says when nobody is runnable.
use mathlib.Core.Option.{some-injective}
use mathlib.Core.Path.{subst}
use system_prog.Common.{
  ℕ, zero, suc, ◌≤◌, ◌≡◌, ◌⊎◌, refl, ap, false, Option, none, some, List, [], ◌∷◌, ◌++◌, arith,
  is_empty, length, inl, inr, get_elem?, set,
}
use system_prog.Corobus.Table.{sends, recvs, sends-append, recvs-append}
use system_prog.Corobus.Steps.Inv.{IsServed, IsServed-mono, Inv, Counted}
use system_prog.Corobus.Steps.{
  Step, call, resume, try_send, try_recv, open_channel, close_channel, set_error, Reach, start,
  next,
}
use system_prog.Corobus.{
  ℤ, pos, negsuc, Waiter, Channel, Bus, World, slot, in_bus, set_in, channel_at, new_channel,
  open_at, open_in, first_free, coro_bus_channel_open, close_on, coro_bus_channel_close,
  coro_bus_new,
}
use system_prog.Corobus.Steps.Kept.{Counted-Inv, round-Inv, try_send-Inv, try_recv-Inv}

-- The slots of a table with a channel written into it, or added to it, are old ones or that one.
slot-set :
    (cs : List (Option Channel)) (i j : ℕ) (c : Option Channel) (ch : Channel)
    → slot (get_elem? (set cs i c) j) ≡ some ch
    → (c ≡ some ch) ⊎ (slot (get_elem? cs j) ≡ some ch)
slot-set [] i j c ch h = inr h
slot-set (x ∷ cs) zero zero c ch h = inl h
slot-set (x ∷ cs) zero (suc j) c ch h = inr h
slot-set (x ∷ cs) (suc i) zero c ch h = inr h
slot-set (x ∷ cs) (suc i) (suc j) c ch h = slot-set cs i j c ch h

slot-append :
    (cs : List (Option Channel)) (j : ℕ) (c : Option Channel) (ch : Channel)
    → slot (get_elem? (cs ++ c ∷ []) j) ≡ some ch
    → (c ≡ some ch) ⊎ (slot (get_elem? cs j) ≡ some ch)
slot-append [] zero c ch h = inl h
slot-append [] (suc j) c ch h = inr h
slot-append (x ∷ cs) zero c ch h = inr h
slot-append (x ∷ cs) (suc j) c ch h = slot-append cs j c ch h

in_bus-set_none :
    (b : Option Bus) (i j : ℕ) (ch : Channel)
    → in_bus (set_in b i none) j ≡ some ch
    → in_bus b j ≡ some ch
in_bus-set_none none i j ch h = h
in_bus-set_none (some b) i j ch h = elim (slot-set b.channels i j none ch h) [
  | inl e ↦ cc
  | inr e ↦ e
]

new_channel-IsServed :
    (i s r limit : ℕ) (ch : Channel) → some (new_channel limit) ≡ some ch → IsServed i s r ch
new_channel-IsServed i s r limit ch e = subst (IsServed i s r) (some-injective _ _ e) (record {
  is_open = refl;
  fits = omega arith;
  senders = λ q. ground arith;
  receivers = λ q. ground arith;
  all_send = tt;
  all_recv = tt;
})

open_at-Inv :
    (w : World) (b : Bus) (limit : ℕ) (o : Option ℕ)
    → w.bus ≡ some b
    → Inv w
    → Inv (open_at w b.channels limit o).0
unfolding open_at Inv
open_at-Inv w b limit (some k) e h i ch at =
    elim (slot-set b.channels k i (some (new_channel limit)) ch at) [
      | inl new ↦ new_channel-IsServed i _ _ limit ch new
      | inr old ↦ h i ch (rw e old)
    ]
open_at-Inv w b limit none e h i ch at =
    elim (slot-append b.channels i (some (new_channel limit)) ch at) [
      | inl new ↦ new_channel-IsServed i _ _ limit ch new
      | inr old ↦ h i ch (rw e old)
    ]

open_in-Inv :
    (w : World) (o : Option Bus) (limit : ℕ) {w' : World} {i : ℕ}
    → w.bus ≡ o
    → open_in w o limit ≡ some (w', i)
    → Inv w
    → Inv w'
unfolding open_in
open_in-Inv w none limit e q h = cc
open_in-Inv w (some b) limit e q h =
    subst (λ p. Inv p.0) (some-injective _ _ q) (open_at-Inv w b limit (first_free b.channels) e h)

close_on-Inv :
    (w : World) (i : ℕ) (o : Option Channel) → channel_at w i ≡ o → Inv w → Inv (close_on w i o)
unfolding close_on Inv
close_on-Inv w i none e h j ch at = h j ch at
close_on-Inv w i (some old) e h j ch at =
    let queues = old.send_queue ++ old.recv_queue in
    IsServed-mono (h j ch (in_bus-set_none w.bus i j ch at))
      (omega (arith, sends-append j w.ready queues)) (omega (arith, recvs-append j w.ready queues))

close-Inv : (w : World) (channel : ℤ) → Inv w → Inv (coro_bus_channel_close w channel)
unfolding coro_bus_channel_close
close-Inv w (negsuc k) h = h
close-Inv w (pos i) h = close_on-Inv w i (channel_at w i) refl h

-- A coroutine that is taken to run still counts.
Counted-resume :
    (w : World) (before later : List Waiter) (x : Waiter)
    → w.ready ≡ before ++ x ∷ later
    → Inv w
    → Counted x.call (record w { ready = before ++ later })
unfolding Inv
Counted-resume w before later x e h i ch at =
    IsServed-mono (h i ch at)
      (omega
        (arith, ap (sends i) e, sends-append i before (x ∷ later), sends-append i before later))
      (omega
        (arith, ap (recvs i) e, recvs-append i before (x ∷ later), recvs-append i before later))

pub Step-Inv : {w w' : World} → Step w w' → Inv w → Inv w'
unfolding coro_bus_channel_open Inv
Step-Inv {w} (call x) h = round-Inv w x (Counted-Inv x.call w h)
Step-Inv {w} (resume before later x e) h =
    round-Inv (record w { ready = before ++ later }) x (Counted-resume w before later x e h)
Step-Inv {w} (try_send channel m) h = try_send-Inv w channel m h
Step-Inv {w} (try_recv channel) h = try_recv-Inv w channel h
Step-Inv {w} (open_channel limit i e) h = open_in-Inv w w.bus limit refl e h
Step-Inv {w} (close_channel channel) h = close-Inv w channel h
Step-Inv (set_error code) h = h

pub Reach-Inv : {w : World} → Reach w → Inv w
unfolding coro_bus_new Inv
Reach-Inv (start w e) = λ i ch at. cc
Reach-Inv (next r s) = Step-Inv s (Reach-Inv r)

-- In every world that coroutines reach from a new bus by the steps of `Step`, whatever they call and
-- in whatever order they run, a channel holds no more messages than its limit.
within_limit :
    {w : World} (i : ℕ) {ch : Channel}
    → Reach w
    → channel_at w i ≡ some ch
    → length ch.messages ≤ ch.size_limit
unfolding Inv
within_limit i {ch} r at = (Reach-Inv r i ch at).fits

-- A queue is empty, or what follows from waiting in it holds.
full_or_none : (queue : List Waiter) {A : Type 0} → (is_empty queue ≡ false → A) → (queue ≡ []) ⊎ A
full_or_none [] f = inl refl
full_or_none (x ∷ queue) f = inr (f refl)

length-zero : (ms : List ℕ) → length ms ≤ 0 → ms ≡ []
length-zero [] h = refl
length-zero (m ∷ ms) h = absurd (omega (arith, h))

-- In every world that coroutines reach from a new bus by the steps of `Step`, whatever they call and
-- in whatever order they run, when no coroutine is left that was woken up and has not run: senders
-- wait only on a full channel, and receivers only on an empty one.
pub no_lost_wakeup :
    {w : World} (i : ℕ) {ch : Channel}
    → Reach w
    → w.ready ≡ []
    → channel_at w i ≡ some ch
    → ((ch.send_queue ≡ []) ⊎ (length ch.messages ≡ ch.size_limit))
      × ((ch.recv_queue ≡ []) ⊎ (ch.messages ≡ []))
unfolding Inv
no_lost_wakeup i {ch} r idle at =
    let served = Reach-Inv r i ch at in
    (
      full_or_none ch.send_queue
          (λ e. omega (arith, served.senders e, served.fits, ap (sends i) idle)),
      full_or_none ch.recv_queue
          (λ e. length-zero ch.messages (omega (arith, served.receivers e, ap (recvs i) idle))),
    )
