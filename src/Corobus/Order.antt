-- ===== src/Corobus/Order.antt =====
-- A channel as a bounded first-in first-out queue: `coro_bus_try_send` and `coro_bus_try_recv` do
-- what the queue does.
use mathlib.Core.Path.{subst}
use system_prog.Common.{
  Bool, ℕ, ◌≡◌, ◌∙◌, refl, ap, sym, true, false, some, List, [], ◌∷◌, ◌++◌, if◌then◌else◌, length,
  leb,
}
use system_prog.Corobus.Table.{channel_at-put_self}
use system_prog.Corobus.{
  ErrorCode, err_none, err_would_block, pos, Waiter, Channel, World, Reply, sent, received, failed,
  channel_at, fail, wakeup_receiver, wakeup_sender, deliver, take_front, try_send_on, try_recv_on,
  recv_from, coro_bus_try_send, coro_bus_try_recv,
}

-- Channel `i` is opened, has the limit and holds the messages.
pub record Holds (w : World) (i limit : ℕ) (messages : List ℕ) : Type 0 where
  pub channel : Channel
  pub at : channel_at w i ≡ some channel
  pub is_open : channel.closed ≡ false
  pub limited : channel.size_limit ≡ limit
  pub holds : channel.messages ≡ messages

-- The bounded queue: what it holds after, the error code and what is returned.
abbrev pub push : ℕ → List ℕ → ℕ → List ℕ × ErrorCode × Reply
push limit ms m =
    if leb limit (length ms) then (ms, err_would_block, failed) else (ms ++ m ∷ [], err_none, sent)

abbrev pub pop : List ℕ → List ℕ × ErrorCode × Reply
pop [] = ([], err_would_block, failed)
pop (m ∷ ms) = (ms, err_none, received m)

-- The call leaves the channel and returns as the queue does.
abbrev pub Answers : ℕ → ℕ → World × Reply → List ℕ × ErrorCode × Reply → Type 0
Answers i limit r s = Holds r.0 i limit s.0 × (r.0.errno ≡ s.1) × (r.1 ≡ s.2)

wakeup_receiver-Holds :
    (w : World) (i : ℕ) (ch : Channel) (queue : List Waiter) (code : ErrorCode) {old : Channel}
    → channel_at w i ≡ some old
    → ch.closed ≡ false
    → Holds (record (wakeup_receiver w i ch queue) { errno = code }) i ch.size_limit ch.messages
unfolding wakeup_receiver
wakeup_receiver-Holds w i ch [] code at opened = record {
  channel = ch;
  at = channel_at-put_self w i (some ch) at;
  is_open = opened;
  limited = refl;
  holds = refl;
}
wakeup_receiver-Holds w i ch (x ∷ queue) code at opened = record {
  channel = record ch { recv_queue = queue };
  at = channel_at-put_self w i (some (record ch { recv_queue = queue })) at;
  is_open = opened;
  limited = refl;
  holds = refl;
}

wakeup_sender-Holds :
    (w : World) (i : ℕ) (ch : Channel) (queue : List Waiter) (code : ErrorCode) {old : Channel}
    → channel_at w i ≡ some old
    → ch.closed ≡ false
    → Holds (record (wakeup_sender w i ch queue) { errno = code }) i ch.size_limit ch.messages
unfolding wakeup_sender
wakeup_sender-Holds w i ch [] code at opened = record {
  channel = ch;
  at = channel_at-put_self w i (some ch) at;
  is_open = opened;
  limited = refl;
  holds = refl;
}
wakeup_sender-Holds w i ch (x ∷ queue) code at opened = record {
  channel = record ch { send_queue = queue };
  at = channel_at-put_self w i (some (record ch { send_queue = queue })) at;
  is_open = opened;
  limited = refl;
  holds = refl;
}

deliver-Answers :
    (w : World) (i : ℕ) (ch : Channel) (m : ℕ)
    → channel_at w i ≡ some ch
    → ch.closed ≡ false
    → Answers i ch.size_limit (deliver w i ch m) (ch.messages ++ m ∷ [], err_none, sent)
unfolding deliver
deliver-Answers w i ch m at opened = (
  wakeup_receiver-Holds w i (record ch { messages = ch.messages ++ m ∷ [] }) ch.recv_queue err_none
      at opened,
  refl,
  refl,
)

take_front-Answers :
    (w : World) (i : ℕ) (ch : Channel) (m : ℕ) (ms : List ℕ)
    → channel_at w i ≡ some ch
    → ch.closed ≡ false
    → Answers i ch.size_limit (take_front w i ch m ms) (ms, err_none, received m)
unfolding take_front
take_front-Answers w i ch m ms at opened = (
  wakeup_sender-Holds w i (record ch { messages = ms }) ch.send_queue err_none at opened,
  refl,
  refl,
)

-- Answers of a call that changes nothing but the error code.
fail-Answers :
    (w : World) (i : ℕ) (ch : Channel) (code : ErrorCode)
    → channel_at w i ≡ some ch
    → ch.closed ≡ false
    → Answers i ch.size_limit (fail w code) (ch.messages, code, failed)
fail-Answers w i ch code at opened =
    (record { channel = ch; at = at; is_open = opened; limited = refl; holds = refl }, refl, refl)

try_send_on-Answers :
    (w : World) (i m : ℕ) (ch : Channel) (b : Bool)
    → channel_at w i ≡ some ch
    → ch.closed ≡ false
    → Answers i ch.size_limit (if b then fail w err_would_block else deliver w i ch m) (
        if b
        then (ch.messages, err_would_block, failed)
        else (ch.messages ++ m ∷ [], err_none, sent))
try_send_on-Answers w i m ch true at opened = fail-Answers w i ch err_would_block at opened
try_send_on-Answers w i m ch false at opened = deliver-Answers w i ch m at opened

recv_from-Answers :
    (w : World) (i : ℕ) (ch : Channel) (ms : List ℕ)
    → channel_at w i ≡ some ch
    → ch.closed ≡ false
    → ch.messages ≡ ms
    → Answers i ch.size_limit (recv_from w i ch ms (fail w err_would_block)) (pop ms)
recv_from-Answers w i ch [] at opened e =
    (record { channel = ch; at = at; is_open = opened; limited = refl; holds = e }, refl, refl)
recv_from-Answers w i ch (m ∷ ms) at opened e = take_front-Answers w i ch m ms at opened

unless_closed : (b : Bool) (x y : World × Reply) → b ≡ false → (if b then x else y) ≡ y
unless_closed true x y e = cc
unless_closed false x y e = refl

try_send_at :
    (w : World) (i m : ℕ) (ch : Channel)
    → channel_at w i ≡ some ch
    → ch.closed ≡ false
    → coro_bus_try_send w (pos i) m ≡ (
        if leb ch.size_limit (length ch.messages) then fail w err_would_block else deliver w i ch m)
unfolding coro_bus_try_send try_send_on
try_send_at w i m ch at opened = ap (try_send_on w i m) at ∙ unless_closed ch.closed _ _ opened

try_recv_at :
    (w : World) (i : ℕ) (ch : Channel)
    → channel_at w i ≡ some ch
    → ch.closed ≡ false
    → coro_bus_try_recv w (pos i) ≡ recv_from w i ch ch.messages (fail w err_would_block)
unfolding coro_bus_try_recv try_recv_on
try_recv_at w i ch at opened = ap (try_recv_on w i) at ∙ unless_closed ch.closed _ _ opened

pub try_send-Answers :
    (w : World) (i limit m : ℕ) (ms : List ℕ)
    → Holds w i limit ms
    → Answers i limit (coro_bus_try_send w (pos i) m) (push limit ms m)
try_send-Answers w i limit m ms h =
    let ch = h.channel in
    let here =
      subst (λ r. Answers i ch.size_limit r (push ch.size_limit ch.messages m))
        (sym (try_send_at w i m ch h.at h.is_open))
        (try_send_on-Answers w i m ch (leb ch.size_limit (length ch.messages)) h.at h.is_open) in
    subst (λ l. Answers i l (coro_bus_try_send w (pos i) m) (push l ms m)) h.limited
      (subst
        (λ xs. Answers i ch.size_limit (coro_bus_try_send w (pos i) m) (push ch.size_limit xs m))
        h.holds here)

pub try_recv-Answers :
    (w : World) (i limit : ℕ) (ms : List ℕ)
    → Holds w i limit ms
    → Answers i limit (coro_bus_try_recv w (pos i)) (pop ms)
try_recv-Answers w i limit ms h =
    let ch = h.channel in
    subst (λ l. Answers i l (coro_bus_try_recv w (pos i)) (pop ms)) h.limited
      (subst (λ xs. Answers i ch.size_limit (coro_bus_try_recv w (pos i)) (pop xs)) h.holds
        (subst (λ r. Answers i ch.size_limit r (pop ch.messages))
          (sym (try_recv_at w i ch h.at h.is_open))
          (recv_from-Answers w i ch ch.messages h.at h.is_open refl)))

-- Calls on one channel, in the order they are made.
pub data Request : Type 0 where
  offer : ℕ → Request
  poll : Request

abbrev pub request : World → ℕ → Request → World × Reply
request w i (offer m) = coro_bus_try_send w (pos i) m
request w i poll = coro_bus_try_recv w (pos i)

abbrev pub answer : ℕ → List ℕ → Request → List ℕ × ErrorCode × Reply
answer limit ms (offer m) = push limit ms m
answer limit ms poll = pop ms

-- What the calls return, with the error code after each.
abbrev pub replies : World → ℕ → List Request → List (ErrorCode × Reply)
replies w i [] = []
replies w i (q ∷ qs) = let r = request w i q in (r.0.errno, r.1) ∷ replies r.0 i qs

abbrev pub queue_replies : ℕ → List ℕ → List Request → List (ErrorCode × Reply)
queue_replies limit ms [] = []
queue_replies limit ms (q ∷ qs) =
    let s = answer limit ms q in (s.1, s.2) ∷ queue_replies limit s.0 qs

request-Answers :
    (w : World) (i limit : ℕ) (ms : List ℕ) (q : Request)
    → Holds w i limit ms
    → Answers i limit (request w i q) (answer limit ms q)
request-Answers w i limit ms (offer m) h = try_send-Answers w i limit m ms h
request-Answers w i limit ms poll h = try_recv-Answers w i limit ms h

-- Any sequence of calls of `coro_bus_try_send` and `coro_bus_try_recv` on one open channel returns,
-- call for call, what a bounded first-in first-out queue of the same limit and contents returns, with
-- the same error code after each; whoever waits on the channel.
pub replies_lem :
    (w : World) (i limit : ℕ) (ms : List ℕ) (qs : List Request)
    → Holds w i limit ms
    → replies w i qs ≡ queue_replies limit ms qs
replies_lem w i limit ms [] h = refl
replies_lem w i limit ms (q ∷ qs) h =
    let a = request-Answers w i limit ms q h in
    cc (a.1, a.2, replies_lem (request w i q).0 i limit (answer limit ms q).0 qs a.0)
