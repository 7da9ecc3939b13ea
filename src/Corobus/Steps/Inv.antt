-- ===== src/Corobus/Steps/Inv.antt =====
-- No wakeup is lost: the invariant of every channel, and that every step keeps it.
use mathlib.Core.Path.{subst}
use system_prog.Common.{
  ℕ, ◌+◌, ◌≤◌, ◌<◌, ◌≡◌, ◌≢◌, ◌∙◌, refl, ap, sym, false, some, List, [], ◌∷◌, ◌++◌, arith, is_empty,
  length, length-append,
}
use native.Mathlib.Decide.{ℕ_discrete}
use system_prog.Corobus.Table.{
  channel_at-put_self, channel_at-put_ne, sends_call, recvs_call, sends, recvs, sends-append,
  recvs-append, AllCalls, AllCalls-concat,
}
use system_prog.Corobus.{
  ErrorCode, pos, Call, send, recv, Waiter, Channel, World, channel_at, put_channel, set_in, in_bus,
  deliver, take_front, wakeup_receiver, wakeup_sender, err_none,
}

-- Of channel `i`, with `s` senders and `r` receivers of it runnable: it is within its limit; while
-- senders wait, the messages and the runnable senders fill it; while receivers wait, no more
-- messages are there than receivers are runnable.
pub record IsServed (i s r : ℕ) (ch : Channel) : Type 0 where
  pub is_open : ch.closed ≡ false
  pub fits : length ch.messages ≤ ch.size_limit
  pub senders : is_empty ch.send_queue ≡ false → ch.size_limit ≤ length ch.messages + s
  pub receivers : is_empty ch.recv_queue ≡ false → length ch.messages ≤ r
  pub all_send : AllCalls (sends_call i) ch.send_queue
  pub all_recv : AllCalls (recvs_call i) ch.recv_queue

pub IsServed-mono :
    {i s r s' r' : ℕ} {ch : Channel} → IsServed i s r ch → s ≤ s' → r ≤ r' → IsServed i s' r' ch
IsServed-mono h hs hr = record {
  is_open = h.is_open;
  fits = h.fits;
  senders = λ e. omega (arith, h.senders e);
  receivers = λ e. omega (arith, h.receivers e);
  all_send = h.all_send;
  all_recv = h.all_recv;
}

unfoldable pub Inv : World → Type 0
Inv w =
    (i : ℕ) (ch : Channel)
    → channel_at w i ≡ some ch
    → IsServed i (sends i w.ready) (recvs i w.ready) ch

-- The same, with the call `c` counted too: a coroutine that has just been taken to run.
abbrev pub Counted : Call → World → Type 0
Counted c w =
    (i : ℕ) (ch : Channel)
    → channel_at w i ≡ some ch
    → IsServed i (sends_call i c + sends i w.ready) (recvs_call i c + recvs i w.ready) ch

-- A channel is written back, and coroutines become runnable.
Inv-put :
    (w : World) (i : ℕ) (new : Channel) (ready : List Waiter) (code : ErrorCode) {old : Channel}
    → channel_at w i ≡ some old
    → ((j : ℕ) (ch : Channel)
        → i ≢ j
        → channel_at w j ≡ some ch
        → IsServed j (sends j ready) (recvs j ready) ch)
    → IsServed i (sends i ready) (recvs i ready) new
    → Inv (record { bus = set_in w.bus i (some new); errno = code; ready = ready })
unfolding Inv
Inv-put w i new ready code at others self j ch at' = elim (ℕ_discrete i j) [
  | yes e ↦
      let here = subst (λ k. in_bus (set_in w.bus i (some new)) k ≡ some ch) (sym e) at' in
      let same : new ≡ ch = cc (channel_at-put_self w i (some new) at, here) in
      subst (λ k. IsServed k (sends k ready) (recvs k ready) ch) e
        (subst (IsServed i (sends i ready) (recvs i ready)) same self)
  | no ne ↦ others j ch ne (sym (channel_at-put_ne w i j (some new) ne) ∙ at')
]

sends_call_ne : (i j : ℕ) (m : ℕ) → i ≢ j → sends_call j (send (pos i) m) ≡ 0
sends_call_ne i j m h = ground arith

recvs_call_ne : (i j : ℕ) → i ≢ j → recvs_call j (recv (pos i)) ≡ 0
recvs_call_ne i j h = ground arith

sends_call_self : (i m : ℕ) → sends_call i (send (pos i) m) ≡ 1
sends_call_self i m = ground arith

recvs_call_self : (i : ℕ) → recvs_call i (recv (pos i)) ≡ 1
recvs_call_self i = ground arith

not_empty : {xs : List Waiter} → xs ≡ [] → is_empty xs ≡ false → ⊥
not_empty e q = ground arith

-- A send on channel `i` puts a message into it.
module _ (w : World) (i : ℕ) (ch : Channel) (m : ℕ) (at : channel_at w i ≡ some ch)
    (pre : Counted (send (pos i) m) w) where
  abbrev served : IsServed i (sends_call i (send (pos i) m) + sends i w.ready) (recvs i w.ready) ch
  served = IsServed-mono (pre i ch at) (omega arith) (omega arith)

  others_send :
      (j : ℕ) (c : Channel)
      → i ≢ j
      → channel_at w j ≡ some c
      → IsServed j (sends j w.ready) (recvs j w.ready) c
  others_send j c ne at' =
      IsServed-mono (pre j c at') (omega (arith, sends_call_ne i j m ne)) (omega arith)

  wakeup_receiver-Inv :
      (queue : List Waiter) (code : ErrorCode)
      → ch.recv_queue ≡ queue
      → length ch.messages < ch.size_limit
      → Inv (record (wakeup_receiver w i (record ch { messages = ch.messages ++ m ∷ [] }) queue) {
        errno = code;
      })
  unfolding wakeup_receiver
  wakeup_receiver-Inv [] code e lt =
      Inv-put w i (record ch { messages = ch.messages ++ m ∷ [] }) w.ready code at others_send
        (record {
          is_open = served.is_open;
          fits = omega (arith, length-append ch.messages (m ∷ []));
          senders = λ q.
              omega
                (arith, served.senders q, length-append ch.messages (m ∷ []), sends_call_self i m);
          receivers = λ q. absurd (not_empty e q);
          all_send = served.all_send;
          all_recv = served.all_recv;
        })
  wakeup_receiver-Inv (x ∷ queue) code e lt =
      let waited : length ch.messages ≤ recvs i w.ready = served.receivers (ap is_empty e) in
      let calls : AllCalls (recvs_call i) (x ∷ queue) =
        subst (AllCalls (recvs_call i)) e served.all_recv in
      Inv-put w i (record ch { messages = ch.messages ++ m ∷ []; recv_queue = queue })
        (w.ready ++ x ∷ []) code at
        (λ j c ne at'.
          IsServed-mono (others_send j c ne at') (omega (arith, sends-append j w.ready (x ∷ [])))
            (omega (arith, recvs-append j w.ready (x ∷ []))))
        (record {
          is_open = served.is_open;
          fits = omega (arith, length-append ch.messages (m ∷ []));
          senders = λ q. omega (
            arith,
            served.senders q,
            length-append ch.messages (m ∷ []),
            sends_call_self i m,
            sends-append i w.ready (x ∷ []),
          );
          receivers = λ q. omega (
            arith,
            waited,
            calls.0,
            length-append ch.messages (m ∷ []),
            recvs-append i w.ready (x ∷ []),
          );
          all_send = served.all_send;
          all_recv = calls.1;
        })

  pub deliver-Inv : length ch.messages < ch.size_limit → Inv (deliver w i ch m).0
  unfolding deliver
  deliver-Inv lt = wakeup_receiver-Inv ch.recv_queue err_none refl lt

  -- A sender that finds the channel full waits.
  pub suspend_sender-Inv :
      (x : Waiter)
      → x.call ≡ send (pos i) m
      → ch.size_limit ≤ length ch.messages
      → Inv (put_channel w i (some (record ch { send_queue = ch.send_queue ++ x ∷ [] })))
  suspend_sender-Inv x e full =
      Inv-put w i (record ch { send_queue = ch.send_queue ++ x ∷ [] }) w.ready w.errno at
        others_send
        (record {
          is_open = served.is_open;
          fits = served.fits;
          senders = λ q. omega arith;
          receivers = served.receivers;
          all_send =
              AllCalls-concat (sends_call i) ch.send_queue x served.all_send
                (rw e (sends_call_self i m));
          all_recv = served.all_recv;
        })

-- A receive on channel `i` takes a message from it.
module _ (w : World) (i : ℕ) (ch : Channel) (at : channel_at w i ≡ some ch)
    (pre : Counted (recv (pos i)) w) where
  abbrev served_recv :
      IsServed i (sends i w.ready) (recvs_call i (recv (pos i)) + recvs i w.ready) ch
  served_recv = IsServed-mono (pre i ch at) (omega arith) (omega arith)

  others_recv :
      (j : ℕ) (c : Channel)
      → i ≢ j
      → channel_at w j ≡ some c
      → IsServed j (sends j w.ready) (recvs j w.ready) c
  others_recv j c ne at' =
      IsServed-mono (pre j c at') (omega arith) (omega (arith, recvs_call_ne i j ne))

  wakeup_sender-Inv :
      (queue : List Waiter) (code : ErrorCode) (m : ℕ) (ms : List ℕ)
      → ch.send_queue ≡ queue
      → ch.messages ≡ m ∷ ms
      → Inv (record (wakeup_sender w i (record ch { messages = ms }) queue) { errno = code })
  unfolding wakeup_sender
  wakeup_sender-Inv [] code m ms e f =
      Inv-put w i (record ch { messages = ms }) w.ready code at others_recv
        (record {
          is_open = served_recv.is_open;
          fits = omega (arith, served_recv.fits, ap length f);
          senders = λ q. absurd (not_empty e q);
          receivers = λ q. omega (arith, served_recv.receivers q, ap length f, recvs_call_self i);
          all_send = served_recv.all_send;
          all_recv = served_recv.all_recv;
        })
  wakeup_sender-Inv (x ∷ queue) code m ms e f =
      let waited : ch.size_limit ≤ length ch.messages + sends i w.ready =
        served_recv.senders (ap is_empty e) in
      let calls : AllCalls (sends_call i) (x ∷ queue) =
        subst (AllCalls (sends_call i)) e served_recv.all_send in
      Inv-put w i (record ch { messages = ms; send_queue = queue }) (w.ready ++ x ∷ []) code at
        (λ j c ne at'.
          IsServed-mono (others_recv j c ne at') (omega (arith, sends-append j w.ready (x ∷ [])))
            (omega (arith, recvs-append j w.ready (x ∷ []))))
        (record {
          is_open = served_recv.is_open;
          fits = omega (arith, served_recv.fits, ap length f);
          senders =
              λ q. omega (arith, waited, calls.0, ap length f, sends-append i w.ready (x ∷ []));
          receivers = λ q. omega (
            arith,
            served_recv.receivers q,
            ap length f,
            recvs_call_self i,
            recvs-append i w.ready (x ∷ []),
          );
          all_send = calls.1;
          all_recv = served_recv.all_recv;
        })

  pub take_front-Inv : (m : ℕ) (ms : List ℕ) → ch.messages ≡ m ∷ ms → Inv (take_front w i ch m ms).0
  unfolding take_front
  take_front-Inv m ms f = wakeup_sender-Inv ch.send_queue err_none m ms refl f

  -- A receiver that finds the channel empty waits.
  pub suspend_receiver-Inv :
      (x : Waiter)
      → x.call ≡ recv (pos i)
      → ch.messages ≡ []
      → Inv (put_channel w i (some (record ch { recv_queue = ch.recv_queue ++ x ∷ [] })))
  suspend_receiver-Inv x e none_left =
      Inv-put w i (record ch { recv_queue = ch.recv_queue ++ x ∷ [] }) w.ready w.errno at
        others_recv
        (record {
          is_open = served_recv.is_open;
          fits = served_recv.fits;
          senders = served_recv.senders;
          receivers = λ q. omega (arith, ap length none_left);
          all_send = served_recv.all_send;
          all_recv =
              AllCalls-concat (recvs_call i) ch.recv_queue x served_recv.all_recv
                (rw e (recvs_call_self i));
        })
