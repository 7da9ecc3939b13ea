-- ===== src/Corobus/Table.antt =====
-- The table of channels, and the counts of runnable coroutines by what they wait for.
use system_prog.Common.{
  ℕ, zero, suc, ◌+◌, ◌≡◌, ◌≢◌, refl, ap, Option, none, some, List, [], ◌∷◌, ◌++◌, arith, ◌==◌,
  if◌then◌else◌, get_elem?, set,
}
use system_prog.Corobus.{
  pos, negsuc, Call, send, recv, Waiter, Channel, Bus, World, slot, set_in, in_bus, channel_at,
  put_channel,
}

pub slot-set_self :
    (cs : List (Option Channel)) (i : ℕ) (c : Option Channel) {ch : Channel}
    → slot (get_elem? cs i) ≡ some ch
    → slot (get_elem? (set cs i c) i) ≡ c
slot-set_self [] i c h = cc
slot-set_self (x ∷ cs) zero c h = refl
slot-set_self (x ∷ cs) (suc i) c h = slot-set_self cs i c h

pub slot-set_ne :
    (cs : List (Option Channel)) (i j : ℕ) (c : Option Channel)
    → i ≢ j
    → slot (get_elem? (set cs i c) j) ≡ slot (get_elem? cs j)
slot-set_ne [] i j c h = refl
slot-set_ne (x ∷ cs) zero zero c h = absurd (h refl)
slot-set_ne (x ∷ cs) zero (suc j) c h = refl
slot-set_ne (x ∷ cs) (suc i) zero c h = refl
slot-set_ne (x ∷ cs) (suc i) (suc j) c h = slot-set_ne cs i j c (λ e. h (ap suc e))

in_bus-set_self :
    (b : Option Bus) (i : ℕ) (c : Option Channel) {ch : Channel}
    → in_bus b i ≡ some ch
    → in_bus (set_in b i c) i ≡ c
in_bus-set_self none i c h = cc
in_bus-set_self (some b) i c h = slot-set_self b.channels i c h

in_bus-set_ne :
    (b : Option Bus) (i j : ℕ) (c : Option Channel) → i ≢ j → in_bus (set_in b i c) j ≡ in_bus b j
in_bus-set_ne none i j c h = refl
in_bus-set_ne (some b) i j c h = slot-set_ne b.channels i j c h

pub channel_at-put_self :
    (w : World) (i : ℕ) (c : Option Channel) {ch : Channel}
    → channel_at w i ≡ some ch
    → channel_at (put_channel w i c) i ≡ c
channel_at-put_self w i c h = in_bus-set_self w.bus i c h

pub channel_at-put_ne :
    (w : World) (i j : ℕ) (c : Option Channel)
    → i ≢ j
    → channel_at (put_channel w i c) j ≡ channel_at w j
channel_at-put_ne w i j c h = in_bus-set_ne w.bus i j c h

-- The calls of `coro_bus_send`, and of `coro_bus_recv`, on descriptor `i`.
abbrev pub sends_call : ℕ → Call → ℕ
sends_call i (send (pos j) m) = if j == i then 1 else 0
sends_call i (send (negsuc j) m) = 0
sends_call i (recv d) = 0

abbrev pub recvs_call : ℕ → Call → ℕ
recvs_call i (recv (pos j)) = if j == i then 1 else 0
recvs_call i (recv (negsuc j)) = 0
recvs_call i (send d m) = 0

abbrev pub sends : ℕ → List Waiter → ℕ
sends i [] = 0
sends i (x ∷ xs) = sends_call i x.call + sends i xs

abbrev pub recvs : ℕ → List Waiter → ℕ
recvs i [] = 0
recvs i (x ∷ xs) = recvs_call i x.call + recvs i xs

pub sends-append : (i : ℕ) (xs ys : List Waiter) → sends i (xs ++ ys) ≡ sends i xs + sends i ys
sends-append i [] ys = omega arith
sends-append i (x ∷ xs) ys = omega (arith, sends-append i xs ys)

pub recvs-append : (i : ℕ) (xs ys : List Waiter) → recvs i (xs ++ ys) ≡ recvs i xs + recvs i ys
recvs-append i [] ys = omega arith
recvs-append i (x ∷ xs) ys = omega (arith, recvs-append i xs ys)

abbrev pub AllCalls : (Call → ℕ) → List Waiter → Type 0
AllCalls f [] = Unit
AllCalls f (x ∷ xs) = (f x.call ≡ 1) × AllCalls f xs

pub AllCalls-concat :
    (f : Call → ℕ) (xs : List Waiter) (x : Waiter)
    → AllCalls f xs
    → f x.call ≡ 1
    → AllCalls f (xs ++ x ∷ [])
AllCalls-concat f [] x h k = (k, tt)
AllCalls-concat f (y ∷ xs) x h k = (h.0, AllCalls-concat f xs x h.1 k)
