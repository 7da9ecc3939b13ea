-- ===== src/Corobus/Channels.antt =====
-- `coro_bus_channel_open` takes the first free descriptor and changes no other channel.
use mathlib.Core.Option.{some-injective}
use mathlib.Core.Path.{subst}
use system_prog.Common.{
  Bool-cases, ltb, ℕ, zero, suc, ◌≤◌, ◌<◌, ◌≡◌, ◌≢◌, ◌⊎◌, ◌∙◌, refl, ap, sym, Option, none, some,
  List, [], ◌∷◌, ◌++◌, arith, get_elem?, set, length, inl, inr,
}
use native.Mathlib.Decide.{ℕ_discrete}
use system_prog.Corobus.{
  err_none, Channel, Bus, World, slot, in_bus, channel_at, new_channel, first_free, open_at,
  open_in, coro_bus_channel_open,
}

-- Descriptor `i` is the lowest free one of a table, and is given to `c`.
record Opens (cs cs' : List (Option Channel)) (i : ℕ) (c : Option Channel) : Type 0 where
  vacant : slot (get_elem? cs i) ≡ none
  filled : slot (get_elem? cs' i) ≡ c
  others : (j : ℕ) → i ≢ j → slot (get_elem? cs' j) ≡ slot (get_elem? cs j)
  below : (j : ℕ) → j < i → slot (get_elem? cs j) ≢ none

abbrev chosen : List (Option Channel) → Option ℕ → ℕ
chosen cs none = length cs
chosen cs (some i) = i

abbrev written : List (Option Channel) → Option ℕ → Option Channel → List (Option Channel)
written cs none c = cs ++ c ∷ []
written cs (some i) c = set cs i c

front_others :
    (cs : List (Option Channel)) (c : Option Channel) (j : ℕ)
    → 0 ≢ j
    → slot (get_elem? (c ∷ cs) j) ≡ slot (get_elem? (none ∷ cs) j)
front_others cs c zero h = absurd (h refl)
front_others cs c (suc j) h = refl

Opens-front : (cs : List (Option Channel)) (c : Option Channel) → Opens (none ∷ cs) (c ∷ cs) 0 c
Opens-front cs c = record {
  vacant = refl;
  filled = refl;
  others = front_others cs c;
  below = λ j h. absurd (omega (arith, h));
}

end_others :
    (c : Option Channel) (j : ℕ) → 0 ≢ j → slot (get_elem? (c ∷ []) j) ≡ slot (get_elem? [] j)
end_others c zero h = absurd (h refl)
end_others c (suc j) h = refl

Opens-end : (c : Option Channel) → Opens [] (c ∷ []) 0 c
Opens-end c = record {
  vacant = refl;
  filled = refl;
  others = end_others c;
  below = λ j h. absurd (omega (arith, h));
}

module _ (x : Channel) {cs cs' : List (Option Channel)} {i : ℕ} {c : Option Channel}
    (h : Opens cs cs' i c) where
  cons_others :
      (j : ℕ) → suc i ≢ j → slot (get_elem? (some x ∷ cs') j) ≡ slot (get_elem? (some x ∷ cs) j)
  cons_others zero ne = refl
  cons_others (suc j) ne = h.others j (λ e. ne (ap suc e))

  cons_below : (j : ℕ) → j < suc i → slot (get_elem? (some x ∷ cs) j) ≢ none
  cons_below zero lt = λ e. cc
  cons_below (suc j) lt = h.below j (omega (arith, lt))

  Opens-cons : Opens (some x ∷ cs) (some x ∷ cs') (suc i) c
  Opens-cons = record {
    vacant = h.vacant;
    filled = h.filled;
    others = cons_others;
    below = cons_below;
  }

Opens-step :
    (x : Channel) (cs : List (Option Channel)) (o : Option ℕ) (c : Option Channel)
    → Opens cs (written cs o c) (chosen cs o) c
    → Opens
        (some x ∷ cs)
        (written (some x ∷ cs) (elim o [ none ↦ none | some i ↦ some (suc i) ]) c)
        (chosen (some x ∷ cs) (elim o [ none ↦ none | some i ↦ some (suc i) ]))
        c
Opens-step x cs none c h = Opens-cons x h
Opens-step x cs (some i) c h = Opens-cons x h

first_free-Opens :
    (cs : List (Option Channel)) (c : Option Channel)
    → Opens cs (written cs (first_free cs) c) (chosen cs (first_free cs)) c
unfolding first_free
first_free-Opens [] c = Opens-end c
first_free-Opens (none ∷ cs) c = Opens-front cs c
first_free-Opens (some x ∷ cs) c = Opens-step x cs (first_free cs) c (first_free-Opens cs c)

-- The same of the bus of two worlds.
record Opened (w w' : World) (i limit : ℕ) : Type 0 where
  vacant : channel_at w i ≡ none
  filled : channel_at w' i ≡ some (new_channel limit)
  others : (j : ℕ) → i ≢ j → channel_at w' j ≡ channel_at w j
  below : (j : ℕ) → j < i → channel_at w j ≢ none
  errno : w'.errno ≡ err_none
  ready : w'.ready ≡ w.ready

open_at-Opened :
    (w : World) (b : Bus) (limit : ℕ) (o : Option ℕ)
    → w.bus ≡ some b
    → Opens b.channels
        (written b.channels o (some (new_channel limit)))
        (chosen b.channels o)
        (some (new_channel limit))
    → Opened w (open_at w b.channels limit o).0 (open_at w b.channels limit o).1 limit
unfolding open_at
open_at-Opened w b limit none e h = record {
  vacant = ap (λ z. in_bus z (length b.channels)) e ∙ h.vacant;
  filled = h.filled;
  others = λ j ne. h.others j ne ∙ sym (ap (λ z. in_bus z j) e);
  below = λ j lt q. h.below j lt (sym (ap (λ z. in_bus z j) e) ∙ q);
  errno = refl;
  ready = refl;
}
open_at-Opened w b limit (some i) e h = record {
  vacant = ap (λ z. in_bus z i) e ∙ h.vacant;
  filled = h.filled;
  others = λ j ne. h.others j ne ∙ sym (ap (λ z. in_bus z j) e);
  below = λ j lt q. h.below j lt (sym (ap (λ z. in_bus z j) e) ∙ q);
  errno = refl;
  ready = refl;
}

open_in-Opened :
    (w : World) (o : Option Bus) (limit : ℕ) {w' : World} {i : ℕ}
    → w.bus ≡ o
    → open_in w o limit ≡ some (w', i)
    → Opened w w' i limit
unfolding open_in
open_in-Opened w none limit e q = cc
open_in-Opened w (some b) limit e q =
    subst (λ p. Opened w p.0 p.1 limit) (some-injective _ _ q)
      (open_at-Opened w b limit (first_free b.channels) e
        (first_free-Opens b.channels (some (new_channel limit))))

channel_open-Opened :
    (w w' : World) (limit i : ℕ)
    → coro_bus_channel_open w limit ≡ some (w', i)
    → Opened w w' i limit
unfolding coro_bus_channel_open
channel_open-Opened w w' limit i e = open_in-Opened w w.bus limit refl e

-- A descriptor that `coro_bus_channel_open` returns was free and has a new channel of the limit; the
-- channel of any other descriptor is the same as before; and any lower one was taken.
coro_bus_channel_open_lem :
    (w w' : World) (limit i j : ℕ)
    → coro_bus_channel_open w limit ≡ some (w', i)
    → (channel_at w i ≡ none)
      × (channel_at w' i ≡ some (new_channel limit))
      × ((i ≡ j) ⊎ (channel_at w' j ≡ channel_at w j))
      × ((i ≤ j) ⊎ (channel_at w j ≢ none))
coro_bus_channel_open_lem w w' limit i j e =
    let o = channel_open-Opened w w' limit i e in
    (
      o.vacant,
      o.filled,
      elim (ℕ_discrete i j) [ yes q ↦ inl q | no q ↦ inr (o.others j q) ],
      elim (Bool-cases (ltb j i)) [
        | inl q ↦ inr (o.below j (ground arith))
        | inr q ↦ inl (ground arith)
      ],
    )
