-- ===== src/Chat/Link/Stream.antt =====
-- What a flush and an addition to the output do to the bytes that the other side gets.
use system_prog.Common.{
  ℕ, zero, suc, ◌+◌, ◌≤◌, ◌≡◌, ◌∙◌, refl, sym, ap, Bool, true, false, List, [], ◌∷◌, ◌++◌,
  append_assoc, ltb, ◌==◌, ==_iff, length, drop, length-drop, length-append, if_both, if_false,
  drop-append, Bytes, arith, Bool-cases, inl, inr,
}
use system_prog.Chat.Link.{
  Link, SendAnswer, takes, interrupted, would_block, broken, take, unsent, send, round, flush_loop,
  cleared, flush, append_output, stream,
}

-- No more is sent than there is.
pub record InRange (l : Link) : Type 0 where
  pub within : l.output_sent ≤ length l.output_buffer

-- The system goes on to take bytes.
abbrev pub Healthy : List SendAnswer → Type 0
Healthy [] = Unit
Healthy (takes n ∷ answers) = Healthy answers
Healthy (interrupted ∷ answers) = Healthy answers
Healthy (would_block ∷ answers) = Healthy answers
Healthy (broken ∷ answers) = ⊥

drop-add : (m n : ℕ) (xs : Bytes) → drop (m + n) xs ≡ drop n (drop m xs)
drop-add zero n xs = let e : 0 + n ≡ n = omega arith in rw e
drop-add (suc m) zero [] = let e : suc m + 0 ≡ suc m = omega arith in rw e
drop-add (suc m) (suc n) [] = let e : suc m + suc n ≡ suc (m + suc n) = omega arith in rw e
drop-add (suc m) n (x ∷ xs) =
    let e : suc m + n ≡ suc (m + n) = omega arith in rw e (drop-add m n xs)

take-drop : (n : ℕ) (xs : Bytes) → take n xs ++ drop (length (take n xs)) xs ≡ xs
take-drop zero xs = refl
take-drop (suc n) [] = refl
take-drop (suc n) (x ∷ xs) = ap (λ r. x ∷ r) (take-drop n xs)

length-take-le : (n : ℕ) (xs : Bytes) → length (take n xs) ≤ length xs
length-take-le zero xs = omega arith
length-take-le (suc n) [] = omega arith
length-take-le (suc n) (x ∷ xs) = omega (arith, length-take-le n xs)

drop-length : (xs : Bytes) → drop (length xs) xs ≡ []
drop-length [] = refl
drop-length (x ∷ xs) = drop-length xs

send-stream : (l : Link) (n : ℕ) → stream (send l n) ≡ stream l
send-stream l n =
    let t = take (suc n) (unsent l) in
    append_assoc l.taken t (drop (l.output_sent + length t) l.output_buffer)
    ∙ ap (λ r. l.taken ++ r)
        (ap (λ r. t ++ r) (drop-add l.output_sent (length t) l.output_buffer)
          ∙ take-drop (suc n) (unsent l))

send-InRange : (l : Link) (n : ℕ) → InRange l → InRange (send l n)
send-InRange l n h = record {
  within = omega (
    arith,
    h.within,
    length-take-le (suc n) (unsent l),
    length-drop l.output_sent l.output_buffer,
  );
}

round-stream :
    (b : Bool) (answer : SendAnswer) (answers : List SendAnswer) (l : Link)
    (more : Link → Link × List SendAnswer)
    → ((l' : Link) → stream (more l').0 ≡ stream l')
    → stream (round b answer answers l more).0 ≡ stream l
round-stream false answer answers l more h = refl
round-stream true (takes n) answers l more h = h (send l n) ∙ send-stream l n
round-stream true interrupted answers l more h = h l
round-stream true would_block answers l more h = refl
round-stream true broken answers l more h = refl

flush_loop-stream :
    (answers : List SendAnswer) (l : Link) → stream (flush_loop answers l).0 ≡ stream l
unfolding flush_loop
flush_loop-stream [] l = refl
flush_loop-stream (answer ∷ answers) l =
    round-stream (ltb l.output_sent (length l.output_buffer)) answer answers l (flush_loop answers)
      (flush_loop-stream answers)

-- The link is in range, stays open, and the answers that are left are fine.
pub record Fine (l : Link) (r : Link × List SendAnswer) : Type 0 where
  pub range : InRange r.0
  pub open_still : r.0.connected ≡ l.connected
  pub answers : Healthy r.1

round-Fine :
    (b : Bool) (answer : SendAnswer) (answers : List SendAnswer) (l : Link)
    (more : Link → Link × List SendAnswer)
    → InRange l
    → Healthy (answer ∷ answers)
    → ((l' : Link) → InRange l' → Healthy answers → Fine l' (more l'))
    → Fine l (round b answer answers l more)
round-Fine false answer answers l more r h k = record { range = r; open_still = refl; answers = h }
round-Fine true (takes n) answers l more r h k =
    let f = k (send l n) (send-InRange l n r) h in
    record { range = f.range; open_still = f.open_still; answers = f.answers }
round-Fine true interrupted answers l more r h k = k l r h
round-Fine true would_block answers l more r h k = record {
  range = r;
  open_still = refl;
  answers = h;
}
round-Fine true broken answers l more r h k = absurd h

flush_loop-Fine :
    (answers : List SendAnswer) (l : Link)
    → InRange l
    → Healthy answers
    → Fine l (flush_loop answers l)
unfolding flush_loop
flush_loop-Fine [] l r h = record { range = r; open_still = refl; answers = tt }
flush_loop-Fine (answer ∷ answers) l r h =
    round-Fine (ltb l.output_sent (length l.output_buffer)) answer answers l (flush_loop answers) r
      h (flush_loop-Fine answers)

cleared-stream : (l : Link) → stream (cleared l) ≡ stream l
cleared-stream l = elim (Bool-cases (l.output_sent == length l.output_buffer)) [
  | inl e ↦
      let all : l.output_sent ≡ length l.output_buffer = (==_iff _ _).0 e in
      rw e (
        sym (
          ap (λ r. l.taken ++ r)
            (ap (λ n. drop n l.output_buffer) all ∙ drop-length l.output_buffer)))
  | inr e ↦ rw e refl
]

cleared-InRange : (l : Link) → InRange l → InRange (cleared l)
cleared-InRange l h = elim (Bool-cases (l.output_sent == length l.output_buffer)) [
  | inl e ↦ rw e (record { within = omega arith })
  | inr e ↦ rw e h
]

cleared-connected : (l : Link) → (cleared l).connected ≡ l.connected
cleared-connected l = ground arith

-- A flush changes nothing of what the socket has taken with what is left to send behind it.
pub stream-flush : (answers : List SendAnswer) (l : Link) → stream (flush answers l).0 ≡ stream l
unfolding flush
stream-flush answers l =
    if_both (λ (r : Link × List SendAnswer). stream r.0 ≡ stream l) l.connected _ _
      (cleared-stream (flush_loop answers l).0 ∙ flush_loop-stream answers l) refl

pub flush-Fine :
    (answers : List SendAnswer) (l : Link) → InRange l → Healthy answers → Fine l (flush answers l)
unfolding flush
flush-Fine answers l r h =
    let f = flush_loop-Fine answers l r h in
    if_both (Fine l) l.connected _ _
      (record {
        range = cleared-InRange (flush_loop answers l).0 f.range;
        open_still = cleared-connected (flush_loop answers l).0 ∙ f.open_still;
        answers = f.answers;
      })
      (record { range = r; open_still = refl; answers = h })

round-InRange :
    (b : Bool) (answer : SendAnswer) (answers : List SendAnswer) (l : Link)
    (more : Link → Link × List SendAnswer)
    → InRange l
    → ((l' : Link) → InRange l' → InRange (more l').0)
    → InRange (round b answer answers l more).0
round-InRange false answer answers l more r k = r
round-InRange true (takes n) answers l more r k = k (send l n) (send-InRange l n r)
round-InRange true interrupted answers l more r k = k l r
round-InRange true would_block answers l more r k = r
round-InRange true broken answers l more r k = record { within = r.within }

flush_loop-InRange :
    (answers : List SendAnswer) (l : Link) → InRange l → InRange (flush_loop answers l).0
unfolding flush_loop
flush_loop-InRange [] l r = r
flush_loop-InRange (answer ∷ answers) l r =
    round-InRange (ltb l.output_sent (length l.output_buffer)) answer answers l (flush_loop answers)
      r (flush_loop-InRange answers)

pub flush-InRange : (answers : List SendAnswer) (l : Link) → InRange l → InRange (flush answers l).0
unfolding flush
flush-InRange answers l r =
    if_both (λ (x : Link × List SendAnswer). InRange x.0) l.connected _ _
      (cleared-InRange (flush_loop answers l).0 (flush_loop-InRange answers l r)) r

pub flush-closed :
    (answers : List SendAnswer) (l : Link)
    → l.connected ≡ false
    → (flush answers l).0.connected ≡ false
unfolding flush
flush-closed answers l h = ap (λ (x : Link × List SendAnswer). x.0.connected) (if_false _ _ h) ∙ h

pub stream-append :
    (l : Link) (bytes : Bytes) → InRange l → stream (append_output l bytes) ≡ stream l ++ bytes
stream-append l bytes h =
    ap (λ r. l.taken ++ r) (drop-append l.output_sent l.output_buffer bytes h.within)
    ∙ sym (append_assoc l.taken (unsent l) bytes)

pub append-InRange : (l : Link) (bytes : Bytes) → InRange l → InRange (append_output l bytes)
append-InRange l bytes h = record {
  within = omega (arith, h.within, length-append l.output_buffer bytes);
}

-- Where no more was sent of a link than there was, then after a flush, whatever `send` answers, and
-- the addition of bytes to the output, what the socket has taken with what is left to send behind it
-- is what it was before, with these bytes behind: none is lost, repeated or out of order. What is
-- left to send on a link that broke stays left.
pub stream-append-flush :
    (answers : List SendAnswer) (l : Link) (bytes : Bytes)
    → InRange l
    → stream (append_output (flush answers l).0 bytes) ≡ stream l ++ bytes
stream-append-flush answers l bytes r =
    stream-append (flush answers l).0 bytes (flush-InRange answers l r)
    ∙ ap (λ s. s ++ bytes) (stream-flush answers l)
