-- ===== src/HeapHelp/Maps.antt =====
-- The map of the allocations, with the sizes of its objects and with the objects that it uses.
use mathlib.Core.Path.{subst}
use system_prog.Common.{
  ℕ, suc, ◌+◌, ◌≡◌, ◌≢◌, ◌∙◌, refl, ap, Bool, true, false, Option, none, some, List, [], ◌∷◌, ◌++◌,
  ◌==◌, ltb, if◌then◌else◌, if_both, length, get_elem?, get_elem?-set_ne, get_elem?-append_ne, set,
  arith,
}
use system_prog.HeapHelp.Ending.{size_at}
use system_prog.HeapHelp.{Allocation, cons_to, emplace, find, erase}

-- The same map to the sizes of the objects.
abbrev pub entries : List Allocation → List (ℕ × ℕ) → List (ℕ × ℕ)
entries allocs [] = []
entries allocs ((p, a) ∷ m) = (p, size_at (get_elem? allocs a)) ∷ entries allocs m

-- How often the map uses an object.
abbrev pub uses : ℕ → List (ℕ × ℕ) → ℕ
uses a [] = 0
uses a ((p, b) ∷ m) = (if b == a then 1 else 0) + uses a m

uses_self : (a b : ℕ) → a ≡ b → uses a ((0, b) ∷ []) ≡ 1
uses_self a b s = ground arith

abbrev pub entries_in : List Allocation → Option (List (ℕ × ℕ)) → Option (List (ℕ × ℕ))
entries_in allocs none = none
entries_in allocs (some m) = some (entries allocs m)

abbrev pub size_in : List Allocation → Option ℕ → Option ℕ
size_in allocs none = none
size_in allocs (some a) = some (size_at (get_elem? allocs a))

module _ (allocs : List Allocation) where
  cons_entries :
      (q b : ℕ) (o : Option (List (ℕ × ℕ)))
      → cons_to (q, size_at (get_elem? allocs b)) (entries_in allocs o)
        ≡ entries_in allocs (cons_to (q, b) o)
  cons_entries q b none = refl
  cons_entries q b (some m) = refl

  -- A choice commutes with what is made of it.
  push_if {ℓ κ} :
      {A : Type ℓ} {B : Type κ} (f : A → B) (b : Bool) (x y : A)
      → (if b then f x else f y) ≡ f (if b then x else y)
  push_if f true x y = refl
  push_if f false x y = refl

  pub entries-emplace :
      (p a : ℕ) (m : List (ℕ × ℕ))
      → emplace p (size_at (get_elem? allocs a)) (entries allocs m)
        ≡ entries_in allocs (emplace p a m)
  unfolding emplace
  entries-emplace p a [] = refl
  entries-emplace p a ((q, b) ∷ m) =
      ap
        (λ r.
          if p == q
          then none
          else if ltb p q
          then some ((p, size_at (get_elem? allocs a)) ∷ entries allocs ((q, b) ∷ m))
          else cons_to (q, size_at (get_elem? allocs b)) r)
        (entries-emplace p a m)
      ∙ ap
          (λ r.
            if p == q
            then none
            else if ltb p q
            then some ((p, size_at (get_elem? allocs a)) ∷ entries allocs ((q, b) ∷ m))
            else r)
          (cons_entries q b (emplace p a m))
      ∙ ap (λ r. if p == q then none else r)
          (push_if (entries_in allocs) (ltb p q) (some ((p, a) ∷ (q, b) ∷ m))
            (cons_to (q, b) (emplace p a m)))
      ∙ push_if (entries_in allocs) (p == q) none _

  pub entries-find :
      (p : ℕ) (m : List (ℕ × ℕ)) → find p (entries allocs m) ≡ size_in allocs (find p m)
  unfolding find
  entries-find p [] = refl
  entries-find p ((q, b) ∷ m) =
      ap (λ r. if p == q then some (size_at (get_elem? allocs b)) else r) (entries-find p m)
      ∙ push_if (size_in allocs) (p == q) (some b) (find p m)

  pub entries-erase :
      (p : ℕ) (m : List (ℕ × ℕ)) → erase p (entries allocs m) ≡ entries allocs (erase p m)
  unfolding erase
  entries-erase p [] = refl
  entries-erase p ((q, b) ∷ m) =
      ap (λ r. if p == q then entries allocs m else (q, size_at (get_elem? allocs b)) ∷ r)
        (entries-erase p m)
      ∙ push_if (entries allocs) (p == q) m ((q, b) ∷ erase p m)

  pub length-entries : (m : List (ℕ × ℕ)) → length (entries allocs m) ≡ length m
  length-entries [] = refl
  length-entries ((q, b) ∷ m) = ap suc (length-entries m)

  -- Objects that the map does not use may change.
  pub entries-set :
      (a : ℕ) (y : Allocation) (m : List (ℕ × ℕ))
      → uses a m ≡ 0
      → entries (set allocs a y) m ≡ entries allocs m
  entries-set a y [] h = refl
  entries-set a y ((q, b) ∷ m) h =
      let ne : a ≢ b = λ s. absurd (omega (arith, h, uses_self a b s)) in
      ap (λ o. (q, size_at o) ∷ entries (set allocs a y) m) (get_elem?-set_ne allocs a b y ne)
      ∙ ap (λ r. (q, size_at (get_elem? allocs b)) ∷ r) (entries-set a y m (omega (arith, h)))

  pub entries-append :
      (y : Allocation) (m : List (ℕ × ℕ))
      → uses (length allocs) m ≡ 0
      → entries (allocs ++ y ∷ []) m ≡ entries allocs m
  entries-append y [] h = refl
  entries-append y ((q, b) ∷ m) h =
      let ne : length allocs ≢ b = λ s. absurd (omega (arith, h, uses_self (length allocs) b s)) in
      ap (λ o. (q, size_at o) ∷ entries (allocs ++ y ∷ []) m) (get_elem?-append_ne allocs y b ne)
      ∙ ap (λ r. (q, size_at (get_elem? allocs b)) ∷ r) (entries-append y m (omega (arith, h)))

-- What one more entry uses.
abbrev Emplaced : ℕ → List (ℕ × ℕ) → Option (List (ℕ × ℕ)) → Type 0
Emplaced a m none = Unit
Emplaced a m (some m') =
    ((x : ℕ) → uses x m' ≡ (if a == x then 1 else 0) + uses x m) × (length m' ≡ suc (length m))

cons-Emplaced :
    (a q b : ℕ) (m : List (ℕ × ℕ)) (o : Option (List (ℕ × ℕ)))
    → Emplaced a m o
    → Emplaced a ((q, b) ∷ m) (cons_to (q, b) o)
cons-Emplaced a q b m none h = tt
cons-Emplaced a q b m (some m') (u, l) = (λ x. omega (arith, u x), ap suc l)

emplace-Emplaced : (p a : ℕ) (m : List (ℕ × ℕ)) → Emplaced a m (emplace p a m)
unfolding emplace
emplace-Emplaced p a [] = (λ x. refl, refl)
emplace-Emplaced p a ((q, b) ∷ m) = if_both (Emplaced a ((q, b) ∷ m)) (p == q) none _ tt (
    if_both (Emplaced a ((q, b) ∷ m)) (ltb p q) _ _ (λ x. refl, refl)
      (cons-Emplaced a q b m (emplace p a m) (emplace-Emplaced p a m)))

pub emplace_lem :
    (p a : ℕ) (m m' : List (ℕ × ℕ))
    → emplace p a m ≡ some m'
    → ((x : ℕ) → uses x m' ≡ (if a == x then 1 else 0) + uses x m) × (length m' ≡ suc (length m))
emplace_lem p a m m' e = subst (Emplaced a m) e (emplace-Emplaced p a m)

-- What is left without one entry.
abbrev Erased : List (ℕ × ℕ) → List (ℕ × ℕ) → Option ℕ → Type 0
Erased m m' none = Unit
Erased m m' (some a) =
    ((x : ℕ) → (if a == x then 1 else 0) + uses x m' ≡ uses x m) × (suc (length m') ≡ length m)

cons-Erased :
    (q b : ℕ) (m m' : List (ℕ × ℕ)) (o : Option ℕ)
    → Erased m m' o
    → Erased ((q, b) ∷ m) ((q, b) ∷ m') o
cons-Erased q b m m' none h = tt
cons-Erased q b m m' (some a) (u, l) = (λ x. omega (arith, u x), ap suc l)

if-Erased :
    (t : Bool) (q b : ℕ) (m m' : List (ℕ × ℕ)) (o : Option ℕ)
    → Erased m m' o
    → Erased ((q, b) ∷ m) (if t then m else (q, b) ∷ m') (if t then some b else o)
if-Erased true q b m m' o h = (λ x. refl, refl)
if-Erased false q b m m' o h = cons-Erased q b m m' o h

erase-Erased : (p : ℕ) (m : List (ℕ × ℕ)) → Erased m (erase p m) (find p m)
unfolding find erase
erase-Erased p [] = tt
erase-Erased p ((q, b) ∷ m) = if-Erased (p == q) q b m (erase p m) (find p m) (erase-Erased p m)

pub erase_lem :
    (p a : ℕ) (m : List (ℕ × ℕ))
    → find p m ≡ some a
    → ((x : ℕ) → (if a == x then 1 else 0) + uses x (erase p m) ≡ uses x m)
      × (suc (length (erase p m)) ≡ length m)
erase_lem p a m e = subst (Erased m (erase p m)) e (erase-Erased p m)
