-- ===== src/Common/Lists.antt =====
-- Lists measured and cut by native numbers, under the library's names.
use Prim.Native.Nat.{ℕ, zero, suc, ◌+◌, ◌-◌, ◌≤◌, ◌<◌}
use mathlib.Core.Path.{◌≡◌, refl, sym, ap, subst}
use native.Mathlib.Decide.{ℕ_discrete}
use mathlib.Core.Logic.{◌≢◌}
use mathlib.Core.List.{List, [], ◌∷◌, ◌++◌}
use mathlib.Core.Bool.{Bool, true, false}
use mathlib.Core.Option.{Option, none, some}
use native.Mathlib.Omega.{arith}

abbrev pub Bytes : Type 0
Bytes = List ℕ

module _ {ℓ} {A : Type ℓ} where
  abbrev pub length : List A → ℕ
  length [] = 0
  length (x ∷ xs) = suc (length xs)

  abbrev pub is_empty : List A → Bool
  is_empty [] = true
  is_empty (x ∷ xs) = false

  abbrev pub drop : ℕ → List A → List A
  drop zero xs = xs
  drop (suc n) [] = []
  drop (suc n) (x ∷ xs) = drop n xs

  pub length-append : (xs ys : List A) → length (xs ++ ys) ≡ length xs + length ys
  length-append [] ys = omega arith
  length-append (x ∷ xs) ys = omega (arith, length-append xs ys)

  pub length-drop : (n : ℕ) (xs : List A) → length (drop n xs) ≡ length xs - n
  length-drop zero xs = omega arith
  length-drop (suc n) [] = omega arith
  length-drop (suc n) (x ∷ xs) = omega (arith, length-drop n xs)

  pub drop-append : (n : ℕ) (xs ys : List A) → n ≤ length xs → drop n (xs ++ ys) ≡ drop n xs ++ ys
  drop-append zero xs ys h = refl
  drop-append (suc n) [] ys h = absurd (omega arith)
  drop-append (suc n) (x ∷ xs) ys h = drop-append n xs ys (omega arith)

  pub drop-length_append : (xs ys : List A) → drop (length xs) (xs ++ ys) ≡ ys
  drop-length_append [] ys = refl
  drop-length_append (x ∷ xs) ys = drop-length_append xs ys

  pub drop-add_length : (xs ys : List A) (n : ℕ) → drop (length xs + n) (xs ++ ys) ≡ drop n ys
  drop-add_length [] ys n = let e : 0 + n ≡ n = omega arith in rw e
  drop-add_length (x ∷ xs) ys n =
      let e : suc (length xs) + n ≡ suc (length xs + n) = omega arith in
      rw e (drop-add_length xs ys n)

  pub is_empty-append : (xs : List A) (y : A) (ys : List A) → is_empty (xs ++ y ∷ ys) ≡ false
  is_empty-append [] y ys = refl
  is_empty-append (x ∷ xs) y ys = refl

  abbrev pub get_elem? : List A → ℕ → Option A
  get_elem? [] i = none
  get_elem? (x ∷ xs) zero = some x
  get_elem? (x ∷ xs) (suc i) = get_elem? xs i

  -- A write out of bounds changes nothing.
  abbrev pub set : List A → ℕ → A → List A
  set [] i v = []
  set (x ∷ xs) zero v = v ∷ xs
  set (x ∷ xs) (suc i) v = x ∷ set xs i v

  pub get_elem?-lt : (xs : List A) (i : ℕ) {x : A} → get_elem? xs i ≡ some x → i < length xs
  get_elem?-lt [] i h = cc
  get_elem?-lt (x ∷ xs) zero h = omega arith
  get_elem?-lt (x ∷ xs) (suc i) h = omega (arith, get_elem?-lt xs i h)

  pub length-set : (xs : List A) (i : ℕ) (y : A) → length (set xs i y) ≡ length xs
  length-set [] i y = refl
  length-set (x ∷ xs) zero y = refl
  length-set (x ∷ xs) (suc i) y = ap suc (length-set xs i y)

  -- What a write changes.
  pub get_elem?-set_self :
      (xs : List A) (i : ℕ) {x : A} (y : A)
      → get_elem? xs i ≡ some x
      → get_elem? (set xs i y) i ≡ some y
  get_elem?-set_self [] i y h = cc
  get_elem?-set_self (z ∷ xs) zero y h = refl
  get_elem?-set_self (z ∷ xs) (suc i) y h = get_elem?-set_self xs i y h

  pub get_elem?-set_ne :
      (xs : List A) (i j : ℕ) (y : A) → i ≢ j → get_elem? (set xs i y) j ≡ get_elem? xs j
  get_elem?-set_ne [] i j y h = refl
  get_elem?-set_ne (z ∷ xs) zero zero y h = absurd (h refl)
  get_elem?-set_ne (z ∷ xs) zero (suc j) y h = refl
  get_elem?-set_ne (z ∷ xs) (suc i) zero y h = refl
  get_elem?-set_ne (z ∷ xs) (suc i) (suc j) y h = get_elem?-set_ne xs i j y (λ e. h (ap suc e))

  -- What holds of each place after a write.
  pub get_elem?-set_all {κ} :
      (P : ℕ → Option A → Type κ) (xs : List A) (i : ℕ) {x : A} (y : A)
      → get_elem? xs i ≡ some x
      → P i (some y)
      → ((j : ℕ) → i ≢ j → P j (get_elem? xs j))
      → (j : ℕ) → P j (get_elem? (set xs i y) j)
  get_elem?-set_all P xs i y h here others j = elim (ℕ_discrete i j) [
    | yes e ↦
        subst (λ k. P k (get_elem? (set xs i y) k)) e
          (subst (P i) (sym (get_elem?-set_self xs i y h)) here)
    | no ne ↦ subst (P j) (sym (get_elem?-set_ne xs i j y ne)) (others j ne)
  ]

  pub get_elem?-length : (xs : List A) → get_elem? xs (length xs) ≡ none
  get_elem?-length [] = refl
  get_elem?-length (x ∷ xs) = get_elem?-length xs

  pub get_elem?-append_self : (xs : List A) (y : A) → get_elem? (xs ++ y ∷ []) (length xs) ≡ some y
  get_elem?-append_self [] y = refl
  get_elem?-append_self (x ∷ xs) y = get_elem?-append_self xs y

  pub get_elem?-append_ne :
      (xs : List A) (y : A) (j : ℕ) → length xs ≢ j → get_elem? (xs ++ y ∷ []) j ≡ get_elem? xs j
  get_elem?-append_ne [] y zero ne = absurd (ne refl)
  get_elem?-append_ne [] y (suc j) ne = refl
  get_elem?-append_ne (x ∷ xs) y zero ne = refl
  get_elem?-append_ne (x ∷ xs) y (suc j) ne = get_elem?-append_ne xs y j (λ q. ne (ap suc q))

  -- What holds of each place after one is added.
  pub get_elem?-append_all {κ} :
      (P : ℕ → Option A → Type κ) (xs : List A) (y : A)
      → P (length xs) (some y)
      → ((j : ℕ) → length xs ≢ j → P j (get_elem? xs j))
      → (j : ℕ) → P j (get_elem? (xs ++ y ∷ []) j)
  get_elem?-append_all P xs y last others j = elim (ℕ_discrete (length xs) j) [
    | yes s ↦
        subst (λ i. P i (get_elem? (xs ++ y ∷ []) i)) s
          (subst (P (length xs)) (sym (get_elem?-append_self xs y)) last)
    | no ne ↦ subst (P j) (sym (get_elem?-append_ne xs y j ne)) (others j ne)
  ]

  -- The sum of a weight over a list.
  abbrev pub total : (A → ℕ) → List A → ℕ
  total f [] = 0
  total f (x ∷ xs) = f x + total f xs

  pub total-append : (f : A → ℕ) (xs ys : List A) → total f (xs ++ ys) ≡ total f xs + total f ys
  total-append f [] ys = omega arith
  total-append f (x ∷ xs) ys = omega (arith, total-append f xs ys)

  pub total-set :
      (f : A → ℕ) (xs : List A) (i : ℕ) {x : A} (y : A)
      → get_elem? xs i ≡ some x
      → total f (set xs i y) + f x ≡ total f xs + f y
  total-set f [] i y h = cc
  total-set f (z ∷ xs) zero {x} y h = let same : z ≡ x = cc in omega (arith, ap f same)
  total-set f (z ∷ xs) (suc i) y h = omega (arith, total-set f xs i y h)

  pub total-le :
      (f : A → ℕ) (xs : List A) (i : ℕ) {x : A} → get_elem? xs i ≡ some x → f x ≤ total f xs
  total-le f [] i h = cc
  total-le f (z ∷ xs) zero {x} h = let same : z ≡ x = cc in omega (arith, ap f same)
  total-le f (z ∷ xs) (suc i) h = omega (arith, total-le f xs i h)
