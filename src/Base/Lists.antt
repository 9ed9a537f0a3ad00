-- ===== src/Base/Lists.antt =====
-- Lists measured by native numbers, and std::vector's find and erase.
use Prim.Native.Nat.{ℕ, zero, suc, ◌+◌}
use mathlib.Core.Path.{◌≡◌, refl}
use mathlib.Core.Bool.{Bool, true, false, ◌||◌}
use mathlib.Core.List.{List, [], ◌∷◌, ◌++◌}
use mathlib.Core.Option.{Option, none, some}
use native.Mathlib.Omega.{arith}
use internet_relay_chat_msn.Base.Tests.{Key, ◌==◌, Bool-cases, if◌then◌else◌}

module _ {ℓ} {A : Type ℓ} where
  abbrev pub length : List A → ℕ
  length [] = 0
  length (x ∷ xs) = suc (length xs)

  abbrev pub is_empty : List A → Bool
  is_empty [] = true
  is_empty (x ∷ xs) = false

  abbrev pub get_elem? : List A → ℕ → Option A
  get_elem? [] i = none
  get_elem? (x ∷ xs) zero = some x
  get_elem? (x ∷ xs) (suc i) = get_elem? xs i

  abbrev pub take : ℕ → List A → List A
  take zero xs = []
  take (suc n) [] = []
  take (suc n) (x ∷ xs) = x ∷ take n xs

  abbrev pub drop : ℕ → List A → List A
  drop zero xs = xs
  drop (suc n) [] = []
  drop (suc n) (x ∷ xs) = drop n xs

  pub length-append : (xs ys : List A) → length (xs ++ ys) ≡ length xs + length ys
  length-append [] ys = omega arith
  length-append (x ∷ xs) ys = omega (arith, length-append xs ys)

module _ {ℓ} {A : Type ℓ} ⦃e : Key A⦄ where
  unfoldable pub contains : List A → A → Bool
  contains [] a = false
  contains (x ∷ xs) a = x == a || contains xs a

  -- std::find, then vector::erase: the first occurrence goes.
  unfoldable pub erase_first : A → List A → List A
  erase_first a [] = []
  erase_first a (x ∷ xs) = if x == a then xs else x ∷ erase_first a xs

-- No element occurs twice.
abbrev pub Distinct {ℓ} : {A : Type ℓ} ⦃e : Key A⦄ → List A → Type 0
Distinct [] = Unit
Distinct (x ∷ xs) = (contains xs x ≡ false) × Distinct xs

module _ {ℓ} {A : Type ℓ} ⦃e : Key A⦄ where
  pub contains-push_back :
      (xs : List A) (a b : A) → contains (xs ++ a ∷ []) b ≡ (contains xs b || a == b)
  unfolding contains
  contains-push_back [] a b = ground arith
  contains-push_back (x ∷ xs) a b = ground (arith, contains-push_back xs a b)

  pub Distinct-push_back :
      (xs : List A) (a : A) → Distinct xs → contains xs a ≡ false → Distinct (xs ++ a ∷ [])
  unfolding contains
  Distinct-push_back [] a d h = (refl, tt)
  Distinct-push_back (x ∷ xs) a d h =
      ground
        (arith, contains-push_back xs a x, Distinct-push_back xs a, e.beq_iff a x, e.beq_iff x a)

  pub contains-erase_first_ne :
      (xs : List A) (a b : A) → (a == b) ≡ false → contains (erase_first a xs) b ≡ contains xs b
  unfolding contains erase_first
  contains-erase_first_ne [] a b h = refl
  contains-erase_first_ne (x ∷ xs) a b h =
      ground (arith, contains-erase_first_ne xs a b h, e.beq_iff x a, e.beq_iff x b, e.beq_iff a b)

  pub contains-erase_first :
      (xs : List A) (a b : A) → contains (erase_first a xs) b ≡ true → contains xs b ≡ true
  unfolding contains erase_first
  contains-erase_first [] a b h = h
  contains-erase_first (x ∷ xs) a b h = ground (arith, contains-erase_first xs a b)

  pub contains-erase_first_self :
      (xs : List A) (a : A) → Distinct xs → contains (erase_first a xs) a ≡ false
  unfolding contains erase_first
  contains-erase_first_self [] a d = refl
  contains-erase_first_self (x ∷ xs) a d =
      ground (arith, contains-erase_first_self xs a d.1, e.beq_iff x a)

  pub Distinct-erase_first : (xs : List A) (a : A) → Distinct xs → Distinct (erase_first a xs)
  unfolding contains erase_first
  Distinct-erase_first [] a d = d
  Distinct-erase_first (x ∷ xs) a d = ground (
    arith,
    contains-erase_first xs a x,
    Distinct-erase_first xs a d.1,
    Bool-cases (contains (erase_first a xs) x),
  )
