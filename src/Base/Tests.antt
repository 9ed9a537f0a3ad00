-- ===== src/Base/Tests.antt =====
-- Boolean tests, the conditional, and equality as an interface (`==` of int and std::string).
use Prim.Native.Nat.{ℕ, compare, Ordering}
use mathlib.Core.Path.{◌≡◌, refl, sym, ◌∙◌, ap}
use mathlib.Core.Logic.{◌↔◌, ◌⊎◌, inl, inr}
use mathlib.Core.Bool.{Bool, true, false, ◌&&◌}
use mathlib.Core.Option.{Option, none, some}
use mathlib.Core.List.{List, [], ◌∷◌}
use native.Mathlib.Omega.{arith}

abbrev pub ltb : ℕ → ℕ → Bool
ltb a b = elim (compare a b) [ Ordering.lt ↦ true | _ ↦ false ]

abbrev pub leb : ℕ → ℕ → Bool
leb a b = elim (compare a b) [ Ordering.gt ↦ false | _ ↦ true ]

abbrev pub nat_beq : ℕ → ℕ → Bool
nat_beq a b = elim (compare a b) [ Ordering.eq ↦ true | _ ↦ false ]

infix 1 if◌then◌else◌
abbrev pub if◌then◌else◌ {ℓ} : {A : Type ℓ} → Bool → A → A → A
if true then x else y = x
if false then x else y = y

-- `it = m.find(k); if (it == m.end()) return d;`, and then the code that uses `it`.
unfoldable pub on_found {ℓ κ} : {A : Type ℓ} {B : Type κ} → Option A → B → (A → B) → B
on_found none d f = d
on_found (some a) d f = f a

pub Bool-cases : (b : Bool) → (b ≡ true) ⊎ (b ≡ false)
Bool-cases true = inl refl
Bool-cases false = inr refl

pub Option-cases {ℓ} : {A : Type ℓ} (o : Option A) → (o ≡ none) ⊎ ((a : A) × (o ≡ some a))
Option-cases none = inl refl
Option-cases (some a) = inr (a, refl)

-- A key type of std::map and std::set: its equality, and the order that an insertion follows.
pub record Key {ℓ} (A : Type ℓ) : Type ℓ where
  pub beq : A → A → Bool
  pub beq_iff : (a b : A) → (beq a b ≡ true) ↔ (a ≡ b)
  pub before : A → A → Bool

infix 50 ◌==◌
abbrev pub ◌==◌ {ℓ} : {A : Type ℓ} ⦃e : Key A⦄ → A → A → Bool
◌==◌ ⦃e⦄ = e.beq

pub nat_beq_iff : (a b : ℕ) → (nat_beq a b ≡ true) ↔ (a ≡ b)
nat_beq_iff a b = ground arith

instance abbrev pub nat_key : Key ℕ
nat_key = record { beq = nat_beq; beq_iff = nat_beq_iff; before = ltb }

-- std::string's `==` and `<`, over its bytes.
unfoldable pub same_bytes : List ℕ → List ℕ → Bool
same_bytes [] [] = true
same_bytes [] (y ∷ ys) = false
same_bytes (x ∷ xs) [] = false
same_bytes (x ∷ xs) (y ∷ ys) = nat_beq x y && same_bytes xs ys

unfoldable pub bytes_before : List ℕ → List ℕ → Bool
bytes_before xs [] = false
bytes_before [] (y ∷ ys) = true
bytes_before (x ∷ xs) (y ∷ ys) =
    let rest = bytes_before xs ys in if nat_beq x y then rest else ltb x y

same_bytes_sound : (xs ys : List ℕ) → same_bytes xs ys ≡ true → xs ≡ ys
unfolding same_bytes
same_bytes_sound [] [] h = refl
same_bytes_sound [] (y ∷ ys) h = cc
same_bytes_sound (x ∷ xs) [] h = cc
same_bytes_sound (x ∷ xs) (y ∷ ys) h = ground (arith, same_bytes_sound xs ys)

same_bytes_self : (xs : List ℕ) → same_bytes xs xs ≡ true
unfolding same_bytes
same_bytes_self [] = refl
same_bytes_self (x ∷ xs) = ground (arith, same_bytes_self xs)

pub same_bytes_iff : (xs ys : List ℕ) → (same_bytes xs ys ≡ true) ↔ (xs ≡ ys)
same_bytes_iff xs ys =
    (same_bytes_sound xs ys, λ e. ap (same_bytes xs) (sym e) ∙ same_bytes_self xs)

instance abbrev pub bytes_key : Key (List ℕ)
bytes_key = record { beq = same_bytes; beq_iff = same_bytes_iff; before = bytes_before }
