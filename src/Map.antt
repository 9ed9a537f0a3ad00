-- ===== src/Map.antt =====
-- std::map as the list of its entries in iteration order; a std::set is the list of its elements.
pub mod Keys
use internet_relay_chat_msn.Base.{
  ◌≡◌, refl, not, ◌&&◌, ◌||◌, Option, none, some, List, [], ◌∷◌, arith, Key, ◌==◌, contains,
  if◌then◌else◌, Option-cases, inl, inr,
}

abbrev pub Map {ℓ κ} : Type ℓ → Type κ → Type (ℓ ⊔ κ)
Map K V = List (K × V)

-- The value under a key, or another where the key is absent.
abbrev pub value_or {ℓ} : {V : Type ℓ} → Option V → V → V
value_or none v = v
value_or (some w) v = w

abbrev pub map_value {ℓ} : {V : Type ℓ} → (V → V) → Option V → Option V
map_value f none = none
map_value f (some w) = some (f w)

module _ {ℓ κ} {K : Type ℓ} {V : Type κ} ⦃e : Key K⦄ where
  unfoldable pub find : K → Map K V → Option V
  find k [] = none
  find k ((j, v) ∷ m) = if j == k then some v else find k m

  -- The place of a new entry: before the first key that follows its own.
  unfoldable pub place : K → V → Map K V → Map K V
  place k v [] = (k, v) ∷ []
  place k v ((j, w) ∷ m) = if e.before k j then (k, v) ∷ (j, w) ∷ m else (j, w) ∷ place k v m

  -- map::insert: an entry that is there stays as it is.
  unfoldable pub insert : K → V → Map K V → Map K V
  insert k v m = elim (find k m) [ none ↦ place k v m | some w ↦ m ]

  -- A write through an iterator or a reference: nothing happens if there is no such entry.
  unfoldable pub modify : K → (V → V) → Map K V → Map K V
  modify k f [] = []
  modify k f ((j, w) ∷ m) = if j == k then (j, f w) ∷ m else (j, w) ∷ modify k f m

  unfoldable pub erase : K → Map K V → Map K V
  erase k [] = []
  erase k ((j, w) ∷ m) = let rest = erase k m in if j == k then rest else (j, w) ∷ rest

  find-place :
      (k j : K) (v : V) (m : Map K V)
      → find k m ≡ none
      → find j (place k v m) ≡ (if k == j then some v else find j m)
  unfolding find place
  find-place k j v [] h = refl
  find-place k j v ((i, w) ∷ m) h =
      ground (arith, e.beq_iff k j, e.beq_iff i k, e.beq_iff i j, find-place k j v m)

  pub insert-found : (k : K) (v w : V) (m : Map K V) → find k m ≡ some w → insert k v m ≡ m
  unfolding insert
  insert-found k v w m h = rw (h, insert) refl

  pub find-insert :
      (k j : K) (v : V) (m : Map K V)
      → find j (insert k v m) ≡ (if k == j then some (value_or (find k m) v) else find j m)
  unfolding insert
  find-insert k j v m = elim (Option-cases (find k m)) [
    | inl absent ↦ rw (absent, insert) (find-place k j v m absent)
    | inr (w, there) ↦ rw (there, insert) (ground (arith, e.beq_iff k j, there))
  ]

  pub find-modify :
      (k j : K) (f : V → V) (m : Map K V)
      → find j (modify k f m) ≡ (if k == j then map_value f (find j m) else find j m)
  unfolding find modify
  find-modify k j f [] = ground arith
  find-modify k j f ((i, w) ∷ m) =
      ground (arith, e.beq_iff k j, e.beq_iff i k, e.beq_iff i j, find-modify k j f m)

  pub find-erase :
      (k j : K) (m : Map K V) → find j (erase k m) ≡ (if k == j then none else find j m)
  unfolding find erase
  find-erase k j [] = ground arith
  find-erase k j ((i, w) ∷ m) =
      ground (arith, e.beq_iff k j, e.beq_iff i k, e.beq_iff i j, find-erase k j m)

module _ {ℓ} {K : Type ℓ} ⦃e : Key K⦄ where
  unfoldable pub set_insert : K → List K → List K
  set_insert k [] = k ∷ []
  set_insert k (j ∷ m) =
      let rest = set_insert k m in
      if j == k then j ∷ m else if e.before k j then k ∷ j ∷ m else j ∷ rest

  unfoldable pub set_erase : K → List K → List K
  set_erase k [] = []
  set_erase k (j ∷ m) = let rest = set_erase k m in if j == k then rest else j ∷ rest

  pub contains-set_insert :
      (k j : K) (m : List K) → contains (set_insert k m) j ≡ (k == j || contains m j)
  unfolding contains set_insert
  contains-set_insert k j [] = refl
  contains-set_insert k j (i ∷ m) =
      ground (arith, e.beq_iff k j, e.beq_iff i k, e.beq_iff i j, contains-set_insert k j m)

  pub contains-set_erase :
      (k j : K) (m : List K) → contains (set_erase k m) j ≡ (not (k == j) && contains m j)
  unfolding contains set_erase
  contains-set_erase k j [] = ground arith
  contains-set_erase k j (i ∷ m) =
      ground (arith, e.beq_iff k j, e.beq_iff i k, e.beq_iff i j, contains-set_erase k j m)
