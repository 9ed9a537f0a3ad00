-- ===== src/Map/Keys.antt =====
-- The keys of a map: std::map has each of them once.
use internet_relay_chat_msn.Base.{
  Key, ◌≡◌, refl, true, false, List, [], ◌∷◌, arith, Option, Distinct, contains, Bool-cases, Bool,
  Option-cases, ◌==◌, not, some, ◌||◌, inl, ◌&&◌, none, ◌∙◌, inr, ap,
}
use internet_relay_chat_msn.Map.{Map, modify, erase, insert, find, place}

abbrev pub is_some {ℓ} : {A : Type ℓ} → Option A → Bool
is_some none = false
is_some (some v) = true

module _ {ℓ κ} {K : Type ℓ} {V : Type κ} ⦃e : Key K⦄ where
  abbrev pub keys : Map K V → List K
  keys [] = []
  keys ((k, v) ∷ m) = k ∷ keys m

  pub contains-keys : (k : K) (m : Map K V) → contains (keys m) k ≡ is_some (find k m)
  unfolding contains find
  contains-keys k [] = refl
  contains-keys k ((j, v) ∷ m) = elim (Bool-cases (j == k)) [
    | inl hit ↦ rw hit refl
    | inr miss ↦ rw miss (contains-keys k m)
  ]

  pub keys-modify : (k : K) (f : V → V) (m : Map K V) → keys (modify k f m) ≡ keys m
  unfolding modify
  keys-modify k f [] = refl
  keys-modify k f ((j, v) ∷ m) = elim (Bool-cases (j == k)) [
    | inl hit ↦ rw hit refl
    | inr miss ↦ rw miss (ap (◌∷◌ j) (keys-modify k f m))
  ]

  contains-keys-place :
      (k j : K) (v : V) (m : Map K V)
      → contains (keys (place k v m)) j ≡ (k == j || contains (keys m) j)
  unfolding contains place
  contains-keys-place k j v [] = refl
  contains-keys-place k j v ((i, w) ∷ m) = ground (arith, contains-keys-place k j v m)

  Distinct-place :
      (k : K) (v : V) (m : Map K V)
      → contains (keys m) k ≡ false
      → Distinct (keys m)
      → Distinct (keys (place k v m))
  unfolding contains place
  Distinct-place k v [] h d = (refl, tt)
  Distinct-place k v ((i, w) ∷ m) h d =
      ground
        (arith, e.beq_iff k i, e.beq_iff i k, contains-keys-place k i v m, Distinct-place k v m)

  pub Distinct-insert :
      (k : K) (v : V) (m : Map K V) → Distinct (keys m) → Distinct (keys (insert k v m))
  unfolding insert
  Distinct-insert k v m d = elim (Option-cases (find k m)) [
    | inl absent ↦ rw (absent, insert) (Distinct-place k v m (contains-keys k m ∙ rw absent refl) d)
    | inr (w, there) ↦ rw (there, insert) d
  ]

  contains-keys-erase :
      (k j : K) (m : Map K V)
      → contains (keys (erase k m)) j ≡ (not (k == j) && contains (keys m) j)
  unfolding contains erase
  contains-keys-erase k j [] = ground arith
  contains-keys-erase k j ((i, w) ∷ m) =
      ground (arith, e.beq_iff k j, e.beq_iff i k, e.beq_iff i j, contains-keys-erase k j m)

  pub Distinct-erase : (k : K) (m : Map K V) → Distinct (keys m) → Distinct (keys (erase k m))
  unfolding contains erase
  Distinct-erase k [] d = d
  Distinct-erase k ((i, w) ∷ m) d =
      ground (arith, contains-keys-erase k i m, Distinct-erase k m d.1)

  -- The entries of a map whose first key is not found again.
  pub keys_apart :
      (k j : K) (w : V) (m : Map K V)
      → contains (keys m) k ≡ false
      → find j m ≡ some w
      → (k == j) ≡ false
  keys_apart k j w m fresh h = ground (arith, e.beq_iff k j, contains-keys k m)

  pub find_first : (k : K) (v : V) (m : Map K V) → find k ((k, v) ∷ m) ≡ some v
  unfolding find
  find_first k v m = ground (arith, e.beq_iff k k)

  pub find_later :
      (k j : K) (v w : V) (m : Map K V)
      → contains (keys m) k ≡ false
      → find j m ≡ some w
      → find j ((k, v) ∷ m) ≡ some w
  unfolding find
  find_later k j v w m fresh h = rw (keys_apart k j w m fresh h) h
