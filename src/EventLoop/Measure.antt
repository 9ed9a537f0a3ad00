-- ===== src/EventLoop/Measure.antt =====
-- How much of a round of `Server::run` in src/Server.cpp is left: the entries from the index on, and one
-- more while the server's own descriptor is still to come, which may add an entry.
use mathlib.Core.Option.{some-injective}
use internet_relay_chat_msn.Validity.Kept.{Polls}
use internet_relay_chat_msn.Serving.{IsShorter}
use internet_relay_chat_msn.Polling.{fds_of}
use internet_relay_chat_msn.Server.{Server}
use internet_relay_chat_msn.Base.{
  some, ℕ, contains, List, ◌<◌, take, length, Distinct, get_elem?, Bool, ◌≡◌, not, ◌++◌, ◌-◌, ◌∷◌,
  false, true, suc, nat_key, ◌≤◌, arith, ◌+◌, [], length-append, nat_beq_iff, zero, if◌then◌else◌,
  refl, ◌==◌, ◌∙◌,
}

unfoldable pub is_ahead : ℕ → Server → Bool
is_ahead i s = not (contains (take i (fds_of s.poll_fds)) s.listen_fd)

unfoldable pub entries_left : ℕ → Server → ℕ
entries_left i s = (length (fds_of s.poll_fds) - i) + (if is_ahead i s then 1 else 0)

contains-take-suc :
    (i : ℕ) (ks : List ℕ) (k : ℕ)
    → contains (take i ks) k ≡ true
    → contains (take (suc i) ks) k ≡ true
unfolding contains
contains-take-suc zero ks k h = cc
contains-take-suc (suc i) [] k h = h
contains-take-suc (suc i) (j ∷ ks) k h = ground (arith, contains-take-suc i ks k)

contains-take_at :
    (i : ℕ) (ks ls : List ℕ) (k : ℕ)
    → get_elem? ks i ≡ some k
    → contains (take (suc i) (ks ++ ls)) k ≡ true
unfolding contains
contains-take_at i [] ls k h = cc
contains-take_at zero (j ∷ ks) ls k h = ground (arith, some-injective j k h, nat_beq_iff j k)
contains-take_at (suc i) (j ∷ ks) ls k h = ground (arith, contains-take_at i ks ls k h)

contains-get_elem : (i : ℕ) (ks : List ℕ) (k : ℕ) → get_elem? ks i ≡ some k → contains ks k ≡ true
unfolding contains
contains-get_elem i [] k h = cc
contains-get_elem zero (j ∷ ks) k h = ground (arith, some-injective j k h, nat_beq_iff j k)
contains-get_elem (suc i) (j ∷ ks) k h = ground (arith, contains-get_elem i ks k h)

-- What stands at an index does not stand before it.
contains-take_before :
    (i : ℕ) (ks : List ℕ) (k : ℕ)
    → Distinct ks
    → get_elem? ks i ≡ some k
    → contains (take i ks) k ≡ false
unfolding contains
contains-take_before zero ks k d h = refl
contains-take_before (suc i) [] k d h = refl
contains-take_before (suc i) (j ∷ ks) k d h =
    ground (arith, contains-take_before i ks k d.1 h, contains-get_elem i ks k h, nat_beq_iff j k)

pub get_elem?-below :
    {A : Type 0} (i : ℕ) (xs : List A) (x : A) → get_elem? xs i ≡ some x → i < length xs
get_elem?-below i [] x h = cc
get_elem?-below zero (y ∷ xs) x h = omega arith
get_elem?-below (suc i) (y ∷ xs) x h = omega (arith, get_elem?-below i xs x h)

module _ (i : ℕ) (s t : Server) (below : i < length (fds_of s.poll_fds)) where
  -- The entry is gone, and another stands at its index.
  pub entries_left-shorter :
      {fd : ℕ}
      → IsShorter fd i s t
      → t.listen_fd ≡ s.listen_fd
      → entries_left i t < entries_left i s
  unfolding entries_left is_ahead
  entries_left-shorter h listen = rw (h.before, listen) (omega (arith, h.less, below))

  pub entries_left-next : Polls s t → entries_left (suc i) t < entries_left i s
  unfolding entries_left is_ahead
  entries_left-next p =
      rw (p.0, p.1) (ground (arith, contains-take-suc i (fds_of s.poll_fds) s.listen_fd, below))

  pub entries_left-accepted :
      (new : List ℕ)
      → Distinct (fds_of s.poll_fds)
      → get_elem? (fds_of s.poll_fds) i ≡ some s.listen_fd
      → fds_of t.poll_fds ≡ fds_of s.poll_fds ++ new
      → length new ≤ 1
      → t.listen_fd ≡ s.listen_fd
      → entries_left (suc i) t < entries_left i s
  unfolding entries_left is_ahead
  entries_left-accepted new d there fds one listen =
      rw
        (
          fds,
          listen,
          contains-take_at i (fds_of s.poll_fds) new s.listen_fd there,
          contains-take_before i (fds_of s.poll_fds) s.listen_fd d there,
          length-append,
        )
        (omega (arith, below, one))

-- A descriptor that is polled, and not before the index.
pub record IsAhead (k i : ℕ) (s : Server) : Type 0 where
  pub polled : contains (fds_of s.poll_fds) k ≡ true
  pub behind : contains (take i (fds_of s.poll_fds)) k ≡ false

contains-take_other :
    (i : ℕ) (ks ls : List ℕ) (j k : ℕ)
    → get_elem? ks i ≡ some j
    → (j == k) ≡ false
    → contains (take i ks) k ≡ false
    → contains (take (suc i) (ks ++ ls)) k ≡ false
unfolding contains
contains-take_other i [] ls j k h apart g = cc
contains-take_other zero (x ∷ ks) ls j k h apart g = rw (some-injective x j h, apart) refl
contains-take_other (suc i) (x ∷ ks) ls j k h apart g =
    ground (arith, contains-take_other i ks ls j k h apart)

contains-left : (ks ls : List ℕ) (n : ℕ) → contains ks n ≡ true → contains (ks ++ ls) n ≡ true
unfolding contains
contains-left [] ls n h = cc h
contains-left (x ∷ ks) ls n h = ground (arith, contains-left ks ls n)

-- The others that are ahead stay ahead of the next entry.
pub IsAhead-next :
    (j k i : ℕ) (new : List ℕ) (s t : Server)
    → get_elem? (fds_of s.poll_fds) i ≡ some j
    → (j == k) ≡ false
    → fds_of t.poll_fds ≡ fds_of s.poll_fds ++ new
    → IsAhead k i s
    → IsAhead k (suc i) t
IsAhead-next j k i new s t there apart fds a = record {
  polled = rw fds (contains-left (fds_of s.poll_fds) new k a.polled);
  behind = rw fds (contains-take_other i (fds_of s.poll_fds) new j k there apart a.behind);
}

pub IsAhead-shorter :
    (fd k i : ℕ) (s t : Server)
    → IsShorter fd i s t
    → (fd == k) ≡ false
    → IsAhead k i s
    → IsAhead k i t
IsAhead-shorter fd k i s t h apart a = record {
  polled = h.others k ∙ rw (apart, a.polled) refl;
  behind = rw (h.before) (a.behind);
}
