-- ===== src/Polling.antt =====
-- `_pollFds` of src/Server.cpp: who is polled, and what `_pollFds[i] = _pollFds.back(); pop_back()`
-- takes away.
use mathlib.Core.Option.{some-injective}
use internet_relay_chat_msn.Map.Keys.{is_some}
use internet_relay_chat_msn.Connection.{last_or, pop_back, write_at, swap_remove, poll_index}
use internet_relay_chat_msn.Server.{PollFd}
use internet_relay_chat_msn.Base.{
  ℕ, ◌≡◌, refl, true, false, List, [], ◌∷◌, arith, contains, Option, some, nat_beq_iff, none,
  nat_key, Bool-cases, Distinct, if◌then◌else◌, ◌==◌, inl, inr, ◌∙◌, ap, suc, get_elem?, zero, sym,
  Bool,
}

-- The descriptors of the table, in its order.
abbrev pub fds_of : List PollFd → List ℕ
fds_of [] = []
fds_of (p ∷ ps) = p.fd ∷ fds_of ps

-- The first entry of a descriptor.
unfoldable pub entry_of : ℕ → List PollFd → Option PollFd
entry_of fd [] = none
entry_of fd (p ∷ ps) = if p.fd == fd then some p else entry_of fd ps

pub contains-fds_of :
    (fd : ℕ) (ps : List PollFd) → contains (fds_of ps) fd ≡ is_some (entry_of fd ps)
unfolding contains entry_of
contains-fds_of fd [] = refl
contains-fds_of fd (p ∷ ps) = elim (Bool-cases (p.fd == fd)) [
  | inl hit ↦ rw hit refl
  | inr miss ↦ rw miss (contains-fds_of fd ps)
]

contains-last_or :
    (q : PollFd) (ps : List PollFd) → contains (fds_of (q ∷ ps)) (last_or q ps).fd ≡ true
unfolding contains last_or
contains-last_or q [] = ground (arith, nat_beq_iff q.fd q.fd)
contains-last_or q (r ∷ ps) = ground (arith, contains-last_or r ps)

-- The last entry moved to the front: the same entries.
entry_of-rotate :
    (fd : ℕ) (q : PollFd) (ps : List PollFd)
    → Distinct (fds_of (q ∷ ps))
    → entry_of fd (last_or q ps ∷ pop_back (q ∷ ps)) ≡ entry_of fd (q ∷ ps)
unfolding entry_of last_or pop_back contains
entry_of-rotate fd q [] d = refl
entry_of-rotate fd q (r ∷ ps) d = ground (
  arith,
  entry_of-rotate fd r ps d.1,
  contains-last_or r ps,
  nat_beq_iff q.fd fd,
  nat_beq_iff (last_or r ps).fd fd,
)

Distinct-rotate :
    (q : PollFd) (ps : List PollFd)
    → Distinct (fds_of (q ∷ ps))
    → Distinct (fds_of (last_or q ps ∷ pop_back (q ∷ ps)))
unfolding contains last_or pop_back
Distinct-rotate q [] d = (refl, tt)
Distinct-rotate q (r ∷ ps) d = ground (
  arith,
  Distinct-rotate r ps d.1,
  contains-last_or r ps,
  same_fds,
  nat_beq_iff q.fd (last_or r ps).fd,
  nat_beq_iff (last_or r ps).fd q.fd,
)
  where
    same_fds :
        contains (fds_of (last_or r ps ∷ pop_back (r ∷ ps))) q.fd ≡ contains (fds_of (r ∷ ps)) q.fd
    same_fds =
        contains-fds_of q.fd (last_or r ps ∷ pop_back (r ∷ ps))
        ∙ ap is_some (entry_of-rotate q.fd r ps d.1)
        ∙ sym (contains-fds_of q.fd (r ∷ ps))

pop_back-write_at :
    (i : ℕ) (p q v : PollFd) (ps : List PollFd)
    → pop_back (p ∷ write_at i v (q ∷ ps)) ≡ p ∷ pop_back (write_at i v (q ∷ ps))
unfolding pop_back write_at
pop_back-write_at zero p q v ps = refl
pop_back-write_at (suc i) p q v ps = refl

pub swap_remove-suc :
    (i : ℕ) (p q : PollFd) (ps : List PollFd)
    → swap_remove (suc i) (p ∷ q ∷ ps) ≡ p ∷ swap_remove i (q ∷ ps)
unfolding swap_remove last_or write_at
swap_remove-suc i p q ps = pop_back-write_at i p q (last_or q ps) ps

pub contains-get_elem? :
    (i : ℕ) (x : PollFd) (ps : List PollFd)
    → get_elem? ps i ≡ some x
    → contains (fds_of ps) x.fd ≡ true
unfolding contains
contains-get_elem? i x [] h = cc
contains-get_elem? zero x (p ∷ ps) h = ground (arith, some-injective p x h, nat_beq_iff p.fd x.fd)
contains-get_elem? (suc i) x (p ∷ ps) h = ground (arith, contains-get_elem? i x ps h)

-- Who is found after an entry is removed: everybody else, as before.
pub entry_of-swap_remove :
    (fd i : ℕ) (x : PollFd) (ps : List PollFd)
    → Distinct (fds_of ps)
    → get_elem? ps i ≡ some x
    → entry_of fd (swap_remove i ps) ≡ (if x.fd == fd then none else entry_of fd ps)
unfolding swap_remove pop_back write_at last_or entry_of contains
entry_of-swap_remove fd i x [] d h = cc
entry_of-swap_remove fd zero x (p ∷ []) d h = ground (arith, some-injective p x)
entry_of-swap_remove fd (suc i) x (p ∷ []) d h = cc
entry_of-swap_remove fd zero x (p ∷ q ∷ ps) d h = ground (
  arith,
  some-injective p x h,
  entry_of-rotate fd q ps d.1,
  contains-fds_of p.fd (q ∷ ps),
  nat_beq_iff p.fd fd,
)
entry_of-swap_remove fd (suc i) x (p ∷ q ∷ ps) d h = rw (swap_remove-suc i p q ps) (
    ground (
      arith,
      entry_of-swap_remove fd i x (q ∷ ps) d.1 h,
      contains-get_elem? i x (q ∷ ps) h,
      nat_beq_iff p.fd fd,
      nat_beq_iff x.fd fd,
      nat_beq_iff x.fd p.fd,
    ))

pub Distinct-swap_remove :
    (i : ℕ) (x : PollFd) (ps : List PollFd)
    → Distinct (fds_of ps)
    → get_elem? ps i ≡ some x
    → Distinct (fds_of (swap_remove i ps))
unfolding swap_remove pop_back write_at last_or contains
Distinct-swap_remove i x [] d h = cc
Distinct-swap_remove zero x (p ∷ []) d h = tt
Distinct-swap_remove (suc i) x (p ∷ []) d h = cc
Distinct-swap_remove zero x (p ∷ q ∷ ps) d h = Distinct-rotate q ps d.1
Distinct-swap_remove (suc i) x (p ∷ q ∷ ps) d h =
    rw (swap_remove-suc i p q ps) (absent, Distinct-swap_remove i x (q ∷ ps) d.1 h)
  where
    absent : contains (fds_of (swap_remove i (q ∷ ps))) p.fd ≡ false
    absent = ground (
      arith,
      contains-fds_of p.fd (swap_remove i (q ∷ ps)),
      contains-fds_of p.fd (q ∷ ps),
      entry_of-swap_remove p.fd i x (q ∷ ps) d.1 h,
    )

pub poll_index-get_elem? :
    (fd index : ℕ) (ps : List PollFd)
    → poll_index fd ps ≡ some index
    → (p : PollFd) × (get_elem? ps index ≡ some p) × (p.fd ≡ fd)
unfolding poll_index
poll_index-get_elem? fd index [] h = cc
poll_index-get_elem? fd index (p ∷ ps) h =
    by_test (λ i e. poll_index-get_elem? fd i ps e) (p.fd == fd) refl h
  where
    further :
        ((i : ℕ)
          → poll_index fd ps ≡ some i
          → (q : PollFd) × (get_elem? ps i ≡ some q) × (q.fd ≡ fd))
        → (o : Option ℕ) → poll_index fd ps ≡ o
        → (elim o as (λ x. Option ℕ) [ none ↦ none | some i ↦ some (suc i) ]) ≡ some index
        → (q : PollFd) × (get_elem? (p ∷ ps) index ≡ some q) × (q.fd ≡ fd)
    further ih none e g = cc
    further ih (some i) e g =
        let (q, there, same) = ih i e in (q, rw (sym (some-injective _ _ g)) there, same)

    by_test :
        ((i : ℕ)
          → poll_index fd ps ≡ some i
          → (q : PollFd) × (get_elem? ps i ≡ some q) × (q.fd ≡ fd))
        → (b : Bool) → (p.fd == fd) ≡ b
        → (if b
            then some 0
            else elim (poll_index fd ps) as (λ x. Option ℕ) [ none ↦ none | some i ↦ some (suc i) ])
          ≡ some index
        → (q : PollFd) × (get_elem? (p ∷ ps) index ≡ some q) × (q.fd ≡ fd)
    by_test ih true e g = (p, rw (sym (some-injective _ _ g)) refl, (nat_beq_iff p.fd fd).0 e)
    by_test ih false e g = further ih (poll_index fd ps) refl g

-- The descriptor at an index.
abbrev pub fd_of : Option PollFd → Option ℕ
fd_of none = none
fd_of (some q) = some q.fd

pub get_elem?-fds_of : (i : ℕ) (ps : List PollFd) → get_elem? (fds_of ps) i ≡ fd_of (get_elem? ps i)
get_elem?-fds_of i [] = refl
get_elem?-fds_of zero (p ∷ ps) = refl
get_elem?-fds_of (suc i) (p ∷ ps) = get_elem?-fds_of i ps

pub same_fd_at :
    (index : ℕ) (p : PollFd) (ps qs : List PollFd)
    → fds_of qs ≡ fds_of ps
    → get_elem? ps index ≡ some p
    → (q : PollFd) × (get_elem? qs index ≡ some q) × (q.fd ≡ p.fd)
same_fd_at index p ps qs e h = found (get_elem? qs index) refl (
    sym (get_elem?-fds_of index qs)
    ∙ ap (λ fds. get_elem? fds index) e
    ∙ get_elem?-fds_of index ps
    ∙ ap fd_of h)
  where
    found :
        (o : Option PollFd)
        → get_elem? qs index ≡ o
        → fd_of o ≡ fd_of (some p)
        → (q : PollFd) × (get_elem? qs index ≡ some q) × (q.fd ≡ p.fd)
    found none g same = cc
    found (some q) g same = (q, g, some-injective q.fd p.fd (same))
