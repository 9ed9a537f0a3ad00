-- ===== src/EventLoop/Turns.antt =====
-- Which entries a round of `Server::run` in src/Server.cpp comes to.
use internet_relay_chat_msn.EventLoop.Ends.{
  enough_fuel, serve_entry-Advances, get_elem?-past, length-fds_of,
}
use internet_relay_chat_msn.Polling.{fds_of}
use internet_relay_chat_msn.Validity.{IsValid}
use internet_relay_chat_msn.EventLoop.Entry.{AreFresh}
use internet_relay_chat_msn.EventLoop.Measure.{IsAhead, entries_left}
use internet_relay_chat_msn.Server.{Server, PollFd}
use internet_relay_chat_msn.EventLoop.{Answers, serve_entry, serve_from, serve_round}
use internet_relay_chat_msn.Base.{
  on_found, ℕ, contains, List, [], get_elem?, suc, ◌≡◌, ◌≤◌, true, none, ◌∷◌, Option-cases, length,
  inl, take, zero, inr, ap, nat_key, Bool-cases, refl, ◌==◌, arith, some,
}

-- A trace of `serve_from`: the descriptors that are served from the n-th entry on, at index `i` of the state
-- `s`, each where the entry before it left the round, up to an index past the last entry.
pub data Visits (answers : Answers) : ℕ → ℕ → Server → List ℕ → ℕ × Server → Type 0 where
  ended : {n i : ℕ} {s : Server} → get_elem? s.poll_fds i ≡ none → Visits answers n i s [] (i, s)
  visits :
      {n i : ℕ} {s : Server} {p : PollFd} {fds : List ℕ} {last : ℕ × Server}
      → get_elem? s.poll_fds i ≡ some p
      → Visits answers
          (suc n)
          (serve_entry (answers n s) i p s).0
          (serve_entry (answers n s) i p s).1
          fds
          last
      → Visits answers n i s (p.fd ∷ fds) last

not_past : (k i : ℕ) (s : Server) → IsAhead k i s → get_elem? s.poll_fds i ≡ none → ⊥
not_past k i s a past = cc (a.polled, a.behind, all_before i s.poll_fds past)
  where
    all_before : (j : ℕ) (ps : List PollFd) → get_elem? ps j ≡ none → take j (fds_of ps) ≡ fds_of ps
    all_before zero [] h = refl
    all_before (suc j) [] h = refl
    all_before zero (p ∷ ps) h = cc h
    all_before (suc j) (p ∷ ps) h = ap (◌∷◌ p.fd) (all_before j ps h)

-- The trace from an index to the end of the round: every descriptor that is ahead is in it.
record Covers (answers : Answers) (n i : ℕ) (s : Server) (last : ℕ × Server) : Type 0 where
  fds : List ℕ
  trace : Visits answers n i s fds last
  all : (k : ℕ) → IsAhead k i s → contains fds k ≡ true

stops :
    (answers : Answers) (n i : ℕ) (s : Server)
    → get_elem? s.poll_fds i ≡ none
    → Covers answers n i s (i, s)
stops answers n i s past = record {
  fds = [];
  trace = ended past;
  all = λ k a. absurd (not_past k i s a past);
}

goes_on :
    (answers : Answers) (n i : ℕ) (p : PollFd) (s : Server) (last : ℕ × Server)
    → IsValid s
    → AreFresh answers
    → get_elem? s.poll_fds i ≡ some p
    → (let next = serve_entry (answers n s) i p s in Covers answers (suc n) next.0 next.1 last)
    → Covers answers n i s last
unfolding contains
goes_on answers n i p s last v fresh there c = record {
  fds = p.fd ∷ c.fds;
  trace = visits there c.trace;
  all = λ k a. elim (Bool-cases (p.fd == k)) [
    | inl own ↦ rw own refl
    | inr apart ↦
        rw apart (
          c.all k ((serve_entry-Advances (answers n s) i p s v there (fresh n s)).others k apart a))
  ];
}

serve_from-Covers :
    (fuel : ℕ) (answers : Answers) (n i : ℕ) (s : Server)
    → AreFresh answers
    → IsValid s
    → entries_left i s ≤ fuel
    → Covers answers n i s (serve_from fuel answers n i s)
unfolding serve_from on_found
serve_from-Covers zero answers n i s fresh v enough = stops answers n i s (
    get_elem?-past i s.poll_fds
      (unfold entries_left in omega (arith, enough, length-fds_of s.poll_fds)))
serve_from-Covers (suc fuel) answers n i s fresh v enough =
    elim (Option-cases (get_elem? s.poll_fds i)) [
      | inl past ↦ rw past (stops answers n i s past)
      | inr (p, there) ↦
          let step = serve_entry-Advances (answers n s) i p s v there (fresh n s) in
          rw there (
            goes_on answers n i p s _ v fresh there (
              serve_from-Covers fuel answers (suc n) _ _ fresh step.valid
                (omega (arith, step.less, enough))))
    ]

-- The trace of a round, from the first entry to the state in which the round ends.
pub record VisitsAll (answers : Answers) (s : Server) : Type 0 where
  pub fds : List ℕ
  pub last : ℕ
  pub trace : Visits answers 0 0 s fds (last, serve_round answers s)
  pub all : (fd : ℕ) → contains (fds_of s.poll_fds) fd ≡ true → contains fds fd ≡ true

-- In a valid state, where accept() returns descriptors that are not open, a round serves the entry at
-- index 0, and after each entry the one at the index that serving it leaves, until there is none; and every
-- descriptor that was polled at the start is among those that it serves, whatever becomes of the clients
-- before.
pub serve_round-VisitsAll :
    (answers : Answers) (s : Server) → AreFresh answers → IsValid s → VisitsAll answers s
serve_round-VisitsAll answers s fresh v =
    let c = serve_from-Covers (suc (length s.poll_fds)) answers 0 0 s fresh v (enough_fuel s) in
    record {
      fds = c.fds;
      last = (serve_from (suc (length s.poll_fds)) answers 0 0 s).0;
      trace = unfold serve_round in c.trace;
      all = λ fd polled. c.all fd (record { polled = polled; behind = unfold contains in refl });
    }
