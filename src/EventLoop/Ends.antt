-- ===== src/EventLoop/Ends.antt =====
-- A round of `Server::run` in src/Server.cpp, to its end.
use internet_relay_chat_msn.Serving.{poll_index-found}
use internet_relay_chat_msn.EventLoop.Measure.{IsAhead-next}
use internet_relay_chat_msn.Connection.{add_client}
use internet_relay_chat_msn.Connecting.{add_client-IsValid, fds_of-push_back}
use internet_relay_chat_msn.Base.{Bool-cases, true, false, none, some, inl, inr}
use internet_relay_chat_msn.EventLoop.Measure.{entries_left, entries_left-accepted}
use internet_relay_chat_msn.EventLoop.Entry.{
  AreFresh, Advances, below, fd_there, skipped, disconnected, serve_input-Advances, client-found,
}
use internet_relay_chat_msn.Validity.{IsValid}
use internet_relay_chat_msn.Polling.{fds_of}
use internet_relay_chat_msn.Server.{PollFd, Server}
use internet_relay_chat_msn.EventLoop.{
  serve_entry, serve_from, Answer, Answers, serve_input, is_idle,
}
use internet_relay_chat_msn.Base.{
  List, ℕ, on_found, length, ◌≤◌, get_elem?, ◌≡◌, some, ◌∷◌, none, contains, ap, arith, suc, false,
  [], ◌==◌, refl, Option-cases, nat_beq_iff, zero, inl, inr, Bool, if◌then◌else◌, Bool-cases,
  nat_key,
}
use internet_relay_chat_msn.Connection.{accept_new_client, disconnect_client}

accept_new_client-Advances :
    (a : Answer) (i : ℕ) (p : PollFd) (s : Server)
    → IsValid s
    → get_elem? s.poll_fds i ≡ some p
    → p.fd ≡ s.listen_fd
    → ((fd : ℕ) → a.accepted ≡ some fd → contains (fds_of s.poll_fds) fd ≡ false)
    → Advances p.fd i s (suc i, accept_new_client a.accepted a.non_blocking s)
unfolding accept_new_client on_found
accept_new_client-Advances a i p s v there own fresh = elim (Option-cases a.accepted) [
  | inl failed ↦ rw failed (skipped i p s v there)
  | inr (fd, accepted) ↦ elim (Bool-cases a.non_blocking) [
    | inr blocking ↦ rw (accepted, blocking) (skipped i p s v there)
    | inl set ↦ rw (accepted, set) (added fd (fresh fd accepted))
  ]
]
  where
    added :
        (fd : ℕ)
        → contains (fds_of s.poll_fds) fd ≡ false
        → Advances p.fd i s (suc i, add_client fd s)
    added fd new = record {
      valid =
          add_client-IsValid fd s v (ground (arith, v.tables.polled fd, new))
            (ground (arith, v.tables.polled fd, new));
      less =
          entries_left-accepted i s (add_client fd s) (below i p s v there) (fd ∷ [])
            v.tables.poll_fds (rw own at (fd_there i p s v there))
            (unfold add_client in fds_of-push_back fd s.poll_fds) (omega arith)
            (unfold add_client in refl);
      others = λ k apart a.
          IsAhead-next p.fd k i (fd ∷ []) s (add_client fd s) (fd_there i p s v there) apart
            (unfold add_client in fds_of-push_back fd s.poll_fds) a;
    }

pub serve_entry-Advances :
    (a : Answer) (i : ℕ) (p : PollFd) (s : Server)
    → IsValid s
    → get_elem? s.poll_fds i ≡ some p
    → ((fd : ℕ) → a.accepted ≡ some fd → contains (fds_of s.poll_fds) fd ≡ false)
    → Advances p.fd i s (serve_entry a i p s)
unfolding serve_entry
serve_entry-Advances a i p s v there fresh =
    by_tests (is_idle p.revents) (p.fd == s.listen_fd) p.revents.pollin p.revents.pollerr_or_nval
      refl
  where
    client : (p.fd == s.listen_fd) ≡ false → (s.listen_fd == p.fd) ≡ false
    client h = ground (arith, nat_beq_iff p.fd s.listen_fd, nat_beq_iff s.listen_fd p.fd)

    by_tests :
        (idle own readable broken : Bool)
        → (p.fd == s.listen_fd) ≡ own
        → Advances p.fd i s (
            if idle
            then (suc i, s)
            else if own
            then (suc i, (if readable then accept_new_client a.accepted a.non_blocking s else s))
            else if broken
            then (i, disconnect_client i s)
            else serve_input a i p s)
    by_tests true own readable broken e = skipped i p s v there
    by_tests false true true broken e =
        accept_new_client-Advances a i p s v there ((nat_beq_iff p.fd s.listen_fd).0 e) fresh
    by_tests false true false broken e = skipped i p s v there
    by_tests false false readable true e = disconnected i p s v there (client e)
    by_tests false false readable false e =
        serve_input-Advances a i p s v (poll_index-found i p s.poll_fds v.tables.poll_fds there)
          (client-found i p s v there (client e))

-- The index is past the last entry.
pub record HasEnded (next : ℕ × Server) : Type 0 where
  pub valid : IsValid next.1
  pub past : get_elem? next.1.poll_fds next.0 ≡ none

pub get_elem?-past : {A : Type 0} (i : ℕ) (xs : List A) → length xs ≤ i → get_elem? xs i ≡ none
get_elem?-past i [] h = refl
get_elem?-past zero (x ∷ xs) h = absurd (omega arith)
get_elem?-past (suc i) (x ∷ xs) h = get_elem?-past i xs (omega arith)

pub length-fds_of : (ps : List PollFd) → length (fds_of ps) ≡ length ps
length-fds_of [] = refl
length-fds_of (p ∷ ps) = ap suc (length-fds_of ps)

serve_from-HasEnded :
    (fuel : ℕ) (answers : Answers) (n i : ℕ) (s : Server)
    → AreFresh answers
    → IsValid s
    → entries_left i s ≤ fuel
    → HasEnded (serve_from fuel answers n i s)
unfolding serve_from on_found
serve_from-HasEnded zero answers n i s fresh v enough = record {
  valid = v;
  past =
      get_elem?-past i s.poll_fds (unfold entries_left in omega (arith, length-fds_of s.poll_fds));
}
serve_from-HasEnded (suc fuel) answers n i s fresh v enough =
    elim (Option-cases (get_elem? s.poll_fds i)) [
      | inl past ↦ rw past (record { valid = v; past = past })
      | inr (p, there) ↦
          let a = serve_entry-Advances (answers n s) i p s v there (fresh n s) in
          rw there (
            serve_from-HasEnded fuel answers (suc n) _ _ fresh a.valid
              (omega (arith, a.less, enough)))
    ]

pub enough_fuel : (s : Server) → entries_left 0 s ≤ suc (length s.poll_fds)
unfolding entries_left
enough_fuel s = ground (arith, length-fds_of s.poll_fds)

-- A round that starts in a valid state comes to the end of `_pollFds` within the rounds that
-- `serve_round` allows, one more than there are entries, where accept() returns descriptors that are
-- not open; the state is valid then too.
pub serve_round-HasEnded :
    (answers : Answers) (s : Server)
    → AreFresh answers
    → IsValid s
    → HasEnded (serve_from (suc (length s.poll_fds)) answers 0 0 s)
serve_round-HasEnded answers s fresh v =
    serve_from-HasEnded (suc (length s.poll_fds)) answers 0 0 s fresh v (enough_fuel s)
