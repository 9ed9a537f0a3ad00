-- ===== src/EventLoop/Entry.antt =====
-- One entry that `Server::run` of src/Server.cpp serves, in a valid state.
use mathlib.Core.List.{append-nil}
use internet_relay_chat_msn.EventLoop.Measure.{IsAhead, IsAhead-next, IsAhead-shorter}
use internet_relay_chat_msn.Dispatch.{handle_client_read}
use internet_relay_chat_msn.Events.{client-apart, handle_client_read-IsValid}
use internet_relay_chat_msn.Sending.{flush_client_write-IsValid}
use internet_relay_chat_msn.Serving.Lines.{
  connected-found, handle_client_read-Serves, flush_client_write-Serves,
}
use internet_relay_chat_msn.Serving.Indices.{poll_index-Polls}
use internet_relay_chat_msn.Connection.{poll_index, disconnect_client, flush_client_write}
use internet_relay_chat_msn.Disconnection.{disconnect_client-gone, disconnect_client-IsValid}
use internet_relay_chat_msn.Polling.{
  fds_of, poll_index-get_elem?, get_elem?-fds_of, contains-get_elem?, fd_of,
}
use internet_relay_chat_msn.Validity.Kept.{Polls}
use internet_relay_chat_msn.EventLoop.Measure.{
  entries_left, get_elem?-below, is_ahead, entries_left-next, entries_left-shorter,
}
use internet_relay_chat_msn.Validity.{IsValid}
use internet_relay_chat_msn.Serving.{Serves, stays, goes, IsShorter, disconnect_client-Serves}
use internet_relay_chat_msn.EventLoop.{Answers, hang_up, serve_input, serve_output, Answer}
use internet_relay_chat_msn.Server.{is_connected, Server, PollFd}
use internet_relay_chat_msn.Base.{
  some, inl, inr, ℕ, ◌≡◌, contains, get_elem?, true, ◌<◌, length, false, nat_key, ◌∙◌, ap, suc,
  ◌==◌, Bool-cases, arith, refl, [], sym,
}

-- The state is valid, less of the round is left, and the other descriptors that were to come still are.
pub record Advances (fd i : ℕ) (s : Server) (next : ℕ × Server) : Type 0 where
  pub valid : IsValid next.1
  pub less : entries_left next.0 next.1 < entries_left i s
  pub others : (k : ℕ) → (fd == k) ≡ false → IsAhead k i s → IsAhead k next.0 next.1

-- accept() returns a descriptor that is not open: none of those that are polled.
abbrev pub AreFresh : Answers → Type 0
AreFresh answers =
    (n : ℕ) (s : Server) (fd : ℕ)
    → (answers n s).accepted ≡ some fd
    → contains (fds_of s.poll_fds) fd ≡ false

when_there :
    {fd i : ℕ} {s t : Server} → Serves fd i s t → is_connected fd t.clients ≡ true → Polls s t
unfolding is_connected
when_there (stays p c) h = p
when_there (goes r listen gone) h = cc (gone, h)

when_gone :
    {fd i : ℕ} {s t : Server}
    → Serves fd i s t
    → is_connected fd t.clients ≡ false
    → IsShorter fd i s t × (t.listen_fd ≡ s.listen_fd)
unfolding is_connected
when_gone (stays p c) h = cc (c, h)
when_gone (goes r listen gone) h = (r, listen)

module _ (i : ℕ) (p : PollFd) (s : Server) (v : IsValid s)
    (there : get_elem? s.poll_fds i ≡ some p) where
  pub fd_there : get_elem? (fds_of s.poll_fds) i ≡ some p.fd
  fd_there = get_elem?-fds_of i s.poll_fds ∙ ap fd_of there

  pub below : i < length (fds_of s.poll_fds)
  below = get_elem?-below i (fds_of s.poll_fds) p.fd fd_there

  pub skipped : Advances p.fd i s (suc i, s)
  skipped = record {
    valid = v;
    less = entries_left-next i s s below (refl, refl);
    others = λ k apart a.
        IsAhead-next p.fd k i [] s s fd_there apart (sym (append-nil (fds_of s.poll_fds))) a;
  }

  -- The entry goes.
  pub disconnected : (s.listen_fd == p.fd) ≡ false → Advances p.fd i s (i, disconnect_client i s)
  disconnected client =
      let (shorter, listen) =
        when_gone (disconnect_client-Serves i p s v there) (disconnect_client-gone i p s there) in
      record {
        valid = disconnect_client-IsValid i p s there client v;
        less = entries_left-shorter i s _ below shorter listen;
        others = λ k apart a. IsAhead-shorter p.fd k i s _ shorter apart a;
      }

-- A client, served so far.
module _ (i : ℕ) (p : PollFd) (s : Server) (v : IsValid s)
    (at_index : poll_index p.fd s.poll_fds ≡ some i) (client : (s.listen_fd == p.fd) ≡ false) where
  hang_up-Advances : Advances p.fd i s (hang_up i p s)
  unfolding hang_up
  hang_up-Advances =
      let (q, there, same) = poll_index-get_elem? p.fd i s.poll_fds at_index in
      elim (Bool-cases p.revents.pollhup) [
        | inl hung ↦ rw hung (rw same at (disconnected i q s v there (rw same client)))
        | inr up ↦ rw up (rw same at (skipped i q s v there))
      ]

  here_below : i < length (fds_of s.poll_fds)
  here_below =
      let (q, there, same) = poll_index-get_elem? p.fd i s.poll_fds at_index in below i q s v there

after_Polls :
    {fd i : ℕ} {s t : Server} {next : ℕ × Server}
    → Polls s t
    → Advances fd i t next
    → Advances fd i s next
unfolding entries_left is_ahead
after_Polls p a = record {
  valid = a.valid;
  less = rw (p.0, p.1) at a.less;
  others = λ k apart h.
      a.others k apart (record { polled = rw (p.0) h.polled; behind = rw (p.0) h.behind });
}

-- A client that is gone leaves its index to another.
left :
    {i fd : ℕ} {s t : Server}
    → i < length (fds_of s.poll_fds)
    → IsValid t
    → Serves fd i s t
    → is_connected fd t.clients ≡ false
    → Advances fd i s (i, t)
left {i = i} {fd = fd} {s = s} {t = t} below v served gone =
    let (shorter, listen) = when_gone served gone in
    record {
      valid = v;
      less = entries_left-shorter i s t below shorter listen;
      others = λ k apart a. IsAhead-shorter fd k i s t shorter apart a;
    }

pub client-found :
    (i : ℕ) (p : PollFd) (s : Server)
    → IsValid s
    → get_elem? s.poll_fds i ≡ some p
    → (s.listen_fd == p.fd) ≡ false
    → is_connected p.fd s.clients ≡ true
client-found i p s v there client =
    ground (arith, contains-get_elem? i p s.poll_fds there, v.tables.polled p.fd)

serve_output-Advances :
    (a : Answer) (i : ℕ) (p : PollFd) (s : Server)
    → IsValid s
    → poll_index p.fd s.poll_fds ≡ some i
    → is_connected p.fd s.clients ≡ true
    → Advances p.fd i s (serve_output a i p s)
unfolding serve_output hang_up
serve_output-Advances a i p s v at_index c =
    let (d, f) = connected-found p.fd i s.clients c in
    let client = client-apart p.fd d s v f in
    let t = flush_client_write p.fd a.sent s in
    let valid = flush_client_write-IsValid p.fd a.sent s v in
    elim (Bool-cases p.revents.pollout) [
      | inr full ↦ rw full (hang_up-Advances i p s v at_index client)
      | inl writable ↦ rw writable (elim (Bool-cases (is_connected p.fd t.clients)) [
        | inl still ↦ rw still (
            let q = when_there (flush_client_write-Serves p.fd i a.sent d s v at_index f) still in
            after_Polls q (
              hang_up-Advances i p t valid (poll_index-Polls p.fd s t q ∙ at_index)
                (rw (q.1) client)))
        | inr gone ↦ rw gone (
            left (here_below i p s v at_index client) valid
              (flush_client_write-Serves p.fd i a.sent d s v at_index f) gone)
      ])
    ]

pub serve_input-Advances :
    (a : Answer) (i : ℕ) (p : PollFd) (s : Server)
    → IsValid s
    → poll_index p.fd s.poll_fds ≡ some i
    → is_connected p.fd s.clients ≡ true
    → Advances p.fd i s (serve_input a i p s)
unfolding serve_input serve_output hang_up
serve_input-Advances a i p s v at_index c =
    let (d, f) = connected-found p.fd i s.clients c in
    let client = client-apart p.fd d s v f in
    let t = handle_client_read p.fd a.received s in
    let valid = handle_client_read-IsValid p.fd a.received s v in
    elim (Bool-cases p.revents.pollin) [
      | inr silent ↦ rw silent (serve_output-Advances a i p s v at_index c)
      | inl readable ↦ rw readable (elim (Bool-cases (is_connected p.fd t.clients)) [
        | inl still ↦ rw still (
            let q =
              when_there (handle_client_read-Serves p.fd i a.received d s v at_index f) still in
            after_Polls q
              (serve_output-Advances a i p t valid (poll_index-Polls p.fd s t q ∙ at_index) still))
        | inr gone ↦ rw gone (
            left (here_below i p s v at_index client) valid
              (handle_client_read-Serves p.fd i a.received d s v at_index f) gone)
      ])
    ]
