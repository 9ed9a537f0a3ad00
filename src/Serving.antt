-- ===== src/Serving.antt =====
-- What serving a client in a round of `Server::run` does to `_pollFds`: nothing to its descriptors, or
-- the client goes, and with it its entry.
pub mod Lines
pub mod Indices
use internet_relay_chat_msn.Parser.{parse}
use internet_relay_chat_msn.Dispatch.Verbs.{quit-cases}
use internet_relay_chat_msn.Extraction.{find-modify_client}
use internet_relay_chat_msn.Events.{input-IsValid}
use internet_relay_chat_msn.Messages.{handle_quit, quit_channels, quit_reason}
use internet_relay_chat_msn.Map.Keys.{is_some}
use internet_relay_chat_msn.Effects.{Action, Run, next}
use internet_relay_chat_msn.Dispatch.{
  extract_loop, process_command, process_line, set_in_buffer, run_command, run_verb, chomp,
  before_newline, verb_of, after_newline,
}
use internet_relay_chat_msn.Extraction.Frame.{input_of, Run-Keeps}
use internet_relay_chat_msn.Text.{Text, bytes}
use internet_relay_chat_msn.Channel.{Channel}
use internet_relay_chat_msn.Client.{Client}
use internet_relay_chat_msn.Departure.Loop.{disconnect_channels-Run, quit_channels-Run}
use internet_relay_chat_msn.Validity.{IsValid, Run-IsValid}
use mathlib.Core.Option.{some-injective, IsSome}
use internet_relay_chat_msn.Polling.{swap_remove-suc}
use internet_relay_chat_msn.Map.{find, find-erase, Map}
use internet_relay_chat_msn.Polling.{
  fds_of, poll_index-get_elem?, contains-get_elem?, same_fd_at, contains-fds_of,
  entry_of-swap_remove,
}
use internet_relay_chat_msn.Validity.Kept.{Polls, Run-Polls}
use internet_relay_chat_msn.Server.{PollFd, Server, is_connected, modify_client, user_line}
use internet_relay_chat_msn.Connection.{
  poll_index, swap_remove, pop_back, write_at, last_or, disconnect_fd, disconnect_client,
  drop_poll_fd, forget_client, disconnect_channels,
}
use internet_relay_chat_msn.Base.{
  some, none, inl, inr, ℕ, suc, List, Distinct, length, ◌∙◌, get_elem?, ap, ◌≡◌, ◌∷◌, take, true,
  arith, nat_key, zero, [], nat_beq_iff, on_found, refl, ◌==◌, false, sym, Option, Bool-cases,
  if◌then◌else◌, is_empty, Option-cases, ◌++◌, contains, not, ◌&&◌,
}

-- The table without its entry at an index, which was the descriptor's.
pub record IsShorter (fd i : ℕ) (s t : Server) : Type 0 where
  pub less : suc (length (fds_of t.poll_fds)) ≡ length (fds_of s.poll_fds)
  pub before : take i (fds_of t.poll_fds) ≡ take i (fds_of s.poll_fds)
  pub others :
      (k : ℕ) → contains (fds_of t.poll_fds) k ≡ (not (fd == k) && contains (fds_of s.poll_fds) k)

pub data Serves (fd i : ℕ) (s t : Server) : Type 0 where
  stays : Polls s t → is_connected fd t.clients ≡ true → Serves fd i s t
  goes : IsShorter fd i s t → t.listen_fd ≡ s.listen_fd → find fd t.clients ≡ none → Serves fd i s t

pub after_stays : {fd i : ℕ} {s t u : Server} → Polls s t → Serves fd i t u → Serves fd i s u
after_stays p (stays q c) = stays (q.0 ∙ p.0, q.1 ∙ p.1) c
after_stays {fd} {i} p (goes h listen c) =
    goes
      (record {
        less = h.less ∙ ap length p.0;
        before = h.before ∙ ap (take i) p.0;
        others = λ k. h.others k ∙ ap (λ ks. not (fd == k) && contains ks k) p.0;
      })
      (listen ∙ p.1) c

length-pop_back :
    (p : PollFd) (ps : List PollFd)
    → suc (length (fds_of (pop_back (p ∷ ps)))) ≡ length (fds_of (p ∷ ps))
unfolding pop_back
length-pop_back p [] = refl
length-pop_back p (q ∷ ps) = ap suc (length-pop_back q ps)

length-swap_remove :
    (i : ℕ) (p : PollFd) (ps : List PollFd)
    → get_elem? ps i ≡ some p
    → suc (length (fds_of (swap_remove i ps))) ≡ length (fds_of ps)
unfolding swap_remove pop_back write_at last_or
length-swap_remove i p [] h = cc
length-swap_remove zero p (q ∷ []) h = refl
length-swap_remove (suc i) p (q ∷ []) h = cc
length-swap_remove zero p (q ∷ r ∷ ps) h = ap suc (length-pop_back r ps)
length-swap_remove (suc i) p (q ∷ r ∷ ps) h =
    rw (swap_remove-suc i q r ps) (ap suc (length-swap_remove i p (r ∷ ps) h))

take-swap_remove :
    (i : ℕ) (p : PollFd) (ps : List PollFd)
    → get_elem? ps i ≡ some p
    → take i (fds_of (swap_remove i ps)) ≡ take i (fds_of ps)
unfolding swap_remove pop_back write_at last_or
take-swap_remove zero p ps h = refl
take-swap_remove (suc i) p [] h = refl
take-swap_remove (suc i) p (q ∷ []) h = cc
take-swap_remove (suc i) p (q ∷ r ∷ ps) h =
    rw (swap_remove-suc i q r ps) (ap (◌∷◌ q.fd) (take-swap_remove i p (r ∷ ps) h))

-- Where no descriptor occurs twice, the search finds the entry that is served.
pub poll_index-found :
    (i : ℕ) (p : PollFd) (ps : List PollFd)
    → Distinct (fds_of ps)
    → get_elem? ps i ≡ some p
    → poll_index p.fd ps ≡ some i
unfolding poll_index
poll_index-found i p [] d h = cc
poll_index-found zero p (q ∷ ps) d h = ground (arith, some-injective q p h, nat_beq_iff q.fd p.fd)
poll_index-found (suc i) p (q ∷ ps) d h = rw (other_fd, poll_index-found i p ps d.1 h) refl
  where
    other_fd : (q.fd == p.fd) ≡ false
    other_fd = ground (arith, contains-get_elem? i p ps h, nat_beq_iff q.fd p.fd)

contains-swap_remove :
    (k i fd : ℕ) (p : PollFd) (ps : List PollFd)
    → Distinct (fds_of ps)
    → get_elem? ps i ≡ some p
    → p.fd ≡ fd
    → contains (fds_of (swap_remove i ps)) k ≡ (not (fd == k) && contains (fds_of ps) k)
contains-swap_remove k i fd p ps d there same = ground (
  arith,
  contains-fds_of k (swap_remove i ps),
  contains-fds_of k ps,
  entry_of-swap_remove k i p ps d there,
)

pub disconnect_client-Serves :
    (i : ℕ) (p : PollFd) (s : Server)
    → IsValid s
    → get_elem? s.poll_fds i ≡ some p
    → Serves p.fd i s (disconnect_client i s)
unfolding disconnect_client on_found drop_poll_fd forget_client
disconnect_client-Serves i p s v there =
    let r = disconnect_channels-Run p.fd s v.tables.channels v.peopled in
    let (fds, listen) = Run-Polls r in
    let (q, there', at_fd) = same_fd_at i p s.poll_fds _ fds there in
    rw there (
      after_stays {t = disconnect_channels p.fd s.channels s} (Run-Polls r) (
        goes
          (record {
            less = length-swap_remove i q _ there';
            before = take-swap_remove i q _ there';
            others = λ k.
                contains-swap_remove k i p.fd q _ (rw (← fds) at v.tables.poll_fds) there' at_fd;
          })
          refl (rw (find-erase, (nat_beq_iff p.fd p.fd).1 refl) refl)))
