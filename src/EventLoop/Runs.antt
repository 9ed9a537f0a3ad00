-- ===== src/EventLoop/Runs.antt =====
-- `Server::run` of src/Server.cpp from `setupSocket` on, over any number of rounds.
use internet_relay_chat_msn.Base.{none, some}
use internet_relay_chat_msn.Base.{true, false, inl, inr}
use internet_relay_chat_msn.EventLoop.Ends.{serve_round-HasEnded}
use internet_relay_chat_msn.Polling.{fds_of}
use internet_relay_chat_msn.EventLoop.Entry.{AreFresh}
use internet_relay_chat_msn.Validity.{IsValid}
use internet_relay_chat_msn.Map.{find}
use internet_relay_chat_msn.Effects.Wakeup.{wants_write, is_quiet}
use internet_relay_chat_msn.Connection.{new_poll_fd}
use internet_relay_chat_msn.Server.{Revents, Server, PollFd, is_connected}
use internet_relay_chat_msn.Base.{
  List, ℕ, ◌∷◌, ◌≡◌, Bool, [], Option, ap, on_found, refl, if◌then◌else◌, contains, arith, ◌==◌,
  Bool-cases, nat_key,
}
use internet_relay_chat_msn.EventLoop.{
  Progress, report, run, serve_round, started, Round, Answers, running, returned, threw,
}
use internet_relay_chat_msn.Text.{Text}

fds_of-report :
    (reported : ℕ → Revents) (ps : List PollFd) → fds_of (report reported ps) ≡ fds_of ps
unfolding report
fds_of-report reported [] = refl
fds_of-report reported (p ∷ ps) = ap (◌∷◌ p.fd) (fds_of-report reported ps)

wants_write-report :
    (fd : ℕ) (reported : ℕ → Revents) (ps : List PollFd)
    → wants_write fd (report reported ps) ≡ wants_write fd ps
unfolding report wants_write
wants_write-report fd reported [] = refl
wants_write-report fd reported (p ∷ ps) = rw (wants_write-report fd reported ps) refl

report-IsValid :
    (reported : ℕ → Revents) (s : Server)
    → IsValid s
    → IsValid (record s { poll_fds = report reported s.poll_fds })
report-IsValid reported s v = record {
  peopled = λ name ch h. record {
    sound = (v.peopled name ch h).sound;
    registered = (v.peopled name ch h).registered;
  };
  honest = v.honest;
  awake = λ fd. rw wants_write-report (v.awake fd);
  tables = record {
    channels = v.tables.channels;
    clients = v.tables.clients;
    pending_joins = v.tables.pending_joins;
    poll_fds = rw fds_of-report v.tables.poll_fds;
    polled = λ fd. rw fds_of-report (v.tables.polled fd);
    listening = v.tables.listening;
    waiting = v.tables.waiting;
    named = v.tables.named;
  };
}

started-IsValid : (password : Text) (listen_fd : ℕ) → IsValid (started password listen_fd)
unfolding started new_poll_fd find is_quiet on_found is_connected contains
started-IsValid password listen_fd = record {
  peopled = λ name ch h. cc h;
  honest = record { each = λ fd c h. cc h; unique = λ fd other c d h g e n. cc h };
  awake = λ fd. refl;
  tables = record {
    channels = tt;
    clients = tt;
    pending_joins = tt;
    poll_fds = (refl, tt);
    polled = λ fd. ground arith;
    listening = refl;
    waiting = λ name fds h fd m. cc h;
    named = λ name ch h. cc h;
  };
}

-- The server, whatever became of it.
unfoldable pub server_of : Progress → Server
server_of (running s) = s
server_of (returned s) = s
server_of (threw s) = s

-- In every round, accept() returns descriptors that are not open.
abbrev pub AreFreshAlways : List Round → Type 0
AreFreshAlways [] = Unit
AreFreshAlways (r ∷ rounds) = AreFresh r.answers × AreFreshAlways rounds

serve_round-IsValid :
    (answers : Answers) (s : Server)
    → AreFresh answers
    → IsValid s
    → IsValid (serve_round answers s)
unfolding serve_round
serve_round-IsValid answers s fresh v = (serve_round-HasEnded answers s fresh v).valid

rounds-IsValid :
    (rounds : List Round) (s : Server)
    → AreFreshAlways rounds
    → IsValid s
    → IsValid (server_of (run rounds s))
unfolding run server_of
rounds-IsValid [] s fresh v = v
rounds-IsValid (r ∷ rounds) s fresh v =
    by_answers (rounds-IsValid rounds) r.shut_down r.shut_down_while_polling r.polled
  where
    by_answers :
        ((t : Server) → AreFreshAlways rounds → IsValid t → IsValid (server_of (run rounds t)))
        → (down late : Bool) (o : Option (ℕ × (ℕ → Revents)))
        → IsValid (
            server_of (
              if down then returned s else elim o [
                | none ↦ if late then returned s else threw s
                | some (ready, reported) ↦
                    if ready == 0
                    then run rounds s
                    else run rounds
                        (serve_round r.answers (record s { poll_fds = report reported s.poll_fds }))
              ]))
    by_answers later true late o = v
    by_answers later false true none = v
    by_answers later false false none = v
    by_answers later false late (some (ready, reported)) = elim (Bool-cases (ready == 0)) [
      | inl idle ↦ rw idle (later s fresh.1 v)
      | inr busy ↦
          rw busy (
            later _ fresh.1 (serve_round-IsValid r.answers _ fresh.0 (report-IsValid reported s v)))
    ]

-- From the start, through any number of rounds and whatever the system answers, where accept() returns
-- descriptors that are not open, the state of the server is valid: every channel is sound, stands under
-- its name, and its members are registered clients; every account is honest and no two clients share a
-- nickname; who has output waiting is polled for POLLOUT; `_clients`, `_channels`, `_pendingJoins` and
-- `_pollFds` hold each key once; exactly the clients and the server's own descriptor are polled; and who
-- waits for a channel is registered.
pub run-IsValid :
    (password : Text) (listen_fd : ℕ) (rounds : List Round)
    → AreFreshAlways rounds
    → IsValid (server_of (run rounds (started password listen_fd)))
run-IsValid password listen_fd rounds fresh =
    rounds-IsValid rounds (started password listen_fd) fresh (started-IsValid password listen_fd)
