-- ===== src/Examples/Rounds.antt =====
-- Two rounds of `Server::run` of src/Server.cpp: a client connects, and its first lines are read.
use internet_relay_chat_msn.Client.{new_client}
use mathlib.Core.Option.{some-injective}
use internet_relay_chat_msn.Connection.{add_client, new_poll_fd, accept_new_client, no_events}
use internet_relay_chat_msn.Polling.{fds_of}
use internet_relay_chat_msn.Map.{find, insert, place}
use internet_relay_chat_msn.Server.{Server, Revents}
use internet_relay_chat_msn.EventLoop.Entry.{AreFresh}
use internet_relay_chat_msn.Validity.{IsValid}
use internet_relay_chat_msn.EventLoop.Runs.{AreFreshAlways, server_of, run-IsValid}
use internet_relay_chat_msn.EventLoop.{
  Answers, Round, serve_from, run, started, report, serve_round, serve_entry, is_idle,
}
use internet_relay_chat_msn.Base.{
  List, contains, ℕ, ◌∷◌, false, suc, ◌≡◌, on_found, some, true, [], length, ◌+◌, refl, ◌≤◌,
  nat_key, Bool-cases, arith, inr, nat_beq_iff, inl,
}
use internet_relay_chat_msn.Text.{Text, bytes}
use internet_relay_chat_msn.EventLoop.Ends.{HasEnded, serve_round-HasEnded}

unfoldable pub total : List ℕ → ℕ
total [] = 0
total (k ∷ ks) = k + total ks

contains-total : (ks : List ℕ) (k : ℕ) → contains ks k ≡ true → k ≤ total ks
unfolding contains total
contains-total [] k h = cc
contains-total (j ∷ ks) k h = ground (arith, contains-total ks k, nat_beq_iff j k)

-- accept() gives a descriptor beyond those that are open.
unfoldable pub unused : Server → ℕ
unused s = suc (total (fds_of s.poll_fds))

unused-fresh :
    (s : Server) (fd : ℕ) → some (unused s) ≡ some fd → contains (fds_of s.poll_fds) fd ≡ false
unfolding unused
unused-fresh s fd h = elim (Bool-cases (contains (fds_of s.poll_fds) fd)) [
  | inr absent ↦ absent
  | inl there ↦
      absurd
        (omega (arith, some-injective (unused s) fd h, contains-total (fds_of s.poll_fds) fd there))
]

abbrev first_lines : Text
first_lines = bytes "PASS letmein\r\nNICK neo\r\n"

unfoldable pub answering : Answers
answering n s = record {
  accepted = some (unused s);
  non_blocking = true;
  received = some first_lines;
  sent = some 10;
}

pub answering-AreFresh : AreFresh answering
unfolding answering
answering-AreFresh n s fd h = unused-fresh s fd h

unfoldable pub all_readable : ℕ → Revents
all_readable fd = record { pollin = true; pollout = true; pollerr_or_nval = false; pollhup = false }

unfoldable pub one_round : Round
one_round = record {
  shut_down = false;
  polled = some (1, all_readable);
  shut_down_while_polling = false;
  answers = answering;
}

two_rounds : List Round
two_rounds = one_round ∷ one_round ∷ []

two_rounds-AreFreshAlways : AreFreshAlways two_rounds
unfolding two_rounds one_round
two_rounds-AreFreshAlways = (answering-AreFresh, (answering-AreFresh, tt))

run-IsValid_example : IsValid (server_of (run two_rounds (started (bytes "letmein") 3)))
run-IsValid_example = run-IsValid (bytes "letmein") 3 two_rounds two_rounds-AreFreshAlways

serve_round-HasEnded_example : HasEnded (
    serve_from
      (suc (length (server_of (run two_rounds (started (bytes "letmein") 3))).poll_fds))
      answering
      0
      0
      (server_of (run two_rounds (started (bytes "letmein") 3))))
serve_round-HasEnded_example =
    serve_round-HasEnded answering (server_of (run two_rounds (started (bytes "letmein") 3)))
      answering-AreFresh (run-IsValid (bytes "letmein") 3 two_rounds two_rounds-AreFreshAlways)

-- The client of the first round is there, and polled.
clients_after :
    server_of (run (one_round ∷ []) (started [] 3))
    ≡ add_client 4
        (record (started [] 3) { poll_fds = report all_readable (started [] 3).poll_fds })
unfolding add_client server_of run one_round serve_round serve_from on_found report started
    serve_entry is_idle all_readable new_poll_fd accept_new_client answering no_events unused
    new_client total insert place find two_rounds
clients_after = refl
