-- ===== src/Sending.antt =====
-- `flushClientWrite` of src/Server.cpp on the whole state.
use internet_relay_chat_msn.Effects.Membership.{ArePeopled}
use internet_relay_chat_msn.Base.{some, none, inl, inr}
use internet_relay_chat_msn.Effects.Accounts.{keep-AreHonest, AreHonest}
use internet_relay_chat_msn.Extraction.{modify_client-ArePeopled}
use internet_relay_chat_msn.Effects.Flushing.{flush_sent-AreAwake}
use internet_relay_chat_msn.Polling.{fds_of}
use internet_relay_chat_msn.Validity.{IsValid}
use internet_relay_chat_msn.Map.{find}
use internet_relay_chat_msn.Client.{Client}
use internet_relay_chat_msn.Server.{Server, PollFd, modify_client}
use internet_relay_chat_msn.Validity.Entries.{Tables, modify_client-Tables}
use internet_relay_chat_msn.Base.{
  ℕ, on_found, List, ◌==◌, Bool-cases, ◌≡◌, Option, Option-cases, some, is_empty, ◌∷◌, inl, inr, ap,
  refl, nat_key, [], if◌then◌else◌, drop,
}
use internet_relay_chat_msn.Connection.{
  clear_pollout, disable_write, disconnect_fd, erase_out, flush_client_write, flush_sent,
}
use internet_relay_chat_msn.Events.{disconnect_fd-IsValid, client-apart}

-- What is left in the output of a client.
pub fds_of-clear_pollout : (k : ℕ) (ps : List PollFd) → fds_of (clear_pollout k ps) ≡ fds_of ps
unfolding clear_pollout
fds_of-clear_pollout k [] = refl
fds_of-clear_pollout k (p ∷ ps) = elim (Bool-cases (p.fd == k)) [
  | inl hit ↦ rw hit refl
  | inr miss ↦ rw miss (ap (◌∷◌ p.fd) (fds_of-clear_pollout k ps))
]

disable_write-Tables : (k : ℕ) (s : Server) → Tables s → Tables (disable_write k s)
unfolding disable_write
disable_write-Tables k s v = record {
  channels = v.channels;
  clients = v.clients;
  pending_joins = v.pending_joins;
  poll_fds = rw fds_of-clear_pollout v.poll_fds;
  polled = λ fd. rw fds_of-clear_pollout (v.polled fd);
  listening = v.listening;
  waiting = v.waiting;
  named = v.named;
}

disable_write-ArePeopled : (k : ℕ) (s : Server) → ArePeopled s → ArePeopled (disable_write k s)
unfolding disable_write
disable_write-ArePeopled k s v name ch h = record {
  sound = (v name ch h).sound;
  registered = (v name ch h).registered;
}

module _ (fd n : ℕ) (c : Client) (s : Server) (f : find fd s.clients ≡ some c) (v : IsValid s) where
  erased : Server
  erased = modify_client fd (erase_out n) s

  erased-ArePeopled : ArePeopled erased
  unfolding erased erase_out
  erased-ArePeopled = modify_client-ArePeopled fd _ s (λ d r. r) v.peopled

  erased-AreHonest : AreHonest erased.clients
  unfolding erased erase_out modify_client
  erased-AreHonest =
      keep-AreHonest fd _ s.clients (λ d. refl)
        (λ d g h. record {
          password = h.password;
          nickname = h.nickname;
          passed = h.passed;
          named = h.named;
          identified = h.identified;
        })
        v.honest

  erased-Tables : Tables erased
  unfolding erased erase_out
  erased-Tables = modify_client-Tables fd _ s (λ d r. r) v.tables

  flush_sent-IsValid : IsValid (flush_sent fd n c s)
  unfolding flush_sent erased
  flush_sent-IsValid = elim (Bool-cases (is_empty (drop n c.out_buffer))) [
    | inl done ↦ rw done (record {
      peopled = disable_write-ArePeopled fd erased erased-ArePeopled;
      honest = unfold disable_write in erased-AreHonest;
      awake = rw done at (flush_sent-AreAwake fd n c s f v.awake);
      tables = disable_write-Tables fd erased erased-Tables;
    })
    | inr left ↦ rw left (record {
      peopled = erased-ArePeopled;
      honest = erased-AreHonest;
      awake = rw left at (flush_sent-AreAwake fd n c s f v.awake);
      tables = erased-Tables;
    })
  ]

pub flush_client_write-IsValid :
    (fd : ℕ) (sent : Option ℕ) (s : Server) → IsValid s → IsValid (flush_client_write fd sent s)
unfolding flush_client_write on_found
flush_client_write-IsValid fd sent s v = elim (Option-cases (find fd s.clients)) [
  | inl gone ↦ rw gone v
  | inr (c, f) ↦ elim (Bool-cases (is_empty c.out_buffer)) [
    | inl quiet ↦ rw (f, quiet) v
    | inr loud ↦ rw (f, loud) (by_answer c f sent)
  ]
]
  where
    by_answer :
        (c : Client)
        → find fd s.clients ≡ some c
        → (o : Option ℕ)
        → IsValid (elim o [
          | none ↦ disconnect_fd fd s
          | some n ↦ if n == 0 then s else flush_sent fd n c s
        ])
    by_answer c f none = disconnect_fd-IsValid fd s (client-apart fd c s v f) v
    by_answer c f (some n) = elim (Bool-cases (n == 0)) [
      | inl nothing ↦ rw nothing v
      | inr some_bytes ↦ rw some_bytes (flush_sent-IsValid fd n c s f v)
    ]
