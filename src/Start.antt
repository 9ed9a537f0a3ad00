-- ===== src/Start.antt =====
-- `main` of src/main.cpp. What `setupSocket` of src/Server.cpp opens on a port is an argument, `none` where
-- the constructor throws.
use internet_relay_chat_msn.Port.{is_valid_port, is_valid_port_exact}
use internet_relay_chat_msn.Validity.{IsValid}
use internet_relay_chat_msn.EventLoop.Runs.{AreFreshAlways, server_of, run-IsValid}
use internet_relay_chat_msn.Server.{Server, Revents}
use internet_relay_chat_msn.Text.{Text}
use internet_relay_chat_msn.EventLoop.{Progress, Round, running, returned, threw, run, started}
use internet_relay_chat_msn.Base.{
  List, Option, none, on_found, some, ◌≡◌, ℕ, ◌∷◌, if◌then◌else◌, [], is_empty, false, true, ◌==◌,
  nat_key, ◌≤◌, Option-cases, inl, inr, Bool-cases, refl,
}

-- What becomes of the program: it refuses its arguments, it has a fatal error before it serves, or it
-- serves.
pub data Launch : Type 0 where
  refused : Launch
  failed : Launch
  served : Progress → Launch

unfoldable pub launch : List Text → (ℕ → Option ℕ) → List Round → Launch
launch [] setup rounds = refused
launch (port ∷ []) setup rounds = refused
launch (port ∷ password ∷ []) setup rounds = on_found (is_valid_port port) refused λ n.
    if is_empty password
    then refused
    else on_found (setup n) failed (λ listen_fd. served (run rounds (started password listen_fd)))
launch (port ∷ password ∷ more ∷ rest) setup rounds = refused

-- The exit status, while there is one: an exception of `run` is caught.
unfoldable pub exit_status : Launch → Option ℕ
exit_status refused = some 1
exit_status failed = some 1
exit_status (served (running s)) = none
exit_status (served (returned s)) = some 0
exit_status (served (threw s)) = some 1

status : ◌≡◌ {A = Option ℕ} (some 1) (some 0) → ⊥
status e = cc e

unstopped : ◌≡◌ {A = Option ℕ} none (some 0) → ⊥
unstopped e = cc e

-- A round of these finds that the server is shut down, and no poll() before it fails: `_shutdown` is set
-- when the round begins, or while poll() waits, so that poll() returns with an error.
pub data IsShutDown : List Round → Type 0 where
  at_once : {r : Round} {rounds : List Round} → r.shut_down ≡ true → IsShutDown (r ∷ rounds)
  while_polling :
      {r : Round} {rounds : List Round}
      → r.polled ≡ none
      → r.shut_down_while_polling ≡ true
      → IsShutDown (r ∷ rounds)
  later :
      {r : Round} {rounds : List Round} {ready : ℕ} {reported : ℕ → Revents}
      → r.polled ≡ some (ready, reported)
      → IsShutDown rounds
      → IsShutDown (r ∷ rounds)

run-IsShutDown :
    (rounds : List Round) (s : Server)
    → (t : Server) → run rounds s ≡ returned t
    → IsShutDown rounds
unfolding run
run-IsShutDown [] s t h = cc h
run-IsShutDown (r ∷ rounds) s t h = elim (Bool-cases r.shut_down) [
  | inl stopped ↦ at_once stopped
  | inr on ↦ elim (Option-cases r.polled) [
    | inl broken ↦ elim (Bool-cases r.shut_down_while_polling) [
      | inl stopped ↦ while_polling broken stopped
      | inr on' ↦ cc (rw (on, broken, on') at h)
    ]
    | inr ((ready, reported), polled) ↦ later polled (elim (Bool-cases (ready == 0)) [
      | inl idle ↦ run-IsShutDown rounds s t (rw (on, polled, idle) at h)
      | inr busy ↦ run-IsShutDown rounds _ t (rw (on, polled, busy) at h)
    ])
  ]
]

-- A program that served and was shut down.
pub record HasServed (args : List Text) (rounds : List Round) (l : Launch) : Type 0 where
  pub shut_down : IsShutDown rounds
  pub server : Server
  pub ended : l ≡ served (returned server)
  pub valid : IsValid server
  pub port : Text
  pub password : Text
  pub given : args ≡ port ∷ password ∷ []
  pub number : ℕ
  pub is_port : is_valid_port port ≡ some number
  pub in_range : (1 ≤ number) × (number ≤ 65535)
  pub protected : is_empty password ≡ false

-- Where accept() returns descriptors that are not open, the program exits with status 0 only after it has
-- served on a port from 1 to 65535, with a password that is not empty, and was shut down: `_shutdown` was set
-- at the start of a round or when poll() failed, and poll() had not failed before. The state in which it ends
-- is valid.
pub launch-HasServed :
    (args : List Text) (setup : ℕ → Option ℕ) (rounds : List Round)
    → AreFreshAlways rounds
    → exit_status (launch args setup rounds) ≡ some 0
    → HasServed args rounds (launch args setup rounds)
unfolding launch exit_status on_found
launch-HasServed [] setup rounds fresh h = absurd (status h)
launch-HasServed (port ∷ []) setup rounds fresh h = absurd (status h)
launch-HasServed (port ∷ password ∷ more ∷ rest) setup rounds fresh h = absurd (status h)
launch-HasServed (port ∷ password ∷ []) setup rounds fresh h =
    elim (Option-cases (is_valid_port port)) [
      | inl bad ↦ absurd (status (rw bad at h))
      | inr (n, good) ↦ elim (Bool-cases (is_empty password)) [
        | inl blank ↦ absurd (status (rw (good, blank) at h))
        | inr some_password ↦ elim (Option-cases (setup n)) [
          | inl broken ↦ absurd (status (rw (good, some_password, broken) at h))
          | inr (fd, opened) ↦
              rw (good, some_password, opened)
                (ended n good some_password (run rounds (started password fd))
                  (run-IsShutDown rounds (started password fd))
                  (run-IsValid password fd rounds fresh) (rw (good, some_password, opened) at h))
        ]
      ]
    ]
  where
    ended :
        (n : ℕ)
        → is_valid_port port ≡ some n
        → is_empty password ≡ false
        → (p : Progress) → ((t : Server) → p ≡ returned t → IsShutDown rounds)
        → IsValid (server_of p)
        → exit_status (served p) ≡ some 0
        → HasServed (port ∷ password ∷ []) rounds (served p)
    ended n good some_password (running s) stop v e = absurd (unstopped e)
    ended n good some_password (threw s) stop v e = absurd (status e)
    ended n good some_password (returned s) stop v e =
        let (full, digits, value, low, high) = (is_valid_port_exact port n).0 good in
        record {
          shut_down = stop s refl;
          server = s;
          ended = refl;
          valid = unfold server_of in v;
          port = port;
          password = password;
          given = refl;
          number = n;
          is_port = good;
          in_range = (low, high);
          protected = some_password;
        }
