-- ===== src/Effects/Registering.antt =====
-- PASS, USER and CAP as runs of effects: src/Registration.cpp.
use internet_relay_chat_msn.Map.{find, find-modify}
use internet_relay_chat_msn.Client.{Client, can_register, append_to_out_buffer, set_registered}
use internet_relay_chat_msn.Base.{
  List, ℕ, ◌∷◌, is_empty, ◌≡◌, [], false, not, ◌==◌, refl, some, ◌++◌, true, bytes_key, nat_key,
  arith, Bool-cases, inl, ap, same_bytes_iff, nat_beq_iff, inr, on_found,
}
use internet_relay_chat_msn.Server.{
  server_line, deliver, Server, append_out, modify_client, enable_write,
}
use internet_relay_chat_msn.Text.{Text, bytes}
use internet_relay_chat_msn.Registration.{
  announce_nick, cap_params, cap_request, check_password, complete_registration,
  enable_write_if_queued, enter_network, handle_cap, handle_pass, handle_user, pass_params,
  tell_all, user_params, welcome_line, general_is_closed,
}
use internet_relay_chat_msn.Effects.{
  Action, password, nickname, username, other, delivers, authenticates, identifies, registers, Run,
  here, next, append_all,
}
use internet_relay_chat_msn.Effects.Rules.{
  Run-trans, one, Run-if, Run-on_found, Run-deliver, Run-send_reply,
}
use internet_relay_chat_msn.Effects.Joining.{handle_join-Run}

-- What a command asks of the registration.
unfoldable pub pass_action : List Text → Action
pass_action (given ∷ []) = password given
pass_action params = other

unfoldable pub nick_action : List Text → Action
nick_action (nick ∷ []) = nickname nick
nick_action params = other

unfoldable pub user_action : List Text → Action
user_action (name ∷ mode ∷ unused ∷ realname ∷ []) = username name
user_action params = other

is_empty-append : (xs ys : Text) → is_empty ys ≡ false → is_empty (xs ++ ys) ≡ false
is_empty-append [] ys h = h
is_empty-append (x ∷ xs) ys h = refl

is_empty-server_line : (text : Text) → is_empty (server_line text) ≡ false
unfolding server_line bytes
is_empty-server_line text = refl

-- A reply that is queued wakes the connection.
Run-enable_write_if_queued :
    (fd : ℕ) (action : Action) {s t : Server}
    → Run fd action s t
    → Run fd action s (enable_write_if_queued fd t)
unfolding enable_write_if_queued append_all
Run-enable_write_if_queued fd action {t = t} r =
    Run-on_found (find fd t.clients) _ _ r
      λ c _. Run-if (not (is_empty c.out_buffer)) _ _ (λ _. next r (delivers t fd [])) (λ _. r)

enable_write_if_queued-append_out :
    (fd : ℕ) (text : Text) (c : Client) (t : Server)
    → find fd t.clients ≡ some c
    → enable_write_if_queued fd (append_out fd (server_line text) t)
      ≡ deliver fd (server_line text) t
unfolding enable_write_if_queued deliver on_found enable_write
enable_write_if_queued-append_out fd text c t f = rw (queued, on_found) (rw waiting)
  where
    written : Client
    written = append_to_out_buffer (server_line text) c

    queued : find fd (append_out fd (server_line text) t).clients ≡ some written
    queued =
        unfold append_out modify_client in
        ground (
          arith,
          find-modify fd fd (append_to_out_buffer (server_line text)) t.clients,
          nat_beq_iff fd fd,
          f,
        )

    waiting : is_empty written.out_buffer ≡ false
    waiting =
        unfold append_to_out_buffer in
        is_empty-append c.out_buffer (server_line text) (is_empty-server_line text)

check_password-Run :
    (fd : ℕ) (given : Text) (c : Client) (t : Server)
    → find fd t.clients ≡ some c
    → Run fd (password given) t (check_password fd given t)
unfolding check_password
check_password-Run fd given c t f = elim (Bool-cases (given == t.password)) [
  | inl right ↦ rw right (
      Run-enable_write_if_queued fd (password given)
        (one (authenticates t (ap password ((same_bytes_iff given t.password).0 right)))))
  | inr wrong ↦ rw (wrong) (
      rw (enable_write_if_queued-append_out fd (bytes "464 * :Password incorrect") c t f)
        (Run-deliver fd _ here))
]

pass_params-Run :
    (fd : ℕ) (c : Client) (params : List Text) (t : Server)
    → find fd t.clients ≡ some c
    → Run fd (pass_action params) t (pass_params fd c params t)
unfolding pass_params pass_action
pass_params-Run fd c [] t f = Run-deliver fd _ here
pass_params-Run fd c (given ∷ []) t f =
    Run-if c.sent_pass _ _ (λ _. Run-deliver fd _ here) (λ _. check_password-Run fd given c t f)
pass_params-Run fd c (given ∷ more ∷ rest) t f = Run-deliver fd _ here

pub handle_pass-Run :
    (fd : ℕ) (params : List Text) (t : Server)
    → Run fd (pass_action params) t (handle_pass fd params t)
unfolding handle_pass
handle_pass-Run fd params t =
    Run-on_found (find fd t.clients) t _ here (λ c f. pass_params-Run fd c params t f)

module _ (action : Action) where
  cap_request-Run :
      (fd : ℕ) (params : List Text) (t : Server) → Run fd action t (cap_request fd params t)
  unfolding cap_request
  cap_request-Run fd [] t = here
  cap_request-Run fd (capabilities ∷ rest) t = Run-deliver fd _ here

  cap_params-Run :
      (fd : ℕ) (params : List Text) (t : Server) → Run fd action t (cap_params fd params t)
  unfolding cap_params
  cap_params-Run fd [] t = here
  cap_params-Run fd (subcommand ∷ rest) t =
      Run-if (subcommand == bytes "LS") _ _ (λ _. Run-deliver fd _ here)
        λ _. Run-if (subcommand == bytes "REQ") _ _ (λ _. cap_request-Run fd rest t) (λ _. here)

  pub handle_cap-Run :
      (fd : ℕ) (params : List Text) (t : Server) → Run fd action t (handle_cap fd params t)
  unfolding handle_cap
  handle_cap-Run fd params t =
      Run-on_found (find fd t.clients) t _ here (λ c _. cap_params-Run fd params t)

  enter_network-Run :
      (fd : ℕ) (nick : Text) (c : Client) (t : Server)
      → find fd t.clients ≡ some c
      → can_register c ≡ true
      → Run fd action t (enter_network fd nick t)
  unfolding enter_network
  enter_network-Run fd nick c t f ready =
      Run-if (general_is_closed _) _ _ (λ _. welcomed)
        (λ _. Run-trans welcomed (handle_join-Run fd action fd (bytes "#general" ∷ []) _))
    where
      welcomed :
          Run fd action t
            (deliver fd (welcome_line nick) (modify_client fd (set_registered true) t))
      welcomed = Run-deliver fd _ (one (registers t c f ready))

  pub complete_registration-Run :
      (fd : ℕ) (t : Server) → Run fd action t (complete_registration fd t)
  unfolding complete_registration
  complete_registration-Run fd t =
      Run-on_found (find fd t.clients) t _ here
        λ c f. Run-if (can_register c) _ _ (enter_network-Run fd c.nickname c t f) (λ _. here)

  tell_all-Run :
      (fd : ℕ) (fds : List ℕ) (message : Text) (s t : Server)
      → Run fd action s t
      → Run fd action s (tell_all fds message t)
  unfolding tell_all
  tell_all-Run fd [] message s t r = r
  tell_all-Run fd (x ∷ fds) message s t r =
      tell_all-Run fd fds message s _ (Run-send_reply x message r)

  pub announce_nick-Run :
      (fd : ℕ) (old_nick nick : Text) (t : Server)
      → Run fd action t (announce_nick fd old_nick nick t)
  unfolding announce_nick
  announce_nick-Run fd old_nick nick t =
      Run-if (is_empty old_nick) _ _ (λ _. here) (λ _. tell_all-Run fd _ _ t t here)

set_user-Run :
    (fd : ℕ) (c : Client) (name : Text) (t : Server)
    → find fd t.clients ≡ some c
    → Run fd (username name) t (user_params fd c (name ∷ [] ∷ [] ∷ [] ∷ []) t)
unfolding user_params
set_user-Run fd c name t f =
    Run-if (not c.authenticated) _ _ (λ _. Run-deliver fd _ here)
      λ auth.
        Run-if (not (is_empty c.username)) _ _ (λ _. Run-deliver fd _ here)
          λ fresh.
            Run-trans (one (identifies t name c refl f (ground arith) (ground arith)))
              (complete_registration-Run (username name) fd _)

user_params-Run :
    (fd : ℕ) (c : Client) (params : List Text) (t : Server)
    → find fd t.clients ≡ some c
    → Run fd (user_action params) t (user_params fd c params t)
unfolding user_params user_action
user_params-Run fd c [] t f = Run-deliver fd _ here
user_params-Run fd c (a ∷ []) t f = Run-deliver fd _ here
user_params-Run fd c (a ∷ b ∷ []) t f = Run-deliver fd _ here
user_params-Run fd c (a ∷ b ∷ d ∷ []) t f = Run-deliver fd _ here
user_params-Run fd c (name ∷ mode ∷ unused ∷ realname ∷ []) t f = set_user-Run fd c name t f
user_params-Run fd c (a ∷ b ∷ d ∷ e ∷ g ∷ rest) t f = Run-deliver fd _ here

pub handle_user-Run :
    (fd : ℕ) (params : List Text) (t : Server)
    → Run fd (user_action params) t (handle_user fd params t)
unfolding handle_user
handle_user-Run fd params t =
    Run-on_found (find fd t.clients) t _ here (λ c f. user_params-Run fd c params t f)
