-- ===== src/Effects/Honesty.antt =====
-- Honest accounts (inc/Client.hpp) under every effect.
use internet_relay_chat_msn.ChannelCommands.Part.{erase_channel}
use internet_relay_chat_msn.ChannelCommands.Join.{get_or_create_channel, modify_pending}
use internet_relay_chat_msn.Registration.{accept_password}
use internet_relay_chat_msn.Server.{Server, modify_client, append_out, enable_write, put_channel}
use internet_relay_chat_msn.Effects.{
  Action, Effect, delivers, authenticates, rejects, renames, identifies, registers, creates,
  changes, drops, waits, stops_waiting, serves_waiting, Run, here, next, append_all, drop_pending,
}
use internet_relay_chat_msn.Base.{ℕ, refl, true, [], ◌∷◌, nat_key, bytes_key, arith, List}
use internet_relay_chat_msn.Text.{Text}
use internet_relay_chat_msn.Client.{
  set_username, set_registered, set_sent_pass, set_authenticated, append_to_out_buffer,
  add_rejected_nickname,
}
use internet_relay_chat_msn.Effects.Accounts.{
  set_username-IsHonest, keep-AreHonest, register-IsHonest, rename-AreHonest,
  accept_password-IsHonest, AreHonest,
}

append_all-AreHonest :
    (fd : ℕ) (messages : List Text) (s : Server)
    → AreHonest s.clients
    → AreHonest (append_all fd messages s).clients
unfolding append_all append_out modify_client append_to_out_buffer
append_all-AreHonest fd [] s v = v
append_all-AreHonest fd (message ∷ messages) s v =
    append_all-AreHonest fd messages (append_out fd message s) (
      keep-AreHonest fd (append_to_out_buffer message) s.clients (λ c. refl)
        (λ c _ w. record {
          password = w.password;
          nickname = w.nickname;
          passed = w.passed;
          named = w.named;
          identified = w.identified;
        })
        v)

-- Every effect keeps the accounts honest and the nicknames apart.
pub Effect-AreHonest :
    {actor : ℕ} {action : Action} {s t : Server}
    → Effect actor action s t
    → AreHonest s.clients
    → AreHonest t.clients
unfolding modify_client put_channel get_or_create_channel erase_channel modify_pending drop_pending
    enable_write
Effect-AreHonest (delivers s fd messages) v = append_all-AreHonest fd messages s v
Effect-AreHonest {actor} (authenticates s e) v =
    keep-AreHonest actor accept_password s.clients
      (unfold accept_password set_sent_pass set_authenticated in λ c. refl)
      (λ c _ w. accept_password-IsHonest c w) v
Effect-AreHonest {actor} (rejects s nick e) v =
    keep-AreHonest actor (add_rejected_nickname nick) s.clients
      (unfold add_rejected_nickname in λ c. refl)
      (λ c _ w.
        unfold add_rejected_nickname in
        record {
          password = w.password;
          nickname = w.nickname;
          passed = w.passed;
          named = w.named;
          identified = w.identified;
        })
      v
Effect-AreHonest {actor} (renames s nick e valid free) v =
    rename-AreHonest actor nick s.clients valid free v
Effect-AreHonest {actor} (identifies s name c e found a fresh) v =
    keep-AreHonest actor (set_username name) s.clients (unfold set_username in λ d. refl)
      (λ d at w. set_username-IsHonest d name (ground (arith, fresh)) w) v
Effect-AreHonest {actor} (registers s c found ready) v =
    keep-AreHonest actor (set_registered true) s.clients (unfold set_registered in λ d. refl)
      (λ d at w. register-IsHonest d (ground arith) w) v
Effect-AreHonest (creates s made e) v = v
Effect-AreHonest (changes s at_name c c' f r) v = v
Effect-AreHonest (drops s gone c f e) v = v
Effect-AreHonest (waits s at_name fd e) v = v
Effect-AreHonest (stops_waiting s at_name fd) v = v
Effect-AreHonest (serves_waiting s at_name) v = v

pub Run-AreHonest :
    {actor : ℕ} {action : Action} {s t : Server}
    → Run actor action s t
    → AreHonest s.clients
    → AreHonest t.clients
Run-AreHonest here v = v
Run-AreHonest (next r e) v = Effect-AreHonest e (Run-AreHonest r v)
