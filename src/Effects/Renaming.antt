-- ===== src/Effects/Renaming.antt =====
-- NICK as a run of effects: src/Registration.cpp.
use internet_relay_chat_msn.Effects.Registering.{complete_registration-Run, announce_nick-Run}
use internet_relay_chat_msn.Registration.Nickname.{is_valid_nickname, is_taken, is_nickname_variant}
use internet_relay_chat_msn.Map.{find}
use internet_relay_chat_msn.Client.{Client, set_nickname}
use internet_relay_chat_msn.Base.{
  List, ℕ, ◌∷◌, ◌≡◌, [], false, not, ◌==◌, refl, ◌&&◌, true, bytes_key, nat_key, arith,
}
use internet_relay_chat_msn.Server.{Server, modify_client}
use internet_relay_chat_msn.Text.{Text}
use internet_relay_chat_msn.Registration.{
  handle_nick, nick_params, remember_rejected, take_nick, refuse_taken,
}
use internet_relay_chat_msn.Effects.{nickname, rejects, renames, Run, here}
use internet_relay_chat_msn.Effects.Rules.{
  Run-trans, one, Run-if, Run-on_found, Run-deliver, Run-deliver_two,
}
use internet_relay_chat_msn.Effects.Registering.{nick_action}

take_nick-Run :
    (fd : ℕ) (c : Client) (nick : Text) (t : Server)
    → is_valid_nickname nick ≡ true
    → is_taken fd nick t.clients ≡ false
    → Run fd (nickname nick) t (take_nick fd c nick t)
unfolding take_nick
take_nick-Run fd c nick t valid free =
    Run-if (c.nickname == nick) _ _ (λ _. here)
      λ _.
        Run-if (not c.registered) _ _
          (λ _. Run-trans renamed (complete_registration-Run (nickname nick) fd _))
          (λ _. Run-trans renamed (announce_nick-Run (nickname nick) fd c.nickname nick _))
  where
    renamed : Run fd (nickname nick) t (modify_client fd (set_nickname nick) t)
    renamed = one (renames t nick refl valid free)

remember_rejected-Run :
    (fd : ℕ) (c : Client) (nick : Text) (t : Server)
    → Run fd (nickname nick) t (remember_rejected fd c nick t)
unfolding remember_rejected
remember_rejected-Run fd c nick t =
    Run-if (not c.registered) _ _ (λ _. one (rejects t nick refl)) (λ _. here)

nick_params-Run :
    (fd : ℕ) (c : Client) (params : List Text) (t : Server)
    → Run fd (nick_action params) t (nick_params fd c params t)
unfolding nick_params nick_action refuse_taken
nick_params-Run fd c [] t = Run-deliver fd _ here
nick_params-Run fd c (nick ∷ []) t =
    Run-if (not (is_valid_nickname nick)) _ _ (λ _. Run-deliver fd _ here)
      λ valid.
        Run-if (not c.registered && is_nickname_variant nick c.rejected_nicknames) _ _
          (λ _. Run-deliver fd _ here)
          λ _.
            Run-if (is_taken fd nick t.clients) _ _
              (λ _. Run-deliver_two fd _ _ (remember_rejected-Run fd c nick t))
              (λ free. take_nick-Run fd c nick t (ground arith) free)
nick_params-Run fd c (nick ∷ more ∷ rest) t = Run-deliver fd _ here

pub handle_nick-Run :
    (fd : ℕ) (params : List Text) (t : Server)
    → Run fd (nick_action params) t (handle_nick fd params t)
unfolding handle_nick
handle_nick-Run fd params t =
    Run-on_found (find fd t.clients) t _ here (λ c _. nick_params-Run fd c params t)
