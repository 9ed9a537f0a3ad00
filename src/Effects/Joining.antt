-- ===== src/Effects/Joining.antt =====
-- JOIN as a run of effects: `handleJoin` of src/ChannelCommands.cpp.
use internet_relay_chat_msn.Effects.{founds}
use internet_relay_chat_msn.Map.{find, set_erase}
use internet_relay_chat_msn.Server.{Server}
use internet_relay_chat_msn.Text.{Text, bytes}
use internet_relay_chat_msn.Channel.{has_client, Channel, remove_invite, add_client}
use internet_relay_chat_msn.ChannelCommands.Join.{
  admit, enter, handle_join, join_all, join_channel, join_one, join_params, knock, welcome,
  modify_pending, refuse, lacks_invite, starts_with_hash, wrong_key, get_or_create_channel, is_full,
  has_human_member,
}
use internet_relay_chat_msn.Base.{
  ℕ, List, ◌≡◌, some, true, not, arith, ◌∷◌, bytes_key, ◌==◌, [], Bool-cases, nat_key, ◌&&◌, inl,
  inr,
}
use internet_relay_chat_msn.Effects.{
  Action, changes, creates, waits, stops_waiting, Run, here, next, ChannelRun, same, then_step,
  joins, uninvites, is_registered,
}
use internet_relay_chat_msn.Effects.Steps.{Run-is_registered}
use internet_relay_chat_msn.Effects.Rules.{
  Run-trans, one, Run-if, Run-on_found, Run-broadcast, Run-deliver, Run-deliver_three,
  registered_of,
}

module _ (actor : ℕ) (action : Action) where
  -- The entry of a registered client.
  enter-Run :
      (fd : ℕ) (nick : Text) (ch : Channel) (t : Server)
      → is_registered fd t.clients ≡ true
      → ChannelRun actor t ch (enter fd nick t.clients ch)
  unfolding enter
  enter-Run fd nick ch t reg =
      elim (Bool-cases
        (not (nick == bytes "ircbot") && not (has_human_member ch.clients t.clients))) [
          | inl first ↦ rw first (then_step same (founds ch fd reg (ground (arith, first))))
          | inr later ↦ rw later entered
        ]
    where
      entered : ChannelRun actor t ch (remove_invite fd (add_client fd ch))
      entered = then_step (then_step same (joins ch fd reg)) (uninvites (add_client fd ch) fd)

  welcome-Run :
      (fd : ℕ) (nick name : Text) (ch : Channel) (s t : Server)
      → Run actor action s t
      → Run actor action s (welcome fd nick name ch t)
  unfolding welcome
  welcome-Run fd nick name ch s t r = Run-deliver_three fd _ _ _ (Run-broadcast ch (some fd) _ r)

  admit-Run :
      (fd : ℕ) (nick name : Text) (ch : Channel) (t : Server)
      → is_registered fd t.clients ≡ true
      → find name t.channels ≡ some ch
      → Run actor action t (admit fd nick name ch t)
  unfolding admit modify_pending
  admit-Run fd nick name ch t reg f =
      let t' = modify_pending name (set_erase fd) t in
      let entry = enter-Run fd nick ch t' reg in
      welcome-Run fd nick name _ t _
        (next (one (stops_waiting t name fd)) (changes t' name ch _ f entry))

  knock-Run :
      (fd : ℕ) (nick : Text) (keys : List Text) (name : Text) (ch : Channel) (t : Server)
      → is_registered fd t.clients ≡ true
      → find name t.channels ≡ some ch
      → Run actor action t (knock fd nick keys name ch t)
  unfolding knock refuse
  knock-Run fd nick keys name ch t reg f =
      Run-if (has_client ch fd) _ _ (λ _. here)
        λ _.
          Run-if (lacks_invite fd ch) _ _ (λ _. Run-deliver fd _ (one (waits t name fd reg)))
            λ _.
              Run-if (wrong_key keys ch) _ _ (λ _. Run-deliver fd _ here)
                λ _.
                  Run-if (is_full ch) _ _ (λ _. Run-deliver fd _ here)
                    λ _. admit-Run fd nick name ch t reg f

  join_channel-Run :
      (fd : ℕ) (nick : Text) (keys : List Text) (name : Text) (t : Server)
      → is_registered fd t.clients ≡ true
      → starts_with_hash name ≡ true
      → Run actor action t (join_channel fd nick keys name t)
  unfolding join_channel
  join_channel-Run fd nick keys name t reg hash =
      Run-on_found _ _ _ made λ ch f. Run-trans made (knock-Run fd nick keys name ch _ reg' f)
    where
      made : Run actor action t (get_or_create_channel name t)
      made = one (creates t name hash)

      reg' : is_registered fd (get_or_create_channel name t).clients ≡ true
      reg' = Run-is_registered fd made reg

  join_one-Run :
      (fd : ℕ) (nick : Text) (keys : List Text) (name : Text) (t : Server)
      → is_registered fd t.clients ≡ true
      → Run actor action t (join_one fd nick keys name t)
  unfolding join_one
  join_one-Run fd nick keys name t reg =
      Run-if (name == bytes "0") _ _ (λ _. here)
        λ _.
          Run-if (starts_with_hash name) _ _ (join_channel-Run fd nick keys name t reg) (λ _. here)

  join_all-Run :
      (fd : ℕ) (nick : Text) (keys names : List Text) (t : Server)
      → is_registered fd t.clients ≡ true
      → Run actor action t (join_all fd nick keys names t)
  unfolding join_all
  join_all-Run fd nick keys [] t reg = here
  join_all-Run fd nick keys (name ∷ names) t reg =
      let r : Run actor action t (join_one fd nick keys name t) =
        join_one-Run fd nick keys name t reg in
      Run-trans r (join_all-Run fd nick keys names _ (Run-is_registered fd r reg))

  join_params-Run :
      (fd : ℕ) (nick : Text) (params : List Text) (t : Server)
      → is_registered fd t.clients ≡ true
      → Run actor action t (join_params fd nick params t)
  unfolding join_params
  join_params-Run fd nick [] t reg = Run-deliver fd _ here
  join_params-Run fd nick (channels ∷ keys) t reg = join_all-Run fd nick keys _ t reg

  pub handle_join-Run :
      (fd : ℕ) (params : List Text) (t : Server) → Run actor action t (handle_join fd params t)
  unfolding handle_join
  handle_join-Run fd params t = Run-on_found (find fd t.clients) t _ here λ c f.
      Run-if (not c.registered) _ _ (λ _. Run-deliver fd _ here)
        λ reg. join_params-Run fd c.nickname params t (registered_of fd c t f reg)
