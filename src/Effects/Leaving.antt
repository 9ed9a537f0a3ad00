-- ===== src/Effects/Leaving.antt =====
-- PART and KICK as runs of effects: `handlePart` and `handleKick` of src/ChannelCommands.cpp.
use internet_relay_chat_msn.Map.{find}
use internet_relay_chat_msn.Channel.{Channel, has_client, is_operator, remove_client}
use internet_relay_chat_msn.Server.{
  Server, user_line, find_nickname, deliver, broadcast_to_channel, put_channel,
}
use internet_relay_chat_msn.Text.{Text, bytes}
use internet_relay_chat_msn.ChannelCommands.Kick.{expel, handle_kick, kick_params, kick_target}
use internet_relay_chat_msn.Base.{
  ℕ, List, ◌==◌, ◌∷◌, not, ◌≡◌, ◌||◌, [], some, nat_key, true, arith, bytes_key, nat_beq_iff, ◌++◌,
}
use internet_relay_chat_msn.ChannelCommands.Part.{
  handle_part, leave, part_all, part_one, part_params, without_member, reason_suffix,
}
use internet_relay_chat_msn.Effects.{
  Action, changes, Run, here, next, ChannelRun, same, then_step, leaves, uninvites,
}
use internet_relay_chat_msn.Effects.Membership.{ArePeopled, Run-ArePeopled}
use internet_relay_chat_msn.Effects.Rules.{
  Run-trans, one, Run-if, Run-on_found, Run-broadcast, Run-deliver, channels-broadcast,
  channels-deliver, find-put_channel,
}
use internet_relay_chat_msn.Effects.Promotion.{settle-Run}

-- A client takes itself out of a channel, or an operator does.
pub without_member-Run :
    (actor fd : ℕ) (s : Server) (ch : Channel)
    → (fd == actor || is_operator ch actor) ≡ true
    → ChannelRun actor s ch (without_member fd ch)
unfolding without_member
without_member-Run actor fd s ch allowed =
    then_step (then_step same (leaves ch fd allowed)) (uninvites (remove_client fd ch) fd)

pub by_itself : (fd : ℕ) (ch : Channel) → (fd == fd || is_operator ch fd) ≡ true
by_itself fd ch = ground (arith, nat_beq_iff fd fd)

module _ (action : Action) where
  leave-Run :
      (fd : ℕ) (nick : Text) (reasons : List Text) (name : Text) (ch : Channel) (t : Server)
      → ArePeopled t
      → find name t.channels ≡ some ch
      → Run fd action t (leave fd nick reasons name ch t)
  unfolding leave
  leave-Run fd nick reasons name ch t v f = Run-trans told (
      settle-Run fd action name ch' _ (Run-ArePeopled told v)
        (rw (channels-deliver, channels-broadcast) (find-put_channel name ch ch' t f)))
    where
      ch' : Channel
      ch' = without_member fd ch

      line : Text
      line = user_line nick (bytes "PART " ++ (name ++ reason_suffix reasons))

      told :
          Run fd action t
            (deliver fd line (broadcast_to_channel ch' (some fd) line (put_channel name ch' t)))
      told = Run-deliver fd line (
          Run-broadcast ch' (some fd) line
            (one (changes t name ch ch' f (without_member-Run fd fd t ch (by_itself fd ch)))))

  part_one-Run :
      (fd : ℕ) (nick : Text) (reasons : List Text) (name : Text) (t : Server)
      → ArePeopled t
      → Run fd action t (part_one fd nick reasons name t)
  unfolding part_one
  part_one-Run fd nick reasons name t v =
      Run-on_found (find name t.channels) _ _ (Run-deliver fd _ here) λ ch f.
        Run-if (not (has_client ch fd)) _ _ (λ _. Run-deliver fd _ here)
          λ _. leave-Run fd nick reasons name ch t v f

  part_all-Run :
      (fd : ℕ) (nick : Text) (reasons names : List Text) (t : Server)
      → ArePeopled t
      → Run fd action t (part_all fd nick reasons names t)
  unfolding part_all
  part_all-Run fd nick reasons [] t v = here
  part_all-Run fd nick reasons (name ∷ names) t v =
      let r : Run fd action t (part_one fd nick reasons name t) =
        part_one-Run fd nick reasons name t v in
      Run-trans r (part_all-Run fd nick reasons names _ (Run-ArePeopled r v))

  part_params-Run :
      (fd : ℕ) (nick : Text) (params : List Text) (t : Server)
      → ArePeopled t
      → Run fd action t (part_params fd nick params t)
  unfolding part_params
  part_params-Run fd nick [] t v = Run-deliver fd _ here
  part_params-Run fd nick (channels ∷ reasons) t v = part_all-Run fd nick reasons _ t v

  pub handle_part-Run :
      (fd : ℕ) (params : List Text) (t : Server)
      → ArePeopled t
      → Run fd action t (handle_part fd params t)
  unfolding handle_part
  handle_part-Run fd params t v = Run-on_found (find fd t.clients) t _ here λ c f.
      Run-if (not c.registered) _ _ (λ _. Run-deliver fd _ here)
        λ _. part_params-Run fd c.nickname params t v

  expel-Run :
      (fd : ℕ) (nick : Text) (target : ℕ) (target_nick : Text) (reasons : List Text) (name : Text)
      (ch : Channel) (t : Server)
      → ArePeopled t
      → find name t.channels ≡ some ch
      → is_operator ch fd ≡ true
      → Run fd action t (expel fd nick target target_nick reasons name ch t)
  unfolding expel
  expel-Run fd nick target target_nick reasons name ch t v f op = Run-trans expelled (
      settle-Run fd action name ch' _ (Run-ArePeopled expelled v)
        (find-put_channel name ch ch' told f'))
    where
      ch' : Channel
      ch' = without_member target ch

      line : Text
      line =
          user_line nick
            (bytes "KICK " ++ (name ++ (bytes " " ++ (target_nick ++ reason_suffix reasons))))

      told : Server
      told = deliver fd line (broadcast_to_channel ch (some fd) line t)

      f' : find name told.channels ≡ some ch
      f' = rw (channels-deliver, channels-broadcast) f

      expelled : Run fd action t (put_channel name ch' told)
      expelled =
          next (Run-deliver fd line (Run-broadcast ch (some fd) line here)) (
            changes told name ch ch' f' (without_member-Run fd target told ch (ground (arith, op))))

  kick_target-Run :
      (fd : ℕ) (nick target_nick : Text) (reasons : List Text) (name : Text) (ch : Channel)
      (t : Server)
      → ArePeopled t
      → find name t.channels ≡ some ch
      → is_operator ch fd ≡ true
      → Run fd action t (kick_target fd nick target_nick reasons name ch t)
  unfolding kick_target
  kick_target-Run fd nick target_nick reasons name ch t v f op =
      Run-on_found (find_nickname target_nick t.clients) _ _ (Run-deliver fd _ here) λ target _.
        Run-if (not (has_client ch target.0)) _ _ (λ _. Run-deliver fd _ here)
          λ _. expel-Run fd nick target.0 target_nick reasons name ch t v f op

  kick_params-Run :
      (fd : ℕ) (nick : Text) (params : List Text) (t : Server)
      → ArePeopled t
      → Run fd action t (kick_params fd nick params t)
  unfolding kick_params
  kick_params-Run fd nick [] t v = Run-deliver fd _ here
  kick_params-Run fd nick (name ∷ []) t v = Run-deliver fd _ here
  kick_params-Run fd nick (name ∷ target_nick ∷ reasons) t v =
      Run-on_found (find name t.channels) _ _ (Run-deliver fd _ here) λ ch f.
        Run-if (not (has_client ch fd)) _ _ (λ _. Run-deliver fd _ here)
          λ _.
            Run-if (not (is_operator ch fd)) _ _ (λ _. Run-deliver fd _ here)
              λ op. kick_target-Run fd nick target_nick reasons name ch t v f (ground arith)

  pub handle_kick-Run :
      (fd : ℕ) (params : List Text) (t : Server)
      → ArePeopled t
      → Run fd action t (handle_kick fd params t)
  unfolding handle_kick
  handle_kick-Run fd params t v = Run-on_found (find fd t.clients) t _ here λ c f.
      Run-if (not c.registered) _ _ (λ _. Run-deliver fd _ here)
        λ _. kick_params-Run fd c.nickname params t v
