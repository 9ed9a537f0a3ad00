-- ===== src/Effects/Speaking.antt =====
-- TOPIC, INVITE, PRIVMSG, NOTICE, PING and the queries as runs of effects.
use internet_relay_chat_msn.ChannelCommands.Join.{starts_with_hash}
use internet_relay_chat_msn.Channel.{Channel, has_client, is_operator}
use internet_relay_chat_msn.Map.{find}
use internet_relay_chat_msn.Text.{Text, bytes}
use internet_relay_chat_msn.Server.{Server, find_nickname}
use internet_relay_chat_msn.Base.{
  Bool, ℕ, List, ◌∷◌, not, nat_key, ◌≡◌, [], some, bytes_key, arith, true, ◌&&◌, ◌==◌,
}
use internet_relay_chat_msn.ChannelCommands.Invite.{handle_invite, invite_params, invite_target}
use internet_relay_chat_msn.Messages.{
  complain, handle_ping, handle_privmsg, message_channel, message_nick, ping_params, privmsg_params,
}
use internet_relay_chat_msn.Queries.{
  handle_bot_channels, handle_bot_users, handle_who, handle_whois, handle_whowas, who_params,
  whois_params, whowas_params,
}
use internet_relay_chat_msn.ChannelCommands.Topic.{
  change_topic, handle_topic, topic_action, topic_params,
}
use internet_relay_chat_msn.Effects.{Action, changes, Run, here, same, then_step, retitles, invites}
use internet_relay_chat_msn.Effects.Rules.{
  one, Run-if, Run-on_found, Run-broadcast, Run-deliver, Run-deliver_two,
}

module _ (action : Action) where
  change_topic-Run :
      (fd : ℕ) (nick name topic : Text) (ch : Channel) (t : Server)
      → find name t.channels ≡ some ch
      → has_client ch fd ≡ true
      → Run fd action t (change_topic fd nick name topic ch t)
  unfolding change_topic
  change_topic-Run fd nick name topic ch t f m =
      Run-if (ch.topic_restricted && not (is_operator ch fd)) _ _ (λ _. Run-deliver fd _ here)
        λ allowed. Run-deliver fd _ (
          Run-broadcast _ (some fd) _
            (one (changes t name ch _ f (then_step same (retitles ch topic m allowed)))))

  topic_action-Run :
      (fd : ℕ) (nick name : Text) (rest : List Text) (ch : Channel) (t : Server)
      → find name t.channels ≡ some ch
      → has_client ch fd ≡ true
      → Run fd action t (topic_action fd nick name rest ch t)
  unfolding topic_action
  topic_action-Run fd nick name [] ch t f m = Run-deliver fd _ here
  topic_action-Run fd nick name (topic ∷ rest) ch t f m =
      change_topic-Run fd nick name topic ch t f m

  topic_params-Run :
      (fd : ℕ) (nick : Text) (params : List Text) (t : Server)
      → Run fd action t (topic_params fd nick params t)
  unfolding topic_params
  topic_params-Run fd nick [] t = Run-deliver fd _ here
  topic_params-Run fd nick (name ∷ rest) t =
      Run-on_found (find name t.channels) _ _ (Run-deliver fd _ here) λ ch f.
        Run-if (not (has_client ch fd)) _ _ (λ _. Run-deliver fd _ here)
          λ m. topic_action-Run fd nick name rest ch t f (ground arith)

  pub handle_topic-Run :
      (fd : ℕ) (params : List Text) (t : Server) → Run fd action t (handle_topic fd params t)
  unfolding handle_topic
  handle_topic-Run fd params t = Run-on_found (find fd t.clients) t _ here λ c f.
      Run-if (not c.registered) _ _ (λ _. Run-deliver fd _ here)
        λ _. topic_params-Run fd c.nickname params t

  invite_target-Run :
      (fd : ℕ) (nick target_nick name : Text) (ch : Channel) (t : Server)
      → find name t.channels ≡ some ch
      → is_operator ch fd ≡ true
      → Run fd action t (invite_target fd nick target_nick name ch t)
  unfolding invite_target
  invite_target-Run fd nick target_nick name ch t f op =
      Run-on_found (find_nickname target_nick t.clients) _ _ (Run-deliver fd _ here) λ target _.
        Run-deliver fd _ (
          Run-deliver target.0 _
            (one (changes t name ch _ f (then_step same (invites ch target.0 op)))))

  invite_params-Run :
      (fd : ℕ) (nick : Text) (params : List Text) (t : Server)
      → Run fd action t (invite_params fd nick params t)
  unfolding invite_params
  invite_params-Run fd nick [] t = Run-deliver fd _ here
  invite_params-Run fd nick (target_nick ∷ []) t = Run-deliver fd _ here
  invite_params-Run fd nick (target_nick ∷ name ∷ rest) t =
      Run-on_found (find name t.channels) _ _ (Run-deliver fd _ here) λ ch f.
        Run-if (not (has_client ch fd)) _ _ (λ _. Run-deliver fd _ here)
          λ _.
            Run-if (not (is_operator ch fd)) _ _ (λ _. Run-deliver fd _ here)
              λ op. invite_target-Run fd nick target_nick name ch t f (ground arith)

  pub handle_invite-Run :
      (fd : ℕ) (params : List Text) (t : Server) → Run fd action t (handle_invite fd params t)
  unfolding handle_invite
  handle_invite-Run fd params t = Run-on_found (find fd t.clients) t _ here λ c f.
      Run-if (not c.registered) _ _ (λ _. Run-deliver fd _ here)
        λ _. invite_params-Run fd c.nickname params t

  complain-Run :
      (is_notice : Bool) (fd : ℕ) (text : Text) (t : Server)
      → Run fd action t (complain is_notice fd text t)
  unfolding complain
  complain-Run is_notice fd text t = Run-if is_notice _ _ (λ _. here) (λ _. Run-deliver fd _ here)

  message_nick-Run :
      (is_notice : Bool) (fd : ℕ) (nick target text : Text) (t : Server)
      → Run fd action t (message_nick is_notice fd nick target text t)
  unfolding message_nick
  message_nick-Run is_notice fd nick target text t =
      Run-on_found (find_nickname target t.clients) _ _ (complain-Run is_notice fd _ t)
        (λ receiver _. Run-deliver receiver.0 _ here)

  message_channel-Run :
      (is_notice : Bool) (fd : ℕ) (nick target text : Text) (t : Server)
      → Run fd action t (message_channel is_notice fd nick target text t)
  unfolding message_channel
  message_channel-Run is_notice fd nick target text t =
      Run-on_found (find target t.channels) _ _ (complain-Run is_notice fd _ t) λ ch f.
        Run-if (not (has_client ch fd) && not (nick == bytes "ircbot")) _ _
          (λ _. complain-Run is_notice fd _ t) (λ _. Run-broadcast ch (some fd) _ here)

  privmsg_params-Run :
      (is_notice : Bool) (fd : ℕ) (nick : Text) (params : List Text) (t : Server)
      → Run fd action t (privmsg_params is_notice fd nick params t)
  unfolding privmsg_params
  privmsg_params-Run is_notice fd nick [] t = complain-Run is_notice fd _ t
  privmsg_params-Run is_notice fd nick (target ∷ []) t = complain-Run is_notice fd _ t
  privmsg_params-Run is_notice fd nick (target ∷ text ∷ rest) t =
      Run-if (not (starts_with_hash target)) _ _
        (λ _. message_nick-Run is_notice fd nick target text t)
        (λ _. message_channel-Run is_notice fd nick target text t)

  pub handle_privmsg-Run :
      (is_notice : Bool) (fd : ℕ) (params : List Text) (t : Server)
      → Run fd action t (handle_privmsg is_notice fd params t)
  unfolding handle_privmsg
  handle_privmsg-Run is_notice fd params t = Run-on_found (find fd t.clients) t _ here λ c f.
      Run-if (not c.registered) _ _ (λ _. complain-Run is_notice fd _ t)
        λ _. privmsg_params-Run is_notice fd c.nickname params t

  ping_params-Run :
      (fd : ℕ) (params : List Text) (t : Server) → Run fd action t (ping_params fd params t)
  unfolding ping_params
  ping_params-Run fd [] t = Run-deliver fd _ here
  ping_params-Run fd (token ∷ rest) t = Run-deliver fd _ here

  pub handle_ping-Run :
      (fd : ℕ) (params : List Text) (t : Server) → Run fd action t (handle_ping fd params t)
  unfolding handle_ping
  handle_ping-Run fd params t =
      Run-on_found (find fd t.clients) t _ here (λ c _. ping_params-Run fd params t)

  who_params-Run :
      (fd : ℕ) (nick : Text) (params : List Text) (t : Server)
      → Run fd action t (who_params fd nick params t)
  unfolding who_params
  who_params-Run fd nick [] t = Run-deliver fd _ here
  who_params-Run fd nick (name ∷ rest) t =
      Run-on_found (find name t.channels) _ _ (Run-deliver fd _ here)
        (λ ch _. Run-deliver fd _ here)

  pub handle_who-Run :
      (fd : ℕ) (params : List Text) (t : Server) → Run fd action t (handle_who fd params t)
  unfolding handle_who
  handle_who-Run fd params t = Run-on_found (find fd t.clients) t _ here λ c f.
      Run-if (not c.registered) _ _ (λ _. Run-deliver fd _ here)
        λ _. who_params-Run fd c.nickname params t

  whois_params-Run :
      (fd : ℕ) (nick : Text) (params : List Text) (t : Server)
      → Run fd action t (whois_params fd nick params t)
  unfolding whois_params
  whois_params-Run fd nick [] t = Run-deliver fd _ here
  whois_params-Run fd nick (param ∷ rest) t = Run-deliver_two fd _ _ here

  pub handle_whois-Run :
      (fd : ℕ) (params : List Text) (t : Server) → Run fd action t (handle_whois fd params t)
  unfolding handle_whois
  handle_whois-Run fd params t = Run-on_found (find fd t.clients) t _ here λ c f.
      Run-if (not c.registered) _ _ (λ _. Run-deliver fd _ here)
        λ _. whois_params-Run fd c.nickname params t

  whowas_params-Run :
      (fd : ℕ) (nick : Text) (params : List Text) (t : Server)
      → Run fd action t (whowas_params fd nick params t)
  unfolding whowas_params
  whowas_params-Run fd nick [] t = Run-deliver fd _ here
  whowas_params-Run fd nick (asked ∷ rest) t = Run-deliver_two fd _ _ here

  pub handle_whowas-Run :
      (fd : ℕ) (params : List Text) (t : Server) → Run fd action t (handle_whowas fd params t)
  unfolding handle_whowas
  handle_whowas-Run fd params t = Run-on_found (find fd t.clients) t _ here λ c f.
      Run-if (not c.registered) _ _ (λ _. Run-deliver fd _ here)
        λ _. whowas_params-Run fd c.nickname params t

  pub handle_bot_users-Run : (fd : ℕ) (t : Server) → Run fd action t (handle_bot_users fd t)
  unfolding handle_bot_users
  handle_bot_users-Run fd t =
      Run-on_found (find fd t.clients) t _ here (λ c _. Run-deliver fd _ here)

  pub handle_bot_channels-Run : (fd : ℕ) (t : Server) → Run fd action t (handle_bot_channels fd t)
  unfolding handle_bot_channels
  handle_bot_channels-Run fd t =
      Run-on_found (find fd t.clients) t _ here (λ c _. Run-deliver fd _ here)
