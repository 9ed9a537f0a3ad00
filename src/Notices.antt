-- ===== src/Notices.antt =====
-- NOTICE: `handlePrivmsg` of src/Messages.cpp with `isNotice`.
use internet_relay_chat_msn.Channel.{Channel, has_client}
use internet_relay_chat_msn.ChannelCommands.Join.{starts_with_hash}
use internet_relay_chat_msn.Client.{Client}
use internet_relay_chat_msn.Map.{find}
use internet_relay_chat_msn.Text.{Text, bytes}
use internet_relay_chat_msn.Base.{
  ℕ, List, on_found, true, ◌∷◌, Option-cases, ◌≡◌, inl, some, Bool-cases, ◌==◌, inr, not, nat_key,
  ◌&&◌, ◌||◌, arith, bytes_key, [],
}
use internet_relay_chat_msn.Server.{find_nickname, Server, deliver, broadcast_to_channel}
use internet_relay_chat_msn.Messages.{
  handle_privmsg, message_channel, message_nick, privmsg_params, complain, message_line,
}

-- The state after a NOTICE of a client with that nickname: as it was, or with its message delivered.
pub data IsQuiet (fd : ℕ) (nick : Text) (s : Server) : Server → Type 0 where
  ignored : IsQuiet fd nick s s
  told :
      (other : ℕ) (c : Client) (target text : Text)
      → find_nickname target s.clients ≡ some (other, c)
      → IsQuiet fd nick s (deliver other (message_line true nick target text) s)
  published :
      (name : Text) (ch : Channel) (text : Text)
      → find name s.channels ≡ some ch
      → (has_client ch fd || nick == bytes "ircbot") ≡ true
      → IsQuiet fd nick s (broadcast_to_channel ch (some fd) (message_line true nick name text) s)

notice_nick-IsQuiet :
    (fd : ℕ) (nick target text : Text) (s : Server)
    → IsQuiet fd nick s (message_nick true fd nick target text s)
unfolding message_nick complain on_found
notice_nick-IsQuiet fd nick target text s = elim (Option-cases (find_nickname target s.clients)) [
  | inl absent ↦ rw absent ignored
  | inr ((other, c), there) ↦ rw there (told other c target text there)
]

notice_channel-IsQuiet :
    (fd : ℕ) (nick target text : Text) (s : Server)
    → IsQuiet fd nick s (message_channel true fd nick target text s)
unfolding message_channel complain on_found
notice_channel-IsQuiet fd nick target text s = elim (Option-cases (find target s.channels)) [
  | inl absent ↦ rw absent ignored
  | inr (ch, there) ↦ elim (Bool-cases (not (has_client ch fd) && not (nick == bytes "ircbot"))) [
    | inl outside ↦ rw (there, outside) ignored
    | inr inside ↦ rw (there, inside) (published target ch text there (ground (arith, inside)))
  ]
]

privmsg_params-IsQuiet :
    (fd : ℕ) (nick : Text) (params : List Text) (s : Server)
    → IsQuiet fd nick s (privmsg_params true fd nick params s)
unfolding privmsg_params complain
privmsg_params-IsQuiet fd nick [] s = ignored
privmsg_params-IsQuiet fd nick (target ∷ []) s = ignored
privmsg_params-IsQuiet fd nick (target ∷ text ∷ rest) s =
    elim (Bool-cases (starts_with_hash target)) [
      | inl channel ↦ rw channel (notice_channel-IsQuiet fd nick target text s)
      | inr client ↦ rw client (notice_nick-IsQuiet fd nick target text s)
    ]

-- A NOTICE of a connected client, whatever its parameters and whether or not the client is registered, is
-- never answered with an error: the state is as it was, or a message goes to the client or to the members
-- of the channel that it names, to a channel only from a member or the bot.
pub handle_privmsg-IsQuiet :
    (fd : ℕ) (params : List Text) (c : Client) (s : Server)
    → find fd s.clients ≡ some c
    → IsQuiet fd c.nickname s (handle_privmsg true fd params s)
unfolding handle_privmsg complain on_found
handle_privmsg-IsQuiet fd params c s f = elim (Bool-cases c.registered) [
  | inl registered ↦ rw (f, registered) (privmsg_params-IsQuiet fd c.nickname params s)
  | inr stranger ↦ rw (f, stranger) ignored
]
