-- ===== src/Effects.antt =====
-- What a command may do to the server, one elementary change at a time: the specification that the
-- handlers of src/*.cpp are held to. `actor` is the client whose command runs, and `action` what the
-- command asks of the registration.
pub mod Steps
pub mod Places
pub mod Renaming
pub mod Membership
pub mod Accounts
pub mod Rules
pub mod Promotion
pub mod Joining
pub mod Leaving
pub mod Speaking
pub mod Modes
pub mod Registering
pub mod Secrecy
pub mod Refinement
pub mod Wakeup
pub mod Flushing
pub mod Honesty
pub mod Passwords
use internet_relay_chat_msn.Base.{
  ℕ, suc, ◌≡◌, Bool, true, false, not, ◌&&◌, ◌||◌, some, List, [], ◌∷◌, is_empty, nat_key,
  bytes_key, on_found, ◌==◌,
}
use internet_relay_chat_msn.Map.{Map, find, set_insert, set_erase, erase}
use internet_relay_chat_msn.Text.{Text}
use internet_relay_chat_msn.Client.{
  Client, set_nickname, add_rejected_nickname, set_username, set_registered, can_register,
}
use internet_relay_chat_msn.Channel.{
  Channel, has_client, has_operator, is_operator, is_half_operator, add_client, add_operator,
  add_half_operator, add_invite, remove_operator, remove_half_operator, remove_invite,
  remove_client, set_topic, set_topic_restricted, set_invite_only, set_key, remove_key, set_limit,
  remove_limit,
}
use internet_relay_chat_msn.Server.{Server, modify_client, append_out, enable_write, put_channel}
use internet_relay_chat_msn.ChannelCommands.Join.{
  get_or_create_channel, modify_pending, starts_with_hash, has_human_member,
}
use internet_relay_chat_msn.ChannelCommands.Part.{erase_channel}
use internet_relay_chat_msn.Registration.{accept_password}
use internet_relay_chat_msn.Registration.Nickname.{is_valid_nickname, is_taken}

pub data Action : Type 0 where
  password nickname username : Text → Action
  other : Action

unfoldable pub is_registered : ℕ → Map ℕ Client → Bool
is_registered fd clients = on_found (find fd clients) false (λ c. c.registered)

-- Halfops and operators change modes.
unfoldable pub has_rights : Channel → ℕ → Bool
has_rights ch fd = is_operator ch fd || is_half_operator ch fd

-- One change of a channel, with what permits it.
pub data ChannelStep (actor : ℕ) (s : Server) : Channel → Channel → Type 0 where
  joins :
      (ch : Channel) (fd : ℕ)
      → is_registered fd s.clients ≡ true
      → ChannelStep actor s ch (add_client fd ch)
  leaves :
      (ch : Channel) (fd : ℕ)
      → (fd == actor || is_operator ch actor) ≡ true
      → ChannelStep actor s ch (remove_client fd ch)
  invites :
      (ch : Channel) (fd : ℕ)
      → is_operator ch actor ≡ true
      → ChannelStep actor s ch (add_invite fd ch)
  uninvites : (ch : Channel) (fd : ℕ) → ChannelStep actor s ch (remove_invite fd ch)
  -- Only where nobody is an operator, or by founding: by coming where there is no member but bots.
  raises :
      (ch : Channel) (fd : ℕ)
      → has_client ch fd ≡ true
      → has_operator ch ≡ false
      → ChannelStep actor s ch (add_operator fd ch)
  founds :
      (ch : Channel) (fd : ℕ)
      → is_registered fd s.clients ≡ true
      → has_human_member ch.clients s.clients ≡ false
      → ChannelStep actor s ch (add_operator fd (remove_invite fd (add_client fd ch)))
  half_raises :
      (ch : Channel) (fd : ℕ)
      → is_operator ch actor ≡ true
      → has_client ch fd ≡ true
      → ChannelStep actor s ch (add_half_operator fd ch)
  lowers :
      (ch : Channel) (fd : ℕ)
      → is_operator ch actor ≡ true
      → ChannelStep actor s ch (remove_operator fd ch)
  half_lowers : (ch : Channel) (fd : ℕ) → ChannelStep actor s ch (remove_half_operator fd ch)
  retitles :
      (ch : Channel) (topic : Text)
      → has_client ch actor ≡ true
      → (ch.topic_restricted && not (is_operator ch actor)) ≡ false
      → ChannelStep actor s ch (set_topic topic ch)
  restricts :
      (ch : Channel) (value : Bool)
      → has_rights ch actor ≡ true
      → ChannelStep actor s ch (set_topic_restricted value ch)
  closes :
      (ch : Channel) (value : Bool)
      → has_rights ch actor ≡ true
      → ChannelStep actor s ch (set_invite_only value ch)
  locks :
      (ch : Channel) (key : Text)
      → has_rights ch actor ≡ true
      → ChannelStep actor s ch (set_key key ch)
  unlocks : (ch : Channel) → has_rights ch actor ≡ true → ChannelStep actor s ch (remove_key ch)
  limits :
      (ch : Channel) (n : ℕ)
      → has_rights ch actor ≡ true
      → ChannelStep actor s ch (set_limit (suc n) ch)
  unlimits : (ch : Channel) → has_rights ch actor ≡ true → ChannelStep actor s ch (remove_limit ch)

pub data ChannelRun (actor : ℕ) (s : Server) (ch : Channel) : Channel → Type 0 where
  same : ChannelRun actor s ch ch
  then_step :
      {d e : Channel} → ChannelRun actor s ch d → ChannelStep actor s d e → ChannelRun actor s ch e

unfoldable pub append_all : ℕ → List Text → Server → Server
append_all fd [] s = s
append_all fd (message ∷ messages) s = append_all fd messages (append_out fd message s)

unfoldable pub drop_pending : Text → Server → Server
drop_pending name s = record s { pending_joins = erase name s.pending_joins }

-- One change of the server. A queue that grows is a queue that wakes the connection.
pub data Effect (actor : ℕ) (action : Action) : Server → Server → Type 0 where
  delivers :
      (s : Server) (fd : ℕ) (messages : List Text)
      → Effect actor action s (enable_write fd (append_all fd messages s))
  authenticates :
      (s : Server)
      → action ≡ password s.password
      → Effect actor action s (modify_client actor accept_password s)
  rejects :
      (s : Server) (nick : Text)
      → action ≡ nickname nick
      → Effect actor action s (modify_client actor (add_rejected_nickname nick) s)
  renames :
      (s : Server) (nick : Text)
      → action ≡ nickname nick
      → is_valid_nickname nick ≡ true
      → is_taken actor nick s.clients ≡ false
      → Effect actor action s (modify_client actor (set_nickname nick) s)
  identifies :
      (s : Server) (name : Text) (c : Client)
      → action ≡ username name
      → find actor s.clients ≡ some c
      → c.authenticated ≡ true
      → is_empty c.username ≡ true
      → Effect actor action s (modify_client actor (set_username name) s)
  registers :
      (s : Server) (c : Client)
      → find actor s.clients ≡ some c
      → can_register c ≡ true
      → Effect actor action s (modify_client actor (set_registered true) s)
  creates :
      (s : Server) (name : Text)
      → starts_with_hash name ≡ true
      → Effect actor action s (get_or_create_channel name s)
  changes :
      (s : Server) (name : Text) (ch ch' : Channel)
      → find name s.channels ≡ some ch
      → ChannelRun actor s ch ch'
      → Effect actor action s (put_channel name ch' s)
  drops :
      (s : Server) (name : Text) (ch : Channel)
      → find name s.channels ≡ some ch
      → is_empty ch.clients ≡ true
      → Effect actor action s (erase_channel name s)
  waits :
      (s : Server) (name : Text) (fd : ℕ)
      → is_registered fd s.clients ≡ true
      → Effect actor action s (modify_pending name (set_insert fd) s)
  stops_waiting :
      (s : Server) (name : Text) (fd : ℕ)
      → Effect actor action s (modify_pending name (set_erase fd) s)
  serves_waiting : (s : Server) (name : Text) → Effect actor action s (drop_pending name s)

pub data Run (actor : ℕ) (action : Action) (s : Server) : Server → Type 0 where
  here : Run actor action s s
  next : {t u : Server} → Run actor action s t → Effect actor action t u → Run actor action s u
