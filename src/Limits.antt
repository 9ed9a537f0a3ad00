-- ===== src/Limits.antt =====
-- The limit of a channel (MODE +l) and `handleJoin` in src/ChannelCommands.cpp.
use internet_relay_chat_msn.Client.{Client}
use internet_relay_chat_msn.Map.{Map, find}
use internet_relay_chat_msn.Server.{Server}
use internet_relay_chat_msn.Base.{
  ℕ, List, ◌≡◌, length, ◌≤◌, true, Bool, ◌+◌, arith, some, false, if◌then◌else◌, length-append, ap,
  not, bytes_key, refl, ◌∷◌, nat_key, ◌&&◌, [], ◌||◌, leb, contains,
}
use internet_relay_chat_msn.Text.{Text}
use internet_relay_chat_msn.ChannelCommands.Join.{
  enter, is_full, knock, lacks_invite, wrong_key, starts_with_hash, handle_join,
  get_or_create_channel,
}
use internet_relay_chat_msn.Channel.{Channel, add_client, remove_invite, has_client, add_operator}
use internet_relay_chat_msn.Admission.{
  handle_join-knock, clients-enter, knock-found, find-get_or_create_channel,
}

-- A channel with a limit has no more members than that.
unfoldable pub is_within_limit : Channel → Bool
is_within_limit ch = not ch.limit_enabled || leb (length ch.clients) ch.limit

limits-enter :
    (fd : ℕ) (nick : Text) (clients : Map ℕ Client) (ch : Channel)
    → ((enter fd nick clients ch).limit_enabled ≡ ch.limit_enabled)
      × ((enter fd nick clients ch).limit ≡ ch.limit)
unfolding enter remove_invite add_operator add_client
limits-enter fd nick clients ch = ground arith

length-add_client :
    (fd : ℕ) (ch : Channel) → length (add_client fd ch).clients ≤ length ch.clients + 1
unfolding add_client
length-add_client fd ch = ground (arith, length-append ch.clients (fd ∷ []))

enter-is_within_limit :
    (fd : ℕ) (nick : Text) (clients : Map ℕ Client) (ch : Channel)
    → is_full ch ≡ false
    → is_within_limit (enter fd nick clients ch) ≡ true
unfolding is_full is_within_limit
enter-is_within_limit fd nick clients ch room = ground (
  arith,
  limits-enter fd nick clients ch,
  clients-enter fd nick clients ch,
  ap length (clients-enter fd nick clients ch),
  length-add_client fd ch,
)

-- A knock of a client that was outside never takes a channel over its limit: where the channel was
-- within it, a channel still stands under the name afterwards, and is within its limit.
knock-is_within_limit :
    (fd : ℕ) (nick : Text) (keys : List Text) (name : Text) (ch : Channel) (s : Server)
    → has_client ch fd ≡ false
    → find name s.channels ≡ some ch
    → is_within_limit ch ≡ true
    → (ch' : Channel) × (find name (knock fd nick keys name ch s).channels ≡ some ch')
      × (is_within_limit ch' ≡ true)
knock-is_within_limit fd nick keys name ch s out f within = (
  _,
  knock-found fd nick keys name ch s out f,
  decided (lacks_invite fd ch) (wrong_key keys ch) (is_full ch) refl,
)
  where
    decided :
        (uninvited locked full : Bool)
        → is_full ch ≡ full
        → is_within_limit
            (if not uninvited && not locked && not full then enter fd nick s.clients ch else ch)
          ≡ true
    decided true locked full e = within
    decided false true full e = within
    decided false false true e = within
    decided false false false e = enter-is_within_limit fd nick s.clients ch e

-- A JOIN of a registered client that was outside never takes the channel over its limit: where the
-- channel was within it, a channel still stands under the name afterwards, and is within its limit. The
-- name begins with `#` and has no comma.
pub handle_join-is_within_limit :
    (fd : ℕ) (name : Text) (keys : List Text) (ch : Channel) (c : Client) (s : Server)
    → find fd s.clients ≡ some c
    → c.registered ≡ true
    → starts_with_hash name ≡ true
    → contains name b',' ≡ false
    → find name s.channels ≡ some ch
    → has_client ch fd ≡ false
    → is_within_limit ch ≡ true
    → (ch' : Channel) × (find name (handle_join fd (name ∷ keys) s).channels ≡ some ch')
      × (is_within_limit ch' ≡ true)
handle_join-is_within_limit fd name keys ch c s f registered hash comma found out within =
    rw (handle_join-knock fd name keys ch c s f registered hash comma found) (
      knock-is_within_limit fd c.nickname keys name ch (get_or_create_channel name s) out
        (find-get_or_create_channel name ch s found) within)
