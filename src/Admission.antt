-- ===== src/Admission.antt =====
-- Who enters a channel: the tests of `handleJoin` in src/ChannelCommands.cpp.
pub mod Permits
use Permits.{MayEnter, tests-MayEnter}
use internet_relay_chat_msn.ChannelNames.{channel_names-single}
use internet_relay_chat_msn.Client.{Client}
use internet_relay_chat_msn.Map.{Map, find, set_erase, set_insert, find-insert}
use internet_relay_chat_msn.Server.{Server, append_out, modify_client, enable_write}
use internet_relay_chat_msn.Base.{
  ◌<◌, ap, ◌↔◌, Bool-cases, inl, inr, on_found, ℕ, List, ◌≡◌, length, true, Bool, arith, some,
  false, if◌then◌else◌, not, bytes_key, refl, ◌∷◌, nat_key, ◌&&◌, [], ◌∙◌, contains, same_bytes,
  ◌==◌, same_bytes_iff, is_empty,
}
use internet_relay_chat_msn.Text.{Text, bytes}
use internet_relay_chat_msn.ChannelCommands.Join.{
  admit, enter, is_full, knock, refuse, welcome, modify_pending, lacks_invite, wrong_key,
  starts_with_hash, handle_join, join_params, get_or_create_channel, join_all, join_one,
  join_channel, channel_names,
}
use internet_relay_chat_msn.Channel.{
  is_invited, Channel, add_client, remove_invite, has_client, add_operator,
}
use internet_relay_chat_msn.Effects.Rules.{channels-broadcast, channels-deliver, find-put_channel}
use internet_relay_chat_msn.Effects.Places.{has_client-add_client}

-- Is the client in the channel of that name?
unfoldable pub is_in : Text → ℕ → Server → Bool
is_in name fd s = on_found (find name s.channels) false (λ ch. has_client ch fd)

is_in-found :
    (name : Text) (fd : ℕ) (ch : Channel) (s : Server)
    → find name s.channels ≡ some ch
    → is_in name fd s ≡ has_client ch fd
unfolding is_in on_found
is_in-found name fd ch s f = rw f refl

-- The channel as the newcomer finds it once it is in.
pub clients-enter :
    (fd : ℕ) (nick : Text) (clients : Map ℕ Client) (ch : Channel)
    → (enter fd nick clients ch).clients ≡ (add_client fd ch).clients
unfolding enter remove_invite add_operator
clients-enter fd nick clients ch = ground arith

channels-welcome :
    (fd : ℕ) (nick name : Text) (ch : Channel) (s : Server)
    → (welcome fd nick name ch s).channels ≡ s.channels
unfolding welcome append_out modify_client enable_write
channels-welcome fd nick name ch s = channels-broadcast ch (some fd) _ s

admit-found :
    (fd : ℕ) (nick name : Text) (ch : Channel) (s : Server)
    → find name s.channels ≡ some ch
    → find name (admit fd nick name ch s).channels ≡ some (enter fd nick s.clients ch)
unfolding admit
admit-found fd nick name ch s f =
    rw channels-welcome (
      find-put_channel name ch _ (modify_pending name (set_erase fd) s)
        (unfold modify_pending in f))

refuse-found :
    (fd : ℕ) (number name mode : Text) (ch : Channel) (s : Server)
    → find name s.channels ≡ some ch
    → find name (refuse fd number name mode s).channels ≡ some ch
unfolding refuse
refuse-found fd number name mode ch s f = rw channels-deliver f

-- What stands under the name after a JOIN of a client that was outside.
pub knock-found :
    (fd : ℕ) (nick : Text) (keys : List Text) (name : Text) (ch : Channel) (s : Server)
    → has_client ch fd ≡ false
    → find name s.channels ≡ some ch
    → find name (knock fd nick keys name ch s).channels
      ≡ some (
          if not (lacks_invite fd ch) && not (wrong_key keys ch) && not (is_full ch)
          then enter fd nick s.clients ch
          else ch)
unfolding knock
knock-found fd nick keys name ch s out f =
    rw out (by_cases (lacks_invite fd ch) (wrong_key keys ch) (is_full ch))
  where
    by_cases :
        (uninvited locked full : Bool)
        → find name
            (if uninvited
              then refuse fd (bytes "473") name (bytes "+i") (modify_pending name (set_insert fd) s)
              else if locked
              then refuse fd (bytes "475") name (bytes "+k") s
              else if full
              then refuse fd (bytes "471") name (bytes "+l") s
              else admit fd nick name ch s).channels
          ≡ some
              (if not uninvited && not locked && not full then enter fd nick s.clients ch else ch)
    by_cases true locked full = refuse-found fd _ name _ ch _ (unfold modify_pending in f)
    by_cases false true full = refuse-found fd _ name _ ch s f
    by_cases false false true = refuse-found fd _ name _ ch s f
    by_cases false false false = admit-found fd nick name ch s f

-- A client outside a channel is in it after its JOIN exactly when it was invited or needs no invitation,
-- gave the key or needs none, and the channel was not full.
is_in-knock :
    (fd : ℕ) (nick : Text) (keys : List Text) (name : Text) (ch : Channel) (s : Server)
    → has_client ch fd ≡ false
    → find name s.channels ≡ some ch
    → is_in name fd (knock fd nick keys name ch s)
      ≡ (not (lacks_invite fd ch) && not (wrong_key keys ch) && not (is_full ch))
is_in-knock fd nick keys name ch s out f =
    is_in-found name fd _ _ (knock-found fd nick keys name ch s out f)
    ∙ decided (not (lacks_invite fd ch) && not (wrong_key keys ch) && not (is_full ch))
  where
    inside : has_client (enter fd nick s.clients ch) fd ≡ true
    inside =
        unfold has_client in
        rw (clients-enter fd nick s.clients ch) (unfold has_client in has_client-add_client ch fd)

    decided : (b : Bool) → has_client (if b then enter fd nick s.clients ch else ch) fd ≡ b
    decided true = inside
    decided false = out

-- A name that begins with `#` is not the "0" that JOIN passes over.
starts_with_hash-zero : (name : Text) → starts_with_hash name ≡ true → (name == bytes "0") ≡ false
unfolding starts_with_hash bytes same_bytes
starts_with_hash-zero [] h = cc
starts_with_hash-zero (c ∷ name) h = ground arith

starts_with_hash-is_empty : (name : Text) → starts_with_hash name ≡ true → is_empty name ≡ false
unfolding starts_with_hash
starts_with_hash-is_empty [] h = cc
starts_with_hash-is_empty (c ∷ name) h = refl

-- A channel that exists is the one that is got.
pub find-get_or_create_channel :
    (name : Text) (ch : Channel) (s : Server)
    → find name s.channels ≡ some ch
    → find name (get_or_create_channel name s).channels ≡ some ch
unfolding get_or_create_channel
find-get_or_create_channel name ch s found =
    rw (find-insert, (same_bytes_iff name name).1 refl, found) refl

-- A JOIN of one channel is one knock.
pub handle_join-knock :
    (fd : ℕ) (name : Text) (keys : List Text) (ch : Channel) (c : Client) (s : Server)
    → find fd s.clients ≡ some c
    → c.registered ≡ true
    → starts_with_hash name ≡ true
    → contains name b',' ≡ false
    → find name s.channels ≡ some ch
    → handle_join fd (name ∷ keys) s
      ≡ knock fd c.nickname keys name ch (get_or_create_channel name s)
unfolding handle_join join_params join_all join_one join_channel on_found
handle_join-knock fd name keys ch c s f registered hash comma found =
    rw (f, registered, listed, starts_with_hash-zero name hash, hash, kept) refl
  where
    listed : channel_names (length name) name ≡ name ∷ []
    listed = channel_names-single name (starts_with_hash-is_empty name hash) comma

    kept : find name (get_or_create_channel name s).channels ≡ some ch
    kept = find-get_or_create_channel name ch s found

-- A registered client outside a channel is in it after a JOIN of it exactly when it is on the list of
-- invitations or the channel has no +i, the first key that it offers is the channel's or the channel has no
-- +k, and the channel has fewer members than its limit or no +l. The channel exists, and its name begins with
-- `#` and has no comma.
pub is_in-handle_join :
    (fd : ℕ) (name : Text) (keys : List Text) (ch : Channel) (c : Client) (s : Server)
    → find fd s.clients ≡ some c
    → c.registered ≡ true
    → starts_with_hash name ≡ true
    → contains name b',' ≡ false
    → find name s.channels ≡ some ch
    → has_client ch fd ≡ false
    → (is_in name fd (handle_join fd (name ∷ keys) s) ≡ true) ↔ MayEnter fd keys ch
is_in-handle_join fd name keys ch c s f registered hash comma found out =
    rw
      (
        handle_join-knock fd name keys ch c s f registered hash comma found,
        is_in-knock fd c.nickname keys name ch (get_or_create_channel name s) out
            (find-get_or_create_channel name ch s found),
      )
      (tests-MayEnter fd keys ch)
