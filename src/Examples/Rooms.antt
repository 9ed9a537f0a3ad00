-- ===== src/Examples/Rooms.antt =====
-- A room with one member, and a client who knocks: `handleJoin`, `promoteSuccessor`, the output queue
-- and the parser on concrete data.
use internet_relay_chat_msn.Delivery.{flush_client_write-sent}
use internet_relay_chat_msn.Operators.{HasOperatorAt, promote_successor-HasOperatorAt}
use internet_relay_chat_msn.Parser.Words.{print}
use internet_relay_chat_msn.Parser.RoundTrip.{parse-print}
use internet_relay_chat_msn.Connection.{offered, flush_client_write}
use internet_relay_chat_msn.Parser.{parse}
use internet_relay_chat_msn.ChannelCommands.Join.{starts_with_hash, handle_join}
use internet_relay_chat_msn.Channel.Roles.{IsSound}
use internet_relay_chat_msn.ChannelCommands.Succession.{can_succeed, is_bot, promote_successor}
use internet_relay_chat_msn.Effects.{is_registered}
use internet_relay_chat_msn.Admission.Permits.{MayEnter}
use internet_relay_chat_msn.Admission.{is_in, is_in-handle_join}
use internet_relay_chat_msn.Limits.{is_within_limit, handle_join-is_within_limit}
use internet_relay_chat_msn.Map.{find}
use internet_relay_chat_msn.Client.{Client, new_client}
use internet_relay_chat_msn.Server.{Server, is_fd}
use internet_relay_chat_msn.Text.{bytes, Text, to_upper}
use internet_relay_chat_msn.Channel.{Channel, has_client, new_channel}
use internet_relay_chat_msn.Effects.Membership.{ArePeopled}
use internet_relay_chat_msn.Effects.Places.{IsPeopled}
use internet_relay_chat_msn.Examples.{two_connections}
use internet_relay_chat_msn.Base.{
  ◌↔◌, ◌≡◌, refl, true, ◌∷◌, [], same_bytes, contains, some, arith, take, bytes_key, on_found, ◌++◌,
  none, nat_key, nat_beq_iff,
}

abbrev bob : Client
bob = record (new_client (some 5)) {
  out_buffer = bytes "hello";
  nickname = bytes "bob";
  username = bytes "b";
  authenticated = true;
  sent_pass = true;
  registered = true;
}

abbrev eve : Client
eve = record (new_client (some 6)) { nickname = bytes "eve"; registered = true }

-- The room has room for two, and nobody to run it.
abbrev room : Channel
room = record (new_channel (bytes "#room")) { clients = 5 ∷ []; limit_enabled = true; limit = 2 }

abbrev one_room : Server
one_room = record two_connections {
  clients = (4, new_client (some 4)) ∷ (5, bob) ∷ (6, eve) ∷ [];
  channels = (bytes "#room", room) ∷ [];
}

one_room-found : find (bytes "#room") one_room.channels ≡ some room
unfolding find same_bytes bytes
one_room-found = refl

-- Whatever name finds a channel, it is the room.
one_room-only : (name : Text) (ch : Channel) → find name one_room.channels ≡ some ch → ch ≡ room
unfolding find
one_room-only name ch h = ground arith

room-IsSound : IsSound room
unfolding new_channel contains
room-IsSound = record {
  clients = (refl, tt);
  operators = tt;
  half_operators = tt;
  invited = tt;
  operator_member = λ fd e. cc e;
  half_member = λ fd e. cc e;
  limit = λ e. omega arith;
}

room-IsPeopled : IsPeopled one_room room
unfolding has_client contains is_registered find on_found
room-IsPeopled = record {
  sound = room-IsSound;
  registered = λ fd m. ground (arith, nat_beq_iff 5 fd);
}

one_room-ArePeopled : ArePeopled one_room
one_room-ArePeopled name ch h = rw (one_room-only name ch h) room-IsPeopled

promote_successor-HasOperatorAt_example :
    HasOperatorAt (bytes "#room") (promote_successor (bytes "#room") room none one_room)
unfolding find contains can_succeed new_channel on_found is_bot same_bytes bytes is_fd
promote_successor-HasOperatorAt_example =
    promote_successor-HasOperatorAt (bytes "#room") room none one_room 5 one_room-ArePeopled
      one_room-found refl refl

-- A room with +i, +k and +l, for which the client has an invitation and a key.
abbrev locked_room : Channel
locked_room = record room {
  invite_only = true;
  invited = 6 ∷ [];
  key_enabled = true;
  key = bytes "sesame";
}

abbrev house : Server
house = record one_room { channels = (bytes "#room", locked_room) ∷ [] }

is_in-handle_join_example :
    (is_in (bytes "#room") 6 (handle_join 6 (bytes "#room" ∷ bytes "sesame" ∷ []) house) ≡ true)
    ↔ MayEnter 6 (bytes "sesame" ∷ []) locked_room
unfolding has_client contains new_channel find bytes starts_with_hash same_bytes
is_in-handle_join_example =
    is_in-handle_join 6 (bytes "#room") (bytes "sesame" ∷ []) locked_room eve house refl refl refl
      refl refl refl

parse-print_example :
    parse (
      print (record {
        command = bytes "PRIVMSG";
        params = bytes "#room" ∷ bytes "hi all" ∷ [];
        prefix = [];
      }))
    ≡ record {
      command = bytes "PRIVMSG";
      params = bytes "#room" ∷ bytes "hi all" ∷ [];
      prefix = [];
    }
unfolding bytes contains to_upper
parse-print_example =
    parse-print
      (record {
        command = bytes "PRIVMSG";
        params = bytes "#room" ∷ bytes "hi all" ∷ [];
        prefix = [];
      })
      (record {
        command = (refl, refl, refl);
        upper = refl;
        params = ((refl, refl, refl), tt);
        prefix = refl;
      })

flush_client_write-sent_example :
    (c : Client) × (find 5 (flush_client_write 5 (some 3) one_room).clients ≡ some c)
    × (take 3 (offered bob) ++ c.out_buffer ≡ bob.out_buffer)
unfolding find bytes new_client offered
flush_client_write-sent_example = flush_client_write-sent 5 3 bob one_room refl refl (omega arith)

handle_join-is_within_limit_example :
    (ch' : Channel) × (find (bytes "#room") (handle_join 6 (bytes "#room" ∷ []) one_room).channels
      ≡ some ch')
    × (is_within_limit ch' ≡ true)
unfolding has_client contains new_channel is_within_limit find bytes starts_with_hash
handle_join-is_within_limit_example =
    handle_join-is_within_limit 6 (bytes "#room") [] room eve one_room refl refl refl refl
      one_room-found refl refl
