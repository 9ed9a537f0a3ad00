-- ===== src/Effects/Membership.antt =====
-- The roles and the members of every channel, under every effect.
use internet_relay_chat_msn.Effects.Places.{IsPeopled, ChannelRun-IsPeopled}
use internet_relay_chat_msn.Effects.Steps.{Effect-is_registered, channels-append_all}
use internet_relay_chat_msn.Base.{
  ℕ, ◌≡◌, some, nat_key, bytes_key, arith, same_bytes_iff, contains, ◌⊎◌, inl, inr,
}
use internet_relay_chat_msn.Map.{
  Map, find, modify, insert, erase, find-modify, find-insert, find-erase,
}
use internet_relay_chat_msn.Text.{Text}
use internet_relay_chat_msn.Channel.{Channel, has_client, new_channel}
use internet_relay_chat_msn.Channel.Roles.{new_channel-IsSound}
use internet_relay_chat_msn.Server.{Server, modify_client, enable_write, put_channel}
use internet_relay_chat_msn.ChannelCommands.Join.{get_or_create_channel, modify_pending}
use internet_relay_chat_msn.ChannelCommands.Part.{erase_channel}
use internet_relay_chat_msn.Effects.{
  Action, Effect, delivers, authenticates, rejects, renames, identifies, registers, creates,
  changes, drops, waits, stops_waiting, serves_waiting, Run, here, next, drop_pending,
}

-- Every channel of the server is sound, and everybody in it is registered.
abbrev pub ArePeopled : Server → Type 0
ArePeopled s = (name : Text) (ch : Channel) → find name s.channels ≡ some ch → IsPeopled s ch

-- Where the channels are the same and registrations are kept, members stay registered.
carry :
    {actor : ℕ} {action : Action} {s t : Server} {ch : Channel}
    → Effect actor action s t
    → IsPeopled s ch
    → IsPeopled t ch
carry e v = record {
  sound = v.sound;
  registered = λ fd m. Effect-is_registered fd e (v.registered fd m);
}

new_channel-IsPeopled : (s : Server) (name : Text) → IsPeopled s (new_channel name)
unfolding has_client new_channel contains
new_channel-IsPeopled s name = record { sound = new_channel-IsSound name; registered = λ fd m. cc }

-- What is found after a write at a key: the written value there, and elsewhere what was there.
found-modify :
    (k j : Text) (c : Channel) (m : Map Text Channel) {d : Channel}
    → find j (modify k (λ _. c) m) ≡ some d
    → (d ≡ c) ⊎ (find j m ≡ some d)
found-modify k j c m h = ground (arith, find-modify k j (λ _. c) m)

found-insert :
    (k j : Text) (c : Channel) (m : Map Text Channel) {d : Channel}
    → find j (insert k c m) ≡ some d
    → (d ≡ c) ⊎ (find j m ≡ some d)
found-insert k j c m h = ground (arith, find-insert k j c m, same_bytes_iff k j)

found-erase :
    (k j : Text) (m : Map Text Channel) {d : Channel}
    → find j (erase k m) ≡ some d
    → find j m ≡ some d
found-erase k j m h = ground (arith, find-erase k j m)

-- A channel found after an effect was there before, or came about soundly.
arrives :
    {actor : ℕ} {action : Action} {s t : Server}
    → Effect actor action s t
    → ArePeopled s
    → (name : Text) (ch : Channel) → find name t.channels ≡ some ch
    → IsPeopled s ch
unfolding modify_client put_channel get_or_create_channel erase_channel modify_pending drop_pending
    enable_write
arrives (delivers s fd messages) v name ch h = v name ch (rw channels-append_all at h)
arrives (authenticates s e) v name ch h = v name ch h
arrives (rejects s nick e) v name ch h = v name ch h
arrives (renames s nick e g f) v name ch h = v name ch h
arrives (identifies s user c e f a u) v name ch h = v name ch h
arrives (registers s c f k) v name ch h = v name ch h
arrives (creates s made e) v name ch h =
    elim (found-insert made name (new_channel made) s.channels h) [
      | inl fresh ↦ rw fresh (new_channel-IsPeopled s made)
      | inr old ↦ v name ch old
    ]
arrives (changes s at_name c c' f r) v name ch h =
    elim (found-modify at_name name c' s.channels h) [
      | inl new ↦ rw new (ChannelRun-IsPeopled r (v at_name c f))
      | inr old ↦ v name ch old
    ]
arrives (drops s gone c f e) v name ch h = v name ch (found-erase gone name s.channels h)
arrives (waits s at_name fd e) v name ch h = v name ch h
arrives (stops_waiting s at_name fd) v name ch h = v name ch h
arrives (serves_waiting s at_name) v name ch h = v name ch h

-- Every effect keeps every channel sound and its members registered.
pub Effect-ArePeopled :
    {actor : ℕ} {action : Action} {s t : Server}
    → Effect actor action s t
    → ArePeopled s
    → ArePeopled t
Effect-ArePeopled e v name ch h = carry e (arrives e v name ch h)

pub Run-ArePeopled :
    {actor : ℕ} {action : Action} {s t : Server}
    → Run actor action s t
    → ArePeopled s
    → ArePeopled t
Run-ArePeopled here v = v
Run-ArePeopled (next r e) v = Effect-ArePeopled e (Run-ArePeopled r v)
