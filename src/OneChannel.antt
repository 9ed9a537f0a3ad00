-- ===== src/OneChannel.antt =====
-- What the changes of one channel of src/ChannelCommands.cpp and src/Server.cpp have in common: they
-- write or erase what stands under its name, and tell people.
use internet_relay_chat_msn.Map.{find}
use internet_relay_chat_msn.Client.{Client}
use internet_relay_chat_msn.Messages.{quit_channel}
use internet_relay_chat_msn.Channel.{
  Channel, has_client, remove_half_operator, has_operator, is_half_operator,
}
use internet_relay_chat_msn.Connection.{disconnect_channel}
use internet_relay_chat_msn.ChannelCommands.Succession.{
  promote, promote_successor, announce_half, choose_successor, mode_line,
}
use internet_relay_chat_msn.ChannelCommands.Part.{settle, without_member, erase_channel}
use internet_relay_chat_msn.Server.{Server, put_channel, broadcast_to_channel}
use internet_relay_chat_msn.Text.{Text, bytes}
use internet_relay_chat_msn.Base.{
  ℕ, Option, none, some, Bool, true, false, on_found, Bool-cases, if◌then◌else◌, is_empty, inl, inr,
  ◌||◌, nat_key,
}

-- A relation between servers that holds over every such change.
pub record IsClosed (name : Text) (R : Server → Server → Type 0) : Type 0 where
  pub unchanged : (s : Server) → R s s
  pub both : (s t u : Server) → R s t → R t u → R s u
  pub told :
      (ch : Channel) (sender : Option ℕ) (message : Text) (s : Server)
      → R s (broadcast_to_channel ch sender message s)
  pub written : (ch : Channel) (s : Server) → R s (put_channel name ch s)
  pub erased : (s : Server) → R s (erase_channel name s)

module _ {name : Text} {R : Server → Server → Type 0} (c : IsClosed name R) where
  promote-closed :
      (fd : ℕ) (nick : Text) (ch : Channel) (s : Server) → R s (promote name fd nick ch s)
  unfolding promote announce_half
  promote-closed fd nick ch s =
      c.both s _ _ (halved (is_half_operator ch fd))
        (c.both _ _ _ (c.written _ _) (c.told _ none _ _))
    where
      halved :
          (b : Bool)
          → R s (
              if b
              then broadcast_to_channel
                  (remove_half_operator fd ch)
                  none
                  (mode_line ch.name (bytes "-h") nick)
                  (put_channel name (remove_half_operator fd ch) s)
              else s)
      halved true = c.both s _ _ (c.written (remove_half_operator fd ch) s) (c.told _ none _ _)
      halved false = c.unchanged s

  pub promote_successor-closed :
      (ch : Channel) (excluded : Option ℕ) (s : Server) → R s (promote_successor name ch excluded s)
  unfolding promote_successor on_found
  promote_successor-closed ch excluded s = by_test (has_operator ch || is_empty ch.clients)
    where
      by_client :
          (fd : ℕ) (o : Option Client) → R s (on_found o s (λ d. promote name fd d.nickname ch s))
      by_client fd none = c.unchanged s
      by_client fd (some d) = promote-closed fd d.nickname ch s

      chosen :
          (o : Option ℕ)
          → R s (
              on_found o s
                (λ fd. on_found (find fd s.clients) s (λ d. promote name fd d.nickname ch s)))
      chosen none = c.unchanged s
      chosen (some fd) = by_client fd (find fd s.clients)

      by_test :
          (b : Bool)
          → R s (
              if b
              then s
              else on_found
                  (choose_successor ch.half_operators ch.clients excluded s.clients)
                  s
                  (λ fd. on_found (find fd s.clients) s (λ d. promote name fd d.nickname ch s)))
      by_test true = c.unchanged s
      by_test false = chosen (choose_successor ch.half_operators ch.clients excluded s.clients)

  settle-closed : (ch : Channel) (s : Server) → R s (settle name ch s)
  unfolding settle
  settle-closed ch s = elim (Bool-cases (is_empty ch.clients)) [
    | inl deserted ↦ rw deserted (c.erased s)
    | inr left ↦ rw left (promote_successor-closed ch none s)
  ]

  pub quit_channel-closed :
      (fd : ℕ) (message : Text) (ch : Channel) (s : Server)
      → R s (quit_channel fd message name ch s)
  unfolding quit_channel
  quit_channel-closed fd message ch s = elim (Bool-cases (has_client ch fd)) [
    | inl member ↦ rw member (
        c.both s _ _
          (c.both s _ _ (c.told ch (some fd) message s) (c.written (without_member fd ch) _))
          (settle-closed (without_member fd ch) _))
    | inr absent ↦ rw absent (c.unchanged s)
  ]

  pub disconnect_channel-closed :
      (fd : ℕ) (ch : Channel) (s : Server) → R s (disconnect_channel fd name ch s)
  unfolding disconnect_channel
  disconnect_channel-closed fd ch s =
      c.both s _ _ (c.written (without_member fd ch) s)
        (by_tests (is_empty (without_member fd ch).clients) (has_client ch fd))
    where
      left : Server
      left = put_channel name (without_member fd ch) s

      by_tests :
          (deserted member : Bool)
          → R left (
              if deserted
              then erase_channel name left
              else if member
              then promote_successor name (without_member fd ch) none left
              else left)
      by_tests true member = c.erased left
      by_tests false true = promote_successor-closed (without_member fd ch) none left
      by_tests false false = c.unchanged left
