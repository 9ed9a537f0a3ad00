-- ===== src/Departure.antt =====
-- A client leaves one channel: a round of the first loop of `disconnectClient` in src/Server.cpp, and of
-- the loop of `handleQuit` in src/Messages.cpp.
pub mod Loop
use internet_relay_chat_msn.Map.Keys.{keys}
use internet_relay_chat_msn.Messages.{quit_channel}
use internet_relay_chat_msn.Effects.Promotion.{promote_successor-Run, settle-Run}
use internet_relay_chat_msn.Effects.Leaving.{without_member-Run, by_itself}
use internet_relay_chat_msn.Connection.{disconnect_channel}
use internet_relay_chat_msn.Effects.Membership.{ArePeopled, Run-ArePeopled}
use internet_relay_chat_msn.Channel.Roles.{IsSound}
use internet_relay_chat_msn.Client.{Client}
use internet_relay_chat_msn.Effects.Rules.{
  channels-broadcast, one, find-put_channel, Run-trans, Run-if, Run-broadcast,
}
use internet_relay_chat_msn.Map.{find, find-modify, find-erase, erase, Map}
use internet_relay_chat_msn.OneChannel.{IsClosed}
use internet_relay_chat_msn.ChannelCommands.Succession.{
  promote_successor, without_half, promote, choose_successor,
}
use internet_relay_chat_msn.Server.{
  put_channel, Server, visit_channels, broadcast_to_channel, PollFd,
}
use internet_relay_chat_msn.Channel.{
  add_operator, has_client, remove_invite, Channel, remove_half_operator, remove_client,
  remove_operator, has_operator,
}
use internet_relay_chat_msn.Text.{Text}
use internet_relay_chat_msn.ChannelCommands.Part.{without_member, erase_channel, settle}
use internet_relay_chat_msn.Base.{
  ℕ, Option, none, some, Bool, true, false, refl, ◌≡◌, List, [], ◌∷◌, on_found, ◌==◌, ◌∙◌, arith,
  bytes_key, sym, contains-erase_first_self, nat_key, if◌then◌else◌, ◌||◌, is_empty, same_bytes_iff,
  Bool-cases, inl, inr, contains, Distinct, bytes_before, same_bytes,
}
use mathlib.Core.Option.{some-injective}
use internet_relay_chat_msn.Effects.{other, next, Run, changes, drops, here}
use internet_relay_chat_msn.Operators.{promote-found}

-- The channels under other names.
pub record Elsewhere (name : Text) (s t : Server) : Type 0 where
  pub kept :
      (at_name : Text)
      → (name == at_name) ≡ false
      → find at_name t.channels ≡ find at_name s.channels

pub Elsewhere-IsClosed : (name : Text) → IsClosed name (Elsewhere name)
unfolding put_channel erase_channel
Elsewhere-IsClosed name = record {
  unchanged = λ s. record { kept = λ n h. refl };
  both = λ s t u a b. record { kept = λ n h. b.kept n h ∙ a.kept n h };
  told = λ ch sender message s. record { kept = λ n h. rw channels-broadcast refl };
  written = λ ch s. record { kept = λ n h. rw (find-modify, h) refl };
  erased = λ s. record { kept = λ n h. rw (find-erase, h) refl };
}

-- Whoever is no member of the channel and has no invitation to it.
abbrev pub IsOutside : (fd : ℕ) (ch : Channel) → Type 0
IsOutside fd ch = (has_client ch fd ≡ false) × (contains ch.invited fd ≡ false)

-- Whoever is outside every channel under the name.
abbrev pub IsAbsentAt : (fd : ℕ) (name : Text) (s : Server) → Type 0
IsAbsentAt fd name s = (ch : Channel) → find name s.channels ≡ some ch → IsOutside fd ch

without_member-absent : (fd : ℕ) (ch : Channel) → IsSound ch → IsOutside fd (without_member fd ch)
unfolding without_member has_client remove_invite remove_client remove_operator remove_half_operator
without_member-absent fd ch v = (
  contains-erase_first_self ch.clients fd v.clients,
  contains-erase_first_self ch.invited fd v.invited,
)

promoted-absent :
    (fd x : ℕ) (ch : Channel) → IsOutside fd ch → IsOutside fd (add_operator x (without_half x ch))
unfolding has_client
promoted-absent fd x ch out = rw (clients-promoted, invited-promoted) out
  where
    clients-promoted : (add_operator x (without_half x ch)).clients ≡ ch.clients
    clients-promoted =
        unfold add_operator in unfold without_half in unfold remove_half_operator in ground arith

    invited-promoted : (add_operator x (without_half x ch)).invited ≡ ch.invited
    invited-promoted =
        unfold add_operator in unfold without_half in unfold remove_half_operator in ground arith

promote_successor-absent :
    (fd : ℕ) (name : Text) (ch : Channel) (excluded : Option ℕ) (s : Server)
    → find name s.channels ≡ some ch
    → IsOutside fd ch
    → IsAbsentAt fd name (promote_successor name ch excluded s)
unfolding promote_successor on_found
promote_successor-absent fd name ch excluded s f out =
    by_test (has_operator ch || is_empty ch.clients)
  where
    as_before : IsAbsentAt fd name s
    as_before d g = rw (← some-injective ch d (sym f ∙ g)) out

    by_client :
        (x : ℕ) (o : Option Client)
        → IsAbsentAt fd name (on_found o s (λ c. promote name x c.nickname ch s))
    by_client x none d g = as_before d g
    by_client x (some c) d g =
        rw (some-injective d _ (sym g ∙ promote-found name c.nickname x ch s f))
          (promoted-absent fd x ch out)

    chosen :
        (o : Option ℕ)
        → IsAbsentAt fd name (
            on_found o s (λ x. on_found (find x s.clients) s (λ c. promote name x c.nickname ch s)))
    chosen none = as_before
    chosen (some x) = by_client x (find x s.clients)

    by_test :
        (b : Bool)
        → IsAbsentAt fd name (
            if b
            then s
            else on_found
                (choose_successor ch.half_operators ch.clients excluded s.clients)
                s
                (λ x. on_found (find x s.clients) s (λ c. promote name x c.nickname ch s)))
    by_test true = as_before
    by_test false = chosen (choose_successor ch.half_operators ch.clients excluded s.clients)

erase_channel-absent :
    (fd : ℕ) (name : Text) (s : Server) → IsAbsentAt fd name (erase_channel name s)
unfolding erase_channel
erase_channel-absent fd name s d g = cc (g, nothing)
  where
    nothing : find name (erase name s.channels) ≡ none
    nothing = rw (find-erase, (same_bytes_iff name name).1 refl) refl

left_by-Run :
    (fd : ℕ) (name : Text) (ch : Channel) (s : Server)
    → find name s.channels ≡ some ch
    → Run fd other s (put_channel name (without_member fd ch) s)
left_by-Run fd name ch s f =
    one (changes s name ch _ f (without_member-Run fd fd s ch (by_itself fd ch)))

-- One channel, of a client whose descriptor is closed.
module _ (fd : ℕ) (name : Text) (ch : Channel) (s : Server) (v : ArePeopled s)
    (f : find name s.channels ≡ some ch) where
  left : Server
  left = put_channel name (without_member fd ch) s

  left-found : find name left.channels ≡ some (without_member fd ch)
  unfolding left
  left-found = find-put_channel name ch (without_member fd ch) s f

  gone : IsOutside fd (without_member fd ch)
  gone = without_member-absent fd ch (v name ch f).sound

  left-Run : Run fd other s left
  unfolding left
  left-Run = left_by-Run fd name ch s f

  pub disconnect_channel-Run : Run fd other s (disconnect_channel fd name ch s)
  unfolding disconnect_channel left
  disconnect_channel-Run = Run-trans left-Run (
      Run-if (is_empty (without_member fd ch).clients) _ _
        (λ e. one (drops left name _ left-found e))
        (λ _.
          Run-if (has_client ch fd) _ _
            (λ _.
              promote_successor-Run fd other name (without_member fd ch) none left
                (Run-ArePeopled left-Run v) left-found (λ x e. cc))
            (λ _. here)))

  pub disconnect_channel-absent : IsAbsentAt fd name (disconnect_channel fd name ch s)
  unfolding disconnect_channel left
  disconnect_channel-absent = elim (Bool-cases (is_empty (without_member fd ch).clients)) [
    | inl deserted ↦ rw deserted (erase_channel-absent fd name left)
    | inr kept ↦ rw kept (elim (Bool-cases (has_client ch fd)) [
      | inl member ↦
          rw member
            (promote_successor-absent fd name (without_member fd ch) none left left-found gone)
      | inr stranger ↦ rw stranger (λ d g. rw (← some-injective _ d (sym left-found ∙ g)) gone)
    ])
  ]

  module _ (message : Text) where
    told : Server
    told = broadcast_to_channel ch (some fd) message s

    told-found : find name told.channels ≡ some ch
    unfolding told
    told-found = rw channels-broadcast f

    told-Run : Run fd other s (put_channel name (without_member fd ch) told)
    unfolding told
    told-Run =
        Run-trans (Run-broadcast ch (some fd) message here) (left_by-Run fd name ch told told-found)

    told_left-found :
        find name (put_channel name (without_member fd ch) told).channels
        ≡ some (without_member fd ch)
    told_left-found = find-put_channel name ch (without_member fd ch) told told-found

    pub quit_channel-Run : Run fd other s (quit_channel fd message name ch s)
    unfolding quit_channel told
    quit_channel-Run =
        Run-if (has_client ch fd) _ _
          (λ _. Run-trans told-Run (
            settle-Run fd other name (without_member fd ch) _ (Run-ArePeopled told-Run v)
              told_left-found))
          (λ _. here)
