-- ===== src/Effects/Promotion.antt =====
-- The promotion of a successor, and a channel that a member has left, as runs of effects.
use internet_relay_chat_msn.Channel.Roles.{IsSound}
use internet_relay_chat_msn.Client.{Client}
use internet_relay_chat_msn.Server.{Server, put_channel, broadcast_to_channel}
use internet_relay_chat_msn.Map.{Map, find}
use internet_relay_chat_msn.Channel.{
  has_client, Channel, has_operator, is_half_operator, remove_half_operator,
}
use internet_relay_chat_msn.Text.{Text, bytes}
use internet_relay_chat_msn.Base.{
  contains, ℕ, List, Option, ◌≡◌, some, true, is_empty, ◌∷◌, ◌∙◌, Bool-cases, none, bytes_key, ◌||◌,
  arith, nat_key, nat_beq_iff, inl, [], refl, inr, false,
}
use internet_relay_chat_msn.ChannelCommands.Part.{settle}
use internet_relay_chat_msn.ChannelCommands.Succession.{
  choose_successor, first_successor, promote, promote_successor, announce_half, or_excluded,
  without_half, mode_line,
}
use internet_relay_chat_msn.Effects.{
  Action, changes, drops, Run, here, next, same, then_step, half_lowers, raises,
}
use internet_relay_chat_msn.Effects.Membership.{ArePeopled}
use internet_relay_chat_msn.Effects.Rules.{
  one, Run-if, Run-on_found, Run-broadcast, channels-broadcast, find-put_channel,
}

first_successor-member :
    (fds : List ℕ) (excluded : Option ℕ) (clients : Map ℕ Client) {fd : ℕ}
    → first_successor fds excluded clients ≡ some fd
    → contains fds fd ≡ true
unfolding first_successor contains
first_successor-member [] excluded clients h = cc
first_successor-member (x ∷ fds) excluded clients {fd} h =
    ground (arith, first_successor-member fds excluded clients {fd = fd})

-- Whoever is chosen is a member: a halfop, a member that can succeed, or the client passed over.
choose_successor-member :
    (ch : Channel) (excluded : Option ℕ) (clients : Map ℕ Client) {fd : ℕ}
    → IsSound ch
    → ((x : ℕ) → excluded ≡ some x → has_client ch x ≡ true)
    → choose_successor ch.half_operators ch.clients excluded clients ≡ some fd
    → has_client ch fd ≡ true
unfolding choose_successor or_excluded has_client contains
choose_successor-member ch excluded clients {fd} v out h = go ch.half_operators v.half_member h
  where
    from_members :
        (o : Option ℕ)
        → first_successor ch.clients excluded clients ≡ o
        → or_excluded o excluded ≡ some fd
        → has_client ch fd ≡ true
    from_members none e q = out fd q
    from_members (some x) e q = first_successor-member ch.clients excluded clients (e ∙ q)

    go :
        (halves : List ℕ)
        → ((x : ℕ) → contains halves x ≡ true → contains ch.clients x ≡ true)
        → choose_successor halves ch.clients excluded clients ≡ some fd
        → has_client ch fd ≡ true
    go [] sub e = from_members _ refl e
    go (half ∷ halves) sub e = sub fd (ground (arith, nat_beq_iff half fd))

-- The two messages and the two changes of a promotion.
promote-Run :
    (actor : ℕ) (action : Action) (name nick : Text) (fd : ℕ) (ch : Channel) (t : Server)
    → find name t.channels ≡ some ch
    → has_client ch fd ≡ true
    → has_operator ch ≡ false
    → Run actor action t (promote name fd nick ch t)
unfolding promote announce_half without_half
promote-Run actor action name nick fd ch t f m none_yet =
    elim (Bool-cases (is_half_operator ch fd)) [
      | inl half ↦ rw half (
          let t' = put_channel name (remove_half_operator fd ch) t in
          let line = mode_line ch.name (bytes "-h") nick in
          let told = broadcast_to_channel (remove_half_operator fd ch) none line t' in
          let r : Run actor action t told =
            Run-broadcast _ none line
              (one (changes t name ch _ f (then_step same (half_lowers ch fd)))) in
          let kept : has_client (remove_half_operator fd ch) fd ≡ true =
            (unfold remove_half_operator has_client in m) in
          let found : find name told.channels ≡ some (remove_half_operator fd ch) =
            rw channels-broadcast (find-put_channel name ch _ t f) in
          Run-broadcast _ none _ (
            next r (
              changes told name _ _ found (
                then_step same (
                  raises (remove_half_operator fd ch) fd kept
                    (unfold remove_half_operator in unfold has_operator in none_yet))))))
      | inr full ↦ rw full (
          Run-broadcast _ none _
            (one (changes t name ch _ f (then_step same (raises ch fd m none_yet)))))
    ]

pub promote_successor-Run :
    (actor : ℕ) (action : Action) (name : Text) (ch : Channel) (excluded : Option ℕ) (t : Server)
    → ArePeopled t
    → find name t.channels ≡ some ch
    → ((x : ℕ) → excluded ≡ some x → has_client ch x ≡ true)
    → Run actor action t (promote_successor name ch excluded t)
unfolding promote_successor
promote_successor-Run actor action name ch excluded t v f out =
    Run-if (has_operator ch || is_empty ch.clients) t _ (λ _. here)
      λ e. Run-on_found _ t _ here λ fd chosen. Run-on_found (find fd t.clients) t _ here λ c _.
        promote-Run actor action name c.nickname fd ch t f
          (choose_successor-member ch excluded t.clients (v name ch f).sound out chosen)
          (ground (arith, e))

-- A channel without members goes; another one gets an operator.
pub settle-Run :
    (actor : ℕ) (action : Action) (name : Text) (ch : Channel) (t : Server)
    → ArePeopled t
    → find name t.channels ≡ some ch
    → Run actor action t (settle name ch t)
unfolding settle
settle-Run actor action name ch t v f =
    Run-if (is_empty ch.clients) _ _ (λ e. one (drops t name ch f e))
      (λ _. promote_successor-Run actor action name ch none t v f (λ x e. cc))
