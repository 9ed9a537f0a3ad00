-- ===== src/Operators.antt =====
-- `promoteSuccessor` of src/ChannelCommands.cpp: who becomes the operator of a channel.
use internet_relay_chat_msn.Client.{Client}
use internet_relay_chat_msn.Map.{find, Map}
use internet_relay_chat_msn.Base.{
  ℕ, contains, ◌≡◌, true, some, Option, List, bytes_key, on_found, ◌∷◌, not, is_empty, Bool,
  Bool-cases, false, if◌then◌else◌, inl, ◌++◌, nat_key, arith, ◌&&◌, inr, [], none, nat_beq_iff,
  refl,
}
use internet_relay_chat_msn.Server.{Server, is_fd}
use internet_relay_chat_msn.Channel.{
  has_operator, add_operator, Channel, is_operator, has_client, is_half_operator,
  remove_half_operator,
}
use internet_relay_chat_msn.Text.{Text}
use internet_relay_chat_msn.ChannelCommands.Succession.{
  promote, announce_half, can_succeed, first_successor, choose_successor, promote_successor,
  or_excluded, without_half, is_bot,
}
use internet_relay_chat_msn.Effects.{is_registered}
use internet_relay_chat_msn.Effects.Membership.{ArePeopled}
use internet_relay_chat_msn.Effects.Rules.{channels-broadcast, find-put_channel}

-- What is found under a name has an operator.
abbrev pub HasOperatorAt : Text → Server → Type 0
HasOperatorAt name s = (ch : Channel) × (find name s.channels ≡ some ch) × (has_operator ch ≡ true)

has_operator-add_operator : (fd : ℕ) (ch : Channel) → has_operator (add_operator fd ch) ≡ true
unfolding has_operator add_operator is_operator contains
has_operator-add_operator fd ch = go ch.operators refl
  where
    go :
        (ops : List ℕ)
        → ch.operators ≡ ops
        → not (
            is_empty
              (if contains ch.operators fd
                then ch
                else record ch { operators = ch.operators ++ fd ∷ [] }).operators)
          ≡ true
    go [] e = rw e refl
    go (x ∷ ops) e = elim (Bool-cases (contains ch.operators fd)) [
      | inl old ↦ rw old (rw e refl)
      | inr new ↦ rw new (rw e refl)
    ]

-- What `promote` leaves under the name.
pub promote-found :
    (name nick : Text) (fd : ℕ) (ch : Channel) (t : Server)
    → find name t.channels ≡ some ch
    → find name (promote name fd nick ch t).channels ≡ some (add_operator fd (without_half fd ch))
unfolding promote announce_half
promote-found name nick fd ch t f =
    rw channels-broadcast (find-put_channel name halved.0 _ _ halved.1)
  where
    after_half :
        (b : Bool) (there : Server) {d : Channel}
        → find name there.channels ≡ some d
        → (e : Channel) × (find name (if b then there else t).channels ≡ some e)
    after_half true there {d} h = (d, h)
    after_half false there h = (ch, f)

    halved : (e : Channel) × (find name (announce_half name fd nick ch t).channels ≡ some e)
    halved =
        after_half (is_half_operator ch fd) _ {d = remove_half_operator fd ch}
          (rw channels-broadcast (find-put_channel name ch (remove_half_operator fd ch) t f))

promote-HasOperatorAt :
    (name nick : Text) (fd : ℕ) (ch : Channel) (t : Server)
    → find name t.channels ≡ some ch
    → HasOperatorAt name (promote name fd nick ch t)
promote-HasOperatorAt name nick fd ch t f = (
  add_operator fd (without_half fd ch),
  promote-found name nick fd ch t f,
  has_operator-add_operator fd (without_half fd ch),
)

-- Whoever can succeed is connected.
can_succeed-found :
    (excluded : Option ℕ) (clients : Map ℕ Client) (fd : ℕ)
    → can_succeed excluded clients fd ≡ true
    → (c : Client) × (find fd clients ≡ some c)
unfolding can_succeed
can_succeed-found excluded clients fd h = go (find fd clients) h
  where
    go :
        (o : Option Client)
        → on_found o false (λ c. not (is_fd excluded fd) && not (is_bot c)) ≡ true
        → (c : Client) × (o ≡ some c)
    go none e = unfold on_found in cc
    go (some c) e = (c, refl)

-- The search finds somebody where there is somebody to find.
first_successor-found :
    (fds : List ℕ) (excluded : Option ℕ) (clients : Map ℕ Client) (fd : ℕ)
    → contains fds fd ≡ true
    → can_succeed excluded clients fd ≡ true
    → (x : ℕ) × (first_successor fds excluded clients ≡ some x)
      × (can_succeed excluded clients x ≡ true)
unfolding first_successor contains
first_successor-found [] excluded clients fd m h = cc
first_successor-found (x ∷ fds) excluded clients fd m h =
    elim (Bool-cases (can_succeed excluded clients x)) [
      | inl good ↦ (x, rw good refl, good)
      | inr bad ↦
          let (y, e, good) =
            first_successor-found fds excluded clients fd (ground (arith, nat_beq_iff x fd, bad, h))
              h in
          (y, rw bad e, good)
    ]

registered-found :
    (fd : ℕ) (clients : Map ℕ Client)
    → is_registered fd clients ≡ true
    → (c : Client) × (find fd clients ≡ some c)
unfolding is_registered
registered-found fd clients h = go (find fd clients) h
  where
    go :
        (o : Option Client)
        → on_found o false (λ c. c.registered) ≡ true
        → (c : Client) × (o ≡ some c)
    go none e = unfold on_found in cc
    go (some c) e = (c, refl)

-- The successor that is chosen is connected.
choose_successor-found :
    (name : Text) (ch : Channel) (excluded : Option ℕ) (t : Server) (fd : ℕ)
    → ArePeopled t
    → find name t.channels ≡ some ch
    → contains ch.clients fd ≡ true
    → can_succeed excluded t.clients fd ≡ true
    → (x : ℕ) × (c : Client) × (choose_successor ch.half_operators ch.clients excluded t.clients
        ≡ some x)
      × (find x t.clients ≡ some c)
unfolding choose_successor or_excluded
choose_successor-found name ch excluded t fd v f m h = go ch.half_operators half_found
  where
    half_found :
        (x : ℕ) → contains ch.half_operators x ≡ true → (c : Client) × (find x t.clients ≡ some c)
    half_found x half =
        registered-found x t.clients
          ((v name ch f).registered x (unfold has_client in (v name ch f).sound.half_member x half))

    go :
        (halves : List ℕ)
        → ((x : ℕ) → contains halves x ≡ true → (c : Client) × (find x t.clients ≡ some c))
        → (x : ℕ) × (c : Client) × (choose_successor halves ch.clients excluded t.clients ≡ some x)
          × (find x t.clients ≡ some c)
    go [] sub =
        let (x, e, good) = first_successor-found ch.clients excluded t.clients fd m h in
        let (c, g) = can_succeed-found excluded t.clients x good in
        (x, c, rw (e, or_excluded) refl, g)
    go (half ∷ halves) sub =
        let (c, g) = sub half (unfold contains in ground (arith, nat_beq_iff half half)) in
        (half, c, refl, g)

-- Where every channel is sound and its members registered, a channel that has a member who is connected,
-- not the one passed over and not the bot has an operator after `promoteSuccessor`.
pub promote_successor-HasOperatorAt :
    (name : Text) (ch : Channel) (excluded : Option ℕ) (t : Server) (fd : ℕ)
    → ArePeopled t
    → find name t.channels ≡ some ch
    → contains ch.clients fd ≡ true
    → can_succeed excluded t.clients fd ≡ true
    → HasOperatorAt name (promote_successor name ch excluded t)
unfolding promote_successor on_found
promote_successor-HasOperatorAt name ch excluded t fd v f m h =
    elim (Bool-cases (has_operator ch)) [
      | inl old ↦ rw old (ch, f, old)
      | inr lost ↦
          rw (lost, occupied ch.clients m, chosen.2, chosen.3)
            (promote-HasOperatorAt name chosen.1.nickname chosen.0 ch t f)
    ]
  where
    occupied : (fds : List ℕ) → contains fds fd ≡ true → is_empty fds ≡ false
    occupied [] e = unfold contains in cc
    occupied (x ∷ fds) e = refl

    chosen :
        (x : ℕ) × (c : Client) × (choose_successor ch.half_operators ch.clients excluded t.clients
          ≡ some x)
        × (find x t.clients ≡ some c)
    chosen = choose_successor-found name ch excluded t fd v f m h
