-- ===== src/Broadcast.antt =====
-- `broadcastToChannel` of src/Server.cpp and `handlePrivmsg` of src/Messages.cpp: who receives a message.
use internet_relay_chat_msn.ChannelCommands.Join.{starts_with_hash}
use internet_relay_chat_msn.Messages.{handle_privmsg, privmsg_params, message_channel, message_line}
use internet_relay_chat_msn.Channel.{Channel, has_client}
use internet_relay_chat_msn.Client.{Client, append_to_out_buffer}
use internet_relay_chat_msn.Map.{Map, find, map_value, find-modify}
use internet_relay_chat_msn.Text.{Text}
use internet_relay_chat_msn.Server.{
  broadcast_bots, broadcast_members, deliver, send_reply, hears_as_bot, enable_write, append_out,
  modify_client, Server, is_fd, broadcast_to_channel,
}
use internet_relay_chat_msn.Base.{
  ℕ, ◌≡◌, refl, true, false, Option, none, some, List, ◌∷◌, [], Bool, contains, on_found,
  if◌then◌else◌, Distinct, ◌&&◌, ◌||◌, ◌==◌, Bool-cases, not, nat_key, inl, inr, nat_beq_iff, ◌∙◌,
  ap, sym, arith, bytes_key,
}

-- What a message leaves in the queue of one client.
abbrev pub heard : Bool → Text → Client → Client
heard hears message c = if hears then append_to_out_buffer message c else c

pub find-deliver :
    (fd j : ℕ) (message : Text) (s : Server)
    → find j (deliver fd message s).clients ≡ (
        if fd == j
        then map_value (append_to_out_buffer message) (find j s.clients)
        else find j s.clients)
unfolding deliver enable_write append_out modify_client
find-deliver fd j message s = find-modify fd j (append_to_out_buffer message) s.clients

-- A reply to one of the clients, seen from any of them.
find-send_reply :
    (fd j : ℕ) (message : Text) (c : Client) (s : Server)
    → find j s.clients ≡ some c
    → find j (send_reply fd message s).clients ≡ some (heard (fd == j) message c)
unfolding send_reply on_found
find-send_reply fd j message c s f = by_test (fd == j) refl
  where
    there : (h : Bool) → (fd == j) ≡ h → (fd == j) ≡ true → find fd s.clients ≡ some c
    there h e hit = rw ((nat_beq_iff fd j).0 hit) f

    answered :
        (o : Option Client) (h : Bool)
        → (fd == j) ≡ h
        → (h ≡ true → o ≡ some c)
        → find j (on_found o s (λ _. deliver fd message s)).clients ≡ some (heard h message c)
    answered none true e known = absurd (cc (known refl))
    answered none false e known = f
    answered (some d) true e known = rw (find-deliver fd j message s, e, f) refl
    answered (some d) false e known = rw (find-deliver fd j message s, e) f

    by_test :
        (h : Bool)
        → (fd == j) ≡ h
        → find j (send_reply fd message s).clients ≡ some (heard (fd == j) message c)
    by_test h e = answered (find fd s.clients) (fd == j) refl (there h e)

and_true : (b : Bool) → (b && true) ≡ b
and_true true = refl
and_true false = refl

and_false : (b : Bool) → (b && false) ≡ false
and_false true = refl
and_false false = refl

-- One round of the loop over the members.
find-round :
    (fd j : ℕ) (sender : Option ℕ) (message : Text) (c : Client) (s : Server)
    → find j s.clients ≡ some c
    → find j (if is_fd sender fd then s else send_reply fd message s).clients
      ≡ some (heard (fd == j && not (is_fd sender fd)) message c)
find-round fd j sender message c s f = by_test (is_fd sender fd)
  where
    by_test :
        (skipped : Bool)
        → find j (if skipped then s else send_reply fd message s).clients
          ≡ some (heard (fd == j && not skipped) message c)
    by_test true = rw (and_false (fd == j)) f
    by_test false = rw (and_true (fd == j)) (find-send_reply fd j message c s f)

-- What one round and the later rounds leave in a queue.
heard-heard :
    (hit later skipped silenced : Bool) (message : Text) (c : Client)
    → (hit ≡ true → later ≡ false)
    → (hit ≡ true → skipped ≡ silenced)
    → heard (later && not silenced) message (heard (hit && not skipped) message c)
      ≡ heard ((hit || later) && not silenced) message c
heard-heard true later skipped silenced message c once same = rw (once refl, same refl) refl
heard-heard false later skipped silenced message c once same = refl

-- The loop over the members.
broadcast_members-found :
    (fds : List ℕ) (sender : Option ℕ) (j : ℕ) (message : Text) (c : Client) (s : Server)
    → Distinct fds
    → find j s.clients ≡ some c
    → find j (broadcast_members fds sender message s).clients
      ≡ some (heard (contains fds j && not (is_fd sender j)) message c)
unfolding broadcast_members contains
broadcast_members-found [] sender j message c s d f = f
broadcast_members-found (fd ∷ fds) sender j message c s d f =
    broadcast_members-found fds sender j message _ _ d.1 (find-round fd j sender message c s f)
    ∙ ap some (
        heard-heard (fd == j) (contains fds j) (is_fd sender fd) (is_fd sender j) message c
          (λ hit. rw (sym ((nat_beq_iff fd j).0 hit)) d.0)
          (λ hit. rw ((nat_beq_iff fd j).0 hit) refl))

-- The loop over the bots passes over the members and the sender.
broadcast_bots-found :
    (rest : Map ℕ Client) (ch : Channel) (sender : Option ℕ) (j : ℕ) (message : Text) (s : Server)
    → (has_client ch j || is_fd sender j) ≡ true
    → find j (broadcast_bots rest ch sender message s).clients ≡ find j s.clients
unfolding broadcast_bots hears_as_bot
broadcast_bots-found [] ch sender j message s h = refl
broadcast_bots-found ((fd, b) ∷ rest) ch sender j message s h =
    broadcast_bots-found rest ch sender j message _ h ∙ by_test (hears_as_bot ch sender fd b) refl
  where
    apart : hears_as_bot ch sender fd b ≡ true → (fd == j) ≡ false
    apart e = elim (Bool-cases (fd == j)) [
      | inl hit ↦ ground (arith, (nat_beq_iff fd j).0 hit)
      | inr miss ↦ miss
    ]

    by_test :
        (hears : Bool)
        → hears_as_bot ch sender fd b ≡ hears
        → find j (if hears then deliver fd message s else s).clients ≡ find j s.clients
    by_test true e = rw (find-deliver fd j message s, apart e) refl
    by_test false e = refl

-- What a broadcast leaves in the queue of a member: the message, once, unless the member sent it.
broadcast_to_channel-found :
    (ch : Channel) (sender : Option ℕ) (j : ℕ) (message : Text) (c : Client) (s : Server)
    → Distinct ch.clients
    → has_client ch j ≡ true
    → find j s.clients ≡ some c
    → find j (broadcast_to_channel ch sender message s).clients
      ≡ some (heard (not (is_fd sender j)) message c)
unfolding broadcast_to_channel has_client
broadcast_to_channel-found ch sender j message c s d m f =
    broadcast_bots-found _ ch sender j message _ (ground arith)
    ∙ broadcast_members-found ch.clients sender j message c s d f
    ∙ rw (inside) refl
  where
    inside : contains ch.clients j ≡ true
    inside = m

-- Where a channel has no member twice, a PRIVMSG or NOTICE to it from a registered member adds the
-- message once to the queue of every other connected member and nothing to the sender's, and changes
-- nothing else of these clients.
pub handle_privmsg-heard :
    (is_notice : Bool) (fd j : ℕ) (target text : Text) (rest : List Text) (ch : Channel)
    (c d : Client) (s : Server)
    → starts_with_hash target ≡ true
    → find target s.channels ≡ some ch
    → Distinct ch.clients
    → find fd s.clients ≡ some c
    → c.registered ≡ true
    → has_client ch fd ≡ true
    → has_client ch j ≡ true
    → find j s.clients ≡ some d
    → find j (handle_privmsg is_notice fd (target ∷ text ∷ rest) s).clients
      ≡ some (heard (not (j == fd)) (message_line is_notice c.nickname target text) d)
unfolding handle_privmsg privmsg_params message_channel on_found is_fd
handle_privmsg-heard is_notice fd j target text rest ch c d s hash found distinct f reg sends hears
      g =
    rw (f, reg, hash, found, sends)
      (broadcast_to_channel-found ch (some fd) j (message_line is_notice c.nickname target text) d s
        distinct hears g)
