-- ===== src/Validity/Entries.antt =====
-- The tables of the server (inc/Server.hpp): keys that occur once, clients that are polled, channels that
-- stand under their names, and waiting clients that are registered.
use internet_relay_chat_msn.Effects.{founds}
use internet_relay_chat_msn.Effects.{
  joins, leaves, invites, uninvites, raises, half_raises, lowers, half_lowers, retitles, restricts,
  closes, locks, unlocks, limits, unlimits,
}
use internet_relay_chat_msn.Effects.Steps.{is_registered-modify}
use internet_relay_chat_msn.Polling.{fds_of}
use internet_relay_chat_msn.Channel.{
  Channel, add_client, remove_client, add_invite, remove_invite, add_operator, add_half_operator,
  remove_operator, remove_half_operator, set_topic, set_topic_restricted, set_invite_only, set_key,
  remove_key, set_limit, remove_limit,
}
use internet_relay_chat_msn.Map.{find, modify, Map}
use internet_relay_chat_msn.Map.Keys.{keys-modify, contains-keys, keys}
use internet_relay_chat_msn.Text.{Text}
use internet_relay_chat_msn.Client.{Client, append_to_out_buffer}
use internet_relay_chat_msn.Server.{
  Server, modify_client, is_connected, PollFd, ask_pollout, enable_write, append_out,
}
use internet_relay_chat_msn.Base.{
  ℕ, some, refl, ◌≡◌, [], ◌∷◌, true, false, List, sym, Distinct, contains, nat_key, bytes_key, ◌∙◌,
  ◌||◌, ◌==◌, ap, Bool-cases, inl, inr, arith,
}
use internet_relay_chat_msn.Effects.{
  same, then_step, ChannelRun, ChannelStep, is_registered, append_all, joins,
}

-- Who waits for a channel is registered.
abbrev pub AreWaiting : Server → Type 0
AreWaiting s =
    (name : Text) (fds : List ℕ)
    → find name s.pending_joins ≡ some fds
    → (fd : ℕ) → contains fds fd ≡ true
    → is_registered fd s.clients ≡ true

-- A channel stands under its own name.
abbrev pub AreNamed : Server → Type 0
AreNamed s = (name : Text) (ch : Channel) → find name s.channels ≡ some ch → ch.name ≡ name

pub record Tables (s : Server) : Type 0 where
  pub channels : Distinct (keys s.channels)
  pub clients : Distinct (keys s.clients)
  pub pending_joins : Distinct (keys s.pending_joins)
  pub poll_fds : Distinct (fds_of s.poll_fds)
  pub polled :
      (fd : ℕ) → contains (fds_of s.poll_fds) fd ≡ (is_connected fd s.clients || s.listen_fd == fd)
  pub listening : is_connected s.listen_fd s.clients ≡ false
  pub waiting : AreWaiting s
  pub named : AreNamed s

pub is_connected-modify :
    (fd k : ℕ) (f : Client → Client) (m : Map ℕ Client)
    → is_connected fd (modify k f m) ≡ is_connected fd m
unfolding is_connected
is_connected-modify fd k f m =
    sym (contains-keys fd (modify k f m))
    ∙ ap (λ ks. contains ks fd) (keys-modify k f m)
    ∙ contains-keys fd m

pub modify_client-Tables :
    (k : ℕ) (f : Client → Client) (s : Server)
    → ((c : Client) → c.registered ≡ true → (f c).registered ≡ true)
    → Tables s
    → Tables (modify_client k f s)
unfolding modify_client
modify_client-Tables k f s keep v = record {
  channels = v.channels;
  clients = rw keys-modify v.clients;
  pending_joins = v.pending_joins;
  poll_fds = v.poll_fds;
  polled = λ fd. rw is_connected-modify (v.polled fd);
  listening = rw is_connected-modify v.listening;
  waiting =
      λ name fds h fd m. is_registered-modify fd k f s.clients keep (v.waiting name fds h fd m);
  named = v.named;
}

pub append_all-Tables :
    (k : ℕ) (messages : List Text) (s : Server) → Tables s → Tables (append_all k messages s)
unfolding append_all append_out append_to_out_buffer
append_all-Tables k [] s v = v
append_all-Tables k (message ∷ messages) s v =
    append_all-Tables k messages _ (modify_client-Tables k _ s (λ c e. e) v)

pub fds_of-ask_pollout : (k : ℕ) (ps : List PollFd) → fds_of (ask_pollout k ps) ≡ fds_of ps
unfolding ask_pollout
fds_of-ask_pollout k [] = refl
fds_of-ask_pollout k (p ∷ ps) = elim (Bool-cases (p.fd == k)) [
  | inl hit ↦ rw hit refl
  | inr miss ↦ rw miss (ap (◌∷◌ p.fd) (fds_of-ask_pollout k ps))
]

pub enable_write-Tables : (k : ℕ) (s : Server) → Tables s → Tables (enable_write k s)
unfolding enable_write
enable_write-Tables k s v = record {
  channels = v.channels;
  clients = v.clients;
  pending_joins = v.pending_joins;
  poll_fds = rw fds_of-ask_pollout v.poll_fds;
  polled = λ fd. rw fds_of-ask_pollout (v.polled fd);
  listening = v.listening;
  waiting = v.waiting;
  named = v.named;
}

-- A change of the channels.
pub channels-Tables :
    (m : Map Text Channel) (s : Server)
    → Distinct (keys m)
    → ((name : Text) (ch : Channel) → find name m ≡ some ch → ch.name ≡ name)
    → Tables s
    → Tables (record s { channels = m })
channels-Tables m s d named v = record {
  channels = d;
  clients = v.clients;
  pending_joins = v.pending_joins;
  poll_fds = v.poll_fds;
  polled = v.polled;
  listening = v.listening;
  waiting = v.waiting;
  named = named;
}

-- A change of the clients that wait.
pub pending-Tables :
    (m : Map Text (List ℕ)) (s : Server)
    → Distinct (keys m)
    → ((name : Text) (fds : List ℕ)
        → find name m ≡ some fds
        → (fd : ℕ) → contains fds fd ≡ true
        → is_registered fd s.clients ≡ true)
    → Tables s
    → Tables (record s { pending_joins = m })
pending-Tables m s d waiting v = record {
  channels = v.channels;
  clients = v.clients;
  pending_joins = d;
  poll_fds = v.poll_fds;
  polled = v.polled;
  listening = v.listening;
  waiting = waiting;
  named = v.named;
}

ChannelStep-name :
    {actor : ℕ} {s : Server} {c d : Channel} → ChannelStep actor s c d → d.name ≡ c.name
unfolding add_client remove_client add_invite remove_invite add_operator add_half_operator
    remove_operator remove_half_operator set_topic set_topic_restricted set_invite_only set_key
    remove_key set_limit remove_limit
ChannelStep-name (joins ch fd e) = ground arith
ChannelStep-name (leaves ch fd e) = refl
ChannelStep-name (invites ch fd e) = ground arith
ChannelStep-name (uninvites ch fd) = refl
ChannelStep-name (raises ch fd e none_yet) = ground arith
ChannelStep-name (founds ch fd e none_human) = ground arith
ChannelStep-name (half_raises ch fd e m) = ground arith
ChannelStep-name (lowers ch fd e) = refl
ChannelStep-name (half_lowers ch fd) = refl
ChannelStep-name (retitles ch topic e r) = refl
ChannelStep-name (restricts ch value e) = refl
ChannelStep-name (closes ch value e) = refl
ChannelStep-name (locks ch key e) = refl
ChannelStep-name (unlocks ch e) = refl
ChannelStep-name (limits ch n e) = refl
ChannelStep-name (unlimits ch e) = refl

pub ChannelRun-name :
    {actor : ℕ} {s : Server} {c d : Channel} → ChannelRun actor s c d → d.name ≡ c.name
ChannelRun-name same = refl
ChannelRun-name (then_step r st) = ChannelStep-name st ∙ ChannelRun-name r
