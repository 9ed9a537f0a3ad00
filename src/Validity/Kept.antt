-- ===== src/Validity/Kept.antt =====
-- The tables of the server under every effect.
use internet_relay_chat_msn.Effects.Wakeup.{poll_fds-append_all}
use internet_relay_chat_msn.Polling.{fds_of}
use mathlib.Core.Option.{some-injective}
use internet_relay_chat_msn.Map.Keys.{Distinct-insert, keys-modify, Distinct-erase}
use internet_relay_chat_msn.Client.{
  set_sent_pass, set_authenticated, add_rejected_nickname, set_nickname, set_username,
  set_registered,
}
use internet_relay_chat_msn.Registration.{accept_password}
use internet_relay_chat_msn.Map.{
  Map, find, modify, insert, erase, find-erase, find-modify, value_or, find-insert, set_insert,
  contains-set_insert, set_erase, contains-set_erase,
}
use internet_relay_chat_msn.ChannelCommands.Part.{erase_channel}
use internet_relay_chat_msn.Validity.Entries.{
  Tables, AreWaiting, enable_write-Tables, append_all-Tables, modify_client-Tables, channels-Tables,
  ChannelRun-name, pending-Tables, fds_of-ask_pollout,
}
use internet_relay_chat_msn.ChannelCommands.Join.{get_or_create_channel, modify_pending}
use internet_relay_chat_msn.Channel.{new_channel, Channel}
use internet_relay_chat_msn.Text.{Text}
use internet_relay_chat_msn.Server.{put_channel, Server, modify_client, enable_write, append_out}
use internet_relay_chat_msn.Base.{
  ℕ, some, refl, ◌≡◌, [], Bool, true, false, List, contains, ◌⊎◌, bytes_key, arith, Bool-cases,
  nat_key, ◌==◌, inl, inr, same_bytes_iff, Option-cases, ◌∙◌, nat_beq_iff, ◌∷◌, ap,
}
use internet_relay_chat_msn.Effects.{
  rejects, delivers, authenticates, renames, identifies, registers, creates, changes, drops, waits,
  stops_waiting, serves_waiting, here, next, Effect, Run, Action, drop_pending, is_registered,
  append_all,
}

-- The channel that is written has the name under which it stands.
named-modify :
    (k j : Text) (c d : Channel) (m : Map Text Channel)
    → c.name ≡ k
    → find j (modify k (λ _. c) m) ≡ some d
    → (find j m ≡ some d → d.name ≡ j)
    → d.name ≡ j
named-modify k j c d m e h before = elim (Bool-cases (k == j)) [
  | inl hit ↦ ground (arith, same_bytes_iff k j, find-modify k j (λ _. c) m)
  | inr miss ↦ before (rw (find-modify, miss) at h)
]

named-insert :
    (k j : Text) (d : Channel) (m : Map Text Channel)
    → find j (insert k (new_channel k) m) ≡ some d
    → (find j m ≡ some d → d.name ≡ j)
    → d.name ≡ j
unfolding new_channel
named-insert k j d m h before =
    ground (arith, same_bytes_iff k j, find-insert k j (new_channel k) m)

named-erase :
    (k j : Text) (d : Channel) (m : Map Text Channel)
    → find j (erase k m) ≡ some d
    → find j m ≡ some d
named-erase k j d m h = ground (arith, find-erase k j m)

-- The write of a set that waits.
waiting-modify :
    (name at_name : Text) (f : List ℕ → List ℕ) (s : Server) (fds : List ℕ) (fd : ℕ)
    → ((ws : List ℕ)
        → contains (f ws) fd ≡ true
        → (contains ws fd ≡ true) ⊎ (is_registered fd s.clients ≡ true))
    → AreWaiting s
    → find at_name (modify name f (insert name [] s.pending_joins)) ≡ some fds
    → contains fds fd ≡ true
    → is_registered fd s.clients ≡ true
waiting-modify name at_name f s fds fd h v g m = elim (Option-cases (find name s.pending_joins)) [
  | inl absent ↦ by_key (name == at_name) refl [] (λ k. unfold contains in cc k) (rw absent refl)
  | inr (ws, there) ↦ by_key (name == at_name) refl ws (v name ws there fd) (rw there refl)
]
  where
    by_key :
        (hit : Bool)
        → (name == at_name) ≡ hit
        → (ws : List ℕ) → (contains ws fd ≡ true → is_registered fd s.clients ≡ true)
        → value_or (find name s.pending_joins) [] ≡ ws
        → is_registered fd s.clients ≡ true
    by_key true e ws known same =
        let written : some (f ws) ≡ some fds = rw (find-modify, e, find-insert, e, same) at g in
        elim (h ws (rw (some-injective (f ws) fds written) m)) [
          | inl old ↦ known old
          | inr new ↦ new
        ]
    by_key false e ws known same = v at_name fds (rw (find-modify, e, find-insert, e) at g) fd m

Effect-Tables :
    {actor : ℕ} {action : Action} {s t : Server} → Effect actor action s t → Tables s → Tables t
unfolding put_channel get_or_create_channel erase_channel modify_pending drop_pending
    accept_password set_sent_pass set_authenticated add_rejected_nickname set_nickname set_username
    set_registered
Effect-Tables (delivers s fd messages) v =
    enable_write-Tables fd _ (append_all-Tables fd messages s v)
Effect-Tables {actor} (authenticates s e) v = modify_client-Tables actor _ s (λ c r. r) v
Effect-Tables {actor} (rejects s nick e) v = modify_client-Tables actor _ s (λ c r. r) v
Effect-Tables {actor} (renames s nick e g f) v = modify_client-Tables actor _ s (λ c r. r) v
Effect-Tables {actor} (identifies s name c e f a u) v = modify_client-Tables actor _ s (λ d r. r) v
Effect-Tables {actor} (registers s c f k) v = modify_client-Tables actor _ s (λ d r. refl) v
Effect-Tables (creates s made e) v =
    channels-Tables _ s (Distinct-insert made _ s.channels v.channels)
      (λ name ch h. named-insert made name ch s.channels h (v.named name ch)) v
Effect-Tables (changes s at_name c c' f r) v =
    channels-Tables _ s (rw keys-modify v.channels)
      (λ name ch h.
        named-modify at_name name c' ch s.channels (ChannelRun-name r ∙ v.named at_name c f) h
          (v.named name ch))
      v
Effect-Tables (drops s gone c f e) v =
    channels-Tables _ s (Distinct-erase gone s.channels v.channels)
      (λ name ch h. v.named name ch (named-erase gone name ch s.channels h)) v
Effect-Tables (waits s at_name k e) v =
    pending-Tables _ s (rw keys-modify (Distinct-insert at_name [] s.pending_joins v.pending_joins))
      (λ name fds h fd m.
        waiting-modify at_name name (set_insert k) s fds fd
          (λ ws c. elim (Bool-cases (k == fd)) [
            | inl hit ↦ inr (rw (← (nat_beq_iff k fd).0 hit) e)
            | inr miss ↦ inl (rw (contains-set_insert, miss) at c)
          ])
          v.waiting h m)
      v
Effect-Tables (stops_waiting s at_name k) v =
    pending-Tables _ s (rw keys-modify (Distinct-insert at_name [] s.pending_joins v.pending_joins))
      (λ name fds h fd m.
        waiting-modify at_name name (set_erase k) s fds fd
          (λ ws c. inl (ground (arith, contains-set_erase k fd ws))) v.waiting h m)
      v
Effect-Tables (serves_waiting s at_name) v =
    pending-Tables _ s (Distinct-erase at_name s.pending_joins v.pending_joins)
      (λ name fds h fd m.
        v.waiting name fds (ground (arith, find-erase at_name name s.pending_joins)) fd m)
      v

pub Run-Tables :
    {actor : ℕ} {action : Action} {s t : Server} → Run actor action s t → Tables s → Tables t
Run-Tables here v = v
Run-Tables (next r e) v = Effect-Tables e (Run-Tables r v)

-- The descriptors that are polled, and the server's own.
abbrev pub Polls : Server → Server → Type 0
Polls s t = (fds_of t.poll_fds ≡ fds_of s.poll_fds) × (t.listen_fd ≡ s.listen_fd)

listen_fd-append_all :
    (k : ℕ) (messages : List Text) (s : Server) → (append_all k messages s).listen_fd ≡ s.listen_fd
unfolding append_all append_out modify_client
listen_fd-append_all k [] s = refl
listen_fd-append_all k (message ∷ messages) s =
    listen_fd-append_all k messages (append_out k message s)

Effect-Polls : {actor : ℕ} {action : Action} {s t : Server} → Effect actor action s t → Polls s t
unfolding put_channel get_or_create_channel erase_channel modify_pending drop_pending
    accept_password modify_client enable_write
Effect-Polls (delivers s fd messages) = (
  fds_of-ask_pollout fd _ ∙ ap fds_of (poll_fds-append_all fd messages s),
  listen_fd-append_all fd messages s,
)
Effect-Polls (authenticates s e) = (refl, refl)
Effect-Polls (rejects s nick e) = (refl, refl)
Effect-Polls (renames s nick e g f) = (refl, refl)
Effect-Polls (identifies s name c e f a u) = (refl, refl)
Effect-Polls (registers s c f k) = (refl, refl)
Effect-Polls (creates s made e) = (refl, refl)
Effect-Polls (changes s at_name c c' f r) = (refl, refl)
Effect-Polls (drops s gone c f e) = (refl, refl)
Effect-Polls (waits s at_name k e) = (refl, refl)
Effect-Polls (stops_waiting s at_name k) = (refl, refl)
Effect-Polls (serves_waiting s at_name) = (refl, refl)

pub Run-Polls : {actor : ℕ} {action : Action} {s t : Server} → Run actor action s t → Polls s t
Run-Polls here = (refl, refl)
Run-Polls (next r e) = let a = Run-Polls r in let b = Effect-Polls e in (b.0 ∙ a.0, b.1 ∙ a.1)
