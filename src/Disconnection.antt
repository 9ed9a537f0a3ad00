-- ===== src/Disconnection.antt =====
-- `disconnectClient` of src/Server.cpp: the client goes from every table.
use internet_relay_chat_msn.Server.{is_connected}
use mathlib.Core.Option.{some-injective}
use internet_relay_chat_msn.Validity.Entries.{AreWaiting}
use internet_relay_chat_msn.Effects.Membership.{ArePeopled}
use internet_relay_chat_msn.Validity.Kept.{Run-Polls}
use internet_relay_chat_msn.Departure.{IsAbsentAt}
use internet_relay_chat_msn.Departure.Loop.{disconnect_channels-Run, disconnect_channels-absent}
use internet_relay_chat_msn.Validity.{IsValid, Run-IsValid}
use internet_relay_chat_msn.Map.Keys.{keys, is_some, contains-keys, Distinct-erase, keys_apart}
use internet_relay_chat_msn.Effects.Accounts.{AreHonest}
use internet_relay_chat_msn.Client.{Client}
use internet_relay_chat_msn.Server.{PollFd, Server}
use internet_relay_chat_msn.Polling.{
  entry_of, fds_of, entry_of-swap_remove, Distinct-swap_remove, contains-fds_of, same_fd_at,
}
use internet_relay_chat_msn.Text.{Text}
use internet_relay_chat_msn.Connection.{
  disconnect_client, forget_pending, swap_remove, drop_poll_fd, forget_client,
}
use internet_relay_chat_msn.Effects.Wakeup.{wants_write, is_quiet, AreAwake}
use internet_relay_chat_msn.Base.{
  Option, ℕ, List, on_found, some, Distinct, ◌≡◌, get_elem?, ◌==◌, ◌∷◌, none, true, false,
  Bool-cases, sym, [], if◌then◌else◌, arith, inl, refl, inr, ◌∙◌, nat_key, is_empty, nat_beq_iff,
  not, contains, bytes_key, ◌||◌, ◌&&◌, ap,
}
use internet_relay_chat_msn.Map.{find, Map, erase, set_erase, find-erase, contains-set_erase}
use internet_relay_chat_msn.Effects.{is_registered}

find-forget_pending :
    (fd : ℕ) (name : Text) (fds : List ℕ) (m : Map Text (List ℕ))
    → Distinct (keys m)
    → find name (forget_pending fd m) ≡ some fds
    → (old : List ℕ) × (find name m ≡ some old) × (fds ≡ set_erase fd old)
unfolding find forget_pending
find-forget_pending fd name fds [] d h = cc
find-forget_pending fd name fds ((at_name, waiting) ∷ m) d h =
    elim (Bool-cases (is_empty (set_erase fd waiting))) [
      | inl emptied ↦ later (find-forget_pending fd name fds m d.1) (rw emptied at h)
      | inr left ↦ elim (Bool-cases (at_name == name)) [
        | inl hit ↦ rw hit (waiting, refl, sym (some-injective _ fds (rw (left, hit) at h)))
        | inr miss ↦ later (find-forget_pending fd name fds m d.1) (rw (left, miss) at h)
      ]
    ]
  where
    later :
        (find name (forget_pending fd m) ≡ some fds
          → (old : List ℕ) × (find name m ≡ some old) × (fds ≡ set_erase fd old))
        → find name (forget_pending fd m) ≡ some fds
        → (old : List ℕ) × ((if at_name == name then some waiting else find name m) ≡ some old)
          × (fds ≡ set_erase fd old)
    later ih g =
        let (old, there, same) = ih g in
        (old, rw (keys_apart at_name name old m d.0 there) there, same)

Distinct-forget_pending :
    (fd : ℕ) (m : Map Text (List ℕ)) → Distinct (keys m) → Distinct (keys (forget_pending fd m))
unfolding forget_pending
Distinct-forget_pending fd [] d = d
Distinct-forget_pending fd ((name, waiting) ∷ m) d =
    elim (Bool-cases (is_empty (set_erase fd waiting))) [
      | inl emptied ↦ rw emptied (Distinct-forget_pending fd m d.1)
      | inr left ↦ rw left (
        contains-keys name _ ∙ absent (find name (forget_pending fd m)) refl,
        Distinct-forget_pending fd m d.1,
      )
    ]
  where
    absent : (o : Option (List ℕ)) → find name (forget_pending fd m) ≡ o → is_some o ≡ false
    absent none e = refl
    absent (some fds) e =
        let (old, there, same) = find-forget_pending fd name fds m d.1 e in
        sym (contains-keys name m ∙ rw there refl) ∙ d.0

wants_write-entry_of :
    (fd : ℕ) (ps : List PollFd)
    → wants_write fd ps ≡ on_found (entry_of fd ps) true (λ p. p.pollout)
unfolding wants_write entry_of on_found
wants_write-entry_of fd [] = refl
wants_write-entry_of fd (p ∷ ps) = elim (Bool-cases (p.fd == fd)) [
  | inl hit ↦ rw hit refl
  | inr miss ↦ rw miss (wants_write-entry_of fd ps)
]

AreHonest-erase : (fd : ℕ) (m : Map ℕ Client) → AreHonest m → AreHonest (erase fd m)
AreHonest-erase fd m v = record {
  each = λ k c h. v.each k c (before k c h);
  unique = λ k j c d h g e n. v.unique k j c d (before k c h) (before j d g) e n;
}
  where
    before : (k : ℕ) (c : Client) → find k (erase fd m) ≡ some c → find k m ≡ some c
    before k c h = ground (arith, find-erase fd k m)

-- A client that is in no channel, and not the server's own descriptor.
module _ (fd index : ℕ) (p : PollFd) (t : Server) (v : IsValid t)
    (there : get_elem? t.poll_fds index ≡ some p) (at_fd : p.fd ≡ fd)
    (client : (t.listen_fd == fd) ≡ false) (absent : (name : Text) → IsAbsentAt fd name t) where
  entry_of-removed :
      (j : ℕ)
      → entry_of j (swap_remove index t.poll_fds)
        ≡ (if fd == j then none else entry_of j t.poll_fds)
  entry_of-removed j =
      rw (← at_fd) (entry_of-swap_remove j index p t.poll_fds v.tables.poll_fds there)

  removed : Server
  removed = drop_poll_fd index (forget_client fd t)

  registered-removed :
      (k : ℕ) → (fd == k) ≡ false → is_registered k (erase fd t.clients) ≡ is_registered k t.clients
  unfolding is_registered
  registered-removed k h = rw (find-erase, h) refl

  removed-ArePeopled : ArePeopled removed
  unfolding removed drop_poll_fd forget_client
  removed-ArePeopled name ch h = record {
    sound = (v.peopled name ch h).sound;
    registered = λ k m. elim (Bool-cases (fd == k)) [
      | inl hit ↦ cc ((absent name ch h).0, m, (nat_beq_iff fd k).0 hit)
      | inr miss ↦ rw (registered-removed k miss) ((v.peopled name ch h).registered k m)
    ];
  }

  removed-AreAwake : AreAwake removed
  unfolding removed drop_poll_fd forget_client is_quiet on_found
  removed-AreAwake j = elim (Bool-cases (fd == j)) [
    | inl hit ↦ rw (find-erase, hit) refl
    | inr miss ↦
        rw (find-erase, miss, wants_write-entry_of, entry_of-removed, miss, ← wants_write-entry_of)
          (v.awake j)
  ]

  removed-polled :
      (j : ℕ)
      → contains (fds_of removed.poll_fds) j
        ≡ (is_connected j removed.clients || removed.listen_fd == j)
  unfolding removed drop_poll_fd forget_client is_connected
  removed-polled j = ground (
    arith,
    contains-fds_of j (swap_remove index t.poll_fds),
    contains-fds_of j t.poll_fds,
    entry_of-removed j,
    find-erase fd j t.clients,
    v.tables.polled j,
    nat_beq_iff fd j,
    client,
  )

  removed-waiting : AreWaiting removed
  unfolding removed drop_poll_fd forget_client
  removed-waiting name fds h k m =
      let (old, was, same) =
        find-forget_pending fd name fds t.pending_joins v.tables.pending_joins h in
      let kept : (not (fd == k) && contains old k) ≡ true =
        sym (contains-set_erase fd k old) ∙ ap (λ ks. contains ks k) (sym same) ∙ m in
      rw (registered-removed k (ground (arith, kept)))
        (v.tables.waiting name old was k (ground (arith, kept)))

  pub removed-IsValid : IsValid (drop_poll_fd index (forget_client fd t))
  unfolding removed drop_poll_fd forget_client is_connected
  removed-IsValid = record {
    peopled = removed-ArePeopled;
    honest = AreHonest-erase fd t.clients v.honest;
    awake = removed-AreAwake;
    tables = record {
      channels = v.tables.channels;
      clients = Distinct-erase fd t.clients v.tables.clients;
      pending_joins = Distinct-forget_pending fd t.pending_joins v.tables.pending_joins;
      poll_fds = Distinct-swap_remove index p t.poll_fds v.tables.poll_fds there;
      polled = removed-polled;
      listening = ground (arith, find-erase fd t.listen_fd t.clients, v.tables.listening);
      waiting = removed-waiting;
      named = v.tables.named;
    };
  }

pub disconnect_client-IsValid :
    (index : ℕ) (p : PollFd) (s : Server)
    → get_elem? s.poll_fds index ≡ some p
    → (s.listen_fd == p.fd) ≡ false
    → IsValid s
    → IsValid (disconnect_client index s)
unfolding disconnect_client on_found
disconnect_client-IsValid index p s there client v =
    let r = disconnect_channels-Run p.fd s v.tables.channels v.peopled in
    let (fds, listen) = Run-Polls r in
    let (q, there', at_fd) = same_fd_at index p s.poll_fds _ fds there in
    rw there (
      removed-IsValid p.fd index q _ (Run-IsValid r v) there' at_fd (rw listen client)
        (disconnect_channels-absent p.fd s v.tables.channels v.peopled))

pub disconnect_client-gone :
    (index : ℕ) (p : PollFd) (s : Server)
    → get_elem? s.poll_fds index ≡ some p
    → is_connected p.fd (disconnect_client index s).clients ≡ false
unfolding disconnect_client on_found drop_poll_fd forget_client is_connected
disconnect_client-gone index p s there = rw (there, find-erase, (nat_beq_iff p.fd p.fd).1 refl) refl
