-- ===== src/Connecting.antt =====
-- `addClient` and `acceptNewClient` of src/Server.cpp: a descriptor that no client has.
use internet_relay_chat_msn.Map.Keys.{is_some, Distinct-insert}
use internet_relay_chat_msn.Connection.{add_client}
use internet_relay_chat_msn.Effects.{is_registered}
use internet_relay_chat_msn.Effects.Accounts.{AreHonest, IsHonest}
use internet_relay_chat_msn.Map.{Map, find, insert, find-insert}
use internet_relay_chat_msn.Client.{new_client, Client}
use internet_relay_chat_msn.Polling.{fds_of}
use internet_relay_chat_msn.Server.{is_connected}
use internet_relay_chat_msn.Validity.{IsValid}
use internet_relay_chat_msn.Server.{Server, PollFd}
use internet_relay_chat_msn.Effects.Wakeup.{wants_write, is_quiet}
use internet_relay_chat_msn.Connection.{new_poll_fd}
use internet_relay_chat_msn.Base.{
  ℕ, List, ◌==◌, ◌++◌, ◌≡◌, false, ◌∷◌, ◌||◌, contains, [], nat_key, on_found, none, arith,
  Bool-cases, if◌then◌else◌, ap, refl, true, some, contains-push_back, inl, Option, nat_beq_iff,
  inr, ◌⊎◌, is_empty, Distinct-push_back, ◌∙◌,
}

pub fds_of-push_back :
    (fd : ℕ) (ps : List PollFd) → fds_of (ps ++ new_poll_fd fd ∷ []) ≡ fds_of ps ++ fd ∷ []
unfolding new_poll_fd
fds_of-push_back fd [] = refl
fds_of-push_back fd (p ∷ ps) = ap (◌∷◌ p.fd) (fds_of-push_back fd ps)

wants_write-push_back :
    (fd j : ℕ) (ps : List PollFd)
    → (fd == j) ≡ false
    → wants_write j (ps ++ new_poll_fd fd ∷ []) ≡ wants_write j ps
unfolding wants_write new_poll_fd
wants_write-push_back fd j [] h = rw h refl
wants_write-push_back fd j (p ∷ ps) h = rw (wants_write-push_back fd j ps h) refl

module _ (fd : ℕ) (s : Server) (v : IsValid s) (fresh : is_connected fd s.clients ≡ false)
    (client : (s.listen_fd == fd) ≡ false) where
  clients : Map ℕ Client
  clients = insert fd (new_client (some fd)) s.clients

  absent : find fd s.clients ≡ none
  unfolding is_connected
  absent = by_client (find fd s.clients) fresh
    where
      by_client : (o : Option Client) → is_some o ≡ false → o ≡ none
      by_client none e = refl
      by_client (some c) e = cc

  find-clients :
      (k : ℕ) → find k clients ≡ (if fd == k then some (new_client (some fd)) else find k s.clients)
  unfolding clients
  find-clients k = rw (find-insert, absent) refl

  still_registered : (k : ℕ) → is_registered k s.clients ≡ true → is_registered k clients ≡ true
  unfolding is_registered on_found
  still_registered k r = elim (Bool-cases (fd == k)) [
    | inl hit ↦ cc ((nat_beq_iff fd k).0 hit, absent, r)
    | inr miss ↦ rw (find-clients, miss) r
  ]

  new_client-IsHonest : IsHonest (new_client (some fd))
  unfolding new_client
  new_client-IsHonest = record {
    password = refl;
    nickname = λ h. cc h;
    passed = λ h. cc h;
    named = λ h. cc h;
    identified = λ h. cc h;
  }

  clients-AreHonest : AreHonest clients
  clients-AreHonest = record {
    each = λ k c h. elim (before k c h) [
      | inl made ↦ rw made new_client-IsHonest
      | inr old ↦ v.honest.each k c old
    ];
    unique = λ k j c d h g e n. elim (before k c h) [
      | inl made ↦ absurd (nameless c made n)
      | inr old ↦ elim (before j d g) [
        | inl made ↦ absurd (nameless d made (rw (← e) n))
        | inr old' ↦ v.honest.unique k j c d old old' e n
      ]
    ];
  }
    where
      before :
          (k : ℕ) (c : Client)
          → find k clients ≡ some c
          → (c ≡ new_client (some fd)) ⊎ (find k s.clients ≡ some c)
      before k c h = ground (arith, find-clients k)

      nameless : (c : Client) → c ≡ new_client (some fd) → is_empty c.nickname ≡ false → ⊥
      nameless c made n = unfold new_client in cc (made, n)

  is_quiet-clients : (j : ℕ) → (fd == j) ≡ true → is_quiet j clients ≡ true
  unfolding is_quiet on_found new_client
  is_quiet-clients j hit = rw (find-clients, hit) refl

  is_quiet-others : (j : ℕ) → (fd == j) ≡ false → is_quiet j clients ≡ is_quiet j s.clients
  unfolding is_quiet
  is_quiet-others j miss = rw (find-clients, miss) refl

  is_connected-clients : (k : ℕ) → is_connected k clients ≡ (fd == k || is_connected k s.clients)
  unfolding is_connected
  is_connected-clients k = ground (arith, find-clients k)

  added-polled :
      (j : ℕ)
      → contains (fds_of s.poll_fds ++ fd ∷ []) j ≡ (is_connected j clients || s.listen_fd == j)
  added-polled j = ground (
    arith,
    contains-push_back (fds_of s.poll_fds) fd j,
    is_connected-clients j,
    v.tables.polled j,
  )

  pub add_client-IsValid : IsValid (add_client fd s)
  unfolding add_client clients
  add_client-IsValid = record {
    peopled = λ name ch h. record {
      sound = (v.peopled name ch h).sound;
      registered = λ k m. still_registered k ((v.peopled name ch h).registered k m);
    };
    honest = clients-AreHonest;
    awake = λ j. elim (Bool-cases (fd == j)) [
      | inl hit ↦ rw (is_quiet-clients j hit) refl
      | inr miss ↦
          rw (is_quiet-others j miss, wants_write-push_back fd j s.poll_fds miss) (v.awake j)
    ];
    tables = record {
      channels = v.tables.channels;
      clients = Distinct-insert fd (new_client (some fd)) s.clients v.tables.clients;
      pending_joins = v.tables.pending_joins;
      poll_fds = rw fds_of-push_back (
          Distinct-push_back (fds_of s.poll_fds) fd v.tables.poll_fds
            (v.tables.polled fd ∙ rw (fresh, client) refl));
      polled = λ j. rw fds_of-push_back (added-polled j);
      listening = ground (
        arith,
        is_connected-clients s.listen_fd,
        nat_beq_iff fd s.listen_fd,
        nat_beq_iff s.listen_fd fd,
        v.tables.listening,
        client,
      );
      waiting = λ name fds h k m. still_registered k (v.tables.waiting name fds h k m);
      named = v.tables.named;
    };
  }
