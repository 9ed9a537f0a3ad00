-- ===== src/Effects/Accounts.antt =====
-- The accounts of the clients (inc/Client.hpp), under a change of one of them.
use internet_relay_chat_msn.Registration.{accept_password}
use internet_relay_chat_msn.Base.{
  ℕ, ◌≡◌, refl, true, false, Option, none, some, [], ◌∷◌, is_empty, nat_key, bytes_key, ◌==◌, arith,
  nat_beq_iff, same_bytes_iff, ◌⊎◌, inl, inr, Bool-cases, sym, ◌∙◌,
}
use internet_relay_chat_msn.Map.{Map, find, modify, find-modify, map_value}
use internet_relay_chat_msn.Text.{Text}
use internet_relay_chat_msn.Client.{
  Client, set_nickname, set_username, can_register, set_registered, set_sent_pass,
  set_authenticated,
}
use internet_relay_chat_msn.Registration.Nickname.{is_valid_nickname, is_taken}

-- What the server may believe of a client.
pub record IsHonest (c : Client) : Type 0 where
  pub password : c.authenticated ≡ c.sent_pass
  pub nickname : is_empty c.nickname ≡ false → is_valid_nickname c.nickname ≡ true
  pub passed : c.registered ≡ true → c.authenticated ≡ true
  pub named : c.registered ≡ true → is_empty c.nickname ≡ false
  pub identified : c.registered ≡ true → is_empty c.username ≡ false

-- Every account is honest, and a nickname that is not empty is one client's.
pub record AreHonest (clients : Map ℕ Client) : Type 0 where
  pub each : (fd : ℕ) (c : Client) → find fd clients ≡ some c → IsHonest c
  pub unique :
      (fd other : ℕ) (c d : Client)
      → find fd clients ≡ some c
      → find other clients ≡ some d
      → c.nickname ≡ d.nickname
      → is_empty c.nickname ≡ false
      → fd ≡ other

abbrev Found : (k fd : ℕ) (f : Client → Client) (m : Map ℕ Client) (c : Client) → Type 0
Found k fd f m c =
    ((find fd m ≡ some c) × ((k == fd) ≡ false))
    ⊎ ((b : Client) × (find fd m ≡ some b) × (c ≡ f b) × (k ≡ fd))

-- What is found after a client is written: the old one, or the written one at its own place.
Found-modify :
    (k fd : ℕ) (f : Client → Client) (m : Map ℕ Client) (c : Client)
    → find fd (modify k f m) ≡ some c
    → Found k fd f m c
Found-modify k fd f m c h = elim (Bool-cases (k == fd)) [
  | inl hit ↦ inr (go (find fd m) (ground (arith, find-modify k fd f m)) ((nat_beq_iff k fd).0 hit))
  | inr miss ↦ inl (ground (arith, find-modify k fd f m), miss)
]
  where
    go :
        (o : Option Client)
        → map_value f o ≡ some c
        → k ≡ fd
        → (b : Client) × (o ≡ some b) × (c ≡ f b) × (k ≡ fd)
    go none e same = cc
    go (some b) e same = (b, refl, ground arith, same)

-- A change that leaves the nickname alone.
pub keep-AreHonest :
    (k : ℕ) (f : Client → Client) (m : Map ℕ Client)
    → ((c : Client) → (f c).nickname ≡ c.nickname)
    → ((c : Client) → find k m ≡ some c → IsHonest c → IsHonest (f c))
    → AreHonest m
    → AreHonest (modify k f m)
keep-AreHonest k f m same honest v = record {
  each = λ fd c h. elim (Found-modify k fd f m c h) [
    | inl (old, _) ↦ v.each fd c old
    | inr (b, old, e, at_k) ↦ rw e (honest b (rw at_k old) (v.each fd b old))
  ];
  unique = λ fd other c d h g e n.
      let (b, old, eb) = before fd c h in
      let (b', old', eb') = before other d g in
      v.unique fd other b b' old old' (eb ∙ e ∙ sym eb') (rw (eb) n);
}
  where
    before :
        (fd : ℕ) (c : Client)
        → find fd (modify k f m) ≡ some c
        → (b : Client) × (find fd m ≡ some b) × (b.nickname ≡ c.nickname)
    before fd c h = elim (Found-modify k fd f m c h) [
      | inl (old, _) ↦ (c, old, refl)
      | inr (b, old, e, at_k) ↦ (b, old, rw e (sym (same b)))
    ]

-- A nickname that `is_taken` does not find is no other client's.
not-taken :
    (fd other : ℕ) (nick : Text) (m : Map ℕ Client) (c : Client)
    → is_taken fd nick m ≡ false
    → find other m ≡ some c
    → c.nickname ≡ nick
    → other ≡ fd
unfolding is_taken find
not-taken fd other nick [] c h f e = cc
not-taken fd other nick ((k, b) ∷ m) c h f e = ground (
  arith,
  nat_beq_iff k other,
  nat_beq_iff k fd,
  same_bytes_iff b.nickname nick,
  not-taken fd other nick m c,
)

pub is_valid_nickname-nonempty : (t : Text) → is_valid_nickname t ≡ true → is_empty t ≡ false
unfolding is_valid_nickname
is_valid_nickname-nonempty [] e = cc
is_valid_nickname-nonempty (x ∷ t) e = refl

pub rename-AreHonest :
    (k : ℕ) (nick : Text) (m : Map ℕ Client)
    → is_valid_nickname nick ≡ true
    → is_taken k nick m ≡ false
    → AreHonest m
    → AreHonest (modify k (set_nickname nick) m)
unfolding set_nickname
rename-AreHonest k nick m valid free v = record {
  each = λ fd c h. elim (Found-modify k fd (set_nickname nick) m c h) [
    | inl (old, _) ↦ v.each fd c old
    | inr (b, old, e, at_k) ↦ rw e (renamed b (v.each fd b old))
  ];
  unique = λ fd other c d h g e n.
      go fd other c d e n (Found-modify k fd (set_nickname nick) m c h)
        (Found-modify k other (set_nickname nick) m d g);
}
  where
    renamed : (b : Client) → IsHonest b → IsHonest (record b { nickname = nick })
    renamed b w = record {
      password = w.password;
      nickname = λ _. valid;
      passed = w.passed;
      named = λ _. is_valid_nickname-nonempty nick valid;
      identified = w.identified;
    }

    go :
        (fd other : ℕ) (c d : Client)
        → c.nickname ≡ d.nickname
        → is_empty c.nickname ≡ false
        → Found k fd (set_nickname nick) m c
        → Found k other (set_nickname nick) m d
        → fd ≡ other
    go fd other c d e n (inl (old, _)) (inl (old', _)) = v.unique fd other c d old old' e n
    go fd other c d e n (inl (old, _)) (inr (b, old', f, at_k)) =
        not-taken k fd nick m c free old (rw f at e) ∙ at_k
    go fd other c d e n (inr (b, old, f, at_k)) (inl (old', _)) =
        sym at_k ∙ sym (not-taken k other nick m d free old' (sym (rw f at e)))
    go fd other c d e n (inr (b, old, f, at_k)) (inr (b', old', f', at_k')) = sym at_k ∙ at_k'

pub register-IsHonest :
    (c : Client) → can_register c ≡ true → IsHonest c → IsHonest (set_registered true c)
unfolding can_register set_registered
register-IsHonest c ready w = record {
  password = w.password;
  nickname = w.nickname;
  passed = λ _. ground arith;
  named = λ _. ground arith;
  identified = λ _. ground arith;
}

pub accept_password-IsHonest : (c : Client) → IsHonest c → IsHonest (accept_password c)
unfolding accept_password set_sent_pass set_authenticated
accept_password-IsHonest c w = record {
  password = refl;
  nickname = w.nickname;
  passed = λ _. refl;
  named = w.named;
  identified = w.identified;
}

-- USER is accepted of a client without a username only, and such a client is not registered.
pub set_username-IsHonest :
    (c : Client) (name : Text)
    → is_empty c.username ≡ true
    → IsHonest c
    → IsHonest (set_username name c)
unfolding set_username
set_username-IsHonest c name fresh w = record {
  password = w.password;
  nickname = w.nickname;
  passed = w.passed;
  named = w.named;
  identified = λ done. cc (fresh, w.identified done);
}
