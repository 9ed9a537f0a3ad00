-- ===== src/Bot/Users.antt =====
-- The list of users that `handleBotUsers` of src/Queries.cpp sends to the bot of bot/main.cpp.
use internet_relay_chat_msn.Effects.Accounts.{AreHonest, IsHonest, is_valid_nickname-nonempty}
use internet_relay_chat_msn.Registration.Nickname.{is_valid_nickname, is_special}
use internet_relay_chat_msn.Bot.Search.{is_valid_nickname-lacks, contains-append}
use internet_relay_chat_msn.Bot.Reports.{receive-users}
use internet_relay_chat_msn.Broadcast.{find-deliver}
use internet_relay_chat_msn.Queries.{user_names, add_item, handle_bot_users}
use internet_relay_chat_msn.Map.{Map, find}
use internet_relay_chat_msn.Map.Keys.{keys, find_first, find_later}
use internet_relay_chat_msn.Client.{Client, append_to_out_buffer}
use internet_relay_chat_msn.Server.{Server, server_line}
use internet_relay_chat_msn.Bot.{Bot, receive, send_command, reply}
use internet_relay_chat_msn.Text.{Text, bytes, is_alnum}
use internet_relay_chat_msn.Base.{
  ℕ, List, ◌≡◌, [], ◌∷◌, ◌++◌, true, false, some, contains, nat_key, nat_beq_iff, refl, on_found,
  Distinct, if◌then◌else◌, is_empty, ap, ◌∙◌, sym, Bool-cases, inr, inl,
}
use mathlib.Core.List.{append_assoc, append-nil}

-- The nicknames of the registered clients, in the order of the table.
unfoldable pub registered_nicknames : Map ℕ Client → List Text
registered_nicknames [] = []
registered_nicknames ((fd, c) ∷ rest) =
    if c.registered then c.nickname ∷ registered_nicknames rest else registered_nicknames rest

-- The names with ", " between them.
unfoldable pub and_others : List Text → Text
and_others [] = []
and_others (name ∷ names) = bytes ", " ++ (name ++ and_others names)

unfoldable pub listed : List Text → Text
listed [] = []
listed (name ∷ names) = name ++ and_others names

abbrev AreNicknames : List Text → Type 0
AreNicknames [] = Unit
AreNicknames (name ∷ names) = (is_valid_nickname name ≡ true) × AreNicknames names

registered_nicknames-AreNicknames :
    (m : Map ℕ Client)
    → Distinct (keys m)
    → ((fd : ℕ) (c : Client) → find fd m ≡ some c → IsHonest c)
    → AreNicknames (registered_nicknames m)
unfolding registered_nicknames
registered_nicknames-AreNicknames [] d h = tt
registered_nicknames-AreNicknames ((fd, c) ∷ rest) d h =
    let others =
      registered_nicknames-AreNicknames rest d.1
        (λ j e f. h j e (find_later fd j c e rest d.0 f)) in
    elim (Bool-cases c.registered) [
      | inr unregistered ↦ rw unregistered others
      | inl registered ↦ rw registered (valid registered, others)
    ]
  where
    valid : c.registered ≡ true → is_valid_nickname c.nickname ≡ true
    valid registered =
        let honest = h fd c (find_first fd c rest) in honest.nickname (honest.named registered)

shift :
    (users name more : Text)
    → (users ++ (bytes ", " ++ name)) ++ more ≡ users ++ (bytes ", " ++ (name ++ more))
unfolding bytes
shift users name more = simp append_assoc

-- The loop of `handleBotUsers`, behind a list that is not empty, and from the start.
user_names-behind :
    (m : Map ℕ Client) (c : ℕ) (users : Text)
    → user_names (c ∷ users) m ≡ c ∷ users ++ and_others (registered_nicknames m)
unfolding user_names registered_nicknames and_others add_item
user_names-behind [] c users = sym (append-nil (c ∷ users))
user_names-behind ((fd, d) ∷ rest) c users = elim (Bool-cases d.registered) [
  | inr unregistered ↦ rw unregistered (user_names-behind rest c users)
  | inl registered ↦ rw registered (
      user_names-behind rest c (users ++ (bytes ", " ++ d.nickname))
      ∙ ap (◌∷◌ c) (shift users d.nickname (and_others (registered_nicknames rest))))
]

user_names-listed :
    (m : Map ℕ Client)
    → AreNicknames (registered_nicknames m)
    → user_names [] m ≡ listed (registered_nicknames m)
unfolding user_names registered_nicknames listed add_item
user_names-listed [] v = refl
user_names-listed ((fd, d) ∷ rest) v = elim (Bool-cases d.registered) [
  | inr unregistered ↦ rw unregistered (user_names-listed rest (rw unregistered at v))
  | inl registered ↦
      rw registered
        (first d.nickname (is_valid_nickname-nonempty d.nickname ((rw registered at v).0)))
]
  where
    first :
        (nick : Text)
        → is_empty nick ≡ false
        → user_names nick rest ≡ nick ++ and_others (registered_nicknames rest)
    first [] h = cc h
    first (c ∷ nick) h = user_names-behind rest c nick

lacks_newline : (nick : Text) → is_valid_nickname nick ≡ true → contains nick 10 ≡ false
lacks_newline nick valid =
    is_valid_nickname-lacks 10 nick (unfold is_alnum in unfold is_special in refl) valid

and_others-one_line :
    (names : List Text) → AreNicknames names → contains (and_others names) 10 ≡ false
unfolding and_others contains bytes
and_others-one_line [] v = refl
and_others-one_line (name ∷ names) v =
    rw
      (
        contains-append name (and_others names) 10,
        lacks_newline name (v.0),
        and_others-one_line names (v.1),
      )
      refl

listed-one_line : (names : List Text) → AreNicknames names → contains (listed names) 10 ≡ false
unfolding listed contains
listed-one_line [] v = refl
listed-one_line (name ∷ names) v =
    rw
      (
        contains-append name (and_others names) 10,
        lacks_newline name (v.0),
        and_others-one_line names (v.1),
      )
      refl

-- What the server writes to the bot for BOTUSERS, and what the bot sends when it receives it.
pub record ReportsUsers (fd : ℕ) (c : Client) (s : Server) (b : Bot) : Type 0 where
  pub line : Text
  pub queued :
      find fd (handle_bot_users fd s).clients
      ≡ some (record c { out_buffer = c.out_buffer ++ line })
  pub reported : receive line b ≡ record b {
    input = [];
    sent =
        b.sent
        ++ (bytes "PRIVMSG "
            ++ (b.response_target
                ++ (bytes " :Utilisateurs connectes: "
                    ++ (listed (registered_nicknames s.clients) ++ bytes "\r\n"))))
          ∷ [];
  }

-- BOTUSERS of a client whose nickname is ircbot queues one message for it, and the bot, when it receives that
-- message with no part of a line waiting, sends one message to its response target: "Utilisateurs connectes: "
-- and the nicknames of the registered clients, in the order of the table of clients, with ", " between them.
-- The accounts of the server are honest, and no descriptor stands twice among the clients.
pub receive-handle_bot_users :
    (fd : ℕ) (c : Client) (s : Server) (b : Bot)
    → AreHonest s.clients
    → Distinct (keys s.clients)
    → find fd s.clients ≡ some c
    → c.nickname ≡ bytes "ircbot"
    → b.input ≡ []
    → ReportsUsers fd c s b
unfolding handle_bot_users on_found
receive-handle_bot_users fd c s b honest distinct f named idle =
    let v = registered_nicknames-AreNicknames s.clients distinct honest.each in
    let names = listed (registered_nicknames s.clients) in
    record {
      line = server_line (bytes "900 " ++ (bytes "ircbot" ++ (bytes " :Users: " ++ names)));
      queued =
          rw (f, find-deliver, (nat_beq_iff fd fd).1 refl, f, named, user_names-listed s.clients v)
            (unfold append_to_out_buffer in refl);
      reported =
          receive-users names b (listed-one_line (registered_nicknames s.clients) v) idle
          ∙ unfold send_command in unfold reply in unfold bytes in refl;
    }
