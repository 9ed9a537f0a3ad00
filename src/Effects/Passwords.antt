-- ===== src/Effects/Passwords.antt =====
-- Who can pass the password of src/Registration.cpp.
use internet_relay_chat_msn.ChannelCommands.Part.{erase_channel}
use internet_relay_chat_msn.Parser.{parse}
use internet_relay_chat_msn.ChannelCommands.Join.{get_or_create_channel, modify_pending}
use internet_relay_chat_msn.Text.{Text}
use internet_relay_chat_msn.Map.{Map, find, modify, find-modify, map_value}
use internet_relay_chat_msn.Client.{
  Client, append_to_out_buffer, set_nickname, set_username, set_registered, add_rejected_nickname,
}
use internet_relay_chat_msn.Effects.Registering.{pass_action, nick_action, user_action}
use internet_relay_chat_msn.Server.{append_out, modify_client, put_channel, Server, enable_write}
use internet_relay_chat_msn.Base.{
  Bool, ℕ, List, ◌==◌, ◌≡◌, Option, on_found, ◌⊎◌, ◌∷◌, ◌∙◌, false, ◌≢◌, inr, none, true, refl,
  if◌then◌else◌, [], nat_key, inl, arith, some, ap,
}
use internet_relay_chat_msn.Effects.{
  Action, password, Effect, delivers, authenticates, rejects, renames, identifies, registers,
  creates, changes, drops, waits, stops_waiting, serves_waiting, Run, here, next, append_all,
  drop_pending,
}
use internet_relay_chat_msn.Effects.Membership.{ArePeopled}
use internet_relay_chat_msn.Effects.Refinement.{action_of, action_of_line, process_command-Run}
use internet_relay_chat_msn.Dispatch.{Verb, pass, quit, process_command, verb_of}

-- Has the client passed the password?
unfoldable pub is_authenticated : ℕ → Map ℕ Client → Bool
is_authenticated fd clients = on_found (find fd clients) false (λ c. c.authenticated)

authenticated-modify :
    (j k : ℕ) (f : Client → Client) (m : Map ℕ Client)
    → ((c : Client) → (f c).authenticated ≡ c.authenticated)
    → is_authenticated j (modify k f m) ≡ is_authenticated j m
unfolding is_authenticated
authenticated-modify j k f m same = rw find-modify (go (find j m) (k == j))
  where
    go :
        (o : Option Client) (b : Bool)
        → on_found (if b then map_value f o else o) false (λ c. c.authenticated)
          ≡ on_found o false (λ c. c.authenticated)
    go none true = refl
    go none false = refl
    go (some c) true = unfold on_found in same c
    go (some c) false = refl

authenticated-append_all :
    (j fd : ℕ) (messages : List Text) (s : Server)
    → is_authenticated j (append_all fd messages s).clients ≡ is_authenticated j s.clients
unfolding append_all append_out modify_client append_to_out_buffer
authenticated-append_all j fd [] s = refl
authenticated-append_all j fd (message ∷ messages) s =
    authenticated-append_all j fd messages (append_out fd message s)
    ∙ authenticated-modify j fd (append_to_out_buffer message) s.clients (λ c. refl)

-- An effect that is not the password's authenticates nobody.
Effect-authenticated :
    {actor : ℕ} {action : Action} {s t : Server} (j : ℕ)
    → Effect actor action s t
    → (action ≡ password s.password) ⊎ (is_authenticated j t.clients ≡ is_authenticated j s.clients)
unfolding modify_client put_channel get_or_create_channel erase_channel modify_pending drop_pending
    enable_write set_nickname set_username set_registered add_rejected_nickname
Effect-authenticated j (delivers s fd messages) = inr (authenticated-append_all j fd messages s)
Effect-authenticated j (authenticates s e) = inl e
Effect-authenticated {actor} j (rejects s nick e) =
    inr (authenticated-modify j actor (add_rejected_nickname nick) s.clients (λ c. refl))
Effect-authenticated {actor} j (renames s nick e g f) =
    inr (authenticated-modify j actor (set_nickname nick) s.clients (λ c. refl))
Effect-authenticated {actor} j (identifies s name c e f a u) =
    inr (authenticated-modify j actor (set_username name) s.clients (λ c. refl))
Effect-authenticated {actor} j (registers s c f k) =
    inr (authenticated-modify j actor (set_registered true) s.clients (λ c. refl))
Effect-authenticated j (creates s made e) = inr refl
Effect-authenticated j (changes s at_name c c' f r) = inr refl
Effect-authenticated j (drops s gone c f e) = inr refl
Effect-authenticated j (waits s at_name fd e) = inr refl
Effect-authenticated j (stops_waiting s at_name fd) = inr refl
Effect-authenticated j (serves_waiting s at_name) = inr refl

password-append_all :
    (fd : ℕ) (messages : List Text) (s : Server) → (append_all fd messages s).password ≡ s.password
unfolding append_all append_out modify_client
password-append_all fd [] s = refl
password-append_all fd (message ∷ messages) s =
    password-append_all fd messages (append_out fd message s)

Effect-password :
    {actor : ℕ} {action : Action} {s t : Server} → Effect actor action s t → t.password ≡ s.password
unfolding modify_client put_channel get_or_create_channel erase_channel modify_pending drop_pending
    enable_write
Effect-password (delivers s fd messages) = password-append_all fd messages s
Effect-password (authenticates s e) = refl
Effect-password (rejects s nick e) = refl
Effect-password (renames s nick e g f) = refl
Effect-password (identifies s name c e f a u) = refl
Effect-password (registers s c f k) = refl
Effect-password (creates s made e) = refl
Effect-password (changes s at_name c c' f r) = refl
Effect-password (drops s gone c f e) = refl
Effect-password (waits s at_name fd e) = refl
Effect-password (stops_waiting s at_name fd) = refl
Effect-password (serves_waiting s at_name) = refl

pub Run-password :
    {actor : ℕ} {action : Action} {s t : Server} → Run actor action s t → t.password ≡ s.password
Run-password here = refl
Run-password (next r e) = Effect-password e ∙ Run-password r

Run-authenticated :
    {actor : ℕ} {action : Action} {s t : Server} (j : ℕ)
    → Run actor action s t
    → (action ≡ password s.password) ⊎ (is_authenticated j t.clients ≡ is_authenticated j s.clients)
Run-authenticated j here = inr refl
Run-authenticated j (next r e) = elim (Run-authenticated j r) [
  | inl given ↦ inl given
  | inr before ↦ elim (Effect-authenticated j e) [
    | inl given ↦ inl (given ∙ ap password (Run-password r))
    | inr kept ↦ inr (kept ∙ before)
  ]
]

-- Only PASS with the one parameter asks for the password.
action_of-password :
    (verb : Verb) (params : List Text) (given : Text)
    → action_of verb params ≡ password given
    → (verb ≡ pass) × (params ≡ given ∷ [])
unfolding action_of pass_action nick_action user_action
action_of-password verb params given h = ground arith

-- Where every channel is sound and its members registered, a client that becomes authenticated by its
-- own line, other than QUIT, has sent PASS with the server's password as its only parameter.
pub process_command-authenticated :
    (fd : ℕ) (line : Text) (s : Server)
    → verb_of (parse line).command ≢ quit
    → ArePeopled s
    → is_authenticated fd s.clients ≡ false
    → is_authenticated fd (process_command fd line s).clients ≡ true
    → (verb_of (parse line).command ≡ pass) × ((parse line).params ≡ s.password ∷ [])
process_command-authenticated fd line s h v before after =
    elim (Run-authenticated fd (process_command-Run fd line s h v)) [
      | inl given ↦ action_of-password _ _ s.password (unfold action_of_line in given)
      | inr same ↦ cc (same, before, after)
    ]
