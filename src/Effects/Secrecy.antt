-- ===== src/Effects/Secrecy.antt =====
-- Whose account a command can change: the handlers of src/Registration.cpp and the others.
use internet_relay_chat_msn.ChannelCommands.Part.{erase_channel}
use internet_relay_chat_msn.Parser.{parse}
use internet_relay_chat_msn.ChannelCommands.Join.{get_or_create_channel, modify_pending}
use internet_relay_chat_msn.Text.{Text}
use internet_relay_chat_msn.Map.{Map, find, modify, find-modify, map_value}
use internet_relay_chat_msn.Client.{Client, append_to_out_buffer}
use internet_relay_chat_msn.Server.{append_out, modify_client, put_channel, Server, enable_write}
use internet_relay_chat_msn.Base.{
  Bool, ℕ, List, ◌==◌, ◌≡◌, Option, on_found, ◌∷◌, ◌∙◌, false, ◌≢◌, none, true, refl, if◌then◌else◌,
  [], nat_key, some, ap,
}
use internet_relay_chat_msn.Effects.{
  Action, Effect, delivers, authenticates, rejects, renames, identifies, registers, creates,
  changes, drops, waits, stops_waiting, serves_waiting, Run, here, next, append_all, drop_pending,
}
use internet_relay_chat_msn.Effects.Membership.{ArePeopled}
use internet_relay_chat_msn.Effects.Refinement.{process_command-Run}
use internet_relay_chat_msn.Dispatch.{quit, process_command, verb_of}

-- The part of an account that identifies a client.
pub record Account : Type 0 where
  pub authenticated : Bool
  pub nickname : Text
  pub username : Text
  pub registered : Bool

unfoldable pub account_of : Client → Account
account_of c = record {
  authenticated = c.authenticated;
  nickname = c.nickname;
  username = c.username;
  registered = c.registered;
}

unfoldable pub find_account : ℕ → Map ℕ Client → Option Account
find_account fd clients = on_found (find fd clients) none (λ c. some (account_of c))

-- A write to another client, or one that leaves the account alone.
account-modify_ne :
    (j k : ℕ) (f : Client → Client) (m : Map ℕ Client)
    → (k == j) ≡ false
    → find_account j (modify k f m) ≡ find_account j m
unfolding find_account
account-modify_ne j k f m h = rw (find-modify, h) refl

account-modify_same :
    (j k : ℕ) (f : Client → Client) (m : Map ℕ Client)
    → ((c : Client) → account_of (f c) ≡ account_of c)
    → find_account j (modify k f m) ≡ find_account j m
unfolding find_account
account-modify_same j k f m same = rw find-modify (go (find j m) (k == j))
  where
    go :
        (o : Option Client) (b : Bool)
        → on_found (if b then map_value f o else o) none (λ c. some (account_of c))
          ≡ on_found o none (λ c. some (account_of c))
    go none true = refl
    go none false = refl
    go (some c) true = unfold on_found in ap some (same c)
    go (some c) false = refl

account-append_all :
    (j fd : ℕ) (messages : List Text) (s : Server)
    → find_account j (append_all fd messages s).clients ≡ find_account j s.clients
unfolding append_all append_out modify_client append_to_out_buffer
account-append_all j fd [] s = refl
account-append_all j fd (message ∷ messages) s =
    account-append_all j fd messages (append_out fd message s)
    ∙ account-modify_same j fd (append_to_out_buffer message) s.clients
        (unfold account_of in λ c. refl)

-- No command changes another client's account.
Effect-account_ne :
    {actor : ℕ} {action : Action} {s t : Server} (j : ℕ)
    → (actor == j) ≡ false
    → Effect actor action s t
    → find_account j t.clients ≡ find_account j s.clients
unfolding modify_client put_channel get_or_create_channel erase_channel modify_pending drop_pending
    enable_write
Effect-account_ne j h (delivers s fd messages) = account-append_all j fd messages s
Effect-account_ne {actor} j h (authenticates s e) = account-modify_ne j actor _ s.clients h
Effect-account_ne {actor} j h (rejects s nick e) = account-modify_ne j actor _ s.clients h
Effect-account_ne {actor} j h (renames s nick e g f) = account-modify_ne j actor _ s.clients h
Effect-account_ne {actor} j h (identifies s name c e f a u) =
    account-modify_ne j actor _ s.clients h
Effect-account_ne {actor} j h (registers s c f k) = account-modify_ne j actor _ s.clients h
Effect-account_ne j h (creates s made e) = refl
Effect-account_ne j h (changes s at_name c c' f r) = refl
Effect-account_ne j h (drops s gone c f e) = refl
Effect-account_ne j h (waits s at_name fd e) = refl
Effect-account_ne j h (stops_waiting s at_name fd) = refl
Effect-account_ne j h (serves_waiting s at_name) = refl

pub Run-account_ne :
    {actor : ℕ} {action : Action} {s t : Server} (j : ℕ)
    → (actor == j) ≡ false
    → Run actor action s t
    → find_account j t.clients ≡ find_account j s.clients
Run-account_ne j h here = refl
Run-account_ne j h (next r e) = Effect-account_ne j h e ∙ Run-account_ne j h r

-- Where every channel is sound and its members registered, a line of one client, other than QUIT, leaves the account of every other client as it was: its
-- authentication, nickname, username and registration.
pub process_command-account_ne :
    (fd other_fd : ℕ) (line : Text) (s : Server)
    → (fd == other_fd) ≡ false
    → verb_of (parse line).command ≢ quit
    → ArePeopled s
    → find_account other_fd (process_command fd line s).clients ≡ find_account other_fd s.clients
process_command-account_ne fd other_fd line s ne h v =
    Run-account_ne other_fd ne (process_command-Run fd line s h v)
