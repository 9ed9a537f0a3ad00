-- ===== src/Examples/Lines.antt =====
-- Lines that a client sends, and what `processCommand` of src/Server.cpp does with them.
use internet_relay_chat_msn.Extraction.Reads.{ReadsLines, handle_client_read-ReadsLines}
use internet_relay_chat_msn.Connection.{flush_client_write, poll_index}
use internet_relay_chat_msn.Effects.Wakeup.{AreAwake, is_quiet, process_command-AreAwake}
use internet_relay_chat_msn.Effects.Flushing.{flush_client_write-AreAwake}
use internet_relay_chat_msn.Registration.{
  handle_pass, pass_params, check_password, enable_write_if_queued, accept_password,
}
use internet_relay_chat_msn.Parser.{
  parse, parse_from, parse_prefix, parse_command, parse_params, skip_spaces, word, after_word,
}
use internet_relay_chat_msn.Effects.Refinement.{
  action_of_line, process_command-ArePeopled, process_command-Run, process_command-AreHonest,
}
use internet_relay_chat_msn.Effects.Membership.{ArePeopled}
use internet_relay_chat_msn.Client.{new_client, Client, set_sent_pass, set_authenticated}
use internet_relay_chat_msn.Map.{find, modify}
use internet_relay_chat_msn.Effects.{Run}
use internet_relay_chat_msn.Server.{Server, modify_client}
use internet_relay_chat_msn.Text.{Text, to_upper, bytes}
use internet_relay_chat_msn.Dispatch.{
  quit, verb_of, pass, process_command, verb_table, Verb, verb_from, user, nick, join, run_command,
  run_verb, handle_client_read,
}
use internet_relay_chat_msn.Effects.Accounts.{AreHonest, IsHonest}
use internet_relay_chat_msn.Effects.Secrecy.{find_account, process_command-account_ne}
use internet_relay_chat_msn.Effects.Passwords.{is_authenticated, process_command-authenticated}
use internet_relay_chat_msn.Examples.{
  two_connections, pass_line, nick_line, user_command, join_line,
}
use internet_relay_chat_msn.Base.{
  ◌≡◌, refl, ◌≢◌, false, ◌∷◌, [], some, inl, inr, ℕ, nat_key, is_empty, Option, same_bytes,
  on_found, ◌⊎◌, arith, true, none,
}

-- The verbs of the lines.
abbrev verb_of_line : Text → Verb
verb_of_line line = verb_of (parse line).command

pass_line-verb : verb_of_line pass_line ≡ pass
unfolding verb_of verb_table verb_from parse parse_from parse_prefix parse_command parse_params
    skip_spaces word after_word to_upper bytes same_bytes
pass_line-verb = refl

nick_line-verb : verb_of_line nick_line ≡ nick
unfolding verb_of verb_table verb_from parse parse_from parse_prefix parse_command parse_params
    skip_spaces word after_word to_upper bytes same_bytes
nick_line-verb = refl

user_command-verb : verb_of_line user_command ≡ user
unfolding verb_of verb_table verb_from parse parse_from parse_prefix parse_command parse_params
    skip_spaces word after_word to_upper bytes same_bytes
user_command-verb = refl

join_line-verb : verb_of_line join_line ≡ join
unfolding verb_of verb_table verb_from parse parse_from parse_prefix parse_command parse_params
    skip_spaces word after_word to_upper bytes same_bytes
join_line-verb = refl

pass_line-other : verb_of_line pass_line ≢ quit
pass_line-other = rw pass_line-verb (λ e. cc e)

nick_line-other : verb_of_line nick_line ≢ quit
nick_line-other = rw nick_line-verb (λ e. cc e)

user_command-other : verb_of_line user_command ≢ quit
user_command-other = rw user_command-verb (λ e. cc e)

join_line-other : verb_of_line join_line ≢ quit
join_line-other = rw join_line-verb (λ e. cc e)

-- The server as the lines of client 4 leave it.
abbrev after_pass : Server
after_pass = process_command 4 pass_line two_connections

abbrev after_nick : Server
after_nick = process_command 4 nick_line after_pass

abbrev after_user : Server
after_user = process_command 4 user_command after_nick

two_connections-ArePeopled : ArePeopled two_connections
unfolding find
two_connections-ArePeopled name ch h = cc h

after_pass-ArePeopled : ArePeopled after_pass
after_pass-ArePeopled =
    process_command-ArePeopled 4 pass_line two_connections pass_line-other
      two_connections-ArePeopled

after_nick-ArePeopled : ArePeopled after_nick
after_nick-ArePeopled =
    process_command-ArePeopled 4 nick_line after_pass nick_line-other after_pass-ArePeopled

after_user-ArePeopled : ArePeopled after_user
after_user-ArePeopled =
    process_command-ArePeopled 4 user_command after_nick user_command-other after_nick-ArePeopled

process_command-ArePeopled_example : ArePeopled (process_command 4 join_line after_user)
process_command-ArePeopled_example =
    process_command-ArePeopled 4 join_line after_user join_line-other after_user-ArePeopled

process_command-Run_example :
    Run 4 (action_of_line join_line) after_user (process_command 4 join_line after_user)
process_command-Run_example =
    process_command-Run 4 join_line after_user join_line-other after_user-ArePeopled

new_client-IsHonest : (fd : Option ℕ) → IsHonest (new_client fd)
unfolding new_client
new_client-IsHonest fd = record {
  password = refl;
  nickname = λ e. cc e;
  passed = λ e. cc e;
  named = λ e. cc e;
  identified = λ e. cc e;
}

-- Whoever is found has just connected.
found-new_client :
    (fd : ℕ) (c : Client)
    → find fd two_connections.clients ≡ some c
    → (c ≡ new_client (some 4)) ⊎ (c ≡ new_client (some 5))
unfolding find
found-new_client fd c h = ground arith

two_connections-AreHonest : AreHonest two_connections.clients
two_connections-AreHonest = record {
  each = λ fd c h. elim (found-new_client fd c h) [
    | inl e ↦ rw e (new_client-IsHonest (some 4))
    | inr e ↦ rw e (new_client-IsHonest (some 5))
  ];
  unique = λ fd other c d f g same full. absurd (nameless fd c f full);
}
  where
    nameless :
        (fd : ℕ) (c : Client)
        → find fd two_connections.clients ≡ some c
        → is_empty c.nickname ≢ false
    nameless fd c f full = elim (found-new_client fd c f) [
      | inl e ↦ unfold new_client in cc (e, full)
      | inr e ↦ unfold new_client in cc (e, full)
    ]

process_command-AreHonest_example : AreHonest (process_command 4 nick_line after_pass).clients
process_command-AreHonest_example =
    process_command-AreHonest 4 nick_line after_pass nick_line-other after_pass-ArePeopled (
      process_command-AreHonest 4 pass_line two_connections pass_line-other
        two_connections-ArePeopled two_connections-AreHonest)

process_command-account_ne_example :
    find_account 5 (process_command 4 pass_line two_connections).clients
    ≡ find_account 5 two_connections.clients
process_command-account_ne_example =
    process_command-account_ne 4 5 pass_line two_connections refl pass_line-other
      two_connections-ArePeopled

process_command-authenticated_example :
    (verb_of_line pass_line ≡ pass) × ((parse pass_line).params ≡ two_connections.password ∷ [])
unfolding is_authenticated new_client find process_command run_command run_verb verb_of verb_table
    verb_from parse parse_from parse_prefix parse_command parse_params skip_spaces word after_word
    to_upper bytes same_bytes handle_pass pass_params check_password enable_write_if_queued
    modify_client accept_password set_sent_pass set_authenticated modify on_found
process_command-authenticated_example =
    process_command-authenticated 4 pass_line two_connections pass_line-other
      two_connections-ArePeopled refl refl

two_connections-AreAwake : AreAwake two_connections
unfolding is_quiet on_found new_client
two_connections-AreAwake fd = rw (quiet (find fd two_connections.clients) refl) refl
  where
    quiet :
        (o : Option Client)
        → find fd two_connections.clients ≡ o
        → on_found o true (λ c. is_empty c.out_buffer) ≡ true
    quiet none e = refl
    quiet (some c) e = elim (found-new_client fd c e) [
      | inl first ↦ rw first refl
      | inr second ↦ rw second refl
    ]

after_nick-AreAwake : AreAwake after_nick
after_nick-AreAwake =
    process_command-AreAwake 4 nick_line after_pass nick_line-other after_pass-ArePeopled (
      process_command-AreAwake 4 pass_line two_connections pass_line-other
        two_connections-ArePeopled two_connections-AreAwake)

process_command-AreAwake_example : AreAwake (process_command 4 user_command after_nick)
process_command-AreAwake_example =
    process_command-AreAwake 4 user_command after_nick user_command-other after_nick-ArePeopled
      after_nick-AreAwake

flush_client_write-AreAwake_example : AreAwake (flush_client_write 4 (some 3) after_user)
flush_client_write-AreAwake_example = flush_client_write-AreAwake 4 3 after_user (
    process_command-AreAwake 4 user_command after_nick user_command-other after_nick-ArePeopled
      after_nick-AreAwake)

handle_client_read-ReadsLines_example :
    ReadsLines 4
      (bytes "PASS pw\r\nNICK ann\nUS")
      (new_client (some 4))
      two_connections
      (handle_client_read 4 (some (bytes "PASS pw\r\nNICK ann\nUS")) two_connections)
unfolding poll_index find
handle_client_read-ReadsLines_example =
    handle_client_read-ReadsLines 4 0 (bytes "PASS pw\r\nNICK ann\nUS") (new_client (some 4))
      two_connections two_connections-ArePeopled refl refl
