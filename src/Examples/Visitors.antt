-- ===== src/Examples/Visitors.antt =====
-- A client that has just connected to the server: what it may not do yet, and how it leaves.
use internet_relay_chat_msn.EventLoop.Turns.{VisitsAll, serve_round-VisitsAll}
use internet_relay_chat_msn.Quitting.{LeavesBy, process_command-LeavesBy}
use internet_relay_chat_msn.Messages.{handle_privmsg}
use internet_relay_chat_msn.Notices.{IsQuiet, handle_privmsg-IsQuiet}
use internet_relay_chat_msn.Number.{leading_number}
use internet_relay_chat_msn.Port.{is_valid_port, all_digits, atol_of_digits}
use internet_relay_chat_msn.Start.{HasServed, exit_status, launch, launch-HasServed}
use internet_relay_chat_msn.Connection.{add_client}
use internet_relay_chat_msn.Map.{insert, place, find}
use internet_relay_chat_msn.Client.{new_client}
use internet_relay_chat_msn.Examples.Rounds.{total}
use internet_relay_chat_msn.Parser.{
  parse, skip_spaces, parse_from, parse_command, word, parse_prefix,
}
use internet_relay_chat_msn.Base.{
  [], ◌≡◌, true, some, ◌∷◌, refl, on_found, same_bytes, nat_key, ℕ, List, Option,
}
use internet_relay_chat_msn.Examples.Rounds.{
  one_round, answering-AreFresh, all_readable, answering, unused, total,
}
use internet_relay_chat_msn.Examples.{join_line}
use internet_relay_chat_msn.Connection.{disconnect_fd, new_poll_fd, accept_new_client, no_events}
use internet_relay_chat_msn.Events.{process_command-IsValid}
use internet_relay_chat_msn.EventLoop.{
  run, serve_round, started, serve_from, report, serve_entry, is_idle, Round,
}
use internet_relay_chat_msn.Forgotten.{
  IsForgotten, process_command-IsForgotten, disconnect_fd-IsForgotten,
}
use internet_relay_chat_msn.Server.{Server, deliver, not_registered}
use internet_relay_chat_msn.Rejections.{needs_registration, process_command-rejects}
use internet_relay_chat_msn.EventLoop.Runs.{server_of, run-IsValid, AreFreshAlways}
use internet_relay_chat_msn.Text.{Text, bytes, to_upper, is_digit}
use internet_relay_chat_msn.Dispatch.{process_command, verb_of, quit, verb_from, verb_table}
use internet_relay_chat_msn.Validity.{IsValid}

alone : Server
alone = server_of (run (one_round ∷ []) (started [] 3))

alone-IsValid : IsValid alone
unfolding alone one_round answering
alone-IsValid = run-IsValid [] 3 (one_round ∷ []) (answering-AreFresh, tt)

find-alone : find 4 alone.clients ≡ some (new_client (some 4))
unfolding alone server_of run one_round serve_round serve_from on_found report started serve_entry
    is_idle all_readable new_poll_fd accept_new_client answering no_events unused new_client total
    insert place find add_client
find-alone = refl

quit_line : Text
quit_line = bytes "QUIT :bye"

quit_line-quit : verb_of (parse quit_line).command ≡ quit
unfolding quit_line bytes verb_of verb_from verb_table same_bytes parse skip_spaces parse_from
    parse_command word parse_prefix to_upper
quit_line-quit = refl

process_command-IsValid_example : IsValid (process_command 4 quit_line alone)
process_command-IsValid_example = process_command-IsValid 4 quit_line alone alone-IsValid

disconnect_fd-IsForgotten_example : IsForgotten 4 (disconnect_fd 4 alone)
disconnect_fd-IsForgotten_example =
    disconnect_fd-IsForgotten 4 (new_client (some 4)) alone alone-IsValid find-alone

process_command-IsForgotten_example : IsForgotten 4 (process_command 4 quit_line alone)
process_command-IsForgotten_example =
    process_command-IsForgotten 4 quit_line (new_client (some 4)) alone quit_line-quit alone-IsValid
      find-alone

join_line-gated : needs_registration (verb_of (parse join_line).command) ≡ true
unfolding needs_registration bytes verb_of verb_from verb_table same_bytes parse skip_spaces
    parse_from parse_command word parse_prefix to_upper
join_line-gated = refl

process_command-rejects_example : process_command 4 join_line alone ≡ deliver 4 not_registered alone
process_command-rejects_example =
    process_command-rejects 4 join_line (new_client (some 4)) alone join_line-gated find-alone
      (unfold new_client in refl)

-- The program started on port 6667, and shut down after a round.
last_round : Round
last_round = record one_round { shut_down = true }

rounds : List Round
rounds = one_round ∷ last_round ∷ []

rounds-AreFreshAlways : AreFreshAlways rounds
unfolding rounds one_round last_round
rounds-AreFreshAlways = (answering-AreFresh, (answering-AreFresh, tt))

arguments : List Text
arguments = bytes "6667" ∷ bytes "pw" ∷ []

opened : ℕ → Option ℕ
opened n = some 3

ends_well : exit_status (launch arguments opened rounds) ≡ some 0
unfolding exit_status launch arguments opened rounds last_round one_round run on_found is_valid_port
    all_digits atol_of_digits bytes is_digit leading_number
ends_well = refl

launch-HasServed_example : HasServed arguments rounds (launch arguments opened rounds)
launch-HasServed_example = launch-HasServed arguments opened rounds rounds-AreFreshAlways ends_well

handle_privmsg-IsQuiet_example :
    IsQuiet 4
      (new_client (some 4)).nickname
      alone
      (handle_privmsg true 4 (bytes "#talk" ∷ bytes "hi" ∷ []) alone)
handle_privmsg-IsQuiet_example =
    handle_privmsg-IsQuiet 4 (bytes "#talk" ∷ bytes "hi" ∷ []) (new_client (some 4)) alone
      find-alone

process_command-LeavesBy_example : LeavesBy 4 alone (process_command 4 quit_line alone)
process_command-LeavesBy_example =
    process_command-LeavesBy 4 quit_line (new_client (some 4)) alone quit_line-quit alone-IsValid
      find-alone

serve_round-VisitsAll_example : VisitsAll answering alone
serve_round-VisitsAll_example =
    serve_round-VisitsAll answering alone answering-AreFresh alone-IsValid
