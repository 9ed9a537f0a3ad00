-- ===== src/Serving/Lines.antt =====
-- A client that `Server::run` of src/Server.cpp serves: its lines read, its output sent.
use internet_relay_chat_msn.Serving.Indices.{poll_index-Polls}
use internet_relay_chat_msn.Effects.Refinement.{process_command-Run}
use internet_relay_chat_msn.Effects.Refinement.{process_command-Run}
use internet_relay_chat_msn.Parser.{parse}
use internet_relay_chat_msn.Dispatch.Verbs.{quit-cases}
use internet_relay_chat_msn.Events.{input-IsValid, process_line-IsValid}
use internet_relay_chat_msn.Sending.{fds_of-clear_pollout}
use internet_relay_chat_msn.Departure.Loop.{quit_channels-Run}
use internet_relay_chat_msn.Extraction.{
  find-modify_client, extract_commands-found, extract_loop-gone,
}
use internet_relay_chat_msn.Map.Keys.{is_some}
use internet_relay_chat_msn.Messages.{handle_quit, quit_channels, quit_reason}
use internet_relay_chat_msn.Validity.{IsValid, Run-IsValid}
use internet_relay_chat_msn.Effects.{Action, Run}
use internet_relay_chat_msn.Polling.{poll_index-get_elem?}
use internet_relay_chat_msn.Serving.{Serves, stays, disconnect_client-Serves, after_stays, goes}
use internet_relay_chat_msn.Client.{Client, append_to_in_buffer}
use internet_relay_chat_msn.Extraction.Frame.{input_of, Run-Keeps}
use internet_relay_chat_msn.Validity.Kept.{Run-Polls}
use internet_relay_chat_msn.Text.{Text, bytes}
use internet_relay_chat_msn.Map.{Map, find, find-modify}
use internet_relay_chat_msn.Server.{Server, is_connected, modify_client, user_line}
use internet_relay_chat_msn.Dispatch.{
  extract_loop, handle_client_read, process_command, process_line, run_command, run_verb,
  set_in_buffer, chomp, before_newline, verb_of, after_newline,
}
use internet_relay_chat_msn.Connection.{
  poll_index, flush_sent, flush_client_write, disconnect_fd, disable_write,
}
use internet_relay_chat_msn.Base.{
  some, none, inl, inr, ℕ, List, ◌≡◌, Option, on_found, ◌∙◌, true, if◌then◌else◌, Bool-cases, ◌++◌,
  refl, ◌==◌, suc, is_empty, nat_key, drop, nat_beq_iff, Option-cases, zero,
}

-- A client that has the entry at an index.
module _ (fd i : ℕ) where
  pub disconnect_fd-Serves :
      (s : Server)
      → IsValid s
      → poll_index fd s.poll_fds ≡ some i
      → Serves fd i s (disconnect_fd fd s)
  unfolding disconnect_fd on_found
  disconnect_fd-Serves s v at_index =
      let (q, there, same) = poll_index-get_elem? fd i s.poll_fds at_index in
      rw at_index (rw same at (disconnect_client-Serves i q s v there))

  Run-connected :
      {action : Action} (c : Client) {s t : Server}
      → find fd s.clients ≡ some c
      → Run fd action s t
      → is_connected fd t.clients ≡ true
  unfolding is_connected input_of on_found
  Run-connected c {s} {t} f r = go (find fd t.clients) ((Run-Keeps fd r).input ∙ rw f refl)
    where
      go :
          (o : Option Client)
          → on_found o none (λ d. some d.in_buffer) ≡ some c.in_buffer
          → is_some o ≡ true
      go none e = unfold on_found in cc
      go (some d) e = refl

  pub handle_quit-Serves :
      (params : List Text) (c : Client) (s : Server)
      → IsValid s
      → poll_index fd s.poll_fds ≡ some i
      → find fd s.clients ≡ some c
      → Serves fd i s (handle_quit fd params s)
  unfolding handle_quit on_found
  handle_quit-Serves params c s v at_index f =
      rw f (left (user_line c.nickname (bytes "QUIT :" ++ quit_reason params)))
    where
      left :
          (message : Text)
          → Serves fd i s (disconnect_fd fd (quit_channels fd message s.channels s))
      left message =
          let r = quit_channels-Run fd message s v.tables.channels v.peopled in
          let t = quit_channels fd message s.channels s in
          after_stays {t = t} (Run-Polls r) (
            disconnect_fd-Serves t (Run-IsValid r v)
              (poll_index-Polls fd s t (Run-Polls r) ∙ at_index))

  process_command-Serves :
      (line : Text) (c : Client) (s : Server)
      → IsValid s
      → poll_index fd s.poll_fds ≡ some i
      → find fd s.clients ≡ some c
      → Serves fd i s (process_command fd line s)
  unfolding process_command run_command run_verb on_found
  process_command-Serves line c s v at_index f = elim (quit-cases (verb_of (parse line).command)) [
    | inl quits ↦ rw (f, quits) (handle_quit-Serves (parse line).params c s v at_index f)
    | inr others ↦
        let r = process_command-Run fd line s others v.peopled in
        stays (Run-Polls r) (Run-connected c f r)
  ]

  process_line-Serves :
      (line : Text) (c : Client) (s : Server)
      → IsValid s
      → poll_index fd s.poll_fds ≡ some i
      → find fd s.clients ≡ some c
      → Serves fd i s (process_line fd line s)
  unfolding process_line is_connected
  process_line-Serves line c s v at_index f = elim (Bool-cases (is_empty line)) [
    | inl blank ↦ rw blank (stays (refl, refl) (rw f refl))
    | inr text ↦ rw text (process_command-Serves line c s v at_index f)
  ]

  pub connected-found :
      (m : Map ℕ Client) → is_connected fd m ≡ true → (c : Client) × (find fd m ≡ some c)
  unfolding is_connected
  connected-found m h = go (find fd m) refl h
    where
      go :
          (o : Option Client)
          → find fd m ≡ o
          → is_some o ≡ true
          → (c : Client) × (find fd m ≡ some c)
      go none f e = cc
      go (some c) f e = (c, f)

  -- The lines that are left are read if the client is still there.
  then_lines :
      (fuel : ℕ) (s t : Server)
      → poll_index fd s.poll_fds ≡ some i
      → Serves fd i s t
      → ((d : Client)
          → poll_index fd t.poll_fds ≡ some i
          → find fd t.clients ≡ some d
          → Serves fd i t (extract_loop fuel fd t))
      → Serves fd i s (extract_loop fuel fd t)
  then_lines fuel s t at_index (stays p c) later =
      let (d, f) = connected-found t.clients c in
      after_stays p (later d (poll_index-Polls fd s t p ∙ at_index) f)
  then_lines fuel s t at_index (goes h listen gone) later =
      rw (extract_loop-gone fuel fd t gone) (goes h listen gone)

  extract_loop-Serves :
      (fuel : ℕ) (c : Client) (s : Server)
      → IsValid s
      → poll_index fd s.poll_fds ≡ some i
      → find fd s.clients ≡ some c
      → Serves fd i s (extract_loop fuel fd s)
  unfolding extract_loop on_found is_connected set_in_buffer modify_client
  extract_loop-Serves zero c s v at_index f = stays (refl, refl) (rw f refl)
  extract_loop-Serves (suc fuel) c s v at_index f =
      elim (Option-cases (after_newline c.in_buffer)) [
        | inl last ↦ rw (f, last) (stays (refl, refl) (rw f refl))
        | inr (rest, more) ↦
            rw (f, more)
              (after_stays {t = modify_client fd (set_in_buffer rest) s} (refl, refl)
                (then_lines fuel _ _ at_index (served rest) (λ d at_index' g.
                  extract_loop-Serves fuel d _ (process_line-IsValid fd _ _ (valid rest)) at_index'
                    g)))
      ]
    where
      ready : Text → Server
      ready rest = modify_client fd (λ d. record d { in_buffer = rest }) s

      valid : (rest : Text) → IsValid (ready rest)
      valid rest = input-IsValid fd (λ d. rest) s v

      served :
          (rest : Text)
          → Serves fd i
              (ready rest)
              (process_line fd (chomp (before_newline c.in_buffer)) (ready rest))
      served rest =
          process_line-Serves (chomp (before_newline c.in_buffer)) _ (ready rest) (valid rest)
            at_index (find-modify_client fd (λ d. record d { in_buffer = rest }) c s f)

  pub handle_client_read-Serves :
      (received : Option Text) (c : Client) (s : Server)
      → IsValid s
      → poll_index fd s.poll_fds ≡ some i
      → find fd s.clients ≡ some c
      → Serves fd i s (handle_client_read fd received s)
  unfolding handle_client_read on_found append_to_in_buffer modify_client
  handle_client_read-Serves none c s v at_index f = rw f (disconnect_fd-Serves s v at_index)
  handle_client_read-Serves (some text) c s v at_index f =
      rw (f, extract_commands-found fd d ready g)
        (after_stays {t = ready} (refl, refl)
          (extract_loop-Serves _ d ready (input-IsValid fd (λ e. e.in_buffer ++ text) s v) at_index
            g))
    where
      d : Client
      d = record c { in_buffer = c.in_buffer ++ text }

      ready : Server
      ready = modify_client fd (λ e. record e { in_buffer = e.in_buffer ++ text }) s

      g : find fd ready.clients ≡ some d
      g = find-modify_client fd (λ e. record e { in_buffer = e.in_buffer ++ text }) c s f

  flush_sent-Serves :
      (n : ℕ) (c : Client) (s : Server)
      → find fd s.clients ≡ some c
      → Serves fd i s (flush_sent fd n c s)
  unfolding flush_sent disable_write modify_client is_connected
  flush_sent-Serves n c s f = elim (Bool-cases (is_empty (drop n c.out_buffer))) [
    | inl done ↦ rw done (
        stays (fds_of-clear_pollout fd s.poll_fds, refl)
          (rw (find-modify, (nat_beq_iff fd fd).1 refl, f) refl))
    | inr left ↦ rw left (stays (refl, refl) (rw (find-modify, (nat_beq_iff fd fd).1 refl, f) refl))
  ]

  pub flush_client_write-Serves :
      (sent : Option ℕ) (c : Client) (s : Server)
      → IsValid s
      → poll_index fd s.poll_fds ≡ some i
      → find fd s.clients ≡ some c
      → Serves fd i s (flush_client_write fd sent s)
  unfolding flush_client_write on_found is_connected
  flush_client_write-Serves sent c s v at_index f = elim (Bool-cases (is_empty c.out_buffer)) [
    | inl quiet ↦ rw (f, quiet) (stays (refl, refl) (rw f refl))
    | inr loud ↦ rw (f, loud) (by_answer sent)
  ]
    where
      by_answer :
          (o : Option ℕ)
          → Serves fd i s (elim o [
            | none ↦ disconnect_fd fd s
            | some n ↦ if n == 0 then s else flush_sent fd n c s
          ])
      by_answer none = disconnect_fd-Serves s v at_index
      by_answer (some n) = elim (Bool-cases (n == 0)) [
        | inl nothing ↦ rw nothing (stays (refl, refl) (rw f refl))
        | inr some_bytes ↦ rw some_bytes (flush_sent-Serves n c s f)
      ]
