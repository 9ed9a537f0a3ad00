-- ===== src/Extraction.antt =====
-- `handleClientRead` and `extractCommands` of src/Server.cpp: the loop over the lines of a client.
pub mod Frame
pub mod Line
pub mod Reads
use internet_relay_chat_msn.Channel.{Channel}
use Prim.Native.Nat.{compare, eq, gt, lt}
use internet_relay_chat_msn.Connection.{poll_index}
use internet_relay_chat_msn.Effects.Membership.{ArePeopled}
use internet_relay_chat_msn.Effects.Steps.{is_registered-modify}
use internet_relay_chat_msn.Client.{Client, append_to_in_buffer, new_client}
use internet_relay_chat_msn.Text.{Text}
use internet_relay_chat_msn.Map.{find, find-modify, Map, insert, insert-found}
use internet_relay_chat_msn.Server.{Server, modify_client, PollFd}
use internet_relay_chat_msn.Dispatch.{
  after_newline, extract_loop, process_line, set_in_buffer, chomp, before_newline, extract_commands,
  handle_client_read,
}
use internet_relay_chat_msn.Base.{
  ℕ, ◌≡◌, refl, true, false, Option, none, some, List, ◌∷◌, [], on_found, suc, ◌⊎◌, length, ◌≤◌,
  nat_key, ◌<◌, arith, zero, Bool-cases, inr, nat_beq_iff, is_empty, ◌==◌, inl, Option-cases, Bool,
}
use mathlib.Core.Option.{some-injective}
use Line.{Continues, process_command-Continues}

-- A line takes characters.
pub length-after_newline :
    (text rest : Text) → after_newline text ≡ some rest → length rest < length text
unfolding after_newline
length-after_newline [] rest h = cc
length-after_newline (c ∷ text) rest h = elim (Bool-cases (c == 10)) [
  | inl ends ↦ ground (arith, some-injective text rest, ends, h)
  | inr more ↦ ground (arith, length-after_newline text rest, more, h)
]

pub after_newline-empty : (text : Text) → length text ≤ 0 → after_newline text ≡ none
unfolding after_newline
after_newline-empty [] h = refl
after_newline-empty (c ∷ text) h = absurd (omega arith)

-- A write that takes no registration away.
pub modify_client-ArePeopled :
    (fd : ℕ) (f : Client → Client) (s : Server)
    → ((c : Client) → c.registered ≡ true → (f c).registered ≡ true)
    → ArePeopled s
    → ArePeopled (modify_client fd f s)
unfolding modify_client
modify_client-ArePeopled fd f s keep v name ch h =
    let p = v name ch h in
    record {
      sound = p.sound;
      registered = λ k m. is_registered-modify k fd f s.clients keep (p.registered k m);
    }

process_line-Continues :
    (fd index : ℕ) (line : Text) (c : Client) (s : Server)
    → ArePeopled s
    → poll_index fd s.poll_fds ≡ some index
    → find fd s.clients ≡ some c
    → Continues fd index c.in_buffer (process_line fd line s)
unfolding process_line
process_line-Continues fd index line c s v at_index f = elim (Bool-cases (is_empty line)) [
  | inl blank ↦ rw blank (inr (v, at_index, (c, f, refl)))
  | inr text ↦ rw text (process_command-Continues fd index line c s v at_index f)
]

pub extract_loop-gone :
    (fuel fd : ℕ) (s : Server) → find fd s.clients ≡ none → extract_loop fuel fd s ≡ s
unfolding extract_loop on_found
extract_loop-gone zero fd s h = refl
extract_loop-gone (suc fuel) fd s h = rw h refl

pub find-modify_client :
    (fd : ℕ) (f : Client → Client) (c : Client) (s : Server)
    → find fd s.clients ≡ some c
    → find fd (modify_client fd f s).clients ≡ some (f c)
unfolding modify_client
find-modify_client fd f c s h = rw (find-modify, (nat_beq_iff fd fd).1 refl, h) refl

-- One round: the line goes, and the client's input is what follows it.
pub round-Continues :
    (fd index : ℕ) (line rest : Text) (c : Client) (s : Server)
    → ArePeopled s
    → poll_index fd s.poll_fds ≡ some index
    → find fd s.clients ≡ some c
    → Continues fd index rest (process_line fd line (modify_client fd (set_in_buffer rest) s))
unfolding set_in_buffer
round-Continues fd index line rest c s v at_index f =
    process_line-Continues fd index line (set_in_buffer rest c)
      (modify_client fd (set_in_buffer rest) s)
      (modify_client-ArePeopled fd (set_in_buffer rest) s (λ d e. e) v)
      (unfold modify_client in at_index) (find-modify_client fd (set_in_buffer rest) c s f)

-- `_clients[fd]` of a client that is there changes nothing.
pub extract_commands-found :
    (fd : ℕ) (c : Client) (s : Server)
    → find fd s.clients ≡ some c
    → extract_commands fd s ≡ extract_loop (length c.in_buffer) fd s
unfolding extract_commands on_found
extract_commands-found fd c s f = rw (extract_commands, kept, f) refl
  where
    kept : insert fd (new_client none) s.clients ≡ s.clients
    kept = insert-found fd (new_client none) c s.clients f
