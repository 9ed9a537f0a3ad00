-- ===== src/Extraction/Reads.antt =====
-- `handleClientRead` and `extractCommands` of src/Server.cpp: a read as the lines that it completes.
use internet_relay_chat_msn.Cut.{
  Line, AreLines, Cut, cut, written, after_newline-written, chomp-written, after_newline-rest,
}
use internet_relay_chat_msn.Extraction.{
  round-Continues, extract_loop-gone, length-after_newline, extract_commands-found,
  find-modify_client, modify_client-ArePeopled, after_newline-empty,
}
use internet_relay_chat_msn.Effects.Membership.{ArePeopled}
use internet_relay_chat_msn.Connection.{poll_index}
use internet_relay_chat_msn.Client.{Client, append_to_in_buffer}
use internet_relay_chat_msn.Map.{find}
use internet_relay_chat_msn.Server.{Server, modify_client}
use internet_relay_chat_msn.Text.{Text}
use internet_relay_chat_msn.Dispatch.{
  extract_loop, process_line, process_command, set_in_buffer, handle_client_read, after_newline,
}
use internet_relay_chat_msn.Base.{
  ℕ, ◌≡◌, refl, true, false, none, some, List, ◌∷◌, [], on_found, suc, zero, length, ◌≤◌, ◌++◌,
  nat_key, arith, contains, inl, inr, is_empty, Bool-cases, ap, sym, ◌∙◌,
}

-- The server processes the lines one after another, from the first state to the second: before each, the
-- client's input becomes what follows it; an empty line does nothing else, any other is a command. It stops
-- where the client is gone, or after the last line, with the rest in the client's input.
pub data Processes (fd : ℕ) (rest : Text) : List Line → Server → Server → Type 0 where
  done :
      {c : Client} {s : Server}
      → find fd s.clients ≡ some c
      → c.in_buffer ≡ rest
      → Processes fd rest [] s s
  gone : {lines : List Line} {s : Server} → find fd s.clients ≡ none → Processes fd rest lines s s
  blank :
      {l : Line} {lines : List Line} {c : Client} {s t : Server}
      → find fd s.clients ≡ some c
      → l.text ≡ []
      → Processes fd rest lines (modify_client fd (set_in_buffer (written lines rest)) s) t
      → Processes fd rest (l ∷ lines) s t
  command :
      {l : Line} {lines : List Line} {c : Client} {s t : Server}
      → find fd s.clients ≡ some c
      → is_empty l.text ≡ false
      → Processes fd rest lines
          (process_command fd l.text (modify_client fd (set_in_buffer (written lines rest)) s))
          t
      → Processes fd rest (l ∷ lines) s t

is_empty-nothing : (text : Text) → is_empty text ≡ true → text ≡ []
is_empty-nothing [] h = refl
is_empty-nothing (c ∷ text) h = cc h

one_line :
    (fd : ℕ) (rest : Text) (l : Line) (lines : List Line) (c : Client) (s t : Server)
    → find fd s.clients ≡ some c
    → Processes fd rest lines
        (process_line fd l.text (modify_client fd (set_in_buffer (written lines rest)) s))
        t
    → Processes fd rest (l ∷ lines) s t
unfolding process_line
one_line fd rest l lines c s t f h = elim (Bool-cases (is_empty l.text)) [
  | inl nothing ↦ blank f (is_empty-nothing l.text nothing) (rw nothing at h)
  | inr text ↦ command f text (rw text at h)
]

extract_loop-Processes :
    (fuel fd index : ℕ) (rest : Text) (lines : List Line) (c : Client) (s : Server)
    → AreLines lines
    → contains rest 10 ≡ false
    → ArePeopled s
    → poll_index fd s.poll_fds ≡ some index
    → find fd s.clients ≡ some c
    → c.in_buffer ≡ written lines rest
    → length c.in_buffer ≤ fuel
    → Processes fd rest lines s (extract_loop fuel fd s)
unfolding extract_loop on_found
extract_loop-Processes zero fd index rest [] c s v last p at_index f e enough =
    done f (e ∙ unfold written in refl)
extract_loop-Processes (suc fuel) fd index rest [] c s v last p at_index f e enough =
    rw (f, e, unwritten) (done f (e ∙ unfold written in refl))
  where
    unwritten : after_newline (written [] rest) ≡ none
    unwritten = unfold written in after_newline-rest rest last
extract_loop-Processes zero fd index rest (l ∷ lines) c s v last p at_index f e enough = cc (
  sym (ap after_newline e) ∙ after_newline-empty c.in_buffer enough,
  after_newline-written l lines rest (v.0),
)
extract_loop-Processes (suc fuel) fd index rest (l ∷ lines) c s v last p at_index f e enough =
    rw (f, e, after_newline-written l lines rest (v.0), chomp-written l lines rest (v.0))
      (one_line fd rest l lines c s _ f
        (elim (round-Continues fd index l.text (written lines rest) c s p at_index f) [
          | inl left ↦ rw (extract_loop-gone fuel fd next left) (gone left)
          | inr (p', at_index', (d, g, same)) ↦
              extract_loop-Processes fuel fd index rest lines d next (v.1) last p' at_index' g same
                (rw same shorter)
        ]))
  where
    next : Server
    next = process_line fd l.text (modify_client fd (set_in_buffer (written lines rest)) s)

    shorter : length (written lines rest) ≤ fuel
    shorter = omega (
      arith,
      length-after_newline c.in_buffer (written lines rest)
          (ap after_newline e ∙ after_newline-written l lines rest (v.0)),
      enough,
    )

-- What the server does with a read: the client's input and the bytes that are read are lines and a rest, and
-- these lines are processed.
pub record ReadsLines (fd : ℕ) (text : Text) (c : Client) (s t : Server) : Type 0 where
  pub input : Cut (c.in_buffer ++ text)
  pub processed :
      Processes fd input.rest input.lines (modify_client fd (append_to_in_buffer text) s) t

-- Where every channel is sound and its members registered, and a client is connected and polled, a read
-- appends its bytes to the client's input, and then every line that is ended in it, by a newline or by a
-- return and a newline, is processed as it was written, in order and once, unless the client is gone before;
-- what follows the last newline stays in the input.
pub handle_client_read-ReadsLines :
    (fd index : ℕ) (text : Text) (c : Client) (s : Server)
    → ArePeopled s
    → poll_index fd s.poll_fds ≡ some index
    → find fd s.clients ≡ some c
    → ReadsLines fd text c s (handle_client_read fd (some text) s)
unfolding handle_client_read on_found
handle_client_read-ReadsLines fd index text c s v at_index f =
    let k = cut (c.in_buffer ++ text) in
    rw
      (
        f,
        extract_commands-found fd (append_to_in_buffer text c)
            (modify_client fd (append_to_in_buffer text) s) found,
      )
      (record {
        input = k;
        processed =
            extract_loop-Processes _ fd index k.rest k.lines (append_to_in_buffer text c)
              (modify_client fd (append_to_in_buffer text) s) k.are_lines k.last
              (modify_client-ArePeopled fd (append_to_in_buffer text) s
                (unfold append_to_in_buffer in λ d e. e) v)
              (unfold modify_client in at_index) found (unfold append_to_in_buffer in k.whole)
              (omega arith);
      })
  where
    found :
        find fd (modify_client fd (append_to_in_buffer text) s).clients
        ≡ some (append_to_in_buffer text c)
    found = find-modify_client fd (append_to_in_buffer text) c s f
