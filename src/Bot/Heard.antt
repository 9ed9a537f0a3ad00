-- ===== src/Bot/Heard.antt =====
-- The loop of `main` in bot/main.cpp, as the lines that recv() brought.
use internet_relay_chat_msn.Cut.{
  Line, AreLines, Cut, cut, written, after_newline-written, chomp-written, after_newline-rest,
}
use internet_relay_chat_msn.Bot.Chunks.{handle_line-IgnoresInput, receive-append}
use internet_relay_chat_msn.Bot.Reading.{receive-done}
use internet_relay_chat_msn.Extraction.{length-after_newline}
use internet_relay_chat_msn.Bot.{Bot, handle_line, read_lines, receive, run_bot, started_bot}
use internet_relay_chat_msn.Dispatch.{after_newline}
use internet_relay_chat_msn.Text.{Text}
use internet_relay_chat_msn.Base.{
  ℕ, ◌≡◌, refl, none, List, ◌∷◌, [], on_found, suc, zero, length, ◌≤◌, ◌++◌, nat_key, arith,
  contains, sym, ◌∙◌, false,
}
use mathlib.Core.List.{append-nil}

-- The bot handles each line, in order.
unfoldable pub hear : List Line → Bot → Bot
hear [] b = b
hear (l ∷ lines) b = hear lines (handle_line l.text b)

-- All that recv() returned.
unfoldable pub joined : List Text → Text
joined [] = []
joined (text ∷ texts) = text ++ joined texts

read_lines-hear :
    (fuel : ℕ) (lines : List Line) (rest : Text) (b : Bot)
    → AreLines lines
    → contains rest 10 ≡ false
    → length (written lines rest) ≤ fuel
    → read_lines fuel (record b { input = written lines rest })
      ≡ record (hear lines b) { input = rest }
unfolding read_lines on_found hear
read_lines-hear zero [] rest b v last enough = unfold written in refl
read_lines-hear (suc fuel) [] rest b v last enough = rw unwritten (unfold written in refl)
  where
    unwritten : after_newline (written [] rest) ≡ none
    unwritten = unfold written in after_newline-rest rest last
read_lines-hear zero (l ∷ lines) rest b v last enough =
    absurd
      (omega (arith, length-after_newline _ _ (after_newline-written l lines rest (v.0)), enough))
read_lines-hear (suc fuel) (l ∷ lines) rest b v last enough =
    rw
      (
        after_newline-written l lines rest (v.0),
        chomp-written l lines rest (v.0),
        handle_line-IgnoresInput l.text (written lines rest) b,
      )
      (read_lines-hear fuel lines rest (handle_line l.text b) (v.1) last (
        omega (arith, length-after_newline _ _ (after_newline-written l lines rest (v.0)), enough)))

-- With no line waiting, nothing more happens.
read_lines-still : (fuel : ℕ) (b : Bot) → after_newline b.input ≡ none → read_lines fuel b ≡ b
unfolding read_lines on_found
read_lines-still zero b h = refl
read_lines-still (suc fuel) b h = rw h refl

-- All that was received may as well have come at once.
run_bot-joined :
    (texts : List Text) (b : Bot)
    → after_newline b.input ≡ none
    → run_bot texts b ≡ receive (joined texts) b
unfolding run_bot joined
run_bot-joined [] b h =
    sym (unfold receive in rw append-nil (read_lines-still (length b.input) b h))
run_bot-joined (text ∷ texts) b h =
    run_bot-joined texts (receive text b) (receive-done text b)
    ∙ sym (receive-append text (joined texts) b)

-- What the bot does with all that it receives: the bytes are lines and a rest, it handles the lines, and the
-- rest waits.
pub record HearsLines (texts : List Text) (start last : Bot) : Type 0 where
  pub heard : Cut (joined texts)
  pub handled : last ≡ record (hear heard.lines start) { input = heard.rest }

-- Whatever recv() returns, the started bot handles every line that is ended in it, by a newline or by a return
-- and a newline, as it was written, in order and once, and nothing else; what follows the last newline waits
-- in its input.
pub run_bot-HearsLines :
    (password : Text) (texts : List Text)
    → HearsLines texts (started_bot password) (run_bot texts (started_bot password))
unfolding started_bot
run_bot-HearsLines password texts =
    let k = cut (joined texts) in
    record {
      heard = k;
      handled =
          run_bot-joined texts (started_bot password) waiting
          ∙ at_once k.lines k.rest k.are_lines k.last k.whole;
    }
  where
    waiting : after_newline (started_bot password).input ≡ none
    waiting = unfold after_newline in refl

    at_once :
        (lines : List Line) (rest : Text)
        → AreLines lines
        → contains rest 10 ≡ false
        → joined texts ≡ written lines rest
        → receive (joined texts) (started_bot password)
          ≡ record (hear lines (started_bot password)) { input = rest }
    at_once lines rest v last e =
        unfold receive in
        rw e (read_lines-hear _ lines rest (started_bot password) v last (omega arith))
