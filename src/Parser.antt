-- ===== src/Parser.antt =====
-- inc/Parser.hpp and src/Parser.cpp: one line into prefix, command and parameters. A position in
-- the line is the rest of the line from there.
pub mod RoundTrip
pub mod Words
use internet_relay_chat_msn.Base.{
  ℕ, zero, suc, Bool, true, false, List, [], ◌∷◌, map, length, is_empty, ◌==◌, if◌then◌else◌,
  nat_key,
}
use internet_relay_chat_msn.Text.{Text, space, to_upper}

pub record IrcCommand : Type 0 where
  pub command : Text
  pub params : List Text
  pub prefix : Text

unfoldable pub skip_spaces : Text → Text
skip_spaces [] = []
skip_spaces (c ∷ line) = if c == space then skip_spaces line else c ∷ line

-- `while (pos < line.size() && line[pos] != ' ') ++pos;` and what it passed over.
unfoldable pub word : Text → Text
word [] = []
word (c ∷ line) = if c == space then [] else c ∷ word line

unfoldable pub after_word : Text → Text
after_word [] = []
after_word (c ∷ line) = if c == space then c ∷ line else after_word line

abbrev pub starts_with_colon : Text → Bool
starts_with_colon [] = false
starts_with_colon (c ∷ line) = c == b':'

abbrev pub behind_colon : Text → Text
behind_colon [] = []
behind_colon (c ∷ line) = line

-- The text of the prefix and the rest of the line; both as they are if no colon begins it.
unfoldable pub parse_prefix : Text → Text × Text
parse_prefix line =
    if starts_with_colon line
    then (word (behind_colon line), after_word (behind_colon line))
    else ([], line)

unfoldable pub parse_command : Text → Text × Text
parse_command line = (map to_upper (word line), after_word line)

-- Each round takes at least one character: the length of the line is fuel enough.
unfoldable pub parse_params : ℕ → Text → List Text
parse_params zero line = []
parse_params (suc fuel) line =
    let rest = skip_spaces line in
    let more = parse_params fuel (after_word rest) in
    if is_empty rest
    then []
    else if starts_with_colon rest
    then behind_colon rest ∷ []
    else word rest ∷ more

-- What follows the prefix: the command, then the parameters.
unfoldable pub parse_from : Text → Text → IrcCommand
parse_from prefix after_prefix =
    let (command, after_command) = parse_command (skip_spaces after_prefix) in
    let rest = skip_spaces after_command in
    record { command = command; params = parse_params (length rest) rest; prefix = prefix }

unfoldable pub parse : Text → IrcCommand
parse line =
    let start = skip_spaces line in
    if is_empty start
    then record { command = []; params = []; prefix = [] }
    else let (prefix, after_prefix) = parse_prefix start in parse_from prefix after_prefix
