-- ===== src/Channel.antt =====
-- inc/Channel.hpp and src/Channel.cpp: one channel, its members by file descriptor, and its modes.
pub mod Roles
use internet_relay_chat_msn.Base.{
  ℕ, Bool, true, false, not, List, [], ◌∷◌, ◌++◌, contains, erase_first, is_empty, if◌then◌else◌,
  nat_key,
}
use internet_relay_chat_msn.Text.{Text}

pub record Channel : Type 0 where
  pub name : Text
  pub clients : List ℕ
  pub topic : Text
  pub topic_restricted : Bool
  pub operators : List ℕ
  pub half_operators : List ℕ
  pub invite_only : Bool
  pub invited : List ℕ
  pub key_enabled : Bool
  pub key : Text
  pub limit_enabled : Bool
  pub limit : ℕ

unfoldable pub new_channel : Text → Channel
new_channel name = record {
  name = name;
  clients = [];
  topic = [];
  topic_restricted = true;
  operators = [];
  half_operators = [];
  invite_only = false;
  invited = [];
  key_enabled = false;
  key = [];
  limit_enabled = false;
  limit = 0;
}

unfoldable pub has_client : Channel → ℕ → Bool
has_client c fd = contains c.clients fd

unfoldable pub is_operator : Channel → ℕ → Bool
is_operator c fd = contains c.operators fd

unfoldable pub is_half_operator : Channel → ℕ → Bool
is_half_operator c fd = contains c.half_operators fd

unfoldable pub is_invited : Channel → ℕ → Bool
is_invited c fd = contains c.invited fd

unfoldable pub has_operator : Channel → Bool
has_operator c = not (is_empty c.operators)

unfoldable pub add_client : ℕ → Channel → Channel
unfolding has_client
add_client fd c = if has_client c fd then c else record c { clients = c.clients ++ fd ∷ [] }

unfoldable pub add_operator : ℕ → Channel → Channel
unfolding is_operator
add_operator fd c = if is_operator c fd then c else record c { operators = c.operators ++ fd ∷ [] }

unfoldable pub add_half_operator : ℕ → Channel → Channel
unfolding is_half_operator
add_half_operator fd c =
    if is_half_operator c fd then c else record c { half_operators = c.half_operators ++ fd ∷ [] }

unfoldable pub add_invite : ℕ → Channel → Channel
unfolding is_invited
add_invite fd c = if is_invited c fd then c else record c { invited = c.invited ++ fd ∷ [] }

unfoldable pub remove_operator : ℕ → Channel → Channel
remove_operator fd c = record c { operators = erase_first fd c.operators }

unfoldable pub remove_half_operator : ℕ → Channel → Channel
remove_half_operator fd c = record c { half_operators = erase_first fd c.half_operators }

unfoldable pub remove_invite : ℕ → Channel → Channel
remove_invite fd c = record c { invited = erase_first fd c.invited }

unfoldable pub remove_client : ℕ → Channel → Channel
unfolding remove_operator remove_half_operator
remove_client fd c =
    remove_half_operator fd (remove_operator fd (record c { clients = erase_first fd c.clients }))

unfoldable pub set_topic : Text → Channel → Channel
set_topic topic c = record c { topic = topic }

unfoldable pub set_topic_restricted : Bool → Channel → Channel
set_topic_restricted value c = record c { topic_restricted = value }

unfoldable pub set_invite_only : Bool → Channel → Channel
set_invite_only value c = record c { invite_only = value }

unfoldable pub set_key : Text → Channel → Channel
set_key key c = record c { key = key; key_enabled = true }

unfoldable pub remove_key : Channel → Channel
remove_key c = record c { key = []; key_enabled = false }

unfoldable pub set_limit : ℕ → Channel → Channel
set_limit limit c = record c { limit = limit; limit_enabled = true }

unfoldable pub remove_limit : Channel → Channel
remove_limit c = record c { limit = 0; limit_enabled = false }
