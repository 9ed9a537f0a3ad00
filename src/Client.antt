-- ===== src/Client.antt =====
-- inc/Client.hpp and src/Client.cpp: one connection, its buffers and its registration.
use internet_relay_chat_msn.Base.{
  ℕ, Bool, false, not, ◌&&◌, Option, List, [], ◌++◌, is_empty, bytes_key,
}
use internet_relay_chat_msn.Map.{set_insert}
use internet_relay_chat_msn.Text.{Text}

-- `fd` is `none` for the -1 of the default constructor.
pub record Client : Type 0 where
  pub fd : Option ℕ
  pub in_buffer : Text
  pub out_buffer : Text
  pub authenticated : Bool
  pub sent_pass : Bool
  pub nickname : Text
  pub rejected_nicknames : List Text
  pub username : Text
  pub registered : Bool

unfoldable pub new_client : Option ℕ → Client
new_client fd = record {
  fd = fd;
  in_buffer = [];
  out_buffer = [];
  authenticated = false;
  sent_pass = false;
  nickname = [];
  rejected_nicknames = [];
  username = [];
  registered = false;
}

unfoldable pub append_to_in_buffer : Text → Client → Client
append_to_in_buffer text c = record c { in_buffer = c.in_buffer ++ text }

unfoldable pub append_to_out_buffer : Text → Client → Client
append_to_out_buffer text c = record c { out_buffer = c.out_buffer ++ text }

unfoldable pub set_authenticated : Bool → Client → Client
set_authenticated value c = record c { authenticated = value }

unfoldable pub set_sent_pass : Bool → Client → Client
set_sent_pass value c = record c { sent_pass = value }

unfoldable pub set_nickname : Text → Client → Client
set_nickname nick c = record c { nickname = nick }

unfoldable pub add_rejected_nickname : Text → Client → Client
add_rejected_nickname nick c = record c {
  rejected_nicknames = set_insert nick c.rejected_nicknames;
}

unfoldable pub set_username : Text → Client → Client
set_username username c = record c { username = username }

unfoldable pub set_registered : Bool → Client → Client
set_registered value c = record c { registered = value }

unfoldable pub can_register : Client → Bool
can_register c =
    not c.registered
    && c.authenticated
    && c.sent_pass
    && not (is_empty c.nickname)
    && not (is_empty c.username)
