-- ===== src/Queries.antt =====
-- src/Queries.cpp: WHO, WHOIS, WHOWAS and the queries of the bot.
use internet_relay_chat_msn.Base.{
  ℕ, not, ◌&&◌, Option, none, some, List, [], ◌∷◌, ◌++◌, ◌==◌, on_found, if◌then◌else◌, nat_key,
  bytes_key, is_empty,
}
use internet_relay_chat_msn.Map.{Map, find}
use internet_relay_chat_msn.Text.{Text, bytes}
use internet_relay_chat_msn.Client.{Client}
use internet_relay_chat_msn.Channel.{Channel}
use internet_relay_chat_msn.Server.{
  Server, server_line, append_out, enable_write, deliver, not_registered,
}

unfoldable pub end_of_who : Text → Text → Text
end_of_who nick name =
    server_line (bytes "315 " ++ (nick ++ (bytes " " ++ (name ++ bytes " :End of /WHO list."))))

-- The two branches for a channel, known or not, send the same line.
unfoldable pub who_params : ℕ → Text → List Text → Server → Server
who_params fd nick [] s = deliver fd (end_of_who nick (bytes "*")) s
who_params fd nick (name ∷ rest) s =
    on_found (find name s.channels) (deliver fd (end_of_who nick name) s)
      (λ channel. deliver fd (end_of_who nick name) s)

unfoldable pub handle_who : ℕ → List Text → Server → Server
handle_who fd params s =
    on_found (find fd s.clients) s λ c.
      if not c.registered then deliver fd not_registered s else who_params fd c.nickname params s

unfoldable pub find_registered : Text → Map ℕ Client → Option Client
find_registered nick [] = none
find_registered nick ((fd, c) ∷ rest) =
    if c.registered && c.nickname == nick then some c else find_registered nick rest

-- The nickname that WHOIS asks for: the last parameter.
unfoldable pub last_param : Text → List Text → Text
last_param param [] = param
last_param param (next ∷ rest) = last_param next rest

unfoldable pub whois_line : Text → Text → Option Client → Text
whois_line nick asked none =
    server_line (bytes "401 " ++ (nick ++ (bytes " " ++ (asked ++ bytes " :No such nick/channel"))))
whois_line nick asked (some target) = server_line (
    bytes "311 "
    ++ (nick
        ++ (bytes " "
            ++ (asked
                ++ (bytes " "
                    ++ (target.username ++ (bytes " localhost * :" ++ target.username)))))))

unfoldable pub no_nickname : Text → Text
no_nickname nick = server_line (bytes "431 " ++ (nick ++ bytes " :No nickname given"))

unfoldable pub whois_params : ℕ → Text → List Text → Server → Server
whois_params fd nick [] s = deliver fd (no_nickname nick) s
whois_params fd nick (param ∷ rest) s =
    let asked = last_param param rest in
    enable_write fd (
      append_out fd
        (server_line
          (bytes "318 " ++ (nick ++ (bytes " " ++ (asked ++ bytes " :End of /WHOIS list.")))))
        (append_out fd (whois_line nick asked (find_registered asked s.clients)) s))

unfoldable pub handle_whois : ℕ → List Text → Server → Server
handle_whois fd params s = on_found (find fd s.clients) s λ c.
    if not c.registered then deliver fd not_registered s else whois_params fd c.nickname params s

unfoldable pub whowas_params : ℕ → Text → List Text → Server → Server
whowas_params fd nick [] s = deliver fd (no_nickname nick) s
whowas_params fd nick (asked ∷ rest) s = enable_write fd (
    append_out fd
      (server_line (bytes "369 " ++ (nick ++ (bytes " " ++ (asked ++ bytes " :End of WHOWAS")))))
      (append_out fd
        (server_line (
          bytes "406 " ++ (nick ++ (bytes " " ++ (asked ++ bytes " :There was no such nickname")))))
        s))

unfoldable pub handle_whowas : ℕ → List Text → Server → Server
handle_whowas fd params s = on_found (find fd s.clients) s λ c.
    if not c.registered then deliver fd not_registered s else whowas_params fd c.nickname params s

-- `if (!users.empty()) users += ", "; users += item;`
unfoldable pub add_item : Text → Text → Text
add_item items item = items ++ ((if is_empty items then [] else bytes ", ") ++ item)

unfoldable pub user_names : Text → Map ℕ Client → Text
user_names users [] = users
user_names users ((fd, c) ∷ rest) =
    user_names (if c.registered then add_item users c.nickname else users) rest

unfoldable pub handle_bot_users : ℕ → Server → Server
handle_bot_users fd s = on_found (find fd s.clients) s λ c.
    deliver fd
      (server_line (bytes "900 " ++ (c.nickname ++ (bytes " :Users: " ++ user_names [] s.clients))))
      s

unfoldable pub channel_list : Text → Map Text Channel → Text
channel_list channels [] = channels
channel_list channels ((name, channel) ∷ rest) = channel_list (add_item channels name) rest

unfoldable pub handle_bot_channels : ℕ → Server → Server
handle_bot_channels fd s = on_found (find fd s.clients) s λ c.
    deliver fd
      (server_line
        (bytes "901 " ++ (c.nickname ++ (bytes " :Channels: " ++ channel_list [] s.channels))))
      s
