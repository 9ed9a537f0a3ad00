-- ===== src/Dispatch/Verbs.antt =====
-- The verbs of `processCommand` in src/Server.cpp: QUIT, and the others.
use internet_relay_chat_msn.Dispatch.{
  Verb, pass, cap, nick, user, join, part, privmsg, notice, ping, quit, topic, mode, invite, kick,
  bot_users, bot_channels, who, whois, whowas, unknown,
}
use internet_relay_chat_msn.Base.{◌≡◌, refl, ◌≢◌, ◌⊎◌, inl, inr}

pub quit-cases : (v : Verb) → (v ≡ quit) ⊎ (v ≢ quit)
quit-cases pass = inr (λ e. cc e)
quit-cases cap = inr (λ e. cc e)
quit-cases nick = inr (λ e. cc e)
quit-cases user = inr (λ e. cc e)
quit-cases join = inr (λ e. cc e)
quit-cases part = inr (λ e. cc e)
quit-cases privmsg = inr (λ e. cc e)
quit-cases notice = inr (λ e. cc e)
quit-cases ping = inr (λ e. cc e)
quit-cases quit = inl refl
quit-cases topic = inr (λ e. cc e)
quit-cases mode = inr (λ e. cc e)
quit-cases invite = inr (λ e. cc e)
quit-cases kick = inr (λ e. cc e)
quit-cases bot_users = inr (λ e. cc e)
quit-cases bot_channels = inr (λ e. cc e)
quit-cases who = inr (λ e. cc e)
quit-cases whois = inr (λ e. cc e)
quit-cases whowas = inr (λ e. cc e)
quit-cases unknown = inr (λ e. cc e)
