-- ===== src/Effects/Places.antt =====
-- The members of one channel, and their roles, under one change of it.
use internet_relay_chat_msn.Effects.{founds}
use internet_relay_chat_msn.Base.{
  ℕ, ◌≡◌, true, nat_key, bytes_key, arith, nat_beq_iff, contains, contains-push_back,
  contains-erase_first, ◌⊎◌, inl, inr, Bool-cases,
}
use internet_relay_chat_msn.Channel.{
  Channel, has_client, add_client, add_operator, add_half_operator, add_invite, remove_operator,
  remove_half_operator, remove_invite, remove_client, set_topic, set_topic_restricted,
  set_invite_only, set_key, remove_key, set_limit, remove_limit,
}
use internet_relay_chat_msn.Channel.Roles.{
  IsSound, add_client-IsSound, add_operator-IsSound, add_half_operator-IsSound, add_invite-IsSound,
  remove_operator-IsSound, remove_half_operator-IsSound, remove_invite-IsSound,
  remove_client-IsSound,
}
use internet_relay_chat_msn.Server.{Server}
use internet_relay_chat_msn.Effects.{
  ChannelStep, joins, leaves, invites, uninvites, raises, half_raises, lowers, half_lowers,
  retitles, restricts, closes, locks, unlocks, limits, unlimits, ChannelRun, same, then_step,
  is_registered,
}

-- A sound channel whose members are all registered.
pub record IsPeopled (s : Server) (ch : Channel) : Type 0 where
  pub sound : IsSound ch
  pub registered : (fd : ℕ) → has_client ch fd ≡ true → is_registered fd s.clients ≡ true

pub has_client-add_client : (ch : Channel) (fd : ℕ) → has_client (add_client fd ch) fd ≡ true
unfolding add_client has_client
has_client-add_client ch fd = ground (
  arith,
  contains-push_back ch.clients fd fd,
  nat_beq_iff fd fd,
  Bool-cases (contains ch.clients fd),
)

ChannelStep-IsSound :
    {actor : ℕ} {s : Server} {c d : Channel} → ChannelStep actor s c d → IsSound c → IsSound d
unfolding set_topic set_topic_restricted set_invite_only set_key remove_key set_limit remove_limit
ChannelStep-IsSound (joins ch fd e) v = add_client-IsSound ch fd v
ChannelStep-IsSound (leaves ch fd e) v = remove_client-IsSound ch fd v
ChannelStep-IsSound (invites ch fd e) v = add_invite-IsSound ch fd v
ChannelStep-IsSound (uninvites ch fd) v = remove_invite-IsSound ch fd v
ChannelStep-IsSound (founds ch fd e none_human) v =
    add_operator-IsSound (remove_invite fd (add_client fd ch)) fd
      (unfold remove_invite has_client in has_client-add_client ch fd)
      (remove_invite-IsSound (add_client fd ch) fd (add_client-IsSound ch fd v))
ChannelStep-IsSound (raises ch fd m none_yet) v = add_operator-IsSound ch fd m v
ChannelStep-IsSound (half_raises ch fd e m) v = add_half_operator-IsSound ch fd m v
ChannelStep-IsSound (lowers ch fd e) v = remove_operator-IsSound ch fd v
ChannelStep-IsSound (half_lowers ch fd) v = remove_half_operator-IsSound ch fd v
ChannelStep-IsSound (retitles ch topic m e) v = record {
  clients = v.clients;
  operators = v.operators;
  half_operators = v.half_operators;
  invited = v.invited;
  operator_member = v.operator_member;
  half_member = v.half_member;
  limit = v.limit;
}
ChannelStep-IsSound (restricts ch value e) v = record {
  clients = v.clients;
  operators = v.operators;
  half_operators = v.half_operators;
  invited = v.invited;
  operator_member = v.operator_member;
  half_member = v.half_member;
  limit = v.limit;
}
ChannelStep-IsSound (closes ch value e) v = record {
  clients = v.clients;
  operators = v.operators;
  half_operators = v.half_operators;
  invited = v.invited;
  operator_member = v.operator_member;
  half_member = v.half_member;
  limit = v.limit;
}
ChannelStep-IsSound (locks ch key e) v = record {
  clients = v.clients;
  operators = v.operators;
  half_operators = v.half_operators;
  invited = v.invited;
  operator_member = v.operator_member;
  half_member = v.half_member;
  limit = v.limit;
}
ChannelStep-IsSound (unlocks ch e) v = record {
  clients = v.clients;
  operators = v.operators;
  half_operators = v.half_operators;
  invited = v.invited;
  operator_member = v.operator_member;
  half_member = v.half_member;
  limit = v.limit;
}
ChannelStep-IsSound (limits ch n e) v = record {
  clients = v.clients;
  operators = v.operators;
  half_operators = v.half_operators;
  invited = v.invited;
  operator_member = v.operator_member;
  half_member = v.half_member;
  limit = λ h. omega arith;
}
ChannelStep-IsSound (unlimits ch e) v = record {
  clients = v.clients;
  operators = v.operators;
  half_operators = v.half_operators;
  invited = v.invited;
  operator_member = v.operator_member;
  half_member = v.half_member;
  limit = λ h. cc;
}

-- Whoever is a member after a step was one before it, or is registered.
ChannelStep-member :
    {actor : ℕ} {s : Server} {c d : Channel} (fd : ℕ)
    → ChannelStep actor s c d
    → has_client d fd ≡ true
    → (has_client c fd ≡ true) ⊎ (is_registered fd s.clients ≡ true)
unfolding has_client add_client add_operator add_half_operator add_invite remove_client
    remove_operator remove_half_operator remove_invite set_topic set_topic_restricted
    set_invite_only set_key remove_key set_limit remove_limit
ChannelStep-member g (joins ch fd e) h = ground (
  arith,
  contains-push_back ch.clients fd g,
  nat_beq_iff fd g,
  Bool-cases (contains ch.clients fd),
)
ChannelStep-member g (leaves ch fd e) h = inl (contains-erase_first ch.clients fd g h)
ChannelStep-member g (invites ch fd e) h = inl (ground arith)
ChannelStep-member g (uninvites ch fd) h = inl h
ChannelStep-member g (raises ch fd m none_yet) h = inl (ground arith)
ChannelStep-member g (founds ch fd e none_human) h = ground (
  arith,
  contains-push_back ch.clients fd g,
  nat_beq_iff fd g,
  Bool-cases (contains ch.clients fd),
)
ChannelStep-member g (half_raises ch fd e m) h = inl (ground arith)
ChannelStep-member g (lowers ch fd e) h = inl h
ChannelStep-member g (half_lowers ch fd) h = inl h
ChannelStep-member g (retitles ch topic m e) h = inl h
ChannelStep-member g (restricts ch value e) h = inl h
ChannelStep-member g (closes ch value e) h = inl h
ChannelStep-member g (locks ch key e) h = inl h
ChannelStep-member g (unlocks ch e) h = inl h
ChannelStep-member g (limits ch n e) h = inl h
ChannelStep-member g (unlimits ch e) h = inl h

ChannelStep-IsPeopled :
    {actor : ℕ} {s : Server} {c d : Channel}
    → ChannelStep actor s c d
    → IsPeopled s c
    → IsPeopled s d
ChannelStep-IsPeopled st v = record {
  sound = ChannelStep-IsSound st v.sound;
  registered =
      λ fd m. elim (ChannelStep-member fd st m) [ inl old ↦ v.registered fd old | inr new ↦ new ];
}

pub ChannelRun-IsPeopled :
    {actor : ℕ} {s : Server} {c d : Channel}
    → ChannelRun actor s c d
    → IsPeopled s c
    → IsPeopled s d
ChannelRun-IsPeopled same v = v
ChannelRun-IsPeopled (then_step r st) v = ChannelStep-IsPeopled st (ChannelRun-IsPeopled r v)
