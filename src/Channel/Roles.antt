-- ===== src/Channel/Roles.antt =====
-- src/Channel.cpp: the roles of a channel's members, under every operation.
use internet_relay_chat_msn.Base.{
  ℕ, ◌≡◌, true, List, contains, erase_first, arith, Distinct, contains-push_back,
  Distinct-push_back, contains-erase_first_ne, contains-erase_first, contains-erase_first_self,
  Distinct-erase_first, nat_key, nat_beq_iff, Bool-cases, ◌<◌, inl, inr,
}
use internet_relay_chat_msn.Text.{Text}
use internet_relay_chat_msn.Channel.{
  Channel, new_channel, has_client, is_operator, is_half_operator, is_invited, add_client,
  add_operator, add_half_operator, add_invite, remove_operator, remove_half_operator, remove_invite,
  remove_client,
}

-- Nobody is listed twice, operators and halfops are members, and a limit that is set is not 0.
pub record IsSound (c : Channel) : Type 0 where
  pub clients : Distinct c.clients
  pub operators : Distinct c.operators
  pub half_operators : Distinct c.half_operators
  pub invited : Distinct c.invited
  pub operator_member : (fd : ℕ) → contains c.operators fd ≡ true → contains c.clients fd ≡ true
  pub half_member : (fd : ℕ) → contains c.half_operators fd ≡ true → contains c.clients fd ≡ true
  pub limit : c.limit_enabled ≡ true → 0 < c.limit

pub new_channel-IsSound : (name : Text) → IsSound (new_channel name)
unfolding new_channel contains
new_channel-IsSound name = record {
  clients = tt;
  operators = tt;
  half_operators = tt;
  invited = tt;
  operator_member = λ fd h. cc;
  half_member = λ fd h. cc;
  limit = λ h. cc;
}

pub add_client-IsSound : (c : Channel) (fd : ℕ) → IsSound c → IsSound (add_client fd c)
unfolding add_client
add_client-IsSound c fd v = elim (Bool-cases (has_client c fd)) [
  | inl old ↦ rw old v
  | inr new ↦ rw new (record {
    clients = Distinct-push_back c.clients fd v.clients (unfold has_client in new);
    operators = v.operators;
    half_operators = v.half_operators;
    invited = v.invited;
    operator_member =
        λ g h. ground (arith, contains-push_back c.clients fd g, v.operator_member g h);
    half_member = λ g h. ground (arith, contains-push_back c.clients fd g, v.half_member g h);
    limit = v.limit;
  })
]

pub add_operator-IsSound :
    (c : Channel) (fd : ℕ) → has_client c fd ≡ true → IsSound c → IsSound (add_operator fd c)
unfolding add_operator has_client
add_operator-IsSound c fd m v = elim (Bool-cases (is_operator c fd)) [
  | inl old ↦ rw old v
  | inr new ↦ rw new (record {
    clients = v.clients;
    operators = Distinct-push_back c.operators fd v.operators (unfold is_operator in new);
    half_operators = v.half_operators;
    invited = v.invited;
    operator_member = λ g h.
        ground (arith, contains-push_back c.operators fd g, nat_beq_iff fd g, v.operator_member g);
    half_member = v.half_member;
    limit = v.limit;
  })
]

pub add_half_operator-IsSound :
    (c : Channel) (fd : ℕ) → has_client c fd ≡ true → IsSound c → IsSound (add_half_operator fd c)
unfolding add_half_operator has_client
add_half_operator-IsSound c fd m v = elim (Bool-cases (is_half_operator c fd)) [
  | inl old ↦ rw old v
  | inr new ↦ rw new (record {
    clients = v.clients;
    operators = v.operators;
    half_operators =
        Distinct-push_back c.half_operators fd v.half_operators (unfold is_half_operator in new);
    invited = v.invited;
    operator_member = v.operator_member;
    half_member = λ g h.
        ground (arith, contains-push_back c.half_operators fd g, nat_beq_iff fd g, v.half_member g);
    limit = v.limit;
  })
]

pub add_invite-IsSound : (c : Channel) (fd : ℕ) → IsSound c → IsSound (add_invite fd c)
unfolding add_invite
add_invite-IsSound c fd v = elim (Bool-cases (is_invited c fd)) [
  | inl old ↦ rw old v
  | inr new ↦ rw new (record {
    clients = v.clients;
    operators = v.operators;
    half_operators = v.half_operators;
    invited = Distinct-push_back c.invited fd v.invited (unfold is_invited in new);
    operator_member = v.operator_member;
    half_member = v.half_member;
    limit = v.limit;
  })
]

pub remove_operator-IsSound : (c : Channel) (fd : ℕ) → IsSound c → IsSound (remove_operator fd c)
unfolding remove_operator
remove_operator-IsSound c fd v = record {
  clients = v.clients;
  operators = Distinct-erase_first c.operators fd v.operators;
  half_operators = v.half_operators;
  invited = v.invited;
  operator_member = λ g h. v.operator_member g (contains-erase_first c.operators fd g h);
  half_member = v.half_member;
  limit = v.limit;
}

pub remove_half_operator-IsSound :
    (c : Channel) (fd : ℕ) → IsSound c → IsSound (remove_half_operator fd c)
unfolding remove_half_operator
remove_half_operator-IsSound c fd v = record {
  clients = v.clients;
  operators = v.operators;
  half_operators = Distinct-erase_first c.half_operators fd v.half_operators;
  invited = v.invited;
  operator_member = v.operator_member;
  half_member = λ g h. v.half_member g (contains-erase_first c.half_operators fd g h);
  limit = v.limit;
}

pub remove_invite-IsSound : (c : Channel) (fd : ℕ) → IsSound c → IsSound (remove_invite fd c)
unfolding remove_invite
remove_invite-IsSound c fd v = record {
  clients = v.clients;
  operators = v.operators;
  half_operators = v.half_operators;
  invited = Distinct-erase_first c.invited fd v.invited;
  operator_member = v.operator_member;
  half_member = v.half_member;
  limit = v.limit;
}

-- A rank that is left is another client's: it is still a member's.
erased_rank :
    (ranks members : List ℕ) (fd g : ℕ)
    → Distinct ranks
    → (contains ranks g ≡ true → contains members g ≡ true)
    → contains (erase_first fd ranks) g ≡ true
    → contains (erase_first fd members) g ≡ true
erased_rank ranks members fd g d sub h = ground (
  arith,
  nat_beq_iff fd g,
  contains-erase_first ranks fd g,
  contains-erase_first_self ranks fd d,
  contains-erase_first_ne members fd g,
)

pub remove_client-IsSound : (c : Channel) (fd : ℕ) → IsSound c → IsSound (remove_client fd c)
unfolding remove_client
remove_client-IsSound c fd v = record {
  clients = Distinct-erase_first c.clients fd v.clients;
  operators = Distinct-erase_first c.operators fd v.operators;
  half_operators = Distinct-erase_first c.half_operators fd v.half_operators;
  invited = v.invited;
  operator_member =
      λ g h. erased_rank c.operators c.clients fd g v.operators (v.operator_member g) h;
  half_member =
      λ g h. erased_rank c.half_operators c.clients fd g v.half_operators (v.half_member g) h;
  limit = v.limit;
}
