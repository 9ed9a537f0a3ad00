-- ===== src/Effects/Modes.antt =====
-- MODE as a run of effects: src/Mode.cpp.
use internet_relay_chat_msn.Map.{find}
use internet_relay_chat_msn.Number.{ℤ, pos, atoi, negsuc}
use internet_relay_chat_msn.Server.{Server, find_nickname, put_channel}
use internet_relay_chat_msn.Channel.{
  Channel, is_operator, remove_operator, has_client, remove_half_operator, set_invite_only,
  has_operator,
}
use internet_relay_chat_msn.Text.{Text, bytes}
use internet_relay_chat_msn.Base.{
  ℕ, List, ◌≡◌, some, true, ◌∙◌, ◌∷◌, not, false, bytes_key, [], arith, Bool-cases, suc, nat_key,
  refl, zero, inl, ◌++◌, inr,
}
use internet_relay_chat_msn.Effects.{
  Action, changes, serves_waiting, Run, here, ChannelRun, ChannelStep, same, then_step, raises,
  half_raises, lowers, half_lowers, restricts, closes, locks, unlocks, limits, unlimits,
  drop_pending, has_rights,
}
use internet_relay_chat_msn.Effects.Membership.{ArePeopled, Run-ArePeopled}
use internet_relay_chat_msn.Effects.Rules.{
  Run-trans, one, Run-if, Run-on_found, Run-broadcast, Run-send_reply, channels-broadcast,
  channels-send_reply, find-put_channel,
}
use internet_relay_chat_msn.Effects.Promotion.{promote_successor-Run}
use internet_relay_chat_msn.Effects.Joining.{handle_join-Run}
use internet_relay_chat_msn.Mode.{
  ModeName, restrict, unrestrict, invite_only, invite_off, key, key_off, limit, limit_off, op,
  op_off, ban_list, unknown, apply_mode, limit_mode, join_waiting, announce_mode, set_rank,
  withdraw_rank, mode_action, mode_params, join_pending_clients, grant_rank, may_change,
  change_mode, set_channel_operator, handle_mode, is_rank_change, is_own_mode, mode_name, withdrawn,
}

-- The right to change a mode is that of an operator or a halfop, and of an operator only for a rank.
may_change-has_rights :
    (m : ModeName) (fd : ℕ) (ch : Channel) → may_change m fd ch ≡ true → has_rights ch fd ≡ true
unfolding may_change has_rights
may_change-has_rights m fd ch h = ground arith

may_change-is_operator :
    (m : ModeName) (fd : ℕ) (ch : Channel)
    → is_rank_change m ≡ true
    → may_change m fd ch ≡ true
    → is_operator ch fd ≡ true
unfolding may_change
may_change-is_operator m fd ch r h = ground (arith, r)

module _ (action : Action) where
  announce_mode-Run :
      (fd : ℕ) (nick name change : Text) (ch : Channel) (s t : Server)
      → Run fd action s t
      → Run fd action s (announce_mode fd nick name change ch t)
  unfolding announce_mode
  announce_mode-Run fd nick name change ch s t r =
      Run-send_reply fd _ (Run-broadcast ch (some fd) _ r)

  channels-announce_mode :
      (fd : ℕ) (nick name change : Text) (ch : Channel) (t : Server)
      → (announce_mode fd nick name change ch t).channels ≡ t.channels
  unfolding announce_mode
  channels-announce_mode fd nick name change ch t =
      channels-send_reply fd _ _ ∙ channels-broadcast ch (some fd) _ t

  change_mode-Run :
      (fd : ℕ) (nick name change : Text) (ch ch' : Channel) (t : Server)
      → find name t.channels ≡ some ch
      → ChannelStep fd t ch ch'
      → Run fd action t (change_mode fd nick name change ch' t)
  unfolding change_mode
  change_mode-Run fd nick name change ch ch' t f st =
      announce_mode-Run fd nick name change ch' t _
        (one (changes t name ch ch' f (then_step same st)))

  grant_rank-Step :
      (fd target : ℕ) (ch : Channel) (t : Server)
      → is_operator ch fd ≡ true
      → has_client ch target ≡ true
      → ChannelStep fd t ch (grant_rank target ch)
  unfolding grant_rank
  grant_rank-Step fd target ch t o m = elim (Bool-cases (has_operator ch)) [
    | inl some_op ↦ rw some_op (half_raises ch target o m)
    | inr no_op ↦ rw no_op (raises ch target m no_op)
  ]

  withdraw_rank-Run :
      (fd target : ℕ) (ch : Channel) (t : Server)
      → is_operator ch fd ≡ true
      → ChannelRun fd t ch (withdraw_rank target ch)
  unfolding withdraw_rank
  withdraw_rank-Run fd target ch t o =
      then_step (then_step same (lowers ch target o))
        (half_lowers (remove_operator target ch) target)

  set_rank-Run :
      (m : ModeName) (fd : ℕ) (nick : Text) (target : ℕ) (target_nick name : Text) (ch : Channel)
      (t : Server)
      → ArePeopled t
      → find name t.channels ≡ some ch
      → is_operator ch fd ≡ true
      → has_client ch target ≡ true
      → Run fd action t (set_rank m fd nick target target_nick name ch t)
  unfolding set_rank
  set_rank-Run op_off fd nick target target_nick name ch t v f o m = Run-trans told (
      promote_successor-Run fd action name (withdraw_rank target ch) (some target) _
        (Run-ArePeopled told v)
        (rw channels-announce_mode (find-put_channel name ch (withdraw_rank target ch) t f))
        (λ x e. stays x (ground arith)))
    where
      stays : (x : ℕ) → target ≡ x → has_client (withdraw_rank target ch) x ≡ true
      stays x e = unfold withdraw_rank remove_half_operator remove_operator has_client in rw (← e) m

      change : Text
      change = withdrawn target ch ++ (bytes " " ++ target_nick)

      told : Run fd action t (
          announce_mode fd nick ch.name change
            (withdraw_rank target ch)
            (put_channel name (withdraw_rank target ch) t))
      told =
          announce_mode-Run fd nick ch.name change (withdraw_rank target ch) t _ (
            one
              (changes t name ch (withdraw_rank target ch) f (withdraw_rank-Run fd target ch t o)))
  set_rank-Run _ fd nick target target_nick name ch t v f o m =
      announce_mode-Run fd nick ch.name _ (grant_rank target ch) t _ (
        one (
          changes t name ch (grant_rank target ch) f
            (then_step same (grant_rank-Step fd target ch t o m))))

  set_channel_operator-Run :
      (m : ModeName) (fd : ℕ) (nick target_nick name : Text) (ch : Channel) (t : Server)
      → ArePeopled t
      → find name t.channels ≡ some ch
      → is_operator ch fd ≡ true
      → Run fd action t (set_channel_operator m fd nick target_nick name ch t)
  unfolding set_channel_operator
  set_channel_operator-Run m fd nick target_nick name ch t v f o =
      Run-on_found (find_nickname target_nick t.clients) _ _ (Run-send_reply fd _ here) λ target _.
        Run-if (not (has_client ch target.0)) _ _ (λ _. Run-send_reply fd _ here)
          λ on. set_rank-Run m fd nick target.0 target_nick name ch t v f o (ground arith)

  limit_mode-Run :
      (fd : ℕ) (nick name text : Text) (ch : Channel) (n : ℤ) (t : Server)
      → find name t.channels ≡ some ch
      → has_rights ch fd ≡ true
      → Run fd action t (limit_mode fd nick name text ch n t)
  unfolding limit_mode
  limit_mode-Run fd nick name text ch (pos zero) t f h = Run-send_reply fd _ here
  limit_mode-Run fd nick name text ch (pos (suc n)) t f h =
      change_mode-Run fd nick name _ ch _ t f (limits ch n h)
  limit_mode-Run fd nick name text ch (negsuc n) t f h = Run-send_reply fd _ here

  join_waiting-Run :
      (fd : ℕ) (waiting : List ℕ) (name : Text) (t : Server)
      → Run fd action t (join_waiting waiting name t)
  unfolding join_waiting
  join_waiting-Run fd [] name t = here
  join_waiting-Run fd (x ∷ waiting) name t =
      Run-trans (handle_join-Run fd action x (name ∷ []) t) (join_waiting-Run fd waiting name _)

  join_pending_clients-Run :
      (fd : ℕ) (name : Text) (t : Server) → Run fd action t (join_pending_clients name t)
  unfolding join_pending_clients drop_pending
  join_pending_clients-Run fd name t =
      Run-on_found (find name t.pending_joins) t _ here
        λ waiting _. Run-trans (one (serves_waiting t name)) (join_waiting-Run fd waiting name _)

  open_channel-Run :
      (fd : ℕ) (nick name mode : Text) (ch : Channel) (t : Server)
      → find name t.channels ≡ some ch
      → has_rights ch fd ≡ true
      → Run fd action t (apply_mode invite_off fd nick name mode [] ch t)
  unfolding apply_mode
  open_channel-Run fd nick name mode ch t f h =
      Run-on_found (find name (join_pending_clients name t').channels) _ _ opened
        (λ now _. announce_mode-Run fd nick name mode now t _ opened)
    where
      t' : Server
      t' = put_channel name (set_invite_only false ch) t

      opened : Run fd action t (join_pending_clients name t')
      opened =
          Run-trans (one (changes t name ch _ f (then_step same (closes ch false h))))
            (join_pending_clients-Run fd name t')

  apply_mode-Run :
      (m : ModeName) (fd : ℕ) (nick name mode : Text) (args : List Text) (ch : Channel) (t : Server)
      → ArePeopled t
      → find name t.channels ≡ some ch
      → may_change m fd ch ≡ true
      → Run fd action t (apply_mode m fd nick name mode args ch t)
  unfolding apply_mode
  apply_mode-Run ban_list fd nick name mode args ch t v f h = Run-send_reply fd _ here
  apply_mode-Run restrict fd nick name mode args ch t v f h =
      change_mode-Run fd nick name mode ch _ t f
        (restricts ch true (may_change-has_rights restrict fd ch h))
  apply_mode-Run unrestrict fd nick name mode args ch t v f h =
      change_mode-Run fd nick name mode ch _ t f
        (restricts ch false (may_change-has_rights unrestrict fd ch h))
  apply_mode-Run invite_only fd nick name mode args ch t v f h =
      change_mode-Run fd nick name mode ch _ t f
        (closes ch true (may_change-has_rights invite_only fd ch h))
  apply_mode-Run invite_off fd nick name mode args ch t v f h =
      open_channel-Run fd nick name mode ch t f (may_change-has_rights invite_off fd ch h)
  apply_mode-Run key fd nick name mode [] ch t v f h = Run-send_reply fd _ here
  apply_mode-Run key fd nick name mode (text ∷ args) ch t v f h =
      change_mode-Run fd nick name _ ch _ t f (locks ch text (may_change-has_rights key fd ch h))
  apply_mode-Run key_off fd nick name mode args ch t v f h =
      change_mode-Run fd nick name mode ch _ t f
        (unlocks ch (may_change-has_rights key_off fd ch h))
  apply_mode-Run limit fd nick name mode [] ch t v f h = Run-send_reply fd _ here
  apply_mode-Run limit fd nick name mode (text ∷ args) ch t v f h =
      limit_mode-Run fd nick name text ch (atoi text) t f (may_change-has_rights limit fd ch h)
  apply_mode-Run limit_off fd nick name mode args ch t v f h =
      change_mode-Run fd nick name mode ch _ t f
        (unlimits ch (may_change-has_rights limit_off fd ch h))
  apply_mode-Run op fd nick name mode [] ch t v f h = Run-send_reply fd _ here
  apply_mode-Run op fd nick name mode (target ∷ args) ch t v f h =
      set_channel_operator-Run op fd nick target name ch t v f
        (may_change-is_operator op fd ch refl h)
  apply_mode-Run op_off fd nick name mode [] ch t v f h = Run-send_reply fd _ here
  apply_mode-Run op_off fd nick name mode (target ∷ args) ch t v f h =
      set_channel_operator-Run op_off fd nick target name ch t v f
        (may_change-is_operator op_off fd ch refl h)
  apply_mode-Run unknown fd nick name mode args ch t v f h = Run-send_reply fd _ here

  mode_action-Run :
      (fd : ℕ) (nick name : Text) (rest : List Text) (ch : Channel) (t : Server)
      → ArePeopled t
      → find name t.channels ≡ some ch
      → Run fd action t (mode_action fd nick name rest ch t)
  unfolding mode_action
  mode_action-Run fd nick name [] ch t v f = Run-send_reply fd _ here
  mode_action-Run fd nick name (mode ∷ args) ch t v f =
      Run-if (not (has_client ch fd)) _ _ (λ _. Run-send_reply fd _ here)
        λ _.
          Run-if (not (may_change (mode_name mode) fd ch)) _ _ (λ _. Run-send_reply fd _ here)
            λ h. apply_mode-Run (mode_name mode) fd nick name mode args ch t v f (ground arith)

  mode_params-Run :
      (fd : ℕ) (nick : Text) (params : List Text) (t : Server)
      → ArePeopled t
      → Run fd action t (mode_params fd nick params t)
  unfolding mode_params
  mode_params-Run fd nick [] t v = here
  mode_params-Run fd nick (name ∷ rest) t v =
      Run-if (is_own_mode nick name rest) _ _ (λ _. here)
        λ _.
          Run-on_found (find name t.channels) _ _ (Run-send_reply fd _ here)
            λ ch f. mode_action-Run fd nick name rest ch t v f

  pub handle_mode-Run :
      (fd : ℕ) (params : List Text) (t : Server)
      → ArePeopled t
      → Run fd action t (handle_mode fd params t)
  unfolding handle_mode
  handle_mode-Run fd params t v = Run-on_found (find fd t.clients) t _ here λ c f.
      Run-if (not c.registered) _ _ (λ _. Run-send_reply fd _ here)
        λ _. mode_params-Run fd c.nickname params t v
