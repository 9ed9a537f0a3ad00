-- ===== src/Admission/Permits.antt =====
-- Whom the tests of `handleJoin` in src/ChannelCommands.cpp let into a channel.
use internet_relay_chat_msn.Text.{Text}
use internet_relay_chat_msn.ChannelCommands.Join.{lacks_invite, wrong_key, is_full}
use internet_relay_chat_msn.Channel.{Channel, is_invited}
use internet_relay_chat_msn.Base.{
  ◌<◌, ap, ◌↔◌, Bool-cases, inl, inr, ℕ, List, ◌≡◌, length, true, Bool, arith, false, not,
  bytes_key, refl, ◌∷◌, nat_key, ◌&&◌, [], contains, same_bytes_iff, ◌==◌,
}

-- Whom the modes of a channel let in: with +i those on its list of invitations, with +k those who offer its
-- key first, with +l as many as are below its limit.
pub record MayEnter (fd : ℕ) (keys : List Text) (ch : Channel) : Type 0 where
  pub invitation : ch.invite_only ≡ true → contains ch.invited fd ≡ true
  pub key : ch.key_enabled ≡ true → (more : List Text) × (keys ≡ ch.key ∷ more)
  pub room : ch.limit_enabled ≡ true → length ch.clients < ch.limit

lacks_invite_iff :
    (fd : ℕ) (ch : Channel)
    → (lacks_invite fd ch ≡ false) ↔ (ch.invite_only ≡ true → contains ch.invited fd ≡ true)
unfolding lacks_invite is_invited
lacks_invite_iff fd ch = ground arith

wrong_key_iff :
    (keys : List Text) (ch : Channel)
    → (wrong_key keys ch ≡ false)
      ↔ (ch.key_enabled ≡ true → (more : List Text) × (keys ≡ ch.key ∷ more))
unfolding wrong_key
wrong_key_iff [] ch = (
  λ h on. cc (h, on),
  λ h. elim (Bool-cases ch.key_enabled) [ inl on ↦ cc (h on).1 | inr off ↦ off ],
)
wrong_key_iff (key ∷ keys) ch = (
  λ h on. (keys, ap (λ k. k ∷ keys) (offered h on)),
  λ h. elim (Bool-cases ch.key_enabled) [
    | inl on ↦ rw (on, same_key h on) refl
    | inr off ↦ rw off refl
  ],
)
  where
    offered : (ch.key_enabled && not (key == ch.key)) ≡ false → ch.key_enabled ≡ true → key ≡ ch.key
    offered h on = ground (arith, same_bytes_iff key ch.key)

    same_key :
        (ch.key_enabled ≡ true → (more : List Text) × (key ∷ keys ≡ ch.key ∷ more))
        → ch.key_enabled ≡ true
        → (key == ch.key) ≡ true
    same_key h on = (same_bytes_iff key ch.key).1 (first (h on))
      where
        first : (more : List Text) × (key ∷ keys ≡ ch.key ∷ more) → key ≡ ch.key
        first (more, e) = cc e

is_full_iff :
    (ch : Channel) → (is_full ch ≡ false) ↔ (ch.limit_enabled ≡ true → length ch.clients < ch.limit)
unfolding is_full
is_full_iff ch = ground arith

pub tests-MayEnter :
    (fd : ℕ) (keys : List Text) (ch : Channel)
    → ((not (lacks_invite fd ch) && not (wrong_key keys ch) && not (is_full ch)) ≡ true)
      ↔ MayEnter fd keys ch
tests-MayEnter fd keys ch = (
  λ h.
      let (invited, offers, fits) = each h in
      record {
        invitation = (lacks_invite_iff fd ch).0 invited;
        key = (wrong_key_iff keys ch).0 offers;
        room = (is_full_iff ch).0 fits;
      },
  λ m.
      rw
        (
          (lacks_invite_iff fd ch).1 m.invitation,
          (wrong_key_iff keys ch).1 m.key,
          (is_full_iff ch).1 m.room,
        )
        refl,
)
  where
    each :
        {a b c : Bool} → (not a && not b && not c) ≡ true → (a ≡ false) × (b ≡ false) × (c ≡ false)
    each {a = true} h = cc h
    each {a = false} {b = true} h = cc h
    each {a = false} {b = false} {c = true} h = cc h
    each {a = false} {b = false} {c = false} h = (refl, refl, refl)
