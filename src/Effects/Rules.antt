-- ===== src/Effects/Rules.antt =====
-- How runs of effects are put together along the code: branches, replies, broadcasts, and the promotion
-- of a successor.
use internet_relay_chat_msn.Client.{Client}
use internet_relay_chat_msn.Channel.{Channel}
use internet_relay_chat_msn.Map.{Map, find, find-modify}
use internet_relay_chat_msn.Text.{Text}
use internet_relay_chat_msn.Base.{
  ℕ, List, on_found, ◌≡◌, ◌∷◌, Bool, Option, some, ◌∙◌, [], true, Option-cases, inl, arith, none,
  false, nat_key, inr, if◌then◌else◌, refl, same_bytes_iff, bytes_key, not,
}
use internet_relay_chat_msn.Server.{
  broadcast_bots, broadcast_members, broadcast_to_channel, deliver, put_channel, send_reply, Server,
  append_out, modify_client, enable_write, is_fd, hears_as_bot,
}
use internet_relay_chat_msn.Effects.{
  Action, Effect, delivers, Run, here, next, append_all, is_registered,
}

pub Run-trans :
    {actor : ℕ} {action : Action} {s t u : Server}
    → Run actor action s t
    → Run actor action t u
    → Run actor action s u
Run-trans r here = r
Run-trans r (next q e) = next (Run-trans r q) e

pub one :
    {actor : ℕ} {action : Action} {s t : Server} → Effect actor action s t → Run actor action s t
one e = next here e

module _ {actor : ℕ} {action : Action} {s : Server} where
  pub Run-if :
      (b : Bool) (t u : Server)
      → (b ≡ true → Run actor action s t)
      → (b ≡ false → Run actor action s u)
      → Run actor action s (if b then t else u)
  Run-if true t u yes_case no_case = yes_case refl
  Run-if false t u yes_case no_case = no_case refl

  pub Run-on_found {ℓ} :
      {A : Type ℓ} (o : Option A) (t : Server) (f : A → Server)
      → Run actor action s t
      → ((a : A) → o ≡ some a → Run actor action s (f a))
      → Run actor action s (on_found o t f)
  unfolding on_found
  Run-on_found none t f r q = r
  Run-on_found (some a) t f r q = q a refl

  pub Run-deliver :
      (fd : ℕ) (m : Text) {t : Server} → Run actor action s t → Run actor action s (deliver fd m t)
  unfolding deliver append_all
  Run-deliver fd m {t} r = next r (delivers t fd (m ∷ []))

  pub Run-deliver_two :
      (fd : ℕ) (m n : Text) {t : Server}
      → Run actor action s t
      → Run actor action s (enable_write fd (append_out fd n (append_out fd m t)))
  unfolding append_all
  Run-deliver_two fd m n {t} r = next r (delivers t fd (m ∷ n ∷ []))

  pub Run-deliver_three :
      (fd : ℕ) (m n o : Text) {t : Server}
      → Run actor action s t
      → Run actor action s (enable_write fd (append_out fd o (append_out fd n (append_out fd m t))))
  unfolding append_all
  Run-deliver_three fd m n o {t} r = next r (delivers t fd (m ∷ n ∷ o ∷ []))

  pub Run-send_reply :
      (fd : ℕ) (m : Text) {t : Server}
      → Run actor action s t
      → Run actor action s (send_reply fd m t)
  unfolding send_reply
  Run-send_reply fd m {t} r = Run-on_found (find fd t.clients) t _ r (λ c _. Run-deliver fd m r)

  Run-broadcast_members :
      (fds : List ℕ) (sender : Option ℕ) (m : Text) (t : Server)
      → Run actor action s t
      → Run actor action s (broadcast_members fds sender m t)
  unfolding broadcast_members
  Run-broadcast_members [] sender m t r = r
  Run-broadcast_members (fd ∷ fds) sender m t r =
      Run-broadcast_members fds sender m _
        (Run-if (is_fd sender fd) t (send_reply fd m t) (λ _. r) (λ _. Run-send_reply fd m r))

  Run-broadcast_bots :
      (clients : Map ℕ Client) (ch : Channel) (sender : Option ℕ) (m : Text) (t : Server)
      → Run actor action s t
      → Run actor action s (broadcast_bots clients ch sender m t)
  unfolding broadcast_bots
  Run-broadcast_bots [] ch sender m t r = r
  Run-broadcast_bots ((fd, c) ∷ rest) ch sender m t r =
      Run-broadcast_bots rest ch sender m _
        (Run-if (hears_as_bot ch sender fd c) (deliver fd m t) t (λ _. Run-deliver fd m r) (λ _. r))

  pub Run-broadcast :
      (ch : Channel) (sender : Option ℕ) (m : Text) {t : Server}
      → Run actor action s t
      → Run actor action s (broadcast_to_channel ch sender m t)
  unfolding broadcast_to_channel
  Run-broadcast ch sender m {t} r =
      Run-broadcast_bots _ ch sender m _ (Run-broadcast_members ch.clients sender m t r)

-- What is said leaves the channels as they are.
pub channels-deliver : (fd : ℕ) (m : Text) (t : Server) → (deliver fd m t).channels ≡ t.channels
unfolding deliver append_out modify_client enable_write
channels-deliver fd m t = refl

pub channels-send_reply :
    (fd : ℕ) (m : Text) (t : Server) → (send_reply fd m t).channels ≡ t.channels
unfolding send_reply on_found
channels-send_reply fd m t = elim (Option-cases (find fd t.clients)) [
  | inl e ↦ rw (e, on_found) refl
  | inr (c, e) ↦ rw (e, on_found) (channels-deliver fd m t)
]

either_way {ℓ} :
    {A : Type ℓ} (b : Bool) (f : Server → A) (t u : Server) {a : A}
    → f t ≡ a
    → f u ≡ a
    → f (if b then t else u) ≡ a
either_way true f t u p q = p
either_way false f t u p q = q

channels-broadcast_members :
    (fds : List ℕ) (sender : Option ℕ) (m : Text) (t : Server)
    → (broadcast_members fds sender m t).channels ≡ t.channels
unfolding broadcast_members
channels-broadcast_members [] sender m t = refl
channels-broadcast_members (fd ∷ fds) sender m t =
    channels-broadcast_members fds sender m _
    ∙ either_way (is_fd sender fd) (λ u. u.channels) t (send_reply fd m t) refl
        (channels-send_reply fd m t)

channels-broadcast_bots :
    (clients : Map ℕ Client) (ch : Channel) (sender : Option ℕ) (m : Text) (t : Server)
    → (broadcast_bots clients ch sender m t).channels ≡ t.channels
unfolding broadcast_bots
channels-broadcast_bots [] ch sender m t = refl
channels-broadcast_bots ((fd, c) ∷ rest) ch sender m t =
    channels-broadcast_bots rest ch sender m _
    ∙ either_way (hears_as_bot ch sender fd c) (λ u. u.channels) (deliver fd m t) t
        (channels-deliver fd m t) refl

pub channels-broadcast :
    (ch : Channel) (sender : Option ℕ) (m : Text) (t : Server)
    → (broadcast_to_channel ch sender m t).channels ≡ t.channels
unfolding broadcast_to_channel
channels-broadcast ch sender m t =
    channels-broadcast_bots _ ch sender m _ ∙ channels-broadcast_members ch.clients sender m t

pub find-put_channel :
    (name : Text) (ch d : Channel) (t : Server)
    → find name t.channels ≡ some ch
    → find name (put_channel name d t).channels ≡ some d
unfolding put_channel
find-put_channel name ch d t h =
    ground (arith, find-modify name name (λ _. d) t.channels, same_bytes_iff name name, h)

-- What the guard of a handler says of the client that it found.
pub registered_of :
    (fd : ℕ) (c : Client) (t : Server)
    → find fd t.clients ≡ some c
    → not c.registered ≡ false
    → is_registered fd t.clients ≡ true
unfolding is_registered on_found
registered_of fd c t f h = ground (arith, f)
