-- ===== src/Departure/Loop.antt =====
-- A client leaves every channel: the loops over `_channels` of `disconnectClient` in src/Server.cpp and
-- of `handleQuit` in src/Messages.cpp.
use internet_relay_chat_msn.Effects.Rules.{Run-trans}
use internet_relay_chat_msn.OneChannel.{disconnect_channel-closed, quit_channel-closed}
use internet_relay_chat_msn.Map.Keys.{keys, keys_apart, find_first, find_later}
use internet_relay_chat_msn.Effects.Membership.{ArePeopled, Run-ArePeopled}
use internet_relay_chat_msn.Map.{Map, find}
use internet_relay_chat_msn.Departure.{
  disconnect_channel-Run, quit_channel-Run, disconnect_channel-absent, IsAbsentAt,
  Elsewhere-IsClosed, Elsewhere,
}
use internet_relay_chat_msn.Server.{Server, visit_channels}
use internet_relay_chat_msn.Channel.{Channel}
use internet_relay_chat_msn.Messages.{quit_channels, quit_channel}
use internet_relay_chat_msn.Text.{Text}
use internet_relay_chat_msn.Connection.{disconnect_channel, disconnect_channels}
use internet_relay_chat_msn.Base.{
  ℕ, none, some, refl, ◌≡◌, [], ◌∷◌, Distinct, contains, false, bytes_key, ◌∙◌, Bool-cases, ◌==◌,
  inl, inr, same_bytes_iff, sym,
}
use internet_relay_chat_msn.Effects.{other, here, Run}

-- A loop over the channels whose every round is a run of effects and writes only the channel that it visits.
pub record VisitsOne (fd : ℕ) (visit : Text → Channel → Server → Server) : Type 0 where
  pub runs :
      (name : Text) (ch : Channel) (s : Server)
      → ArePeopled s
      → find name s.channels ≡ some ch
      → Run fd other s (visit name ch s)
  pub elsewhere : (name : Text) (ch : Channel) (s : Server) → Elsewhere name s (visit name ch s)

module _ {fd : ℕ} {visit : Text → Channel → Server → Server} (w : VisitsOne fd visit) where
  -- The entries that are left are as they were.
  still :
      (name : Text) (ch : Channel) (rest : Map Text Channel) (s : Server)
      → contains (keys rest) name ≡ false
      → ((at_name : Text) (d : Channel)
          → find at_name rest ≡ some d
          → find at_name s.channels ≡ some d)
      → (at_name : Text) (d : Channel) → find at_name rest ≡ some d
      → find at_name (visit name ch s).channels ≡ some d
  still name ch rest s fresh h at_name d g =
      (w.elsewhere name ch s).kept at_name (keys_apart name at_name d rest fresh g) ∙ h at_name d g

  pub visit_channels-Run :
      (rest : Map Text Channel) (s : Server)
      → Distinct (keys rest)
      → ((name : Text) (ch : Channel) → find name rest ≡ some ch → find name s.channels ≡ some ch)
      → ArePeopled s
      → Run fd other s (visit_channels visit rest s)
  unfolding visit_channels
  visit_channels-Run [] s d h v = here
  visit_channels-Run ((name, ch) ∷ rest) s d h v =
      let r : Run fd other s (visit name ch s) =
        w.runs name ch s v (h name ch (find_first name ch rest)) in
      Run-trans r (
        visit_channels-Run rest (visit name ch s) d.1
          (still name ch rest s d.0 (λ n c g. h n c (find_later name n ch c rest d.0 g)))
          (Run-ArePeopled r v))

  -- Where every round takes the client out of its channel, the client is afterwards in none: those that
  -- the loop visits lose it, and in the others it was not.
  pub visit_channels-absent :
      ((name : Text) (ch : Channel) (s : Server)
        → ArePeopled s
        → find name s.channels ≡ some ch
        → IsAbsentAt fd name (visit name ch s))
      → (rest : Map Text Channel) (s : Server) → Distinct (keys rest)
      → ((name : Text) (ch : Channel) → find name rest ≡ some ch → find name s.channels ≡ some ch)
      → ((name : Text) → find name rest ≡ none → IsAbsentAt fd name s)
      → ArePeopled s
      → (name : Text) → IsAbsentAt fd name (visit_channels visit rest s)
  unfolding visit_channels
  visit_channels-absent absent [] s d h out v name = out name (unfold find in refl)
  visit_channels-absent absent ((at_name, ch) ∷ rest) s d h out v name =
      let f = h at_name ch (find_first at_name ch rest) in
      let r : Run fd other s (visit at_name ch s) = w.runs at_name ch s v f in
      visit_channels-absent absent rest (visit at_name ch s) d.1
        (still at_name ch rest s d.0 (λ n c g. h n c (find_later at_name n ch c rest d.0 g)))
        (λ n missing c g. elim (Bool-cases (at_name == n)) [
          | inl hit ↦ absent at_name ch s v f c (rw (← (same_bytes_iff at_name n).0 hit) at g)
          | inr miss ↦
              out n (unfold find in rw miss missing) c
                (sym ((w.elsewhere at_name ch s).kept n miss) ∙ g)
        ])
        (Run-ArePeopled r v) name

-- The two loops.
disconnect_channel-VisitsOne : (fd : ℕ) → VisitsOne fd (disconnect_channel fd)
disconnect_channel-VisitsOne fd = record {
  runs = λ name ch s v f. disconnect_channel-Run fd name ch s v f;
  elsewhere = λ name ch s. disconnect_channel-closed (Elsewhere-IsClosed name) fd ch s;
}

quit_channel-VisitsOne : (fd : ℕ) (message : Text) → VisitsOne fd (quit_channel fd message)
quit_channel-VisitsOne fd message = record {
  runs = λ name ch s v f. quit_channel-Run fd name ch s v f message;
  elsewhere = λ name ch s. quit_channel-closed (Elsewhere-IsClosed name) fd message ch s;
}

pub disconnect_channels-Run :
    (fd : ℕ) (s : Server)
    → Distinct (keys s.channels)
    → ArePeopled s
    → Run fd other s (disconnect_channels fd s.channels s)
unfolding disconnect_channels
disconnect_channels-Run fd s d v =
    visit_channels-Run (disconnect_channel-VisitsOne fd) s.channels s d (λ name ch f. f) v

-- After `disconnectClient` has gone through the channels, the client is in none of them and
-- invited to none.
pub disconnect_channels-absent :
    (fd : ℕ) (s : Server)
    → Distinct (keys s.channels)
    → ArePeopled s
    → (name : Text) → IsAbsentAt fd name (disconnect_channels fd s.channels s)
unfolding disconnect_channels
disconnect_channels-absent fd s d v =
    visit_channels-absent (disconnect_channel-VisitsOne fd)
      (λ name ch s v f. disconnect_channel-absent fd name ch s v f) s.channels s d (λ name ch f. f)
      (λ name absent ch f. cc (absent, f)) v

pub quit_channels-Run :
    (fd : ℕ) (message : Text) (s : Server)
    → Distinct (keys s.channels)
    → ArePeopled s
    → Run fd other s (quit_channels fd message s.channels s)
unfolding quit_channels
quit_channels-Run fd message s d v =
    visit_channels-Run (quit_channel-VisitsOne fd message) s.channels s d (λ name ch f. f) v
