-- ===== src/Validity.antt =====
-- The state of the server, as every event finds it: the channels, the accounts, the output and the
-- tables together.
use internet_relay_chat_msn.Validity.Kept.{Run-Tables}
use internet_relay_chat_msn.Validity.Entries.{Tables}
use internet_relay_chat_msn.Effects.Wakeup.{AreAwake, Run-AreAwake}
use internet_relay_chat_msn.Effects.Accounts.{AreHonest}
use internet_relay_chat_msn.Effects.Honesty.{Run-AreHonest}
use internet_relay_chat_msn.Effects.{Action, Run}
use internet_relay_chat_msn.Effects.Membership.{ArePeopled, Run-ArePeopled}
use internet_relay_chat_msn.Server.{Server}
use internet_relay_chat_msn.Base.{ℕ, Option}
pub mod Entries
pub mod Kept

pub record IsValid (s : Server) : Type 0 where
  pub peopled : ArePeopled s
  pub honest : AreHonest s.clients
  pub awake : AreAwake s
  pub tables : Tables s

pub Run-IsValid :
    {actor : ℕ} {action : Action} {s t : Server} → Run actor action s t → IsValid s → IsValid t
Run-IsValid r v = record {
  peopled = Run-ArePeopled r v.peopled;
  honest = Run-AreHonest r v.honest;
  awake = Run-AreAwake r v.awake;
  tables = Run-Tables r v.tables;
}
