-- ===== src/Serving/Indices.antt =====
-- The place of a descriptor in `_pollFds` of src/Server.cpp.
use internet_relay_chat_msn.Polling.{fds_of}
use internet_relay_chat_msn.Validity.Kept.{Polls}
use internet_relay_chat_msn.Server.{Server, PollFd}
use internet_relay_chat_msn.Connection.{poll_index}
use internet_relay_chat_msn.Base.{
  some, none, ℕ, List, ◌≡◌, Option, ◌∷◌, ◌∙◌, [], ap, if◌then◌else◌, refl, sym, ◌==◌, suc, nat_key,
}

index_in : ℕ → List ℕ → Option ℕ
index_in fd [] = none
index_in fd (k ∷ ks) =
    if k == fd
    then some 0
    else elim (index_in fd ks) [ none ↦ none | some index ↦ some (suc index) ]

poll_index-fds_of : (fd : ℕ) (ps : List PollFd) → poll_index fd ps ≡ index_in fd (fds_of ps)
unfolding poll_index index_in
poll_index-fds_of fd [] = refl
poll_index-fds_of fd (p ∷ ps) = rw (poll_index-fds_of fd ps) refl

pub poll_index-Polls :
    (fd : ℕ) (s t : Server) → Polls s t → poll_index fd t.poll_fds ≡ poll_index fd s.poll_fds
poll_index-Polls fd s t p =
    poll_index-fds_of fd t.poll_fds ∙ ap (index_in fd) p.0 ∙ sym (poll_index-fds_of fd s.poll_fds)
