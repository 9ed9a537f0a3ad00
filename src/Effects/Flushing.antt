-- ===== src/Effects/Flushing.antt =====
-- `flushClientWrite` of src/Server.cpp: what is left of the output is polled for.
use internet_relay_chat_msn.Connection.{
  clear_pollout, erase_out, flush_client_write, flush_sent, disable_write,
}
use internet_relay_chat_msn.Map.{Map, modify, map_value, find-modify, find}
use internet_relay_chat_msn.Text.{Text}
use internet_relay_chat_msn.Server.{PollFd, Server, modify_client}
use internet_relay_chat_msn.Client.{Client}
use internet_relay_chat_msn.Base.{
  ℕ, ◌≡◌, refl, true, false, Option, none, some, List, ◌∷◌, [], Bool, if◌then◌else◌, ◌==◌, on_found,
  nat_key, arith, is_empty, nat_beq_iff, drop, suc, Bool-cases, inl, zero, sym, inr,
}
use internet_relay_chat_msn.Effects.Wakeup.{
  is_quiet, is_quiet-modify_ne, wants_write, AreAwake, or_true,
}

wants_write-clear_pollout :
    (k j : ℕ) (ps : List PollFd)
    → (k == j) ≡ false
    → wants_write j (clear_pollout k ps) ≡ wants_write j ps
unfolding wants_write clear_pollout
wants_write-clear_pollout k j [] h = refl
wants_write-clear_pollout k j (p ∷ ps) h = ground (
  arith,
  nat_beq_iff k j,
  nat_beq_iff p.fd k,
  nat_beq_iff p.fd j,
  wants_write-clear_pollout k j ps,
)

emptied : (n : ℕ) (text : Text) → is_empty text ≡ true → is_empty (drop n text) ≡ true
emptied zero text h = h
emptied (suc n) [] h = refl
emptied (suc n) (c ∷ text) h = cc

-- A queue that gets shorter makes nobody louder.
is_quiet-erase_out :
    (k j n : ℕ) (m : Map ℕ Client)
    → is_quiet j m ≡ true
    → is_quiet j (modify k (erase_out n) m) ≡ true
unfolding is_quiet erase_out on_found
is_quiet-erase_out k j n m h = rw find-modify (go (find j m) (k == j) h)
  where
    go :
        (o : Option Client) (b : Bool)
        → on_found o true (λ c. is_empty c.out_buffer) ≡ true
        → on_found (if b then map_value (erase_out n) o else o) true (λ c. is_empty c.out_buffer)
          ≡ true
    go none true e = refl
    go none false e = refl
    go (some c) true e = emptied n c.out_buffer e
    go (some c) false e = e

is_quiet-sent :
    (fd n : ℕ) (c : Client) (m : Map ℕ Client)
    → find fd m ≡ some c
    → is_empty (drop n c.out_buffer) ≡ true
    → is_quiet fd (modify fd (erase_out n) m) ≡ true
unfolding is_quiet on_found erase_out
is_quiet-sent fd n c m f e = rw (find-modify, (nat_beq_iff fd fd).1 refl, f) e

-- What is left of the queue is polled for; POLLOUT goes where nothing is left.
pub flush_sent-AreAwake :
    (fd n : ℕ) (c : Client) (s : Server)
    → find fd s.clients ≡ some c
    → AreAwake s
    → AreAwake (flush_sent fd n c s)
unfolding flush_sent disable_write modify_client
flush_sent-AreAwake fd n c s f v j = elim (Bool-cases (is_empty (drop n c.out_buffer))) [
  | inl done ↦ rw done (elim (Bool-cases (fd == j)) [
    | inl hit ↦ rw (sym ((nat_beq_iff fd j).0 hit), is_quiet-sent fd n c s.clients f done) refl
    | inr miss ↦
        rw
          (
            wants_write-clear_pollout fd j s.poll_fds miss,
            is_quiet-modify_ne fd j (erase_out n) s.clients miss,
          )
          (v j)
  ])
  | inr left ↦ rw left (elim (Bool-cases (is_quiet j s.clients)) [
    | inl quiet ↦ rw (is_quiet-erase_out fd j n s.clients quiet) refl
    | inr loud ↦ rw (asked loud) (or_true _)
  ])
]
  where
    asked : is_quiet j s.clients ≡ false → wants_write j s.poll_fds ≡ true
    asked loud = ground (arith, v j)

-- Where every client with output waiting is polled for POLLOUT, if it is polled at all, it is so after
-- send() has taken any number of bytes.
pub flush_client_write-AreAwake :
    (fd n : ℕ) (s : Server) → AreAwake s → AreAwake (flush_client_write fd (some n) s)
unfolding flush_client_write on_found
flush_client_write-AreAwake fd n s v = by_client (find fd s.clients) refl
  where
    by_queue :
        (c : Client) (done unsent : Bool)
        → find fd s.clients ≡ some c
        → AreAwake (if done then s else if unsent then s else flush_sent fd n c s)
    by_queue c true unsent f = v
    by_queue c false true f = v
    by_queue c false false f = flush_sent-AreAwake fd n c s f v

    by_client :
        (o : Option Client)
        → find fd s.clients ≡ o
        → AreAwake (
            on_found o s
              (λ c. if is_empty c.out_buffer then s else if n == 0 then s else flush_sent fd n c s))
    by_client none f = v
    by_client (some c) f = by_queue c (is_empty c.out_buffer) (n == 0) f
