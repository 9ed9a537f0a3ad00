-- ===== src/Delivery.antt =====
-- `flushClientWrite` of src/Server.cpp: the bytes of a queue on their way out.
use internet_relay_chat_msn.Map.{find, modify, find-modify}
use internet_relay_chat_msn.Text.{Text}
use internet_relay_chat_msn.Server.{modify_client, Server}
use internet_relay_chat_msn.Client.{Client}
use internet_relay_chat_msn.Base.{
  on_found, ℕ, ◌≤◌, take, ◌++◌, length, drop, ◌≡◌, suc, some, arith, ◌∷◌, is_empty, ap, false,
  Bool-cases, nat_beq_iff, zero, refl, inl, ◌==◌, inr, [], nat_key,
}
use internet_relay_chat_msn.Connection.{
  offered, max_send, flush_client_write, flush_sent, erase_out, disable_write,
}

take-drop : (n : ℕ) (xs : Text) → take n xs ++ drop n xs ≡ xs
take-drop zero xs = refl
take-drop (suc n) [] = refl
take-drop (suc n) (x ∷ xs) = ap (◌∷◌ x) (take-drop n xs)

-- What is taken of a prefix that is long enough is taken of the whole.
take-take : (n m : ℕ) (xs : Text) → n ≤ length (take m xs) → take n (take m xs) ≡ take n xs
take-take zero m xs h = refl
take-take (suc n) zero xs h = absurd (omega arith)
take-take (suc n) (suc m) [] h = absurd (omega arith)
take-take (suc n) (suc m) (x ∷ xs) h = ap (◌∷◌ x) (take-take n m xs (omega arith))

flush_sent-found :
    (fd n : ℕ) (c : Client) (s : Server)
    → find fd s.clients ≡ some c
    → find fd (flush_sent fd n c s).clients ≡ some (erase_out n c)
unfolding flush_sent disable_write modify_client
flush_sent-found fd n c s f = elim (Bool-cases (is_empty (drop n c.out_buffer))) [
  | inl e ↦ rw e found
  | inr e ↦ rw e found
]
  where
    found : find fd (modify fd (erase_out n) s.clients) ≡ some (erase_out n c)
    found = ground (arith, find-modify fd fd (erase_out n) s.clients, nat_beq_iff fd fd, f)

-- Where a client has a queue that is not empty and send() takes `n` bytes of those offered to it, the
-- client stays, and the bytes sent and the queue that is left make up the queue that was.
pub flush_client_write-sent :
    (fd n : ℕ) (c : Client) (s : Server)
    → find fd s.clients ≡ some c
    → is_empty c.out_buffer ≡ false
    → n ≤ length (offered c)
    → (c' : Client) × (find fd (flush_client_write fd (some n) s).clients ≡ some c')
      × (take n (offered c) ++ c'.out_buffer ≡ c.out_buffer)
unfolding flush_client_write offered on_found
flush_client_write-sent fd n c s f full h = elim (Bool-cases (n == 0)) [
  | inl none_sent ↦ (c, rw (f, full, none_sent) f, rw ((nat_beq_iff n 0).0 none_sent) refl)
  | inr some_sent ↦ (
    erase_out n c,
    rw (f, full, some_sent) (flush_sent-found fd n c s f),
    unfold erase_out in rw (take-take n max_send c.out_buffer h) (take-drop n c.out_buffer),
  )
]
