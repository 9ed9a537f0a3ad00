-- ===== src/Bot/Search.antt =====
-- `find`, `substr` and the line reading of bot/main.cpp on texts that are put together.
use internet_relay_chat_msn.Map.Keys.{is_some}
use internet_relay_chat_msn.Base.{Option, none, some}
use internet_relay_chat_msn.Text.{Text, is_alnum, bytes}
use internet_relay_chat_msn.Base.{
  contains, ℕ, take, drop, ◌++◌, ◌||◌, length, ◌≡◌, true, ◌+◌, ◌∷◌, false, arith, [], ap, some,
  nat_key, nat_beq_iff, refl, ◌==◌, suc, zero, none, Option, Bool-cases, inl, inr,
}
use internet_relay_chat_msn.Dispatch.{after_newline, before_newline, chomp}
use internet_relay_chat_msn.Registration.Nickname.{all_nick_chars, is_valid_nickname, is_special}
use internet_relay_chat_msn.Bot.{starts_with, position, occurs_in}

starts_with-append : (sub after : Text) → starts_with sub (sub ++ after) ≡ true
unfolding starts_with
starts_with-append [] after = refl
starts_with-append (c ∷ sub) after = ground (arith, nat_beq_iff c c, starts_with-append sub after)

module _ (c : ℕ) (sub : Text) where
  -- A text is found behind another that does not have its first character.
  pub position-behind :
      (before after : Text)
      → contains before c ≡ false
      → position (c ∷ sub) (before ++ (c ∷ sub ++ after)) ≡ some (length before)
  unfolding position starts_with contains
  position-behind [] after h = rw ((nat_beq_iff c c).1 refl, starts_with-append sub after) refl
  position-behind (d ∷ before) after h =
      rw (other, position-behind before after (ground (arith, h))) refl
    where
      other : (c == d) ≡ false
      other = ground (arith, nat_beq_iff c d, nat_beq_iff d c, h)

pub drop-append : (xs ys : Text) → drop (length xs) (xs ++ ys) ≡ ys
drop-append [] ys = refl
drop-append (x ∷ xs) ys = drop-append xs ys

pub drop_behind : (n k : ℕ) (xs ys : Text) → k ≡ length xs + n → drop k (xs ++ ys) ≡ drop n ys
drop_behind n k [] ys e = ap (λ m. drop m ys) (omega (arith, e))
drop_behind n zero (x ∷ xs) ys e = absurd (omega (arith, e))
drop_behind n (suc k) (x ∷ xs) ys e = drop_behind n k xs ys (omega (arith, e))

pub take-append : (xs ys : Text) → take (length xs) (xs ++ ys) ≡ xs
take-append [] ys = refl
take-append (x ∷ xs) ys = ap (◌∷◌ x) (take-append xs ys)

pub contains-append :
    (xs ys : Text) (c : ℕ) → contains (xs ++ ys) c ≡ (contains xs c || contains ys c)
unfolding contains
contains-append [] ys c = refl
contains-append (x ∷ xs) ys c = ground (arith, contains-append xs ys c)

-- The end of a message is taken off again.
pub before_newline-message :
    (text : Text)
    → contains text 10 ≡ false
    → before_newline (text ++ bytes "\r\n") ≡ text ++ bytes "\r"
unfolding before_newline contains bytes
before_newline-message [] h = refl
before_newline-message (c ∷ text) h = ground (arith, before_newline-message text)

pub after_newline-message :
    (text : Text) → contains text 10 ≡ false → after_newline (text ++ bytes "\r\n") ≡ some []
unfolding after_newline contains bytes
after_newline-message [] h = refl
after_newline-message (c ∷ text) h = ground (arith, after_newline-message text)

pub chomp-append : (text : Text) → chomp (text ++ bytes "\r") ≡ text
unfolding chomp bytes
chomp-append [] = refl
chomp-append (c ∷ []) = refl
chomp-append (c ∷ d ∷ text) = ap (◌∷◌ c) (chomp-append (d ∷ text))

-- Nicknames have no other characters than those that `isValidNickname` lists.
all_nick_chars-lacks :
    (c : ℕ) (nick : Text)
    → (is_alnum c || is_special c) ≡ false
    → all_nick_chars nick ≡ true
    → contains nick c ≡ false
unfolding all_nick_chars contains
all_nick_chars-lacks c [] bad h = refl
all_nick_chars-lacks c (d ∷ nick) bad h =
    ground (arith, nat_beq_iff d c, all_nick_chars-lacks c nick bad)

pub is_valid_nickname-lacks :
    (c : ℕ) (nick : Text)
    → (is_alnum c || is_special c) ≡ false
    → is_valid_nickname nick ≡ true
    → contains nick c ≡ false
unfolding is_valid_nickname contains is_alnum
is_valid_nickname-lacks c [] bad h = refl
is_valid_nickname-lacks c (d ∷ nick) bad h =
    ground (arith, nat_beq_iff d c, all_nick_chars-lacks c nick bad)

pub occurs_in-step :
    (sub : Text) (d : ℕ) (text : Text)
    → occurs_in sub (d ∷ text) ≡ (starts_with sub (d ∷ text) || occurs_in sub text)
unfolding occurs_in position
occurs_in-step sub d text = elim (Bool-cases (starts_with sub (d ∷ text))) [
  | inl here ↦ rw here refl
  | inr later ↦ rw later (by_rest (position sub text))
]
  where
    by_rest :
        (o : Option ℕ)
        → is_some (elim o as (λ x. Option ℕ) [ none ↦ none | some n ↦ some (suc n) ]) ≡ is_some o
    by_rest none = refl
    by_rest (some n) = refl

starts_with-occurs : (sub text : Text) → starts_with sub text ≡ true → occurs_in sub text ≡ true
unfolding occurs_in position starts_with
starts_with-occurs [] [] h = refl
starts_with-occurs (c ∷ sub) [] h = cc
starts_with-occurs sub (d ∷ text) h = rw h refl

-- Where a text occurs, what follows its first character does.
pub occurs_in-tail :
    (c : ℕ) (sub text : Text) → occurs_in (c ∷ sub) text ≡ true → occurs_in sub text ≡ true
unfolding starts_with
occurs_in-tail c sub [] h = unfold occurs_in in unfold position in cc h
occurs_in-tail c sub (d ∷ text) h = ground (
  arith,
  occurs_in-step (c ∷ sub) d text,
  occurs_in-step sub d text,
  starts_with-occurs sub text,
  occurs_in-tail c sub text,
)
