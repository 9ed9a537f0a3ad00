-- ===== src/ChannelNames.antt =====
-- The loop over the channels of a JOIN or PART, `handleJoin` and `handlePart` of
-- src/ChannelCommands.cpp, and the text that lists them.
use internet_relay_chat_msn.ChannelCommands.Join.{after_comma, before_comma, channel_names}
use internet_relay_chat_msn.Text.{Text}
use internet_relay_chat_msn.Base.{
  ℕ, ◌≡◌, refl, false, List, ◌∷◌, [], ◌++◌, length, is_empty, contains, suc, some, ◌≤◌, nat_key,
  none, arith, zero, length-append, ◌<◌, ap,
}

-- A name that can be listed: not empty, and without commas.
abbrev pub IsListable : Text → Type 0
IsListable name = (is_empty name ≡ false) × (contains name b',' ≡ false)

abbrev pub AreListable : List Text → Type 0
AreListable [] = Unit
AreListable (name ∷ names) = IsListable name × AreListable names

unfoldable pub join_names : List Text → Text
join_names [] = []
join_names (name ∷ []) = name
join_names (name ∷ next ∷ names) = name ++ b',' ∷ join_names (next ∷ names)

before_comma-append :
    (name rest : Text) → contains name b',' ≡ false → before_comma (name ++ b',' ∷ rest) ≡ name
unfolding before_comma contains
before_comma-append [] rest h = refl
before_comma-append (c ∷ name) rest h = ground (arith, before_comma-append name rest)

before_comma-whole : (name : Text) → contains name b',' ≡ false → before_comma name ≡ name
unfolding before_comma contains
before_comma-whole [] h = refl
before_comma-whole (c ∷ name) h = ground (arith, before_comma-whole name)

after_comma-append :
    (name rest : Text) → contains name b',' ≡ false → after_comma (name ++ b',' ∷ rest) ≡ some rest
unfolding after_comma contains
after_comma-append [] rest h = refl
after_comma-append (c ∷ name) rest h = ground (arith, after_comma-append name rest)

after_comma-none : (name : Text) → contains name b',' ≡ false → after_comma name ≡ none
unfolding after_comma contains
after_comma-none [] h = refl
after_comma-none (c ∷ name) h = ground (arith, after_comma-none name)

-- One round of the loop, where a character is left and fuel is.
channel_names-round :
    (fuel : ℕ) (text : Text)
    → is_empty text ≡ false
    → channel_names (suc fuel) text
      ≡ before_comma text
        ∷ elim (after_comma text) [ none ↦ [] | some rest ↦ channel_names fuel rest ]
unfolding channel_names
channel_names-round fuel [] h = cc
channel_names-round fuel (c ∷ text) h = refl

length-positive : (name : Text) → is_empty name ≡ false → 0 < length name
length-positive [] h = cc
length-positive (c ∷ name) h = omega arith

is_empty_listed : (name rest : Text) → is_empty (name ++ b',' ∷ rest) ≡ false
is_empty_listed [] rest = refl
is_empty_listed (c ∷ name) rest = refl

-- With fuel for every character the loop ends with the last name.
channel_names-enough :
    (fuel : ℕ) (names : List Text)
    → AreListable names
    → length (join_names names) ≤ fuel
    → channel_names fuel (join_names names) ≡ names
unfolding join_names channel_names
channel_names-enough zero [] ok enough = refl
channel_names-enough (suc fuel) [] ok enough = refl
channel_names-enough zero (name ∷ []) ok enough =
    absurd (ground (arith, length-positive name ok.0.0))
channel_names-enough (suc fuel) (name ∷ []) ok enough =
    rw
      (
        channel_names-round fuel name ok.0.0,
        before_comma-whole name ok.0.1,
        after_comma-none name ok.0.1,
      )
      refl
channel_names-enough zero (name ∷ next ∷ names) ok enough =
    absurd (ground (arith, length-append name (b',' ∷ join_names (next ∷ names))))
channel_names-enough (suc fuel) (name ∷ next ∷ names) ok enough =
    rw
      (
        channel_names-round fuel (name ++ b',' ∷ rest) (is_empty_listed name rest),
        before_comma-append name rest ok.0.1,
        after_comma-append name rest ok.0.1,
      )
      (ap (◌∷◌ name) (channel_names-enough fuel (next ∷ names) ok.1 shorter))
  where
    rest : Text
    rest = join_names (next ∷ names)

    shorter : length rest ≤ fuel
    shorter = ground (arith, length-append name (b',' ∷ rest), length-positive name ok.0.0)

-- A list of names, none empty and none with a comma, is read from the text that joins them by commas.
pub channel_names-join_names :
    (names : List Text)
    → AreListable names
    → channel_names (length (join_names names)) (join_names names) ≡ names
channel_names-join_names names ok = channel_names-enough _ names ok (omega arith)

-- One name is a list of one.
pub channel_names-single :
    (name : Text)
    → is_empty name ≡ false
    → contains name b',' ≡ false
    → channel_names (length name) name ≡ name ∷ []
unfolding join_names
channel_names-single name full comma = channel_names-join_names (name ∷ []) ((full, comma), tt)
