-- ===== src/Cut.antt =====
-- Texts as lines with their ends, which `extractCommands` of src/Server.cpp and `main` of bot/main.cpp take
-- from their input.
use mathlib.Core.List.{append_assoc}
use internet_relay_chat_msn.Bot.Search.{chomp-append, contains-append}
use internet_relay_chat_msn.Dispatch.{after_newline, before_newline, chomp}
use internet_relay_chat_msn.Text.{Text, bytes}
use internet_relay_chat_msn.Base.{
  ℕ, Bool, true, false, List, [], ◌∷◌, ◌++◌, ◌≡◌, ◌==◌, nat_key, contains, refl, arith, ap, some,
  none, ◌∙◌, sym, Bool-cases, inl, inr, is_empty, not, ◌&&◌, nat_beq_iff,
}

-- A line, and whether a carriage return stands before the newline that ends it.
pub record Line : Type 0 where
  pub text : Text
  pub has_return : Bool

unfoldable pub ending : Bool → Text
ending true = bytes "\r\n"
ending false = bytes "\n"

-- The lines one after another, each with its end, and then a text.
unfoldable pub written : List Line → Text → Text
written [] rest = rest
written (l ∷ lines) rest = l.text ++ (ending l.has_return ++ written lines rest)

unfoldable pub ends_with_return : Text → Bool
ends_with_return [] = false
ends_with_return (c ∷ []) = c == 13
ends_with_return (c ∷ d ∷ text) = ends_with_return (d ∷ text)

-- A line has no newline, and the carriage return before its newline is in its end.
pub record IsLine (l : Line) : Type 0 where
  pub one : contains l.text 10 ≡ false
  pub bare : l.has_return ≡ false → ends_with_return l.text ≡ false

abbrev pub AreLines : List Line → Type 0
AreLines [] = Unit
AreLines (l ∷ lines) = IsLine l × AreLines lines

-- A text as its lines, and what follows the last newline.
pub record Cut (text : Text) : Type 0 where
  pub lines : List Line
  pub rest : Text
  pub are_lines : AreLines lines
  pub last : contains rest 10 ≡ false
  pub whole : text ≡ written lines rest

-- One character more in front.
cut_at_newline : (text : Text) → Cut text → Cut (10 ∷ text)
unfolding written ending bytes
cut_at_newline text k = record {
  lines = record { text = []; has_return = false } ∷ k.lines;
  rest = k.rest;
  are_lines = (
    record { one = unfold contains in refl; bare = λ e. unfold ends_with_return in refl },
    k.are_lines,
  );
  last = k.last;
  whole = ap (◌∷◌ 10) k.whole;
}

bare_behind :
    (c : ℕ) (text : Text) (b : Bool)
    → (is_empty text && not b) ≡ false
    → (b ≡ false → ends_with_return text ≡ false)
    → b ≡ false
    → ends_with_return (c ∷ text) ≡ false
unfolding ends_with_return
bare_behind c [] b h bare e = cc (h, e)
bare_behind c (d ∷ text) b h bare e = bare e

blank_behind :
    (c : ℕ) (text : Text) (b : Bool)
    → (is_empty text && not b) ≡ true
    → (c == 13) ≡ false
    → ends_with_return (c ∷ text) ≡ false
unfolding ends_with_return
blank_behind c [] b h plain = plain
blank_behind c (d ∷ text) b h plain = cc h

-- A return before a newline is of the line's end.
returned :
    (c : ℕ) (text : Text) (b : Bool) (more : Text)
    → (is_empty text && not b) ≡ true
    → (c == 13) ≡ true
    → c ∷ (text ++ (ending b ++ more)) ≡ ending true ++ more
unfolding ending bytes
returned c (d ∷ text) b more h e = cc h
returned c [] true more h e = cc h
returned c [] false more h e = rw ((nat_beq_iff c 13).0 e) refl

-- Another character than a newline in front of a text.
module _ (c : ℕ) (text : Text) (other : (c == 10) ≡ false) where
  -- It belongs to the first line.
  widened :
      (l : Line) (lines : List Line) (rest : Text)
      → AreLines (l ∷ lines)
      → contains rest 10 ≡ false
      → text ≡ written (l ∷ lines) rest
      → (l.has_return ≡ false → ends_with_return (c ∷ l.text) ≡ false)
      → Cut (c ∷ text)
  unfolding written contains
  widened l lines rest v last e bare = record {
    lines = record { text = c ∷ l.text; has_return = l.has_return } ∷ lines;
    rest = rest;
    are_lines = (record { one = rw other (v.0.one); bare = bare }, v.1);
    last = last;
    whole = ap (◌∷◌ c) e;
  }

  -- It is a return before a newline, and belongs to the end of the first line.
  returning :
      (l : Line) (lines : List Line) (rest : Text)
      → AreLines (l ∷ lines)
      → contains rest 10 ≡ false
      → text ≡ written (l ∷ lines) rest
      → (is_empty l.text && not l.has_return) ≡ true
      → (c == 13) ≡ true
      → Cut (c ∷ text)
  unfolding written contains
  returning l lines rest v last e blank return = record {
    lines = record { text = []; has_return = true } ∷ lines;
    rest = rest;
    are_lines = (record { one = refl; bare = λ h. cc h }, v.1);
    last = last;
    whole = ap (◌∷◌ c) e ∙ returned c l.text l.has_return (written lines rest) blank return;
  }

  by_lines :
      (lines : List Line) (rest : Text)
      → AreLines lines
      → contains rest 10 ≡ false
      → text ≡ written lines rest
      → Cut (c ∷ text)
  by_lines [] rest v last e = record {
    lines = [];
    rest = c ∷ rest;
    are_lines = tt;
    last = unfold contains in rw other last;
    whole = unfold written in ap (◌∷◌ c) (unfold written in e);
  }
  by_lines (l ∷ lines) rest v last e = elim (Bool-cases (is_empty l.text && not l.has_return)) [
    | inr longer ↦
        widened l lines rest v last e (bare_behind c l.text l.has_return longer (v.0.bare))
    | inl blank ↦ elim (Bool-cases (c == 13)) [
      | inr plain ↦
          widened l lines rest v last e (λ h. blank_behind c l.text l.has_return blank plain)
      | inl return ↦ returning l lines rest v last e blank return
    ]
  ]

  cut_further : Cut text → Cut (c ∷ text)
  cut_further k = by_lines k.lines k.rest k.are_lines k.last k.whole

-- Every text is lines and what follows them.
pub cut : (text : Text) → Cut text
cut [] = record {
  lines = [];
  rest = [];
  are_lines = tt;
  last = unfold contains in refl;
  whole = unfold written in refl;
}
cut (c ∷ text) = elim (Bool-cases (c == 10)) [
  | inl ends ↦ rw ((nat_beq_iff c 10).0 ends) (cut_at_newline text (cut text))
  | inr more ↦ cut_further c text more (cut text)
]

-- The code takes the first line off.
after_newline-line :
    (text more : Text) → contains text 10 ≡ false → after_newline (text ++ 10 ∷ more) ≡ some more
unfolding after_newline contains
after_newline-line [] more h = refl
after_newline-line (c ∷ text) more h = ground (arith, h, after_newline-line text more)

before_newline-line :
    (text more : Text) → contains text 10 ≡ false → before_newline (text ++ 10 ∷ more) ≡ text
unfolding before_newline contains
before_newline-line [] more h = refl
before_newline-line (c ∷ text) more h = ground (arith, h, before_newline-line text more)

chomp-bare : (text : Text) → ends_with_return text ≡ false → chomp text ≡ text
unfolding chomp ends_with_return
chomp-bare [] h = refl
chomp-bare (c ∷ []) h = rw h refl
chomp-bare (c ∷ d ∷ text) h = ap (◌∷◌ c) (chomp-bare (d ∷ text) h)

pub after_newline-rest : (rest : Text) → contains rest 10 ≡ false → after_newline rest ≡ none
unfolding after_newline contains
after_newline-rest [] h = refl
after_newline-rest (c ∷ rest) h = ground (arith, h, after_newline-rest rest)

-- A line with its return, before its newline.
stem : Text → Bool → Text
stem text true = text ++ bytes "\r"
stem text false = text

stem-ending :
    (text : Text) (b : Bool) (more : Text) → text ++ (ending b ++ more) ≡ stem text b ++ 10 ∷ more
unfolding stem ending bytes
stem-ending text true more = sym (append_assoc text (13 ∷ []) (10 ∷ more))
stem-ending text false more = refl

stem-one : (text : Text) (b : Bool) → contains text 10 ≡ false → contains (stem text b) 10 ≡ false
unfolding stem bytes
stem-one text true h = rw (contains-append, h) (unfold contains in refl)
stem-one text false h = h

chomp-stem :
    (text : Text) (b : Bool)
    → (b ≡ false → ends_with_return text ≡ false)
    → chomp (stem text b) ≡ text
unfolding stem
chomp-stem text true h = chomp-append text
chomp-stem text false h = chomp-bare text (h refl)

module _ (l : Line) (lines : List Line) (rest : Text) (v : IsLine l) where
  pub after_newline-written : after_newline (written (l ∷ lines) rest) ≡ some (written lines rest)
  unfolding written
  after_newline-written = rw stem-ending (
      after_newline-line (stem l.text l.has_return) (written lines rest)
        (stem-one l.text l.has_return v.one))

  pub chomp-written : chomp (before_newline (written (l ∷ lines) rest)) ≡ l.text
  unfolding written
  chomp-written =
      rw
        (
          stem-ending,
          before_newline-line (stem l.text l.has_return) (written lines rest)
              (stem-one l.text l.has_return v.one),
        )
        (chomp-stem l.text l.has_return v.bare)
