-- ===== src/Base/Text.antt =====
-- Go's strings as native texts, and the calls of packages strings, unicode and utf8 that the
-- program makes. A text is well-formed UTF-8.
use Prim.Native.Char.{Char, code}
use Prim.Native.String.{String}
use Prim.Native.Nat.{◌+◌, ℕ, zero, suc, ◌≤◌}
use mathlib.Core.Path.{◌≡◌, refl, ap, ◌∙◌}
use mathlib.Core.Logic.{inl, inr}
use mathlib.Core.Bool.{Bool, true, false, ◌&&◌, ◌||◌}
use native.Mathlib.Omega.{arith}
use fluentwork_backend.Base.Tests.{leb, ltb, ◌==◌, if◌then◌else◌, Bool-cases}

-- unicode.IsSpace
unfoldable pub is_space : Char → Bool
is_space c =
    let n = code c in
    leb 9 n && leb n 13
    || n == 32
    || n == 0x85
    || n == 0xA0
    || n == 0x1680
    || leb 0x2000 n && leb n 0x200a
    || n == 0x2028
    || n == 0x2029
    || n == 0x202f
    || n == 0x205f
    || n == 0x3000

trim_left : String → String
trim_left String.[] = String.[]
trim_left (String.◌∷◌ c s) = let rest = trim_left s in if is_space c then rest else String.◌∷◌ c s

-- A character before a text that ends in no space.
before_trimmed : Char → String → String
before_trimmed c String.[] = if is_space c then String.[] else String.◌∷◌ c String.[]
before_trimmed c (String.◌∷◌ d s) = String.◌∷◌ c (String.◌∷◌ d s)

trim_right : String → String
trim_right String.[] = String.[]
trim_right (String.◌∷◌ c s) = before_trimmed c (trim_right s)

-- strings.TrimSpace
unfoldable pub trim_space : String → String
unfolding is_space trim_left trim_right before_trimmed
trim_space s = trim_right (trim_left s)

before_trimmed-trim_right :
    (c : Char) (s : String)
    → trim_right s ≡ s
    → trim_right (before_trimmed c s) ≡ before_trimmed c s
unfolding trim_right before_trimmed
before_trimmed-trim_right c String.[] h = elim (Bool-cases (is_space c)) [
  | inl e ↦ rw e
  | inr e ↦ rw e (rw e)
]
before_trimmed-trim_right c (String.◌∷◌ d s) h = rw h

trim_right_idem : (s : String) → trim_right (trim_right s) ≡ trim_right s
unfolding trim_right
trim_right_idem String.[] = refl
trim_right_idem (String.◌∷◌ c s) = before_trimmed-trim_right c (trim_right s) (trim_right_idem s)

before_trimmed-head :
    (c : Char) (s : String)
    → is_space c ≡ false
    → trim_left (before_trimmed c s) ≡ before_trimmed c s
unfolding before_trimmed trim_left
before_trimmed-head c String.[] h = rw h (rw h)
before_trimmed-head c (String.◌∷◌ d s) h = rw h

trim_left-trim_right :
    (s : String) → trim_left (trim_right (trim_left s)) ≡ trim_right (trim_left s)
unfolding trim_left
trim_left-trim_right String.[] = unfold trim_right in refl
trim_left-trim_right (String.◌∷◌ c s) = elim (Bool-cases (is_space c)) [
  | inl e ↦ rw e (trim_left-trim_right s)
  | inr e ↦ rw e (unfold trim_right in before_trimmed-head c (trim_right s) e)
]

-- Trimming a trimmed text changes nothing.
pub trim_space_idem : (s : String) → trim_space (trim_space s) ≡ trim_space s
unfolding trim_space
trim_space_idem s = ap trim_right (trim_left-trim_right s) ∙ trim_right_idem (trim_left s)

-- utf8.RuneCountInString
abbrev pub rune_count : String → ℕ
rune_count String.[] = 0
rune_count (String.◌∷◌ c s) = suc (rune_count s)

-- len(s): the bytes of the UTF-8 form
abbrev pub utf8_length : String → ℕ
utf8_length String.[] = 0
utf8_length (String.◌∷◌ c s) =
    (if ltb (code c) 0x80
      then 1
      else if ltb (code c) 0x800
      then 2
      else if ltb (code c) 0x10000
      then 3
      else 4)
    + utf8_length s

-- string([]rune(s)[:n])
abbrev pub take_runes : ℕ → String → String
take_runes zero s = String.[]
take_runes (suc n) String.[] = String.[]
take_runes (suc n) (String.◌∷◌ c s) = String.◌∷◌ c (take_runes n s)

pub rune_count-take_runes-le : (n : ℕ) (s : String) → rune_count (take_runes n s) ≤ n
rune_count-take_runes-le zero s = omega arith
rune_count-take_runes-le (suc n) String.[] = omega arith
rune_count-take_runes-le (suc n) (String.◌∷◌ c s) = omega (arith, rune_count-take_runes-le n s)

-- `s < t` on strings. The order of the bytes of UTF-8 is the order of the code points.
unfoldable pub str_lt : String → String → Bool
str_lt s String.[] = false
str_lt String.[] (String.◌∷◌ d t) = true
str_lt (String.◌∷◌ c s) (String.◌∷◌ d t) =
    let rest = str_lt s t in ltb (code c) (code d) || code c == code d && rest

pub str_lt_trans : (s t u : String) → str_lt s t ≡ true → str_lt t u ≡ true → str_lt s u ≡ true
unfolding str_lt
str_lt_trans s String.[] u h k = cc
str_lt_trans s (String.◌∷◌ d t) String.[] h k = cc
str_lt_trans String.[] (String.◌∷◌ d t) (String.◌∷◌ e u) h k = refl
str_lt_trans (String.◌∷◌ c s) (String.◌∷◌ d t) (String.◌∷◌ e u) h k =
    ground (arith, str_lt_trans s t u)

-- Whatever lies between, one half of a strict step is strict.
pub str_lt_cotrans : (s t u : String) → str_lt s u ≡ true → (str_lt s t || str_lt t u) ≡ true
unfolding str_lt
str_lt_cotrans s t String.[] h = cc
str_lt_cotrans String.[] String.[] (String.◌∷◌ e u) h = refl
str_lt_cotrans String.[] (String.◌∷◌ d t) (String.◌∷◌ e u) h = refl
str_lt_cotrans (String.◌∷◌ c s) String.[] (String.◌∷◌ e u) h = refl
str_lt_cotrans (String.◌∷◌ c s) (String.◌∷◌ d t) (String.◌∷◌ e u) h =
    ground (arith, str_lt_cotrans s t u)

pub str_lt_irrefl : (s : String) → str_lt s s ≡ false
unfolding str_lt
str_lt_irrefl String.[] = refl
str_lt_irrefl (String.◌∷◌ c s) = ground (arith, str_lt_irrefl s)

-- Whether a test holds of every character.
abbrev pub all_chars : (Char → Bool) → String → Bool
all_chars p String.[] = true
all_chars p (String.◌∷◌ c s) = p c && all_chars p s

-- strings.HasPrefix
abbrev pub has_prefix : String → String → Bool
has_prefix s String.[] = true
has_prefix String.[] (String.◌∷◌ d part) = false
has_prefix (String.◌∷◌ c s) (String.◌∷◌ d part) = code c == code d && has_prefix s part

-- strings.Contains
unfoldable pub contains_text : String → String → Bool
contains_text String.[] part = has_prefix String.[] part
contains_text (String.◌∷◌ c s) part = has_prefix (String.◌∷◌ c s) part || contains_text s part
