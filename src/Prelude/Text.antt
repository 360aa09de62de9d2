-- ===== src/Prelude/Text.antt =====
-- Python's `str` methods, as far as the program uses them. Letters and white space are those of
-- ASCII: `lower` leaves other characters alone, and `strip` takes away the ten ASCII spaces.
use Prim.Native.Nat.{ℕ, zero, suc, ◌-◌, ◌/◌, ◌%◌, ◌+◌}
use Prim.Native.Char.{Char, code}
use Prim.Native.String.{String, ◌++◌, char_at, slice, compare}
use mathlib.Core.Bool.{Bool, true, false, not, ◌&&◌, ◌||◌}
use mathlib.Core.Option.{Option, none, some}
use mathlib.Core.List.{List, [], ◌∷◌}
use text.Mathlib.Text.{◌==◌, starts_with, is_lt}
use text.Mathlib.TextLemmas.{nil-append, cons-append}
use mathlib.Core.Path.{◌≡◌, refl}
use native.Mathlib.Omega.{arith}
use course_discovery_agent.Prelude.Tests.{leb, eqb, if◌then◌else◌}

lower_char : Char → Char
lower_char c =
    if leb 65 (code c) && leb (code c) 90
    then char_at "abcdefghijklmnopqrstuvwxyz" (code c - 65)
    else c

-- `text.lower()`
unfoldable pub lower : String → String
unfolding lower_char
lower String.[] = ""
lower (String.◌∷◌ c s) = String.◌∷◌ (lower_char c) (lower s)

is_space : Char → Bool
is_space c = (leb 9 (code c) && leb (code c) 13) || (leb 28 (code c) && leb (code c) 32)

lstrip : String → String
unfolding is_space
lstrip String.[] = ""
lstrip (String.◌∷◌ c s) = let rest = lstrip s in if is_space c then rest else String.◌∷◌ c s

rstrip_cons : Char → String → String
unfolding is_space
rstrip_cons c String.[] = if is_space c then "" else String.◌∷◌ c ""
rstrip_cons c (String.◌∷◌ d s) = String.◌∷◌ c (String.◌∷◌ d s)

rstrip : String → String
unfolding rstrip_cons
rstrip String.[] = ""
rstrip (String.◌∷◌ c s) = rstrip_cons c (rstrip s)

-- `text.strip()`
unfoldable pub strip : String → String
unfolding lstrip rstrip
strip s = rstrip (lstrip s)

-- `part in text`
unfoldable pub contains : String → String → Bool
contains part String.[] = part == ""
contains part (String.◌∷◌ c s) = starts_with (String.◌∷◌ c s) part || contains part s

-- `sep.join(parts)`
unfoldable pub join : String → List String → String
join sep [] = ""
join sep (x ∷ []) = x
join sep (x ∷ y ∷ rest) = x ++ (sep ++ join sep (y ∷ rest))

show_fuel : ℕ → ℕ → String
show_fuel zero n = ""
show_fuel (suc f) n =
    let digit = slice "0123456789" (n % 10) (n % 10 + 1) in
    let rest = show_fuel f (n / 10) in if leb n 9 then digit else rest ++ digit

-- `str(n)`. A number has at most as many digits as it counts, and one if it is 0.
unfoldable pub show : ℕ → String
unfolding show_fuel
show n = show_fuel (suc n) n

-- `text or None`
abbrev pub non_empty : String → Option String
non_empty s = if s == "" then none else some s

-- `text.rstrip(c)` for a single character, given by its code.
rstrip_char_cons : ℕ → Char → String → String
rstrip_char_cons n c String.[] = if eqb (code c) n then "" else String.◌∷◌ c ""
rstrip_char_cons n c (String.◌∷◌ d s) = String.◌∷◌ c (String.◌∷◌ d s)

unfoldable pub rstrip_char : ℕ → String → String
unfolding rstrip_char_cons
rstrip_char n String.[] = ""
rstrip_char n (String.◌∷◌ c s) = rstrip_char_cons n c (rstrip_char n s)

-- `text.split(c)[0]` for a single character, given by its code.
unfoldable pub until_char : ℕ → String → String
until_char n String.[] = ""
until_char n (String.◌∷◌ c s) =
    let rest = until_char n s in if eqb (code c) n then "" else String.◌∷◌ c rest

unfoldable pub drop_chars : ℕ → String → String
drop_chars zero s = s
drop_chars (suc n) String.[] = ""
drop_chars (suc n) (String.◌∷◌ c s) = drop_chars n s

-- `text[:n]`
unfoldable pub take_chars : ℕ → String → String
take_chars zero s = ""
take_chars (suc n) String.[] = ""
take_chars (suc n) (String.◌∷◌ c s) = String.◌∷◌ c (take_chars n s)

-- `len(text)`
unfoldable pub text_length : String → ℕ
text_length String.[] = 0
text_length (String.◌∷◌ c s) = suc (text_length s)

-- `text.removeprefix("www.")`
unfoldable pub without_www : String → String
unfolding drop_chars
without_www s = if starts_with s "www." then drop_chars 4 s else s

-- `text.partition(c)` for a single character, given by its code: what is before it, whether it is
-- there, and what is behind it.
unfoldable pub partition : ℕ → String → String × Bool × String
partition n String.[] = ("", false, "")
partition n (String.◌∷◌ c s) =
    if eqb (code c) n
    then ("", true, s)
    else (String.◌∷◌ c (partition n s).0, (partition n s).1, (partition n s).2)

-- The first part gets one more character.
push_char : Char → List String → List String
push_char c [] = String.◌∷◌ c "" ∷ []
push_char c (x ∷ xs) = String.◌∷◌ c x ∷ xs

-- `text.split(c)` for a single character, given by its code.
unfoldable pub split : ℕ → String → List String
unfolding push_char
split n String.[] = "" ∷ []
split n (String.◌∷◌ c s) =
    let rest = split n s in if eqb (code c) n then "" ∷ rest else push_char c rest

-- Whether every character's code passes a test.
unfoldable pub all_chars : (ℕ → Bool) → String → Bool
all_chars p String.[] = true
all_chars p (String.◌∷◌ c s) = p (code c) && all_chars p s

-- The number of characters.
unfoldable pub chars : String → ℕ
chars String.[] = 0
chars (String.◌∷◌ c s) = suc (chars s)

pub drop_chars-append : (p s : String) → drop_chars (chars p) (p ++ s) ≡ s
unfolding drop_chars chars
drop_chars-append String.[] s = nil-append s
drop_chars-append (String.◌∷◌ c p) s = rw (cons-append c p s) (drop_chars-append p s)

-- A text is cut at the first separator.
pub partition-append :
    (n : ℕ) (c : Char) (i rest : String)
    → code c ≡ n
    → all_chars (λ d. not (eqb d n)) i ≡ true
    → partition n (i ++ String.◌∷◌ c rest) ≡ (i, true, rest)
unfolding partition all_chars
partition-append n c String.[] rest e h = rw (nil-append (String.◌∷◌ c rest)) (ground arith)
partition-append n c (String.◌∷◌ d i) rest e h =
    rw (cons-append d i (String.◌∷◌ c rest), partition-append n c i rest e (ground arith))
      (ground arith)

pub all_chars_mono :
    (p q : ℕ → Bool)
    → ((c : ℕ) → p c ≡ true → q c ≡ true)
    → (s : String) → all_chars p s ≡ true
    → all_chars q s ≡ true
unfolding all_chars
all_chars_mono p q f String.[] h = refl
all_chars_mono p q f (String.◌∷◌ c s) h = ground (arith, f (code c), all_chars_mono p q f s)

pub all_chars-append :
    (p : ℕ → Bool) (a b : String) → all_chars p (a ++ b) ≡ (all_chars p a && all_chars p b)
unfolding all_chars
all_chars-append p String.[] b = rw (nil-append b) refl
all_chars-append p (String.◌∷◌ c a) b =
    rw (cons-append c a b) (ground (arith, all_chars-append p a b))

-- A text of one character, before another text.
pub char-append : (c : Char) (s : String) → (String.◌∷◌ c "") ++ s ≡ String.◌∷◌ c s
char-append c s = rw (cons-append c "" s, nil-append s) refl

-- `a <= b`, in the order of code points.
unfoldable pub text_le : String → String → Bool
text_le a b = a == b || is_lt (compare a b)
