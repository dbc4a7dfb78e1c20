-- ===== src/Prelude/Text.antt =====
-- Text as a list of code points, with the methods of Python's `str` that the program calls. Letters
-- and blanks are those of ASCII.
use Prim.Native.Char.{code}
use Prim.Native.Nat.{ℕ, zero, suc, ◌+◌, ◌-◌, ◌*◌, ◌/◌, ◌%◌}
use Prim.Native.String.{String}
use mathlib.Core.Bool.{Bool, true, false, ◌&&◌, ◌||◌}
use mathlib.Core.List.{List, [], ◌∷◌, ◌++◌, map, reverse}
use pocket_mo_e.Prelude.Lists.{length, drop, all}
use mathlib.Core.Option.{Option, none, some}
use mathlib.Core.Option
use pocket_mo_e.Prelude.Equality.{◌==◌, list_eq, nat_eq}
use pocket_mo_e.Prelude.Int.{ℤ, pos, negsuc}
use pocket_mo_e.Prelude.Tests.{leb, if◌then◌else◌}

abbrev pub Text : Type 0
Text = List ℕ

abbrev pub codes : String → Text
codes String.[] = []
codes (String.◌∷◌ c s) = code c ∷ codes s

-- `s.lower()`, one letter
unfoldable pub lower_code : ℕ → ℕ
lower_code c = if leb b'A' c && leb c b'Z' then c + 32 else c

abbrev pub lower : Text → Text
lower = map lower_code

unfoldable pub upper_code : ℕ → ℕ
upper_code c = if leb b'a' c && leb c b'z' then c - 32 else c

abbrev pub upper : Text → Text
upper = map upper_code

-- `s.startswith(p)`
unfoldable pub starts_with : Text → Text → Bool
starts_with [] s = true
starts_with (p ∷ ps) [] = false
starts_with (p ∷ ps) (c ∷ s) = p == c && starts_with ps s

-- `s.endswith(p)`
unfoldable pub ends_with : Text → Text → Bool
unfolding starts_with
ends_with p s = starts_with (reverse p) (reverse s)

-- `p in s`
unfoldable pub contains : Text → Text → Bool
unfolding starts_with
contains p [] = starts_with p []
contains p (c ∷ s) = starts_with p (c ∷ s) || contains p s

push_head : ℕ → List Text → List Text
push_head c [] = (c ∷ []) ∷ []
push_head c (w ∷ ws) = (c ∷ w) ∷ ws

-- `s.split(sep)` for a separator of one character
unfoldable pub split : ℕ → Text → List Text
unfolding push_head
split sep [] = [] ∷ []
split sep (c ∷ s) = let rest = split sep s in if c == sep then [] ∷ rest else push_head c rest

is_blank : ℕ → Bool
is_blank c = c == 32 || (leb 9 c && leb c 13) || (leb 28 c && leb c 31)

-- `s.lstrip()`
unfoldable pub lstrip : Text → Text
unfolding is_blank
lstrip [] = []
lstrip (c ∷ s) = let rest = lstrip s in if is_blank c then rest else c ∷ s

-- `s.strip()`
unfoldable pub strip : Text → Text
unfolding lstrip
strip s = reverse (lstrip (reverse (lstrip s)))

unfoldable pub is_digit : ℕ → Bool
is_digit c = leb b'0' c && leb c b'9'

-- the digits of `int(s)`, where one `_` may stand between two digits
digits_from : ℕ → Bool → Text → Option ℕ
unfolding is_digit
digits_from acc after_digit [] = if after_digit then some acc else none
digits_from acc after_digit (c ∷ s) =
    let next = digits_from (acc * 10 + (c - b'0')) true s in
    let skip = digits_from acc false s in
    if is_digit c then next else if c == b'_' && after_digit then skip else none

negate : ℕ → ℤ
negate zero = pos 0
negate (suc n) = negsuc n

signed : Text → Option ℤ
unfolding digits_from negate
signed [] = none
signed (c ∷ s) =
    if c == b'-'
    then Option.map negate (digits_from 0 false s)
    else if c == b'+'
    then Option.map pos (digits_from 0 false s)
    else Option.map pos (digits_from 0 false (c ∷ s))

-- `int(s)`; `none` is the ValueError
unfoldable pub parse_int : Text → Option ℤ
unfolding strip signed
parse_int s = signed (strip s)

-- whether one of the words is the text
unfoldable pub one_of : Text → List Text → Bool
one_of s [] = false
one_of s (w ∷ ws) = s == w || one_of s ws

-- `s.replace(old, new, 1)`
unfoldable pub replace_first : Text → Text → Text → Text
unfolding starts_with
replace_first old new [] = if starts_with old [] then new else []
replace_first old new (c ∷ s) =
    let rest = replace_first old new s in
    if starts_with old (c ∷ s) then new ++ drop (length old) (c ∷ s) else c ∷ rest

-- `s.isdigit()`
unfoldable pub all_digits : Text → Bool
unfolding is_digit
all_digits [] = false
all_digits (c ∷ s) = all is_digit (c ∷ s)

-- `sep.join(parts)` for a separator of one character
unfoldable pub join : ℕ → List Text → Text
join sep [] = []
join sep (w ∷ []) = w
join sep (w ∷ w' ∷ ws) = w ++ sep ∷ join sep (w' ∷ ws)

-- `sep.join(words)` for any separator
unfoldable pub join_with : Text → List Text → Text
join_with sep [] = []
join_with sep (w ∷ []) = w
join_with sep (w ∷ w' ∷ ws) = w ++ (sep ++ join_with sep (w' ∷ ws))

-- `parts.index(word)`
unfoldable pub index_of : Text → List Text → Option ℕ
index_of word [] = none
index_of word (w ∷ ws) = if w == word then some 0 else Option.map suc (index_of word ws)

-- the decimal digits of a number; `fuel` rounds are enough for a number below 10 ^ fuel
digits_text : ℕ → ℕ → Text → Text
digits_text zero n acc = acc
digits_text (suc fuel) n acc =
    let rest = digits_text fuel (n / 10) ((b'0' + n % 10) ∷ acc) in
    if n / 10 == 0 then (b'0' + n % 10) ∷ acc else rest

-- `str(n)`
unfoldable pub nat_text : ℕ → Text
unfolding digits_text
nat_text n = digits_text (suc n) n []

unfoldable pub int_text : ℤ → Text
unfolding nat_text
int_text (pos n) = nat_text n
int_text (negsuc n) = b'-' ∷ nat_text (suc n)
