-- ===== src/Base/Text.antt =====
-- What the source uses of Python's `str`: decimal numerals, `repr`, `rsplit`, prefixes, lower case.
-- Case conversion is that of the ASCII letters, and `repr` escapes quotes, backslashes and the
-- line breaks and tabs.
use Prim.Native.Nat.{ℕ, zero, suc, ◌+◌, ◌-◌, ◌*◌, ◌/◌, ◌%◌}
use Prim.Native.Char.{Char, code}
use Prim.Native.String.{String, char_at, ◌++◌}
use mathlib.Core.Path.{◌≡◌, refl}
use mathlib.Core.Bool.{Bool, true, false, ◌&&◌, ◌||◌, not}
use mathlib.Core.List.{List, [], ◌∷◌}
use mathlib.Core.Option.{Option, none, some}
use axor_wrap.Base.Tests.{ltb, leb, nat_eq, if◌then◌else◌}
use axor_wrap.Base.Int.{ℤ, pos, negsuc}

-- The code points of a text.
abbrev pub codes : String → List ℕ
codes String.[] = []
codes (String.◌∷◌ c s) = code c ∷ codes s

abbrev pub cons_char : Char → String → String
cons_char c s = String.◌∷◌ c s

abbrev pub empty : String → Bool
empty String.[] = true
empty (String.◌∷◌ c s) = false

digit : ℕ → Char
digit d = char_at "0123456789" d

decimal_from : ℕ → ℕ → String → String
decimal_from zero n acc = acc
decimal_from (suc f) n acc =
    let rest = decimal_from f (n / 10) (cons_char (digit (n % 10)) acc) in
    if ltb n 10 then cons_char (digit n) acc else rest

-- `str(n)` of a number; one digit is written a round, so `n + 1` rounds are enough.
unfoldable pub decimal : ℕ → String
unfolding decimal_from digit
decimal n = decimal_from (suc n) n ""

unfoldable pub decimal_ℤ : ℤ → String
unfolding decimal
decimal_ℤ (pos n) = decimal n
decimal_ℤ (negsuc n) = "-" ++ decimal (suc n)

abbrev has_code : ℕ → String → Bool
has_code k String.[] = false
has_code k (String.◌∷◌ c s) = nat_eq (code c) k || has_code k s

-- One character of `repr`, between quotes of the code `quote`.
escape : ℕ → Char → String → String
escape quote c rest =
    if nat_eq (code c) 92
    then "\\\\" ++ rest
    else if nat_eq (code c) quote
    then cons_char (char_at "\\" 0) (cons_char c rest)
    else if nat_eq (code c) 10
    then "\\n" ++ rest
    else if nat_eq (code c) 13
    then "\\r" ++ rest
    else if nat_eq (code c) 9
    then "\\t" ++ rest
    else cons_char c rest

escape_all : ℕ → String → String
unfolding escape
escape_all quote String.[] = ""
escape_all quote (String.◌∷◌ c s) = escape quote c (escape_all quote s)

-- `repr(s)`: single quotes, unless the text holds one and no double quote.
unfoldable pub repr : String → String
unfolding escape_all
repr s =
    if has_code 39 s && not (has_code 34 s)
    then "\"" ++ (escape_all 34 s ++ "\"")
    else "'" ++ (escape_all 39 s ++ "'")

abbrev prepend : Char → List String → List String
prepend c [] = cons_char c "" ∷ []
prepend c (w ∷ ws) = cons_char c w ∷ ws

-- `s.split(c)` at a character of the code `k`
unfoldable pub split : ℕ → String → List String
split k String.[] = "" ∷ []
split k (String.◌∷◌ c s) =
    let rest = split k s in if nat_eq (code c) k then "" ∷ rest else prepend c rest

-- The parts of a split at `:`, joined from the left until three are left.
unfoldable pub join_left : String → List String → List String
join_left a (b ∷ c ∷ d ∷ r) = join_left (a ++ (":" ++ b)) (c ∷ d ∷ r)
join_left a r = a ∷ r

-- `s.rsplit(":", 2)`
unfoldable pub rsplit2 : String → List String
unfolding split join_left
rsplit2 s = elim (split 58 s) [ [] ↦ [] | a ∷ r ↦ join_left a r ]

abbrev lower_char : Char → Char
lower_char c =
    if leb 65 (code c) && leb (code c) 90
    then char_at "abcdefghijklmnopqrstuvwxyz" (code c - 65)
    else c

-- `s.lower()`
unfoldable pub lower : String → String
lower String.[] = ""
lower (String.◌∷◌ c s) = cons_char (lower_char c) (lower s)

abbrev upper_char : Char → Char
upper_char c =
    if leb 97 (code c) && leb (code c) 122
    then char_at "ABCDEFGHIJKLMNOPQRSTUVWXYZ" (code c - 97)
    else c

-- `s.upper()`
unfoldable pub upper : String → String
upper String.[] = ""
upper (String.◌∷◌ c s) = cons_char (upper_char c) (upper s)

-- `s[len(p):]` if the text begins with `p`
unfoldable pub strip_prefix : String → String → Option String
strip_prefix String.[] s = some s
strip_prefix (String.◌∷◌ d p) String.[] = none
strip_prefix (String.◌∷◌ d p) (String.◌∷◌ c s) =
    if nat_eq (code d) (code c) then strip_prefix p s else none

-- `sep.join(parts)`
abbrev pub joined : String → List String → String
joined sep [] = ""
joined sep (s ∷ []) = s
joined sep (s ∷ t ∷ r) = s ++ (sep ++ joined sep (t ∷ r))

hex_digit : ℕ → Char
hex_digit d = char_at "0123456789abcdef" d

-- The escape of a UTF-16 unit, before a text.
unit_escape : ℕ → String → String
unfolding hex_digit
unit_escape n s =
    "\\u"
    ++ cons_char (hex_digit (n / 4096 % 16)) (
        cons_char (hex_digit (n / 256 % 16))
          (cons_char (hex_digit (n / 16 % 16)) (cons_char (hex_digit (n % 16)) s)))

json_char : Char → String → String
unfolding unit_escape
json_char c s =
    let n = code c in
    let pair =
      unit_escape (55296 + (n - 65536) / 1024) (unit_escape (56320 + (n - 65536) % 1024) s) in
    let one = unit_escape n s in
    if nat_eq n 34
    then "\\\"" ++ s
    else if nat_eq n 92
    then "\\\\" ++ s
    else if nat_eq n 10
    then "\\n" ++ s
    else if nat_eq n 13
    then "\\r" ++ s
    else if nat_eq n 9
    then "\\t" ++ s
    else if nat_eq n 8
    then "\\b" ++ s
    else if nat_eq n 12
    then "\\f" ++ s
    else if leb 32 n && leb n 126
    then cons_char c s
    else if ltb n 65536
    then one
    else pair

json_chars : String → String
unfolding json_char
json_chars String.[] = "\""
json_chars (String.◌∷◌ c s) = json_char c (json_chars s)

-- `json.dumps(s)` of a text
unfoldable pub json_text : String → String
unfolding json_chars
json_text s = "\"" ++ json_chars s

json_text_test : json_text "a\"\n" ≡ "\"a\\\"\\n\""
unfolding json_text
json_text_test = refl

is_space : ℕ → Bool
is_space c = nat_eq c 32 || (leb 9 c && leb c 13)

skip_spaces : List ℕ → List ℕ
skip_spaces [] = []
skip_spaces (c ∷ s) = let rest = skip_spaces s in if is_space c then rest else c ∷ s

all_spaces : List ℕ → Bool
all_spaces [] = true
all_spaces (c ∷ s) = is_space c && all_spaces s

is_digit : ℕ → Bool
is_digit c = leb 48 c && leb c 57

-- The digits of `int(s)`, with single underscores between two, up to trailing white space.
-- `after` says whether the last character was a digit.
digits_from : Bool → ℕ → List ℕ → Option ℕ
digits_from after n [] = if after then some n else none
digits_from after n (c ∷ s) =
    let next = digits_from true (n * 10 + (c - 48)) s in
    let skip = digits_from false n s in
    if is_digit c
    then next
    else if nat_eq c 95 && after
    then skip
    else if after && all_spaces (c ∷ s)
    then some n
    else none

abbrev negative : Option ℕ → Option ℤ
negative none = none
negative (some zero) = some (pos 0)
negative (some (suc n)) = some (negsuc n)

abbrev positive : Option ℕ → Option ℤ
positive none = none
positive (some n) = some (pos n)

signed : List ℕ → Option ℤ
unfolding digits_from
signed [] = none
signed (c ∷ s) =
    if nat_eq c 45
    then negative (digits_from false 0 s)
    else if nat_eq c 43
    then positive (digits_from false 0 s)
    else positive (digits_from false 0 (c ∷ s))

-- `int(s)` of a text; `none` is a `ValueError`.
unfoldable pub parse_int : String → Option ℤ
unfolding signed skip_spaces digits_from is_digit all_spaces is_space
parse_int s = signed (skip_spaces (codes s))

decimal_test : decimal_ℤ (negsuc 1206) ≡ "-1207"
unfolding decimal_ℤ
decimal_test = refl

rsplit2_test : rsplit2 "a:b:c:d" ≡ "a:b" ∷ "c" ∷ "d" ∷ []
unfolding rsplit2
rsplit2_test = refl

repr_test : repr "it's" ≡ "\"it's\""
unfolding repr
repr_test = refl

parse_int_test : parse_int " -1_2 " ≡ some (negsuc 11)
unfolding parse_int
parse_int_test = refl

lower_test : lower (upper "Send_Mail") ≡ "send_mail"
unfolding lower upper
lower_test = refl

strip_test : strip_prefix "$inputs." "$inputs.x" ≡ some "x"
unfolding strip_prefix
strip_test = refl
