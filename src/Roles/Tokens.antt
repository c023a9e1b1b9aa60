-- ===== src/Roles/Tokens.antt =====
-- roles.py, `_tokens`: a text's words in lower case, also those of snake_case and camelCase.
use axor_wrap.Base.{
  String, Bool, false, ◌&&◌, ◌||◌, List, [], ◌∷◌, map, leb, if◌then◌else◌, ◌≡◌, refl,
}
use axor_wrap.Base.Text.{cons_char, empty, lower}
use Prim.Native.Char.{Char, code}
use Prim.Native.String.{String as Text}

abbrev is_lower : Char → Bool
is_lower c = leb 97 (code c) && leb (code c) 122

abbrev is_upper : Char → Bool
is_upper c = leb 65 (code c) && leb (code c) 90

abbrev is_digit : Char → Bool
is_digit c = leb 48 (code c) && leb (code c) 57

-- `re.sub(r"(?<=[a-z0-9])(?=[A-Z])", " ", text)`; the flag says whether `[a-z0-9]` stands before.
spaced : Bool → String → String
spaced after Text.[] = ""
spaced after (Text.◌∷◌ c s) =
    let rest = cons_char c (spaced (is_lower c || is_digit c) s) in
    if after && is_upper c then Text.◌∷◌ " " rest else rest

abbrev to_first : Char → List String → List String
to_first c [] = cons_char c "" ∷ []
to_first c (w ∷ ws) = cons_char c w ∷ ws

-- The parts between the characters that are no ASCII letters, empty ones among them.
letter_runs : String → List String
letter_runs Text.[] = "" ∷ []
letter_runs (Text.◌∷◌ c s) =
    let rest = letter_runs s in if is_lower c || is_upper c then to_first c rest else "" ∷ rest

-- `if t`
not_empty : List String → List String
not_empty [] = []
not_empty (w ∷ ws) = let rest = not_empty ws in if empty w then rest else w ∷ rest

unfoldable pub tokens : String → List String
unfolding spaced letter_runs not_empty lower
tokens text = map lower (not_empty (letter_runs (spaced false text)))

tokens_test : tokens "send_toSlack2Now" ≡ "send" ∷ "to" ∷ "slack" ∷ "now" ∷ []
unfolding tokens
tokens_test = refl
