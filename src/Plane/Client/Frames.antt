-- ===== src/Plane/Client/Frames.antt =====
-- `_consume_sse`: the frames of a stream of server-sent events. The lines are those that arrive
-- before `stop` is set, as `aiter_lines` gives them.
pub mod Written
use text.Mathlib.TextLemmas.{nil-append, cons-append}
use mathlib.Core.List.{append-nil, append_assoc}
use axor_wrap.Base.{
  sym, and-true_left, and-true_right, not, ℕ, String, ◌<>◌, Bool, true, false, ap, ◌∙◌, ◌&&◌, ◌||◌,
  Option, none, some, List, [], ◌∷◌, ◌++◌, map, ◌≡◌, refl, arith, leb, nat_eq, if◌then◌else◌,
}
use Prim.Native.Char.{Char, code}
use Prim.Native.String.{char_at}
use axor_wrap.Base.Text.{joined, empty, cons_char, strip_prefix}

-- `str.isspace` of one character
unfoldable is_space : ℕ → Bool
is_space c =
    (leb 9 c && leb c 13)
    || ((leb 28 c && leb c 32)
        || (nat_eq c 133
            || (nat_eq c 160
                || (nat_eq c 5760
                    || ((leb 8192 c && leb c 8202)
                        || (nat_eq c 8232
                            || (nat_eq c 8233
                                || (nat_eq c 8239 || (nat_eq c 8287 || nat_eq c 12288)))))))))

is_newline : ℕ → Bool
is_newline c = nat_eq c 10

lstrip : String → String
unfolding is_space
lstrip String.[] = ""
lstrip (String.◌∷◌ c s) = let rest = lstrip s in if is_space (code c) then rest else cons_char c s

rstrip : (ℕ → Bool) → String → String
rstrip drops String.[] = ""
rstrip drops (String.◌∷◌ c s) =
    let rest = rstrip drops s in if empty rest && drops (code c) then "" else cons_char c rest

unfoldable pub strip : String → String
unfolding lstrip rstrip is_space
strip s = rstrip is_space (lstrip s)

-- `raw.rstrip("\n")`
unfoldable pub chomp : String → String
unfolding rstrip is_newline
chomp s = rstrip is_newline s

-- A frame: the name of its event, and its data.
pub record Frame : Type 0 where
  pub event_name : String
  pub text : String

-- What one line is to the loop.
pub data Read : Type 0 where
  event_line : String → Read
  data_line : String → Read
  blank_line other_line : Read

abbrev by_data : Option String → String → Read
by_data (some value) line = data_line value
by_data none line = if empty line then blank_line else other_line

abbrev by_event : Option String → Option String → String → Read
by_event (some value) d line = event_line value
by_event none d line = by_data d line

abbrev stripped : Option String → Option String
unfolding strip
stripped none = none
stripped (some s) = some (strip s)

unfoldable pub read_line : String → Read
unfolding strip_prefix strip
read_line line =
    by_event (stripped (strip_prefix "event:" line)) (stripped (strip_prefix "data:" line)) line

-- `event_name` and `data_lines`
pub record Reader : Type 0 where
  pub event_name : String
  pub data_lines : List String

abbrev pub at_start : Reader
at_start = record { event_name = ""; data_lines = [] }

-- One line: what the loop keeps, and the frame that the line completes.
abbrev pub read_one : Read → Reader → Reader × List Frame
read_one (event_line value) r = (record r { event_name = value }, [])
read_one (data_line value) r = (record r { data_lines = r.data_lines ++ value ∷ [] }, [])
read_one blank_line r = complete r.event_name r.data_lines
  where
    complete : String → List String → Reader × List Frame
    complete name [] = (record { event_name = name; data_lines = [] }, [])
    complete name (l ∷ ls) =
        (at_start, record { event_name = name; text = joined "\n" (l ∷ ls) } ∷ [])
read_one other_line r = (r, [])

-- The loop.
unfoldable pub frames : Reader → List String → List Frame
unfolding read_line chomp
frames r [] = []
frames r (raw ∷ rest) =
    let (next, out) = read_one (read_line (chomp raw)) r in out ++ frames next rest

frames_test :
    frames at_start ("event: delta" ∷ "data: {\"a\":" ∷ "data: 1}\n" ∷ ": beat" ∷ "" ∷ "" ∷ [])
    ≡ record { event_name = "delta"; text = "{\"a\":\n1}" } ∷ []
unfolding frames read_line chomp strip
frames_test = refl
