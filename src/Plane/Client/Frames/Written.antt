-- ===== src/Plane/Client/Frames/Written.antt =====
-- `_consume_sse`: events that a plane writes are read back.
use Prim.Native.Char.{Char, code}
use Prim.Native.String.{char_at}
use text.Mathlib.TextLemmas.{nil-append, cons-append}
use mathlib.Core.List.{append-nil, append_assoc}
use axor_wrap.Base.{
  sym, and-true_left, and-true_right, not, ℕ, String, ◌<>◌, Bool, true, false, ap, ◌∙◌, ◌&&◌, none,
  some, List, [], ◌∷◌, ◌++◌, ◌≡◌, refl, arith, nat_eq,
}
use axor_wrap.Base.Text.{joined, empty, cons_char, strip_prefix}
use axor_wrap.Plane.Client.Frames.{
  is_newline, rstrip, strip, chomp, Frame, read_line, event_line, data_line, at_start, frames,
}

-- A text that stands on a line of its own and begins and ends with no white space.
pub record Plain (s : String) : Type 0 where
  pub stripped : strip s ≡ s
  pub one_line : chomp s ≡ s

abbrev AllPlain : List String → Type 0
AllPlain [] = Unit {0}
AllPlain (s ∷ ss) = Plain s × AllPlain ss

-- No character of the text is dropped at an end.
keeps_all : (ℕ → Bool) → String → Bool
keeps_all drops String.[] = true
keeps_all drops (String.◌∷◌ c s) = not (drops (code c)) && keeps_all drops s

not_dropped : (b d : Bool) → not d ≡ true → (b && d) ≡ false
not_dropped b d h = ground arith

rstrip-cons :
    (drops : ℕ → Bool) (c : Char) (s : String)
    → not (drops (code c)) ≡ true
    → rstrip drops (String.◌∷◌ c s) ≡ cons_char c (rstrip drops s)
unfolding rstrip
rstrip-cons drops c s h = rw (not_dropped (empty (rstrip drops s)) (drops (code c)) h) refl

rstrip-append :
    (drops : ℕ → Bool) (p s : String)
    → keeps_all drops p ≡ true
    → rstrip drops s ≡ s
    → rstrip drops (p <> s) ≡ (p <> s)
unfolding keeps_all
rstrip-append drops String.[] s h k = rw (nil-append s) k
rstrip-append drops (String.◌∷◌ c p) s h k = rw (cons-append c p s) (
    rstrip-cons drops c (p <> s) (and-true_left (not (drops (code c))) (keeps_all drops p) h)
    ∙ ap (cons_char c)
        (rstrip-append drops p s (and-true_right (not (drops (code c))) (keeps_all drops p) h) k))

strip_prefix-append : (p s : String) → strip_prefix p (p <> s) ≡ some s
unfolding strip_prefix
strip_prefix-append String.[] s = ap some (nil-append s)
strip_prefix-append (String.◌∷◌ c p) s =
    rw (cons-append c p s, same (code c)) (strip_prefix-append p s)
  where
    same : (n : ℕ) → nat_eq n n ≡ true
    same n = ground arith

event-read : (s : String) → Plain s → read_line (chomp ("event:" <> s)) ≡ event_line s
unfolding read_line chomp keeps_all
event-read s plain =
    rw
      (
        rstrip-append is_newline "event:" s refl plain.one_line,
        strip_prefix-append "event:" s,
        plain.stripped,
      )
      refl

no_event : (s : String) → strip_prefix "event:" ("data:" <> s) ≡ none
unfolding strip_prefix
no_event s = rw (cons-append (char_at "data:" 0) "ata:" s) refl

data-read : (s : String) → Plain s → read_line (chomp ("data:" <> s)) ≡ data_line s
unfolding read_line chomp keeps_all
data-read s plain =
    rw
      (
        rstrip-append is_newline "data:" s refl plain.one_line,
        no_event s,
        strip_prefix-append "data:" s,
        plain.stripped,
      )
      refl

-- An event as a plane writes it: its name, and the lines of its data.
pub record Message : Type 0 where
  pub event_name : String
  pub first : String
  pub more : List String

abbrev data_lines_of : List String → List String
data_lines_of [] = []
data_lines_of (s ∷ ss) = ("data:" <> s) ∷ data_lines_of ss

abbrev pub lines_of : List Message → List String
lines_of [] = []
lines_of (m ∷ ms) =
    ("event:" <> m.event_name) ∷ (data_lines_of (m.first ∷ m.more) ++ ("" ∷ lines_of ms))

abbrev pub frames_of : List Message → List Frame
frames_of [] = []
frames_of (m ∷ ms) =
    record { event_name = m.event_name; text = joined "\n" (m.first ∷ m.more) } ∷ frames_of ms

abbrev pub AllWritten : List Message → Type 0
AllWritten [] = Unit {0}
AllWritten (m ∷ ms) = Plain m.event_name × AllPlain (m.first ∷ m.more) × AllWritten ms

frames-data :
    (name : String) (parts ss rest : List String)
    → AllPlain ss
    → frames (record { event_name = name; data_lines = parts }) (data_lines_of ss ++ rest)
      ≡ frames (record { event_name = name; data_lines = parts ++ ss }) rest
unfolding frames
frames-data name parts [] rest plain =
    ap (λ x. frames (record { event_name = name; data_lines = x }) rest) (sym (append-nil parts))
frames-data name parts (s ∷ ss) rest (plain, others) = rw (data-read s plain) (
    frames-data name (parts ++ s ∷ []) ss rest others
    ∙ ap (λ x. frames (record { event_name = name; data_lines = x }) rest)
        (append_assoc parts (s ∷ []) ss))

-- The frames that are read from the lines of some events are these events, in order, the data of
-- each joined by line breaks: if no name and no line of data begins or ends with white space.
pub frames-lines_of :
    (ms : List Message) → AllWritten ms → frames at_start (lines_of ms) ≡ frames_of ms
unfolding frames read_line chomp
frames-lines_of [] written = refl
frames-lines_of (m ∷ ms) (name, parts, others) = rw (event-read m.event_name name) (
    frames-data m.event_name [] (m.first ∷ m.more) ("" ∷ lines_of ms) parts
    ∙ ap (λ x. record { event_name = m.event_name; text = joined "\n" (m.first ∷ m.more) } ∷ x)
        (frames-lines_of ms others))
