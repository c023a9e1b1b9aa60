-- ===== src/Plane/Client/Spool.antt =====
-- `_load_spool` and `_save_spool`: the events that were not delivered, on disk.
use axor_wrap.Base.{String, Option, none, some, List, [], ◌∷◌, map, ◌≡◌, refl}
use axor_wrap.Errors.{Result, ok, err, value_error, ◌>>=◌}
use axor_wrap.Plane.Session.State.{Event}
use axor_wrap.Plane.Client.State.{SpoolLine, message, blank, broken, PlaneClient}

unfoldable pub read_lines : List SpoolLine → Result (List Event)
read_lines [] = ok []
read_lines (message e ∷ ls) = do es ← read_lines ls; ok (e ∷ es)
read_lines (blank ∷ ls) = read_lines ls
read_lines (broken ∷ ls) = err value_error

unfoldable pub read_file : Option String → Option (List SpoolLine) → Result (List Event)
unfolding read_lines
read_file (some path) (some ls) = read_lines ls
read_file path file = ok []

unfoldable pub load_spool : PlaneClient → Result (List Event)
unfolding read_file
load_spool c = read_file c.spool_path c.file

abbrev pub written_file :
    Option String → List Event → Option (List SpoolLine) → Option (List SpoolLine)
written_file none events file = file
written_file (some path) [] file = none
written_file (some path) (e ∷ es) file = some (map message (e ∷ es))

unfoldable pub save_spool : List Event → PlaneClient → PlaneClient
save_spool events c = record c { file = written_file c.spool_path events c.file }

read_lines-messages : (es : List Event) → read_lines (map message es) ≡ ok es
unfolding read_lines
read_lines-messages [] = refl
read_lines-messages (e ∷ es) = rw (read_lines-messages es) refl

-- What was saved to a spool is what is loaded from it, in the same order.
pub load_spool-save_spool :
    (c : PlaneClient) (path : String) (es : List Event)
    → c.spool_path ≡ some path
    → load_spool (save_spool es c) ≡ ok es
unfolding load_spool save_spool
load_spool-save_spool c path [] h = rw (h) refl
load_spool-save_spool c path (e ∷ es) h = rw (h) (read_lines-messages (e ∷ es))
