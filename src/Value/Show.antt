-- ===== src/Value/Show.antt =====
-- `repr` and `str` of Python values.
use axor_wrap.Base.{String, true, false, ◌<>◌, ◌≡◌, refl, pos}
use axor_wrap.Base.Text
use axor_wrap.Base.Text.{decimal_ℤ}
use axor_wrap.Value.{Value, null, bool, int, str, arr, obj, Items, nil, cons, Fields, end, field}

unfoldable mutual
  unfolding decimal_ℤ Text.repr

  pub repr : Value → String
  repr null = "None"
  repr (bool true) = "True"
  repr (bool false) = "False"
  repr (int n) = decimal_ℤ n
  repr (str s) = Text.repr s
  repr (arr nil) = "[]"
  repr (arr (cons v vs)) = "[" <> (repr v <> repr_items vs)
  repr (obj end) = "{}"
  repr (obj (field k v fs)) = "{" <> (Text.repr k <> (": " <> (repr v <> repr_fields fs)))

  pub repr_items : Items → String
  repr_items nil = "]"
  repr_items (cons v vs) = ", " <> (repr v <> repr_items vs)

  pub repr_fields : Fields → String
  repr_fields end = "}"
  repr_fields (field k v fs) = ", " <> (Text.repr k <> (": " <> (repr v <> repr_fields fs)))

-- `str(v)`
unfoldable pub show : Value → String
unfolding repr
show (str s) = s
show v = repr v

show_test :
    show (arr (cons (str "a") (cons (obj (field "k" (int (pos 12)) end)) nil))) ≡ "['a', {'k': 12}]"
unfolding show
show_test = refl
