-- ===== src/Client/Line/Tests.antt =====
-- The line of src/client/ui_client.c at work: a Korean character is typed and taken back as a whole.
use under_flow.Base.{◌≡◌, ◌++◌, refl, List, [], ◌∷◌, arith}
use under_flow.Base.Text.{Text, bytes, utf8}
use under_flow.Client.Line.{backspace, key_code, empty_line, c_string, edit_all}
use under_flow.Client.Line.Bounds.{IsTerminated, empty_line-Holds, edit_all-IsTerminated}
use under_flow.Client.Line.Typing.{
  letter-IsChar, IsChar, Act, put, undo, drop, all_keys, typing_lem,
}

abbrev ga : Text
ga = utf8 "가"

abbrev plan : List Act
plan = put (bytes "x") ∷ drop ∷ put (bytes "a") ∷ put ga ∷ put ga ∷ undo ∷ []

ga-IsChar : IsChar ga
ga-IsChar = record {
  first = 0xea;
  more = 0xb0 ∷ 0x80 ∷ [];
  split = refl;
  starts = refl;
  goes_on = (refl, (refl, tt));
  printable = omega arith;
}

x-IsChar : IsChar (bytes "x")
x-IsChar = letter-IsChar 120 refl (omega arith)

a-IsChar : IsChar (bytes "a")
a-IsChar = letter-IsChar 97 refl (omega arith)

typing_lem_example :
    c_string (edit_all 100 (all_keys plan) empty_line).input ≡ bytes "a" ++ utf8 "가"
typing_lem_example =
    typing_lem 100 plan (x-IsChar, (tt, (a-IsChar, (ga-IsChar, (ga-IsChar, (tt, tt))))))
      (omega arith) (omega arith)

edit_all-IsTerminated_example :
    IsTerminated (edit_all 100 (key_code 0xb0 ∷ backspace ∷ backspace ∷ []) empty_line)
edit_all-IsTerminated_example =
    edit_all-IsTerminated 100 (key_code 0xb0 ∷ backspace ∷ backspace ∷ []) empty_line
      ([], empty_line-Holds)
