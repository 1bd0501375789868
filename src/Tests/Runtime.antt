-- ===== src/Tests/Runtime.antt =====
-- A test of the strings of the status file.
use okmx8mm.Base.{◌≡◌, [], ◌∷◌, ◌++◌, some, map, codes}
use okmx8mm.Runtime.Json.{write_json_string, read_json, shown, read-write_json_string}

read-write_json_string_example :
    read_json (write_json_string (some (9 ∷ 34 ∷ 7 ∷ 92 ∷ codes "error")) ++ (125 ∷ []))
    ≡ some (map shown (9 ∷ 34 ∷ 7 ∷ 92 ∷ codes "error"), 125 ∷ [])
read-write_json_string_example = read-write_json_string (9 ∷ 34 ∷ 7 ∷ 92 ∷ codes "error") (125 ∷ [])
