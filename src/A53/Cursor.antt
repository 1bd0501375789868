-- ===== src/A53/Cursor.antt =====
-- The cursor of the storage of the demo, and how it is written:
-- OKMX8MM-Demo2/a53/src/storage_writer.c. The cursor file keeps the end of the last whole line of
-- the storage, its length and its checksum. Paths are not null here.
pub mod Scan
pub mod RoundTrip
use Prim.Native.Nat.{bit_xor}
use okmx8mm.Base.{ℕ, zero, suc, ◌+◌, ◌-◌, ◌*◌, ◌/◌, ◌%◌, ◌^◌, List, [], ◌∷◌, ◌++◌}
use okmx8mm.Base.{
  Bool, true, false, not, ◌&&◌, ◌||◌, Option, none, some, length, take, drop, get_or,
}
use okmx8mm.Base.{ltb, leb, ◌==◌, ◌/=◌, if◌then◌else◌, ℤ, pos, negsuc, minus, u32, codes, decimal}
use okmx8mm.A53.{Disk, put, Works, ensure_parent_directories}

-- `storage_cursor_info_t`.
pub record Cursor : Type 0 where
  pub file_name : List ℕ
  pub sequence : ℕ
  pub byte_offset : ℕ
  pub line_bytes : ℕ
  pub line_checksum : ℕ

abbrev pub cursor_path_of : List ℕ → List ℕ
cursor_path_of path = path ++ codes ".cursor"

-- `build_cursor_path` with a capacity of 512.
unfoldable pub build_cursor_path : List ℕ → Option (List ℕ)
build_cursor_path path = if leb 512 (length path + 7) then none else some (cursor_path_of path)

unfoldable pub fnv_step : ℕ → ℕ → ℕ
fnv_step hash byte = u32 (bit_xor hash byte * 16777619)

unfoldable pub fnv_loop : ℕ → List ℕ → ℕ
fnv_loop hash [] = hash
fnv_loop hash (byte ∷ rest) = fnv_loop (fnv_step hash byte) rest

unfoldable pub checksum_fnv1a : List ℕ → ℕ
unfolding fnv_loop fnv_step
checksum_fnv1a text = fnv_loop 2166136261 text

-- `strrchr`: what follows the last such byte.
unfoldable pub after_last : ℕ → List ℕ → Option (List ℕ)
after_last c [] = none
after_last c (d ∷ ds) = elim (after_last c ds) [
  | some rest ↦ some rest
  | none ↦ if d == c then some ds else none
]

unfoldable pub base_name : List ℕ → List ℕ
base_name path = elim (after_last 47 path) [
  | some name ↦ name
  | none ↦ elim (after_last 92 path) [ some name ↦ name | none ↦ path ]
]

-- `%08X`.
unfoldable pub hex_digit : ℕ → ℕ
hex_digit d = if ltb d 10 then 48 + d else 55 + d

unfoldable pub print_hex : ℕ → List ℕ
print_hex n =
    hex_digit (n / 0x10000000 % 16)
    ∷ hex_digit (n / 0x1000000 % 16)
    ∷ hex_digit (n / 0x100000 % 16)
    ∷ hex_digit (n / 0x10000 % 16)
    ∷ hex_digit (n / 0x1000 % 16)
    ∷ hex_digit (n / 0x100 % 16)
    ∷ hex_digit (n / 0x10 % 16)
    ∷ hex_digit (n % 16)
    ∷ []

-- The text of the `fprintf` in `write_storage_cursor`. A `long` that is not negative has at most 19
-- digits.
unfoldable pub cursor_text : Cursor → List ℕ
cursor_text cursor =
    codes "file="
    ++ (cursor.file_name
        ++ (codes "\nsequence="
            ++ (decimal 10 cursor.sequence
                ++ (codes "\nbyte_offset="
                    ++ (decimal 19 cursor.byte_offset
                        ++ (codes "\nline_bytes="
                            ++ (decimal 19 cursor.line_bytes
                                ++ (codes "\nline_checksum="
                                    ++ (print_hex cursor.line_checksum ++ codes "\n")))))))))

-- `write_storage_cursor`. A close that fails leaves the first bytes of the text, as many as `reach`
-- says. That the `fprintf` fails and the close succeeds is left out.
unfoldable pub write_storage_cursor :
    (List ℕ → Bool) → Works → ℕ → List ℕ → Cursor → Disk → ℤ × Disk
write_storage_cursor mkdir works reach path cursor disk = elim (build_cursor_path path) [
  | none ↦ (minus 1, disk)
  | some cursor_path ↦
      if not (ensure_parent_directories mkdir cursor_path && works 6)
      then (minus 1, disk)
      else if works 7
      then (pos 0, put disk cursor_path (cursor_text cursor))
      else (minus 1, put disk cursor_path (take reach (cursor_text cursor)))
]
