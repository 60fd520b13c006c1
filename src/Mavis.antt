-- ===== src/Mavis.antt =====
-- The attributes of tacacs/binaries/mavis/libmavis.c: `av_set`, the text form in which
-- `av_array_to_char` and `av_char_to_array` carry them between processes, and the room that
-- `av_array_to_char_len` computes for it. An array is the list of its entries; the set of attributes to
-- which a caller may limit both is not modelled.
pub mod Length
pub mod RoundTrip
pub mod Text
use mathlib.Core.List.{map}
use soteria_tacacs.Prelude.{
  ℕ, zero, suc, ◌+◌, ◌-◌, ◌*◌, ◌/◌, ◌%◌, Bool, true, false, ◌&&◌, Option, none, some, List, [], ◌∷◌,
  ◌++◌, ltb, leb, ◌==◌, if◌then◌else◌, length,
}

abbrev pub Str : Type 0
Str = List ℕ

abbrev pub array_size : ℕ
array_size = 56

-- the entry at an index is replaced; out of bounds nothing changes
unfoldable pub av_set : List (Option Str) → ℕ → Option Str → List (Option Str)
av_set [] i v = []
av_set (x ∷ arr) zero v = v ∷ arr
av_set (x ∷ arr) (suc i) v = x ∷ av_set arr i v

-- `%d` of an attribute's number, which has at most two digits
unfoldable pub print_number : ℕ → Str
print_number i = if ltb i 10 then (b'0' + i) ∷ [] else (b'0' + i / 10) ∷ (b'0' + i % 10) ∷ []

-- `t[k] == '\n'` becomes `'\r'`, and back
abbrev pub hide_newline : ℕ → ℕ
hide_newline c = if c == 10 then 13 else c

abbrev pub show_newline : ℕ → ℕ
show_newline c = if c == 13 then 10 else c

-- the line of an attribute
unfoldable pub av_line : ℕ → Str → Str
unfolding print_number
av_line i u = map hide_newline (print_number i ++ b' ' ∷ u) ++ 10 ∷ []

unfoldable pub put_line : Str → Option Str → Option Str
put_line line none = none
put_line line (some rest) = some (line ++ rest)

-- the loop from an attribute on, with the room that the buffer has left; `none` is -1
unfoldable pub av_lines : ℕ → ℕ → List (Option Str) → Option Str
unfolding put_line
av_lines i room [] = some []
av_lines i room (none ∷ arr) = av_lines (i + 1) room arr
av_lines i room (some u ∷ arr) =
    let line = av_line i u in
    let rest = put_line line (av_lines (i + 1) (room - length line) arr) in
    if leb room (length line) then none else rest

unfoldable pub av_array_to_char : ℕ → List (Option Str) → Option Str
unfolding av_lines
av_array_to_char buflen arr = av_lines 0 buflen arr

-- the room that callers reserve for the text: the loop's count `j` starts with one for the final zero
unfoldable pub av_count : ℕ → List (Option Str) → ℕ
av_count j [] = j
av_count j (none ∷ arr) = av_count j arr
av_count j (some u ∷ arr) = av_count (j + (3 + (if ltb 9 j then 1 else 0)) + length u) arr

unfoldable pub av_array_to_char_len : List (Option Str) → ℕ
unfolding av_count
av_array_to_char_len arr = av_count 1 arr

-- `sscanf` of a number: its leading digits. White space or a plus sign ahead, which no writer puts
-- there, is not modelled; a negative number sets nothing, since it is out of bounds.
abbrev pub is_digit : ℕ → Bool
is_digit c = leb b'0' c && leb c b'9'

unfoldable pub scan_digits : ℕ → Str → ℕ
scan_digits n [] = n
scan_digits n (c ∷ s) =
    let rest = scan_digits (n * 10 + (c - b'0')) s in if is_digit c then rest else n

unfoldable pub scan_number : Str → Option ℕ
unfolding scan_digits
scan_number [] = none
scan_number (c ∷ s) = if is_digit c then some (scan_digits 0 (c ∷ s)) else none

unfoldable pub set_scanned : List (Option Str) → Option ℕ → Str → List (Option Str)
set_scanned arr none value = arr
set_scanned arr (some i) value = av_set arr i (some (map show_newline value))

-- the line is cut at its first space; `name` is what stands ahead so far
unfoldable pub read_line : List (Option Str) → Str → Str → List (Option Str)
unfolding set_scanned scan_number
read_line arr name [] = arr
read_line arr name (c ∷ s) =
    let rest = read_line arr (name ++ c ∷ []) s in
    if c == b' ' then set_scanned arr (scan_number name) s else rest

-- the loop over the lines; `line` is the line so far, and one without an end is dropped
unfoldable pub read_lines : List (Option Str) → Str → Str → List (Option Str)
unfolding read_line
read_lines arr line [] = arr
read_lines arr line (c ∷ s) =
    if c == 10 then read_lines (read_line arr [] line) [] s else read_lines arr (line ++ c ∷ []) s

unfoldable pub av_char_to_array : List (Option Str) → Str → List (Option Str)
unfolding read_lines
av_char_to_array arr buffer = read_lines arr [] buffer
