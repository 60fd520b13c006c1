-- ===== src/Mavis/RoundTrip.antt =====
-- The text form of the attributes loses nothing: what `av_array_to_char` writes, `av_char_to_array`
-- reads back.
use mathlib.Core.List.{map}
use soteria_tacacs.Prelude.{
  ℕ, zero, suc, ◌+◌, ◌/◌, ◌%◌, ◌≤◌, ◌<◌, ◌≡◌, ◌≢◌, refl, sym, ap, ap₂, ◌∙◌, true, false, Bool-cases,
  inl, inr, Option, none, some, List, [], ◌∷◌, ◌++◌, append_assoc, append-nil, ltb, ◌==◌, length,
  length-append, arith,
}
use soteria_tacacs.Mavis.{
  Str, array_size, av_set, print_number, hide_newline, show_newline, av_line, av_array_to_char,
  is_digit, scan_digits, scan_number, set_scanned, read_line, read_lines, av_char_to_array,
}
use soteria_tacacs.Mavis.Text.{text, av_lines-text}

-- no byte of a string is the given one
abbrev pub Avoids : ℕ → Str → Type 0
Avoids x [] = Unit
Avoids x (c ∷ s) = (c ≢ x) × Avoids x s

-- values without a carriage return
abbrev pub Clean : List (Option Str) → Type 0
Clean [] = Unit
Clean (none ∷ arr) = Clean arr
Clean (some u ∷ arr) = Avoids 13 u × Clean arr

-- an array without values
abbrev pub empty : ℕ → List (Option Str)
empty zero = []
empty (suc n) = none ∷ empty n

shown : (u : Str) → Avoids 13 u → map show_newline (map hide_newline u) ≡ u
shown [] h = refl
shown (c ∷ u) h = ap₂ ◌∷◌ (ground arith) (shown u h.1)

digit_hidden : (d : ℕ) → d < 10 → hide_newline (b'0' + d) ≡ b'0' + d
digit_hidden d h = ground arith

digit_is : (d : ℕ) → d < 10 → is_digit (b'0' + d) ≡ true
digit_is d h = ground arith

scan_number-print_number :
    (i : ℕ) → i < 100 → scan_number (map hide_newline (print_number i)) ≡ some i
unfolding scan_number scan_digits print_number
scan_number-print_number i h = elim (Bool-cases (ltb i 10)) [
  | inl small ↦
      let d : i < 10 = ground arith in
      rw (small, digit_hidden i d, digit_is i d) (ap some (omega arith))
  | inr large ↦
      let d : i / 10 < 10 = omega arith in
      let u : i % 10 < 10 = omega arith in
      rw
        (
          large,
          digit_hidden (i / 10) d,
          digit_hidden (i % 10) u,
          digit_is (i / 10) d,
          digit_is (i % 10) u,
        )
        (ap some (omega arith))
]

number-no_space : (i : ℕ) → i < 100 → Avoids b' ' (map hide_newline (print_number i))
unfolding print_number
number-no_space i h = ground arith

hidden : (s : Str) → Avoids 10 (map hide_newline s)
hidden [] = tt
hidden (c ∷ s) = (ground arith, hidden s)

map-append : (s t : Str) → map hide_newline (s ++ t) ≡ map hide_newline s ++ map hide_newline t
map-append [] t = refl
map-append (c ∷ s) t = ap (◌∷◌ (hide_newline c)) (map-append s t)

-- A line is read to its end.
read_lines-line :
    (arr : List (Option Str)) (line s rest : Str)
    → Avoids 10 s
    → read_lines arr line (s ++ 10 ∷ rest) ≡ read_lines (read_line arr [] (line ++ s)) [] rest
unfolding read_lines
read_lines-line arr line [] rest h =
    ap (λ l. read_lines (read_line arr [] l) [] rest) (sym (append-nil line))
read_lines-line arr line (c ∷ s) rest (no_end, h) =
    let e : (c == 10) ≡ false = ground arith in
    rw e (
      read_lines-line arr (line ++ c ∷ []) s rest h
      ∙ ap (λ l. read_lines (read_line arr [] l) [] rest) (append_assoc line (c ∷ []) s))

-- The number is what stands ahead of the first space.
read_line-name :
    (arr : List (Option Str)) (name s value : Str)
    → Avoids b' ' s
    → read_line arr name (s ++ b' ' ∷ value) ≡ set_scanned arr (scan_number (name ++ s)) value
unfolding read_line
read_line-name arr name [] value h =
    ap (λ n. set_scanned arr (scan_number n) value) (sym (append-nil name))
read_line-name arr name (c ∷ s) value (no_space, h) =
    let e : (c == b' ') ≡ false = ground arith in
    rw e (
      read_line-name arr (name ++ c ∷ []) s value h
      ∙ ap (λ n. set_scanned arr (scan_number n) value) (append_assoc name (c ∷ []) s))

-- One line sets its attribute.
read_lines-av_line :
    (arr : List (Option Str)) (i : ℕ) (u rest : Str)
    → i < 100
    → Avoids 13 u
    → read_lines arr [] (av_line i u ++ rest) ≡ read_lines (av_set arr i (some u)) [] rest
unfolding av_line set_scanned
read_lines-av_line arr i u rest h clean =
    let name = map hide_newline (print_number i) in
    let value = map hide_newline u in
    let hide = map hide_newline (print_number i ++ b' ' ∷ u) in
    ap (read_lines arr []) (append_assoc hide (10 ∷ []) rest)
    ∙ read_lines-line arr [] hide rest (hidden (print_number i ++ b' ' ∷ u))
    ∙ ap (λ l. read_lines (read_line arr [] l) [] rest) (map-append (print_number i) (b' ' ∷ u))
    ∙ ap (λ a. read_lines a [] rest)
        (read_line-name arr [] name value (number-no_space i h)
          ∙ ap (λ n. set_scanned arr n value) (scan_number-print_number i h)
          ∙ ap (λ v. av_set arr i (some v)) (shown u clean))

av_set-end :
    (done left : List (Option Str)) (x v : Option Str)
    → av_set (done ++ x ∷ left) (length done) v ≡ done ++ v ∷ left
unfolding av_set
av_set-end [] left x v = refl
av_set-end (d ∷ done) left x v = ap (◌∷◌ d) (av_set-end done left x v)

-- One entry further.
regroup :
    (done arr : List (Option Str)) (x : Option Str)
    → let done' = done ++ x ∷ [] in
      read_lines (done' ++ empty (length arr)) [] (text (length done') arr) ≡ done' ++ arr
      → read_lines (done ++ x ∷ empty (length arr)) [] (text (length done + 1) arr)
        ≡ done ++ x ∷ arr
regroup done arr x h =
    let next : length done + 1 ≡ length (done ++ x ∷ []) =
      omega (arith, length-append done (x ∷ [])) in
    ap₂ (λ a n. read_lines a [] (text n arr))
      (sym (append_assoc done (x ∷ []) (empty (length arr)))) next
    ∙ h
    ∙ append_assoc done (x ∷ []) arr

read_lines-text :
    (done arr : List (Option Str))
    → length done + length arr ≤ array_size
    → Clean arr
    → read_lines (done ++ empty (length arr)) [] (text (length done) arr) ≡ done ++ arr
unfolding read_lines
read_lines-text done [] h clean = refl
read_lines-text done (none ∷ arr) h clean =
    regroup done arr none (
      read_lines-text (done ++ none ∷ []) arr (omega (arith, length-append done (none ∷ []))) clean)
read_lines-text done (some u ∷ arr) h (u_clean, clean) =
    read_lines-av_line (done ++ none ∷ empty (length arr)) (length done) u
      (text (length done + 1) arr) (omega arith) u_clean
    ∙ ap (λ a. read_lines a [] (text (length done + 1) arr))
        (av_set-end done (empty (length arr)) none (some u))
    ∙ regroup done arr (some u) (
        read_lines-text (done ++ some u ∷ []) arr (omega (arith, length-append done (some u ∷ [])))
          clean)

-- An array of all attributes, whose values have no carriage return, is read back as it was, if its
-- text fits the buffer.
pub av_char_to_array-av_array_to_char :
    (arr : List (Option Str)) (buflen : ℕ) (buffer : Str)
    → length arr ≡ array_size
    → Clean arr
    → av_array_to_char buflen arr ≡ some buffer
    → av_char_to_array (empty array_size) buffer ≡ arr
unfolding av_array_to_char av_char_to_array
av_char_to_array-av_array_to_char arr buflen buffer size clean h =
    ap (read_lines (empty array_size) []) (av_lines-text 0 buflen arr buffer h)
    ∙ ap (λ n. read_lines (empty n) [] (text 0 arr)) (sym size)
    ∙ read_lines-text [] arr (omega arith) clean
