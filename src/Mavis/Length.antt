-- ===== src/Mavis/Length.antt =====
-- The room that `av_array_to_char_len` of tacacs/binaries/mavis/libmavis.c reserves for the text of an
-- array, and whether `av_array_to_char` can do with it.
use mathlib.Core.List.{map}
use soteria_tacacs.Prelude.{
  ℕ, suc, ◌+◌, ◌-◌, ◌≤◌, ◌<◌, ◌≡◌, refl, sym, ap, ◌∙◌, ◌↔◌, ◌⊎◌, inl, inr, true, false, ◌||◌,
  Option, none, some, List, [], ◌∷◌, ◌++◌, append_assoc, arith, ltb, leb, ◌==◌, if◌then◌else◌,
  Bool-cases, length, length-append,
}
use soteria_tacacs.Mavis.{
  Str, print_number, hide_newline, av_line, put_line, av_lines, av_array_to_char, av_count,
  av_array_to_char_len,
}
use soteria_tacacs.Mavis.Text.{text, av_lines-fits}

-- The line of an attribute has a digit more from ten on.
length-hide : (s : Str) → length (map hide_newline s) ≡ length s
length-hide [] = refl
length-hide (c ∷ s) = ap suc (length-hide s)

length-av_line : (i : ℕ) (u : Str) → length (av_line i u) ≡ length (print_number i) + length u + 2
unfolding av_line
length-av_line i u = omega (
  arith,
  length-append (map hide_newline (print_number i ++ b' ' ∷ u)) (10 ∷ []),
  length-hide (print_number i ++ b' ' ∷ u),
  length-append (print_number i) (b' ' ∷ u),
)

short_line : (i : ℕ) (u : Str) → i < 10 → length (av_line i u) ≡ length u + 3
unfolding print_number
short_line i u h = ground (arith, length-av_line i u)

long_line : (i : ℕ) (u : Str) → 10 ≤ i → length (av_line i u) ≡ length u + 4
unfolding print_number
long_line i u h = ground (arith, length-av_line i u)

line_most : (i : ℕ) (u : Str) → length (av_line i u) ≤ length u + 4
unfolding print_number
line_most i u = ground (arith, length-av_line i u)

-- What an entry adds to the count.
abbrev count : ℕ → Str → ℕ
count j u = j + (3 + (if ltb 9 j then 1 else 0)) + length u

count_step_small : (j : ℕ) (u : Str) → j ≤ 9 → count j u ≡ j + 3 + length u
count_step_small j u h = let e : ltb 9 j ≡ false = ground arith in rw e (omega arith)

count_step_large : (j : ℕ) (u : Str) → 9 < j → count j u ≡ j + 4 + length u
count_step_large j u h = let e : ltb 9 j ≡ true = ground arith in rw e (omega arith)

count_step_least : (j : ℕ) (u : Str) → j + 3 + length u ≤ count j u
count_step_least j u = omega arith

count_step_most : (j : ℕ) (u : Str) → count j u ≤ j + 4 + length u
count_step_most j u = elim (Bool-cases (ltb 9 j)) [
  | inl large ↦ rw large (omega arith)
  | inr small ↦ rw small (omega arith)
]

text-append :
    (i : ℕ) (xs ys : List (Option Str)) → text i (xs ++ ys) ≡ text i xs ++ text (i + length xs) ys
text-append i [] ys = let n : i ≡ i + 0 = omega arith in ap (λ n. text n ys) n
text-append i (none ∷ xs) ys =
    let n : i + 1 + length xs ≡ i + suc (length xs) = omega arith in
    text-append (i + 1) xs ys ∙ ap (λ n. text (i + 1) xs ++ text n ys) n
text-append i (some u ∷ xs) ys =
    let n : i + 1 + length xs ≡ i + suc (length xs) = omega arith in
    ap (◌++◌ (av_line i u)) (text-append (i + 1) xs ys ∙ ap (λ n. text (i + 1) xs ++ text n ys) n)
    ∙ sym (append_assoc (av_line i u) (text (i + 1) xs) (text (i + suc (length xs)) ys))

av_count-append :
    (j : ℕ) (xs ys : List (Option Str)) → av_count j (xs ++ ys) ≡ av_count (av_count j xs) ys
unfolding av_count
av_count-append j [] ys = refl
av_count-append j (none ∷ xs) ys = av_count-append j xs ys
av_count-append j (some u ∷ xs) ys = av_count-append (count j u) xs ys

length-text-some :
    (i : ℕ) (u : Str) (arr : List (Option Str))
    → length (text i (some u ∷ arr)) ≡ length (av_line i u) + length (text (i + 1) arr)
length-text-some i u arr = length-append (av_line i u) (text (i + 1) arr)

-- Before the tenth attribute the count does not fall short, and from nine bytes on it never does.
count_low :
    (i j : ℕ) (arr : List (Option Str))
    → i + length arr ≤ 10
    → j + length (text i arr) ≤ av_count j arr
unfolding av_count
count_low i j [] h = omega arith
count_low i j (none ∷ arr) h = count_low (i + 1) j arr (omega arith)
count_low i j (some u ∷ arr) h =
    let rest = count_low (i + 1) (count j u) arr (omega arith) in
    let line = short_line i u (omega arith) in
    omega (arith, rest, length-text-some i u arr, line, count_step_least j u)

count_large : (i j : ℕ) (arr : List (Option Str)) → 9 < j → j + length (text i arr) ≤ av_count j arr
unfolding av_count
count_large i j [] h = omega arith
count_large i j (none ∷ arr) h = count_large (i + 1) j arr h
count_large i j (some u ∷ arr) h =
    let step = count_step_large j u h in
    let rest = count_large (i + 1) (count j u) arr (omega (arith, step)) in
    omega (arith, rest, length-text-some i u arr, line_most i u, step)

-- A short text is counted exactly as long as the attributes are below ten.
count_exact :
    (i j : ℕ) (arr : List (Option Str))
    → i + length arr ≤ 10
    → j + length (text i arr) ≤ 9
    → av_count j arr ≡ j + length (text i arr)
unfolding av_count
count_exact i j [] h fits = omega arith
count_exact i j (none ∷ arr) h fits = count_exact (i + 1) j arr (omega arith) fits
count_exact i j (some u ∷ arr) h fits =
    let size = length-text-some i u arr in
    let line = short_line i u (omega arith) in
    let step = count_step_small j u (omega (arith, size, line)) in
    let rest =
      count_exact (i + 1) (count j u) arr (omega arith) (omega (arith, size, line, step)) in
    omega (arith, rest, size, line, step)

count_least : (j : ℕ) (arr : List (Option Str)) → j ≤ av_count j arr
unfolding av_count
count_least j [] = omega arith
count_least j (none ∷ arr) = count_least j arr
count_least j (some u ∷ arr) = omega (arith, count_least (count j u) arr, count_step_least j u)

-- From the tenth attribute on the count is never too large, and too small if it starts below ten.
count_high : (i j : ℕ) (arr : List (Option Str)) → 10 ≤ i → av_count j arr ≤ j + length (text i arr)
unfolding av_count
count_high i j [] h = omega arith
count_high i j (none ∷ arr) h = count_high (i + 1) j arr (omega arith)
count_high i j (some u ∷ arr) h =
    let rest = count_high (i + 1) (count j u) arr (omega arith) in
    omega (arith, rest, length-text-some i u arr, long_line i u h, count_step_most j u)

count_short :
    (i j : ℕ) (arr : List (Option Str))
    → 10 ≤ i
    → j ≤ 9
    → 0 < length (text i arr)
    → av_count j arr < j + length (text i arr)
unfolding av_count
count_short i j [] h small some_text = absurd (omega arith)
count_short i j (none ∷ arr) h small some_text =
    count_short (i + 1) j arr (omega arith) small some_text
count_short i j (some u ∷ arr) h small some_text =
    let rest = count_high (i + 1) (count j u) arr (omega arith) in
    omega (arith, rest, length-text-some i u arr, long_line i u h, count_step_small j u small)

av_lines-too_long :
    (i room : ℕ) (arr : List (Option Str))
    → 0 < room
    → room ≤ length (text i arr)
    → av_lines i room arr ≡ none
unfolding av_lines put_line
av_lines-too_long i room [] some_room h = absurd (omega arith)
av_lines-too_long i room (none ∷ arr) some_room h = av_lines-too_long (i + 1) room arr some_room h
av_lines-too_long i room (some u ∷ arr) some_room h =
    let line = av_line i u in
    elim (Bool-cases (leb room (length line))) [
      | inl full ↦ rw full refl
      | inr fits ↦
          let left : length line < room = ground arith in
          let size = length-text-some i u arr in
          let rest =
            av_lines-too_long (i + 1) (room - length line) arr (omega (arith, left))
              (omega (arith, left, size, h)) in
          rw (fits, rest) refl
    ]

length-text-split :
    (xs ys : List (Option Str))
    → length xs ≡ 10
    → length (text 0 (xs ++ ys)) ≡ length (text 0 xs) + length (text 10 ys)
length-text-split xs ys ten =
    let n : 0 + length xs ≡ 10 = omega (arith, ten) in
    ap length (text-append 0 xs ys ∙ ap (λ n. text 0 xs ++ text n ys) n)
    ∙ length-append (text 0 xs) (text 10 ys)

av_lines-enough :
    (xs ys : List (Option Str))
    → length xs ≡ 10
    → length (text 10 ys) ≡ 0 ⊎ 8 < length (text 0 xs)
    → av_lines 0 (av_count 1 (xs ++ ys)) (xs ++ ys) ≡ some (text 0 (xs ++ ys))
av_lines-enough xs ys ten enough =
    let j = av_count 1 xs in
    let low = count_low 0 1 xs (omega (arith, ten)) in
    let room = av_count-append 1 xs ys in
    let size = length-text-split xs ys ten in
    av_lines-fits 0 (av_count 1 (xs ++ ys)) (xs ++ ys) (elim enough [
      | inl nothing ↦ omega (arith, nothing, size, room, low, count_least j ys)
      | inr large ↦ omega (arith, size, room, low, count_large 10 j ys (omega (arith, large, low)))
    ])

av_lines-short :
    (xs ys : List (Option Str))
    → length xs ≡ 10
    → 0 < length (text 10 ys)
    → length (text 0 xs) ≤ 8
    → av_lines 0 (av_count 1 (xs ++ ys)) (xs ++ ys) ≡ none
av_lines-short xs ys ten some_text small =
    let j = av_count 1 xs in
    let room = av_count-append 1 xs ys in
    let exact = count_exact 0 1 xs (omega (arith, ten)) (omega (arith, small)) in
    let short = count_short 10 j ys (omega arith) (omega (arith, exact, small)) some_text in
    av_lines-too_long 0 (av_count 1 (xs ++ ys)) (xs ++ ys)
      (omega (arith, room, exact, count_least j ys))
      (omega (arith, length-text-split xs ys ten, room, exact, short))

-- `av_array_to_char` fails in the room that `av_array_to_char_len` reserves exactly if an attribute from
-- the tenth on is set and the lines of those before it take at most eight bytes.
pub av_array_to_char_len_short_iff :
    (xs ys : List (Option Str))
    → length xs ≡ 10
    → av_array_to_char (av_array_to_char_len (xs ++ ys)) (xs ++ ys) ≡ none
      ↔ (0 < length (text 10 ys)) × (length (text 0 xs) ≤ 8)
unfolding av_array_to_char av_array_to_char_len
av_array_to_char_len_short_iff xs ys ten = (
  λ failed. elim (Bool-cases (length (text 10 ys) == 0 || ltb 8 (length (text 0 xs)))) [
    | inl enough ↦
        let written = av_lines-enough xs ys ten (ground (arith, enough)) in
        let bad : some (text 0 (xs ++ ys)) ≡ none = sym written ∙ failed in
        absurd (ground (arith, bad))
    | inr short ↦ ground (arith, short)
  ],
  λ (some_text, small). av_lines-short xs ys ten some_text small,
)
