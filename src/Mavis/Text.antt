-- ===== src/Mavis/Text.antt =====
-- The text that `av_array_to_char` of tacacs/binaries/mavis/libmavis.c writes, apart from the limit of
-- its buffer.
use soteria_tacacs.Prelude.{
  ℕ, ◌+◌, ◌-◌, ◌<◌, ◌≡◌, refl, ap, ◌∙◌, false, Bool-cases, inl, inr, Option, none, some, List, [],
  ◌∷◌, ◌++◌, leb, length, length-append, arith,
}
use soteria_tacacs.Mavis.{Str, av_line, put_line, av_lines, av_array_to_char}

-- the text without the limit of a buffer
abbrev pub text : ℕ → List (Option Str) → Str
text i [] = []
text i (none ∷ arr) = text (i + 1) arr
text i (some u ∷ arr) = av_line i u ++ text (i + 1) arr

pub put_line-some :
    (line : Str) (o : Option Str) (s : Str)
    → put_line line o ≡ some s
    → (t : Str) × (o ≡ some t) × (s ≡ line ++ t)
unfolding put_line
put_line-some line none s h = absurd (ground arith)
put_line-some line (some t) s h = (t, refl, ground arith)

pub av_lines-text :
    (i room : ℕ) (arr : List (Option Str)) (s : Str) → av_lines i room arr ≡ some s → s ≡ text i arr
unfolding av_lines
av_lines-text i room [] s h = ground arith
av_lines-text i room (none ∷ arr) s h = av_lines-text (i + 1) room arr s h
av_lines-text i room (some u ∷ arr) s h =
    let line = av_line i u in
    elim (Bool-cases (leb room (length line))) [
      | inl full ↦ let bad : none ≡ some s = rw full at h in absurd (ground arith)
      | inr fits ↦
          let h' = rw fits at h in
          let (t, e, q) = put_line-some line (av_lines (i + 1) (room - length line) arr) s h' in
          q ∙ ap (◌++◌ line) (av_lines-text (i + 1) (room - length line) arr t e)
    ]

pub av_lines-fits :
    (i room : ℕ) (arr : List (Option Str))
    → length (text i arr) < room
    → av_lines i room arr ≡ some (text i arr)
unfolding av_lines put_line
av_lines-fits i room [] h = refl
av_lines-fits i room (none ∷ arr) h = av_lines-fits (i + 1) room arr h
av_lines-fits i room (some u ∷ arr) h =
    let line = av_line i u in
    let size = length-append line (text (i + 1) arr) in
    let fits : leb room (length line) ≡ false = ground (arith, size) in
    rw (fits, av_lines-fits (i + 1) (room - length line) arr (omega (arith, size, h))) refl

-- A buffer that is longer than the text of an array is enough for it.
pub av_array_to_char-fits :
    (arr : List (Option Str)) (buflen : ℕ)
    → length (text 0 arr) < buflen
    → av_array_to_char buflen arr ≡ some (text 0 arr)
unfolding av_array_to_char
av_array_to_char-fits arr buflen h = av_lines-fits 0 buflen arr h
