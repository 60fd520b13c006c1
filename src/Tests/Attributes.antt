-- ===== src/Tests/Attributes.antt =====
-- The text form of attributes.
use soteria_tacacs.Prelude.{
  ◌≡◌, refl, Option, none, some, List, [], ◌∷◌, ◌++◌, codes, arith, length, ◌↔◌, ◌<◌, ◌≤◌,
}
use soteria_tacacs.Mavis.{
  Str, av_line, array_size, av_char_to_array, av_array_to_char, av_array_to_char_len,
}
use soteria_tacacs.Mavis.Length.{av_array_to_char_len_short_iff}
use soteria_tacacs.Mavis.RoundTrip.{empty, av_char_to_array-av_array_to_char}
use soteria_tacacs.Mavis.Text.{text, av_array_to_char-fits}

-- attributes 4 and 12, the second with a line break
abbrev attrs : List (Option Str)
attrs =
    none
    ∷ none
    ∷ none
    ∷ none
    ∷ some (codes "joe")
    ∷ none
    ∷ none
    ∷ none
    ∷ none
    ∷ none
    ∷ none
    ∷ none
    ∷ some (97 ∷ 10 ∷ 98 ∷ [])
    ∷ empty 43

abbrev buffer : Str
buffer = codes "4 joe" ++ 10 ∷ (codes "12 a" ++ 13 ∷ (codes "b" ++ 10 ∷ []))

text_of_attrs : text 0 attrs ≡ buffer
unfolding av_line
text_of_attrs = refl

av_char_to_array-av_array_to_char_example :
    av_char_to_array (empty array_size) (text 0 attrs) ≡ attrs
unfolding av_line
av_char_to_array-av_array_to_char_example =
    av_char_to_array-av_array_to_char attrs 100 (text 0 attrs) refl
      (ground arith, (ground arith, tt)) (av_array_to_char-fits attrs 100 (omega arith))

-- attribute 0, the type, and attribute 10, the group: the text is `0 FTP` and `10 5`
abbrev low_attrs : List (Option Str)
low_attrs = some (codes "FTP") ∷ empty 9

abbrev high_attrs : List (Option Str)
high_attrs = some (codes "5") ∷ empty 45

-- One byte is missing.
room_short :
    (av_array_to_char_len (low_attrs ++ high_attrs) ≡ 11)
    × (length (text 0 (low_attrs ++ high_attrs)) ≡ 11)
    × (av_array_to_char 11 (low_attrs ++ high_attrs) ≡ none)
unfolding av_array_to_char_len av_line av_array_to_char
room_short = (refl, refl, refl)

av_array_to_char_len_short_iff_example :
    av_array_to_char (av_array_to_char_len (low_attrs ++ high_attrs)) (low_attrs ++ high_attrs)
      ≡ none
    ↔ (0 < length (text 10 high_attrs)) × (length (text 0 low_attrs) ≤ 8)
av_array_to_char_len_short_iff_example = av_array_to_char_len_short_iff low_attrs high_attrs refl
