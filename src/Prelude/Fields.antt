-- ===== src/Prelude/Fields.antt =====
-- Fields in a row, each of at most 255 bytes, with their lengths in a row ahead of them.
use Prim.Native.Nat.{ℕ, suc, ◌<◌}
use mathlib.Core.Path.{◌≡◌, refl, ap, ◌∙◌}
use mathlib.Core.List.{List, [], ◌∷◌, ◌++◌}
use native.Mathlib.Omega.{arith}
use soteria_tacacs.Prelude.Bits.{u8}
use soteria_tacacs.Prelude.Lists.{length, take, drop, take-length, drop-length, length-append, sum}

abbrev pub lengths : List (List ℕ) → List ℕ
lengths [] = []
lengths (a ∷ args) = u8 (length a) ∷ lengths args

abbrev pub flat : List (List ℕ) → List ℕ
flat [] = []
flat (a ∷ args) = a ++ flat args

abbrev pub Shorts : List (List ℕ) → Type 0
Shorts [] = Unit
Shorts (a ∷ args) = (length a < 256) × Shorts args

pub length-lengths : (args : List (List ℕ)) → length (lengths args) ≡ length args
length-lengths [] = refl
length-lengths (a ∷ args) = ap suc (length-lengths args)

-- A field of known length, its length kept in a byte.
module _ (a rest : List ℕ) (n : ℕ) (fits : length a < 256) (e : n ≡ length a) where
  pub take_field : take (u8 n) (a ++ rest) ≡ a
  take_field = ap (λ k. take k (a ++ rest)) {y = length a} (omega arith) ∙ take-length a rest

  pub drop_field : drop (u8 n) (a ++ rest) ≡ rest
  drop_field = ap (λ k. drop k (a ++ rest)) {y = length a} (omega arith) ∙ drop-length a rest

pub sum-lengths : (args : List (List ℕ)) → Shorts args → sum (lengths args) ≡ length (flat args)
sum-lengths [] h = refl
sum-lengths (a ∷ args) h = omega (arith, length-append a (flat args), sum-lengths args h.1, h.0)
