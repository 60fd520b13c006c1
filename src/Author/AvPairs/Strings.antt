-- ===== src/Author/AvPairs/Strings.antt =====
-- What the lookups of author.c return, and what clearing removes.
use soteria_tacacs.Prelude.{
  ℕ, suc, ◌≤◌, ◌≡◌, ap, ◌∙◌, ◌⊎◌, inr, none, some, List, [], ◌∷◌, ◌++◌, str_eq→eq, arith, refl,
  length,
}
use soteria_tacacs.Author.AvPairs.{
  Str, Attrs, lookup_attrval, clear_attrval, lookup_name, lookup_attr, clear_all, remaining,
  strcspn,
}

-- `a` is one of the attributes.
abbrev pub Holds : Str → Attrs → Type 0
Holds a [] = ⊥
Holds a (none ∷ attrs) = Holds a attrs
Holds a (some x ∷ attrs) = (a ≡ x) ⊎ Holds a attrs

-- `a` is one of the strings.
abbrev pub Has : Str → List Str → Type 0
Has a [] = ⊥
Has a (x ∷ xs) = (a ≡ x) ⊎ Has a xs

pub lookup_attrval-eq : (attrs : Attrs) (na a : Str) → lookup_attrval attrs na ≡ some a → a ≡ na
unfolding lookup_attrval
lookup_attrval-eq [] na a h = cc
lookup_attrval-eq (none ∷ attrs) na a h = lookup_attrval-eq attrs na a h
lookup_attrval-eq (some x ∷ attrs) na a h =
    ground (arith, str_eq→eq na x, lookup_attrval-eq attrs na a)

pub lookup_attrval-Holds :
    (attrs : Attrs) (na a : Str) → lookup_attrval attrs na ≡ some a → Holds a attrs
unfolding lookup_attrval
lookup_attrval-Holds [] na a h = cc
lookup_attrval-Holds (none ∷ attrs) na a h = lookup_attrval-Holds attrs na a h
lookup_attrval-Holds (some x ∷ attrs) na a h = ground (arith, lookup_attrval-Holds attrs na a)

lookup_name-Holds :
    (len : ℕ) (attrs : Attrs) (na a : Str) → lookup_name len attrs na ≡ some a → Holds a attrs
unfolding lookup_name
lookup_name-Holds len [] na a h = cc
lookup_name-Holds len (none ∷ attrs) na a h = lookup_name-Holds len attrs na a h
lookup_name-Holds len (some x ∷ attrs) na a h = ground (arith, lookup_name-Holds len attrs na a)

pub lookup_attr-Holds : (attrs : Attrs) (na a : Str) → lookup_attr attrs na ≡ some a → Holds a attrs
unfolding lookup_attr
lookup_attr-Holds attrs na a h = ground (arith, lookup_name-Holds (strcspn na) attrs na a)

-- Clearing takes away nothing but the string that is cleared, and adds nothing.
Holds-clear_attrval :
    (attrs : Attrs) (na a : Str) → Holds a attrs → (a ≡ na) ⊎ Holds a (clear_attrval attrs na)
unfolding clear_attrval
Holds-clear_attrval [] na a h = absurd h
Holds-clear_attrval (none ∷ attrs) na a h = Holds-clear_attrval attrs na a h
Holds-clear_attrval (some x ∷ attrs) na a h =
    ground (arith, str_eq→eq na x, Holds-clear_attrval attrs na a)

clear_attrval-Holds :
    (attrs : Attrs) (na a : Str) → Holds a (clear_attrval attrs na) → Holds a attrs
unfolding clear_attrval
clear_attrval-Holds [] na a h = h
clear_attrval-Holds (none ∷ attrs) na a h = clear_attrval-Holds attrs na a h
clear_attrval-Holds (some x ∷ attrs) na a h = ground (arith, clear_attrval-Holds attrs na a)

length-clear_attrval : (attrs : Attrs) (na : Str) → length (clear_attrval attrs na) ≡ length attrs
unfolding clear_attrval
length-clear_attrval [] na = refl
length-clear_attrval (none ∷ attrs) na = ap suc (length-clear_attrval attrs na)
length-clear_attrval (some x ∷ attrs) na = ground (arith, length-clear_attrval attrs na)

pub Holds-clear_all :
    (attrs : Attrs) (out : List Str) (a : Str)
    → Holds a attrs
    → Has a out ⊎ Holds a (clear_all attrs out)
unfolding clear_all
Holds-clear_all attrs [] a h = inr h
Holds-clear_all attrs (x ∷ out) a h =
    ground (arith, Holds-clear_attrval attrs x a, Holds-clear_all (clear_attrval attrs x) out a)

pub clear_all-Holds :
    (attrs : Attrs) (out : List Str) (a : Str) → Holds a (clear_all attrs out) → Holds a attrs
unfolding clear_all
clear_all-Holds attrs [] a h = h
clear_all-Holds attrs (x ∷ out) a h =
    clear_attrval-Holds attrs x a (clear_all-Holds (clear_attrval attrs x) out a h)

pub length-clear_all :
    (attrs : Attrs) (out : List Str) → length (clear_all attrs out) ≡ length attrs
unfolding clear_all
length-clear_all attrs [] = refl
length-clear_all attrs (x ∷ out) =
    length-clear_all (clear_attrval attrs x) out ∙ length-clear_attrval attrs x

-- `remaining` lists what is held.
pub Has-remaining : (attrs : Attrs) (a : Str) → Holds a attrs → Has a (remaining attrs)
unfolding remaining
Has-remaining [] a h = h
Has-remaining (none ∷ attrs) a h = Has-remaining attrs a h
Has-remaining (some x ∷ attrs) a h = ground (arith, Has-remaining attrs a)

pub remaining-Holds : (attrs : Attrs) (a : Str) → Has a (remaining attrs) → Holds a attrs
unfolding remaining
remaining-Holds [] a h = h
remaining-Holds (none ∷ attrs) a h = remaining-Holds attrs a h
remaining-Holds (some x ∷ attrs) a h = ground (arith, remaining-Holds attrs a)

pub length-remaining : (attrs : Attrs) → length (remaining attrs) ≤ length attrs
unfolding remaining
length-remaining [] = omega arith
length-remaining (none ∷ attrs) = omega (arith, length-remaining attrs)
length-remaining (some x ∷ attrs) = omega (arith, length-remaining attrs)

pub Has-append_left : (xs ys : List Str) (a : Str) → Has a xs → Has a (xs ++ ys)
Has-append_left [] ys a h = absurd h
Has-append_left (x ∷ xs) ys a h = ground (arith, Has-append_left xs ys a)

pub Has-append_right : (xs ys : List Str) (a : Str) → Has a ys → Has a (xs ++ ys)
Has-append_right [] ys a h = h
Has-append_right (x ∷ xs) ys a h = inr (Has-append_right xs ys a h)

pub append-Has : (xs ys : List Str) (a : Str) → Has a (xs ++ ys) → Has a xs ⊎ Has a ys
append-Has [] ys a h = inr h
append-Has (x ∷ xs) ys a h = ground (arith, append-Has xs ys a)
