-- ===== src/Tests/Texts.antt =====
-- Runs and witnesses for base64 (tacacs/binaries/misc/base64.c).
use soteria_tacacs.Prelude.{codes, ◌+◌, ◌<◌, ◌≡◌, refl, some, [], ◌∷◌, ◌++◌, arith, length}
use soteria_tacacs.Base64.{base64enc_loop, base64enc, dec_loop, base64dec}
use soteria_tacacs.Base64.RoundTrip.{surplus, base64dec-base64enc, base64enc-overruns}

-- the examples of RFC 4648
fo : base64enc_loop (codes "fo") ≡ codes "Zm8="
unfolding base64enc_loop
fo = refl

foobar : base64enc_loop (codes "foobar") ≡ codes "Zm9vYmFy"
unfolding base64enc_loop
foobar = refl

-- a byte too many
fo_back : base64dec (codes "Zm8=") 4 [] ≡ some (codes "fo" ++ 0 ∷ [])
unfolding base64dec dec_loop
fo_back = refl

base64dec-base64enc_example :
    (base64enc (codes "fo") 5 ≡ some (base64enc_loop (codes "fo")))
    × (base64dec (base64enc_loop (codes "fo")) 4 [] ≡ some (codes "fo" ++ surplus (codes "fo")))
unfolding base64enc_loop
base64dec-base64enc_example =
    base64dec-base64enc (codes "fo") [] 5 4 (omega arith, (omega arith, tt)) (omega arith)
      (omega arith)

base64enc-overruns_example :
    (base64enc (codes "f") 3 ≡ some (base64enc_loop (codes "f")))
    × (3 < length (base64enc_loop (codes "f")) + 1)
base64enc-overruns_example = base64enc-overruns (codes "f") (λ h. absurd (omega arith))
