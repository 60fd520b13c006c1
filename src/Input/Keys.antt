-- ===== src/Input/Keys.antt =====
-- The loop over the keys of `tac_read`, against its description: the first key under which the
-- packet passes its check, or the last.
use soteria_tacacs.Prelude.{
  ℕ, ◌≡◌, refl, sym, ap, ◌∙◌, true, false, Bool-cases, inl, inr, List, [], ◌∷◌, ◌++◌, if◌then◌else◌,
  length,
}
use soteria_tacacs.Protocol.{Pak}
use soteria_tacacs.Obfuscate.{md5_xor}
use soteria_tacacs.Obfuscate.Laws.{md5_xor_cancel}
use soteria_tacacs.Input.{Opened, looks_bogus, try_keys, open_pak}

module _ (md5v : List (List ℕ) → List ℕ)
    (digest_size : (bs : List (List ℕ)) → length (md5v bs) ≡ 16) (bugs : ℕ) where
  -- the keys from the first one on that opens the packet, or the last one
  abbrev pub fitting : List ℕ → List (List ℕ) → Pak → List (List ℕ)
  fitting key [] pak = key ∷ []
  fitting key (next ∷ more) pak =
      let rest = fitting next more pak in
      if looks_bogus bugs (md5_xor md5v key pak) then rest else key ∷ next ∷ more

  -- the packet as it was received, under the first of some keys
  abbrev pub opened_by : List (List ℕ) → Pak → Opened
  opened_by [] pak = record { pak = pak; bogus = looks_bogus bugs pak; keys = [] }
  opened_by (key ∷ more) pak = record {
    pak = md5_xor md5v key pak;
    bogus = looks_bogus bugs (md5_xor md5v key pak);
    keys = key ∷ more;
  }

  -- With digests of 16 bytes and no key fixed, the loop ends at the first key under which the received packet
  -- passes the check of its type, or at the last key, and leaves the received packet opened with
  -- that key alone: no earlier try shows.
  pub try_keys_lem :
      (key : List ℕ) (more : List (List ℕ)) (pak : Pak)
      → try_keys md5v bugs false key more pak ≡ opened_by (fitting key more pak) pak
  unfolding try_keys
  try_keys_lem key [] pak = refl
  try_keys_lem key (next ∷ more) pak = elim (Bool-cases (looks_bogus bugs (md5_xor md5v key pak))) [
    | inl bad ↦ rw (bad, md5_xor_cancel md5v digest_size key pak) (try_keys_lem next more pak)
    | inr good ↦ rw good (
        ap (λ b. record { pak = md5_xor md5v key pak; bogus = b; keys = key ∷ next ∷ more })
          (sym good))
  ]

  -- none of some keys fits a packet
  abbrev pub Misfits : List (List ℕ) → Pak → Type 0
  Misfits [] pak = Unit
  Misfits (key ∷ keys) pak = (looks_bogus bugs (md5_xor md5v key pak) ≡ true) × Misfits keys pak

  fitting-Misfits :
      (first : List ℕ) (before more : List (List ℕ)) (key : List ℕ) (pak : Pak)
      → Misfits (first ∷ before) pak
      → looks_bogus bugs (md5_xor md5v key pak) ≡ false
      → fitting first (before ++ key ∷ more) pak ≡ key ∷ more
  fitting-Misfits first [] [] key pak m good = rw m.0 refl
  fitting-Misfits first [] (next ∷ more) key pak m good = rw (m.0, good) refl
  fitting-Misfits first (next ∷ before) more key pak m good =
      rw m.0 (fitting-Misfits next before more key pak m.1 good)

  fitting-good :
      (key : List ℕ) (more : List (List ℕ)) (pak : Pak)
      → looks_bogus bugs (md5_xor md5v key pak) ≡ false
      → fitting key more pak ≡ key ∷ more
  fitting-good key [] pak good = refl
  fitting-good key (next ∷ more) pak good = rw good refl

  opened_by-md5_xor :
      (key : List ℕ) (more : List (List ℕ)) (pak : Pak)
      → looks_bogus bugs pak ≡ false
      → opened_by (key ∷ more) (md5_xor md5v key pak)
        ≡ record { pak = pak; bogus = false; keys = key ∷ more }
  opened_by-md5_xor key more pak good = rw (md5_xor_cancel md5v digest_size key pak, good) refl

  -- With digests of 16 bytes and no key fixed, a packet that a device obfuscates with one of the
  -- keys opens as it was, with that key, when it passes its check and no key ahead of the device's
  -- makes it look right.
  pub open_pak-md5_xor :
      (before more : List (List ℕ)) (key : List ℕ) (pak : Pak)
      → Misfits before (md5_xor md5v key pak)
      → looks_bogus bugs pak ≡ false
      → open_pak md5v bugs false false (before ++ key ∷ more) (md5_xor md5v key pak)
        ≡ record { pak = pak; bogus = false; keys = key ∷ more }
  unfolding open_pak
  open_pak-md5_xor [] more key pak m good =
      let sent = md5_xor md5v key pak in
      let fits : looks_bogus bugs (md5_xor md5v key sent) ≡ false =
        rw (md5_xor_cancel md5v digest_size key pak) good in
      try_keys_lem key more sent
      ∙ ap (λ keys. opened_by keys sent) (fitting-good key more sent fits)
      ∙ opened_by-md5_xor key more pak good
  open_pak-md5_xor (first ∷ before) more key pak m good =
      let sent = md5_xor md5v key pak in
      let fits : looks_bogus bugs (md5_xor md5v key sent) ≡ false =
        rw (md5_xor_cancel md5v digest_size key pak) good in
      try_keys_lem first (before ++ key ∷ more) sent
      ∙ ap (λ keys. opened_by keys sent) (fitting-Misfits first before more key sent m fits)
      ∙ opened_by-md5_xor key more pak good
