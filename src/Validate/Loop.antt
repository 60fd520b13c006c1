-- ===== src/Validate/Loop.antt =====
-- The loop over the argument lengths: what it reads, and when it lets a packet through.
use soteria_tacacs.Prelude.{
  ℕ, zero, suc, ◌+◌, ◌≤◌, ◌<◌, ◌≡◌, ap, inl, inr, ◌↔◌, false, List, [], ◌∷◌, sum, take, take-nil,
  drop, refl, ltb, has, arith, Bool-cases,
}
use native.Mathlib.Decide.{dec_lt}
use soteria_tacacs.Protocol.{byte_at}
use soteria_tacacs.Validate.{bug_header_length, Scan, scan_args, scan_looks_bogus}

-- the sum of the lengths of `n` arguments from the `i`-th on
unfoldable pub args_len : List ℕ → ℕ → ℕ → ℕ → ℕ
args_len payload at i zero = 0
args_len payload at i (suc n) = byte_at payload (at + i) + args_len payload at (i + 1) n

sum-take-suc :
    (payload : List ℕ) (q n : ℕ)
    → sum (take (suc n) (drop q payload)) ≡ byte_at payload q + sum (take n (drop (suc q) payload))
sum-take-suc [] zero n = rw (take-nil n)
sum-take-suc [] (suc q) n = rw (take-nil n)
sum-take-suc (x ∷ payload) zero n = refl
sum-take-suc (x ∷ payload) (suc q) n = sum-take-suc payload q n

-- The lengths that the loop adds stand in a row.
pub sum-take-drop :
    (payload : List ℕ) (at i n : ℕ) → sum (take n (drop (at + i) payload)) ≡ args_len payload at i n
unfolding args_len
sum-take-drop payload at i zero = refl
sum-take-drop payload at i (suc n) = omega (
  arith,
  sum-take-suc payload (at + i) n,
  ap (λ q. sum (take n (drop q payload))) {x = suc (at + i)} {y = at + (i + 1)} (omega arith),
  sum-take-drop payload at (i + 1) n,
)

module _ (payload : List ℕ) (at datalength : ℕ) where
  -- The loop stops after `k` arguments, with their lengths added.
  pub record Stops (left i len : ℕ) (scan : Scan) : Type 0 where
    pub steps : ℕ
    pub in_range : steps ≤ left
    pub index_lem : scan.index ≡ i + steps
    pub len_lem : scan.len ≡ len + args_len payload at i steps
    -- it went on only below the data length, and stopped there only at or above it
    pub reached : steps < left → datalength ≤ scan.len
    pub before : (k : ℕ) → k < steps → len + args_len payload at i k < datalength

  Stops-at_once :
      (left i len : ℕ)
      → (0 < left → datalength ≤ len)
      → Stops left i len (record { index = i; len = len })
  unfolding args_len
  Stops-at_once left i len h = record {
    steps = 0;
    in_range = omega arith;
    index_lem = omega arith;
    len_lem = omega arith;
    reached = h;
    before = λ k p. elim p [ ];
  }

  Stops-later :
      (left i len : ℕ) (scan : Scan)
      → len < datalength
      → Stops left (i + 1) (len + byte_at payload (at + i)) scan
      → Stops (suc left) i len scan
  unfolding args_len
  Stops-later left i len scan h s = record {
    steps = suc s.steps;
    in_range = omega arith;
    index_lem = omega arith;
    len_lem = omega arith;
    reached = λ p. s.reached (omega arith);
    before = elim [
      | zero ↦ λ p. omega arith
      | suc k ↦ λ p. omega (arith, s.before k (omega arith))
    ];
  }

  pub scan_args-Stops :
      (left i len : ℕ) → Stops left i len (scan_args payload at datalength left i len)
  unfolding scan_args
  scan_args-Stops zero i len = Stops-at_once zero i len (λ p. elim p [ ])
  scan_args-Stops (suc left) i len = elim (Bool-cases (ltb len datalength)) [
    | inl more ↦ rw more (
        Stops-later left i len _ (ground arith)
          (scan_args-Stops left (i + 1) (len + byte_at payload (at + i))))
    | inr done ↦ rw done (Stops-at_once (suc left) i len (λ p. ground arith))
  ]

  -- what `n` arguments add is no less than what the first `k` of them do
  args_len_mono : (i k n : ℕ) → k ≤ n → args_len payload at i k ≤ args_len payload at i n
  unfolding args_len
  args_len_mono i zero n h = omega arith
  args_len_mono i (suc k) zero h = absurd (omega arith)
  args_len_mono i (suc k) (suc n) h = omega (arith, args_len_mono (i + 1) k n (omega arith))

  -- The first `k` arguments fill the data exactly.
  abbrev pub Fills : ℕ → ℕ → Type 0
  Fills len k = len + args_len payload at 0 k ≡ datalength

  module _ (bug_compatibility cnt len : ℕ) where
    abbrev scan : Scan
    scan = scan_args payload at datalength cnt 0 len

    accepted_strict :
        has bug_compatibility bug_header_length ≡ false
        → Stops cnt 0 len scan
        → scan_looks_bogus bug_compatibility cnt datalength scan ≡ false
        → (k : ℕ) × (k ≤ cnt) × Fills len k
    unfolding scan_looks_bogus
    accepted_strict b s h = (s.steps, s.in_range, ground arith)

    -- The loop stops where the data is filled, if that happens at all.
    filled_at_stop : Stops cnt 0 len scan → (k : ℕ) → k ≤ cnt → Fills len k → scan.len ≡ datalength
    filled_at_stop s k h e = elim (dec_lt k s.steps) [
      | yes early ↦ absurd (omega (arith, s.before k early))
      | no late ↦ elim (dec_lt s.steps cnt) [
        | yes p ↦ omega (arith, s.reached p, args_len_mono 0 s.steps k (omega arith))
        | no p ↦ omega (
          arith,
          args_len_mono 0 s.steps k (omega arith),
          args_len_mono 0 k s.steps (omega arith),
        )
      ]
    ]

    fills_accepted :
        has bug_compatibility bug_header_length ≡ false
        → scan.len ≡ datalength
        → scan_looks_bogus bug_compatibility cnt datalength scan ≡ false
    unfolding scan_looks_bogus
    fills_accepted b e = ground arith

    pub accepted_iff :
        has bug_compatibility bug_header_length ≡ false
        → (scan_looks_bogus bug_compatibility cnt datalength scan ≡ false)
          ↔ ((k : ℕ) × (k ≤ cnt) × Fills len k)
    accepted_iff b =
        let s : Stops cnt 0 len scan = scan_args-Stops cnt 0 len in
        (accepted_strict b s, λ w. fills_accepted b (filled_at_stop s w.0 w.1 w.2))

    -- The loop reads nothing behind the data.
    pub reads_in_data : at + cnt ≤ len → (k : ℕ) → k < scan.index → at + k < datalength
    reads_in_data h k p =
        let s : Stops cnt 0 len scan = scan_args-Stops cnt 0 len in
        omega (arith, s.before k (omega arith))
