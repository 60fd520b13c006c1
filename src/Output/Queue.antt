-- ===== src/Output/Queue.antt =====
-- The queue of delayed packets: it stays sorted by the time at which a packet is due, keeps every
-- packet, and gives out exactly those that are due.
use mathlib.Core.List.{Perm, perm-cons, map}
use mathlib.Core.List.Perm
use soteria_tacacs.Prelude.{
  ℕ, ◌+◌, ◌≤◌, ◌<◌, ◌≡◌, refl, sym, ap, ◌∙◌, false, Bool-cases, inl, inr, List, [], ◌∷◌, ◌++◌,
  append_assoc, append-nil, arith, ltb, leb, if◌then◌else◌,
}
use soteria_tacacs.Protocol.{Pak}
use soteria_tacacs.Output.{
  Delayed, Context, insert_delayed, delay_packet, wire, write_packet, release, write_delayed_packet,
}

abbrev pub DueBefore : ℕ → List Delayed → Type 0
DueBefore t [] = Unit
DueBefore t (d ∷ queue) = t ≤ d.delay_until

-- sorted by the time at which the packets are due
abbrev pub IsSorted : List Delayed → Type 0
IsSorted [] = Unit
IsSorted (d ∷ queue) = DueBefore d.delay_until queue × IsSorted queue

DueBefore-insert :
    (t : ℕ) (p : Delayed) (queue : List Delayed)
    → t ≤ p.delay_until
    → DueBefore t queue
    → DueBefore t (insert_delayed p queue)
unfolding insert_delayed
DueBefore-insert t p [] h s = h
DueBefore-insert t p (q ∷ queue) h s = ground arith

pub insert_delayed-IsSorted :
    (p : Delayed) (queue : List Delayed) → IsSorted queue → IsSorted (insert_delayed p queue)
unfolding insert_delayed
insert_delayed-IsSorted p [] s = (tt, tt)
insert_delayed-IsSorted p (q ∷ queue) s = elim (Bool-cases (ltb q.delay_until p.delay_until)) [
  | inl before ↦ rw before (
    DueBefore-insert q.delay_until p queue (ground arith) s.0,
    insert_delayed-IsSorted p queue s.1,
  )
  | inr here ↦ rw here (ground arith, s)
]

pub insert_delayed-perm :
    (p : Delayed) (queue : List Delayed) → Perm (insert_delayed p queue) (p ∷ queue)
unfolding insert_delayed
insert_delayed-perm p [] = Perm.refl (p ∷ [])
insert_delayed-perm p (q ∷ queue) = elim (Bool-cases (ltb q.delay_until p.delay_until)) [
  | inl before ↦
      rw before (Perm.trans ((perm-cons q).1 (insert_delayed-perm p queue)) (Perm.swap p q queue))
  | inr here ↦ rw here (Perm.refl (p ∷ q ∷ queue))
]

-- `delay_packet` keeps the queue sorted, and adds the packet with the time at which it is due.
pub delay_packet_lem :
    (now : ℕ) (ctx : Context) (pak : Pak) (delay : ℕ)
    → IsSorted ctx.delayed
    → IsSorted (delay_packet now ctx pak delay).delayed
      × Perm
          (delay_packet now ctx pak delay).delayed
          (record { pak = pak; delay_until = now + delay } ∷ ctx.delayed)
unfolding delay_packet
delay_packet_lem now ctx pak delay s =
    let p : Delayed = record { pak = pak; delay_until = now + delay } in
    (insert_delayed-IsSorted p ctx.delayed s, insert_delayed-perm p ctx.delayed)

-- the packets of a queue that are due, and the others
abbrev pub due : ℕ → List Delayed → List Pak
due now [] = []
due now (d ∷ queue) =
    let rest = due now queue in if leb d.delay_until now then d.pak ∷ rest else rest

abbrev pub later : ℕ → List Delayed → List Delayed
later now [] = []
later now (d ∷ queue) =
    let rest = later now queue in if leb d.delay_until now then rest else d ∷ rest

none_due :
    (now t : ℕ) (queue : List Delayed)
    → now < t
    → DueBefore t queue
    → IsSorted queue
    → (due now queue ≡ []) × (later now queue ≡ queue)
none_due now t [] h b s = (refl, refl)
none_due now t (d ∷ queue) h b s =
    let rest = none_due now d.delay_until queue (omega arith) s.0 s.1 in
    let e : leb d.delay_until now ≡ false = ground arith in (rw e rest.0, rw e (ap (◌∷◌ d) rest.1))

module _ (md5v : List (List ℕ) → List ℕ) where
  abbrev pub wire_of : Context → Pak → Pak
  wire_of ctx = wire md5v ctx.flags ctx.unencrypted ctx.key

  release_lem :
      (now : ℕ) (queue : List Delayed) (ctx : Context)
      → IsSorted queue
      → release md5v now ctx queue ≡ record ctx {
        out = ctx.out ++ map (wire_of ctx) (due now queue);
        delayed = later now queue;
      }
  unfolding release
  release_lem now [] ctx s =
      ap (λ out. record ctx { out = out; delayed = [] }) (sym (append-nil ctx.out))
  release_lem now (d ∷ queue) ctx s = elim (Bool-cases (leb d.delay_until now)) [
    | inl ready ↦
        let sent = map (wire_of ctx) (due now queue) in
        rw ready (
          release_lem now queue (write_packet md5v ctx d.pak) s.1
          ∙ ap (λ out. record ctx { out = out; delayed = later now queue })
              (append_assoc ctx.out (wire_of ctx d.pak ∷ []) sent))
    | inr wait ↦
        let (no_more, all) = none_due now d.delay_until queue (ground arith) s.0 s.1 in
        rw (wait, no_more, all)
          (ap (λ out. record ctx { out = out; delayed = d ∷ queue }) (sym (append-nil ctx.out)))
  ]

  later-IsSorted : (now : ℕ) (queue : List Delayed) → IsSorted queue → IsSorted (later now queue)
  later-IsSorted now [] s = tt
  later-IsSorted now (d ∷ queue) s = elim (Bool-cases (leb d.delay_until now)) [
    | inl ready ↦ rw ready (later-IsSorted now queue s.1)
    | inr wait ↦
        let (_, all) = none_due now d.delay_until queue (ground arith) s.0 s.1 in rw (wait, all) s
  ]

  -- On a sorted queue `write_delayed_packet` writes every packet that is due, in the queue's order
  -- and behind what is already there; the others stay, sorted.
  pub write_delayed_packet_lem :
      (now : ℕ) (ctx : Context)
      → IsSorted ctx.delayed
      → let c = write_delayed_packet md5v now ctx in
        (c.out ≡ ctx.out ++ map (wire_of ctx) (due now ctx.delayed))
        × (c.delayed ≡ later now ctx.delayed)
        × IsSorted c.delayed
  unfolding write_delayed_packet
  write_delayed_packet_lem now ctx s =
      let e = release_lem now ctx.delayed ctx s in
      rw e (refl, refl, later-IsSorted now ctx.delayed s)
