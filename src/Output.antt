-- ===== src/Output.antt =====
-- The output side of a connection in tacacs/binaries/tac_plus-ng/packet.c: `write_packet`,
-- `delay_packet` and `write_delayed_packet`.
pub mod Queue
use soteria_tacacs.Prelude.{
  ℕ, ◌+◌, ◌-◌, Bool, true, false, not, Option, none, some, List, [], ◌∷◌, ◌++◌, bit_or, ltb, leb,
  if◌then◌else◌,
}
use soteria_tacacs.Protocol.{Pak}
use soteria_tacacs.Obfuscate.{md5_xor}

-- a packet with its `delay_until`
pub record Delayed : Type 0 where
  pub pak : Pak
  pub delay_until : ℕ

-- the fields of `struct context` that the output side has; `delayed` and `out` are its linked
-- lists, and `timer` is the delay of the event that `io_sched_add` has set up
pub record Context : Type 0 where
  pub flags : ℕ
  pub key : Option (List ℕ)
  pub unencrypted : Bool
  pub out : List Pak
  pub delayed : List Delayed
  pub timer : Option ℕ

-- `for (pp = &ctx->delayed; *pp && (*pp)->delay_until < p->delay_until; pp = &(*pp)->next);` and
-- the insertion there
unfoldable pub insert_delayed : Delayed → List Delayed → List Delayed
insert_delayed p [] = p ∷ []
insert_delayed p (q ∷ queue) =
    let rest = insert_delayed p queue in
    if ltb q.delay_until p.delay_until then q ∷ rest else p ∷ q ∷ queue

-- `ctx->delayed == p` after the insertion: no packet is due before `p`
unfoldable pub is_first : Delayed → List Delayed → Bool
is_first p [] = true
is_first p (q ∷ queue) = not (ltb q.delay_until p.delay_until)

unfoldable pub delay_packet : ℕ → Context → Pak → ℕ → Context
unfolding insert_delayed is_first
delay_packet now ctx pak delay =
    let p : Delayed = record { pak = pak; delay_until = now + delay } in
    record ctx {
      delayed = insert_delayed p ctx.delayed;
      timer = if is_first p ctx.delayed then some delay else ctx.timer;
    }

module _ (md5v : List (List ℕ) → List ℕ) where
  -- `if (!ctx->unencrypted_flag && ctx->key)`
  unfoldable pub obfuscated : Bool → Option (List ℕ) → Pak → Pak
  obfuscated true key pak = pak
  obfuscated false none pak = pak
  obfuscated false (some key) pak = md5_xor md5v key pak

  -- what goes out for a packet
  unfoldable pub wire : ℕ → Bool → Option (List ℕ) → Pak → Pak
  unfolding obfuscated
  wire flags unencrypted key p =
      let hdr = p.hdr in
      obfuscated unencrypted key (record p { hdr = record hdr { flags = bit_or hdr.flags flags } })

  -- the packet is appended to `ctx->out`
  unfoldable pub write_packet : Context → Pak → Context
  unfolding wire
  write_packet ctx p = record ctx { out = ctx.out ++ wire ctx.flags ctx.unencrypted ctx.key p ∷ [] }

  -- the `while` loop, with what it has yet to look at
  unfoldable pub release : ℕ → Context → List Delayed → Context
  unfolding write_packet
  release now ctx [] = record ctx { delayed = [] }
  release now ctx (d ∷ queue) =
      let next = release now (write_packet ctx d.pak) queue in
      if leb d.delay_until now then next else record ctx { delayed = d ∷ queue }

  -- the time until the next packet is due
  unfoldable pub next_timer : ℕ → List Delayed → Option ℕ
  next_timer now [] = none
  next_timer now (d ∷ queue) = some (d.delay_until - now)

  unfoldable pub write_delayed_packet : ℕ → Context → Context
  unfolding release next_timer
  write_delayed_packet now ctx =
      let ctx' = release now ctx ctx.delayed in record ctx' { timer = next_timer now ctx'.delayed }
