-- ===== src/Crawl/Pacer.antt =====
-- `Pacer` of src/source/crawl.rs: start slots per host. Times and durations are milliseconds; `now`
-- is what the clock shows at the call.
use link_r.Prelude.{
  ℕ, ◌+◌, ◌-◌, ◌≤◌, ◌≡◌, ◌≢◌, Bytes, none, some, max, arith, bytes_eq, bytes_beq_iff, ◌==◌, nat_eq,
  if◌then◌else◌, [],
}
use link_r.Prelude.HashMap
use link_r.Prelude.HashMap.{HashMap}

pub record Pacer : Type 0 where
  pub next_free : HashMap Bytes ℕ

unfoldable pub new : Pacer
new = record { next_free = [] }

-- The next slot of a host that is free at a time.
unfoldable pub slot_of : Pacer → Bytes → ℕ → ℕ
slot_of self host now = elim (HashMap.get self.next_free host) [
  | none ↦ now
  | some entry ↦ max entry now
]

-- The new pacer, and how long the worker must sleep.
unfoldable pub reserve : Pacer → Bytes → ℕ → ℕ → Pacer × ℕ
reserve self host interval now = if interval == 0 then (self, 0) else (
  record { next_free = HashMap.insert self.next_free host (slot_of self host now + interval) },
  slot_of self host now - now,
)

module _ (p : Pacer) (host : Bytes) (i now : ℕ) where
  -- Of two reservations in a row for one host, with delays that are not zero, the second starts at
  -- least the first one's interval after it, whatever the clock shows.
  pub reserve_apart :
      (j later : ℕ)
      → i ≢ 0
      → j ≢ 0
      → let (p', first) = reserve p host i now in
        let (p'', second) = reserve p' host j later in (now + first + i ≤ later + second)
  unfolding reserve slot_of
  reserve_apart j later hi hj = ground (
    arith,
    bytes_beq_iff host host,
    HashMap.get-insert p.next_free host host (slot_of p host now + i),
  )

  -- A reservation for one host leaves the slot of any other host alone.
  pub reserve_other :
      (other : Bytes) (later : ℕ)
      → host ≢ other
      → slot_of (reserve p host i now).0 other later ≡ slot_of p other later
  unfolding reserve slot_of
  reserve_other other later ne = ground (
    arith,
    bytes_beq_iff host other,
    HashMap.get-insert p.next_free host other (slot_of p host now + i),
  )
