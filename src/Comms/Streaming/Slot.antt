-- ===== src/Comms/Streaming/Slot.antt =====
-- Who holds the slot of `DoStreamConfigurations`.
use planning_service.Prelude.{ℕ, ◌≡◌, ◌≢◌, ◌⊎◌, refl, some, arith}
use planning_service.Comms.Streaming.{
  arriving, reading, thrown, Streams, take_slot, cancel_incumbent, leave_slot, throw_out, Step,
  connect, evict, wake, leave, fail, Takeover, time_out, Reached, Calm,
}

-- The handler that the slot names is in its loop, or an exception took it out of there.
abbrev pub IsHeld : Streams → Type 0
IsHeld s = (i : ℕ) → s.slot ≡ some i → (s.phase i ≡ reading) ⊎ (s.phase i ≡ thrown)

-- Every handler that reads holds the slot.
abbrev pub IsExclusive : Streams → Type 0
IsExclusive s = (i : ℕ) → s.phase i ≡ reading → s.slot ≡ some i

Step-IsHeld : {s t : Streams} → Step s t → IsHeld s → IsHeld t
unfolding take_slot cancel_incumbent leave_slot throw_out
Step-IsHeld (connect i p e) h j is = ground (arith, h j)
Step-IsHeld (evict i k p e) h j is = ground (arith, h j)
Step-IsHeld (wake i p e) h j is = ground (arith, h j)
Step-IsHeld (leave i p) h j is = cc
Step-IsHeld (fail i p) h j is = ground (arith, h j)

Takeover-IsHeld : {s t : Streams} → Takeover s t → IsHeld s → IsHeld t
unfolding take_slot
Takeover-IsHeld (time_out i k p e) h j is = ground (arith, h j)

-- In every state that the handlers of streams reach, takeovers and exceptions included, the handler
-- that the slot names is in its loop over Read, or an exception took it out of the loop; no slot names
-- a handler that has not connected, that waits, or that left through its last critical section.
pub Reached-IsHeld : {s : Streams} → Reached s → IsHeld s
Reached-IsHeld Reached.start = λ i e. cc
Reached-IsHeld (Reached.next r step) = Step-IsHeld step (Reached-IsHeld r)
Reached-IsHeld (Reached.forced r step) = Takeover-IsHeld step (Reached-IsHeld r)

Step-IsExclusive : {s t : Streams} → Step s t → IsExclusive s → IsExclusive t
unfolding take_slot cancel_incumbent leave_slot throw_out
Step-IsExclusive (connect i p e) h j is = ground (arith, h j)
Step-IsExclusive (evict i k p e) h j is = ground (arith, h j)
Step-IsExclusive (wake i p e) h j is = ground (arith, h j)
Step-IsExclusive (leave i p) h j is = ground (arith, h j, h i)
Step-IsExclusive (fail i p) h j is = ground (arith, h j)

Calm-IsExclusive : {s : Streams} → Calm s → IsExclusive s
Calm-IsExclusive Calm.start = λ i e. cc
Calm-IsExclusive (Calm.next r step) = Step-IsExclusive step (Calm-IsExclusive r)

-- Where no wait ended by its timeout, no two handlers of streams are in their loops at once, also after
-- exceptions that took handlers out of theirs.
pub calm_streams_alone :
    {s : Streams} → Calm s → (i j : ℕ) → s.phase i ≡ reading → s.phase j ≡ reading → i ≡ j
calm_streams_alone r i j p q =
    let first = Calm-IsExclusive r i p in let second = Calm-IsExclusive r j q in ground arith

-- Where a handler lost the slot to a takeover and it and its successor read, it clears the slot of its successor as
-- it leaves, so a third handler comes to read beside the successor, whose context nobody cancels.
pub evicted_leave_admits_third :
    {s : Streams} (incumbent successor third : ℕ)
    → Reached s
    → s.phase incumbent ≡ reading
    → s.slot ≡ some successor
    → incumbent ≢ successor
    → s.phase successor ≡ reading
    → s.phase third ≡ arriving
    → (t : Streams) × Reached t
      × (t.phase successor ≡ reading)
      × (t.phase third ≡ reading)
      × (t.cancelled successor ≡ s.cancelled successor)
      × (t.slot ≡ some third)
unfolding take_slot leave_slot
evicted_leave_admits_third {s} incumbent successor third r old new other live free = (
  take_slot third (leave_slot incumbent s),
  Reached.next (Reached.next r (leave incumbent old)) (connect third (ground arith) refl),
  ground arith,
  ground arith,
  refl,
  refl,
)
