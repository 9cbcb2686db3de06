-- ===== src/Comms/Streaming.antt =====
-- planning_service/comms/viz_service.cc, `DoStreamConfigurations`: the handlers of the streams of
-- configurations. `active_streamer_` and `active_streamer_ctx_` are one slot, which names a handler;
-- a peer's name is taken to be not empty. Handlers run on threads of their own, so what one does under
-- the mutex is one step, and the steps of several come in any order.
pub mod Slot
pub mod Packets
use planning_service.Prelude.{ℕ, ◌≡◌, Bool, true, false, Option, none, some}
use planning_service.Prelude.Tasks.{replace}

-- Where a handler stands: before its first critical section, in `wait_for`, in the loop over
-- `Read`, past its last critical section, or left by an exception that came out of the loop.
pub data Phase : Type 0 where
  arriving waiting reading gone thrown : Phase

pub record Streams : Type 0 where
  pub slot : Option ℕ
  pub phase : ℕ → Phase
  -- whether `TryCancel` was called on a handler's context
  pub cancelled : ℕ → Bool

unfoldable pub set_phase : ℕ → Phase → Streams → Streams
set_phase i p s = record s { phase = replace s.phase i p }

-- The slot is taken, and the lock is given up.
unfoldable pub take_slot : ℕ → Streams → Streams
unfolding set_phase
take_slot i s = set_phase i reading (record s { slot = some i })

-- The incumbent is cancelled, and the newcomer waits on the condition variable.
unfoldable pub cancel_incumbent : ℕ → ℕ → Streams → Streams
unfolding set_phase
cancel_incumbent i incumbent s =
    set_phase i waiting (record s { cancelled = replace s.cancelled incumbent true })

-- The last critical section of a handler: whoever holds the slot, it is cleared.
unfoldable pub leave_slot : ℕ → Streams → Streams
unfolding set_phase
leave_slot i s = set_phase i gone (record s { slot = none })

-- `DoSetConfiguration` throws, which nothing catches: the last critical section is skipped.
unfoldable pub throw_out : ℕ → Streams → Streams
unfolding set_phase
throw_out i s = set_phase i thrown s

-- The steps in which no wait ends by its timeout.
pub data Step (s : Streams) : Streams → Type 0 where
  connect : (i : ℕ) → s.phase i ≡ arriving → s.slot ≡ none → Step s (take_slot i s)
  evict :
      (i incumbent : ℕ)
      → s.phase i ≡ arriving
      → s.slot ≡ some incumbent
      → Step s (cancel_incumbent i incumbent s)
  wake : (i : ℕ) → s.phase i ≡ waiting → s.slot ≡ none → Step s (take_slot i s)
  leave : (i : ℕ) → s.phase i ≡ reading → Step s (leave_slot i s)
  fail : (i : ℕ) → s.phase i ≡ reading → Step s (throw_out i s)

-- A wait that ends by its timeout: the slot is taken from the incumbent.
pub data Takeover (s : Streams) : Streams → Type 0 where
  time_out :
      (i incumbent : ℕ) → s.phase i ≡ waiting → s.slot ≡ some incumbent → Takeover s (take_slot i s)

abbrev pub no_streams : Streams
no_streams = record { slot = none; phase = λ i. arriving; cancelled = λ i. false }

-- What the steps lead to, with takeovers and without.
pub data Reached : Streams → Type 0 where
  start : Reached no_streams
  next : {s t : Streams} → Reached s → Step s t → Reached t
  forced : {s t : Streams} → Reached s → Takeover s t → Reached t

pub data Calm : Streams → Type 0 where
  start : Calm no_streams
  next : {s t : Streams} → Calm s → Step s t → Calm t
