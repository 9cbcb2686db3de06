-- ===== src/Service/RequestQueue.antt =====
-- planning_service/service/utils/request_queue.h. Each method holds the queue's mutex for its
-- whole body, so it is one step from a queue to the next. A `std::deque` is a list, oldest first.
pub mod Fifo
pub mod Consistency
use planning_service.Prelude.{
  ℕ, String, Bool, true, false, List, [], ◌∷◌, ◌++◌, length, leb, ◌==◌, if◌then◌else◌, text_key,
}
use planning_service.Prelude.Int.{ℤ, pos, negsuc}
use planning_service.Prelude.Sets.{contains, insert, erase}
use planning_service.Service.Error.{
  Outcome, returns, throws, queue_empty_error, queue_at_capacity_error, runtime_error,
}

-- `RequestAdapter` with what a class derived from it adds.
pub record Request {ℓ} (P : Type ℓ) : Type ℓ where
  pub id : String
  pub payload : P

pub record RequestQueue {ℓ} (P : Type ℓ) : Type ℓ where
  pub capacity : ℕ
  pub queued_requests : List (Request P)
  pub queued_ids : List String

module _ {ℓ} {P : Type ℓ} where
  -- The constructor, with its test of the `int` that it is given.
  unfoldable pub make : ℤ → Outcome (RequestQueue P)
  make (negsuc n) = throws (runtime_error "Queue must have positive nonzero maximum size!")
  make (pos n) =
      if n == 0
      then throws (runtime_error "Queue must have positive nonzero maximum size!")
      else returns (record { capacity = n; queued_requests = []; queued_ids = [] })

  unfoldable pub has_request : RequestQueue P → String → Bool
  has_request q id = contains id q.queued_ids

  unfoldable pub clear : RequestQueue P → RequestQueue P
  clear q = record q { queued_requests = []; queued_ids = [] }

  -- A request whose id is queued already is only logged: it is added all the same.
  unfoldable pub enqueue : RequestQueue P → Request P → Outcome (RequestQueue P)
  enqueue q request =
      if leb q.capacity (length q.queued_requests)
      then throws queue_at_capacity_error
      else returns (record q {
        queued_requests = q.queued_requests ++ request ∷ [];
        queued_ids = insert request.id q.queued_ids;
      })

  unfoldable pub peek_next_request : RequestQueue P → Outcome (Request P)
  peek_next_request q = elim q.queued_requests [
    | [] ↦ throws queue_empty_error
    | request ∷ rest ↦ returns request
  ]

  unfoldable pub pop_next_request : RequestQueue P → Outcome (Request P × RequestQueue P)
  pop_next_request q = elim q.queued_requests [
    | [] ↦ throws queue_empty_error
    | request ∷ rest ↦
        returns
          (request, record q { queued_requests = rest; queued_ids = erase request.id q.queued_ids })
  ]

  unfoldable pub is_empty : RequestQueue P → Bool
  is_empty q = elim q.queued_requests [ [] ↦ true | _ ∷ _ ↦ false ]

  unfoldable pub size : RequestQueue P → ℕ
  size q = length q.queued_requests
