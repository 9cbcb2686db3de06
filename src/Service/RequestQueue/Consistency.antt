-- ===== src/Service/RequestQueue/Consistency.antt =====
-- request_queue.h: the set of ids mirrors the deque of requests, as long as no id is queued twice.
use planning_service.Prelude.{
  String, ◌≤◌, ◌<◌, ◌≡◌, refl, Bool, true, false, ◌||◌, List, [], ◌∷◌, ◌++◌, length, arith,
  text_key, same_key, same_key_iff, length-append,
}
use planning_service.Prelude.Sets.{contains, insert, erase, contains-insert, contains-erase}
use planning_service.Prelude.Int.{ℤ, pos, negsuc}
use planning_service.Service.Error.{returns}
use planning_service.Service.RequestQueue.{
  Request, RequestQueue, make, has_request, clear, enqueue, pop_next_request,
}

module _ {ℓ} {P : Type ℓ} where
  -- Some request of the list has the id.
  abbrev pub mentions : String → List (Request P) → Bool
  mentions id [] = false
  mentions id (r ∷ rs) = same_key r.id id || mentions id rs

  -- No two requests of the list have one id.
  abbrev pub Unrepeated : List (Request P) → Type 0
  Unrepeated [] = Unit
  Unrepeated (r ∷ rs) = (mentions r.id rs ≡ false) × Unrepeated rs

  pub mentions-append :
      (id : String) (xs ys : List (Request P))
      → mentions id (xs ++ ys) ≡ (mentions id xs || mentions id ys)
  mentions-append id [] ys = ground arith
  mentions-append id (x ∷ xs) ys = ground (arith, mentions-append id xs ys)

  Unrepeated-concat :
      (xs : List (Request P)) (r : Request P)
      → Unrepeated xs
      → mentions r.id xs ≡ false
      → Unrepeated (xs ++ r ∷ [])
  Unrepeated-concat [] r u e = ground arith
  Unrepeated-concat (x ∷ xs) r u e = ground (
    arith,
    Unrepeated-concat xs r u.1,
    mentions-append x.id xs (r ∷ []),
    same_key_iff x.id r.id,
    same_key_iff r.id x.id,
  )

  -- The set of ids is that of the queued requests, which have different ids and fit.
  pub record IsConsistent (q : RequestQueue P) : Type 0 where
    pub mirrored : (id : String) → contains id q.queued_ids ≡ mentions id q.queued_requests
    pub unrepeated : Unrepeated q.queued_requests
    pub bounded : length q.queued_requests ≤ q.capacity

  pub make-IsConsistent : (n : ℤ) (q : RequestQueue P) → make n ≡ returns q → IsConsistent q
  unfolding make contains
  make-IsConsistent (pos n) q e = record {
    mirrored = λ id. ground arith;
    unrepeated = ground arith;
    bounded = ground arith;
  }
  make-IsConsistent (negsuc n) q e = cc

  pub make_empty : (n : ℤ) (q : RequestQueue P) → make n ≡ returns q → q.queued_requests ≡ []
  unfolding make
  make_empty (pos n) q e = ground arith
  make_empty (negsuc n) q e = cc

  pub clear-IsConsistent : (q : RequestQueue P) → IsConsistent q → IsConsistent (clear q)
  unfolding clear contains
  clear-IsConsistent q v = record { mirrored = λ id. refl; unrepeated = tt; bounded = omega arith }

  -- Adding a request whose id is not queued keeps the queue consistent.
  pub enqueue-IsConsistent :
      (q q' : RequestQueue P) (r : Request P)
      → IsConsistent q
      → has_request q r.id ≡ false
      → enqueue q r ≡ returns q'
      → IsConsistent q'
  unfolding enqueue has_request
  enqueue-IsConsistent q q' r v fresh e = record {
    mirrored = λ id. ground (
      arith,
      v.mirrored id,
      contains-insert r.id id q.queued_ids,
      mentions-append id q.queued_requests (r ∷ []),
    );
    unrepeated =
        ground (arith, v.mirrored r.id, Unrepeated-concat q.queued_requests r v.unrepeated);
    bounded = ground (arith, length-append q.queued_requests (r ∷ []));
  }

  -- What a successful `enqueue` leaves, and where it succeeds.
  pub enqueue-eq-returns :
      (q q' : RequestQueue P) (r : Request P)
      → enqueue q r ≡ returns q'
      → (q'.queued_requests ≡ q.queued_requests ++ r ∷ [])
        × (q'.queued_ids ≡ insert r.id q.queued_ids)
        × (q'.capacity ≡ q.capacity)
  unfolding enqueue
  enqueue-eq-returns q q' r e = ground arith

  pub enqueue_room :
      (q : RequestQueue P) (r : Request P)
      → length q.queued_requests < q.capacity
      → (q' : RequestQueue P) × (enqueue q r ≡ returns q')
  unfolding enqueue
  enqueue_room q r h = (
    record q {
      queued_requests = q.queued_requests ++ r ∷ [];
      queued_ids = insert r.id q.queued_ids;
    },
    ground arith,
  )

  pub enqueue_has :
      (q q' : RequestQueue P) (r : Request P)
      → enqueue q r ≡ returns q'
      → has_request q' r.id ≡ true
  unfolding has_request
  enqueue_has q q' r e =
      let (same, ids, cap) = enqueue-eq-returns q q' r e in
      ground (arith, contains-insert r.id r.id q.queued_ids, same_key_iff r.id r.id)

  -- What a successful pop returns and leaves.
  pub pop_next_request-eq-returns :
      (q q' : RequestQueue P) (r : Request P)
      → pop_next_request q ≡ returns (r, q')
      → (q.queued_requests ≡ r ∷ q'.queued_requests)
        × (q'.queued_ids ≡ erase r.id q.queued_ids)
        × (q'.capacity ≡ q.capacity)
  unfolding pop_next_request
  pop_next_request-eq-returns q q' r e = ground arith

  pub pop_front :
      (q : RequestQueue P) (r : Request P) (rest : List (Request P))
      → q.queued_requests ≡ r ∷ rest
      → (q' : RequestQueue P) × (pop_next_request q ≡ returns (r, q')) × (q'.queued_requests ≡ rest)
  unfolding pop_next_request
  pop_front q r rest h = (
    record q { queued_requests = rest; queued_ids = erase r.id q.queued_ids },
    ground arith,
    refl,
  )

  pub pop-IsConsistent :
      (q q' : RequestQueue P) (r : Request P)
      → IsConsistent q
      → pop_next_request q ≡ returns (r, q')
      → IsConsistent q'
  pop-IsConsistent q q' r v e =
      let (front, ids, cap) = pop_next_request-eq-returns q q' r e in
      record {
        mirrored = λ id.
            ground
              (arith, v.mirrored id, contains-erase r.id id q.queued_ids, same_key_iff r.id id);
        unrepeated = ground arith;
        bounded = ground arith;
      }

  -- In a consistent queue a popped request is gone: its id is free again.
  pub pop_forgets :
      (q q' : RequestQueue P) (r : Request P)
      → IsConsistent q
      → pop_next_request q ≡ returns (r, q')
      → (has_request q r.id ≡ true) × (has_request q' r.id ≡ false)
  unfolding has_request
  pop_forgets q q' r v e =
      let (front, ids, cap) = pop_next_request-eq-returns q q' r e in
      ground (arith, v.mirrored r.id, contains-erase r.id r.id q.queued_ids, same_key_iff r.id r.id)

  -- The class of queues that the duplicate branch of `enqueue` breaks: where the request at the
  -- front has the id of the new one, and there is room, the new one is queued as well; the next
  -- pop then erases the id, and the queue denies an id that one of its requests has.
  pub enqueue_duplicate_denied :
      (q : RequestQueue P) (r first : Request P) (rest : List (Request P))
      → q.queued_requests ≡ first ∷ rest
      → r.id ≡ first.id
      → length q.queued_requests < q.capacity
      → (q₁ q₂ : RequestQueue P) × (enqueue q r ≡ returns q₁)
        × (pop_next_request q₁ ≡ returns (first, q₂))
        × (mentions r.id q₂.queued_requests ≡ true)
        × (has_request q₂ r.id ≡ false)
  unfolding enqueue pop_next_request has_request
  enqueue_duplicate_denied q r first rest front same room = (
    record q {
      queued_requests = q.queued_requests ++ r ∷ [];
      queued_ids = insert r.id q.queued_ids;
    },
    record q {
      queued_requests = rest ++ r ∷ [];
      queued_ids = erase first.id (insert r.id q.queued_ids);
    },
    ground arith,
    ground arith,
    ground (arith, mentions-append r.id rest (r ∷ []), same_key_iff r.id r.id),
    ground (
      arith,
      contains-erase first.id r.id (insert r.id q.queued_ids),
      same_key_iff first.id r.id,
    ),
  )
