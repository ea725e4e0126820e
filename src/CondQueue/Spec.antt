-- ===== src/CondQueue/Spec.antt =====
-- The queue against a list: what each call promises in terms of the messages held.
use osi_s.Prelude.{
  ℕ, ◌+◌, ◌-◌, ◌≡◌, refl, ap, List, [], ◌∷◌, ◌++◌, Bool, true, false, ◌&&◌, Option, none, some,
  if◌then◌else◌, ◌==◌, ltb, length, ℕ_discrete, arith,
}
use osi_s.Ring.{Ring}
use osi_s.Ring.Contents.{slots, contents}
use osi_s.Ring.Copy.{contents-resize}
use osi_s.Ring.Laws.{
  IsValid, contents-put, contents-get, length-contents, resize_sizes, drain-contents,
}
use osi_s.CondQueue.{
  Status, added, refused, Attempt, waits, returns, queue_push, queue_pop, queue_resize_increase,
  queue_resize_decrease, queue_destroy,
}

-- The same attempt, seen through a view of the queue.
abbrev pub view {ℓ} : {A Q R : Type ℓ} → (Q → R) → Attempt A Q → Attempt A R
view f waits = waits
view f (returns a q) = returns a (f q)

-- A bounded FIFO: a push waits while it is full, and is refused once the program stops.
abbrev pub push_spec : ℕ → Bool → ℕ → List ℕ → Attempt Status (List ℕ)
push_spec cap false msg xs = returns refused xs
push_spec cap true msg xs = if length xs == cap then waits else returns added (xs ++ (msg ∷ []))

-- A pop waits while it is empty; once the program stops it drains what is left.
abbrev pub pop_spec : Bool → List ℕ → Attempt (Option ℕ) (List ℕ)
pop_spec true [] = waits
pop_spec false [] = returns none []
pop_spec _ (x ∷ xs) = returns (some x) xs

-- For a valid queue `queue_push` acts on the list of its messages as a bounded FIFO does.
pub queue_push_refines :
    (running : Bool) (msg : ℕ) (q : Ring)
    → IsValid q
    → view contents (queue_push running msg q) ≡ push_spec q.capacity running msg (contents q)
unfolding queue_push
queue_push_refines false msg q v = ground arith
queue_push_refines true msg q v = ground (arith, length-contents q, contents-put msg q v)

contents_of_empty : (q : Ring) → q.count ≡ 0 → contents q ≡ []
contents_of_empty q e = ap (slots q.buffer q.capacity q.head 0) e

-- For a valid queue `queue_pop` acts on the list of its messages as a FIFO does.
pub queue_pop_refines :
    (running : Bool) (q : Ring)
    → IsValid q
    → view contents (queue_pop running q) ≡ pop_spec running (contents q)
unfolding queue_pop
queue_pop_refines running q v = elim (ℕ_discrete q.count 0) [
  | yes e ↦ ground (arith, contents_of_empty q e)
  | no ne ↦ rw (contents-get q v (omega arith)) (ground arith)
]

-- Growing always adds one slot; shrinking takes one away exactly when there is more than one and a
-- slot would still be free afterwards. Neither touches the messages held.
resize_keeps :
    (q : Ring)
    → IsValid q
    → (contents (queue_resize_increase q) ≡ contents q)
      × ((queue_resize_increase q).capacity ≡ q.capacity + 1)
      × (contents (queue_resize_decrease q) ≡ contents q)
      × ((queue_resize_decrease q).capacity ≡ (
          if ltb 1 q.capacity && ltb (q.count + 1) q.capacity then q.capacity - 1 else q.capacity))
unfolding queue_resize_increase queue_resize_decrease
resize_keeps q v = (
  contents-resize (q.capacity + 1) q (omega arith),
  (resize_sizes (q.capacity + 1) q).1,
  ground (arith, contents-resize (q.capacity - 1) q),
  ground (arith, resize_sizes (q.capacity - 1) q),
)

-- What `queue_destroy` frees is what the queue holds, each message once and in order.
pub queue_destroy_frees :
    (q : Ring) → IsValid q → ((queue_destroy q).0 ≡ contents q) × ((queue_destroy q).1.count ≡ 0)
unfolding queue_destroy
queue_destroy_frees q v = drain-contents q.count q v.head_in refl
