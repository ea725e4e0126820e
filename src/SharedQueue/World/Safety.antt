-- ===== src/SharedQueue/World/Safety.antt =====
-- The runs of the processes on the queue of lab04, with kills at any point.
use osi_s.Prelude.{
  ◌+◌, ◌-◌, ◌<◌, ◌≤◌, ◌≡◌, refl, sym, ap, ◌∙◌, subst, List, [], ◌∷◌, ◌++◌, length, arith, ltb,
  Option, none, some, ◌&&◌, Bool-cases, inl, inr, ◌⊎◌, ℕ,
}
use osi_s.Ring.Contents.{length-slots}
use osi_s.SharedQueue.{
  Queue, max_queue_size, push_enter, pop_enter, cleared, queue_init, attached, created,
  print_status,
}
use osi_s.SharedQueue.World.{
  left, World, nobody, Event, enter_push, enter_pop, leave, kill, killed, step, run, begin,
}
use osi_s.SharedQueue.World.Steps.{
  stored, in_push, in_pop, IsSafe, IsSound, length-stored, killed_lock, step-IsSound,
}

left_nobody : (w : World) → left w nobody ≡ w
unfolding left
left_nobody w = refl

-- With the lock taken and nobody inside, no event changes anything.
step_locked : (e : Event) (w : World) → w.queue.lock ≡ 0 → w.holder ≡ nobody → step e w ≡ w
unfolding step push_enter pop_enter
step_locked (enter_push msg) w l h = elim (Bool-cases (ltb 0 w.queue.free && ltb 0 w.queue.lock)) [
  | inl go ↦ absurd (ground arith)
  | inr wait ↦ rw wait refl
]
step_locked enter_pop w l h = elim (Bool-cases (ltb 0 w.queue.used && ltb 0 w.queue.lock)) [
  | inl go ↦ absurd (ground arith)
  | inr wait ↦ rw wait refl
]
step_locked leave w l h = ap (left w) h ∙ left_nobody w
step_locked (kill n) w l h = ap (killed n w) h

locked_out : (es : List Event) (w : World) → w.queue.lock ≡ 0 → w.holder ≡ nobody → run es w ≡ w
unfolding run
locked_out [] w l h = refl
locked_out (e ∷ es) w l h = ap (run es) (step_locked e w l h) ∙ locked_out es w l h

-- Whatever the processes do and whichever of them are killed, the state stays sound: a kill inside
-- leaves it as it is from then on.
pub processes-IsSound : (es : List Event) (w : World) → IsSafe w → IsSound (run es w)
unfolding run
processes-IsSound [] w v = inl v
processes-IsSound (e ∷ es) w v = elim (step-IsSound e w v) [
  | inl safe ↦ processes-IsSound es (step e w) safe
  | inr gone ↦
      subst IsSound (sym (locked_out es (step e w) gone.lock_gone gone.nobody_inside)) (inr gone)
]

abbrev or_else : Queue → Option Queue → Queue
or_else q none = q
or_else q (some r) = r

fresh-IsSafe : IsSafe (begin (cleared max_queue_size 0 1))
fresh-IsSafe = record {
  storage = refl;
  head_in = omega arith;
  tail_at = refl;
  slots_in = omega arith;
  totals = omega arith;
  free_in = omega arith;
  used_in = omega arith;
  lock_in = omega arith;
  order = refl;
}

-- When `queue_init` creates both the segment and the semaphores, the processes start in a safe
-- state.
pub begin-IsSafe : (q : Queue) → queue_init attached created ≡ some q → IsSafe (begin q)
unfolding queue_init
begin-IsSafe q e = subst (λ r. IsSafe (begin r)) (ap (or_else q) e) fresh-IsSafe

-- On a queue that `queue_init` has created with its semaphores, after any events, with a SIGKILL
-- also between two writes: what the consumers popped is what the producers pushed first, in that
-- order, and at most ten messages more were pushed; at most one process is between its two `semop`
-- calls. As long as the lock is free or somebody holds it, the messages pushed and not popped are
-- those stored, and stored and free slots make ten; otherwise the lock is gone.
pub processes_order :
    (q : Queue) (es : List Event)
    → queue_init attached created ≡ some q
    → let w = run es (begin q) in
      ((rest : List ℕ) × (w.pushed ≡ w.popped ++ rest) × (length rest ≤ max_queue_size))
      × (w.queue.lock + (in_push w.holder + in_pop w.holder) ≤ 1)
      × (((w.pushed ≡ w.popped ++ stored w.queue)
            × (length (stored w.queue) + w.queue.free_slots ≡ max_queue_size))
          ⊎ ((w.queue.lock ≡ 0) × (w.holder ≡ nobody)))
processes_order q es e = elim (processes-IsSound es (begin q) (begin-IsSafe q e)) [
  | inl v ↦ (
    (stored (run es (begin q)).queue, v.order, omega (arith, length-stored (run es (begin q)) v)),
    v.lock_in,
    inl (v.order, length-stored (run es (begin q)) v),
  )
  | inr gone ↦ (
    (gone.rest, gone.order, gone.rest_in),
    omega (arith, gone.lock_gone, ap in_push gone.nobody_inside, ap in_pop gone.nobody_inside),
    inr (gone.lock_gone, gone.nobody_inside),
  )
]

-- In a safe state the numbers that `print_status` shows agree: used and free make ten, the messages
-- used are those stored, and as many were added as were removed and are stored.
pub print_status_agrees :
    (w : World)
    → IsSafe w
    → let (used, free, added, removed) = print_status w.queue in
      (used + free ≡ max_queue_size) × (length (stored w.queue) ≡ used) × (added ≡ removed + used)
unfolding print_status
print_status_agrees w v = (
  omega arith,
  length-slots w.queue.buffer max_queue_size w.queue.head 0 (max_queue_size - w.queue.free_slots),
  omega arith,
)

-- A process that is killed between its two `semop` calls in a safe state takes the lock with it:
-- after that no event of any process changes anything, ever.
pub killed_inside :
    (n : ℕ) (es : List Event) (w : World)
    → IsSafe w
    → 0 < in_push w.holder + in_pop w.holder
    → run (kill n ∷ es) w ≡ step (kill n) w
unfolding run step
killed_inside n es w v h =
    let gone = killed_lock n w w.holder v refl h in
    locked_out es (killed n w w.holder) gone.0 gone.1
