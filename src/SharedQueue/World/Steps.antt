-- ===== src/SharedQueue/World/Steps.antt =====
-- The invariant of the processes on the queue of lab04, step by step.
use osi_s.Prelude.{
  ℕ, suc, ◌+◌, ◌-◌, ◌%◌, ◌<◌, ◌≤◌, ◌≡◌, refl, sym, ap, ◌∙◌, List, [], ◌∷◌, ◌++◌, get_or, set,
  length, length-set, mod-add-mod, arith, append_assoc, ltb, ◌&&◌, Bool-cases, inl, inr, ◌⊎◌,
}
use osi_s.Ring.Contents.{slots, slots-set, slots-front, length-slots}
use osi_s.SharedQueue.{Queue, max_queue_size, push_enter, push_leave, pop_enter, pop_leave}
use osi_s.SharedQueue.World.{
  left, World, Holder, nobody, popping, pushing, Event, enter_push, enter_pop, leave, kill, killed,
  step,
}

-- The messages stored, oldest first.
abbrev pub stored : Queue → List ℕ
stored q = slots q.buffer max_queue_size q.head 0 (max_queue_size - q.free_slots)

-- The tokens of the semaphores that the process inside holds.
abbrev pub in_push : Holder → ℕ
in_push (pushing msg) = 1
in_push _ = 0

abbrev pub in_pop : Holder → ℕ
in_pop popping = 1
in_pop _ = 0

pub record IsSafe (w : World) : Type 0 where
  pub storage : length w.queue.buffer ≡ max_queue_size
  pub head_in : w.queue.head < max_queue_size
  pub tail_at :
      w.queue.tail ≡ (w.queue.head + (max_queue_size - w.queue.free_slots)) % max_queue_size
  pub slots_in : w.queue.free_slots ≤ max_queue_size
  pub totals : w.queue.added_count + w.queue.free_slots ≡ w.queue.removed_count + max_queue_size
  pub free_in : w.queue.free + in_push w.holder ≤ w.queue.free_slots
  pub used_in : w.queue.used + in_pop w.holder + w.queue.free_slots ≤ max_queue_size
  pub lock_in : w.queue.lock + (in_push w.holder + in_pop w.holder) ≤ 1
  pub order : w.pushed ≡ w.popped ++ stored w.queue

pub below_ten : (a b : ℕ) → (a + b) % 10 < 10
below_ten a b = omega arith

pub left_push :
    (msg : ℕ) (w : World) → IsSafe w → w.holder ≡ pushing msg → IsSafe (left w (pushing msg))
unfolding push_leave left
left_push msg w v e =
    let q = w.queue in
    let n = max_queue_size - q.free_slots in
    record {
      storage = length-set q.buffer q.tail msg ∙ v.storage;
      head_in = v.head_in;
      tail_at =
          ap (λ t. (t + 1) % max_queue_size) v.tail_at
          ∙ mod-add-mod (q.head + n) max_queue_size 1
          ∙ ap (λ k. k % max_queue_size) {x = q.head + n + 1}
              {y = q.head + (max_queue_size - (q.free_slots - 1))} (omega (arith, ap in_push e));
      slots_in = omega arith;
      totals = omega (arith, ap in_push e);
      free_in = omega (arith, ap in_push e);
      used_in = omega (arith, ap in_push e, ap in_pop e);
      lock_in = omega (arith, ap in_push e, ap in_pop e);
      order =
          ap (λ l. l ++ (msg ∷ [])) v.order
          ∙ append_assoc w.popped (stored q) (msg ∷ [])
          ∙ ap (w.popped ++◌) (
              sym (
                slots-set q.buffer max_queue_size q.head n msg v.head_in
                  (omega (arith, ap in_push e)) (omega (arith, v.storage, below_ten q.head n)))
              ∙ ap (λ t. slots (set q.buffer t msg) max_queue_size q.head 0 (suc n)) (sym v.tail_at)
              ∙ ap (slots (set q.buffer q.tail msg) max_queue_size q.head 0) {x = suc n}
                  {y = max_queue_size - (q.free_slots - 1)} (omega (arith, ap in_push e)));
    }

pub left_pop : (w : World) → IsSafe w → w.holder ≡ popping → IsSafe (left w popping)
unfolding pop_leave left
left_pop w v e =
    let q = w.queue in
    let n = max_queue_size - q.free_slots in
    record {
      storage = v.storage;
      head_in = omega arith;
      tail_at =
          v.tail_at
          ∙ ap (λ k. k % max_queue_size) {x = q.head + n}
              {y = q.head + 1 + (max_queue_size - (q.free_slots + 1))} (omega (arith, ap in_pop e))
          ∙ sym (mod-add-mod (q.head + 1) max_queue_size (max_queue_size - (q.free_slots + 1)));
      slots_in = omega (arith, ap in_pop e);
      totals = omega (arith, ap in_pop e);
      free_in = omega (arith, ap in_push e, ap in_pop e);
      used_in = omega (arith, ap in_push e, ap in_pop e);
      lock_in = omega (arith, ap in_push e, ap in_pop e);
      order =
          v.order
          ∙ ap (w.popped ++◌) (
              ap (slots q.buffer max_queue_size q.head 0) {x = n}
                {y = suc (max_queue_size - (q.free_slots + 1))} (omega (arith, ap in_pop e))
              ∙ slots-front q.buffer max_queue_size q.head (max_queue_size - (q.free_slots + 1))
                  v.head_in)
          ∙ sym (append_assoc w.popped (get_or q.buffer q.head 0 ∷ []) _);
    }

pub left-IsSafe : (w : World) (h : Holder) → IsSafe w → w.holder ≡ h → IsSafe (left w h)
unfolding left
left-IsSafe w nobody v e = v
left-IsSafe w popping v e = left_pop w v e
left-IsSafe w (pushing msg) v e = left_push msg w v e

-- What is left when a process was killed inside: the lock is gone, and what was pushed and not popped
-- had room in the queue.
pub record IsLocked (w : World) : Type 0 where
  pub lock_gone : w.queue.lock ≡ 0
  pub nobody_inside : w.holder ≡ nobody
  pub rest : List ℕ
  pub order : w.pushed ≡ w.popped ++ rest
  pub rest_in : length rest ≤ max_queue_size

abbrev pub IsSound : World → Type 0
IsSound w = IsSafe w ⊎ IsLocked w

pub length-stored :
    (w : World) → IsSafe w → length (stored w.queue) + w.queue.free_slots ≡ max_queue_size
length-stored w v = omega (
  arith,
  v.slots_in,
  length-slots w.queue.buffer max_queue_size w.queue.head 0 (max_queue_size - w.queue.free_slots),
)

left_over :
    (w x : World)
    → IsSafe w
    → (x.queue.lock ≡ 0) × (x.holder ≡ nobody)
    → x.pushed ≡ w.pushed
    → x.popped ≡ w.popped
    → IsLocked x
left_over w x v gone e f = record {
  lock_gone = gone.0;
  nobody_inside = gone.1;
  rest = stored w.queue;
  order = e ∙ v.order ∙ ap (λ l. l ++ stored w.queue) (sym f);
  rest_in = omega (arith, length-stored w v);
}

-- A kill inside takes the lock with it.
pub killed_lock :
    (n : ℕ) (w : World) (h : Holder)
    → IsSafe w
    → w.holder ≡ h
    → 0 < in_push h + in_pop h
    → ((killed n w h).queue.lock ≡ 0) × ((killed n w h).holder ≡ nobody)
killed_lock n w nobody v e i = absurd (omega arith)
killed_lock n w popping v e i = (omega (arith, v.lock_in, ap in_pop e), refl)
killed_lock n w (pushing msg) v e i = (omega (arith, v.lock_in, ap in_push e), refl)

pub killed-IsSound :
    (n : ℕ) (w : World) (h : Holder) → IsSafe w → w.holder ≡ h → IsSound (killed n w h)
killed-IsSound n w nobody v e = inl v
killed-IsSound n w popping v e =
    inr (left_over w (killed n w popping) v (killed_lock n w popping v e (omega arith)) refl refl)
killed-IsSound n w (pushing msg) v e = inr (
    left_over w (killed n w (pushing msg)) v (killed_lock n w (pushing msg) v e (omega arith)) refl
      refl)

pub step-IsSound : (e : Event) (w : World) → IsSafe w → IsSound (step e w)
unfolding step push_enter pop_enter
step-IsSound (enter_push msg) w v = elim (Bool-cases (ltb 0 w.queue.free && ltb 0 w.queue.lock)) [
  | inl go ↦ rw go (
      inl record {
        storage = v.storage;
        head_in = v.head_in;
        tail_at = v.tail_at;
        slots_in = v.slots_in;
        totals = v.totals;
        free_in = ground arith;
        used_in = ground arith;
        lock_in = ground arith;
        order = v.order;
      })
  | inr wait ↦ rw wait (inl v)
]
step-IsSound enter_pop w v = elim (Bool-cases (ltb 0 w.queue.used && ltb 0 w.queue.lock)) [
  | inl go ↦ rw go (
      inl record {
        storage = v.storage;
        head_in = v.head_in;
        tail_at = v.tail_at;
        slots_in = v.slots_in;
        totals = v.totals;
        free_in = ground arith;
        used_in = ground arith;
        lock_in = ground arith;
        order = v.order;
      })
  | inr wait ↦ rw wait (inl v)
]
step-IsSound leave w v = inl (left-IsSafe w w.holder v refl)
step-IsSound (kill n) w v = killed-IsSound n w w.holder v refl
