-- ===== src/CondQueue/World/History.antt =====
-- The history of the queue of lab05/src/5.2/queue.c over every interleaving.
use osi_s.Prelude.{ℕ, ◌-◌, ◌≡◌, refl, sym, ap, ◌∙◌, List, [], ◌∷◌, ◌++◌, append_assoc, arith}
use osi_s.Ring.{get}
use osi_s.Ring.Contents.{contents}
use osi_s.Ring.Copy.{contents-resize}
use osi_s.Ring.Laws.{
  IsValid, put-IsValid, get-IsValid, resize-IsValid, queue_init-IsValid, contents-put, contents-get,
}
use osi_s.CondQueue.{queue_push, queue_pop, queue_resize_increase, queue_resize_decrease}
use osi_s.CondQueue.World.{Event, push, pop, increase, decrease, stop, World, step, run, start}

-- The queue is valid, and what was accepted is what was delivered, then what is held.
pub record IsFifo (w : World) : Type 0 where
  pub valid : IsValid w.ring
  pub history : w.accepted ≡ w.delivered ++ contents w.ring

module _ (w : World) (f : IsFifo w) where
  push-IsFifo : (msg : ℕ) → IsFifo (step (push msg) w)
  unfolding step queue_push
  push-IsFifo msg = ground (
    arith,
    put-IsValid msg w.ring f.valid,
    contents-put msg w.ring f.valid,
    append_assoc w.delivered (contents w.ring) (msg ∷ []),
  )

  pop-IsFifo : IsFifo (step pop w)
  unfolding step queue_pop
  pop-IsFifo = ground (
    arith,
    get-IsValid w.ring f.valid,
    contents-get w.ring f.valid,
    append_assoc w.delivered ((get w.ring).0 ∷ []) (contents (get w.ring).1),
  )

  increase-IsFifo : IsFifo (step increase w)
  unfolding step queue_resize_increase
  increase-IsFifo = record {
    valid = resize-IsValid _ w.ring f.valid (omega (arith, f.valid.fits));
    history =
        f.history
        ∙ ap (λ c. w.delivered ++ c) (sym (contents-resize _ w.ring (omega (arith, f.valid.fits))));
  }

  decrease-IsFifo : IsFifo (step decrease w)
  unfolding step queue_resize_decrease
  decrease-IsFifo = ground (
    arith,
    resize-IsValid (w.ring.capacity - 1) w.ring f.valid,
    contents-resize (w.ring.capacity - 1) w.ring,
  )

  stop-IsFifo : IsFifo (step stop w)
  unfolding step
  stop-IsFifo = record { valid = f.valid; history = f.history }

pub step-IsFifo : (e : Event) (w : World) → IsFifo w → IsFifo (step e w)
step-IsFifo (push msg) w f = push-IsFifo w f msg
step-IsFifo pop w f = pop-IsFifo w f
step-IsFifo increase w f = increase-IsFifo w f
step-IsFifo decrease w f = decrease-IsFifo w f
step-IsFifo stop w f = stop-IsFifo w f

-- If the queue is valid, and the messages accepted are those delivered, in order, followed by those
-- held, then both stay so, whatever the threads do in whatever order.
pub run-IsFifo : (es : List Event) (w : World) → IsFifo w → IsFifo (run es w)
unfolding run
run-IsFifo [] w f = f
run-IsFifo (e ∷ es) w f = run-IsFifo es (step e w) (step-IsFifo e w f)

pub start-IsFifo : IsFifo start
start-IsFifo = record { valid = queue_init-IsValid; history = refl }
