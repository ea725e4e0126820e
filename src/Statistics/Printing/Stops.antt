-- ===== src/Statistics/Printing/Stops.antt =====
-- A stop by the parent of lab03 (StopChild of lab03/src/parent.c) that comes while the child asks.
use osi_s.Prelude.{
  get_or-set_self, set, ℕ, ◌*◌, ◌<◌, ◌≡◌, refl, ap, ◌∙◌, true, false, List, [], ◌∷◌, arith, leb,
  if◌then◌else◌, length,
}
use osi_s.Statistics.{Stat, Signal, sigusr1, handle}
use osi_s.Statistics.Printing.{Child, Output, tick, delivered, converse}
use osi_s.Statistics.Printing.Rate.{prints}
use osi_s.Statistics.Printing.Steps.{count_child, ask_child}
use osi_s.Supervisor
use osi_s.Supervisor.{Parent, ProcessInfo, Effect, blank, sent, child, stop_child, handle_signal}
use osi_s.Statistics.Printing.Answers.{only_alarms, converse-prints}

-- What `StopChild` sends a child of the table.
delivered-stop_child :
    (p : Parent) (index : ℕ)
    → index < p.child_processes_size
    → delivered (child p index).pid (stop_child index p).1 ≡ sigusr1 ∷ []
unfolding delivered stop_child
delivered-stop_child p index h = ground arith

stop_child-is_running :
    (p : Parent) (index : ℕ)
    → index < p.child_processes_size
    → index < length p.child_processes
    → (child (stop_child index p).0 index).is_running ≡ false
unfolding stop_child
stop_child-is_running p index h k =
    ap (λ b. (child (if b then (p, []) else stopped).0 index).is_running) (off)
    ∙ ap (λ (c : ProcessInfo). c.is_running)
        (get_or-set_self p.child_processes index (record (child p index) { is_running = false })
          blank k)
  where
    off : leb p.child_processes_size index ≡ false
    off = ground arith

    stopped : Parent × List Effect
    stopped = (
      record p {
        child_processes =
            set p.child_processes index (record (child p index) { is_running = false });
      },
      sent (child p index).pid Supervisor.sigusr1 ∷ [],
    )

-- The inner loop puts `can_print` up again.
tick_stopped :
    (s : Stat) (i : ℕ)
    → tick (sigusr1 ∷ []) (ask_child s i)
      ≡ (count_child (record s { can_print = true; received_signal = true }) 1, [])
unfolding tick handle
tick_stopped s i = refl

-- A stop is forgotten when it comes while the child waits for the answer to its request: the parent's
-- table shows the child as stopped, but the child goes on as one that may print, and prints a line
-- in every seven sleeps, though nobody starts it again.
pub stop_child-prints :
    (p : Parent) (index i n : ℕ) (s : Stat) (ticks : List (List Signal))
    → index < p.child_processes_size
    → index < length p.child_processes
    → only_alarms ticks ≡ true
    → length ticks ≡ 7 * n
    → let pid = (child p index).pid in
      let (q, effects) = stop_child index p in
      let (c, out) = tick (delivered pid effects) (ask_child s i) in
      ((child q index).is_running ≡ false) × (out ≡ []) × (prints (converse pid [] ticks c).1 ≡ n)
stop_child-prints p index i n s ticks h k a l =
    let pid = (child p index).pid in
    let t = record s { can_print = true; received_signal = true } in
    let e =
      ap (λ sigs. tick sigs (ask_child s i)) (delivered-stop_child p index h) ∙ tick_stopped s i in
    (
      stop_child-is_running p index h k,
      ap (λ (r : Child × List Output). r.1) e,
      ap (λ (r : Child × List Output). prints (converse pid [] ticks r.0).1) e
          ∙ converse-prints pid ticks t n a refl l,
    )
