-- ===== src/Statistics/Printing/Rate.antt =====
-- How often the child of lab03/src/child.c prints at most, and when it does not print at all.
use osi_s.Prelude.{
  if_both, ℕ, suc, ◌+◌, ◌*◌, ◌≤◌, ◌≡◌, refl, ◌∙◌, inl, inr, Bool, true, false, ◌&&◌, List, [], ◌∷◌,
  ◌++◌, arith, leb, Bool-cases, length,
}
use osi_s.Statistics.{Stat, alr_sign_handler, Signal, sigusr1, sigusr2, sigalrm, handle}
use osi_s.Statistics.Printing.Steps.{count_child, tick_count, update_stat-can_print, converse-tick}
use osi_s.Statistics.Printing.{
  print_or_not, Arrivals, tick_at, wait_or_print, woken, Phase, counting, asking, Child, start,
  Output, asked, resumed, printed, receive, main_loop, answers, converse,
}

abbrev pub prints : List Output → ℕ
prints [] = 0
prints (printed a b c d ∷ outs) = suc (prints outs)
prints (_ ∷ outs) = prints outs

pub prints-append : (a b : List Output) → prints (a ++ b) ≡ prints a + prints b
prints-append [] b = omega arith
prints-append (asked ∷ a) b = omega (arith, prints-append a b)
prints-append (resumed ∷ a) b = omega (arith, prints-append a b)
prints-append (printed w x y z ∷ a) b = omega (arith, prints-append a b)

-- A child that asks has counted six rounds.
abbrev pub IsWaiting : Child → Type 0
IsWaiting c = c.phase ≡ asking → 6 ≤ c.i

-- The sleeps since the last line, at most.
abbrev IsSpaced : ℕ → Child × List Output → Type 0
IsSpaced i r = IsWaiting r.0 × (6 * prints r.1 + r.0.i ≤ i + 1)

-- The inner loop prints once at most, behind six rounds.
wait_or_print-prints :
    (i : ℕ) (late : List Signal) (s : Stat) → 6 ≤ i → IsSpaced i (wait_or_print i late s)
wait_or_print-prints i late s h =
    if_both (IsSpaced i) s.received_signal (print_or_not t) _
      (if_both (IsSpaced i) t.can_print
        (
          record { stat = t; i = 1; phase = counting },
          printed t.c00 t.c01 t.c10 t.c11 ∷ resumed ∷ [],
        )
        (record { stat = record t { can_print = true }; i = 1; phase = counting }, [])
        (λ p. cc, omega arith) (λ p. cc, omega arith))
      (λ p. h, omega arith)
  where
    t : Stat
    t = receive late s

tick_at-prints :
    (a : Arrivals) (s : Stat) (i : ℕ) (p : Phase)
    → let c : Child = record { stat = s; i = i; phase = p } in
      IsWaiting c
      → IsWaiting (tick_at a c).0 × (6 * prints (tick_at a c).1 + (tick_at a c).0.i ≤ i + 1)
unfolding tick_at
tick_at-prints a s i counting h =
    elim (Bool-cases (leb 6 i && (receive a.before_test (woken a.asleep s)).can_print)) [
      | inl e ↦ rw e (
          wait_or_print-prints i a.before_print
            (receive a.before_wait (receive a.before_test (woken a.asleep s))) (ground arith))
      | inr e ↦ rw e (λ p. cc, omega arith)
    ]
tick_at-prints a s i asking h = wait_or_print-prints i a.before_print (receive a.asleep s) (h refl)

main_loop-prints_from :
    (ticks : List Arrivals) (c : Child)
    → IsWaiting c
    → 6 * prints (main_loop ticks c).1 ≤ c.i + length ticks
unfolding main_loop
main_loop-prints_from [] c h = omega arith
main_loop-prints_from (a ∷ rest) c h =
    let (d, out) = tick_at a c in
    let (w, k) = tick_at-prints a c.stat c.i c.phase h in
    omega (arith, main_loop-prints_from rest d w, prints-append out (main_loop rest d).1)

-- Whatever signals arrive, during its sleeps or between them, the child prints at most once in six of
-- its sleeps.
pub main_loop-prints : (ticks : List Arrivals) → 6 * prints (main_loop ticks start).1 ≤ length ticks
main_loop-prints ticks = omega (arith, main_loop-prints_from ticks start (λ e. cc))

-- No signal that starts printing.
abbrev pub no_start : List Signal → Bool
no_start [] = true
no_start (sigusr2 ∷ sigs) = false
no_start (sigusr1 ∷ sigs) = no_start sigs
no_start (sigalrm ∷ sigs) = no_start sigs

abbrev pub none_starts : List (List Signal) → Bool
none_starts [] = true
none_starts (sigs ∷ rest) = no_start sigs && none_starts rest

receive_stopped :
    (sigs : List Signal) (s : Stat)
    → no_start sigs ≡ true
    → s.can_print ≡ false
    → (receive sigs s).can_print ≡ false
unfolding handle alr_sign_handler
receive_stopped [] s h k = k
receive_stopped (sigusr1 ∷ sigs) s h k = receive_stopped sigs _ h refl
receive_stopped (sigusr2 ∷ sigs) s h k = cc
receive_stopped (sigalrm ∷ sigs) s h k = receive_stopped sigs _ h (ground arith)

-- A child that has been stopped between two lines sends and prints nothing until a SIGUSR2 comes.
converse_stopped :
    (pid : ℕ) (ticks : List (List Signal)) (s : Stat) (i : ℕ)
    → none_starts ticks ≡ true
    → s.can_print ≡ false
    → (converse pid [] ticks (record { stat = s; i = i; phase = counting })).1 ≡ []
unfolding converse answers
converse_stopped pid [] s i h k = refl
converse_stopped pid (sigs ∷ rest) s i h k =
    let off = receive_stopped sigs s (ground arith) k in
    converse-tick pid [] sigs rest (count_child s i) (count_child (woken sigs s) (i + 1)) []
      (tick_count sigs s i (ground (arith, off)))
    ∙ converse_stopped pid rest (woken sigs s) (i + 1) (ground arith)
        (update_stat-can_print (receive sigs s) ∙ off)
