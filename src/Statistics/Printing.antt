-- ===== src/Statistics/Printing.antt =====
-- The loop of `main` in lab03/src/child.c: its rounds, how it asks its parent before it prints, and
-- the parent's answers (HandleSignal of lab03/src/parent.c).
pub mod Steps
pub mod Rate
pub mod Answers
pub mod Stops
use osi_s.Prelude.{
  ◌^◌, Perm, take-append-drop, length-replicate, ℕ, zero, suc, ◌+◌, ◌-◌, ◌*◌, ◌/◌, ◌%◌, ◌≤◌, ◌<◌,
  min, ◌≡◌, refl, sym, ap, ap₂, ◌∙◌, subst, ◌≢◌, ◌↔◌, ◌⊎◌, inl, inr, Bool, true, false, not, ◌&&◌,
  ◌||◌, Option, none, some, List, [], ◌∷◌, ◌++◌, append-nil, append_assoc, map, reverse, arith, ltb,
  leb, ◌==◌, if◌then◌else◌, ==_iff, Bool-cases, Option-cases, length, take, drop, length-append,
  length-take, length-drop, Text, bytes, same, starts_with, has, before, before_all, has-take,
  take_all, take-append_le, dec_lt, dec_le, fgets, same_iff, starts_with-append, starts_with_self,
  drop_prefix, ℕ_discrete, if_both, take-append, starts_with_split, same_path, has-append,
  fgets-line, fgets_cut, before-append, is_space, is_digit, all_digits, read_digits, scan_number,
  scan_number-append, skip_spaces,
}
use osi_s.Statistics.{Stat, init, update_stat, Signal, sigusr1, sigusr2, sigalrm, handle}
use osi_s.Supervisor
use osi_s.Supervisor.{Effect, sent, waited, handle_signal}

-- Where the loop stands: before its `sleep(1)`, or in the inner loop that waits for `received_signal`.
pub data Phase : Type 0 where
  counting asking : Phase

pub record Child : Type 0 where
  pub stat : Stat
  pub i : ℕ
  pub phase : Phase

abbrev pub start : Child
start = record { stat = init; i = 0; phase = counting }

-- What the child sends its parent, and the line that it prints with its four counts.
pub data Output : Type 0 where
  asked resumed : Output
  printed : ℕ → ℕ → ℕ → ℕ → Output

-- The signals that arrive during one sleep.
abbrev pub receive : List Signal → Stat → Stat
receive [] s = s
receive (sig ∷ sigs) s = receive sigs (handle sig s)

-- A round up to the test: `sleep`, `UpdateStat`, and the flag put down.
abbrev pub woken : List Signal → Stat → Stat
woken sigs s = record (update_stat (receive sigs s)) { received_signal = false }

-- Behind the inner loop: the line and SIGUSR2 where printing is allowed; `i++` of the `for` follows
-- both ways.
abbrev pub print_or_not : Stat → Child × List Output
print_or_not s =
    if s.can_print
    then (
      record { stat = s; i = 1; phase = counting },
      printed s.c00 s.c01 s.c10 s.c11 ∷ resumed ∷ [],
    )
    else (record { stat = record s { can_print = true }; i = 1; phase = counting }, [])

-- The signals that arrive from one `sleep(1)` to the next: up to `received_signal = false`, from there
-- to the test `i >= 6 && can_print`, from there to the test of the inner loop, and behind that loop up
-- to its test of `can_print`.
pub record Arrivals : Type 0 where
  pub asleep : List Signal
  pub before_test : List Signal
  pub before_wait : List Signal
  pub before_print : List Signal

-- The inner loop: it is left with the flag up, and asks with the flag down.
abbrev pub wait_or_print : ℕ → List Signal → Stat → Child × List Output
wait_or_print i late s =
    if s.received_signal
    then print_or_not (receive late s)
    else (record { stat = s; i = i; phase = asking }, asked ∷ [])

-- The test `i >= 6 && can_print`, then the inner loop or the next round.
abbrev pub ask_or_count : ℕ → Arrivals → Stat → Child × List Output
ask_or_count i a s =
    if leb 6 i && s.can_print
    then wait_or_print i a.before_print (receive a.before_wait s)
    else (record { stat = s; i = i + 1; phase = counting }, [])

abbrev pub tick_in : Phase → Arrivals → Child → Child × List Output
tick_in counting a c = ask_or_count c.i a (receive a.before_test (woken a.asleep c.stat))
tick_in asking a c = wait_or_print c.i a.before_print (receive a.asleep c.stat)

-- One `sleep(1)` with what follows it up to the next one.
unfoldable pub tick_at : Arrivals → Child → Child × List Output
tick_at a c = tick_in c.phase a c

-- Signals that arrive during the sleep only.
abbrev pub during : List Signal → Arrivals
during sigs = record { asleep = sigs; before_test = []; before_wait = []; before_print = [] }

unfoldable pub tick : List Signal → Child → Child × List Output
unfolding tick_at
tick sigs c = tick_at (during sigs) c

-- The sleeps one after the other, with the signals that arrive around each.
unfoldable pub main_loop : List Arrivals → Child → Child × List Output
main_loop [] c = (c, [])
main_loop (a ∷ rest) c =
    let (d, out) = tick_at a c in let (e, more) = main_loop rest d in (e, out ++ more)

-- A signal to the parent, as the child names it, and the signals that the parent sends the child.
abbrev pub to_parent : Output → Option Supervisor.Signal
to_parent asked = some Supervisor.sigusr1
to_parent resumed = some Supervisor.sigusr2
to_parent (printed a b c d) = none

abbrev pub from_parent : Supervisor.Signal → List Signal
from_parent Supervisor.sigusr1 = sigusr1 ∷ []
from_parent Supervisor.sigusr2 = sigusr2 ∷ []
from_parent Supervisor.sigterm = []

-- What of the parent's effects reaches the child with this number.
unfoldable pub delivered : ℕ → List Effect → List Signal
delivered pid [] = []
delivered pid (sent to sig ∷ effects) =
    let rest = delivered pid effects in if to == pid then from_parent sig ++ rest else rest
delivered pid (waited to ∷ effects) = delivered pid effects

abbrev pub answer_to : ℕ → Option Supervisor.Signal → List Signal
answer_to pid none = []
answer_to pid (some sig) = delivered pid (handle_signal sig pid)

unfoldable pub answers : ℕ → List Output → List Signal
answers pid [] = []
answers pid (out ∷ outs) = answer_to pid (to_parent out) ++ answers pid outs

-- Child and parent together: in each sleep the answers to what the child sent before it arrive, and
-- then other signals.
unfoldable pub converse : ℕ → List Signal → List (List Signal) → Child → Child × List Output
converse pid pending [] c = (c, [])
converse pid pending (sigs ∷ rest) c =
    let (d, out) = tick (pending ++ sigs) c in
    let (e, more) = converse pid (answers pid out) rest d in (e, out ++ more)
