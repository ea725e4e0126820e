-- ===== src/Statistics.antt =====
-- lab03/src/child.c: the child that changes a pair of bits in turn and counts, at each alarm, which
-- pair it finds. The alarms may come at any point between the updates.
pub mod Counts
pub mod Printing
use osi_s.Prelude.{
  ℕ, zero, suc, ◌+◌, ◌-◌, List, [], ◌∷◌, Bool, true, false, ◌==◌, ◌&&◌, if◌then◌else◌, leb,
}

pub record Pair : Type 0 where
  pub first : ℕ
  pub second : ℕ

-- The globals of child.c; `counter` is the static variable of `UpdateStat`.
pub record Stat : Type 0 where
  pub occurrence : Pair
  pub counter : ℕ
  pub c00 : ℕ
  pub c01 : ℕ
  pub c10 : ℕ
  pub c11 : ℕ
  pub can_print : Bool
  pub received_signal : Bool

abbrev pub init : Stat
init = record {
  occurrence = record { first = 0; second = 0 };
  counter = 0;
  c00 = 0;
  c01 = 0;
  c10 = 0;
  c11 = 0;
  can_print = false;
  received_signal = false;
}

-- `UpdateStat`; at the default case the counter goes to -1 and back to 0, and the pair stays.
unfoldable pub update_stat : Stat → Stat
update_stat s =
    if s.counter == 0
    then record s { occurrence = record { first = 0; second = 0 }; counter = s.counter + 1 }
    else if s.counter == 1
    then record s { occurrence = record { first = 1; second = 0 }; counter = s.counter + 1 }
    else if s.counter == 2
    then record s { occurrence = record { first = 0; second = 1 }; counter = s.counter + 1 }
    else if s.counter == 3
    then record s { occurrence = record { first = 1; second = 1 }; counter = s.counter + 1 }
    else record s { counter = 0 }

-- `AlrSignHandler`
unfoldable pub alr_sign_handler : Stat → Stat
alr_sign_handler s =
    if s.occurrence.first == 0 && s.occurrence.second == 0
    then record s { c00 = s.c00 + 1 }
    else if s.occurrence.first == 1 && s.occurrence.second == 0
    then record s { c01 = s.c01 + 1 }
    else if s.occurrence.first == 0 && s.occurrence.second == 1
    then record s { c10 = s.c10 + 1 }
    else if s.occurrence.first == 1 && s.occurrence.second == 1
    then record s { c11 = s.c11 + 1 }
    else s

pub data Signal : Type 0 where
  sigusr1 sigusr2 sigalrm : Signal

-- The handlers of `InitSignalsHandling`, `UsrSignHandler` among them.
unfoldable pub handle : Signal → Stat → Stat
handle sigusr1 s = record s { can_print = false; received_signal = true }
handle sigusr2 s = record s { can_print = true; received_signal = true }
handle sigalrm s = alr_sign_handler s

-- What happens to the counts: updates by the loop of `main`, and signals.
pub data Event : Type 0 where
  update : Event
  signal : Signal → Event

unfoldable pub run : List Event → Stat → Stat
run [] s = s
run (update ∷ es) s = run es (update_stat s)
run (signal sig ∷ es) s = run es (handle sig s)
