-- ===== src/Statistics/Printing/Steps.antt =====
-- One sleep of the child of lab03/src/child.c, by what it finds.
use osi_s.Prelude.{
  ℕ, ◌+◌, ◌≤◌, ◌≡◌, ap, ◌∙◌, true, false, ◌&&◌, List, [], ◌∷◌, ◌++◌, arith, leb, if◌then◌else◌,
}
use osi_s.Statistics.{Stat, update_stat, Signal}
use osi_s.Statistics.Printing.{
  counting, asking, Child, Output, asked, resumed, printed, receive, woken, print_or_not, tick,
  answers, converse,
}

abbrev pub count_child : Stat → ℕ → Child
count_child s i = record { stat = s; i = i; phase = counting }

abbrev pub ask_child : Stat → ℕ → Child
ask_child s i = record { stat = s; i = i; phase = asking }

pub update_stat-can_print : (s : Stat) → (update_stat s).can_print ≡ s.can_print
unfolding update_stat
update_stat-can_print s = ground arith

pub tick_count :
    (sigs : List Signal) (s : Stat) (i : ℕ)
    → (leb 6 i && (receive sigs s).can_print) ≡ false
    → tick sigs (count_child s i) ≡ (count_child (woken sigs s) (i + 1), [])
unfolding tick
tick_count sigs s i h =
    ap
      (λ b.
        if b
        then (ask_child (woken sigs s) i, asked ∷ [])
        else (count_child (woken sigs s) (i + 1), []))
      (ap (λ b. leb 6 i && b) (update_stat-can_print (receive sigs s)) ∙ h)

pub tick_ask :
    (sigs : List Signal) (s : Stat) (i : ℕ)
    → 6 ≤ i
    → (receive sigs s).can_print ≡ true
    → tick sigs (count_child s i) ≡ (ask_child (woken sigs s) i, asked ∷ [])
unfolding tick
tick_ask sigs s i h k =
    ap
      (λ b.
        if b
        then (ask_child (woken sigs s) i, asked ∷ [])
        else (count_child (woken sigs s) (i + 1), []))
      (ap (λ b. leb 6 i && b) (update_stat-can_print (receive sigs s) ∙ k) ∙ enough)
  where
    enough : (leb 6 i && true) ≡ true
    enough = ground arith

pub tick_answered :
    (sigs : List Signal) (s : Stat) (i : ℕ)
    → (receive sigs s).received_signal ≡ true
    → tick sigs (ask_child s i) ≡ print_or_not (receive sigs s)
unfolding tick
tick_answered sigs s i h =
    ap
      (λ b. if b then print_or_not (receive sigs s) else (ask_child (receive sigs s) i, asked ∷ []))
      h

pub print_or_not_print :
    (s : Stat)
    → s.can_print ≡ true
    → print_or_not s ≡ (count_child s 1, printed s.c00 s.c01 s.c10 s.c11 ∷ resumed ∷ [])
print_or_not_print s h =
    ap
      (λ b.
        if b
        then (count_child s 1, printed s.c00 s.c01 s.c10 s.c11 ∷ resumed ∷ [])
        else (count_child (record s { can_print = true }) 1, []))
      h

-- A sleep in the conversation with the parent.
pub converse-tick :
    (pid : ℕ) (pending sigs : List Signal) (rest : List (List Signal)) (c d : Child)
    (out : List Output)
    → tick (pending ++ sigs) c ≡ (d, out)
    → (converse pid pending (sigs ∷ rest) c).1 ≡ out ++ (converse pid (answers pid out) rest d).1
unfolding converse
converse-tick pid pending sigs rest c d out e =
    ap (λ (t : Child × List Output). t.1 ++ (converse pid (answers pid t.1) rest t.0).1) e
