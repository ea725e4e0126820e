-- ===== src/Statistics/Printing/Answers.antt =====
-- A child of lab03/src/child.c and its parent, which answers every request to print: how often it
-- prints then.
use osi_s.Prelude.{
  ℕ, zero, suc, ◌+◌, ◌-◌, ◌*◌, ◌≤◌, ◌<◌, ◌≡◌, refl, ap, ◌∙◌, Bool, true, false, ◌&&◌, List, [], ◌∷◌,
  arith, leb, length, dec_lt,
}
use osi_s.Statistics.{Stat, alr_sign_handler, Signal, sigusr1, sigusr2, sigalrm, handle}
use osi_s.Statistics.Printing.{
  Child, asked, resumed, printed, receive, woken, delivered, answers, converse,
}
use osi_s.Statistics.Printing.Rate.{prints}
use osi_s.Statistics.Printing.Steps.{
  count_child, ask_child, update_stat-can_print, tick_count, tick_ask, tick_answered,
  print_or_not_print, converse-tick,
}
use osi_s.Supervisor.{handle_signal}

abbrev pub all_alarms : List Signal → Bool
all_alarms [] = true
all_alarms (sigalrm ∷ sigs) = all_alarms sigs
all_alarms (_ ∷ sigs) = false

abbrev pub only_alarms : List (List Signal) → Bool
only_alarms [] = true
only_alarms (sigs ∷ rest) = all_alarms sigs && only_alarms rest

receive_alarms :
    (sigs : List Signal) (s : Stat)
    → all_alarms sigs ≡ true
    → ((receive sigs s).can_print ≡ s.can_print)
      × ((receive sigs s).received_signal ≡ s.received_signal)
unfolding handle alr_sign_handler
receive_alarms [] s h = (refl, refl)
receive_alarms (sigusr1 ∷ sigs) s h = cc
receive_alarms (sigusr2 ∷ sigs) s h = cc
receive_alarms (sigalrm ∷ sigs) s h =
    let (p, q) = receive_alarms sigs (alr_sign_handler s) h in (p ∙ ground arith, q ∙ ground arith)

-- The parent's answer to a request is SIGUSR2, and to the rest nothing.
answers-asked : (pid : ℕ) → answers pid (asked ∷ []) ≡ sigusr2 ∷ []
unfolding answers delivered handle_signal
answers-asked pid = ground arith

answers-printed : (pid a b c d : ℕ) → answers pid (printed a b c d ∷ resumed ∷ []) ≡ []
unfolding answers delivered handle_signal
answers-printed pid a b c d = refl

converse_nil : (pid : ℕ) (pending : List Signal) (c : Child) → (converse pid pending [] c).1 ≡ []
unfolding converse
converse_nil pid pending c = refl

module _ (pid : ℕ) where
  -- A sleep that is only counted.
  count_once :
      (sigs : List Signal) (rest : List (List Signal)) (s : Stat) (i : ℕ)
      → all_alarms sigs ≡ true
      → s.can_print ≡ true
      → i < 6
      → (t : Stat) × (t.can_print ≡ true)
        × ((converse pid [] (sigs ∷ rest) (count_child s i)).1
            ≡ (converse pid [] rest (count_child t (i + 1))).1)
  unfolding answers
  count_once sigs rest s i a c k = (
    woken sigs s,
    update_stat-can_print (receive sigs s) ∙ (receive_alarms sigs s a).0 ∙ c,
    converse-tick pid [] sigs rest (count_child s i) (count_child (woken sigs s) (i + 1)) []
        (tick_count sigs s i early),
  )
    where
      early : (leb 6 i && (receive sigs s).can_print) ≡ false
      early = ground arith

  -- The sleep before a request, and the one in which the answer comes.
  ask_and_print :
      (sigs more : List Signal) (rest : List (List Signal)) (s : Stat) (i : ℕ)
      → all_alarms sigs ≡ true
      → all_alarms more ≡ true
      → s.can_print ≡ true
      → 6 ≤ i
      → (t : Stat) × (t.can_print ≡ true)
        × (prints (converse pid [] (sigs ∷ more ∷ rest) (count_child s i)).1
            ≡ suc (prints (converse pid [] rest (count_child t 1)).1))
  ask_and_print sigs more rest s i a b c k =
      let ready = (receive_alarms sigs s a).0 ∙ c in
      let t = receive (sigusr2 ∷ more) (woken sigs s) in
      let (can, got) = answered more (woken sigs s) b in
      (
        t,
        can,
        ap prints (
              converse-tick pid [] sigs (more ∷ rest) (count_child s i) (ask_child (woken sigs s) i)
                (asked ∷ []) (tick_ask sigs s i k ready)
              ∙ ap
                  (λ (p : List Signal).
                    asked ∷ (converse pid p (more ∷ rest) (ask_child (woken sigs s) i)).1)
                  (answers-asked pid)
              ∙ ap (◌∷◌ asked) (
                  converse-tick pid (sigusr2 ∷ []) more rest (ask_child (woken sigs s) i)
                    (count_child t 1) (printed t.c00 t.c01 t.c10 t.c11 ∷ resumed ∷ [])
                    (tick_answered (sigusr2 ∷ more) (woken sigs s) i got
                      ∙ print_or_not_print t can)))
            ∙ ap (λ (p : List Signal). suc (prints (converse pid p rest (count_child t 1)).1))
                (answers-printed pid t.c00 t.c01 t.c10 t.c11),
      )
    where
      answered :
          (more : List Signal) (s : Stat)
          → all_alarms more ≡ true
          → ((receive (sigusr2 ∷ more) s).can_print ≡ true)
            × ((receive (sigusr2 ∷ more) s).received_signal ≡ true)
      answered more s h =
          unfold handle in
          receive_alarms more (record s { can_print = true; received_signal = true }) h

  -- The lines of a child that has counted `i` rounds, over as many sleeps as `n` lines need.
  lines_from :
      (ticks : List (List Signal)) (s : Stat) (i n : ℕ)
      → only_alarms ticks ≡ true
      → s.can_print ≡ true
      → i ≤ 6
      → length ticks ≡ (6 - i) + 2 + 7 * n
      → prints (converse pid [] ticks (count_child s i)).1 ≡ suc n
  lines_from [] s i n a c k l = absurd (omega arith)
  lines_from (sigs ∷ []) s i n a c k l = elim (dec_lt i 6) [
    | yes h ↦ absurd (omega arith)
    | no h ↦ absurd (omega arith)
  ]
  lines_from (sigs ∷ more ∷ rest) s i n a c k l = elim (dec_lt i 6) [
    | yes h ↦
        let (t, can, e) = count_once sigs (more ∷ rest) s i (ground arith) c h in
        ap prints e
        ∙ lines_from (more ∷ rest) t (i + 1) n (ground arith) can (omega arith) (omega arith)
    | no h ↦
        let (t, can, e) =
          ask_and_print sigs more rest s i (ground arith) (ground arith) c (omega arith) in
        e ∙ ap suc (last rest t n (ground arith) can (omega arith) (λ m. lines_from rest t 1 m))
  ]
    where
      last :
          (rest : List (List Signal)) (t : Stat) (n : ℕ)
          → only_alarms rest ≡ true
          → t.can_print ≡ true
          → length rest ≡ 7 * n
          → ((m : ℕ)
              → only_alarms rest ≡ true
              → t.can_print ≡ true
              → 1 ≤ 6
              → length rest ≡ (6 - 1) + 2 + 7 * m
              → prints (converse pid [] rest (count_child t 1)).1 ≡ suc m)
          → prints (converse pid [] rest (count_child t 1)).1 ≡ n
      last [] t zero a c l go = ap prints (converse_nil pid [] (count_child t 1))
      last (x ∷ rest) t zero a c l go = absurd (omega arith)
      last rest t (suc m) a c l go = go m a c (omega arith) (omega arith)

  -- A child that may print and has just printed, or has just been told to go on, prints exactly one
  -- line in every seven sleeps, while the parent answers it and no signals but alarms come.
  pub converse-prints :
      (ticks : List (List Signal)) (s : Stat) (n : ℕ)
      → only_alarms ticks ≡ true
      → s.can_print ≡ true
      → length ticks ≡ 7 * n
      → prints (converse pid [] ticks (count_child s 1)).1 ≡ n
  converse-prints [] s zero a c l = ap prints (converse_nil pid [] (count_child s 1))
  converse-prints (sigs ∷ rest) s zero a c l = absurd (omega arith)
  converse-prints ticks s (suc n) a c l = lines_from ticks s 1 n a c (omega arith) (omega arith)
