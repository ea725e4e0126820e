-- ===== src/Statistics/Counts.antt =====
-- The counts of lab03/src/child.c and the order of its pairs.
use osi_s.Prelude.{ℕ, suc, ◌+◌, ◌≤◌, ◌≡◌, refl, ◌∙◌, List, [], ◌∷◌, arith}
use osi_s.Statistics.{
  Stat, update_stat, alr_sign_handler, Signal, sigusr1, sigusr2, sigalrm, handle, Event, update,
  signal, run,
}

-- The pair holds bits, and the counter is one that `UpdateStat` leaves.
pub record IsStat (s : Stat) : Type 0 where
  pub first : s.occurrence.first ≤ 1
  pub second : s.occurrence.second ≤ 1
  pub turn : s.counter ≤ 4

abbrev pub counted : Stat → ℕ
counted s = s.c00 + s.c01 + s.c10 + s.c11

abbrev pub alarms : List Event → ℕ
alarms [] = 0
alarms (signal sigalrm ∷ es) = suc (alarms es)
alarms (_ ∷ es) = alarms es

update_stat-IsStat :
    (s : Stat) → IsStat s → IsStat (update_stat s) × (counted (update_stat s) ≡ counted s)
unfolding update_stat
update_stat-IsStat s v = ground arith

handle-IsStat : (sig : Signal) (s : Stat) → IsStat s → IsStat (handle sig s)
unfolding handle alr_sign_handler
handle-IsStat sigusr1 s v = ground arith
handle-IsStat sigusr2 s v = ground arith
handle-IsStat sigalrm s v = ground arith

counted-handle : (s : Stat) → IsStat s → counted (handle sigalrm s) ≡ counted s + 1
unfolding handle alr_sign_handler
counted-handle s v = ground arith

-- Wherever the alarms fall between the updates and the other signals, each of them raises exactly
-- one of the four counts by one.
counted-run :
    (es : List Event) (s : Stat)
    → IsStat s
    → IsStat (run es s) × (counted (run es s) ≡ counted s + alarms es)
unfolding run
counted-run [] s v = (v, omega arith)
counted-run (update ∷ es) s v =
    let one = update_stat-IsStat s v in
    let rest = counted-run es (update_stat s) one.0 in (rest.0, omega (arith, rest.1, one.1))
counted-run (signal sigalrm ∷ es) s v =
    let rest = counted-run es (handle sigalrm s) (handle-IsStat sigalrm s v) in
    (rest.0, omega (arith, rest.1, counted-handle s v))
counted-run (signal sigusr1 ∷ es) s v =
    let rest = counted-run es (handle sigusr1 s) (handle-IsStat sigusr1 s v) in
    (rest.0, rest.1 ∙ unfold handle in refl)
counted-run (signal sigusr2 ∷ es) s v =
    let rest = counted-run es (handle sigusr2 s) (handle-IsStat sigusr2 s v) in
    (rest.0, rest.1 ∙ unfold handle in refl)

-- Five updates come back to the same turn; the last of them, at the default case, leaves the pair
-- 11 for a second round, so that 11 stands twice as long as each other pair.
pub update_stat-cycle :
    (s : Stat)
    → s.counter ≡ 0
    → let s1 = update_stat s in
      let s2 = update_stat s1 in
      let s3 = update_stat s2 in
      let s4 = update_stat s3 in
      let s5 = update_stat s4 in
      (s1.occurrence ≡ record { first = 0; second = 0 })
      × (s2.occurrence ≡ record { first = 1; second = 0 })
      × (s3.occurrence ≡ record { first = 0; second = 1 })
      × (s4.occurrence ≡ record { first = 1; second = 1 })
      × (s5.occurrence ≡ record { first = 1; second = 1 })
      × (s5.counter ≡ 0)
unfolding update_stat
update_stat-cycle s e = ground arith
