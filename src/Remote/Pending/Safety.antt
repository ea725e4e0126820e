-- ===== src/Remote/Pending/Safety.antt =====
-- No step of a thread of lab08/src/server.c reads freed memory, as long as `accept` succeeds.
use osi_s.Prelude.{
  ℕ, ◌≡◌, refl, sym, ap, ◌∙◌, subst, ◌≢◌, true, false, Option, none, some, List, [], ◌∷◌, arith,
  ◌==◌, ==_iff, ℕ_discrete, if_both,
}
use osi_s.Remote.Pending.{
  Cell, freed, unset, holds, Pending, put, add, accepted, accept_failed, started_with, client_of,
  start_client, close_node, close_all, handle_sigint, mem, Server, without, started, Step, adds,
  accepts, starts, IsRun, empty, then_step,
}
use osi_s.Remote.Pending.Nodes.{
  put_self, put_other, IsGood, good_end, good_node, put-IsGood, freed_outside, take_out-IsGood,
  without-IsGood, accepted-IsGood, close_all-IsGood, mem-without_other, mem-without_once,
}

-- The cell of a thread that has not started has its node, and a descriptor.
abbrev IsReady : Pending → ℕ → Type 0
IsReady p c = (mem c p.pending_fds ≡ true) × ((fd : ℕ) × (p.cells c ≡ holds fd))

-- All threads are ready, and no two have one cell.
abbrev AllReady : Pending → List ℕ → Type 0
AllReady p [] = Unit
AllReady p (c ∷ cs) = IsReady p c × (mem c cs ≡ false) × AllReady p cs

AllReady-mem : (p : Pending) (cs : List ℕ) (c : ℕ) → AllReady p cs → mem c cs ≡ true → IsReady p c
unfolding mem
AllReady-mem p [] c h m = cc
AllReady-mem p (d ∷ cs) c h m = elim (ℕ_discrete d c) [
  | yes e ↦ subst (IsReady p) e h.0
  | no n ↦ AllReady-mem p cs c h.2 (ground (arith, ==_iff d c))
]

AllReady-map :
    (p q : Pending) (cs : List ℕ)
    → ((c : ℕ) → mem c cs ≡ true → IsReady p c → IsReady q c)
    → AllReady p cs
    → AllReady q cs
unfolding mem
AllReady-map p q [] f h = tt
AllReady-map p q (c ∷ cs) f h =
    (f c (ground (arith, ==_iff c c)) h.0, h.1, AllReady-map p q cs (λ d m. f d (ground arith)) h.2)

AllReady-without : (p : Pending) (c : ℕ) (cs : List ℕ) → AllReady p cs → AllReady p (without c cs)
unfolding without
AllReady-without p c [] h = tt
AllReady-without p c (d ∷ cs) h =
    if_both (AllReady p) (d == c) cs (d ∷ without c cs) h.2
      (h.0, mem-without_once c d cs h.1, AllReady-without p c cs h.2)

mem-without_self :
    (p : Pending) (c : ℕ) (cs : List ℕ) → AllReady p cs → mem c (without c cs) ≡ false
unfolding without mem
mem-without_self p c [] h = refl
mem-without_self p c (d ∷ cs) h = elim (ℕ_discrete d c) [
  | yes e ↦ ground (arith, ==_iff d c, subst (λ b. mem b cs ≡ false) e h.1)
  | no n ↦ ground (arith, ==_iff d c, mem-without_self p c cs h.2)
]

abbrev IsGoodAfter : Option Server → Type 0
IsGoodAfter none = true ≡ false
IsGoodAfter (some t) = IsGood t.pending.cells t.pending.pending_fds × AllReady t.pending t.threads

unset_holds : (g : ℕ) → unset ≢ holds g
unset_holds g e = ground arith

fresh : (c : ℕ) (cells : ℕ → Cell) → put c unset cells c ≢ freed
fresh c cells e = ground (arith, put_self c unset cells)

-- A change of a cell without a descriptor touches no thread's cell.
other_cell : (p : Pending) (c d : ℕ) → IsReady p d → ((g : ℕ) → p.cells c ≢ holds g) → c ≢ d
other_cell p c d r f e = f r.1.0 (ap p.cells e ∙ r.1.1)

not_ready :
    (p : Pending) (c : ℕ) (cs : List ℕ)
    → AllReady p cs
    → ((g : ℕ) → p.cells c ≢ holds g)
    → mem c cs ≡ false
unfolding mem
not_ready p c [] h f = refl
not_ready p c (d ∷ cs) h f =
    ground
      (arith, ==_iff d c, λ (e : d ≡ c). other_cell p c d h.0 f (sym e), not_ready p c cs h.2 f)

start_client-IsReady :
    (p : Pending) (c : ℕ)
    → IsGood p.cells p.pending_fds
    → IsReady p c
    → start_client c p
      ≡ some (record { cells = put c freed p.cells; pending_fds = without c p.pending_fds })
unfolding start_client
start_client-IsReady p c good r =
    ap (client_of c p) r.1.1
    ∙ ap (started_with c p) (take_out-IsGood p.cells c r.1.0 p.pending_fds good r.0 r.1.1)

step-IsGoodAfter :
    (s : Server) (o : Option Server)
    → IsGood s.pending.cells s.pending.pending_fds
    → AllReady s.pending s.threads
    → Step s o
    → IsGoodAfter o
step-IsGoodAfter s _ good ready (adds _ c e) =
    let p = s.pending in
    let once = freed_outside c p.cells p.pending_fds good e in
    (
      good_node c p.pending_fds (fresh c p.cells) once
          (λ b g m k q. unset_holds g (sym (put_self c unset p.cells) ∙ q))
          (put-IsGood c unset p.cells p.pending_fds once good),
      AllReady-map p (add c p) s.threads
          (λ d m r. (
            later d r.0,
            (
              r.1.0,
              put_other c d unset p.cells (other_cell p c d r (λ g q. freed_holds g (sym e ∙ q)))
                  ∙ r.1.1,
            ),
          ))
          ready,
    )
  where
    freed_holds : (g : ℕ) → freed ≢ holds g
    freed_holds g q = ground arith

    later : (d : ℕ) → mem d s.pending.pending_fds ≡ true → mem d (c ∷ s.pending.pending_fds) ≡ true
    later d m = unfold mem in ground arith
step-IsGoodAfter s _ good ready (accepts _ c fd m e f) =
    let p = s.pending in
    let empty_cell = λ (g : ℕ) (q : p.cells c ≡ holds g). unset_holds g (sym e ∙ q) in
    (
      accepted-IsGood c fd p.cells p.pending_fds f good,
      (
        (m, (fd, put_self c (holds fd) p.cells)),
        not_ready p c s.threads ready empty_cell,
        AllReady-map p (accepted c fd p) s.threads
            (λ d k r. (
              r.0,
              (r.1.0, put_other c d (holds fd) p.cells (other_cell p c d r empty_cell) ∙ r.1.1),
            ))
            ready,
      ),
    )
step-IsGoodAfter s _ good ready (starts _ c m) =
    let p = s.pending in
    let own = AllReady-mem p s.threads c ready m in
    subst (λ o. IsGoodAfter (started c s o)) (sym (start_client-IsReady p c good own))
      (
        without-IsGood c p.cells p.pending_fds good own.0,
        AllReady-map p _ (without c s.threads)
            (λ d k r.
              let apart : c ≢ d = λ q. absurd_bool (
                sym (mem-without_self p c s.threads ready)
                ∙ ap (λ b. mem b (without c s.threads)) q
                ∙ k) in
              (
                mem-without_other c d p.pending_fds apart r.0,
                (r.1.0, put_other c d freed p.cells apart ∙ r.1.1),
              ))
            (AllReady-without p c s.threads ready),
      )
  where
    absurd_bool : false ≡ true → ⊥
    absurd_bool q = cc

run-IsGood : (s : Server) → IsRun s → IsGoodAfter (some s)
run-IsGood s (empty _ e f) =
    (subst (IsGood s.pending.cells) (sym e) good_end, subst (AllReady s.pending) (sym f) tt)
run-IsGood t (then_step s _ r x) = let h = run-IsGood s r in step-IsGoodAfter s (some t) h.0 h.1 x

-- In a run before SIGINT where every `accept` and `pthread_create` succeeds, no step of a thread
-- reads a cell that was freed, whenever it starts; and the loop of SIGINT reads none.
pub step_safe :
    (s : Server)
    → IsRun s
    → ((o : Option Server) → Step s o → o ≢ none) × (handle_sigint s.pending ≢ none)
unfolding handle_sigint
step_safe s r =
    let h = run-IsGood s r in
    (
      λ o t e. refuted (subst IsGoodAfter e (step-IsGoodAfter s o h.0 h.1 t)),
      λ e.
          let (fds, q) = close_all-IsGood s.pending.cells s.pending.pending_fds h.0 in ground arith,
    )
  where
    refuted : true ≡ false → ⊥
    refuted e = ground arith

close_node-none : (x : Cell) → close_node x none ≡ none
close_node-none freed = refl
close_node-none unset = refl
close_node-none (holds fd) = refl

close_all_freed :
    (c : ℕ) (cells : ℕ → Cell) (cs : List ℕ)
    → mem c cs ≡ true
    → close_all (put c freed cells) cs ≡ none
unfolding close_all mem
close_all_freed c cells [] m = cc
close_all_freed c cells (d ∷ cs) m = elim (ℕ_discrete d c) [
  | yes q ↦
      ap (λ x. close_node x (close_all (put c freed cells) cs))
        (ap (put c freed cells) q ∙ put_self c freed cells)
  | no n ↦
      ap (close_node (put c freed cells d))
        (close_all_freed c cells cs (ground (arith, ==_iff d c)))
      ∙ close_node-none (put c freed cells d)
]

-- After an `accept` that failed with its node in the list, SIGINT reads the cell that was freed.
pub accept_failed-handle_sigint :
    (c : ℕ) (s : Pending) → mem c s.pending_fds ≡ true → handle_sigint (accept_failed c s) ≡ none
unfolding handle_sigint
accept_failed-handle_sigint c s m = close_all_freed c s.cells s.pending_fds m
