-- ===== src/Remote/Pending/Nodes.antt =====
-- Cells that are in use and apart: what the list of lab08/src/server.c keeps, and what its loops do
-- to such a list.
use osi_s.Prelude.{
  ℕ, ◌≡◌, refl, sym, ap, ◌∙◌, subst, ◌≢◌, ◌↔◌, ◌⊎◌, inl, inr, true, false, some, List, [], ◌∷◌,
  arith, ◌==◌, ==_iff, ℕ_discrete,
}
use osi_s.Remote.Pending.{
  Cell, freed, unset, holds, put, with_node, at_node, take_out, close_node, close_all, mem, without,
}

-- The cells of the nodes are in use, and no two are one or hold one descriptor.
pub data IsGood (cells : ℕ → Cell) : List ℕ → Type 0 where
  good_end : IsGood cells []
  good_node :
      (c : ℕ) (cs : List ℕ)
      → cells c ≢ freed
      → mem c cs ≡ false
      → ((d g : ℕ) → mem d cs ≡ true → cells d ≡ holds g → cells c ≢ holds g)
      → IsGood cells cs
      → IsGood cells (c ∷ cs)

pub put_other : (c d : ℕ) (x : Cell) (cells : ℕ → Cell) → c ≢ d → put c x cells d ≡ cells d
unfolding put
put_other c d x cells n = ground (arith, ==_iff c d)

pub put_self : (c : ℕ) (x : Cell) (cells : ℕ → Cell) → put c x cells c ≡ x
unfolding put
put_self c x cells = ground (arith, ==_iff c c)

apart : (c d : ℕ) (cs : List ℕ) → mem c cs ≡ false → mem d cs ≡ true → c ≢ d
apart c d cs h k e = absurd (cc)

-- A change of a cell outside the list is not seen.
pub put-IsGood :
    (c : ℕ) (x : Cell) (cells : ℕ → Cell) (cs : List ℕ)
    → mem c cs ≡ false
    → IsGood cells cs
    → IsGood (put c x cells) cs
unfolding mem
put-IsGood c x cells _ h good_end = good_end
put-IsGood c x cells _ h (good_node d ds live once distinct good) =
    good_node d ds (λ e. live (sym (put_other c d x cells here) ∙ e)) once
      (λ b g m e k.
        distinct b g m (sym (put_other c b x cells (apart c b ds rest m)) ∙ e)
          (sym (put_other c d x cells here) ∙ k))
      (put-IsGood c x cells ds rest good)
  where
    here : c ≢ d
    here = ground (arith, ==_iff d c)

    rest : mem c ds ≡ false
    rest = ground arith

pub freed_outside :
    (c : ℕ) (cells : ℕ → Cell) (cs : List ℕ) → IsGood cells cs → cells c ≡ freed → mem c cs ≡ false
unfolding mem
freed_outside c cells _ good_end e = refl
freed_outside c cells _ (good_node d ds live once distinct good) e =
    let apart_here : d ≢ c = λ q. live (ap cells q ∙ e) in
    ground (arith, apart_here, freed_outside c cells ds good e)

put_freed : (c b g : ℕ) (cells : ℕ → Cell) → put c freed cells b ≡ holds g → cells b ≡ holds g
unfolding put
put_freed c b g cells e = ground arith

put_holds :
    (c fd b g : ℕ) (cells : ℕ → Cell)
    → put c (holds fd) cells b ≡ holds g
    → ((c ≡ b) × (fd ≡ g)) ⊎ ((c ≢ b) × (cells b ≡ holds g))
unfolding put
put_holds c fd b g cells e = elim (ℕ_discrete c b) [
  | yes q ↦ inl (q, ground (arith, ==_iff c b))
  | no n ↦ inr (n, ground (arith, ==_iff c b))
]

put_live : (c fd d : ℕ) (cells : ℕ → Cell) → cells d ≢ freed → put c (holds fd) cells d ≢ freed
unfolding put
put_live c fd d cells h e = h (ground arith)

-- The loop of `handle_client` takes out the thread's own node.
pub take_out-IsGood :
    (cells : ℕ → Cell) (c fd : ℕ) (cs : List ℕ)
    → IsGood cells cs
    → mem c cs ≡ true
    → cells c ≡ holds fd
    → take_out cells fd cs ≡ some (without c cs)
unfolding take_out mem without
take_out-IsGood cells c fd _ good_end m e = cc
take_out-IsGood cells c fd _ (good_node d ds live once distinct good) m e = elim (ℕ_discrete d c) [
  | yes q ↦
      ap (λ x. at_node fd d ds x (take_out cells fd ds)) (ap cells q ∙ e)
      ∙ own (==_iff d c) (==_iff fd fd) q
  | no n ↦
      ap (at_node fd d ds (cells d))
        (take_out-IsGood cells c fd ds good (ground (arith, ==_iff d c)) e)
      ∙ passed (cells d) refl n
]
  where
    own :
        ((d == c) ≡ true) ↔ (d ≡ c)
        → ((fd == fd) ≡ true) ↔ (fd ≡ fd)
        → d ≡ c
        → at_node fd d ds (holds fd) (take_out cells fd ds) ≡ some (without c (d ∷ ds))
    own h k q = ground arith

    passed :
        (x : Cell)
        → cells d ≡ x
        → d ≢ c
        → at_node fd d ds x (some (without c ds)) ≡ some (without c (d ∷ ds))
    passed freed q n = absurd (live q)
    passed unset q n = ground (arith, ==_iff d c)
    passed (holds g) q n =
        let other : g ≢ fd = λ r. distinct c fd (ground (arith, ==_iff d c)) e (q ∙ ap holds r) in
        ground (arith, ==_iff d c, ==_iff g fd)

mem-without : (c d : ℕ) (cs : List ℕ) → mem d (without c cs) ≡ true → mem d cs ≡ true
unfolding mem without
mem-without c d [] m = m
mem-without c d (b ∷ cs) m = ground (arith, mem-without c d cs)

pub without-IsGood :
    (c : ℕ) (cells : ℕ → Cell) (cs : List ℕ)
    → IsGood cells cs
    → mem c cs ≡ true
    → IsGood (put c freed cells) (without c cs)
unfolding mem without
without-IsGood c cells _ good_end m = cc
without-IsGood c cells _ (good_node d ds live once distinct good) m = elim (ℕ_discrete d c) [
  | yes q ↦
      subst (IsGood (put c freed cells)) (sym (own q))
        (put-IsGood c freed cells ds (subst (λ b. mem b ds ≡ false) q once) good)
  | no n ↦ subst (IsGood (put c freed cells)) (sym (kept n)) (
      good_node d (without c ds) (λ e. live (sym (put_other c d freed cells (λ q. n (sym q))) ∙ e))
        (absent d ds once)
        (λ b g k e q.
          distinct b g (mem-without c b ds k) (put_freed c b g cells e) (put_freed c d g cells q))
        (without-IsGood c cells ds good (ground (arith, ==_iff d c))))
]
  where
    own : d ≡ c → without c (d ∷ ds) ≡ ds
    own q = ground (arith, ==_iff d c)

    kept : d ≢ c → without c (d ∷ ds) ≡ d ∷ without c ds
    kept n = ground (arith, ==_iff d c)

    absent : (b : ℕ) (cs : List ℕ) → mem b cs ≡ false → mem b (without c cs) ≡ false
    absent b cs h = ground (arith, mem-without c b cs)

-- A new descriptor in a cell.
pub accepted-IsGood :
    (c fd : ℕ) (cells : ℕ → Cell) (cs : List ℕ)
    → ((d : ℕ) → mem d cs ≡ true → cells d ≢ holds fd)
    → IsGood cells cs
    → IsGood (put c (holds fd) cells) cs
unfolding mem
accepted-IsGood c fd cells _ f good_end = good_end
accepted-IsGood c fd cells _ f (good_node d ds live once distinct good) =
    good_node d ds (put_live c fd d cells live) once
      (λ b g m e k. clash b g m (put_holds c fd b g cells e) (put_holds c fd d g cells k))
      (accepted-IsGood c fd cells ds (λ b m. f b (ground arith)) good)
  where
    clash :
        (b g : ℕ)
        → mem b ds ≡ true
        → ((c ≡ b) × (fd ≡ g)) ⊎ ((c ≢ b) × (cells b ≡ holds g))
        → ((c ≡ d) × (fd ≡ g)) ⊎ ((c ≢ d) × (cells d ≡ holds g))
        → ⊥
    clash b g m (inl (p, q)) (inl (r, t)) = apart d b ds once m (sym r ∙ p)
    clash b g m (inl (p, q)) (inr (r, t)) = f d (ground (arith, ==_iff d d)) (t ∙ ap holds (sym q))
    clash b g m (inr (p, q)) (inl (r, t)) = f b (ground arith) (q ∙ ap holds (sym t))
    clash b g m (inr (p, q)) (inr (r, t)) = distinct b g m q t

pub close_all-IsGood :
    (cells : ℕ → Cell) (cs : List ℕ)
    → IsGood cells cs
    → (fds : List ℕ) × (close_all cells cs ≡ some fds)
unfolding close_all
close_all-IsGood cells _ good_end = ([], refl)
close_all-IsGood cells _ (good_node d ds live once distinct good) =
    let (fds, e) = close_all-IsGood cells ds good in closed (cells d) refl fds e
  where
    closed :
        (x : Cell)
        → cells d ≡ x
        → (fds : List ℕ) → close_all cells ds ≡ some fds
        → (found : List ℕ) × (close_node x (close_all cells ds) ≡ some found)
    closed freed q fds e = absurd (live q)
    closed unset q fds e = (fds, e)
    closed (holds fd) q fds e = (fd ∷ fds, ap (with_node fd) e)

pub mem-without_other :
    (c d : ℕ) (cs : List ℕ) → c ≢ d → mem d cs ≡ true → mem d (without c cs) ≡ true
unfolding mem without
mem-without_other c d [] n m = m
mem-without_other c d (b ∷ cs) n m =
    ground (arith, ==_iff b c, ==_iff b d, mem-without_other c d cs n)

pub mem-without_once : (c d : ℕ) (cs : List ℕ) → mem d cs ≡ false → mem d (without c cs) ≡ false
unfolding mem without
mem-without_once c d [] m = m
mem-without_once c d (b ∷ cs) m = ground (arith, mem-without_once c d cs)
