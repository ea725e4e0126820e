-- ===== src/SortIndex/Claims.antt =====
-- How the threads claim blocks and pairs: under `map_mutex` a thread looks for the first entry of
-- the map that is zero, sets it, and works on it (lab06/src/sort_index.c, `worker_thread`).
use osi_s.Prelude.{
  ℕ, zero, suc, ◌+◌, ◌≤◌, ◌<◌, ◌≡◌, refl, ap, List, [], ◌∷◌, ◌++◌, Bool, true, false, not, Option,
  none, some, if◌then◌else◌, length, get_or, set, replicate, arith, inl, inr, Option-cases,
  length-replicate, ltb, min, ◌==◌, ==_iff, ℕ_discrete, subst, get_or-set_self, get_or-set_ne,
}

-- `for (i..blocks) if (!block_map[i]) { block_map[i] = 1; next = i; break; }`
unfoldable pub claim : List Bool → Option ℕ
claim [] = none
claim (false ∷ marks) = some 0
claim (true ∷ marks) = elim (claim marks) [ none ↦ none | some i ↦ some (i + 1) ]

-- The claims of all threads until one finds nothing left, in the order in which they hold the
-- mutex; the fuel is the length of the map.
pub claims : ℕ → List Bool → List ℕ
claims zero marks = []
claims (suc f) marks = elim (claim marks) [ none ↦ [] | some i ↦ i ∷ claims f (set marks i true) ]

-- The map at the start of the first phase: the first `threads` blocks are taken by the threads'
-- own numbers.
pub initial_map : ℕ → ℕ → List Bool
initial_map threads zero = []
initial_map zero (suc blocks) = false ∷ initial_map zero blocks
initial_map (suc threads) (suc blocks) = true ∷ initial_map threads blocks

-- The numbers below `n`: the threads' own.
pub upto : ℕ → List ℕ
upto zero = []
upto (suc n) = upto n ++ (n ∷ [])

-- The blocks that are sorted in the first phase, and the pairs that are merged in a round: first
-- those of the threads' own numbers, then those that are claimed. A round clears its map, and does
-- not mark the threads' own pairs.
unfoldable pub block_works : ℕ → ℕ → List ℕ
unfolding claims initial_map upto
block_works threads blocks = upto threads ++ claims blocks (initial_map threads blocks)

unfoldable pub pair_works : ℕ → ℕ → List ℕ
unfolding claims upto
pair_works threads num_pairs =
    upto (min threads num_pairs) ++ claims num_pairs (replicate num_pairs false)

-- How often a work is done.
abbrev pub times : ℕ → List ℕ → ℕ
times k [] = 0
times k (j ∷ js) = (if j == k then 1 else 0) + times k js

times-append : (k : ℕ) (a b : List ℕ) → times k (a ++ b) ≡ times k a + times k b
times-append k [] b = omega arith
times-append k (j ∷ a) b = omega (arith, times-append k a b)

times-upto : (k n : ℕ) → times k (upto n) ≡ (if ltb k n then 1 else 0)
unfolding upto
times-upto k zero = ground arith
times-upto k (suc n) = ground (arith, times-append k (upto n) (n ∷ []), times-upto k n)

abbrev missing : List Bool → ℕ
missing [] = 0
missing (b ∷ marks) = (if b then 0 else 1) + missing marks

claim_first : (marks : List Bool) → claim (true ∷ marks) ≡ some 0 → ⊥
unfolding claim
claim_first marks h = ground arith

claim_later :
    (marks : List Bool) (i : ℕ) → claim (true ∷ marks) ≡ some (suc i) → claim marks ≡ some i
unfolding claim
claim_later marks i h = ground arith

claim_now : (marks : List Bool) (i : ℕ) → claim (false ∷ marks) ≡ some i → i ≡ 0
unfolding claim
claim_now marks i h = ground arith

-- What a claim finds.
record Found (marks : List Bool) (i : ℕ) : Type 0 where
  inside : i < length marks
  open_mark : get_or marks i true ≡ false
  fewer : missing (set marks i true) + 1 ≡ missing marks

claim-some : (marks : List Bool) (i : ℕ) → claim marks ≡ some i → Found marks i
claim-some [] i h = unfold claim in absurd (ground arith)
claim-some (false ∷ marks) zero h = record {
  inside = omega arith;
  open_mark = refl;
  fewer = omega arith;
}
claim-some (false ∷ marks) (suc i) h = absurd (omega (arith, claim_now marks (suc i) h))
claim-some (true ∷ marks) zero h = absurd (claim_first marks h)
claim-some (true ∷ marks) (suc i) h =
    let f = claim-some marks i (claim_later marks i h) in
    record {
      inside = omega (arith, f.inside);
      open_mark = f.open_mark;
      fewer = omega (arith, f.fewer);
    }

-- A claim that finds nothing finds a full map.
claim-none : (marks : List Bool) (k : ℕ) → claim marks ≡ none → get_or marks k true ≡ true
unfolding claim
claim-none [] k h = refl
claim-none (false ∷ marks) k h = absurd (ground arith)
claim-none (true ∷ marks) zero h = refl
claim-none (true ∷ marks) (suc k) h = claim-none marks k (ground arith)

get_or-set_mark :
    (marks : List Bool) (i k : ℕ)
    → i < length marks
    → get_or (set marks i true) k true ≡ (if i == k then true else get_or marks k true)
get_or-set_mark marks i k h = elim (ℕ_discrete i k) [
  | yes e ↦
      rw ((==_iff i k).1 e) (
        subst (λ j. get_or (set marks i true) j true ≡ true) e
          (get_or-set_self marks i true true h))
  | no ne ↦ ground (arith, get_or-set_ne marks i k true true ne)
]

missing_zero : (marks : List Bool) (k : ℕ) → missing marks ≡ 0 → get_or marks k true ≡ true
missing_zero [] k h = refl
missing_zero (false ∷ marks) k h = absurd (omega arith)
missing_zero (true ∷ marks) zero h = refl
missing_zero (true ∷ marks) (suc k) h = missing_zero marks k (omega arith)

claims_end : (f : ℕ) (marks : List Bool) → claim marks ≡ none → claims (suc f) marks ≡ []
unfolding claims
claims_end f marks h = ground arith

claims_next :
    (f : ℕ) (marks : List Bool) (i : ℕ)
    → claim marks ≡ some i
    → claims (suc f) marks ≡ i ∷ claims f (set marks i true)
unfolding claims
claims_next f marks i h = ground arith

-- Every entry that was zero is claimed once, and no other.
times-claims :
    (f : ℕ) (marks : List Bool) (k : ℕ)
    → missing marks ≤ f
    → times k (claims f marks) ≡ (if get_or marks k true then 0 else 1)
times-claims zero marks k h = unfold claims in rw (missing_zero marks k (omega arith)) refl
times-claims (suc f) marks k h = elim (Option-cases (claim marks)) [
  | inl e ↦ rw (claims_end f marks e, claim-none marks k e) refl
  | inr found ↦
      let i = found.0 in
      let spot = claim-some marks i found.1 in
      let rest = times-claims f (set marks i true) k (omega (arith, spot.fewer)) in
      elim (ℕ_discrete i k) [
        | yes e ↦ ground (
          arith,
          claims_next f marks i found.1,
          rest,
          get_or-set_mark marks i k spot.inside,
          subst (λ j. get_or marks j true ≡ false) e spot.open_mark,
        )
        | no ne ↦
            ground
              (arith, claims_next f marks i found.1, rest, get_or-set_mark marks i k spot.inside)
      ]
]

get_or-initial_map :
    (threads blocks k : ℕ)
    → get_or (initial_map threads blocks) k true ≡ (if ltb k blocks then ltb k threads else true)
unfolding initial_map
get_or-initial_map threads zero k = ground arith
get_or-initial_map zero (suc blocks) zero = ground arith
get_or-initial_map (suc threads) (suc blocks) zero = ground arith
get_or-initial_map zero (suc blocks) (suc k) = ground (arith, get_or-initial_map zero blocks k)
get_or-initial_map (suc threads) (suc blocks) (suc k) =
    ground (arith, get_or-initial_map threads blocks k)

get_or-replicate : (n k : ℕ) → get_or (replicate n false) k true ≡ not (ltb k n)
get_or-replicate zero k = ground arith
get_or-replicate (suc n) zero = ground arith
get_or-replicate (suc n) (suc k) = ground (arith, get_or-replicate n k)

missing-le : (marks : List Bool) → missing marks ≤ length marks
missing-le [] = omega arith
missing-le (true ∷ marks) = omega (arith, missing-le marks)
missing-le (false ∷ marks) = omega (arith, missing-le marks)

length-initial_map : (threads blocks : ℕ) → length (initial_map threads blocks) ≡ blocks
unfolding initial_map
length-initial_map threads zero = refl
length-initial_map zero (suc blocks) = ap suc (length-initial_map zero blocks)
length-initial_map (suc threads) (suc blocks) = ap suc (length-initial_map threads blocks)

-- The first phase sorts each of the blocks exactly once, the threads' own and the claimed ones
-- together, and no other, if there are at least as many blocks as threads.
pub block_works_once :
    (threads blocks k : ℕ)
    → threads ≤ blocks
    → times k (block_works threads blocks) ≡ (if ltb k blocks then 1 else 0)
unfolding block_works
block_works_once threads blocks k h = ground (
  arith,
  times-append k (upto threads) (claims blocks (initial_map threads blocks)),
  times-upto k threads,
  times-claims blocks (initial_map threads blocks) k
      (omega (arith, missing-le (initial_map threads blocks), length-initial_map threads blocks)),
  get_or-initial_map threads blocks k,
)

-- A round merges every pair at least once, but the pairs that have a thread's number twice: that
-- thread merges its pair without marking it, and the pair is then claimed again.
pub pair_works_twice :
    (threads num_pairs k : ℕ)
    → times k (pair_works threads num_pairs)
      ≡ (if ltb k num_pairs then (if ltb k threads then 2 else 1) else 0)
unfolding pair_works
pair_works_twice threads num_pairs k = ground (
  arith,
  times-append k (upto (min threads num_pairs)) (claims num_pairs (replicate num_pairs false)),
  times-upto k (min threads num_pairs),
  times-claims num_pairs (replicate num_pairs false) k
      (omega (arith, missing-le (replicate num_pairs false), length-replicate num_pairs false)),
  get_or-replicate num_pairs k,
)
