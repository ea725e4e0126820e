-- ===== src/SortIndex/Settings.antt =====
-- The command line of lab06/src/sort_index.c: what `main` accepts, and what it means for the sort of a
-- chunk.
use osi_s.Prelude.{
  ◌^◌, Perm, ℕ, zero, suc, ◌+◌, ◌-◌, ◌*◌, ◌/◌, ◌%◌, ◌≤◌, ◌<◌, ◌≡◌, refl, sym, ap, ◌∙◌, subst, inl,
  inr, Bool, false, not, ◌&&◌, ◌||◌, Option, none, some, List, arith, ltb, ◌==◌, if◌then◌else◌,
  Bool-cases, length, ℕ_discrete,
}
use osi_s.SortIndex.{Index, Marks, sort_chunk}
use osi_s.SortIndex.Claims.{times, block_works, pair_works}
use osi_s.SortIndex.Compare.{leq}
use osi_s.SortIndex.Merge.{IsSorted}
use osi_s.SortIndex.Phases.Blocks.{Sorts}
use osi_s.SortIndex.Worker.{worker-IsSorted}

-- `memsize`, `blocks`, `threads` and `block_size`.
pub record Settings : Type 0 where
  pub memsize : ℕ
  pub blocks : ℕ
  pub threads : ℕ
  pub block_size : ℕ

-- `a & b`, bit by bit; the fuel `a` is more than its bits.
unfoldable pub and_loop : ℕ → ℕ → ℕ → ℕ
and_loop zero a b = 0
and_loop (suc f) a b = (if a % 2 == 1 && b % 2 == 1 then 1 else 0) + 2 * and_loop f (a / 2) (b / 2)

-- `bl & (bl - 1)`
abbrev pub low_bits : ℕ → ℕ
low_bits bl = and_loop bl bl (bl - 1)

-- The calls of `usage`; what `strtol` gives that is not positive is 0 here, and `threads` has 32 bits.
unfoldable pub refused : ℕ → ℕ → ℕ → ℕ → ℕ → Bool
refused pagesize cores ms bl th =
    let threads = th % 4294967296 in
    ms == 0
    || not (ms % pagesize == 0)
    || bl == 0
    || not (low_bits bl == 0)
    || th == 0
    || ltb threads cores
    || ltb (8 * cores) threads
    || ltb bl (4 * threads % 4294967296)

unfoldable pub check_arguments : ℕ → ℕ → ℕ → ℕ → ℕ → Option Settings
check_arguments pagesize cores ms bl th =
    if refused pagesize cores ms bl th
    then none
    else some
        (record { memsize = ms; blocks = bl; threads = th % 4294967296; block_size = ms / bl })

and_loop_self : (f a : ℕ) → a ≤ f → and_loop f a a ≡ a
unfolding and_loop
and_loop_self zero a h = omega arith
and_loop_self (suc f) a h = ground (arith, and_loop_self f (a / 2) (omega arith))

-- A number with no bit in common with the one below it is a power of two.
low_bits-power : (f a : ℕ) → a ≤ f → 0 < a → and_loop f a (a - 1) ≡ 0 → (n : ℕ) × (a ≡ 2 ^ n)
unfolding and_loop
low_bits-power zero a h p e = absurd (omega arith)
low_bits-power (suc f) a h p e = elim (ℕ_discrete (a % 2) 0) [
  | yes even ↦
      let half : (a - 1) / 2 ≡ a / 2 - 1 = omega arith in
      let (n, q) =
        low_bits-power f (a / 2) (omega arith) (omega arith)
          (ap (and_loop f (a / 2)) (sym half) ∙ ground arith) in
      (suc n, omega (arith, q))
  | no odd ↦
      let half : (a - 1) / 2 ≡ a / 2 = omega arith in
      let same_bits : and_loop f (a / 2) ((a - 1) / 2) ≡ a / 2 =
        ap (and_loop f (a / 2)) half ∙ and_loop_self f (a / 2) (omega arith) in
      (0, ground (arith, same_bits))
]

-- What is known of settings that were accepted, on fewer than 2^27 cores.
pub record IsAccepted (ms : ℕ) (S : Settings) : Type 0 where
  pub log : ℕ
  pub power : S.blocks ≡ 2 ^ log
  pub enough : S.threads ≤ S.blocks
  pub positive : 0 < S.blocks
  pub size : S.block_size ≡ ms / S.blocks

refused-false :
    (pagesize cores ms bl th : ℕ)
    → refused pagesize cores ms bl th ≡ false
    → cores < 134217728
    → (low_bits bl ≡ 0) × (0 < bl) × (th % 4294967296 ≤ bl)
unfolding refused
refused-false pagesize cores ms bl th e c = ground arith

pub check_arguments-IsAccepted :
    (pagesize cores ms bl th : ℕ) (S : Settings)
    → check_arguments pagesize cores ms bl th ≡ some S
    → cores < 134217728
    → IsAccepted ms S
unfolding check_arguments
check_arguments-IsAccepted pagesize cores ms bl th S e c =
    elim (Bool-cases (refused pagesize cores ms bl th)) [
      | inl r ↦ absurd (ground (arith, r, e))
      | inr r ↦
          let (bits, more, less) = refused-false pagesize cores ms bl th r c in
          let (n, q) = low_bits-power bl bl (omega arith) more bits in
          subst (IsAccepted ms)
            (same_settings (sym (ap (λ b. if b then none else some given) r) ∙ e))
            (record { log = n; power = q; enough = less; positive = more; size = refl })
    ]
  where
    given : Settings
    given = record { memsize = ms; blocks = bl; threads = th % 4294967296; block_size = ms / bl }

    same_settings : ◌≡◌ {A = Option Settings} (some given) (some S) → given ≡ S
    same_settings q = cc

-- With arguments that `main` accepts, on fewer than 2^27 cores, a chunk of as many entries as its blocks
-- hold is sorted, for any `qsort` that sorts.
pub check_arguments-IsSorted :
    (marks : Marks) (qsort : List (Index (Marks.Mark marks)) → List (Index (Marks.Mark marks)))
    (pagesize cores ms bl th : ℕ) (S : Settings) (base : List (Index (Marks.Mark marks)))
    (blocks_order : List ℕ) (pairs_order : ℕ → ℕ → List ℕ)
    → Sorts (leq marks) qsort
    → check_arguments pagesize cores ms bl th ≡ some S
    → cores < 134217728
    → ((k : ℕ) → times k blocks_order ≡ times k (block_works S.threads S.blocks))
    → ((s m k : ℕ) → times k (pairs_order s m) ≡ times k (pair_works S.threads m))
    → length base ≡ S.blocks * (S.block_size / 16)
    → let after =
        sort_chunk (leq marks) qsort blocks_order pairs_order S.blocks (S.block_size / 16) base in
      IsSorted (leq marks) after × Perm after base
check_arguments-IsSorted marks qsort pagesize cores ms bl th S base blocks_order pairs_order q e c b
      p l =
    let a = check_arguments-IsAccepted pagesize cores ms bl th S e c in
    subst SortedBy (sym a.power)
      (λ h f k.
        worker-IsSorted marks qsort S.threads a.log (S.block_size / 16) base blocks_order
          pairs_order q f p h k)
      a.enough b l
  where
    SortedBy : ℕ → Type 0
    SortedBy blocks =
        S.threads ≤ blocks
        → ((k : ℕ) → times k blocks_order ≡ times k (block_works S.threads blocks))
        → length base ≡ blocks * (S.block_size / 16)
        → let after =
            sort_chunk (leq marks) qsort blocks_order pairs_order blocks (S.block_size / 16) base in
          IsSorted (leq marks) after × Perm after base
