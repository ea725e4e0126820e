-- ===== src/SortIndex/Program/Chunkwise.antt =====
-- What `main` of lab06/src/sort_index.c leaves in a file of several chunks: each chunk sorted, the
-- chunks where they were.
use mathlib.Core.List.{Mem, Memᴰ}
use mathlib.Core.List.Perm
use mathlib.Core.HLevel.{⊥_prop}
use mathlib.Core.Logic.{∥∥₁_elim}
use osi_s.Prelude.{
  Perm, take-append-drop, ℕ, zero, suc, ◌+◌, ◌*◌, ◌/◌, ◌≤◌, ◌<◌, ◌≡◌, refl, sym, ap, ◌∙◌, subst,
  Bool, true, false, none, some, List, [], ◌∷◌, ◌++◌, arith, ltb, if◌then◌else◌, length, take, drop,
  length-append, length-take, length-drop, take-append, drop-append,
}
use osi_s.SortIndex.{Index, Marks}
use osi_s.SortIndex.Chunks.{accept_file, expected_size}
use osi_s.SortIndex.Compare.{leq}
use osi_s.SortIndex.Merge.{IsBelow, IsSorted}
use osi_s.SortIndex.Phases.Blocks.{Sorts}
use osi_s.SortIndex.Program.{
  Schedule, IsSchedule, sort_mapped, behind, worked, sort_loop, sort_entries, finished, ended, main,
}
use osi_s.SortIndex.Settings.{Settings, check_arguments, check_arguments-IsSorted}

module _ {A : Type 0} (order : A → A → Bool) where
  -- The second list has the chunks of the first one, each of `size` entries, sorted.
  pub data InChunks (size : ℕ) : List A → List A → Type 0 where
    nothing : InChunks size [] []
    chunk :
        (a b later out : List A)
        → length a ≡ size
        → IsSorted order b
        → Perm b a
        → InChunks size later out
        → InChunks size (a ++ later) (b ++ out)

  sort_loop-InChunks :
      (sort : ℕ → List A → List A) (size work n k : ℕ) (entries : List A)
      → ((m : ℕ) (base : List A)
          → length base ≡ size
          → IsSorted order (sort m base) × Perm (sort m base) base)
      → 0 < size
      → work ≤ size
      → length entries ≡ k * size
      → length entries < n
      → (out : List A) × (sort_loop n sort size work entries ≡ some out) × InChunks size entries out
  unfolding sort_loop
  sort_loop-InChunks sort size work zero k entries s p w l f = absurd (omega arith)
  sort_loop-InChunks sort size work (suc n) k [] s p w l f = ([], refl, nothing)
  sort_loop-InChunks sort size work (suc n) zero (e ∷ es) s p w l f = absurd (omega arith)
  sort_loop-InChunks sort size work (suc n) (suc k) (e ∷ es) s p w l f =
      let entries = e ∷ es in
      let now = take size entries in
      let later = drop size entries in
      let (out, q, chunks) =
        sort_loop-InChunks sort size work n k later s p w (omega (arith, length-drop size entries))
          (omega (arith, length-drop size entries)) in
      let size_now : length now ≡ size = omega (arith, length-take size entries) in
      let (sorted, perm) = s n now size_now in
      (
        sort n now ++ out,
        ap (λ b. if b then none else behind (sort n now) (sort_loop n sort size work later))
              (enough)
            ∙ ap (behind (sort n now)) q,
        subst (λ l. InChunks size l (sort n now ++ out)) (take-append-drop size entries)
            (chunk now (sort n now) later out size_now sorted perm chunks),
      )
    where
      enough : ltb (length (e ∷ es)) work ≡ false
      enough = ground arith

  InChunks-perm : (size : ℕ) (entries out : List A) → InChunks size entries out → Perm out entries
  InChunks-perm size _ _ nothing = Perm.rfl
  InChunks-perm size _ _ (chunk a b later out l s p c) =
      Perm.append p (InChunks-perm size later out c)

  -- In a sorted list no entry of a later part is before one of an earlier part.
  below-mem : (x y : A) (l : List A) → IsBelow order x l → Memᴰ y l → order x y ≡ true
  below-mem x y [] h m = elim m [ ]
  below-mem x y (z ∷ l) h (Memᴰ.head e) = rw e h.0
  below-mem x y (z ∷ l) h (Memᴰ.tail m) = below-mem x y l h.1 m

  IsBelow-append : (x : A) (b out : List A) → IsBelow order x (b ++ out) → IsBelow order x out
  IsBelow-append x [] out h = h
  IsBelow-append x (z ∷ b) out h = IsBelow-append x b out h.1

  IsSorted-mem :
      (x y : A) (b out : List A)
      → IsSorted order (b ++ out)
      → Memᴰ x b
      → Memᴰ y out
      → order x y ≡ true
  IsSorted-mem x y [] out h m k = elim m [ ]
  IsSorted-mem x y (z ∷ b) out h (Memᴰ.head e) k =
      rw e (below-mem z y out (IsBelow-append z b out h.0) k)
  IsSorted-mem x y (z ∷ b) out h (Memᴰ.tail m) k = IsSorted-mem x y b out h.1 m k

  IsSorted-Mem :
      (x y : A) (b out : List A)
      → order x y ≡ false
      → Mem x b
      → Mem y out
      → ¬ IsSorted order (b ++ out)
  IsSorted-Mem x y b out n m k h =
      ∥∥₁_elim m ⊥_prop (λ d. ∥∥₁_elim k ⊥_prop (λ g. apart (IsSorted-mem x y b out h d g)))
    where
      apart : order x y ≡ true → ⊥
      apart t = cc

  -- The first chunk of a file, and what follows it.
  InChunks-split :
      (size : ℕ) (a later entries out : List A)
      → InChunks size entries out
      → length a ≡ size
      → 0 < size
      → entries ≡ a ++ later
      → (b rest : List A) × (out ≡ b ++ rest) × Perm b a × Perm rest later
  InChunks-split size [] later _ _ nothing l p e = absurd (omega arith)
  InChunks-split size (x ∷ a) later _ _ nothing l p e = cc
  InChunks-split size a later _ _ (chunk a' b later' out k s q c) l p e =
      let same_a : a' ≡ a =
        sym (take-append size a' later' k) ∙ ap (take size) e ∙ take-append size a later l in
      let same_later : later' ≡ later =
        sym (drop-append size a' later' k) ∙ ap (drop size) e ∙ drop-append size a later l in
      (
        b,
        out,
        refl,
        subst (Perm b) same_a q,
        subst (Perm out) same_later (InChunks-perm size later' out c),
      )

module _ (marks : Marks) (qsort : List (Index (Marks.Mark marks)) → List (Index (Marks.Mark marks)))
    (W : ℕ → Schedule) where
  -- With arguments that `main` accepts, on fewer than 2^27 cores, and a memory size that the blocks
  -- divide into whole entries, a file of whole chunks is sorted chunk by chunk: `main` gets through,
  -- accesses nothing outside of a mapping, and leaves every chunk sorted in its place, for any
  -- `qsort` that sorts and any order in which the threads do their works in each chunk. The condition
  -- is that no two threads merge one pair at the same time: the program does not exclude that, and
  -- such runs are left out.
  pub main-InChunks :
      (pagesize cores ms bl th filesize k : ℕ) (S : Settings)
      (entries : List (Index (Marks.Mark marks)))
      → Sorts (leq marks) qsort
      → check_arguments pagesize cores ms bl th ≡ some S
      → ((n : ℕ) → IsSchedule S (W n))
      → cores < 134217728
      → 0 < worked S
      → S.memsize ≡ 16 * worked S
      → length entries ≡ k * worked S
      → length entries < 576460752303423488
      → 8 + length entries * 16 ≤ filesize
      → (out : List (Index (Marks.Mark marks))) × (main
            (leq marks)
            qsort
            W
            pagesize
            cores
            ms
            bl
            th
            filesize
            entries
          ≡ finished out)
        × InChunks (leq marks) (worked S) entries out
  unfolding main sort_entries
  main-InChunks pagesize cores ms bl th filesize k S entries q e w c p m l few size =
      let sort = λ (n : ℕ). sort_mapped (leq marks) qsort (W n) S in
      let (out, r, chunks) =
        sort_loop-InChunks (leq marks) sort (worked S) (worked S) (suc (length entries)) k entries
          (λ n base b.
            check_arguments-IsSorted marks qsort pagesize cores ms bl th S base (W n).blocks_order
              (W n).pairs_order q e c (w n).blocks_as (w n).pairs_as b)
          p (omega arith) l (omega arith) in
      (out, rw (e, accepted, whole) (ap ended r), chunks)
    where
      whole : S.memsize / 16 ≡ worked S
      whole = omega arith

      accepted : accept_file filesize (length entries) ≡ some (expected_size (length entries))
      accepted = unfold accept_file in ground arith

  -- A file of more than one whole chunk is not sorted as a whole: with arguments that `main` accepts,
  -- on fewer than 2^27 cores, a memory size that the blocks divide into whole entries, and no two
  -- threads that merge one pair at the same time, the run ends without an error, and if an entry of
  -- the first chunk belongs behind an entry of a later one, the file that it leaves is not sorted.
  pub main_unsorted :
      (pagesize cores ms bl th filesize k : ℕ) (S : Settings)
      (first later : List (Index (Marks.Mark marks))) (x y : Index (Marks.Mark marks))
      → Sorts (leq marks) qsort
      → check_arguments pagesize cores ms bl th ≡ some S
      → ((n : ℕ) → IsSchedule S (W n))
      → cores < 134217728
      → 0 < worked S
      → S.memsize ≡ 16 * worked S
      → length first ≡ worked S
      → length later ≡ k * worked S
      → length (first ++ later) < 576460752303423488
      → 8 + length (first ++ later) * 16 ≤ filesize
      → Mem x first
      → Mem y later
      → leq marks x y ≡ false
      → (out : List (Index (Marks.Mark marks))) × (main
            (leq marks)
            qsort
            W
            pagesize
            cores
            ms
            bl
            th
            filesize
            (first ++ later)
          ≡ finished out)
        × ¬ IsSorted (leq marks) out
  main_unsorted pagesize cores ms bl th filesize k S first later x y q e w c p m f l few size mx my
        n =
      let entries = first ++ later in
      let (out, r, chunks) =
        main-InChunks pagesize cores ms bl th filesize (suc k) S entries q e w c p m
          (omega (arith, length-append first later)) few size in
      let (b, rest, w, pb, pr) =
        InChunks-split (leq marks) (worked S) first later entries out chunks f p refl in
      (
        out,
        r,
        λ h.
            IsSorted-Mem (leq marks) x y b rest n ((Perm.mem_iff pb).1 mx) ((Perm.mem_iff pr).1 my)
              (subst (IsSorted (leq marks)) w h),
      )
