-- ===== src/SortIndex/Chunks.antt =====
-- The loop of `main` in lab06/src/sort_index.c over the chunks of the file: what each round maps, and
-- what the threads touch of it. The arguments are those that `main` has checked.
use osi_s.Prelude.{
  ℕ, zero, suc, ◌+◌, ◌-◌, ◌*◌, ◌%◌, ◌≤◌, ◌<◌, ◌≡◌, ◌↔◌, refl, List, [], ◌∷◌, if◌then◌else◌, ltb, ap,
  ◌∙◌, ◌/◌, arith, dec_lt, if_both, Option, none, some,
}
use native.Mathlib.Nat.{mod-le, div-add-mod, mul-mod_right}

-- The size of the file for its number of records, `expected`, in 64 bits.
abbrev pub expected_size : ℕ → ℕ
expected_size records = (8 + records * 16) % 18446744073709551616

-- The checks of the file's size; the number of records is read in between.
unfoldable pub accept_file : ℕ → ℕ → Option ℕ
accept_file filesize records =
    if ltb filesize 8
    then none
    else if ltb filesize (expected_size records)
    then none
    else some (expected_size records)

-- One mapping: `data_offset`, `page`, `page_offset` and `map_len`.
pub record Chunk : Type 0 where
  pub data_offset : ℕ
  pub page : ℕ
  pub page_offset : ℕ
  pub map_len : ℕ

-- `data_offset & ~(pagesize - 1)` is written with `%`: a page's size is a power of two.
unfoldable pub map_chunk : ℕ → ℕ → ℕ → ℕ → Chunk
map_chunk pagesize memsize expected data_offset =
    let page = data_offset - data_offset % pagesize in
    let page_offset = data_offset - page in
    let want = page_offset + memsize in
    record {
      data_offset = data_offset;
      page = page;
      page_offset = page_offset;
      map_len = if ltb expected (page + want) then expected - page else want;
    }

-- `while (data_offset < expected)`; `expected` itself is fuel enough.
unfoldable pub chunk_loop : ℕ → ℕ → ℕ → ℕ → ℕ → List Chunk
chunk_loop zero pagesize memsize expected data_offset = []
chunk_loop (suc f) pagesize memsize expected data_offset =
    let rest = chunk_loop f pagesize memsize expected (data_offset + memsize) in
    if ltb data_offset expected then map_chunk pagesize memsize expected data_offset ∷ rest else []

unfoldable pub chunks : ℕ → ℕ → ℕ → List Chunk
unfolding chunk_loop
chunks pagesize memsize expected = chunk_loop expected pagesize memsize expected 8

-- How many mappings hold a byte of the file behind their `page_offset`.
abbrev pub holders : ℕ → List Chunk → ℕ
holders b [] = 0
holders b (c ∷ cs) =
    (if ltb b (c.page + c.page_offset) then 0 else if ltb b (c.page + c.map_len) then 1 else 0)
    + holders b cs

-- All mappings start on a page, and the entries in them at the chunk's offset.
abbrev pub AllPaged : ℕ → List Chunk → Type 0
AllPaged pagesize [] = Unit
AllPaged pagesize (c ∷ cs) =
    (c.page % pagesize ≡ 0) × (c.page + c.page_offset ≡ c.data_offset) × AllPaged pagesize cs

holders-before :
    (f pagesize memsize expected o b : ℕ)
    → b < o
    → holders b (chunk_loop f pagesize memsize expected o) ≡ 0
unfolding chunk_loop map_chunk
holders-before zero pagesize memsize expected o b h = refl
holders-before (suc f) pagesize memsize expected o b h = ground (
  arith,
  mod-le o pagesize,
  holders-before f pagesize memsize expected (o + memsize) b (omega arith),
)

holders-chunk_loop :
    (f pagesize memsize expected o b : ℕ)
    → 0 < memsize
    → o ≤ b
    → b < expected
    → b < o + f
    → holders b (chunk_loop f pagesize memsize expected o) ≡ 1
unfolding chunk_loop map_chunk
holders-chunk_loop zero pagesize memsize expected o b p h k e = absurd (omega arith)
holders-chunk_loop (suc f) pagesize memsize expected o b p h k e = elim (dec_lt b (o + memsize)) [
  | yes now ↦
      ground
        (arith, mod-le o pagesize, holders-before f pagesize memsize expected (o + memsize) b now)
  | no later ↦ ground (
    arith,
    mod-le o pagesize,
    holders-chunk_loop f pagesize memsize expected (o + memsize) b p (omega arith) k (omega arith),
  )
]

page_start : (pagesize o : ℕ) → (o - o % pagesize) % pagesize ≡ 0
page_start pagesize o =
    ap (λ k. k % pagesize) {x = o - o % pagesize} {y = pagesize * (o / pagesize)}
      (omega (arith, div-add-mod o pagesize))
    ∙ mul-mod_right pagesize (o / pagesize)

AllPaged-chunk_loop :
    (f pagesize memsize expected o : ℕ)
    → AllPaged pagesize (chunk_loop f pagesize memsize expected o)
unfolding chunk_loop map_chunk
AllPaged-chunk_loop zero pagesize memsize expected o = tt
AllPaged-chunk_loop (suc f) pagesize memsize expected o =
    if_both (AllPaged pagesize) (ltb o expected)
      (map_chunk pagesize memsize expected o ∷ chunk_loop f pagesize memsize expected (o + memsize))
      []
      (
        page_start pagesize o,
        omega (arith, mod-le o pagesize),
        AllPaged-chunk_loop f pagesize memsize expected (o + memsize),
      )
      tt

-- If `memsize` is not zero, every byte of the file from the header's eight bytes to the expected size
-- lies in exactly one mapping, behind its `page_offset`; and each mapping starts on a page and has
-- its `page_offset` at the chunk's `data_offset`. What the threads then sort of a mapping is not part
-- of this.
pub chunks_partition :
    (pagesize memsize expected b : ℕ)
    → 0 < memsize
    → 8 ≤ b
    → b < expected
    → (holders b (chunks pagesize memsize expected) ≡ 1)
      × AllPaged pagesize (chunks pagesize memsize expected)
unfolding chunks
chunks_partition pagesize memsize expected b p h k = (
  holders-chunk_loop expected pagesize memsize expected 8 b p h k (omega arith),
  AllPaged-chunk_loop expected pagesize memsize expected 8,
)

-- A mapping starts on a page and ends inside the expected size. The `memsize` bytes from
-- `page_offset` on, which the threads divide into blocks, lie inside the mapping exactly when
-- `memsize` bytes are left in the file.
chunk_overruns :
    (pagesize memsize expected o : ℕ)
    → o < expected
    → let c = map_chunk pagesize memsize expected o in
      (c.page % pagesize ≡ 0)
      × (c.page + c.map_len ≤ expected)
      × ((c.page_offset + memsize ≤ c.map_len) ↔ (o + memsize ≤ expected))
unfolding map_chunk
chunk_overruns pagesize memsize expected o h = (
  ap (λ k. k % pagesize) {x = o - o % pagesize} {y = pagesize * (o / pagesize)}
        (omega (arith, div-add-mod o pagesize))
      ∙ mul-mod_right pagesize (o / pagesize),
  ground (arith, mod-le o pagesize),
  (λ e. ground (arith, mod-le o pagesize), λ e. ground (arith, mod-le o pagesize)),
)
