-- ===== src/Message.antt =====
-- `Message`, `calculate_hash` and the messages that a producer makes and a consumer checks
-- (lab05/src/5.2/queue.h, queue.c, main.c; lab05/src/5.1 and lab04 have the same code).
use osi_s.Prelude.{
  ℕ, zero, suc, ◌+◌, ◌%◌, ◌^◌, ◌≤◌, ◌<◌, ◌≡◌, ◌≢◌, refl, sym, ap, ◌∙◌, List, Bool, true, false,
  ◌==◌, get_or, set, length, length-set, ==_iff, arith, get_or-set_self, get_or-set_ne, ℕ_discrete,
}

-- `type`, `size` are uint8_t, `hash` is uint16_t, `data` is 260 bytes.
pub record Message : Type 0 where
  pub type : ℕ
  pub hash : ℕ
  pub size : ℕ
  pub bytes : List ℕ

-- `for (i..size) h += data[i]` on uint16_t, with the rounds left first.
pub hash_loop : ℕ → List ℕ → ℕ → ℕ → ℕ
hash_loop zero bytes i h = h
hash_loop (suc n) bytes i h = hash_loop n bytes (i + 1) ((h + get_or bytes i 0) % 2 ^ 16)

unfoldable pub calculate_hash : Message → ℕ
unfolding hash_loop
calculate_hash msg =
    let h = (0 + msg.type) % 2 ^ 16 in hash_loop msg.size msg.bytes 0 ((h + msg.size) % 2 ^ 16)

-- `for (i..size) data[i] = (uint8_t)(rand() % 256 + 1)` over the values of `rand`.
pub fill : ℕ → (ℕ → ℕ) → ℕ → List ℕ → List ℕ
fill zero rand i bytes = bytes
fill (suc n) rand i bytes = fill n rand (i + 1) (set bytes i ((rand i % 256 + 1) % 256))

-- The message of one round of `producer_task`: `kind`, `len` and `rand` are values of `rand()`,
-- and `storage` is what `malloc` left in `data`.
unfoldable pub produce : ℕ → ℕ → (ℕ → ℕ) → List ℕ → Message
unfolding fill
produce kind len rand storage =
    let size = (len % 256 + 1) % 256 in
    let bytes = fill size rand 0 storage in
    let msg : Message = record { type = kind % 256; hash = 0; size = size; bytes = bytes } in
    record msg { hash = calculate_hash msg }

-- The test of `consumer_task`: `expected == msg->hash`.
unfoldable pub accepts : Message → Bool
accepts msg = calculate_hash msg == msg.hash

-- The sum of the bytes from `i` on.
abbrev pub byte_sum : ℕ → List ℕ → ℕ → ℕ
byte_sum zero bytes i = 0
byte_sum (suc n) bytes i = get_or bytes i 0 + byte_sum n bytes (i + 1)

hash_loop-byte_sum :
    (n : ℕ) (bytes : List ℕ) (i h : ℕ)
    → h < 2 ^ 16
    → hash_loop n bytes i h ≡ (h + byte_sum n bytes i) % 2 ^ 16
unfolding hash_loop
hash_loop-byte_sum zero bytes i h p = omega arith
hash_loop-byte_sum (suc n) bytes i h p =
    omega
      (arith, hash_loop-byte_sum n bytes (i + 1) ((h + get_or bytes i 0) % 2 ^ 16) (omega arith))

-- The loop that wraps at every step computes the sum of the type, the size and the first `size`
-- bytes, reduced once modulo 2^16.
pub calculate_hash-sum :
    (msg : Message)
    → calculate_hash msg ≡ (msg.type + msg.size + byte_sum msg.size msg.bytes 0) % 2 ^ 16
unfolding calculate_hash
calculate_hash-sum msg = omega (
  arith,
  hash_loop-byte_sum msg.size msg.bytes 0 (((0 + msg.type) % 2 ^ 16 + msg.size) % 2 ^ 16)
      (omega arith),
)

-- A byte before the range does not count.
byte_sum_before :
    (n : ℕ) (bytes : List ℕ) (i j v : ℕ) → j < i → byte_sum n (set bytes j v) i ≡ byte_sum n bytes i
byte_sum_before zero bytes i j v h = refl
byte_sum_before (suc n) bytes i j v h = omega (
  arith,
  get_or-set_ne bytes j i v 0 (λ e. omega arith),
  byte_sum_before n bytes (i + 1) j v (omega arith),
)

byte_sum-set :
    (n : ℕ) (bytes : List ℕ) (i j v : ℕ)
    → i ≤ j
    → j < i + n
    → j < length bytes
    → byte_sum n (set bytes j v) i + get_or bytes j 0 ≡ byte_sum n bytes i + v
byte_sum-set zero bytes i j v a b r = absurd (omega arith)
byte_sum-set (suc n) bytes i j v a b r = elim (ℕ_discrete i j) [
  | yes e ↦ omega (
    arith,
    get_or-set_self bytes j v 0 r,
    ap (λ k. get_or bytes k 0) e,
    ap (λ k. get_or (set bytes j v) k 0) e,
    byte_sum_before n bytes (i + 1) j v (omega arith),
  )
  | no ne ↦ omega (
    arith,
    get_or-set_ne bytes j i v 0 (λ e. ne (sym e)),
    byte_sum-set n bytes (i + 1) j v (omega arith) (omega arith) r,
  )
]

-- A message that a consumer would accept is rejected after any one of its first `size` bytes has
-- changed to another byte value.
pub corruption-rejected :
    (msg : Message) (j v : ℕ)
    → accepts msg ≡ true
    → msg.size ≤ length msg.bytes
    → j < msg.size
    → get_or msg.bytes j 0 < 256
    → v < 256
    → v ≢ get_or msg.bytes j 0
    → accepts (record msg { bytes = set msg.bytes j v }) ≡ false
unfolding accepts
corruption-rejected msg j v ok len h old new ne = ground (
  arith,
  calculate_hash-sum msg,
  calculate_hash-sum (record msg { bytes = set msg.bytes j v }),
  byte_sum-set msg.size msg.bytes 0 j v,
)

length-fill :
    (n : ℕ) (rand : ℕ → ℕ) (i : ℕ) (bytes : List ℕ) → length (fill n rand i bytes) ≡ length bytes
unfolding fill
length-fill zero rand i bytes = refl
length-fill (suc n) rand i bytes =
    length-fill n rand (i + 1) (set bytes i ((rand i % 256 + 1) % 256))
    ∙ length-set bytes i ((rand i % 256 + 1) % 256)

-- The hash field is not hashed.
hash_ignored : (m : Message) (h : ℕ) → calculate_hash (record m { hash = h }) ≡ calculate_hash m
unfolding calculate_hash
hash_ignored m h = refl

-- A produced message never uses more than 255 of its 260 bytes, and a consumer accepts it.
pub produce_lem :
    (kind len : ℕ) (rand : ℕ → ℕ) (storage : List ℕ)
    → length storage ≡ 260
    → let msg = produce kind len rand storage in
      (msg.size < length msg.bytes) × (msg.type < 256) × (msg.hash < 2 ^ 16) × (accepts msg ≡ true)
unfolding produce accepts
produce_lem kind len rand storage h =
    let size = (len % 256 + 1) % 256 in
    let bare : Message = record {
      type = kind % 256;
      hash = 0;
      size = size;
      bytes = fill size rand 0 storage;
    } in
    (
      omega (arith, length-fill size rand 0 storage),
      omega arith,
      omega (arith, calculate_hash-sum bare),
      (==_iff _ _).1 (hash_ignored bare (calculate_hash bare)),
    )
