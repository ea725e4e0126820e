-- ===== src/Ring/Contents.antt =====
-- The queue that a ring stands for, oldest message first, and how a write or a turn changes it.
use osi_s.Prelude.{
  ℕ, zero, suc, ◌+◌, ◌-◌, ◌%◌, ◌<◌, ◌≤◌, ◌≡◌, ◌≢◌, refl, sym, ap, ap₂, ◌∙◌, List, [], ◌∷◌, ◌++◌,
  get_or, set, length, dec_lt, get_or-set_ne, get_or-set_self, mod-add-mod, mod-eq_of_lt,
  mod-eq-sub-mod, arith,
}
use osi_s.Ring.{Ring}

-- The `n` slots at offsets `i`, `i + 1`, … from `h`, going round at `cap`.
abbrev pub slots : List ℕ → ℕ → ℕ → ℕ → ℕ → List ℕ
slots buf cap h i zero = []
slots buf cap h i (suc n) = get_or buf ((h + i) % cap) 0 ∷ slots buf cap h (i + 1) n

abbrev pub contents : Ring → List ℕ
contents q = slots q.buffer q.capacity q.head 0 q.count

pub length-slots : (buf : List ℕ) (cap h i n : ℕ) → length (slots buf cap h i n) ≡ n
length-slots buf cap h i zero = refl
length-slots buf cap h i (suc n) = ap suc (length-slots buf cap h (i + 1) n)

-- Two windows that agree slot by slot are one list.
pub slots_ext :
    (b c : List ℕ) (m k g h i n : ℕ)
    → ((j : ℕ) → i ≤ j → j < i + n → get_or b ((g + j) % m) 0 ≡ get_or c ((h + j) % k) 0)
    → slots b m g i n ≡ slots c k h i n
slots_ext b c m k g h i zero e = refl
slots_ext b c m k g h i (suc n) e =
    ap₂ ◌∷◌ (e i (omega arith) (omega arith))
      (slots_ext b c m k g h (i + 1) n (λ j p q. e j (omega arith) (omega arith)))

-- Different offsets below the capacity are different slots.
offset-ne : (cap h i n : ℕ) → h < cap → i < n → n < cap → (h + n) % cap ≢ (h + i) % cap
offset-ne cap h i n p q r = elim (dec_lt (h + i) cap) [
  | yes a ↦ elim (dec_lt (h + n) cap) [
    | yes b ↦ omega (arith, mod-eq_of_lt a, mod-eq_of_lt b)
    | no b ↦ omega (
      arith,
      mod-eq_of_lt a,
      mod-eq-sub-mod {n = h + n} {m = cap} (omega arith),
      mod-eq_of_lt {n = h + n - cap} {m = cap} (omega arith),
    )
  ]
  | no a ↦ omega (
    arith,
    mod-eq-sub-mod {n = h + i} {m = cap} (omega arith),
    mod-eq_of_lt {n = h + i - cap} {m = cap} (omega arith),
    mod-eq-sub-mod {n = h + n} {m = cap} (omega arith),
    mod-eq_of_lt {n = h + n - cap} {m = cap} (omega arith),
  )
]

slots-snoc :
    (buf : List ℕ) (cap h i n : ℕ)
    → slots buf cap h i (suc n) ≡ slots buf cap h i n ++ (get_or buf ((h + (i + n)) % cap) 0 ∷ [])
slots-snoc buf cap h i zero = ap (λ k. get_or buf ((h + k) % cap) 0 ∷ []) (omega arith)
slots-snoc buf cap h i (suc n) = ap (◌∷◌ (get_or buf ((h + i) % cap) 0)) (
    slots-snoc buf cap h (i + 1) n
    ∙ ap (λ k. slots buf cap h (i + 1) n ++ (get_or buf ((h + k) % cap) 0 ∷ [])) (omega arith))

-- A write just past the window extends it.
pub slots-set :
    (buf : List ℕ) (cap h n x : ℕ)
    → h < cap
    → n < cap
    → (h + n) % cap < length buf
    → slots (set buf ((h + n) % cap) x) cap h 0 (suc n) ≡ slots buf cap h 0 n ++ (x ∷ [])
slots-set buf cap h n x p q r =
    slots-snoc (set buf ((h + n) % cap) x) cap h 0 n ∙ ap₂ (λ s v. s ++ (v ∷ [])) old new
  where
    old : slots (set buf ((h + n) % cap) x) cap h 0 n ≡ slots buf cap h 0 n
    old = slots_ext _ buf cap cap h h 0 n λ j _ b.
        get_or-set_ne buf ((h + n) % cap) ((h + j) % cap) x 0
          (offset-ne cap h j n p (omega arith) q)

    at : (h + (0 + n)) % cap ≡ (h + n) % cap
    at = ap (λ k. (h + k) % cap) (omega arith)

    new : get_or (set buf ((h + n) % cap) x) ((h + (0 + n)) % cap) 0 ≡ x
    new = ap (λ k. get_or (set buf ((h + n) % cap) x) k 0) at ∙ get_or-set_self buf _ x 0 r

-- Turning the head by one skips the first slot.
pub slots-turn :
    (buf : List ℕ) (cap h i n : ℕ) → slots buf cap ((h + 1) % cap) i n ≡ slots buf cap h (i + 1) n
slots-turn buf cap h i zero = refl
slots-turn buf cap h i (suc n) =
    ap₂ ◌∷◌ (ap (λ k. get_or buf k 0) step) (slots-turn buf cap h (i + 1) n)
  where
    step : ((h + 1) % cap + i) % cap ≡ (h + (i + 1)) % cap
    step = mod-add-mod _ _ _ ∙ ap (λ k. k % cap) (omega arith)

-- A window that is not empty begins at the head, and goes on from the next slot.
pub slots-front :
    (buf : List ℕ) (cap h n : ℕ)
    → h < cap
    → slots buf cap h 0 (suc n) ≡ get_or buf h 0 ∷ slots buf cap ((h + 1) % cap) 0 n
slots-front buf cap h n p =
    ap₂ ◌∷◌ (ap (λ k. get_or buf k 0) first)
      (ap (λ k. slots buf cap h k n) (omega arith) ∙ sym (slots-turn buf cap h 0 n))
  where
    first : (h + 0) % cap ≡ h
    first = mod-eq_of_lt {n = h + 0} {m = cap} (omega arith) ∙ omega arith
