-- ===== src/Ring/Laws.antt =====
-- The ring as a bounded queue: its invariant, and each section against its contents.
use osi_s.Prelude.{
  ℕ, zero, suc, ◌+◌, ◌-◌, ◌%◌, ◌<◌, ◌≤◌, ◌≡◌, refl, sym, ap, ◌∙◌, [], ◌∷◌, ◌++◌, get_or, set,
  length, length-set, length-replicate, mod-add-mod, mod-eq_of_lt, arith,
}
use osi_s.Ring.{Ring, alloc, queue_init, put, get, resize, drain}
use osi_s.Ring.Contents.{slots, contents, slots-set, slots-front, length-slots}
use osi_s.Ring.Copy.{length-copy_loop}

pub record IsValid (q : Ring) : Type 0 where
  pub storage : length q.buffer ≡ q.capacity
  pub head_in : q.head < q.capacity
  pub fits : q.count ≤ q.capacity
  pub tail_at : q.tail ≡ (q.head + q.count) % q.capacity
  pub totals : q.added_count ≡ q.removed_count + q.count

pub queue_init-IsValid : IsValid queue_init
queue_init-IsValid = omega arith

pub put-IsValid : (msg : ℕ) (q : Ring) → IsValid q → q.count < q.capacity → IsValid (put msg q)
unfolding put
put-IsValid msg q v h = record {
  storage = length-set q.buffer q.tail msg ∙ v.storage;
  head_in = v.head_in;
  fits = omega arith;
  tail_at =
      ap (λ t. (t + 1) % q.capacity) v.tail_at
      ∙ mod-add-mod _ _ _
      ∙ ap (λ k. k % q.capacity) (omega arith);
  totals = omega arith;
}

pub get-IsValid : (q : Ring) → IsValid q → 0 < q.count → IsValid (get q).1
unfolding get
get-IsValid q v h = record {
  storage = v.storage;
  head_in = omega arith;
  fits = omega arith;
  tail_at =
      v.tail_at
      ∙ ap (λ k. k % q.capacity) (omega arith)
      ∙ sym (mod-add-mod (q.head + 1) q.capacity (q.count - 1));
  totals = omega arith;
}

pub resize-IsValid :
    (newcap : ℕ) (q : Ring) → IsValid q → q.count < newcap → IsValid (resize newcap q)
unfolding resize
resize-IsValid newcap q v h = record {
  storage = length-copy_loop q.count q 0 (alloc newcap) ∙ length-replicate newcap 0;
  head_in = omega arith;
  fits = omega arith;
  tail_at = sym (mod-eq_of_lt {n = 0 + q.count} {m = newcap} (omega arith) ∙ omega arith);
  totals = v.totals;
}

-- Storing appends the message to the queue.
pub contents-put :
    (msg : ℕ) (q : Ring)
    → IsValid q
    → q.count < q.capacity
    → contents (put msg q) ≡ contents q ++ (msg ∷ [])
unfolding put
contents-put msg q v h =
    ap (λ t. slots (set q.buffer t msg) q.capacity q.head 0 (q.count + 1)) v.tail_at
    ∙ ap (slots (set q.buffer ((q.head + q.count) % q.capacity) msg) q.capacity q.head 0)
        {y = suc q.count} (omega arith)
    ∙ slots-set q.buffer q.capacity q.head q.count msg v.head_in h (omega (arith, v.storage))

-- Taking returns the oldest message and leaves the rest.
pub contents-get :
    (q : Ring) → IsValid q → 0 < q.count → contents q ≡ (get q).0 ∷ contents (get q).1
unfolding get
contents-get q v h =
    ap (slots q.buffer q.capacity q.head 0) {y = suc (q.count - 1)} (omega arith)
    ∙ slots-front q.buffer q.capacity q.head (q.count - 1) v.head_in

pub length-contents : (q : Ring) → length (contents q) ≡ q.count
length-contents q = length-slots q.buffer q.capacity q.head 0 q.count

-- `drain` over all messages frees the contents in order.
pub drain-contents :
    (n : ℕ) (q : Ring)
    → q.head < q.capacity
    → n ≡ q.count
    → ((drain n q).0 ≡ contents q) × ((drain n q).1.count ≡ 0)
unfolding drain
drain-contents zero q v e = (ap (slots q.buffer q.capacity q.head 0) e, sym e)
drain-contents (suc n) q v e =
    let rest = drain-contents n next (omega arith) (omega arith) in
    (
      ap (◌∷◌ (get_or q.buffer q.head 0)) (rest.0 ∙ shorter)
          ∙ sym (slots-front q.buffer q.capacity q.head n v)
          ∙ ap (slots q.buffer q.capacity q.head 0) e,
      rest.1,
    )
  where
    next : Ring
    next = record q { head = (q.head + 1) % q.capacity; count = q.count - 1 }

    shorter : contents next ≡ slots q.buffer q.capacity ((q.head + 1) % q.capacity) 0 n
    shorter = ap (slots q.buffer q.capacity ((q.head + 1) % q.capacity) 0) (omega arith)

-- The sizes after each section.
pub put_sizes :
    (msg : ℕ) (q : Ring) → ((put msg q).count ≡ q.count + 1) × ((put msg q).capacity ≡ q.capacity)
unfolding put
put_sizes msg q = (refl, refl)

pub get_sizes : (q : Ring) → ((get q).1.count ≡ q.count - 1) × ((get q).1.capacity ≡ q.capacity)
unfolding get
get_sizes q = (refl, refl)

pub resize_sizes :
    (newcap : ℕ) (q : Ring)
    → ((resize newcap q).count ≡ q.count) × ((resize newcap q).capacity ≡ newcap)
unfolding resize
resize_sizes newcap q = (refl, refl)
