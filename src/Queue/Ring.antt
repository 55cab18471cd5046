-- ===== src/Queue/Ring.antt =====
-- Which list of items a ring of src/queue.c holds.
use oai_lte_5g_multi_ue_prox.Base.{
  ℕ, zero, suc, ◌+◌, ◌%◌, ◌≤◌, ◌<◌, ◌≡◌, refl, List, [], ◌∷◌, ◌++◌, Option, some, arith, length,
  get_elem?, if◌then◌else◌, ◌==◌,
}
use oai_lte_5g_multi_ue_prox.Queue.{Queue, max_queue_size, update}

-- The ring holds `xs`, oldest first: `xs` starts at `read_index`, the next free slot is
-- `write_index`, and every slot that `xs` does not fill is NULL.
pub record Represents {ℓ} {A : Type ℓ} (q : Queue A) (xs : List A) : Type ℓ where
  pub read_in : q.read_index < max_queue_size
  pub fits : length xs ≤ max_queue_size
  pub counted : q.num_items ≡ length xs
  pub written : q.write_index ≡ (q.read_index + length xs) % max_queue_size
  pub slot :
      (k : ℕ) → k < max_queue_size → q.items ((q.read_index + k) % max_queue_size) ≡ get_elem? xs k

module _ {ℓ} {A : Type ℓ} where
  -- A write at offset `n` from `r` is seen at that offset alone.
  pub update_at_offset :
      (items : ℕ → Option A) (r w n k : ℕ) (v : Option A)
      → n < max_queue_size
      → k < max_queue_size
      → w ≡ (r + n) % max_queue_size
      → update items w v ((r + k) % max_queue_size)
        ≡ (if n == k then v else items ((r + k) % max_queue_size))
  update_at_offset items r w n k v hn hk h = ground arith

  pub get_elem?-snoc :
      (xs : List A) (x : A) (k : ℕ)
      → get_elem? (xs ++ x ∷ []) k ≡ (if length xs == k then some x else get_elem? xs k)
  get_elem?-snoc [] x zero = refl
  get_elem?-snoc [] x (suc k) = ground arith
  get_elem?-snoc (y ∷ xs) x zero = ground arith
  get_elem?-snoc (y ∷ xs) x (suc k) = ground (arith, get_elem?-snoc xs x k)
