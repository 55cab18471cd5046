-- ===== src/Queue/Fifo.antt =====
-- put_queue, get_queue, requeue and unqueue of src/queue.c against the list that the ring holds.
use oai_lte_5g_multi_ue_prox.Base.{
  ℕ, zero, suc, ◌+◌, ◌%◌, ◌<◌, ◌≡◌, refl, ◌∙◌, ap, true, false, List, [], ◌∷◌, ◌++◌, none, some,
  returns, arith, length, get_elem?, length-append, get_elem?_beyond, dec_lt, ◌-◌,
}
use oai_lte_5g_multi_ue_prox.Queue.{
  Queue, max_queue_size, update, next_index, previous_index, init_queue, put_queue, get_queue,
  requeue, unqueue,
}
use oai_lte_5g_multi_ue_prox.Queue.Ring.{Represents, update_at_offset, get_elem?-snoc}

module _ {ℓ} {A : Type ℓ} where
  -- A fresh queue is empty.
  pub init_queue-Represents : Represents {A = A} init_queue []
  unfolding init_queue
  init_queue-Represents = record {
    read_in = omega arith;
    fits = omega arith;
    counted = refl;
    written = refl;
    slot = λ k h. refl;
  }

  pushed-Represents :
      (q : Queue A) (xs : List A) (x : A)
      → Represents q xs
      → length xs < max_queue_size
      → Represents
          (record q {
            items = update q.items q.write_index (some x);
            write_index = next_index q.write_index;
            num_items = q.num_items + 1;
          })
          (xs ++ x ∷ [])
  pushed-Represents q xs x v h = record {
    read_in = v.read_in;
    fits = omega (arith, length-append xs (x ∷ []), v.fits);
    counted = omega (arith, length-append xs (x ∷ []), v.counted);
    written = omega (arith, length-append xs (x ∷ []), v.written);
    slot = λ k hk.
        update_at_offset q.items q.read_index _ (length xs) k (some x) h hk v.written
        ∙ ground (arith, v.slot k hk, get_elem?-snoc xs x k);
  }

  popped-Represents :
      (q : Queue A) (x : A) (xs : List A)
      → Represents q (x ∷ xs)
      → Represents
          (record q {
            items = update q.items q.read_index none;
            read_index = next_index q.read_index;
            num_items = q.num_items - 1;
          })
          xs
  popped-Represents q x xs v = record {
    read_in = omega arith;
    fits = omega (arith, v.fits);
    counted = omega (arith, v.counted);
    written = omega (arith, v.written);
    slot = λ k hk. elim (dec_lt (suc k) max_queue_size) [
      | yes inside ↦ slide k (suc k) (omega arith) ∙ ground (arith, v.slot (suc k) inside)
      | no last ↦ ground (arith, get_elem?_beyond xs k (omega (arith, v.fits)))
    ];
  }
    where
      slide :
          (k j : ℕ)
          → (next_index q.read_index + k) % max_queue_size ≡ (q.read_index + j) % max_queue_size
          → update q.items q.read_index none ((next_index q.read_index + k) % max_queue_size)
            ≡ update q.items q.read_index none ((q.read_index + j) % max_queue_size)
      slide k j e = ap (update q.items q.read_index none) e

  requeued-Represents :
      (q : Queue A) (xs : List A) (x : A)
      → Represents q xs
      → length xs < max_queue_size
      → Represents
          (record q {
            items = update q.items (previous_index q.read_index) (some x);
            read_index = previous_index q.read_index;
            num_items = q.num_items + 1;
          })
          (x ∷ xs)
  requeued-Represents q xs x v h = record {
    read_in = omega arith;
    fits = omega arith;
    counted = omega (arith, v.counted);
    written = omega (arith, v.written);
    slot = λ k hk. shifted k hk;
  }
    where
      back : ℕ
      back = previous_index q.read_index

      shifted :
          (k : ℕ)
          → k < max_queue_size
          → update q.items back (some x) ((back + k) % max_queue_size) ≡ get_elem? (x ∷ xs) k
      shifted zero hk = ground arith
      shifted (suc k) hk =
          ap (update q.items back (some x)) same ∙ ground (arith, v.slot k (omega arith))
        where
          same : (back + suc k) % max_queue_size ≡ (q.read_index + k) % max_queue_size
          same = omega arith

  unqueued-Represents :
      (q : Queue A) (xs : List A) (x : A)
      → Represents q (xs ++ x ∷ [])
      → (q.items (previous_index q.write_index) ≡ some x)
        × Represents
            (record q {
              items = update q.items (previous_index q.write_index) none;
              write_index = previous_index q.write_index;
              num_items = q.num_items - 1;
            })
            xs
  unqueued-Represents q xs x v = (
    ap q.items (last) ∙ v.slot (length xs) fits ∙ ground (arith, get_elem?-snoc xs x (length xs)),
    record {
      read_in = v.read_in;
      fits = omega (arith, fits);
      counted = omega (arith, len, v.counted);
      written = last;
      slot = λ k hk.
          update_at_offset q.items q.read_index _ (length xs) k none fits hk last
          ∙ ground (arith, v.slot k hk, get_elem?-snoc xs x k, get_elem?_beyond xs k);
    },
  )
    where
      len : length (xs ++ x ∷ []) ≡ length xs + 1
      len = omega (arith, length-append xs (x ∷ []))

      fits : length xs < max_queue_size
      fits = omega (arith, len, v.fits)

      last : previous_index q.write_index ≡ (q.read_index + length xs) % max_queue_size
      last = omega (arith, len, v.written)

  write_slot :
      (q : Queue A) (xs : List A)
      → Represents q xs
      → length xs < max_queue_size
      → q.items q.write_index ≡ none
  write_slot q xs v h =
      ap q.items v.written ∙ v.slot (length xs) h ∙ get_elem?_beyond xs (length xs) (omega arith)

  back_slot :
      (q : Queue A) (xs : List A)
      → Represents q xs
      → length xs < max_queue_size
      → q.items (previous_index q.read_index) ≡ none
  back_slot q xs v h =
      ap q.items same ∙ v.slot 511 (omega arith) ∙ get_elem?_beyond xs 511 (omega arith)
    where
      same : previous_index q.read_index ≡ (q.read_index + 511) % max_queue_size
      same = omega arith

  -- On a queue that holds xs, with the mutex locked, `put_queue` of an item never trips its
  -- assertion. With fewer than 512 items it returns true and leaves xs with the item behind;
  -- with 512 it returns false and leaves the queue as it was.
  pub put_queue-appends :
      (q : Queue A) (xs : List A) (x : A)
      → Represents q xs
      → (length xs < max_queue_size
          → (q' : Queue A) × (put_queue true q (some x) ≡ returns (q', true))
            × Represents q' (xs ++ x ∷ []))
        × (length xs ≡ max_queue_size → put_queue true q (some x) ≡ returns (q, false))
  unfolding put_queue
  put_queue-appends q xs x v = (
    λ h. (_, ground (arith, v.counted, write_slot q xs v h), pushed-Represents q xs x v h),
    λ h. ground (arith, v.counted),
  )

  -- `get_queue` with the mutex locked returns NULL and changes nothing on an empty queue, and
  -- otherwise returns the oldest item and leaves the others in order.
  pub get_queue-removes_oldest :
      (q : Queue A)
      → (Represents q [] → get_queue true q ≡ returns (q, none))
        × ((x : A) (xs : List A)
            → Represents q (x ∷ xs)
            → (q' : Queue A) × (get_queue true q ≡ returns (q', some x)) × Represents q' xs)
  unfolding get_queue
  get_queue-removes_oldest q = (
    λ v. ground (arith, v.counted),
    λ x xs v. (_, ground (arith, v.counted, oldest v), popped-Represents q x xs v),
  )
    where
      oldest : {x : A} {xs : List A} → Represents q (x ∷ xs) → q.items q.read_index ≡ some x
      oldest v = ap q.items (omega (arith, v.read_in)) ∙ v.slot 0 (omega arith)

  -- `requeue` with the mutex locked puts the item before all others, or returns false and changes
  -- nothing when 512 are queued.
  pub requeue-prepends :
      (q : Queue A) (xs : List A) (x : A)
      → Represents q xs
      → (length xs < max_queue_size
          → (q' : Queue A) × (requeue true q (some x) ≡ returns (q', true))
            × Represents q' (x ∷ xs))
        × (length xs ≡ max_queue_size → requeue true q (some x) ≡ returns (q, false))
  unfolding requeue
  requeue-prepends q xs x v = (
    λ h. (_, ground (arith, v.counted, back_slot q xs v h), requeued-Represents q xs x v h),
    λ h. ground (arith, v.counted),
  )

  -- `unqueue` with the mutex locked returns NULL on an empty queue, and otherwise removes and
  -- returns the item queued last.
  pub unqueue-removes_newest :
      (q : Queue A)
      → (Represents q [] → unqueue true q ≡ (q, none))
        × ((xs : List A) (x : A)
            → Represents q (xs ++ x ∷ [])
            → (q' : Queue A) × (unqueue true q ≡ (q', some x)) × Represents q' xs)
  unfolding unqueue
  unqueue-removes_newest q = (
    λ v. ground (arith, v.counted),
    λ xs x v.
        let (found, left) = unqueued-Represents q xs x v in
        (_, ground (arith, v.counted, found, length-append xs (x ∷ [])), left),
  )
