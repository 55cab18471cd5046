-- ===== src/Queue/Gap.antt =====
-- The gap that unqueue_matching of src/queue.c closes in the ring.
use oai_lte_5g_multi_ue_prox.Base.{
  ℕ, zero, suc, ◌+◌, ◌-◌, ◌%◌, ◌<◌, ◌≡◌, refl, ◌∙◌, ap, false, List, [], ◌∷◌, ◌++◌, none, some,
  arith, length, get_elem?, length-append, get_elem?_beyond, append_assoc, append-nil,
  if◌then◌else◌, ◌==◌,
}
use oai_lte_5g_multi_ue_prox.Queue.{Queue, max_queue_size, update, next_index, close_gap}
use oai_lte_5g_multi_ue_prox.Queue.Ring.{Represents, update_at_offset, get_elem?-snoc}

module _ {ℓ} {A : Type ℓ} where
  abbrev pub at : Queue A → ℕ → ℕ
  at q k = (q.read_index + k) % max_queue_size

  get_elem?-replace :
      (xs : List A) (c d : A) (ys : List A) (k : ℕ)
      → get_elem? (xs ++ d ∷ ys) k ≡ (if length xs == k then some d else get_elem? (xs ++ c ∷ ys) k)
  get_elem?-replace [] c d ys zero = refl
  get_elem?-replace [] c d ys (suc k) = ground arith
  get_elem?-replace (x ∷ xs) c d ys zero = ground arith
  get_elem?-replace (x ∷ xs) c d ys (suc k) = ground (arith, get_elem?-replace xs c d ys k)

  replaced-Represents :
      (q : Queue A) (xs : List A) (c d : A) (ys : List A)
      → Represents q (xs ++ c ∷ ys)
      → Represents (record q { items = update q.items (at q (length xs)) (some d) }) (xs ++ d ∷ ys)
  replaced-Represents q xs c d ys v = record {
    read_in = v.read_in;
    fits = omega (arith, len, v.fits);
    counted = omega (arith, len, v.counted);
    written = omega (arith, len, v.written);
    slot = λ k hk.
        update_at_offset q.items q.read_index _ (length xs) k (some d) inside hk refl
        ∙ ground (arith, v.slot k hk, get_elem?-replace xs c d ys k);
  }
    where
      len : length (xs ++ d ∷ ys) ≡ length (xs ++ c ∷ ys)
      len = omega (arith, length-append xs (d ∷ ys), length-append xs (c ∷ ys))

      inside : length xs < max_queue_size
      inside = omega (arith, length-append xs (c ∷ ys), v.fits)

  dropped_last-Represents :
      (q : Queue A) (xs : List A) (c : A)
      → Represents q (xs ++ c ∷ [])
      → Represents
          (record q {
            items = update q.items (at q (length xs)) none;
            write_index = at q (length xs);
            num_items = q.num_items - 1;
          })
          xs
  dropped_last-Represents q xs c v = record {
    read_in = v.read_in;
    fits = omega (arith, inside);
    counted = omega (arith, length-append xs (c ∷ []), v.counted);
    written = refl;
    slot = λ k hk.
        update_at_offset q.items q.read_index _ (length xs) k none inside hk refl
        ∙ ground (arith, v.slot k hk, get_elem?-snoc xs c k, get_elem?_beyond xs k);
  }
    where
      inside : length xs < max_queue_size
      inside = omega (arith, length-append xs (c ∷ []), v.fits)

  pub get_elem?_middle :
      (xs : List A) (c : A) (ys : List A) → get_elem? (xs ++ c ∷ ys) (length xs) ≡ some c
  get_elem?_middle [] c ys = refl
  get_elem?_middle (x ∷ xs) c ys = get_elem?_middle xs c ys

  get_elem?_second :
      (xs : List A) (c d : A) (ys : List A)
      → get_elem? (xs ++ c ∷ d ∷ ys) (length (xs ++ d ∷ [])) ≡ some d
  get_elem?_second [] c d ys = refl
  get_elem?_second (x ∷ xs) c d ys = get_elem?_second xs c d ys

  -- From the slot of `c` on, the inner loop closes the gap and ends.
  pub close_gap-Represents :
      (ys : List A) (fuel : ℕ) (q : Queue A) (xs : List A) (c : A)
      → Represents q (xs ++ c ∷ ys)
      → length ys < fuel
      → (q' : Queue A) × (close_gap fuel (at q (length xs)) q ≡ some q') × Represents q' (xs ++ ys)
  unfolding close_gap
  close_gap-Represents [] zero q xs c v h = absurd (omega arith)
  close_gap-Represents (d ∷ ys) zero q xs c v h = absurd (omega arith)
  close_gap-Represents [] (suc fuel) q xs c v h = (
    record q {
      items = update q.items (at q (length xs)) none;
      write_index = at q (length xs);
      num_items = q.num_items - 1;
    },
    ground (arith, length-append xs (c ∷ []), v.written),
    rw append-nil (dropped_last-Represents q xs c v),
  )
  close_gap-Represents (d ∷ ys) (suc fuel) q xs c v h =
      let (q', e, rep) =
        close_gap-Represents ys fuel
          (record q { items = update q.items (at q (length xs)) (some d) }) (xs ++ d ∷ []) d
          (rw append_assoc (replaced-Represents q xs c d (d ∷ ys) v)) (omega arith) in
      (q', ground (arith, more, found, next_at, e), rw append_assoc at rep)
    where
      next_at : next_index (at q (length xs)) ≡ at q (length (xs ++ d ∷ []))
      next_at = omega (arith, length-append xs (d ∷ []))

      more : (next_index (at q (length xs)) == q.write_index) ≡ false
      more = ground (arith, length-append xs (c ∷ d ∷ ys), v.fits, v.written)

      found : q.items (next_index (at q (length xs))) ≡ some d
      found =
          ap q.items next_at
          ∙ v.slot (length (xs ++ d ∷ []))
              (omega (arith, length-append xs (d ∷ []), length-append xs (c ∷ d ∷ ys), v.fits))
          ∙ get_elem?_second xs c d ys
