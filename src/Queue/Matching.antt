-- ===== src/Queue/Matching.antt =====
-- unqueue_matching of src/queue.c: which item it takes out, and that its loops end.
use oai_lte_5g_multi_ue_prox.Base.{
  ap₂, ℕ, zero, suc, ◌+◌, ◌-◌, ◌≤◌, ◌<◌, ◌≡◌, refl, sym, ◌∙◌, ap, ◌⊎◌, inl, inr, Bool, true, false,
  List, [], ◌∷◌, ◌++◌, Option, none, some, arith, length, get_elem?, All, length-append,
  append_assoc, dec_lt,
}
use oai_lte_5g_multi_ue_prox.Queue.{
  Queue, max_queue_size, previous_index, search_back, unqueue_matching,
}
use oai_lte_5g_multi_ue_prox.Queue.Ring.{Represents}
use oai_lte_5g_multi_ue_prox.Queue.Gap.{at, get_elem?_middle, close_gap-Represents}

module _ {ℓ} {A : Type ℓ} where
  module _ (matcher : Option A → Bool) where
    -- The items that do not match are passed over, one round and one unit of depth each.
    search_back_skip :
        (m n p depth : ℕ) (q : Queue A)
        → q.read_index < max_queue_size
        → n ≡ p + m
        → m ≤ depth
        → ((k : ℕ) → p ≤ k → k < p + m → matcher (q.items (at q k)) ≡ false)
        → search_back matcher n depth (at q n) q ≡ search_back matcher p (depth - m) (at q p) q
    unfolding search_back
    search_back_skip zero n p depth q r e h rejected =
        let same : n ≡ p = omega arith in
        let left : depth ≡ depth - 0 = omega arith in rw (same, ← left)
    search_back_skip (suc m) zero p depth q r e h rejected = absurd (omega arith)
    search_back_skip (suc m) (suc n) p zero q r e h rejected = absurd (omega arith)
    search_back_skip (suc m) (suc n) p (suc depth) q r e h rejected =
        let back : previous_index (at q (suc n)) ≡ at q n = omega arith in
        let no_match : matcher (q.items (at q n)) ≡ false =
          rejected n (omega arith) (omega arith) in
        rw (back, no_match)
          (search_back_skip m n p depth q r (omega arith) (omega arith)
              (λ k lo hi. rejected k lo (omega arith))
            ∙ ap (λ d. search_back matcher p d (at q p) q) (omega arith))

    search_back_end :
        (q : Queue A) (xs : List A) (depth endi : ℕ)
        → (xs ≡ []) ⊎ (depth ≡ 0)
        → search_back matcher (length xs) depth endi q ≡ some (q, none)
    unfolding search_back
    search_back_end q [] depth endi why = refl
    search_back_end q (x ∷ xs) zero endi why = refl
    search_back_end q (x ∷ xs) (suc depth) endi why = ground arith

    search_back_exhausted :
        (n endi : ℕ) (q : Queue A) → search_back matcher n 0 endi q ≡ some (q, none)
    unfolding search_back
    search_back_exhausted zero endi q = refl
    search_back_exhausted (suc n) endi q = refl

    abbrev pub Rejects : A → Type 0
    Rejects x = matcher (some x) ≡ false

    rejected_at :
        (xs ys : List A) (k : ℕ)
        → All Rejects ys
        → length xs ≤ k
        → k < length (xs ++ ys)
        → (x : A) × (get_elem? (xs ++ ys) k ≡ some x) × Rejects x
    rejected_at [] [] k no_match lo hi = absurd (omega arith)
    rejected_at [] (y ∷ ys) zero no_match lo hi = (y, refl, no_match.0)
    rejected_at [] (y ∷ ys) (suc k) no_match lo hi =
        rejected_at [] ys k no_match.1 (omega arith) (omega arith)
    rejected_at (x ∷ xs) ys zero no_match lo hi = absurd (omega arith)
    rejected_at (x ∷ xs) ys (suc k) no_match lo hi =
        rejected_at xs ys k no_match (omega arith) (omega arith)

    rejected_slot :
        (q : Queue A) (xs ys : List A)
        → Represents q (xs ++ ys)
        → All Rejects ys
        → (k : ℕ) → length xs ≤ k
        → k < length (xs ++ ys)
        → matcher (q.items (at q k)) ≡ false
    rejected_slot q xs ys v no_match k lo hi =
        let (x, e, r) = rejected_at xs ys k no_match lo hi in
        ground (arith, v.slot k (omega (arith, v.fits)))

    -- The search from the newest item, by position instead of by index.
    search_back_start :
        (q : Queue A) (max_depth : ℕ) (xs ys : List A) (m p depth : ℕ)
        → Represents q (xs ++ ys)
        → All Rejects ys
        → m ≤ length ys
        → p + m ≡ length (xs ++ ys)
        → depth + m ≡ max_depth
        → search_back matcher q.num_items max_depth q.write_index q
          ≡ search_back matcher p depth (at q p) q
    search_back_start q max_depth xs ys m p depth v no_match short e d =
        ap₂ (λ n w. search_back matcher n max_depth w q) v.counted v.written
        ∙ search_back_skip m (length (xs ++ ys)) p max_depth q v.read_in (sym e) (omega arith)
            (λ k lo hi.
              rejected_slot q xs ys v no_match k (omega (arith, length-append xs ys)) (omega arith))
        ∙ (let left : max_depth - m ≡ depth = omega arith in
            ap (λ t. search_back matcher p t (at q p) q) left)

    search_back_hit :
        (q : Queue A) (depth : ℕ) (xs : List A) (c : A) (ys : List A)
        → Represents q (xs ++ c ∷ ys)
        → matcher (some c) ≡ true
        → 0 < depth
        → (q' : Queue A) × (search_back matcher (suc (length xs)) depth (at q (suc (length xs))) q
            ≡ some (q', some c))
          × Represents q' (xs ++ ys)
    unfolding search_back
    search_back_hit q zero xs c ys v m h = absurd (omega arith)
    search_back_hit q (suc depth) xs c ys v m h =
        let (q', e, rep) =
          close_gap-Represents ys max_queue_size q xs c v
            (omega (arith, length-append xs (c ∷ ys), v.fits)) in
        let back : previous_index (at q (suc (length xs))) ≡ at q (length xs) = omega arith in
        let found : q.items (at q (length xs)) ≡ some c =
          v.slot (length xs) (omega (arith, length-append xs (c ∷ ys), v.fits))
          ∙ get_elem?_middle xs c ys in
        (q', rw (back, found, m, e), rep)

    -- `unqueue_matching` ends. With the mutex locked it takes out the last queued item that the
    -- matcher accepts, if fewer than `max_depth` items were queued after it, and keeps the others
    -- in order; if none of the last `max_depth` items is accepted it returns NULL and changes
    -- nothing.
    pub unqueue_matching-removes_last_match :
        (q : Queue A) (max_depth : ℕ) (xs ys : List A)
        → All Rejects ys
        → ((c : A)
            → Represents q (xs ++ c ∷ ys)
            → matcher (some c) ≡ true
            → length ys < max_depth
            → (q' : Queue A) × (unqueue_matching matcher true max_depth q ≡ some (q', some c))
              × Represents q' (xs ++ ys))
          × (Represents q (xs ++ ys)
              → (xs ≡ []) ⊎ (max_depth ≤ length ys)
              → unqueue_matching matcher true max_depth q ≡ some (q, none))
    unfolding unqueue_matching
    unqueue_matching-removes_last_match q max_depth xs ys no_match = (
      λ c v m h.
          let (q', e, rep) = search_back_hit q (max_depth - length ys) xs c ys v m (omega arith) in
          (
            q',
            search_back_start q max_depth (xs ++ c ∷ []) ys (length ys) (suc (length xs)) _
                  (rw append_assoc v) no_match (omega arith)
                  (omega (arith, length-append (xs ++ c ∷ []) ys, length-append xs (c ∷ [])))
                  (omega arith)
                ∙ e,
            rep,
          ),
      λ v why. elim (dec_lt max_depth (length ys)) [
        | yes deep ↦
            search_back_start q max_depth xs ys max_depth (length (xs ++ ys) - max_depth) 0 v
              no_match (omega arith) (omega (arith, length-append xs ys)) (omega arith)
            ∙ search_back_exhausted _ _ q
        | no shallow ↦
            search_back_start q max_depth xs ys (length ys) (length xs) (max_depth - length ys) v
              no_match (omega arith) (omega (arith, length-append xs ys)) (omega arith)
            ∙ search_back_end q xs (max_depth - length ys) (at q (length xs))
                (elim why [ inl e ↦ inl e | inr e ↦ inr (omega arith) ])
      ],
    )
