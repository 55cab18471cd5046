-- ===== src/Queue/Examples.antt =====
-- Tests of the ring queue.
use oai_lte_5g_multi_ue_prox.Base.{
  ℕ, zero, suc, ◌%◌, ◌+◌, ◌≤◌, ◌<◌, ◌≡◌, ◌⊎◌, refl, Bool, true, false, Option, none, some, List, [],
  ◌∷◌, ◌++◌, returns, arith, length, get_elem?, ◌==◌,
}
use oai_lte_5g_multi_ue_prox.Queue.{Queue, max_queue_size, init_queue, unqueue_matching, update}
use oai_lte_5g_multi_ue_prox.Queue.Ring.{Represents}
use oai_lte_5g_multi_ue_prox.Queue.Matching.{unqueue_matching-removes_last_match}
use oai_lte_5g_multi_ue_prox.Queue.Trace.{
  Call, put, get, put_back, take_back, serve_all, deque_replies, serve_all-refines_deque,
}

-- A queue that wraps round: 7 in the last slot, 8 in the first one.
abbrev wrapped : Queue ℕ
wrapped = record {
  items = update (update (λ _. none) 511 (some 7)) 0 (some 8);
  read_index = 511;
  write_index = 1;
  num_items = 2;
}

abbrev two_items : List ℕ
two_items = 7 ∷ 8 ∷ []

abbrev last_item : List ℕ
last_item = 8 ∷ []

wrapped-Represents : Represents wrapped (7 ∷ 8 ∷ [])
wrapped-Represents = record {
  read_in = omega arith;
  fits = omega arith;
  counted = refl;
  written = refl;
  slot = λ k h. slots k h;
}
  where
    slots :
        (k : ℕ)
        → k < max_queue_size
        → wrapped.items ((511 + k) % max_queue_size) ≡ get_elem? (7 ∷ 8 ∷ []) k
    slots zero h = ground arith
    slots (suc zero) h = ground arith
    slots (suc (suc k)) h = ground arith

abbrev is_seven : Option ℕ → Bool
is_seven none = false
is_seven (some x) = x == 7

-- 7 is found behind 8, within a depth of two.
unqueue_matching-removes_last_match_example :
    ((c : ℕ)
      → Represents wrapped ([] ++ c ∷ 8 ∷ [])
      → is_seven (some c) ≡ true
      → length last_item < 2
      → (q' : Queue ℕ) × (unqueue_matching is_seven true 2 wrapped ≡ some (q', some c))
        × Represents q' ([] ++ 8 ∷ []))
    × (Represents wrapped ([] ++ 8 ∷ [])
        → (◌≡◌ {A = List ℕ} [] []) ⊎ (2 ≤ length last_item)
        → unqueue_matching is_seven true 2 wrapped ≡ some (wrapped, none))
unqueue_matching-removes_last_match_example =
    unqueue_matching-removes_last_match is_seven wrapped 2 [] (8 ∷ []) (refl, tt)

abbrev calls : List (Call ℕ)
calls = put 1 ∷ put 2 ∷ put_back 0 ∷ get ∷ take_back ∷ get ∷ get ∷ []

serve_all-refines_deque_example : serve_all calls init_queue ≡ returns (deque_replies calls [])
serve_all-refines_deque_example = serve_all-refines_deque calls
