-- ===== src/Queue.antt =====
-- src/queue.h and src/queue.c: the fixed-size ring queue between the threads that receive from the
-- UEs and the task that empties the queues. A pointer is an `Option`, with `none` for NULL; the
-- first argument of an operation says whether `pthread_mutex_lock` succeeded.
-- An index stays below 512 (see `Queue.Ring`), so no `size_t` sum of this file wraps.
pub mod Ring
pub mod Fifo
pub mod Gap
pub mod Matching
pub mod Trace
mod Examples
use oai_lte_5g_multi_ue_prox.Base.{
  ℕ, zero, suc, ◌+◌, ◌-◌, ◌%◌, Bool, true, false, Option, none, some, Outcome, returns, aborts,
  if◌then◌else◌, ◌==◌, leb, ltb,
}

abbrev pub max_queue_size : ℕ
max_queue_size = 512

pub record Queue {ℓ} (A : Type ℓ) : Type ℓ where
  pub items : ℕ → Option A
  pub read_index : ℕ
  pub write_index : ℕ
  pub num_items : ℕ

-- `items[i] = v`
abbrev pub update {ℓ} : {A : Type ℓ} → (ℕ → Option A) → ℕ → Option A → ℕ → Option A
update items i v j = if i == j then v else items j

abbrev pub is_null {ℓ} : {A : Type ℓ} → Option A → Bool
is_null none = true
is_null (some a) = false

abbrev pub next_index : ℕ → ℕ
next_index i = (i + 1) % max_queue_size

abbrev pub previous_index : ℕ → ℕ
previous_index i = (i + max_queue_size - 1) % max_queue_size

module _ {ℓ} {A : Type ℓ} where
  unfoldable pub init_queue : Queue A
  init_queue = record { items = λ _. none; read_index = 0; write_index = 0; num_items = 0 }

  unfoldable pub put_queue : Bool → Queue A → Option A → Outcome (Queue A × Bool)
  put_queue locked q none = aborts
  put_queue false q (some item) = returns (q, false)
  put_queue true q (some item) =
      if leb max_queue_size q.num_items
      then returns (q, false)
      else if is_null (q.items q.write_index)
      then returns (
        record q {
          items = update q.items q.write_index (some item);
          write_index = next_index q.write_index;
          num_items = q.num_items + 1;
        },
        true,
      )
      else aborts

  unfoldable pub get_queue : Bool → Queue A → Outcome (Queue A × Option A)
  get_queue false q = returns (q, none)
  get_queue true q =
      if ltb 0 q.num_items
      then if is_null (q.items q.read_index)
        then aborts
        else returns (
          record q {
            items = update q.items q.read_index none;
            read_index = next_index q.read_index;
            num_items = q.num_items - 1;
          },
          q.items q.read_index,
        )
      else returns (q, none)

  unfoldable pub requeue : Bool → Queue A → Option A → Outcome (Queue A × Bool)
  requeue locked q none = aborts
  requeue false q (some item) = returns (q, false)
  requeue true q (some item) =
      if leb max_queue_size q.num_items
      then returns (q, false)
      else if is_null (q.items (previous_index q.read_index))
      then returns (
        record q {
          items = update q.items (previous_index q.read_index) (some item);
          read_index = previous_index q.read_index;
          num_items = q.num_items + 1;
        },
        true,
      )
      else aborts

  unfoldable pub unqueue : Bool → Queue A → Queue A × Option A
  unqueue false q = (q, none)
  unqueue true q =
      if ltb 0 q.num_items
      then (
        record q {
          items = update q.items (previous_index q.write_index) none;
          write_index = previous_index q.write_index;
          num_items = q.num_items - 1;
        },
        q.items (previous_index q.write_index),
      )
      else (q, none)

  -- The inner `for (;;)` of `unqueue_matching`, from `endi` on; `none` means that the fuel ran out.
  unfoldable pub close_gap : ℕ → ℕ → Queue A → Option (Queue A)
  close_gap zero endi q = none
  close_gap (suc fuel) endi q =
      let j = next_index endi in
      let rest = close_gap fuel j (record q { items = update q.items endi (q.items j) }) in
      if j == q.write_index
      then some (record q {
        items = update q.items endi none;
        write_index = endi;
        num_items = q.num_items - 1;
      })
      else rest

  abbrev pub with_item : Option A → Option (Queue A) → Option (Queue A × Option A)
  with_item item none = none
  with_item item (some q) = some (q, item)

  module _ (matcher : Option A → Bool) where
    -- The outer loop: the rounds left of `i < num_items`, then `max_depth` and `endi`.
    unfoldable pub search_back : ℕ → ℕ → ℕ → Queue A → Option (Queue A × Option A)
    search_back zero max_depth endi q = some (q, none)
    search_back (suc n) zero endi q = some (q, none)
    search_back (suc n) (suc max_depth) endi q =
        let e = previous_index endi in
        let rest = search_back n max_depth e q in
        if matcher (q.items e) then with_item (q.items e) (close_gap max_queue_size e q) else rest

    unfoldable pub unqueue_matching : Bool → ℕ → Queue A → Option (Queue A × Option A)
    unfolding search_back close_gap
    unqueue_matching false max_depth q = some (q, none)
    unqueue_matching true max_depth q = search_back q.num_items max_depth q.write_index q
