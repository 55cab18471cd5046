-- ===== src/Queue/Trace.antt =====
-- A client of src/queue.c sees a bounded double-ended queue.
use oai_lte_5g_multi_ue_prox.Base.{
  ◌≡◌, refl, ap, Bool, true, false, List, [], ◌∷◌, ◌++◌, Option, none, some, Outcome, returns,
  ◌>>=◌, arith, length, dec_lt, if◌then◌else◌, ltb,
}
use oai_lte_5g_multi_ue_prox.Queue.{
  Queue, max_queue_size, init_queue, put_queue, get_queue, requeue, unqueue,
}
use oai_lte_5g_multi_ue_prox.Queue.Ring.{Represents}
use oai_lte_5g_multi_ue_prox.Queue.Fifo.{
  init_queue-Represents, put_queue-appends, get_queue-removes_oldest, requeue-prepends,
  unqueue-removes_newest,
}

pub data Call {ℓ} (A : Type ℓ) : Type ℓ where
  put : A → Call A
  get : Call A
  put_back : A → Call A
  take_back : Call A

pub data Reply {ℓ} (A : Type ℓ) : Type ℓ where
  accepted : Bool → Reply A
  item : Option A → Reply A

module _ {ℓ} {A : Type ℓ} where
  abbrev noted {κ} : {S : Type κ} → S × Bool → Outcome (S × Reply A)
  noted (s, b) = returns (s, accepted b)

  abbrev handed : {S : Type ℓ} → S × Option A → Outcome (S × Reply A)
  handed (s, o) = returns (s, item o)

  -- One call by a client, with the mutex locked.
  pub serve : Call A → Queue A → Outcome (Queue A × Reply A)
  serve (put x) q = put_queue true q (some x) >>= noted
  serve get q = get_queue true q >>= handed
  serve (put_back x) q = requeue true q (some x) >>= noted
  serve take_back q = handed (unqueue true q)

  pub serve_all : List (Call A) → Queue A → Outcome (List (Reply A))
  serve_all [] q = returns []
  serve_all (c ∷ cs) q = serve c q >>= λ (q', r). serve_all cs q' >>= λ rs. returns (r ∷ rs)

  -- The same calls on a list of at most 512 items, oldest first.
  split_last : A → List A → List A × A
  split_last x [] = ([], x)
  split_last x (y ∷ ys) = let (zs, z) = split_last y ys in (x ∷ zs, z)

  pub deque_step : Call A → List A → List A × Reply A
  unfolding split_last
  deque_step (put x) xs =
      if ltb (length xs) max_queue_size then (xs ++ x ∷ [], accepted true) else (xs, accepted false)
  deque_step get [] = ([], item none)
  deque_step get (x ∷ xs) = (xs, item (some x))
  deque_step (put_back x) xs =
      if ltb (length xs) max_queue_size then (x ∷ xs, accepted true) else (xs, accepted false)
  deque_step take_back [] = ([], item none)
  deque_step take_back (x ∷ xs) = let (zs, z) = split_last x xs in (zs, item (some z))

  pub deque_replies : List (Call A) → List A → List (Reply A)
  deque_replies [] xs = []
  deque_replies (c ∷ cs) xs = let (xs', r) = deque_step c xs in r ∷ deque_replies cs xs'

  split_last_lem : (x : A) (xs : List A) → let (zs, z) = split_last x xs in zs ++ z ∷ [] ≡ x ∷ xs
  unfolding split_last
  split_last_lem x [] = refl
  split_last_lem x (y ∷ ys) = ap (◌∷◌ x) (split_last_lem y ys)

  abbrev Serves : Call A → Queue A → List A → Type ℓ
  Serves c q xs =
      (q' : Queue A) × (serve c q ≡ returns (q', (deque_step c xs).1))
      × Represents q' (deque_step c xs).0

  serve-Serves : (c : Call A) (q : Queue A) (xs : List A) → Represents q xs → Serves c q xs
  unfolding serve deque_step
  serve-Serves (put x) q xs v = elim (dec_lt (length xs) max_queue_size) [
    | yes h ↦
        let (q', e, rep) = (put_queue-appends q xs x v).0 h in
        let room : ltb (length xs) max_queue_size ≡ true = ground arith in rw room (q', rw e, rep)
    | no h ↦
        let full : ltb (length xs) max_queue_size ≡ false = ground arith in
        rw full (q, rw ((put_queue-appends q xs x v).1 (omega (arith, v.fits))), v)
  ]
  serve-Serves get q [] v = (q, rw ((get_queue-removes_oldest q).0 v), v)
  serve-Serves get q (x ∷ xs) v =
      let (q', e, rep) = (get_queue-removes_oldest q).1 x xs v in (q', rw e, rep)
  serve-Serves (put_back x) q xs v = elim (dec_lt (length xs) max_queue_size) [
    | yes h ↦
        let (q', e, rep) = (requeue-prepends q xs x v).0 h in
        let room : ltb (length xs) max_queue_size ≡ true = ground arith in rw room (q', rw e, rep)
    | no h ↦
        let full : ltb (length xs) max_queue_size ≡ false = ground arith in
        rw full (q, rw ((requeue-prepends q xs x v).1 (omega (arith, v.fits))), v)
  ]
  serve-Serves take_back q [] v = (q, rw ((unqueue-removes_newest q).0 v), v)
  serve-Serves take_back q (x ∷ xs) v =
      let (zs, z) = split_last x xs in
      let (q', e, rep) =
        (unqueue-removes_newest q).1 (split_last x xs).0 (split_last x xs).1
          (rw split_last_lem v) in
      (q', rw e, rep)

  serve_all-deque :
      (cs : List (Call A)) (q : Queue A) (xs : List A)
      → Represents q xs
      → serve_all cs q ≡ returns (deque_replies cs xs)
  unfolding serve_all deque_replies
  serve_all-deque [] q xs v = refl
  serve_all-deque (c ∷ cs) q xs v =
      let (q', e, rep) = serve-Serves c q xs v in rw (e, serve_all-deque cs q' _ rep)

  -- No sequence of calls of `put_queue`, `get_queue`, `requeue` and `unqueue` on a queue that
  -- `init_queue` made, with the mutex locked, trips an assertion or tells the ring from a
  -- double-ended queue of at most 512 items.
  pub serve_all-refines_deque :
      (cs : List (Call A)) → serve_all cs init_queue ≡ returns (deque_replies cs [])
  serve_all-refines_deque cs = serve_all-deque cs init_queue [] init_queue-Represents
