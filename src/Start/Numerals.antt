-- ===== src/Start/Numerals.antt =====
-- src/proxy.cc: the numbers among the arguments.
use oai_lte_5g_multi_ue_prox.Base.{
  ℕ, zero, suc, ◌+◌, ◌-◌, ◌*◌, ◌/◌, ◌%◌, ◌^◌, ◌≤◌, ◌<◌, ◌≡◌, ◌∙◌, refl, ap, sym, true, some, List,
  [], ◌∷◌, ◌++◌, arith, ltb, if◌then◌else◌, Bool-cases, inl, inr,
}
use oai_lte_5g_multi_ue_prox.Start.{is_numeric, decimal_from, stoi}

-- The decimal digits of n, for n below the fuel.
unfoldable pub digits : ℕ → ℕ → List ℕ
digits zero n = []
digits (suc f) n =
    let rest = digits f (n / 10) in if ltb n 10 then (48 + n) ∷ [] else rest ++ ((48 + n % 10) ∷ [])

unfoldable pub decimal : ℕ → List ℕ
unfolding digits
decimal n = digits (suc n) n

decimal_from-append :
    (acc : ℕ) (s t : List ℕ) → decimal_from acc (s ++ t) ≡ decimal_from (decimal_from acc s) t
unfolding decimal_from
decimal_from-append acc [] t = refl
decimal_from-append acc (c ∷ s) t = decimal_from-append (acc * 10 + (c - 48)) s t

is_numeric-append :
    (s t : List ℕ) → is_numeric s ≡ true → is_numeric t ≡ true → is_numeric (s ++ t) ≡ true
unfolding is_numeric
is_numeric-append [] t hs ht = ht
is_numeric-append (c ∷ s) t hs ht = ground (arith, is_numeric-append s t)

decimal_from-digits : (f n : ℕ) → n < f → decimal_from 0 (digits f n) ≡ n
unfolding digits decimal_from
decimal_from-digits zero n h = absurd (omega arith)
decimal_from-digits (suc f) n h = elim (Bool-cases (ltb n 10)) [
  | inl small ↦ ground (arith, small)
  | inr large ↦ rw large (
      decimal_from-append 0 (digits f (n / 10)) ((48 + n % 10) ∷ [])
      ∙ ground (arith, decimal_from-digits f (n / 10), large))
]

is_numeric-digits : (f n : ℕ) → is_numeric (digits f n) ≡ true
unfolding digits is_numeric
is_numeric-digits zero n = refl
is_numeric-digits (suc f) n = elim (Bool-cases (ltb n 10)) [
  | inl small ↦ ground (arith, small)
  | inr large ↦ rw large (
      is_numeric-append (digits f (n / 10)) ((48 + n % 10) ∷ []) (is_numeric-digits f (n / 10))
        (ground arith))
]

pub is_numeric-decimal : (n : ℕ) → is_numeric (decimal n) ≡ true
unfolding decimal
is_numeric-decimal n = is_numeric-digits (suc n) n

-- The printed number has a first byte, and this is a digit.
digits-cons : (f n : ℕ) → (c : ℕ) × (t : List ℕ) × (digits (suc f) n ≡ c ∷ t) × (48 ≤ c) × (c ≤ 57)
unfolding digits
digits-cons zero n = elim (Bool-cases (ltb n 10)) [
  | inl small ↦ (48 + n, [], ground (arith, small), omega arith, ground (arith, small))
  | inr large ↦ (48 + n % 10, [], ground (arith, large), omega arith, omega arith)
]
digits-cons (suc f) n = elim (Bool-cases (ltb n 10)) [
  | inl small ↦ (48 + n, [], ground (arith, small), omega arith, ground (arith, small))
  | inr large ↦
      let (c, t, e, low, high) = digits-cons f (n / 10) in
      (c, t ++ ((48 + n % 10) ∷ []), rw (large, e) refl, low, high)
]

pub decimal-cons : (n : ℕ) → (c : ℕ) × (t : List ℕ) × (decimal n ≡ c ∷ t) × (48 ≤ c) × (c ≤ 57)
unfolding decimal
decimal-cons n = digits-cons n n

-- Reading the printed number back.
pub stoi-decimal : (n : ℕ) → n < 2 ^ 31 → stoi (decimal n) ≡ some n
unfolding stoi decimal
stoi-decimal n h =
    let (c, t, e, low, high) = digits-cons n n in
    let v : decimal_from 0 (c ∷ t) ≡ n =
      ap (decimal_from 0) (sym e) ∙ decimal_from-digits (suc n) n (omega arith) in
    rw e (rw v (ground (arith, h)))
