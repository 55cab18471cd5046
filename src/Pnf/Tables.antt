-- ===== src/Pnf/Tables.antt =====
-- src/nfapi_pnf.c: what the P7 request handlers keep of the data for the UEs, in global tables
-- indexed by frame, slot or subframe, and place. `none` stands for a write past the end of a table.
use oai_lte_5g_multi_ue_prox.Base.{
  Bool, leb, ℕ, zero, suc, ◌+◌, ◌≤◌, ◌<◌, ◌≡◌, ◌≢◌, ◌⊎◌, ◌∙◌, refl, ap, inl, inr, true, false, true,
  ◌&&◌, Option, none, some, List, [], ◌∷◌, arith, if◌then◌else◌, ◌==◌, ltb, length, get_elem?,
  Bool-cases,
}

abbrev pub Table : Type 0 → Type 0
Table P = ℕ → ℕ → ℕ → Option P

-- An index outside the n places from i on.
abbrev pub IsOutside : ℕ → ℕ → ℕ → ℕ → ℕ → ℕ → ℕ → Type 0
IsOutside a b i n a' b' i' = (a' ≢ a) ⊎ (b' ≢ b) ⊎ (i' < i) ⊎ (i + n ≤ i')

module _ {P : Type 0} where
  -- `table[a][b][i] = pdu`
  abbrev pub write_entry : Table P → ℕ → ℕ → ℕ → P → Table P
  write_entry table a b i pdu a' b' i' =
      if a' == a && b' == b && i' == i then some pdu else table a' b' i'

  -- The loop over the PDUs from place i on, in a table with these dimensions.
  unfoldable pub store_pdus : ℕ → ℕ → ℕ → Table P → ℕ → ℕ → ℕ → List P → Option (Table P)
  store_pdus frames slots places table a b i [] = some table
  store_pdus frames slots places table a b i (pdu ∷ pdus) =
      let rest = store_pdus frames slots places (write_entry table a b i pdu) a b (suc i) pdus in
      if ltb a frames && ltb b slots && ltb i places then rest else none

  -- `pnf_phy_tx_data_req` on `tx_data_request[1023][20][10]`.
  unfoldable pub pnf_phy_tx_data_req : Table P → ℕ → ℕ → List P → Option (Table P)
  pnf_phy_tx_data_req table sfn slot pdus = store_pdus 1023 20 10 table sfn slot 0 pdus

  -- `pnf_phy_tx_req` on `tx_request_pdu[1023][10][10]`: the test for an empty request guards all
  -- that follows.
  unfoldable pub pnf_phy_tx_req : Table P → ℕ → ℕ → ℕ → List P → Option (Table P)
  pnf_phy_tx_req table tag sfn sf pdus =
      let stored = store_pdus 1023 10 10 table sfn sf 0 pdus in
      if length pdus == 0 then (if tag == 0x2022 then stored else some table) else some table

  -- The PDUs stand in their places from i on, and nothing else has changed.
  abbrev pub Stores : Table P → Table P → ℕ → ℕ → ℕ → List P → Type 0
  Stores table stored a b i pdus =
      ((j : ℕ) (pdu : P) → get_elem? pdus j ≡ some pdu → stored a b (i + j) ≡ some pdu)
      × ((a' b' i' : ℕ) → IsOutside a b i (length pdus) a' b' i' → stored a' b' i' ≡ table a' b' i')

  Stores-cons :
      (table stored : Table P) (a b i : ℕ) (pdu : P) (pdus : List P)
      → Stores (write_entry table a b i pdu) stored a b (suc i) pdus
      → Stores table stored a b i (pdu ∷ pdus)
  Stores-cons table stored a b i pdu pdus (places, others) =
      (first_or_later, λ a' b' i' out. others a' b' i' (ground (arith, out)) ∙ ground (arith, out))
    where
      first_or_later :
          (j : ℕ) (p : P) → get_elem? (pdu ∷ pdus) j ≡ some p → stored a b (i + j) ≡ some p
      first_or_later zero p e =
          let same : some pdu ≡ some p = cc in
          let place : i + 0 ≡ i = omega arith in
          let own : write_entry table a b i pdu a b i ≡ some pdu = ground arith in
          ap (stored a b) place ∙ others a b i (inr (inr (inl (omega arith)))) ∙ own ∙ same
      first_or_later (suc j) p e =
          let place : i + suc j ≡ suc i + j = omega arith in ap (stored a b) place ∙ places j p e

  store_pdus-Stores :
      (frames slots dim : ℕ) (table : Table P) (a b i : ℕ) (pdus : List P)
      → a < frames
      → b < slots
      → i + length pdus ≤ dim
      → (stored : Table P) × (store_pdus frames slots dim table a b i pdus ≡ some stored)
        × Stores table stored a b i pdus
  unfolding store_pdus
  store_pdus-Stores frames slots dim table a b i [] ha hb hi =
      (table, refl, ((λ j pdu e. cc), (λ a' b' i' out. refl)))
  store_pdus-Stores frames slots dim table a b i (pdu ∷ pdus) ha hb hi =
      let (stored, run, there) =
        store_pdus-Stores frames slots dim (write_entry table a b i pdu) a b (suc i) pdus ha hb
          (omega (arith, hi)) in
      let inside : (ltb a frames && ltb b slots && ltb i dim) ≡ true = ground (arith, ha, hb, hi) in
      (stored, rw inside run, Stores-cons table stored a b i pdu pdus there)

  store_pdus-none :
      (frames slots dim : ℕ) (table : Table P) (a b i : ℕ) (pdu : P) (pdus : List P)
      → (frames ≤ a) ⊎ (slots ≤ b) ⊎ (dim < i + length (pdu ∷ pdus))
      → store_pdus frames slots dim table a b i (pdu ∷ pdus) ≡ none
  unfolding store_pdus
  store_pdus-none frames slots dim table a b i pdu [] out = ground (arith, out)
  store_pdus-none frames slots dim table a b i pdu (p ∷ pdus) out =
      elim (Bool-cases (ltb a frames && ltb b slots && ltb i dim)) [
        | inl inside ↦ rw inside (
            store_pdus-none frames slots dim (write_entry table a b i pdu) a b (suc i) p pdus
              (ground (arith, out)))
        | inr outside ↦ rw outside refl
      ]

  -- A TX_DATA request with at most ten PDUs, for a frame up to 1022 and a slot below 20, keeps each
  -- PDU at its place and changes nothing else. One with a PDU, for frame 1023, a slot beyond 19, or
  -- with more than ten, writes past the end of the table.
  pub pnf_phy_tx_data_req-Stores :
      (table : Table P) (sfn slot : ℕ) (pdus : List P)
      → (sfn < 1023
          → slot < 20
          → length pdus ≤ 10
          → (stored : Table P) × (pnf_phy_tx_data_req table sfn slot pdus ≡ some stored)
            × Stores table stored sfn slot 0 pdus)
        × (1 ≤ length pdus
            → (1023 ≤ sfn) ⊎ (20 ≤ slot) ⊎ (10 < length pdus)
            → pnf_phy_tx_data_req table sfn slot pdus ≡ none)
  unfolding pnf_phy_tx_data_req
  pnf_phy_tx_data_req-Stores table sfn slot [] = (
    (λ ha hb hn. store_pdus-Stores 1023 20 10 table sfn slot 0 [] ha hb (omega arith)),
    (λ some_pdu out. absurd (omega (arith, some_pdu))),
  )
  pnf_phy_tx_data_req-Stores table sfn slot (pdu ∷ pdus) = (
    (λ ha hb hn.
        store_pdus-Stores 1023 20 10 table sfn slot 0 (pdu ∷ pdus) ha hb (omega (arith, hn))),
    (λ some_pdu out. store_pdus-none 1023 20 10 table sfn slot 0 pdu pdus (ground (arith, out))),
  )

  -- No TX request, whatever its PDUs, changes the table that it is kept in.
  pub pnf_phy_tx_req-keeps_none :
      (table : Table P) (tag sfn sf : ℕ) (pdus : List P)
      → pnf_phy_tx_req table tag sfn sf pdus ≡ some table
  unfolding pnf_phy_tx_req store_pdus
  pnf_phy_tx_req-keeps_none table tag sfn sf [] = ground arith
  pnf_phy_tx_req-keeps_none table tag sfn sf (pdu ∷ pdus) =
      let more : (length (pdu ∷ pdus) == 0) ≡ false = ground arith in rw more refl

-- nfapi_ue_release_request_body_t: how many TLVs there are, and their list of 256.
pub record ReleaseRntis (R : Type 0) : Type 0 where
  pub number_of_tlvs : ℕ
  pub tlvs : ℕ → Option R

module _ {R : Type 0} where
  -- `memcpy` of the request's TLVs over the first ones of the list.
  abbrev pub copy_tlvs : (ℕ → Option R) → List R → ℕ → Option R
  copy_tlvs old tlvs i = if ltb i (length tlvs) then get_elem? tlvs i else old i

  -- `pnf_phy_ue_release_req`, with whether it returns 0 rather than -1.
  unfoldable pub pnf_phy_ue_release_req : ReleaseRntis R → List R → Option (ReleaseRntis R × Bool)
  pnf_phy_ue_release_req old tlvs =
      let copied : ReleaseRntis R = record {
        number_of_tlvs = length tlvs;
        tlvs = copy_tlvs old.tlvs tlvs;
      } in
      if length tlvs == 0
      then some (old, false)
      else if leb (length tlvs) 256
      then some (copied, true)
      else none
