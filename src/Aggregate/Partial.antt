-- ===== src/Aggregate/Partial.antt =====
-- When aggregation in src/nfapi_pnf.c loses PDUs: a message that does not unpack, and a full array.
use oai_lte_5g_multi_ue_prox.Base.{
  ℕ, ◌+◌, ◌%◌, ◌≤◌, ◌<◌, ◌≡◌, refl, sym, ap, ◌∙◌, Option, none, some, List, [], ◌∷◌, ◌++◌, returns,
  arith, length, append_assoc, append-nil, take, take_all, length-take, length-append,
}
use native.Mathlib.Nat.{mod-eq_of_lt, zero-mod}
use oai_lte_5g_multi_ue_prox.Message.{MessageBuffer, data_max}
use oai_lte_5g_multi_ue_prox.Aggregate.{Indication, Kind, add_indication, add_messages, aggregate}
use oai_lte_5g_multi_ue_prox.Aggregate.Combine.{
  pdus_of, Unpacks, no_more, unpacks, add_indication-pdus, add_indication-number,
}
use oai_lte_5g_multi_ue_prox.Aggregate.Whole.{zeroed}

module _ {W P : Type 0} (kind : Kind W P) (unpack : List ℕ → Option (Indication W P)) where
  -- A message that the library cannot unpack.
  abbrev pub Fails : MessageBuffer → Type 0
  Fails msg = (msg.length_field ≤ data_max) × (unpack (take msg.length_field msg.bytes) ≡ none)

  add_messages-none :
      (agg : Indication W P) (before : List P) (good : List MessageBuffer)
      (inds : List (Indication W P)) (bad : MessageBuffer) (more : List MessageBuffer)
      → agg.pdus ≡ before
      → Unpacks kind unpack good inds
      → length (before ++ pdus_of inds) < kind.max_pdu
      → Fails bad
      → add_messages kind unpack agg (good ++ (bad ∷ more)) ≡ returns none
  unfolding add_messages add_indication
  add_messages-none agg before good inds bad more p no_more room fails =
      ground (arith, fails.1, fails.0)
  add_messages-none agg before good inds bad more p
        (unpacks {msg} {msgs = good'} {ind} {inds = inds'} short un num fine us) room fails =
      let sizes : length (before ++ (ind.pdus ++ pdus_of inds'))
          ≡ length (before ++ ind.pdus) + length (pdus_of inds') =
        ap length (sym (append_assoc before ind.pdus (pdus_of inds')))
        ∙ length-append (before ++ ind.pdus) (pdus_of inds') in
      let pdus_eq : (add_indication kind agg ind).pdus ≡ before ++ ind.pdus =
        add_indication-pdus kind unpack agg before ind p
          (omega (arith, room, sizes, length-append before ind.pdus)) num
        ∙ take_all kind.max_pdu (before ++ ind.pdus) (omega (arith, room, sizes)) in
      let rest =
        add_messages-none (add_indication kind agg ind) (before ++ ind.pdus) good' inds' bad more
          pdus_eq us
          (omega (arith, room, sizes, length-append (before ++ ind.pdus) (pdus_of inds'))) fails in
      let room_still = ap length pdus_eq in ground (arith, un, fine, rest, room_still, room, sizes)

  -- If a message cannot be unpacked and there was still room before it, nothing is sent: the PDUs
  -- of the messages before it and after it are lost.
  pub aggregate-none :
      (msg : MessageBuffer) (msgs : List MessageBuffer) (good : List MessageBuffer)
      (inds : List (Indication W P)) (bad : MessageBuffer) (more : List MessageBuffer)
      → msg ∷ msgs ≡ good ++ (bad ∷ more)
      → Unpacks kind unpack good inds
      → length (pdus_of inds) < kind.max_pdu
      → Fails bad
      → aggregate kind unpack (msg ∷ msgs) ≡ returns none
  unfolding aggregate
  aggregate-none msg msgs good inds bad more e us room fails =
      ap (add_messages kind unpack (zeroed kind unpack)) e
      ∙ add_messages-none (zeroed kind unpack) [] good inds bad more refl us room fails

  add_messages-overfull :
      (agg : Indication W P) (before : List P) (good : List MessageBuffer)
      (inds : List (Indication W P)) (msg : MessageBuffer) (more : List MessageBuffer)
      (ind : Indication W P)
      → agg.pdus ≡ before
      → agg.number ≡ length before % kind.count_bound
      → Unpacks kind unpack good inds
      → Unpacks kind unpack (msg ∷ []) (ind ∷ [])
      → length (before ++ pdus_of inds) < kind.max_pdu
      → kind.max_pdu ≤ length (before ++ pdus_of inds) + length ind.pdus
      → (out : Indication W P) × (add_messages kind unpack agg (good ++ (msg ∷ more))
          ≡ returns (some out))
        × (length out.pdus ≡ kind.max_pdu)
        × (out.number ≡ (length (before ++ pdus_of inds) + length ind.pdus) % kind.count_bound)
  unfolding add_messages add_indication
  add_messages-overfull agg before good inds msg more ind p c no_more
        (unpacks short un num fine no_more) room over =
      let nil = ap length (append-nil before) in
      let pdus_eq =
        add_indication-pdus kind unpack agg before ind p (omega (arith, room, nil)) num in
      let full : length (add_indication kind agg ind).pdus ≡ kind.max_pdu = omega (
        arith,
        over,
        nil,
        ap length pdus_eq,
        length-take kind.max_pdu (before ++ ind.pdus),
        length-append before ind.pdus,
      ) in
      (
        add_indication kind agg ind,
        ground (arith, un, fine, full),
        full,
        add_indication-number kind unpack agg before ind c num
            ∙ ap (λ n. n % kind.count_bound)
                (length-append before ind.pdus ∙ ap (λ n. n + length ind.pdus) (sym nil)),
      )
  add_messages-overfull agg before good inds msg more ind p c
        (unpacks {msg = msg'} {msgs = good'} {ind = ind'} {inds = inds'} short un num fine us) last
        room over =
      let assoc = append_assoc before ind'.pdus (pdus_of inds') in
      let sizes : length (before ++ (ind'.pdus ++ pdus_of inds'))
          ≡ length (before ++ ind'.pdus) + length (pdus_of inds') =
        ap length (sym assoc) ∙ length-append (before ++ ind'.pdus) (pdus_of inds') in
      let pdus_eq : (add_indication kind agg ind').pdus ≡ before ++ ind'.pdus =
        add_indication-pdus kind unpack agg before ind' p
          (omega (arith, room, sizes, length-append before ind'.pdus)) num
        ∙ take_all kind.max_pdu (before ++ ind'.pdus) (omega (arith, room, sizes)) in
      let (out, run, full, number) =
        add_messages-overfull (add_indication kind agg ind') (before ++ ind'.pdus) good' inds' msg
          more ind pdus_eq (add_indication-number kind unpack agg before ind' c num) us last
          (omega (arith, room, ap length assoc)) (omega (arith, over, ap length assoc)) in
      let room_still = ap length pdus_eq in
      (
        out,
        ground (arith, un, fine, run, room_still, room, sizes),
        full,
        number ∙ ap (λ t. (length t + length ind.pdus) % kind.count_bound) assoc,
      )

  -- The message that fills the array is counted whole: if it does not fit, the count that is sent
  -- exceeds the number of PDUs sent.
  pub aggregate-overfull :
      (first : MessageBuffer) (msgs good : List MessageBuffer) (inds : List (Indication W P))
      (msg : MessageBuffer) (more : List MessageBuffer) (ind : Indication W P)
      → first ∷ msgs ≡ good ++ (msg ∷ more)
      → Unpacks kind unpack good inds
      → Unpacks kind unpack (msg ∷ []) (ind ∷ [])
      → length (pdus_of inds) < kind.max_pdu
      → kind.max_pdu < length (pdus_of inds) + length ind.pdus
      → length (pdus_of inds) + length ind.pdus < kind.count_bound
      → (out : Indication W P) × (aggregate kind unpack (first ∷ msgs) ≡ returns (some out))
        × (length out.pdus ≡ kind.max_pdu)
        × (out.number ≡ length (pdus_of inds) + length ind.pdus)
  unfolding aggregate
  aggregate-overfull first msgs good inds msg more ind e us last room over wide =
      let (out, run, full, number) =
        add_messages-overfull (zeroed kind unpack) [] good inds msg more ind refl
          (sym (zero-mod kind.count_bound)) us last room (omega (arith, over)) in
      (
        out,
        ap (add_messages kind unpack (zeroed kind unpack)) e ∙ run,
        full,
        number ∙ mod-eq_of_lt wide,
      )
