-- ===== src/Aggregate/Combine.antt =====
-- The loop over the messages of a batch, for all the aggregating functions of src/nfapi_pnf.c.
use oai_lte_5g_multi_ue_prox.Base.{
  ℕ, ◌+◌, ◌%◌, ◌≤◌, ◌≡◌, ◌⊎◌, refl, sym, subst, ap, ap₂, ◌∙◌, inl, inr, false, Option, some, List,
  [], ◌∷◌, ◌++◌, returns, arith, length, append_assoc, append-nil, ℕ_discrete, take, take_all,
  length-take, length-append, take-append,
}
use native.Mathlib.Nat.{mod-add-mod}
use oai_lte_5g_multi_ue_prox.Message.{MessageBuffer, data_max}
use oai_lte_5g_multi_ue_prox.Aggregate.{
  Header, Indication, Kind, copy_pdus, add_indication, add_messages,
}

module _ {W P : Type 0} where
  -- The PDUs of several indications, in order.
  abbrev pub pdus_of : List (Indication W P) → List P
  pdus_of [] = []
  pdus_of (ind ∷ inds) = ind.pdus ++ pdus_of inds

  -- The header and the frame of the last of several indications.
  abbrev pub last_frame : Header × W → List (Indication W P) → Header × W
  last_frame at [] = at
  last_frame at (ind ∷ inds) = last_frame (ind.header, ind.frame) inds

  pub pdus_of-append :
      (xs ys : List (Indication W P)) → pdus_of (xs ++ ys) ≡ pdus_of xs ++ pdus_of ys
  pdus_of-append [] ys = refl
  pdus_of-append (x ∷ xs) ys =
      ground (arith, pdus_of-append xs ys, append_assoc x.pdus (pdus_of xs) (pdus_of ys))

module _ {W P : Type 0} (kind : Kind W P) (unpack : List ℕ → Option (Indication W P)) where
  -- The messages unpack to the indications, which count their PDUs and are not refused.
  pub data Unpacks : List MessageBuffer → List (Indication W P) → Type 0 where
    no_more : Unpacks [] []
    unpacks :
        {msg : MessageBuffer} {msgs : List MessageBuffer} {ind : Indication W P}
        {inds : List (Indication W P)}
        → msg.length_field ≤ data_max
        → unpack (take msg.length_field msg.bytes) ≡ some ind
        → ind.number ≡ length ind.pdus
        → kind.refuses ind ≡ false
        → Unpacks msgs inds
        → Unpacks (msg ∷ msgs) (ind ∷ inds)

  -- The aggregate `out` of the indications, on top of `agg` with its PDUs `before`.
  pub record Aggregated (agg : Indication W P) (before : List P) (inds : List (Indication W P))
      (out : Indication W P) : Type 0 where
    pub used : List (Indication W P)
    pub unused : List (Indication W P)
    pub parts : inds ≡ used ++ unused
    pub stops : (unused ≡ []) ⊎ (kind.max_pdu ≤ length (before ++ pdus_of used))
    pub from_last : (out.header, out.frame) ≡ last_frame (agg.header, agg.frame) used
    pub copied : out.pdus ≡ take kind.max_pdu (before ++ pdus_of used)
    pub counted : out.number ≡ length (before ++ pdus_of used) % kind.count_bound

  pub copy_pdus-take :
      (pdus new : List P)
      → length pdus ≤ kind.max_pdu
      → copy_pdus kind pdus new ≡ take kind.max_pdu (pdus ++ new)
  unfolding copy_pdus
  copy_pdus-take pdus [] h = ground (arith, append-nil pdus, take_all kind.max_pdu pdus h)
  copy_pdus-take pdus (p ∷ new) h = elim (ℕ_discrete (length pdus) kind.max_pdu) [
    | yes full ↦ ground (arith, take-append kind.max_pdu pdus (p ∷ new) full)
    | no room ↦ ground (
      arith,
      copy_pdus-take (pdus ++ p ∷ []) new (omega (arith, length-append pdus (p ∷ []))),
      append_assoc pdus (p ∷ []) new,
    )
  ]

  pub add_indication-pdus :
      (agg : Indication W P) (before : List P) (ind : Indication W P)
      → agg.pdus ≡ before
      → length before ≤ kind.max_pdu
      → ind.number ≡ length ind.pdus
      → (add_indication kind agg ind).pdus ≡ take kind.max_pdu (before ++ ind.pdus)
  unfolding add_indication
  add_indication-pdus agg before ind same few whole =
      ap₂ (copy_pdus kind) same (take_all ind.number ind.pdus (omega (arith, whole)))
      ∙ copy_pdus-take before ind.pdus few

  pub add_indication-number :
      (agg : Indication W P) (before : List P) (ind : Indication W P)
      → agg.number ≡ length before % kind.count_bound
      → ind.number ≡ length ind.pdus
      → (add_indication kind agg ind).number ≡ length (before ++ ind.pdus) % kind.count_bound
  unfolding add_indication
  add_indication-number agg before ind counted whole =
      ap₂ (λ a n. (a + n) % kind.count_bound) counted whole
      ∙ mod-add-mod (length before) kind.count_bound (length ind.pdus)
      ∙ ap (λ n. n % kind.count_bound) (sym (length-append before ind.pdus))

  pub add_messages-Aggregated :
      (agg : Indication W P) (before : List P) (msgs : List MessageBuffer)
      (inds : List (Indication W P))
      → agg.pdus ≡ before
      → length before ≤ kind.max_pdu
      → agg.number ≡ length before % kind.count_bound
      → Unpacks msgs inds
      → (out : Indication W P) × (add_messages kind unpack agg msgs ≡ returns (some out))
        × Aggregated agg before inds out
  unfolding add_messages add_indication
  add_messages-Aggregated agg before msgs inds p f c no_more = (
    agg,
    refl,
    record {
      used = [];
      unused = [];
      parts = refl;
      stops = inl refl;
      from_last = refl;
      copied = ground (arith, p, append-nil before, take_all kind.max_pdu before f);
      counted = ground (arith, c, append-nil before);
    },
  )
  add_messages-Aggregated agg before msgs inds p f c
        (unpacks {msg} {msgs = msgs'} {ind} {inds = inds'} short un num fine us) =
      let pdus_eq = add_indication-pdus agg before ind p f num in
      let number_eq = add_indication-number agg before ind c num in
      let size = length-take kind.max_pdu (before ++ ind.pdus) in
      elim (ℕ_discrete (length (add_indication kind agg ind).pdus) kind.max_pdu) [
        | yes full ↦ (
          add_indication kind agg ind,
          ground (arith, un, fine),
          record {
            used = ind ∷ [];
            unused = inds';
            parts = refl;
            stops = inr (rw append-nil (omega (arith, full, size, ap length pdus_eq)));
            from_last = refl;
            copied = ground (arith, pdus_eq, append-nil ind.pdus);
            counted = ground (arith, number_eq, append-nil ind.pdus);
          },
        )
        | no room ↦
            let fit : length (before ++ ind.pdus) ≤ kind.max_pdu =
              omega (arith, room, size, ap length pdus_eq) in
            let (out, run, a) =
              add_messages-Aggregated (add_indication kind agg ind) (before ++ ind.pdus) msgs' inds'
                (pdus_eq ∙ take_all kind.max_pdu (before ++ ind.pdus) fit) fit number_eq us in
            let assoc = append_assoc before ind.pdus (pdus_of a.used) in
            (
              out,
              ground (arith, un, fine, run),
              record {
                used = ind ∷ a.used;
                unused = a.unused;
                parts = ap (◌∷◌ ind) a.parts;
                stops = subst (λ t. (a.unused ≡ []) ⊎ (kind.max_pdu ≤ length t)) assoc a.stops;
                from_last = a.from_last;
                copied = ground (arith, a.copied, assoc);
                counted = ground (arith, a.counted, assoc);
              },
            )
      ]
