-- ===== src/Util/Hexdump.antt =====
-- `hexdump`, `hexdumpP5` and `hexdumpP7` of src/nfapiutils.c. The text in the buffer is the bytes
-- before its NUL; `snprintf` of the C library cuts off what does not fit.
use oai_lte_5g_multi_ue_prox.Base.{
  ℕ, zero, suc, ◌+◌, ◌-◌, ◌/◌, ◌%◌, ◌≤◌, ◌≡◌, ◌∙◌, refl, ap, sym, false, Option, none, some, List,
  [], ◌∷◌, ◌++◌, append_assoc, append-nil, arith, if◌then◌else◌, leb, ltb, length, take,
  length-take,
}
use oai_lte_5g_multi_ue_prox.Start.{codes}
use oai_lte_5g_multi_ue_prox.Start.Numerals.{decimal}
use oai_lte_5g_multi_ue_prox.Util.Names.{nfap_message_id_to_string}

-- What `snprintf` leaves of a text in a buffer of this size.
abbrev pub snprintf : ℕ → List ℕ → List ℕ
snprintf size text = take (size - 1) text

-- A digit of `%X`.
abbrev pub hex_digit : ℕ → ℕ
hex_digit d = if ltb d 10 then 48 + d else 55 + d

-- `" %02X"`
abbrev pub hex_byte : ℕ → List ℕ
hex_byte b = 32 ∷ hex_digit (b / 16) ∷ hex_digit (b % 16) ∷ []

-- The loop over the data, with the text before `p`. The ellipsis would be written from four bytes
-- before the end, if `p` were not beyond that.
unfoldable pub dump_bytes : ℕ → List ℕ → List ℕ → List ℕ
dump_bytes out_len text [] = text
dump_bytes out_len text (b ∷ bytes) =
    let rest = dump_bytes out_len (text ++ snprintf (out_len - length text) (hex_byte b)) bytes in
    if leb out_len (length text)
    then (if leb (length text + 4) out_len then text ++ (46 ∷ 46 ∷ 46 ∷ []) else text)
    else rest

-- `"[%zu]"`
abbrev pub length_text : List ℕ → List ℕ
length_text bytes = 91 ∷ (decimal (length bytes) ++ (93 ∷ []))

unfoldable pub hexdump : List ℕ → ℕ → List ℕ
hexdump bytes out_len = dump_bytes out_len (snprintf out_len (length_text bytes)) bytes

-- A dump behind a heading, as `hexdumpP5` and `hexdumpP7` make it.
abbrev pub dump_after : List ℕ → List ℕ → ℕ → List ℕ
dump_after heading bytes out_len =
    let start = snprintf out_len heading in start ++ hexdump bytes (out_len - length start)

-- The headings that `snprintf` makes, from the id in the header, if it unpacks.
abbrev pub heading : List ℕ → Option ℕ → List ℕ
heading layer none = layer ++ codes " *MALFORMED* "
heading layer (some id) = layer ++ (32 ∷ (nfap_message_id_to_string id ++ (32 ∷ [])))

module _ (unpack_id : List ℕ → Option ℕ) where
  unfoldable pub hexdump_p5 : List ℕ → ℕ → List ℕ
  hexdump_p5 bytes out_len = dump_after (heading (codes "P5") (unpack_id bytes)) bytes out_len

  unfoldable pub hexdump_p7 : List ℕ → ℕ → List ℕ
  hexdump_p7 bytes out_len = dump_after (heading (codes "P7") (unpack_id bytes)) bytes out_len

-- The whole text, whatever the room.
abbrev pub all_bytes : List ℕ → List ℕ
all_bytes [] = []
all_bytes (b ∷ bytes) = hex_byte b ++ all_bytes bytes

abbrev pub whole_dump : List ℕ → List ℕ
whole_dump bytes = length_text bytes ++ all_bytes bytes

take-append-take :
    {A : Type 0} (n : ℕ) (xs ys : List A)
    → take n xs ++ take (n - length (take n xs)) ys ≡ take n (xs ++ ys)
take-append-take zero xs ys = refl
take-append-take (suc n) [] ys =
    let all_left : suc n - 0 ≡ suc n = omega arith in ap (λ k. take k ys) all_left
take-append-take (suc n) (x ∷ xs) ys =
    let fewer : suc n - suc (length (take n xs)) ≡ n - length (take n xs) = omega arith in
    ap (λ k. x ∷ (take n xs ++ take k ys)) fewer ∙ ap (◌∷◌ x) (take-append-take n xs ys)

-- The text stays shorter than the buffer, so the loop is not left early.
dump_bytes_lem :
    (room : ℕ) (shown : List ℕ) (bytes : List ℕ)
    → dump_bytes (suc room) (take room shown) bytes ≡ take room (shown ++ all_bytes bytes)
unfolding dump_bytes
dump_bytes_lem room shown [] = ap (take room) (sym (append-nil shown))
dump_bytes_lem room shown (b ∷ bytes) =
    let fits : length (take room shown) ≤ room = omega (arith, length-take room shown) in
    let room_left : leb (suc room) (length (take room shown)) ≡ false = ground (arith, fits) in
    let size : suc room - length (take room shown) - 1 ≡ room - length (take room shown) =
      omega (arith, fits) in
    let longer : take room shown ++ snprintf (suc room - length (take room shown)) (hex_byte b)
        ≡ take room (shown ++ hex_byte b) =
      ap (λ k. take room shown ++ take k (hex_byte b)) size
      ∙ take-append-take room shown (hex_byte b) in
    rw room_left (
      ap (λ text. dump_bytes (suc room) text bytes) longer
      ∙ dump_bytes_lem room (shown ++ hex_byte b) bytes
      ∙ ap (take room) (append_assoc shown (hex_byte b) (all_bytes bytes)))

hexdump-cuts :
    (bytes : List ℕ) (out_len : ℕ)
    → 1 ≤ out_len
    → hexdump bytes out_len ≡ take (out_len - 1) (whole_dump bytes)
unfolding hexdump
hexdump-cuts bytes zero h = absurd (omega arith)
hexdump-cuts bytes (suc room) h =
    let size : suc room - 1 ≡ room = omega arith in
    rw size (dump_bytes_lem room (length_text bytes) bytes)

dump_after-cuts :
    (start : List ℕ) (bytes : List ℕ) (out_len : ℕ)
    → 1 ≤ out_len
    → dump_after start bytes out_len ≡ take (out_len - 1) (start ++ whole_dump bytes)
dump_after-cuts start bytes out_len h =
    let shown = length-take (out_len - 1) start in
    let size : out_len - length (take (out_len - 1) start) - 1
        ≡ out_len - 1 - length (take (out_len - 1) start) =
      omega arith in
    ap (λ d. take (out_len - 1) start ++ d)
      (hexdump-cuts bytes (out_len - length (take (out_len - 1) start)) (omega (arith, shown, h))
        ∙ ap (λ k. take k (whole_dump bytes)) size)
    ∙ take-append-take (out_len - 1) start (whole_dump bytes)

-- In a buffer of at least one byte, the dumps of P5 and P7 messages, and `hexdump`, leave the whole
-- text, cut off where the buffer ends: a heading with the layer and the name of the message id, or
-- that the header does not unpack, then the length in brackets, then each byte with two hexadecimal
-- digits. The ellipsis is never written.
pub hexdumps-cut :
    (unpack_id : List ℕ → Option ℕ) (bytes : List ℕ) (out_len : ℕ)
    → 1 ≤ out_len
    → (hexdump bytes out_len ≡ take (out_len - 1) (whole_dump bytes))
      × (hexdump_p5 unpack_id bytes out_len
          ≡ take (out_len - 1) (heading (codes "P5") (unpack_id bytes) ++ whole_dump bytes))
      × (hexdump_p7 unpack_id bytes out_len
          ≡ take (out_len - 1) (heading (codes "P7") (unpack_id bytes) ++ whole_dump bytes))
unfolding hexdump_p5 hexdump_p7
hexdumps-cut unpack_id bytes out_len h = (
  hexdump-cuts bytes out_len h,
  dump_after-cuts (heading (codes "P5") (unpack_id bytes)) bytes out_len h,
  dump_after-cuts (heading (codes "P7") (unpack_id bytes)) bytes out_len h,
)
