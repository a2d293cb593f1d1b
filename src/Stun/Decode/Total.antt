-- ===== src/Stun/Decode/Total.antt =====
-- `Decode` on arbitrary input: no access out of range, no endless loop, and only well-formed
-- messages accepted.
use altair.Prelude.{
  ℕ, zero, suc, ◌+◌, ◌-◌, ◌≤◌, ◌<◌, ◌≡◌, refl, inl, inr, List, [], ◌∷◌, ◌++◌, arith, ltb, ltb→lt,
  ltb→le, Bool-cases, length, take, drop, length-take, length-drop, All, not, ◌==◌, if◌then◌else◌,
}
use altair.Bytes.{slice, be_u16, be_u32}
use altair.Bytes.Laws.{IsBytes, IsBytes-take, IsBytes-drop, slice_in}
use altair.Stun.Message.{Attribute, Message, attr_len, magic_cookie}
use altair.Stun.Wire.{IsAttribute}
use altair.Stun.Encode.Laws.{attr_len_bounds}
use altair.Outcome.{err, ◌>>=◌, or_panic, Meets, bind-Meets}
use altair.Stun.Decode.{
  DecodeError, read_u16, read_u32, decode_value, decode_attribute, decode_attributes, decode_body,
  decode, invalid_cookie,
}

word :
    (xs : List ℕ)
    → IsBytes xs
    → 2 ≤ length xs
    → Meets {E = DecodeError} (λ v. v < 65536) (or_panic (be_u16 xs))
unfolding be_u16
word [] h k = absurd (omega arith)
word (x ∷ []) h k = absurd (omega arith)
word (x ∷ y ∷ xs) h k = omega arith

double_word :
    (xs : List ℕ) → 4 ≤ length xs → Meets {E = DecodeError} (λ v. Unit) (or_panic (be_u32 xs))
unfolding be_u32
double_word [] k = absurd (omega arith)
double_word (a ∷ []) k = absurd (omega arith)
double_word (a ∷ b ∷ []) k = absurd (omega arith)
double_word (a ∷ b ∷ c ∷ []) k = absurd (omega arith)
double_word (a ∷ b ∷ c ∷ d ∷ xs) k = tt

module _ (input : List ℕ) (bytes : IsBytes input) where
  part_size : (a b : ℕ) → a ≤ b → b ≤ length input → length (take (b - a) (drop a input)) ≡ b - a
  part_size a b h k = omega (arith, length-take {0} (b - a) (drop a input), length-drop {0} a input)

  read_u16-Meets :
      (a b : ℕ) → b ≡ a + 2 → b ≤ length input → Meets (λ v. v < 65536) (read_u16 input a b)
  unfolding read_u16
  read_u16-Meets a b e h = rw (slice_in input a b (omega arith) h) (
      word _ (IsBytes-take (b - a) (drop a input) (IsBytes-drop a input bytes))
        (let s = part_size a b (omega arith) h in omega (arith, s)))

  read_u32-Meets : (a b : ℕ) → b ≡ a + 4 → b ≤ length input → Meets (λ v. Unit) (read_u32 input a b)
  unfolding read_u32
  read_u32-Meets a b e h =
      rw (slice_in input a b (omega arith) h)
        (double_word _ (let s = part_size a b (omega arith) h in omega (arith, s)))

  slice-Meets :
      (a b : ℕ)
      → a ≤ b
      → b ≤ length input
      → Meets {E = DecodeError} (λ s. length s ≡ b - a) (or_panic (slice input a b))
  slice-Meets a b h k = rw (slice_in input a b h k) (part_size a b h k)

  decode_value-Meets :
      (offset type len : ℕ)
      → type < 65536
      → len < 65536
      → Meets IsAttribute (decode_value input offset type len)
  unfolding decode_value
  decode_value-Meets offset type len ht hl =
      elim (Bool-cases (ltb (length input) (offset + 4 + len))) [
        | inl short ↦ rw short tt
        | inr long ↦ rw long (
            bind-Meets (λ s. length s ≡ offset + 4 + len - (offset + 4)) IsAttribute
              (or_panic (slice input (offset + 4) (offset + 4 + len))) _
              (slice-Meets (offset + 4) (offset + 4 + len) (omega arith) (ltb→le _ _ long))
              λ s e. record { type_fits = ht; length_fits = hl; exact = omega arith })
      ]

  decode_attribute-Meets : (offset : ℕ) → Meets IsAttribute (decode_attribute input offset)
  unfolding decode_attribute
  decode_attribute-Meets offset = elim (Bool-cases (ltb (length input) (offset + 4))) [
    | inl short ↦ rw short tt
    | inr long ↦ rw long (
        bind-Meets (λ v. v < 65536) IsAttribute (read_u16 input offset (offset + 2)) _
          (read_u16-Meets offset (offset + 2) refl (omega (arith, ltb→le _ _ long)))
          λ type ht.
            bind-Meets (λ v. v < 65536) IsAttribute (read_u16 input (offset + 2) (offset + 4)) _
              (read_u16-Meets (offset + 2) (offset + 4) (omega arith) (ltb→le _ _ long))
              λ len hl. decode_value-Meets offset type len ht hl)
  ]

  All-snoc :
      (acc : List Attribute) (a : Attribute)
      → All IsAttribute acc
      → IsAttribute a
      → All IsAttribute (acc ++ a ∷ [])
  All-snoc [] a h k = (k, tt)
  All-snoc (b ∷ acc) a h k = (h.0, All-snoc acc a h.1 k)

  decode_attributes-Meets :
      (fuel stop offset : ℕ) (acc : List Attribute)
      → stop - offset < fuel
      → All IsAttribute acc
      → Meets (All IsAttribute) (decode_attributes fuel input stop offset acc)
  unfolding decode_attributes
  decode_attributes-Meets zero stop offset acc hf h = absurd (omega arith)
  decode_attributes-Meets (suc fuel) stop offset acc hf h = elim (Bool-cases (ltb offset stop)) [
    | inl more ↦
        rw (more, decode_attributes)
          (bind-Meets IsAttribute (All IsAttribute) (decode_attribute input offset) _
            (decode_attribute-Meets offset)
            λ a ha.
              decode_attributes-Meets fuel stop (offset + attr_len a.length) (acc ++ a ∷ [])
                (let p = ltb→lt offset stop more in omega (arith, p, attr_len_bounds a.length))
                (All-snoc acc a h ha))
    | inr done ↦ rw (done, decode_attributes) h
  ]

pub record IsDecoded (m : Message) : Type 0 where
  pub type_fits : m.type < 65536
  pub id_size : length m.transaction_id ≡ 12
  pub each : All IsAttribute m.attributes

module _ (input : List ℕ) (bytes : IsBytes input) where
  decode_body-Meets :
      (type len : ℕ)
      → type < 65536
      → 20 ≤ length input
      → Meets IsDecoded (decode_body input type len)
  unfolding decode_body
  decode_body-Meets type len ht hl =
      bind-Meets (λ s. length s ≡ 12) IsDecoded (or_panic (slice input 8 20)) _
        (slice-Meets input bytes 8 20 (omega arith) hl)
        λ id hid. elim (Bool-cases (ltb (length input) (20 + len))) [
          | inl short ↦ rw short tt
          | inr long ↦ rw long (
              bind-Meets (All IsAttribute) IsDecoded
                (decode_attributes (suc len) input (20 + len) 20 []) _
                (decode_attributes-Meets input bytes (suc len) (20 + len) 20 [] (omega arith) tt)
                λ attrs each. record { type_fits = ht; id_size = hid; each = each })
        ]

  -- On every input of bytes, Decode ends in a message or in one of its errors, never by an index
  -- out of range, and the fuel of its loop is enough; a message that it returns has a type below 2
  -- ^ 16, a transaction ID of twelve bytes, and attributes with type and length below 2 ^ 16 that
  -- state the length of their value.
  pub decode-Meets : Meets IsDecoded (decode input)
  unfolding decode
  decode-Meets = elim (Bool-cases (ltb (length input) 20)) [
    | inl short ↦ rw short tt
    | inr long ↦ rw long (fields (ltb→le _ _ long))
  ]
    where
      checked :
          (type len cookie : ℕ)
          → type < 65536
          → 20 ≤ length input
          → Meets IsDecoded (
              if not (cookie == magic_cookie)
              then err (invalid_cookie cookie)
              else decode_body input type len)
      checked type len cookie ht hl = elim (Bool-cases (cookie == magic_cookie)) [
        | inl same ↦ rw same (decode_body-Meets type len ht hl)
        | inr other ↦ rw other tt
      ]

      fields :
          20 ≤ length input
          → Meets IsDecoded (
              read_u16 input 0 2 >>= λ type. read_u16 input 2 4 >>= λ len.
              read_u32 input 4 8 >>= λ cookie.
              if not (cookie == magic_cookie)
              then err (invalid_cookie cookie)
              else decode_body input type len)
      fields hl =
          bind-Meets (λ v. v < 65536) IsDecoded (read_u16 input 0 2) _
            (read_u16-Meets input bytes 0 2 refl (omega arith))
            λ type ht.
              bind-Meets (λ v. v < 65536) IsDecoded (read_u16 input 2 4) _
                (read_u16-Meets input bytes 2 4 refl (omega arith))
                λ len _.
                  bind-Meets (λ v. Unit) IsDecoded (read_u32 input 4 8) _
                    (read_u32-Meets input bytes 4 8 refl (omega arith))
                    λ cookie _. checked type len cookie ht hl
