-- ===== src/Stun/Decode/Laws.antt =====
-- `Decode` reads back the wire format, whatever follows it in the buffer.
use altair.Prelude.{
  ℕ, zero, suc, ◌+◌, ◌-◌, ◌≤◌, ◌<◌, ◌≡◌, refl, sym, ap, ap₂, ◌∙◌, List, [], ◌∷◌, ◌++◌, some, arith,
  lt→ltb, le→ltb, length, take, drop, replicate, length-append, append_assoc, append-nil, take_all,
  take-append_left, All,
}
use altair.Bytes.{slice, be_u16, be_u32, bytes_u16, bytes_u32, uint16}
use altair.Bytes.Laws.{slice-append, slice_in}
use altair.Stun.Message.{Attribute, Message, attr_len, msg_length, magic_cookie}
use altair.Stun.Wire.{
  padded_value, wire_attribute, wire_attributes, wire_header, wire, IsAttribute, IsMessage,
}
use altair.Stun.Encode.Laws.{length-wire_attribute, length-wire_attributes, attr_len_bounds}
use altair.Outcome.{ok}
use altair.Stun.Decode.{
  read_u16, read_u32, decode_value, decode_attribute, decode_attributes, decode_body, decode,
}

-- A word stored big-endian behind `k` bytes of `xs` is read back.
read_u16_at :
    (pre xs tail : List ℕ) (a b i j v : ℕ)
    → i ≡ length pre + a
    → j ≡ length pre + b
    → b ≡ a + 2
    → b ≤ length xs
    → drop a xs ≡ bytes_u16 v ++ tail
    → v < 65536
    → read_u16 (pre ++ xs) i j ≡ ok v
unfolding read_u16 bytes_u16 be_u16
read_u16_at pre xs tail a b i j v hi hj hb fits at_a small =
    rw (slice-append pre xs a b i j hi hj (omega arith) fits) (rw (two, at_a) (ap ok (omega arith)))
  where
    two : b - a ≡ 2
    two = omega arith

module _ (pre post : List ℕ) (a : Attribute) (v : IsAttribute a) where
  padded_exact : padded_value a ≡ a.value ++ replicate (attr_len a.length - 4 - length a.value) 0
  unfolding padded_value
  padded_exact =
      ap (λ x. x ++ replicate (attr_len a.length - 4 - length x) 0)
        (take_all a.length a.value (omega (arith, v.exact)))

  value_exact : take a.length (padded_value a ++ post) ≡ a.value
  value_exact = rw (padded_exact, append_assoc) (take-append_left a.value _ a.length v.exact)

  input_length : length pre + (4 + a.length) ≤ length (pre ++ (wire_attribute a ++ post))
  input_length = omega (
    arith,
    length-append {0} pre (wire_attribute a ++ post),
    length-append {0} (wire_attribute a) post,
    length-wire_attribute a,
    attr_len_bounds a.length,
  )

  decode_value_lem :
      decode_value (pre ++ (wire_attribute a ++ post)) (length pre) a.type a.length ≡ ok a
  unfolding decode_value
  decode_value_lem =
      rw
        (le→ltb (length (pre ++ (wire_attribute a ++ post))) (length pre + 4 + a.length)
          (omega (arith, input_length)))
        (rw (at ∙ ap some (ap₂ (λ n t. take n t) four value_exact_at ∙ value_exact)) refl)
    where
      four : 4 + a.length - 4 ≡ a.length
      four = omega arith

      value_exact_at : drop 4 (wire_attribute a ++ post) ≡ padded_value a ++ post
      value_exact_at = unfold wire_attribute bytes_u16 in refl

      at :
          slice (pre ++ (wire_attribute a ++ post)) (length pre + 4) (length pre + 4 + a.length)
          ≡ some (take (4 + a.length - 4) (drop 4 (wire_attribute a ++ post)))
      at =
          slice-append pre (wire_attribute a ++ post) 4 (4 + a.length) (length pre + 4)
            (length pre + 4 + a.length) refl (omega arith) (omega arith)
            (omega (arith, input_length, length-append {0} pre (wire_attribute a ++ post)))

  pub decode_attribute_lem :
      decode_attribute (pre ++ (wire_attribute a ++ post)) (length pre) ≡ ok a
  unfolding decode_attribute
  decode_attribute_lem =
      rw
        (le→ltb (length (pre ++ (wire_attribute a ++ post))) (length pre + 4)
          (omega (arith, input_length)))
        (rw
          (read_u16_at pre (wire_attribute a ++ post)
            (bytes_u16 a.length ++ (padded_value a ++ post)) 0 2 (length pre) (length pre + 2)
            a.type (omega arith) refl refl (omega (arith, fits))
            (unfold wire_attribute bytes_u16 in refl) v.type_fits)
          (rw
            (read_u16_at pre (wire_attribute a ++ post) (padded_value a ++ post) 2 4
              (length pre + 2) (length pre + 4) a.length refl refl refl (omega (arith, fits))
              (unfold wire_attribute bytes_u16 in refl) v.length_fits)
            decode_value_lem))
    where
      fits : 4 ≤ length (wire_attribute a ++ post)
      fits = omega (arith, input_length, length-append {0} pre (wire_attribute a ++ post))

decode_attributes_lem :
    (attrs : List Attribute) (fuel : ℕ) (pre rest : List ℕ) (stop offset : ℕ) (acc : List Attribute)
    → All IsAttribute attrs
    → offset ≡ length pre
    → stop ≡ offset + msg_length attrs
    → length attrs < fuel
    → decode_attributes fuel (pre ++ (wire_attributes attrs ++ rest)) stop offset acc
      ≡ ok (acc ++ attrs)
unfolding decode_attributes wire_attributes msg_length
decode_attributes_lem attrs zero pre rest stop offset acc h ho hs hf = absurd (omega arith)
decode_attributes_lem [] (suc fuel) pre rest stop offset acc h ho hs hf =
    rw (le→ltb offset stop (omega arith), decode_attributes) (ap ok (sym (append-nil acc)))
decode_attributes_lem (a ∷ attrs) (suc fuel) pre rest stop offset acc (h, hs') ho hs hf =
    rw (lt→ltb offset stop (omega (arith, attr_len_bounds a.length)), decode_attributes)
      (rw
        (ap₂ decode_attribute regroup ho
          ∙ decode_attribute_lem pre (wire_attributes attrs ++ rest) a h)
        (ap (λ l. decode_attributes fuel l stop (offset + attr_len a.length) (acc ++ a ∷ [])) behind
          ∙ decode_attributes_lem attrs fuel (pre ++ wire_attribute a) rest stop
              (offset + attr_len a.length) (acc ++ a ∷ []) hs' next (omega arith) (omega arith)
          ∙ ap ok (append_assoc acc (a ∷ []) attrs)))
  where
    behind :
        pre ++ ((wire_attribute a ++ wire_attributes attrs) ++ rest)
        ≡ (pre ++ wire_attribute a) ++ (wire_attributes attrs ++ rest)
    behind =
        ap (◌++◌ pre) (append_assoc (wire_attribute a) (wire_attributes attrs) rest)
        ∙ sym (append_assoc pre (wire_attribute a) (wire_attributes attrs ++ rest))

    next : offset + attr_len a.length ≡ length (pre ++ wire_attribute a)
    next = omega (arith, length-append {0} pre (wire_attribute a), length-wire_attribute a)

    regroup :
        pre ++ ((wire_attribute a ++ wire_attributes attrs) ++ rest)
        ≡ pre ++ (wire_attribute a ++ (wire_attributes attrs ++ rest))
    regroup = ap (◌++◌ pre) (append_assoc (wire_attribute a) (wire_attributes attrs) rest)

length-le-msg_length : (attrs : List Attribute) → length attrs ≤ msg_length attrs
unfolding msg_length
length-le-msg_length [] = omega arith
length-le-msg_length (a ∷ rest) = omega (arith, attr_len_bounds a.length, length-le-msg_length rest)

module _ (m : Message) (rest : List ℕ) (v : IsMessage m) where
  size : msg_length m.attributes ≡ uint16 (msg_length m.attributes)
  size = omega (arith, v.total_fits)

  length-wire_header : length (wire_header m) ≡ 20
  unfolding wire_header bytes_u16 bytes_u32
  length-wire_header = omega (arith, v.id_size)

  pub length-input : length (wire m ++ rest) ≡ 20 + msg_length m.attributes + length rest
  unfolding wire
  length-input = omega (
    arith,
    length-append {0} (wire m) rest,
    length-append {0} (wire_header m) (wire_attributes m.attributes),
    length-wire_header,
    length-wire_attributes m.attributes,
  )

  decode_body_lem : decode_body (wire m ++ rest) m.type (uint16 (msg_length m.attributes)) ≡ ok m
  unfolding decode_body
  decode_body_lem = rw id (
      rw
        (le→ltb (length (wire m ++ rest)) (20 + uint16 (msg_length m.attributes))
          (omega (arith, length-input)))
        (rw attributes refl))
    where
      tail : drop 8 (wire m ++ rest) ≡ (m.transaction_id ++ wire_attributes m.attributes) ++ rest
      tail = unfold wire wire_header bytes_u16 bytes_u32 in refl

      id : slice (wire m ++ rest) 8 20 ≡ some m.transaction_id
      id =
          slice_in (wire m ++ rest) 8 20 (omega arith) (omega (arith, length-input))
          ∙ ap (λ t. some (take 12 t)) (tail ∙ append_assoc m.transaction_id _ rest)
          ∙ ap some (take-append_left m.transaction_id _ 12 (sym v.id_size))

      regroup : wire m ++ rest ≡ wire_header m ++ (wire_attributes m.attributes ++ rest)
      regroup = unfold wire in append_assoc (wire_header m) (wire_attributes m.attributes) rest

      attributes :
          decode_attributes
            (suc (uint16 (msg_length m.attributes)))
            (wire m ++ rest)
            (20 + uint16 (msg_length m.attributes))
            20
            []
          ≡ ok m.attributes
      attributes =
          ap
            (λ t.
              decode_attributes (suc (uint16 (msg_length m.attributes))) t
                (20 + uint16 (msg_length m.attributes)) 20 [])
            regroup
          ∙ decode_attributes_lem m.attributes (suc (uint16 (msg_length m.attributes)))
              (wire_header m) rest (20 + uint16 (msg_length m.attributes)) 20 [] v.each
              (sym length-wire_header) (omega (arith, size))
              (omega (arith, size, length-le-msg_length m.attributes))

  -- `Decode` reads the wire format back and ignores what follows it in the buffer.
  pub decode-wire : decode (wire m ++ rest) ≡ ok m
  unfolding decode
  decode-wire = rw (le→ltb (length (wire m ++ rest)) 20 (omega (arith, length-input))) (
      rw
        (read_u16_at [] (wire m ++ rest) (drop 2 (wire m ++ rest)) 0 2 0 2 m.type refl refl refl
          (omega (arith, length-input)) (unfold wire wire_header bytes_u16 in refl) v.type_fits)
        (rw
          (read_u16_at [] (wire m ++ rest) (drop 4 (wire m ++ rest)) 2 4 2 4
            (uint16 (msg_length m.attributes)) refl refl refl (omega (arith, length-input))
            (unfold wire wire_header bytes_u16 in refl) (omega arith))
          (rw cookie decode_body_lem)))
    where
      cookie : read_u32 (wire m ++ rest) 4 8 ≡ ok magic_cookie
      cookie =
          unfold read_u32 wire wire_header bytes_u16 bytes_u32 be_u32 in
          rw (slice_in (wire m ++ rest) 4 8 (omega arith) (omega (arith, length-input))) refl
