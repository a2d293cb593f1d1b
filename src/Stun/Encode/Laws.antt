-- ===== src/Stun/Encode/Laws.antt =====
-- `Encode` produces the wire format: the writes in place against the concatenation of the parts.
use altair.Prelude.{
  ◌/◌, ℕ, zero, suc, ◌+◌, ◌-◌, ◌%◌, ◌≤◌, ◌<◌, ◌≡◌, refl, sym, ap, ap₂, ◌∙◌, List, [], ◌∷◌, ◌++◌,
  some, arith, length, take, replicate, length-append, length-take, length-replicate,
  replicate-append, append_assoc, take_all,
}
use altair.Bytes.{overwrite, copy_into, put_u16, put_u32, bytes_u16, bytes_u32, uint16}
use altair.Bytes.Laws.{copy_into-append, copy_into_in, overwrite-replicate, overwrite-zero_nil}
use altair.Stun.Message.{Attribute, Message, attr_len, msg_length, magic_cookie}
use altair.Stun.Wire.{padded_value, wire_attribute, wire_attributes, wire_header, wire}
use altair.Stun.Encode.{encode_attribute, encode_attributes, encode_header, encode}

-- The padded length covers header and value, by less than four bytes, and is a multiple of four.
pub attr_len_bounds : (n : ℕ) → (4 + n ≤ attr_len n) × (attr_len n < 8 + n) × (attr_len n % 4 ≡ 0)
unfolding attr_len
attr_len_bounds n = ground arith

-- Zeros over a value and its padding: `k` bytes, of which the attribute takes `n`.
split_zeros :
    (v : List ℕ) (k n : ℕ)
    → length v ≤ n
    → n ≤ k
    → v ++ replicate (k - length v) 0 ≡ (v ++ replicate (n - length v) 0) ++ replicate (k - n) 0
split_zeros v k n h g =
    ap (◌++◌ v) (sym (replicate-append (n - length v) (k - n) 0 ∙ ap (λ i. replicate i 0) sum))
    ∙ sym (append_assoc v (replicate (n - length v) 0) (replicate (k - n) 0))
  where
    sum : n - length v + (k - n) ≡ k - length v
    sum = omega arith

module _ (pre rest : List ℕ) (x y : ℕ) where
  -- The writes of the two words of an attribute header.
  pub write_type :
      (v : ℕ)
      → put_u16 (pre ++ (0 ∷ 0 ∷ x ∷ y ∷ rest)) (length pre) v
        ≡ some (pre ++ (v / 256 % 256 ∷ v % 256 ∷ x ∷ y ∷ rest))
  unfolding put_u16 bytes_u16 overwrite
  write_type v =
      copy_into-append pre (0 ∷ 0 ∷ x ∷ y ∷ rest) (bytes_u16 v) 0 2 (length pre) (length pre + 2)
        (omega arith) refl (omega arith) (omega arith)

  pub write_length :
      (v : ℕ)
      → put_u16 (pre ++ (x ∷ y ∷ 0 ∷ 0 ∷ rest)) (length pre + 2) v
        ≡ some (pre ++ (x ∷ y ∷ v / 256 % 256 ∷ v % 256 ∷ rest))
  unfolding put_u16 bytes_u16 overwrite
  write_length v =
      copy_into-append pre (x ∷ y ∷ 0 ∷ 0 ∷ rest) (bytes_u16 v) 2 4 (length pre + 2)
        (length pre + 2 + 2) refl (omega arith) (omega arith) (omega arith)
      ∙ ap (λ t. some (pre ++ (x ∷ y ∷ v / 256 % 256 ∷ v % 256 ∷ t))) (overwrite-zero_nil rest)

write_value :
    (pre : List ℕ) (w x y z k : ℕ) (a : Attribute)
    → a.length ≤ k
    → copy_into
        (pre ++ (w ∷ x ∷ y ∷ z ∷ replicate k 0))
        (length pre + 4)
        (length pre + 4 + a.length)
        a.value
      ≡ some (
          pre
          ++ (w
              ∷ x
              ∷ y
              ∷ z
              ∷ (take a.length a.value ++ replicate (k - length (take a.length a.value)) 0)))
unfolding overwrite
write_value pre w x y z k a h =
    copy_into-append pre (w ∷ x ∷ y ∷ z ∷ replicate k 0) a.value 4 (4 + a.length) (length pre + 4)
      (length pre + 4 + a.length) refl (omega arith) (omega arith)
      (omega (arith, length-replicate {0} k (zero)))
    ∙ ap (λ v. some (pre ++ (w ∷ x ∷ y ∷ z ∷ overwrite (replicate k 0) 0 v))) cut
    ∙ ap (λ v. some (pre ++ (w ∷ x ∷ y ∷ z ∷ v)))
        (overwrite-replicate k (take a.length a.value)
          (omega (arith, length-take {0} a.length a.value)))
  where
    cut : take (4 + a.length - 4) a.value ≡ take a.length a.value
    cut = ap (λ n. take n a.value) (let e : 4 + a.length - 4 ≡ a.length = omega arith in e)

-- The three writes for one attribute into a zeroed tail.
write_attribute :
    (pre : List ℕ) (m : ℕ) (a : Attribute)
    → attr_len a.length ≤ m
    → encode_attribute (pre ++ replicate m 0) (length pre) a
      ≡ some (pre ++ (wire_attribute a ++ replicate (m - attr_len a.length) 0))
unfolding encode_attribute bytes_u16 wire_attribute padded_value
write_attribute pre zero a h = absurd (omega (arith, attr_len_bounds a.length))
write_attribute pre (suc zero) a h = absurd (omega (arith, attr_len_bounds a.length))
write_attribute pre (suc (suc zero)) a h = absurd (omega (arith, attr_len_bounds a.length))
write_attribute pre (suc (suc (suc zero))) a h = absurd (omega (arith, attr_len_bounds a.length))
write_attribute pre (suc (suc (suc (suc k)))) a h = rw (write_type pre (replicate k 0) 0 0 a.type) (
    rw (write_length pre (replicate k 0) (a.type / 256 % 256) (a.type % 256) a.length) (
      write_value pre (a.type / 256 % 256) (a.type % 256) (a.length / 256 % 256) (a.length % 256) k
        a (omega (arith, attr_len_bounds a.length))
      ∙ ap
          (λ v. some (
            pre ++ (a.type / 256 % 256 ∷ a.type % 256 ∷ a.length / 256 % 256 ∷ a.length % 256 ∷ v)))
          (tail ∙ ap (λ n. padded_value a ++ replicate n 0) remaining)))
  where
    v : List ℕ
    v = take a.length a.value

    tail :
        v ++ replicate (k - length v) 0
        ≡ (v ++ replicate (attr_len a.length - 4 - length v) 0)
          ++ replicate (k - (attr_len a.length - 4)) 0
    tail =
        split_zeros v k (attr_len a.length - 4)
          (omega (arith, attr_len_bounds a.length, length-take {0} a.length a.value))
          (omega (arith, attr_len_bounds a.length))

    remaining : k - (attr_len a.length - 4) ≡ suc (suc (suc (suc k))) - attr_len a.length
    remaining = omega (arith, attr_len_bounds a.length)

pub length-wire_attribute : (a : Attribute) → length (wire_attribute a) ≡ attr_len a.length
unfolding wire_attribute padded_value bytes_u16
length-wire_attribute a = omega (
  arith,
  attr_len_bounds a.length,
  length-take {0} a.length a.value,
  length-append {0} v (replicate (attr_len a.length - 4 - length v) 0),
  length-replicate {0} (attr_len a.length - 4 - length v) zero,
)
  where
    v : List ℕ
    v = take a.length a.value

pub length-wire_attributes :
    (attrs : List Attribute) → length (wire_attributes attrs) ≡ msg_length attrs
unfolding wire_attributes msg_length
length-wire_attributes [] = refl
length-wire_attributes (a ∷ rest) =
    length-append (wire_attribute a) (wire_attributes rest)
    ∙ ap₂ ◌+◌ (length-wire_attribute a) (length-wire_attributes rest)

encode_attributes_lem :
    (pre : List ℕ) (m : ℕ) (attrs : List Attribute)
    → m ≡ msg_length attrs
    → encode_attributes (pre ++ replicate m 0) (length pre) attrs
      ≡ some (pre ++ wire_attributes attrs)
unfolding encode_attributes msg_length wire_attributes
encode_attributes_lem pre m [] h = ap (λ n. some (pre ++ replicate n 0)) h
encode_attributes_lem pre m (a ∷ rest) h = rw (write_attribute pre m a (omega arith)) (
    ap₂ (λ b n. encode_attributes b n rest) regroup offset
    ∙ encode_attributes_lem (pre ++ wire_attribute a) (m - attr_len a.length) rest (omega arith)
    ∙ ap some (append_assoc pre (wire_attribute a) (wire_attributes rest)))
  where
    regroup :
        pre ++ (wire_attribute a ++ replicate (m - attr_len a.length) 0)
        ≡ (pre ++ wire_attribute a) ++ replicate (m - attr_len a.length) 0
    regroup = sym (append_assoc pre (wire_attribute a) _)

    offset : length pre + attr_len a.length ≡ length (pre ++ wire_attribute a)
    offset = omega (arith, length-append pre (wire_attribute a), length-wire_attribute a)

write_cookie :
    (a b c d : ℕ) (rest : List ℕ)
    → put_u32 (a ∷ b ∷ c ∷ d ∷ 0 ∷ 0 ∷ 0 ∷ 0 ∷ rest) 4 magic_cookie
      ≡ some (a ∷ b ∷ c ∷ d ∷ (bytes_u32 magic_cookie ++ rest))
unfolding put_u32 bytes_u32 overwrite
write_cookie a b c d rest =
    copy_into_in (a ∷ b ∷ c ∷ d ∷ 0 ∷ 0 ∷ 0 ∷ 0 ∷ rest) (bytes_u32 magic_cookie) 4 8 (omega arith)
      (omega arith)
    ∙ ap (λ t. some (a ∷ b ∷ c ∷ d ∷ (bytes_u32 magic_cookie ++ t))) (overwrite-zero_nil rest)

copy_id :
    (a b c d e f g h n : ℕ) (id : List ℕ)
    → length id ≡ 12
    → copy_into (a ∷ b ∷ c ∷ d ∷ e ∷ f ∷ g ∷ h ∷ (replicate 12 0 ++ replicate n 0)) 8 20 id
      ≡ some (a ∷ b ∷ c ∷ d ∷ e ∷ f ∷ g ∷ h ∷ (id ++ replicate n 0))
unfolding overwrite
copy_id a b c d e f g h n id size =
    copy_into_in _ id 8 20 (omega arith) (omega arith)
    ∙ ap (λ v. some (a ∷ b ∷ c ∷ d ∷ e ∷ f ∷ g ∷ h ∷ v))
        (ap₂ (λ t s. overwrite t 0 s) (replicate-append 12 n 0) (take_all 12 id (omega arith))
          ∙ overwrite-replicate (12 + n) id (omega arith)
          ∙ ap (λ k. id ++ replicate k 0) rest)
  where
    rest : 12 + n - length id ≡ n
    rest = omega arith

module _ (m : Message) (id_size : length m.transaction_id ≡ 12) where
  header_lem :
      encode_header m (msg_length m.attributes)
      ≡ some (wire_header m ++ replicate (msg_length m.attributes) 0)
  unfolding encode_header bytes_u16 bytes_u32 wire_header
  header_lem =
      let n = msg_length m.attributes in
      rw (← replicate-append {A = ℕ} 20 n 0) (
        rw (write_type [] (replicate 16 0 ++ replicate n 0) 0 0 m.type) (
          rw
            (write_length [] (replicate 16 0 ++ replicate n 0) (m.type / 256 % 256) (m.type % 256)
              (uint16 n))
            (rw (write_cookie _ _ _ _ (replicate 12 0 ++ replicate n 0))
              (copy_id _ _ _ _ _ _ _ _ n m.transaction_id id_size))))

  -- For a message whose transaction ID has twelve bytes, Encode, which writes in place at an
  -- offset into a zeroed buffer, makes no write out of range and returns the wire format: type,
  -- length of the attributes modulo 2 ^ 16, cookie and ID, and each attribute as type, length,
  -- value cut to that length, and zeros up to its padded length.
  pub encode-eq-wire : encode m ≡ some (wire m)
  unfolding encode wire
  encode-eq-wire = rw header_lem (
      ap
        (λ n.
          encode_attributes (wire_header m ++ replicate (msg_length m.attributes) 0) n m.attributes)
        size
      ∙ encode_attributes_lem (wire_header m) _ m.attributes refl)
    where
      size : 20 ≡ length (wire_header m)
      size = unfold wire_header bytes_u16 bytes_u32 in omega (arith, id_size)
