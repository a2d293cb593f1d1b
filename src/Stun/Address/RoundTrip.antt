-- ===== src/Stun/Address/RoundTrip.antt =====
-- The address attributes read back: both encodings, both address families.
use altair.Prelude.{
  ℕ, suc, ◌+◌, ◌*◌, ◌/◌, ◌%◌, ◌≤◌, ◌<◌, ◌-◌, ◌≡◌, refl, ap, ap₂, ◌∙◌, ◌⊎◌, inl, inr, bit_xor, List,
  [], ◌∷◌, ◌++◌, none, some, arith, length, take, take_all, replicate, Option-cases, le→ltb,
  append-nil,
}
use altair.Bytes.{
  overwrite, copy_into, put_u16, put_u32, bytes_u16, bytes_u32, be_u16, be_u32, slice, uint16,
}
use altair.Bytes.Laws.{slice_in, overwrite-replicate}
use altair.Stun.Encode.Laws.{write_type, write_length}
use altair.Bytes.Xor.{bit_xor_twice, bit_xor-lt}
use altair.Outcome.{ok}
use altair.Net.{UdpAddr, to4, to16}
use altair.Net.Laws.{length-to4, to4-IsBytes, to16_sixteen, to4-none_sixteen}
use altair.Stun.Message.{Attribute, magic_cookie, attr_xor_mapped_address}
use altair.Bytes.Laws.{IsBytes}
use altair.Stun.Wire.{IsAttribute}
use altair.Stun.Address.{
  family_ipv6, xor_bytes, xor_value, cookie_high, encode_xor_mapped_address,
  decode_xor_mapped_address, decode_xor_ip, read_family_port,
}
use altair.Stun.Address.Xor.{xor_bytes_twice, xor_key_lem}

-- The form in which an address comes back: four bytes if it is an IPv4 address.
abbrev pub canonical : List ℕ → List ℕ
canonical ip = elim (to4 ip) [ some v ↦ v | none ↦ ip ]

pub canonical-some : (ip v : List ℕ) → to4 ip ≡ some v → v ≡ canonical ip
canonical-some ip v h = ground arith

pub canonical-none : (ip : List ℕ) → to4 ip ≡ none → ip ≡ canonical ip
canonical-none ip h = ground arith

-- One port word through the mask and back.
port_back :
    (p : ℕ) → p < 65536 → bit_xor (bit_xor p 8466 / 256 % 256 * 256 + bit_xor p 8466 % 256) 8466 ≡ p
port_back p h =
    ap (λ x. bit_xor x 8466) (let b = bit_xor-lt 16 p 8466 in omega (arith, b))
    ∙ bit_xor_twice p 8466

-- One address word through the mask and back to its bytes.
address_back :
    (a b c d : ℕ)
    → IsBytes (a ∷ b ∷ c ∷ d ∷ [])
    → let w = bit_xor (((a * 256 + b) * 256 + c) * 256 + d) magic_cookie in
      bytes_u32 (
        bit_xor
          (((w / 16777216 % 256 * 256 + w / 65536 % 256) * 256 + w / 256 % 256) * 256 + w % 256)
          magic_cookie)
      ≡ a ∷ b ∷ c ∷ d ∷ []
unfolding bytes_u32
address_back a b c d (ha, (hb, (hc, (hd, _)))) =
    ap (λ x. bytes_u32 (bit_xor x magic_cookie)) whole
    ∙ ap bytes_u32 (bit_xor_twice n magic_cookie)
    ∙ ap₂ ◌∷◌ (omega arith)
        (ap₂ ◌∷◌ (omega arith) (ap₂ ◌∷◌ (omega arith) (ap (λ x. x ∷ []) (omega arith))))
  where
    n : ℕ
    n = ((a * 256 + b) * 256 + c) * 256 + d

    w : ℕ
    w = bit_xor n magic_cookie

    w_fits : w < 4294967296
    w_fits = bit_xor-lt 32 n magic_cookie (omega arith) (omega arith)

    whole : ((w / 16777216 % 256 * 256 + w / 65536 % 256) * 256 + w / 256 % 256) * 256 + w % 256 ≡ w
    whole = omega (arith, w_fits)

-- Four bytes or more begin with a family and a port.
pub read_family_port_lem :
    (f g p q : ℕ) (rest : List ℕ)
    → read_family_port (f ∷ g ∷ p ∷ q ∷ rest) ≡ ok (f * 256 + g, p * 256 + q)
unfolding read_family_port be_u16
read_family_port_lem f g p q rest =
    rw
      (
        slice_in (f ∷ g ∷ p ∷ q ∷ rest) 0 2 (omega arith) (omega arith),
        slice_in (f ∷ g ∷ p ∷ q ∷ rest) 2 4 (omega arith) (omega arith),
      )
      refl

module _ (addr : UdpAddr) (id : List ℕ) (port_fits : addr.port < 65536) where
  abbrev masked : ℕ
  masked = bit_xor (uint16 addr.port) cookie_high

  port_restored : bit_xor (masked / 256 % 256 * 256 + masked % 256) cookie_high ≡ addr.port
  port_restored = port_back (uint16 addr.port) (omega arith) ∙ omega arith

  xor_v4 :
      (a b c d : ℕ)
      → to4 addr.ip ≡ some (a ∷ b ∷ c ∷ d ∷ [])
      → xor_value addr id
        ≡ some (
            0
            ∷ 1
            ∷ (bytes_u16 masked
                ++ bytes_u32 (bit_xor (((a * 256 + b) * 256 + c) * 256 + d) magic_cookie)))
  unfolding xor_value put_u16 put_u32 copy_into overwrite bytes_u16 bytes_u32 be_u32
  xor_v4 a b c d h = rw (h, xor_value) refl

  decode_v4 :
      (w : ℕ)
      → decode_xor_mapped_address
          (record {
            type = attr_xor_mapped_address;
            length = 8;
            value = 0 ∷ 1 ∷ (bytes_u16 masked ++ bytes_u32 w);
          })
          id
        ≡ ok (record {
          ip = bytes_u32 (
              bit_xor
                (((w / 16777216 % 256 * 256 + w / 65536 % 256) * 256 + w / 256 % 256) * 256
                  + w % 256)
                magic_cookie);
          port = addr.port;
        })
  unfolding decode_xor_mapped_address read_family_port decode_xor_ip slice be_u16 be_u32 put_u32
      copy_into overwrite bytes_u16 bytes_u32
  decode_v4 w =
      ap
        (λ p. ok (record {
          ip = bytes_u32 (
              bit_xor
                (((w / 16777216 % 256 * 256 + w / 65536 % 256) * 256 + w / 256 % 256) * 256
                  + w % 256)
                magic_cookie);
          port = p;
        }))
        port_restored

  xor_v6 :
      (ip r : List ℕ)
      → to4 addr.ip ≡ none
      → to16 addr.ip ≡ some ip
      → length id ≡ 12
      → xor_bytes 16 ip (bytes_u32 magic_cookie ++ id) ≡ some r
      → length r ≡ 16
      → xor_value addr id ≡ some (0 ∷ 2 ∷ (bytes_u16 masked ++ r))
  unfolding xor_value bytes_u16
  xor_v6 ip r h k size e len =
      rw (h, xor_value)
        (rw (write_length [] (replicate 16 0) 0 0 masked)
          (rw (xor_key_lem id size) (rw k (rw e (rw copied (write_type [] r _ _ family_ipv6))))))
    where
      copied :
          copy_into (0 ∷ 0 ∷ masked / 256 % 256 ∷ masked % 256 ∷ replicate 16 0) 4 20 r
          ≡ some (0 ∷ 0 ∷ masked / 256 % 256 ∷ masked % 256 ∷ r)
      copied =
          unfold copy_into overwrite in
          ap (λ v. some (0 ∷ 0 ∷ masked / 256 % 256 ∷ masked % 256 ∷ v))
            (ap (overwrite (replicate 16 0) 0) (take_all 16 r (omega arith))
              ∙ overwrite-replicate 16 r (omega arith)
              ∙ ap (λ n. r ++ replicate n 0) (let e : 16 - length r ≡ 0 = omega arith in e)
              ∙ append-nil r)

  decode_v6 :
      (r ip : List ℕ)
      → length id ≡ 12
      → length r ≡ 16
      → xor_bytes 16 r (bytes_u32 magic_cookie ++ id) ≡ some ip
      → decode_xor_mapped_address
          (record {
            type = attr_xor_mapped_address;
            length = 20;
            value = 0 ∷ 2 ∷ (bytes_u16 masked ++ r);
          })
          id
        ≡ ok (record { ip = ip; port = addr.port })
  unfolding decode_xor_mapped_address bytes_u16
  decode_v6 r ip size len e = rw (le→ltb (suc (suc (suc (suc (length r))))) 4 (omega arith)) (
      rw (read_family_port_lem 0 2 (masked / 256 % 256) (masked % 256) r)
        (rw ip_lem (ap (λ p. ok (record { ip = ip; port = p })) port_restored)))
    where
      ip_lem : decode_xor_ip 2 (0 ∷ 2 ∷ masked / 256 % 256 ∷ masked % 256 ∷ r) id ≡ ok ip
      ip_lem =
          unfold decode_xor_ip in
          rw (le→ltb (suc (suc (suc (suc (length r))))) 20 (omega arith))
            (rw (xor_key_lem id size) (rw e refl))

abbrev sealed : List ℕ → ℕ → Attribute
sealed value len = record { type = attr_xor_mapped_address; length = len; value = value }

abbrev word_of : ℕ → ℕ → ℕ → ℕ → ℕ
word_of a b c d = bit_xor (((a * 256 + b) * 256 + c) * 256 + d) magic_cookie

abbrev ComesBack : UdpAddr → List ℕ → Type 0
ComesBack addr id =
    (a : Attribute) × (encode_xor_mapped_address addr id ≡ some a)
    × IsAttribute a
    × (a.length ≤ 20)
    × (a.type ≡ attr_xor_mapped_address)
    × (decode_xor_mapped_address a id ≡ ok (record { ip = canonical addr.ip; port = addr.port }))

module _ (addr : UdpAddr) (id : List ℕ) (fits : addr.port < 65536) (id_size : length id ≡ 12) where
  ComesBack-v6 :
      (r : List ℕ)
      → to4 addr.ip ≡ none
      → length addr.ip ≡ 16
      → xor_bytes 16 addr.ip (bytes_u32 magic_cookie ++ id) ≡ some r
      → length r ≡ 16
      → xor_bytes 16 r (bytes_u32 magic_cookie ++ id) ≡ some (take 16 addr.ip)
      → ComesBack addr id
  unfolding encode_xor_mapped_address
  ComesBack-v6 r h size there len back = (
    sealed (0 ∷ 2 ∷ (bytes_u16 (masked addr id fits) ++ r)) 20,
    rw (xor_v6 addr id fits addr.ip r h (to16_sixteen addr.ip size) id_size there len)
        (ap (λ n. some (sealed (0 ∷ 2 ∷ (bytes_u16 (masked addr id fits) ++ r)) n)) size_word),
    record {
      type_fits = omega arith;
      length_fits = omega arith;
      exact = unfold bytes_u16 in omega (arith, len);
    },
    omega arith,
    refl,
    decode_v6 addr id fits r (take 16 addr.ip) id_size len back
        ∙ ap (λ t. ok (record { ip = t; port = addr.port }))
            (take_all 16 addr.ip (omega arith) ∙ canonical-none addr.ip h),
  )
    where
      size_word : uint16 (length (0 ∷ 2 ∷ (bytes_u16 (masked addr id fits) ++ r))) ≡ 20
      size_word = unfold bytes_u16 in omega (arith, len)

  ComesBack-v4 :
      (a b c d : ℕ) → to4 addr.ip ≡ some (a ∷ b ∷ c ∷ d ∷ []) → IsBytes addr.ip → ComesBack addr id
  unfolding encode_xor_mapped_address bytes_u16 bytes_u32
  ComesBack-v4 a b c d h bytes = (
    sealed (0 ∷ 1 ∷ (bytes_u16 (masked addr id fits) ++ bytes_u32 (word_of a b c d))) 8,
    rw (xor_v4 addr id fits a b c d h) refl,
    record { type_fits = omega arith; length_fits = omega arith; exact = refl },
    omega arith,
    refl,
    decode_v4 addr id fits (word_of a b c d)
        ∙ ap (λ t. ok (record { ip = t; port = addr.port }))
            (address_back a b c d (to4-IsBytes addr.ip (a ∷ b ∷ c ∷ d ∷ []) bytes h)
              ∙ canonical-some addr.ip (a ∷ b ∷ c ∷ d ∷ []) h),
  )

-- Four bytes, taken apart.
pub four_bytes :
    (v : List ℕ) → length v ≡ 4 → (a : ℕ) × (b : ℕ) × (c : ℕ) × (d : ℕ) × (v ≡ a ∷ b ∷ c ∷ d ∷ [])
four_bytes [] h = absurd (omega arith)
four_bytes (a ∷ []) h = absurd (omega arith)
four_bytes (a ∷ b ∷ []) h = absurd (omega arith)
four_bytes (a ∷ b ∷ c ∷ []) h = absurd (omega arith)
four_bytes (a ∷ b ∷ c ∷ d ∷ []) h = (a, b, c, d, refl)
four_bytes (a ∷ b ∷ c ∷ d ∷ e ∷ r) h = absurd (omega arith)

-- An address of four or sixteen bytes with a port below 2 ^ 16 is encoded, for a transaction ID of
-- twelve bytes, as a well-formed XOR-MAPPED-ADDRESS attribute with a value of at most twenty
-- bytes; decoded with the same transaction ID, it is the address in its shortest form, with its
-- port.
pub decode-encode_xor :
    (addr : UdpAddr) (id : List ℕ)
    → (length addr.ip ≡ 4) ⊎ (length addr.ip ≡ 16)
    → IsBytes addr.ip
    → addr.port < 65536
    → length id ≡ 12
    → (a : Attribute) × (encode_xor_mapped_address addr id ≡ some a)
      × IsAttribute a
      × (a.length ≤ 20)
      × (a.type ≡ attr_xor_mapped_address)
      × (decode_xor_mapped_address a id ≡ ok (record { ip = canonical addr.ip; port = addr.port }))
decode-encode_xor addr id sizes bytes fits id_size = elim (Option-cases (to4 addr.ip)) [
  | inl h ↦
      let size = to4-none_sixteen addr.ip h sizes in
      let key : 16 ≤ length (bytes_u32 magic_cookie ++ id) = unfold bytes_u32 in omega arith in
      let (r, there, len, back) =
        xor_bytes_twice 16 addr.ip (bytes_u32 magic_cookie ++ id) (omega arith) key in
      ComesBack-v6 addr id fits id_size r h size there len back
  | inr (v, h) ↦
      let (a, b, c, d, e) = four_bytes v (length-to4 addr.ip v h) in
      ComesBack-v4 addr id fits id_size a b c d (h ∙ ap some e) bytes
]
