-- ===== src/Stun/Address/Mapped.antt =====
-- MAPPED-ADDRESS read back.
use altair.Prelude.{
  suc, ℕ, ◌+◌, ◌-◌, ◌*◌, ◌/◌, ◌%◌, ◌<◌, ◌≡◌, refl, ap, ◌∙◌, ◌⊎◌, inl, inr, List, [], ◌∷◌, ◌++◌,
  none, some, arith, Option-cases, le→ltb, length, take, take_all, replicate, append-nil,
}
use altair.Bytes.{overwrite, copy_into, put_u16, bytes_u16, be_u16, slice, uint16}
use altair.Bytes.Laws.{slice_in, overwrite-replicate}
use altair.Outcome.{ok}
use altair.Net.{UdpAddr, to4}
use altair.Net.Laws.{length-to4, to16_sixteen, to4-none_sixteen}
use altair.Stun.Message.{Attribute, attr_mapped_address}
use altair.Stun.Encode.Laws.{write_type, write_length}
use altair.Stun.Address.{
  family_ipv6, decode_mapped_address, decode_mapped_ip, read_family_port, encode_mapped_address,
  mapped_value,
}
use altair.Stun.Address.RoundTrip.{
  canonical, canonical-some, canonical-none, four_bytes, read_family_port_lem,
}

abbrev sealed : List ℕ → ℕ → Attribute
sealed value len = record { type = attr_mapped_address; length = len; value = value }

abbrev ComesBack : UdpAddr → Type 0
ComesBack addr =
    (a : Attribute) × (encode_mapped_address addr ≡ some a)
    × (decode_mapped_address a ≡ ok (record { ip = canonical addr.ip; port = addr.port }))

-- Sixteen bytes copied over sixteen zeros.
copied : (r : List ℕ) → length r ≡ 16 → overwrite (replicate 16 0) 0 (take 16 r) ≡ r
copied r h =
    ap (overwrite (replicate 16 0) 0) (take_all 16 r (omega arith))
    ∙ overwrite-replicate 16 r (omega arith)
    ∙ ap (λ n. r ++ replicate n 0) (let e : 16 - length r ≡ 0 = omega arith in e)
    ∙ append-nil r

copy_all : (r : List ℕ) → length r ≡ 16 → copy_into (replicate 16 0) 0 16 (take 16 r) ≡ some r
unfolding copy_into
copy_all r h =
    ap some (
      ap (λ t. overwrite (replicate 16 0) 0 (take 16 t)) (take_all 16 r (omega arith)) ∙ copied r h)

module _ (addr : UdpAddr) (fits : addr.port < 65536) where
  abbrev port_word : ℕ
  port_word = uint16 addr.port

  port_restored : port_word / 256 % 256 * 256 + port_word % 256 ≡ addr.port
  port_restored = omega arith

  ComesBack-v4 : (a b c d : ℕ) → to4 addr.ip ≡ some (a ∷ b ∷ c ∷ d ∷ []) → ComesBack addr
  unfolding encode_mapped_address mapped_value decode_mapped_address read_family_port
      decode_mapped_ip slice put_u16 copy_into overwrite bytes_u16 be_u16
  ComesBack-v4 a b c d h = (
    sealed (0 ∷ 1 ∷ (bytes_u16 port_word ++ (a ∷ b ∷ c ∷ d ∷ []))) 8,
    rw (h, mapped_value) refl,
    ap (λ p. ok (record { ip = a ∷ b ∷ c ∷ d ∷ []; port = p })) port_restored
        ∙ ap (λ t. ok (record { ip = t; port = addr.port }))
            (canonical-some addr.ip (a ∷ b ∷ c ∷ d ∷ []) h),
  )

  value_v6 :
      to4 addr.ip ≡ none
      → length addr.ip ≡ 16
      → mapped_value addr ≡ some (0 ∷ 2 ∷ (bytes_u16 port_word ++ addr.ip))
  unfolding mapped_value bytes_u16
  value_v6 h size =
      rw (h, mapped_value)
        (rw (write_length [] (replicate 16 0) 0 0 port_word)
          (rw (to16_sixteen addr.ip size) (rw there (write_type [] addr.ip _ _ family_ipv6))))
    where
      there :
          copy_into (0 ∷ 0 ∷ port_word / 256 % 256 ∷ port_word % 256 ∷ replicate 16 0) 4 20 addr.ip
          ≡ some (0 ∷ 0 ∷ port_word / 256 % 256 ∷ port_word % 256 ∷ addr.ip)
      there =
          unfold copy_into overwrite in
          ap (λ v. some (0 ∷ 0 ∷ port_word / 256 % 256 ∷ port_word % 256 ∷ v)) (copied addr.ip size)

  ComesBack-v6 : to4 addr.ip ≡ none → length addr.ip ≡ 16 → ComesBack addr
  unfolding encode_mapped_address decode_mapped_address bytes_u16
  ComesBack-v6 h size = (
    sealed value 20,
    rw (value_v6 h size) (ap (λ n. some (sealed value n)) size_word),
    rw (le→ltb (suc (suc (suc (suc (length addr.ip))))) 4 (omega arith)) (
          rw (read_family_port_lem 0 2 (port_word / 256 % 256) (port_word % 256) addr.ip)
            (rw ip_lem (ap (λ p. ok (record { ip = addr.ip; port = p })) port_restored)))
        ∙ ap (λ t. ok (record { ip = t; port = addr.port })) (canonical-none addr.ip h),
  )
    where
      value : List ℕ
      value = 0 ∷ 2 ∷ (bytes_u16 port_word ++ addr.ip)

      size_word : uint16 (length value) ≡ 20
      size_word = omega (arith, size)

      ip_lem :
          decode_mapped_ip 2 (0 ∷ 2 ∷ port_word / 256 % 256 ∷ port_word % 256 ∷ addr.ip)
          ≡ ok addr.ip
      ip_lem =
          unfold decode_mapped_ip in
          rw (le→ltb (suc (suc (suc (suc (length addr.ip))))) 20 (omega arith)) (
            rw
              (slice_in (0 ∷ 2 ∷ port_word / 256 % 256 ∷ port_word % 256 ∷ addr.ip) 4 20
                (omega arith) (omega arith))
              (rw (copy_all addr.ip size) refl))

-- An address of four or sixteen bytes with a port below 2 ^ 16 is encoded as a MAPPED-ADDRESS
-- attribute, and decoded it is the address in its shortest form, with its port.
pub decode-encode_mapped :
    (addr : UdpAddr)
    → (length addr.ip ≡ 4) ⊎ (length addr.ip ≡ 16)
    → addr.port < 65536
    → (a : Attribute) × (encode_mapped_address addr ≡ some a)
      × (decode_mapped_address a ≡ ok (record { ip = canonical addr.ip; port = addr.port }))
decode-encode_mapped addr sizes fits = elim (Option-cases (to4 addr.ip)) [
  | inl h ↦ ComesBack-v6 addr fits h (to4-none_sixteen addr.ip h sizes)
  | inr (v, h) ↦
      let (a, b, c, d, e) = four_bytes v (length-to4 addr.ip v h) in
      ComesBack-v4 addr fits a b c d (h ∙ ap some e)
]
