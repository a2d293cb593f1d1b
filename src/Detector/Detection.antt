-- ===== src/Detector/Detection.antt =====
-- What a detected type says about the two STUN rounds.
use altair.Prelude.{
  ℕ, ◌≡◌, ◌≢◌, ◌⊎◌, inl, inr, true, false, some, arith, if◌then◌else◌, Option, ap, sym, Bool-cases,
  ◌==◌,
}
use altair.Outcome.{ok, wrap_err, >>=_inversion, wrap_err_inversion, ok_injective}
use altair.Net.{ip_equal, UdpAddr}
use altair.Stun.Client.{Endpoint, Exchange, discover}
use altair.Detector.{
  Detector, Mapping, open_internet, symmetric, restricted_cone, test1_failed, test2_failed,
  classify, detect, detect_second, mapping_of, NatType,
}

-- A cone is reported when the two servers saw one address, and symmetric when they did not.
pub classify_lem :
    (e1 e2 : Endpoint)
    → ((classify e1 e2 ≡ restricted_cone)
        × (ip_equal e1.public_addr.ip e2.public_addr.ip ≡ true)
        × (e1.public_addr.port ≡ e2.public_addr.port))
      ⊎ ((classify e1 e2 ≡ symmetric)
          × ((ip_equal e1.public_addr.ip e2.public_addr.ip ≡ false)
              ⊎ (e1.public_addr.port ≢ e2.public_addr.port)))
unfolding classify
classify_lem e1 e2 = elim (Bool-cases (ip_equal e1.public_addr.ip e2.public_addr.ip)) [
  | inr differ ↦ inr (ground arith, inl differ)
  | inl same ↦ elim (Bool-cases (e1.public_addr.port == e2.public_addr.port)) [
    | inl p ↦ inl (ground arith, same, ground arith)
    | inr p ↦ inr (ground arith, inr (λ e. ground arith))
  ]
]

detect_second_inv :
    (d : Detector) (x2 : Exchange) (now : ℕ) (e1 : Endpoint) (m : Mapping)
    → detect_second d x2 now e1 ≡ ok m
    → (e2 : Endpoint) × (discover d.secondary x2 ≡ ok e2) × (mapping_of e1 (classify e1 e2) now ≡ m)
unfolding detect_second
detect_second_inv d x2 now e1 m h =
    let (e2, second, made) = >>=_inversion (wrap_err test2_failed (discover d.secondary x2)) _ h in
    (e2, wrap_err_inversion test2_failed (discover d.secondary x2) second, ok_injective made)

detect_inv :
    (d : Detector) (x1 x2 : Exchange) (now : ℕ) (m : Mapping)
    → detect d x1 x2 now ≡ ok m
    → (e1 : Endpoint) × (discover d.primary x1 ≡ ok e1)
      × (((mapping_of e1 open_internet now ≡ m)
            × (ip_equal e1.local_addr.ip e1.public_addr.ip ≡ true))
          ⊎ ((detect_second d x2 now e1 ≡ ok m)
              × (ip_equal e1.local_addr.ip e1.public_addr.ip ≡ false)))
unfolding detect
detect_inv d x1 x2 now m h =
    let (e1, first, rest) = >>=_inversion (wrap_err test1_failed (discover d.primary x1)) _ h in
    (e1, wrap_err_inversion test1_failed (discover d.primary x1) first, split e1 rest)
  where
    split :
        (e1 : Endpoint)
        → (if ip_equal e1.local_addr.ip e1.public_addr.ip
            then ok (mapping_of e1 open_internet now)
            else detect_second d x2 now e1)
          ≡ ok m
        → ((mapping_of e1 open_internet now ≡ m)
            × (ip_equal e1.local_addr.ip e1.public_addr.ip ≡ true))
          ⊎ ((detect_second d x2 now e1 ≡ ok m)
              × (ip_equal e1.local_addr.ip e1.public_addr.ip ≡ false))
    split e1 rest = elim (Bool-cases (ip_equal e1.local_addr.ip e1.public_addr.ip)) [
      | inl same ↦ inl (ok_injective (rw same at rest), same)
      | inr other ↦ inr (rw other at rest, other)
    ]

-- A detection that succeeds rests on the first round and keeps its addresses: it reports open
-- internet when these are the same IP; else it rests on the second round too, and reports a
-- restricted cone when both servers saw the same IP and port, and symmetric when they did not.
pub detect_sound :
    (d : Detector) (x1 x2 : Exchange) (now : ℕ) (m : Mapping)
    → detect d x1 x2 now ≡ ok m
    → (e1 : Endpoint) × (discover d.primary x1 ≡ ok e1)
      × (m.local_addr ≡ e1.local_addr)
      × (m.public_addr ≡ some e1.public_addr)
      × (((m.type ≡ open_internet) × (ip_equal e1.local_addr.ip e1.public_addr.ip ≡ true))
          ⊎ ((e2 : Endpoint) × (discover d.secondary x2 ≡ ok e2)
              × (ip_equal e1.local_addr.ip e1.public_addr.ip ≡ false)
              × (((m.type ≡ restricted_cone)
                    × (ip_equal e1.public_addr.ip e2.public_addr.ip ≡ true)
                    × (e1.public_addr.port ≡ e2.public_addr.port))
                  ⊎ ((m.type ≡ symmetric)
                      × ((ip_equal e1.public_addr.ip e2.public_addr.ip ≡ false)
                          ⊎ (e1.public_addr.port ≢ e2.public_addr.port))))))
detect_sound d x1 x2 now m h =
    let (e1, first, cases) = detect_inv d x1 x2 now m h in
    elim cases [
      | inl (made, same) ↦ (
        e1,
        first,
        ap local_of (sym made),
        ap public_of (sym made),
        inl (ap type_of (sym made), same),
      )
      | inr (second, other) ↦
          let (e2, r2, made) = detect_second_inv d x2 now e1 m second in
          (
            e1,
            first,
            ap local_of (sym made),
            ap public_of (sym made),
            inr (e2, r2, other, rw (ap type_of (sym made)) (classify_lem e1 e2)),
          )
    ]
  where
    local_of : Mapping → UdpAddr
    local_of n = n.local_addr

    public_of : Mapping → Option UdpAddr
    public_of n = n.public_addr

    type_of : Mapping → NatType
    type_of n = n.type
