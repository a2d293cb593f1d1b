-- ===== src/Detector/Sockets.antt =====
-- backend/pkg/nat/detector.go: the two clients of a detector have a socket each.
use altair.Prelude.{
  ℕ, ◌≡◌, ◌≢◌, ◌∙◌, inl, inr, refl, sym, ap, String, false, Option, none, some, arith, Option-cases,
}
use altair.Outcome.{ok, wrap_err, >>=_inversion, wrap_err_inversion, ok_injective}
use altair.Net.{UdpAddr, ip_equal}
use altair.Stun.Client.{Client, Endpoint, Exchange, new_client, local_of, discover}
use altair.Stun.Client.Discover.{discover_sound}
use altair.Detector.{
  DetectorConfig, Detector, symmetric, new_detector, client_config, primary_failed,
  secondary_failed, classify, detect, detect_second, mapping_of,
}

new_client_socket :
    (server : String) (timeout : ℕ) (resolve : String → Option UdpAddr)
    (listen : Option UdpAddr → Option UdpAddr) (c : Client)
    → new_client (client_config server timeout) resolve listen ≡ ok c
    → listen none ≡ some c.local_addr
unfolding new_client local_of
new_client_socket server timeout resolve listen c h = elim (Option-cases (resolve server)) [
  | inl e ↦ ground (arith, h, e)
  | inr (addr, e) ↦ elim (Option-cases (listen none)) [
    | inl f ↦ ground (arith, h, e, f)
    | inr (own, f) ↦ ground (arith, h, e, f)
  ]
]

some_injective : {a b : UdpAddr} → some a ≡ some b → a ≡ b
some_injective h = cc

-- Each client has the socket that was opened for it.
new_detector_sockets :
    (given : Option DetectorConfig) (resolve : String → Option UdpAddr)
    (listen1 listen2 : Option UdpAddr → Option UdpAddr) (d : Detector)
    → new_detector given resolve listen1 listen2 ≡ ok d
    → (listen1 none ≡ some d.primary.local_addr) × (listen2 none ≡ some d.secondary.local_addr)
unfolding new_detector
new_detector_sockets given resolve listen1 listen2 d h =
    let (c1, first, rest) = >>=_inversion (wrap_err primary_failed _) _ h in
    let (c2, second, made) = >>=_inversion (wrap_err secondary_failed _) _ rest in
    let one =
      new_client_socket _ _ resolve listen1 c1 (wrap_err_inversion primary_failed _ first) in
    let two =
      new_client_socket _ _ resolve listen2 c2 (wrap_err_inversion secondary_failed _ second) in
    (
      one ∙ ap (λ (k : Detector). some k.primary.local_addr) (ok_injective made),
      two ∙ ap (λ (k : Detector). some k.secondary.local_addr) (ok_injective made),
    )

other_port :
    (e1 e2 : Endpoint) → e1.public_addr.port ≢ e2.public_addr.port → classify e1 e2 ≡ symmetric
unfolding classify
other_port e1 e2 h = ground (arith, h)

-- Detect calls every NAT symmetric: the detector that NewDetector makes has two sockets, and if
-- these have different ports and the NAT gives different ports to different ports, then whatever
-- two endpoints the two discoveries find through it, with a public IP that is not the own one, the
-- mapping that Detect returns is symmetric.
pub detect_two_sockets :
    (given : Option DetectorConfig) (resolve : String → Option UdpAddr)
    (listen1 listen2 : Option UdpAddr → Option UdpAddr) (d : Detector) (sock1 sock2 : UdpAddr)
    (x1 x2 : Exchange) (now : ℕ) (e1 e2 : Endpoint) (nat : ℕ → ℕ)
    → new_detector given resolve listen1 listen2 ≡ ok d
    → listen1 none ≡ some sock1
    → listen2 none ≡ some sock2
    → sock1.port ≢ sock2.port
    → ((p q : ℕ) → p ≢ q → nat p ≢ nat q)
    → discover d.primary x1 ≡ ok e1
    → discover d.secondary x2 ≡ ok e2
    → e1.public_addr.port ≡ nat e1.local_addr.port
    → e2.public_addr.port ≡ nat e2.local_addr.port
    → ip_equal e1.local_addr.ip e1.public_addr.ip ≡ false
    → detect d x1 x2 now ≡ ok (mapping_of e1 symmetric now)
unfolding detect detect_second
detect_two_sockets given resolve listen1 listen2 d sock1 sock2 x1 x2 now e1 e2 nat made l1 l2 apart
      injective r1 r2 n1 n2 behind =
    let (s1, s2) = new_detector_sockets given resolve listen1 listen2 d made in
    let (id1, b1, m1, q1, q2, q3, q4, q5, q6, loc1, srv1) = discover_sound d.primary x1 e1 r1 in
    let (id2, b2, m2, t1, t2, t3, t4, t5, t6, loc2, srv2) = discover_sound d.secondary x2 e2 r2 in
    let p1 : e1.local_addr.port ≡ sock1.port =
      ap (λ (a : UdpAddr). a.port) (loc1 ∙ some_injective (sym s1 ∙ l1)) in
    let p2 : e2.local_addr.port ≡ sock2.port =
      ap (λ (a : UdpAddr). a.port) (loc2 ∙ some_injective (sym s2 ∙ l2)) in
    let ports : e1.public_addr.port ≢ e2.public_addr.port =
      λ k. injective sock1.port sock2.port apart (ap nat (sym p1) ∙ sym n1 ∙ k ∙ n2 ∙ ap nat p2) in
    rw (r1, behind, r2, other_port e1 e2 ports, detect, detect_second) refl
