-- ===== src/Punch/Packets.antt =====
-- backend/pkg/punch/puncher.go: the datagrams that `PunchHole` puts on the socket.
use mathlib.Core.Path.{subst}
use altair.Prelude.{
  sym, ◌∙◌, append_assoc, ℕ, zero, suc, ◌+◌, ◌≡◌, ◌⊎◌, inl, inr, refl, true, List, [], ◌∷◌, ◌++◌,
  Option, none, some, arith, All, map, replicate, Bool-cases, Option-cases, ltb, if◌then◌else◌,
}
use altair.Outcome.{ok, err, panic, no_fuel}
use altair.Net.{UdpAddr, datagram}
use altair.Net.Laws.{Read-cases}
use altair.Punch.{
  Puncher, PeerInfo, Round, Direct, Simultaneous, Attempt, ping, pong, is_tagged, try_direct,
  ping_until, listen_until, check_pair,
}

abbrev pub Sent : Type 0
Sent = List (List ℕ × UdpAddr)

unfoldable pub direct_packets : UdpAddr → Direct → Sent
direct_packets addr x = if x.written then (ping, addr) ∷ [] else []

-- The PINGs of the sender and the PONGs of the receiver.
unfoldable pub simultaneous_packets : Puncher → UdpAddr → Simultaneous → Sent
simultaneous_packets p peer_addr x =
    let deadline = x.start + p.timeout in
    replicate (ping_until p.max_attempts deadline 0 x.pings).0 (ping, peer_addr)
    ++ map (λ addr. (pong, addr)) (listen_until p x.start deadline x.rounds).0

-- The local addresses are tried until one is connected; `last` is what is sent after them.
unfoldable pub local_packets : Puncher → (ℕ → Direct) → ℕ → List UdpAddr → Sent → Sent
local_packets p direct i [] last = last
local_packets p direct i (addr ∷ rest) last =
    let later = local_packets p direct (i + 1) rest last in
    direct_packets addr (direct i) ++ (elim (try_direct p 2000000000 (direct i)) [
      | ok c ↦ []
      | err e ↦ later
      | panic ↦ []
      | no_fuel ↦ []
    ])

unfoldable pub hole_packets : Puncher → Option PeerInfo → Attempt → Sent
hole_packets p none x = []
hole_packets p (some peer) x = elim peer.public_addr [
  | none ↦ []
  | some addr ↦ elim (check_pair p peer) [
    | some e ↦ []
    | none ↦ local_packets p x.direct 0 peer.local_addrs (simultaneous_packets p addr x.punch)
  ]
]

-- An address of the peer.
pub data IsOf (peer : PeerInfo) (addr : UdpAddr) : Type 0 where
  its_public : peer.public_addr ≡ some addr → IsOf peer addr
  its_local :
      (before after : List UdpAddr) → peer.local_addrs ≡ before ++ addr ∷ after → IsOf peer addr

-- One of the rounds brought a PING from the address.
pub data Pinged (addr : UdpAddr) : List Round → Type 0 where
  here :
      (r : Round) (rounds : List Round) (bytes : List ℕ)
      → r.read ≡ datagram bytes addr
      → is_tagged ping bytes ≡ true
      → Pinged addr (r ∷ rounds)
  later : (r : Round) (rounds : List Round) → Pinged addr rounds → Pinged addr (r ∷ rounds)

abbrev pub IsAimed : PeerInfo → Attempt → List ℕ × UdpAddr → Type 0
IsAimed peer x (bytes, addr) =
    ((bytes ≡ ping) × IsOf peer addr) ⊎ ((bytes ≡ pong) × Pinged addr x.punch.rounds)

All-append : {A : Type 0} (P : A → Type 0) (xs ys : List A) → All P xs → All P ys → All P (xs ++ ys)
All-append P [] ys v w = w
All-append P (x ∷ xs) ys (v, vs) w = (v, All-append P xs ys vs w)

All-replicate : {A : Type 0} (P : A → Type 0) (n : ℕ) (a : A) → P a → All P (replicate n a)
All-replicate P zero a v = tt
All-replicate P (suc n) a v = (v, All-replicate P n a v)

Pinged-later :
    (r : Round) (rounds : List Round) (addrs : List UdpAddr)
    → All (λ a. Pinged a rounds) addrs
    → All (λ a. Pinged a (r ∷ rounds)) addrs
Pinged-later r rounds [] v = tt
Pinged-later r rounds (a ∷ addrs) (v, vs) = (later r rounds v, Pinged-later r rounds addrs vs)

listen_round :
    (p : Puncher) (start deadline : ℕ) (r : Round) (rounds : List Round)
    → let sent = (listen_until p start deadline (r ∷ rounds)).0 in
      let rest = (listen_until p start deadline rounds).0 in
      ((sent ≡ []) ⊎ (sent ≡ rest))
      ⊎ ((bytes : List ℕ) × (addr : UdpAddr) × (r.read ≡ datagram bytes addr)
          × (is_tagged ping bytes ≡ true)
          × (sent ≡ addr ∷ rest))
unfolding listen_until
listen_round p start deadline r rounds = elim (Bool-cases (ltb r.now deadline)) [
  | inr n ↦ inl (inl (rw (n, listen_until) refl))
  | inl n ↦ elim (Read-cases r.read) [
    | inl (bytes, addr, e) ↦ elim (Bool-cases (is_tagged ping bytes)) [
      | inl t ↦ inr (bytes, addr, e, t, rw (n, e, t, listen_until) refl)
      | inr t ↦ elim (Bool-cases (is_tagged pong bytes)) [
        | inl u ↦ inl (inl (rw (n, e, t, u, listen_until) refl))
        | inr u ↦ inl (inr (rw (n, e, t, u, listen_until) refl))
      ]
    ]
    | inr (inl e) ↦ inl (inl (rw (n, e, listen_until) refl))
    | inr (inr e) ↦ inl (inl (rw (n, e, listen_until) refl))
  ]
]

-- Every PONG of the receiver answers a PING.
pongs-Pinged :
    (p : Puncher) (start deadline : ℕ) (rounds : List Round)
    → All (λ a. Pinged a rounds) (listen_until p start deadline rounds).0
unfolding listen_until
pongs-Pinged p start deadline [] = tt
pongs-Pinged p start deadline (r ∷ rounds) =
    let P : List UdpAddr → Type 0 = All (λ a. Pinged a (r ∷ rounds)) in
    let rest =
      Pinged-later r rounds (listen_until p start deadline rounds).0
        (pongs-Pinged p start deadline rounds) in
    elim (listen_round p start deadline r rounds) [
      | inl (inl e) ↦ subst P (sym e) tt
      | inl (inr e) ↦ subst P (sym e) rest
      | inr (bytes, addr, read, t, e) ↦ subst P (sym e) (here r rounds bytes read t, rest)
    ]

pongs-IsAimed :
    (peer : PeerInfo) (x : Attempt) (addrs : List UdpAddr)
    → All (λ a. Pinged a x.punch.rounds) addrs
    → All (IsAimed peer x) (map (λ addr. (pong, addr)) addrs)
pongs-IsAimed peer x [] v = tt
pongs-IsAimed peer x (a ∷ addrs) (v, vs) = (inr (refl, v), pongs-IsAimed peer x addrs vs)

simultaneous-IsAimed :
    (p : Puncher) (peer : PeerInfo) (addr : UdpAddr) (x : Attempt)
    → peer.public_addr ≡ some addr
    → All (IsAimed peer x) (simultaneous_packets p addr x.punch)
unfolding simultaneous_packets
simultaneous-IsAimed p peer addr x e =
    let deadline = x.punch.start + p.timeout in
    All-append (IsAimed peer x) _ _
      (All-replicate (IsAimed peer x) (ping_until p.max_attempts deadline 0 x.punch.pings).0
        (ping, addr) (inl (refl, its_public e)))
      (pongs-IsAimed peer x (listen_until p x.punch.start deadline x.punch.rounds).0
        (pongs-Pinged p x.punch.start deadline x.punch.rounds))

direct-IsAimed :
    (peer : PeerInfo) (addr : UdpAddr) (d : Direct) (x : Attempt)
    → IsOf peer addr
    → All (IsAimed peer x) (direct_packets addr d)
unfolding direct_packets
direct-IsAimed peer addr d x v = elim (Bool-cases d.written) [
  | inl e ↦ rw (e, direct_packets) (inl (refl, v), tt)
  | inr e ↦ rw (e, direct_packets) tt
]

local_round :
    (p : Puncher) (direct : ℕ → Direct) (i : ℕ) (addr : UdpAddr) (rest : List UdpAddr) (last : Sent)
    → (local_packets p direct i (addr ∷ rest) last ≡ direct_packets addr (direct i) ++ [])
      ⊎ (local_packets p direct i (addr ∷ rest) last
          ≡ direct_packets addr (direct i) ++ local_packets p direct (i + 1) rest last)
unfolding local_packets
local_round p direct i addr rest last = ground arith

local-IsAimed :
    (p : Puncher) (peer : PeerInfo) (x : Attempt) (i : ℕ) (before addrs : List UdpAddr)
    (last : Sent)
    → peer.local_addrs ≡ before ++ addrs
    → All (IsAimed peer x) last
    → All (IsAimed peer x) (local_packets p x.direct i addrs last)
unfolding local_packets
local-IsAimed p peer x i before [] last e v = v
local-IsAimed p peer x i before (addr ∷ rest) last e v =
    let aimed = direct-IsAimed peer addr (x.direct i) x (its_local before rest e) in
    let further =
      local-IsAimed p peer x (i + 1) (before ++ addr ∷ []) rest last
        (e ∙ sym (append_assoc before (addr ∷ []) rest)) v in
    elim (local_round p x.direct i addr rest last) [
      | inl k ↦ subst (All (IsAimed peer x)) (sym k) (All-append (IsAimed peer x) _ [] aimed tt)
      | inr k ↦ subst (All (IsAimed peer x)) (sym k) (All-append (IsAimed peer x) _ _ aimed further)
    ]

-- Every datagram that PunchHole puts on the socket is a PING to the public address or to one of
-- the local addresses of the peer, or a PONG to an address from which a round of the punching
-- brought a PING.
pub hole_packets-IsAimed :
    (p : Puncher) (peer : PeerInfo) (x : Attempt)
    → All (IsAimed peer x) (hole_packets p (some peer) x)
unfolding hole_packets
hole_packets-IsAimed p peer x = elim (Option-cases peer.public_addr) [
  | inl e ↦
      let k : hole_packets p (some peer) x ≡ [] = rw (e, hole_packets) refl in
      subst (All (IsAimed peer x)) (sym k) tt
  | inr (addr, e) ↦ elim (Option-cases (check_pair p peer)) [
    | inl f ↦
        let k : hole_packets p (some peer) x
            ≡ local_packets p x.direct 0 peer.local_addrs (simultaneous_packets p addr x.punch) =
          rw (e, f, hole_packets) refl in
        subst (All (IsAimed peer x)) (sym k) (
          local-IsAimed p peer x 0 [] peer.local_addrs _ refl
            (simultaneous-IsAimed p peer addr x e))
    | inr (g, f) ↦
        let k : hole_packets p (some peer) x ≡ [] = rw (e, f, hole_packets) refl in
        subst (All (IsAimed peer x)) (sym k) tt
  ]
]
