-- ===== src/Punch/Loops.antt =====
-- backend/pkg/punch/puncher.go: the loops of the direct attempt, the sender and the receiver.
use altair.Prelude.{
  ℕ, ◌+◌, ◌≤◌, ◌<◌, ◌≡◌, ◌≢◌, ◌∙◌, ◌⊎◌, inl, inr, ap, Bool, true, false, ◌&&◌, List, [], ◌∷◌, ◌++◌,
  arith, All, Bool-cases, ltb, le→ltb, take,
}
use altair.Outcome.{ok, Meets}
use altair.Net.{UdpAddr, datagram, timed_out, bytes_eq}
use altair.Net.Laws.{Read-cases, bytes_eq-eq}
use altair.Punch.{
  Puncher, Connection, Round, Direct, Answer, found, connection, is_tagged, ping, pong,
  direct_until, try_direct, ping_until, listen_until,
}

-- A round in time that brings a PONG from `addr`.
abbrev pub IsPong : ℕ → UdpAddr → Round → Type 0
IsPong deadline addr r =
    (r.now < deadline)
    × (bytes : List ℕ) × (r.read ≡ datagram bytes addr)
    × (is_tagged pong bytes ≡ true)

-- Among the rounds is one in time with a PONG, and `c` is the connection that it makes.
pub data FromPong (p : Puncher) (start deadline : ℕ) (c : Connection) : List Round → Type 0 where
  here :
      (addr : UdpAddr) (r : Round) (rounds : List Round)
      → IsPong deadline addr r
      → c ≡ connection p start addr r
      → FromPong p start deadline c (r ∷ rounds)
  later :
      (r : Round) (rounds : List Round)
      → FromPong p start deadline c rounds
      → FromPong p start deadline c (r ∷ rounds)

direct_inv :
    (p : Puncher) (start deadline : ℕ) (c : Connection) (r : Round) (rounds : List Round)
    → direct_until p start deadline (r ∷ rounds) ≡ ok c
    → ((addr : UdpAddr) × IsPong deadline addr r × (c ≡ connection p start addr r))
      ⊎ (direct_until p start deadline rounds ≡ ok c)
unfolding direct_until
direct_inv p start deadline c r rounds h = elim (Read-cases r.read) [
  | inl (bytes, addr, e) ↦ elim (Bool-cases (is_tagged pong bytes)) [
    | inl t ↦ inl (addr, (ground (arith, h, e, t), bytes, e, t), ground (arith, h, e, t))
    | inr t ↦ inr (ground (arith, h, e, t))
  ]
  | inr (inl e) ↦ inr (ground (arith, h, e))
  | inr (inr e) ↦ inr (ground (arith, h, e))
]

listen_inv :
    (p : Puncher) (start deadline : ℕ) (c : Connection) (r : Round) (rounds : List Round)
    → (listen_until p start deadline (r ∷ rounds)).1 ≡ found c
    → ((addr : UdpAddr) × IsPong deadline addr r × (c ≡ connection p start addr r))
      ⊎ ((listen_until p start deadline rounds).1 ≡ found c)
unfolding listen_until
listen_inv p start deadline c r rounds h = elim (Read-cases r.read) [
  | inl (bytes, addr, e) ↦ elim (Bool-cases (is_tagged ping bytes)) [
    | inl a ↦ inr (ground (arith, h, e, a))
    | inr a ↦ elim (Bool-cases (is_tagged pong bytes)) [
      | inl t ↦ inl (addr, (ground (arith, h, e, a, t), bytes, e, t), ground (arith, h, e, a, t))
      | inr t ↦ inr (ground (arith, h, e, a, t))
    ]
  ]
  | inr (inl e) ↦ inr (ground (arith, h, e))
  | inr (inr e) ↦ inr (ground (arith, h, e))
]

pub direct_until-FromPong :
    (p : Puncher) (start deadline : ℕ) (c : Connection) (rounds : List Round)
    → direct_until p start deadline rounds ≡ ok c
    → FromPong p start deadline c rounds
unfolding direct_until
direct_until-FromPong p start deadline c [] h = cc
direct_until-FromPong p start deadline c (r ∷ rounds) h =
    elim (direct_inv p start deadline c r rounds h) [
      | inl (addr, v, e) ↦ here addr r rounds v e
      | inr later_ok ↦ later r rounds (direct_until-FromPong p start deadline c rounds later_ok)
    ]

pub listen_until-FromPong :
    (p : Puncher) (start deadline : ℕ) (c : Connection) (rounds : List Round)
    → (listen_until p start deadline rounds).1 ≡ found c
    → FromPong p start deadline c rounds
unfolding listen_until
listen_until-FromPong p start deadline c [] h = cc
listen_until-FromPong p start deadline c (r ∷ rounds) h =
    elim (listen_inv p start deadline c r rounds h) [
      | inl (addr, v, e) ↦ here addr r rounds v e
      | inr later_ok ↦ later r rounds (listen_until-FromPong p start deadline c rounds later_ok)
    ]

-- No more PINGs than maxAttempts are written.
pub ping_until_bounded :
    (max_attempts deadline attempt : ℕ) (rounds : List (ℕ × Bool))
    → attempt ≤ max_attempts
    → (ping_until max_attempts deadline attempt rounds).0 ≤ max_attempts
unfolding ping_until
ping_until_bounded max_attempts deadline attempt [] h = h
ping_until_bounded max_attempts deadline attempt ((now, written) ∷ rounds) h =
    elim (Bool-cases (ltb now deadline && ltb attempt max_attempts)) [
      | inl e ↦ ground (arith, ping_until_bounded max_attempts deadline (attempt + 1) rounds)
      | inr e ↦ rw (e, ping_until) h
    ]

-- A direct attempt that hears nothing but PINGs, or nothing at all.
abbrev pub IsMute : Round → Type 0
IsMute r =
    ((bytes : List ℕ) × (addr : UdpAddr) × (r.read ≡ datagram bytes addr)
      × (is_tagged ping bytes ≡ true))
    ⊎ (r.read ≡ timed_out)

pub not_both : (bytes : List ℕ) → is_tagged ping bytes ≡ true → is_tagged pong bytes ≡ false
unfolding is_tagged
not_both bytes h =
    let same : bytes_eq (take 4 bytes) ping ≡ true = ground (arith, h) in
    rw (bytes_eq-eq (take 4 bytes) ping same) (unfold bytes_eq in ground arith)

mute_step :
    (p : Puncher) (start deadline : ℕ) (r : Round) (rounds : List Round) (c : Connection)
    → IsMute r
    → direct_until p start deadline rounds ≢ ok c
    → direct_until p start deadline (r ∷ rounds) ≢ ok c
unfolding direct_until
mute_step p start deadline r rounds c (inl (bytes, addr, e, t)) h k =
    ground (arith, e, not_both bytes t)
mute_step p start deadline r rounds c (inr e) h k = ground (arith, e)

direct_mute :
    (p : Puncher) (start deadline : ℕ) (rounds : List Round) (c : Connection)
    → All IsMute rounds
    → direct_until p start deadline rounds ≢ ok c
unfolding direct_until
direct_mute p start deadline [] c v = λ h. cc
direct_mute p start deadline (r ∷ rounds) c (v, vs) =
    mute_step p start deadline r rounds c v (direct_mute p start deadline rounds c vs)

-- A direct attempt whose rounds bring nothing but PINGs and timeouts makes no connection.
pub try_direct_mute :
    (p : Puncher) (timeout : ℕ) (x : Direct) (c : Connection)
    → All IsMute x.rounds
    → try_direct p timeout x ≢ ok c
unfolding try_direct
try_direct_mute p timeout x c v h =
    direct_mute p x.start (x.start + timeout) x.rounds c v (ground (arith, h))

-- A round in time that brings a PING, and the one that sent it.
abbrev pub IsPing : ℕ → Round → UdpAddr → Type 0
IsPing deadline r addr =
    (r.now < deadline)
    × (bytes : List ℕ) × (r.read ≡ datagram bytes addr)
    × (is_tagged ping bytes ≡ true)

abbrev pub ArePings : ℕ → List Round → List UdpAddr → Type 0
ArePings deadline [] [] = Unit
ArePings deadline [] (a ∷ senders) = ⊥
ArePings deadline (r ∷ rounds) [] = ⊥
ArePings deadline (r ∷ rounds) (a ∷ senders) =
    IsPing deadline r a × ArePings deadline rounds senders

pong_step :
    (p : Puncher) (start deadline : ℕ) (r : Round) (rounds : List Round) (addr : UdpAddr)
    → IsPong deadline addr r
    → listen_until p start deadline (r ∷ rounds) ≡ ([], found (connection p start addr r))
unfolding listen_until
pong_step p start deadline r rounds addr (now, bytes, e, t) =
    elim (Bool-cases (is_tagged ping bytes)) [
      | inl a ↦ absurd (not_both_absurd bytes a t)
      | inr a ↦ ground (arith, e, t, a, now)
    ]
  where
    not_both_absurd : (b : List ℕ) → is_tagged ping b ≡ true → is_tagged pong b ≡ true → ⊥
    not_both_absurd b f g = ground (arith, not_both b f, g)

ping_step :
    (p : Puncher) (start deadline : ℕ) (r : Round) (rounds : List Round) (addr : UdpAddr)
    → IsPing deadline r addr
    → listen_until p start deadline (r ∷ rounds)
      ≡ (addr ∷ (listen_until p start deadline rounds).0, (listen_until p start deadline rounds).1)
unfolding listen_until
ping_step p start deadline r rounds addr (now, bytes, e, t) = ground (arith, e, t, now)

-- The receiver of the punching that gets PINGs in time and then a PONG in time sends one PONG to
-- the sender of each PING, in their order, and ends with the connection to the sender of the PONG.
pub listen_until_answers :
    (p : Puncher) (start deadline : ℕ) (before after : List Round) (senders : List UdpAddr)
    (r : Round) (addr : UdpAddr)
    → ArePings deadline before senders
    → IsPong deadline addr r
    → listen_until p start deadline (before ++ r ∷ after)
      ≡ (senders, found (connection p start addr r))
listen_until_answers p start deadline [] after [] r addr v w =
    pong_step p start deadline r after addr w
listen_until_answers p start deadline [] after (a ∷ senders) r addr v w = absurd v
listen_until_answers p start deadline (q ∷ before) after [] r addr v w = absurd v
listen_until_answers p start deadline (q ∷ before) after (a ∷ senders) r addr (v, vs) w =
    ping_step p start deadline q (before ++ r ∷ after) a v
    ∙ ap (λ (l : List UdpAddr × Answer). (a ∷ l.0, l.1))
        (listen_until_answers p start deadline before after senders r addr vs w)

direct_ends :
    (p : Puncher) (start deadline : ℕ) (before after : List Round) (r : Round)
    → deadline ≤ r.now
    → Meets (λ c. Unit {0}) (direct_until p start deadline (before ++ r ∷ after))
unfolding direct_until
direct_ends p start deadline [] after r h = rw (le→ltb r.now deadline h, direct_until) tt
direct_ends p start deadline (q ∷ before) after r h =
    ground (arith, direct_ends p start deadline before after r h)

-- A direct attempt whose rounds reach its deadline has a result.
abbrev pub Reaches : ℕ → Direct → Type 0
Reaches timeout x =
    (before : List Round) × (after : List Round) × (r : Round) × (x.rounds ≡ before ++ r ∷ after)
    × (x.start + timeout ≤ r.now)

pub try_direct-Meets :
    (p : Puncher) (timeout : ℕ) (x : Direct)
    → Reaches timeout x
    → Meets (λ c. Unit {0}) (try_direct p timeout x)
unfolding try_direct
try_direct-Meets p timeout x (before, after, r, e, h) = elim (Bool-cases x.written) [
  | inl w ↦ rw (w, e) (direct_ends p x.start (x.start + timeout) before after r h)
  | inr w ↦ rw w tt
]
