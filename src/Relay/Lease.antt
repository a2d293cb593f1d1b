-- ===== src/Relay/Lease.antt =====
-- backend/pkg/relay/client.go as a lease: what a client promises, without addresses and IDs.
use altair.Prelude.{
  ℕ, ◌+◌, ◌⊎◌, ◌≡◌, refl, Bool, false, List, [], ◌∷◌, Option, none, some, arith, ltb, if◌then◌else◌,
}
use altair.Outcome.{Outcome, ok, err, panic, no_fuel}
use altair.Net.{UdpAddr}
use altair.Relay.{
  Client, RelayError, client_closed, no_allocation, expired, send_failed, close_failed, is_valid,
  new_allocation, allocate, refresh, send, create_permission, close,
}

-- No lease, one that ends at a time, or the end of the client.
pub data Lease : Type 0 where
  idle : Lease
  held : ℕ → Lease
  released : Lease

-- A call of a client, with the times that its readings of the clock give.
pub data Call : Type 0 where
  allocates : ℕ → ℕ → ℕ → Call
  refreshes : ℕ → ℕ → ℕ → Call
  sends : List ℕ → UdpAddr → ℕ → Bool → Call
  permits : ℕ → Call
  closes : Bool → Call

-- What is reported, and whether a datagram is put on the socket.
pub record Effect : Type 0 where
  pub error : Option RelayError
  pub packets : List (List ℕ × UdpAddr)

abbrev silent : Option RelayError → Effect
silent e = record { error = e; packets = [] }

abbrev error_of {ℓ} : {A : Type ℓ} → Outcome RelayError A → Option RelayError
error_of (ok a) = none
error_of (err e) = some e
error_of panic = none
error_of no_fuel = none

-- The client's own step.
unfoldable pub call : Client → Call → Client × Effect
call c (allocates lifetime now now') =
    let (c', made) = allocate c lifetime now now' in (c', silent (error_of made))
call c (refreshes duration now now') = let (c', e) = refresh c duration now now' in (c', silent e)
call c (sends bytes peer now written) =
    let (out, e) = send c bytes peer now written in (c, record { error = e; packets = out })
call c (permits now) = (c, silent (create_permission c now))
call c (closes fine) = let (c', e) = close c fine in (c', silent e)

-- What a lease lets pass at a time: an error, or none.
unfoldable pub admits : Lease → ℕ → Option RelayError
admits idle now = some no_allocation
admits (held until) now = if ltb now until then none else some expired
admits released now = some no_allocation

-- The specification.
unfoldable pub lease_call : Lease → Call → Lease × Effect
lease_call released (allocates lifetime now now') = (released, silent (some client_closed))
lease_call l (allocates lifetime now now') = (held (now' + lifetime), silent none)
lease_call l (refreshes duration now now') = elim (admits l now) [
  | none ↦ (held (now' + duration), silent none)
  | some e ↦ (l, silent (some e))
]
lease_call released (sends bytes peer now written) = (released, silent (some client_closed))
lease_call l (sends bytes peer now written) = elim (admits l now) [
  | none ↦ (
    l,
    if written
        then (record { error = none; packets = (bytes, peer) ∷ [] })
        else silent (some send_failed),
  )
  | some e ↦ (l, silent (some e))
]
lease_call l (permits now) = (l, silent (admits l now))
lease_call released (closes fine) = (released, silent none)
lease_call l (closes fine) = (released, silent (if fine then none else some close_failed))

unfoldable pub lease_of : Client → Lease
lease_of c =
    if c.closed then released else elim c.allocation [ none ↦ idle | some a ↦ held a.expires_at ]

-- A closed client has no allocation.
abbrev pub IsReleased : Client → Type 0
IsReleased c = (c.closed ≡ false) ⊎ (c.allocation ≡ none)

call-IsReleased : (c : Client) (k : Call) → IsReleased c → IsReleased (call c k).0
unfolding call allocate refresh close
call-IsReleased c (allocates lifetime now now') v = ground arith
call-IsReleased c (refreshes duration now now') v = ground arith
call-IsReleased c (sends bytes peer now written) v = v
call-IsReleased c (permits now) v = v
call-IsReleased c (closes fine) v = ground arith

-- One call of the client is one call of its lease.
call_lem :
    (c : Client) (k : Call)
    → IsReleased c
    → (lease_of (call c k).0 ≡ (lease_call (lease_of c) k).0)
      × ((call c k).1 ≡ (lease_call (lease_of c) k).1)
unfolding call allocate refresh send create_permission close is_valid new_allocation lease_of
    lease_call admits
call_lem c (allocates lifetime now now') v = ground arith
call_lem c (refreshes duration now now') v = ground arith
call_lem c (sends bytes peer now written) v = ground arith
call_lem c (permits now) v = ground arith
call_lem c (closes fine) v = ground arith

-- A sequence of calls, with what each did.
unfoldable pub calls : Client → List Call → Client × List Effect
calls c [] = (c, [])
calls c (k ∷ rest) = let (c', e) = call c k in let (c2, es) = calls c' rest in (c2, e ∷ es)

unfoldable pub lease_calls : Lease → List Call → Lease × List Effect
lease_calls l [] = (l, [])
lease_calls l (k ∷ rest) =
    let (l', e) = lease_call l k in let (l2, es) = lease_calls l' rest in (l2, e ∷ es)

-- A sequence of calls of Allocate, Refresh, Send, CreatePermission and Close on a client, which is
-- open or has no allocation, reports the errors and puts the datagrams on the socket that the
-- lease of the client does: an idle, held or ended lease, which passes a refresh, a datagram or a
-- permission exactly while it is held and has time left; after a Close no datagram is sent and
-- every call but Close fails. The client ends as the lease does.
pub calls-lease_calls :
    (c : Client) (ks : List Call)
    → (c.closed ≡ false) ⊎ (c.allocation ≡ none)
    → (lease_of (calls c ks).0 ≡ (lease_calls (lease_of c) ks).0)
      × ((calls c ks).1 ≡ (lease_calls (lease_of c) ks).1)
unfolding calls lease_calls
calls-lease_calls c [] v = (refl, refl)
calls-lease_calls c (k ∷ ks) v =
    let (a, b) = call_lem c k v in
    let (d, e) = calls-lease_calls (call c k).0 ks (call-IsReleased c k v) in
    rw (← a) (d, cc (b, e))
