-- ===== src/Signaling/Registry/Cleanup.antt =====
-- backend/internal/signaling/registry.go, `CleanupStale`.
use text.Mathlib.TextEquality.{eq_iff}
use altair.Prelude.{
  ℕ, ◌+◌, ◌-◌, ◌≡◌, inl, inr, refl, String, ◌&&◌, [], ◌∷◌, none, some, arith, ltb, Bool-cases,
  Option-cases, if◌then◌else◌, length,
}
use altair.Signaling.Peer.{Heap, update, close}
use altair.Signaling.Dict.{lookup, Distinct}
use altair.Signaling.Room.Broadcast.{holds}
use altair.Signaling.Registry.{Registry, sweep, cleanup_stale}

unfoldable pub closed_at : Heap → ℕ → Heap
closed_at h peer = update h peer (close (h peer))

-- Closing changes when no peer was seen, and closing twice is closing once.
closed_at-seen : (h : Heap) (peer q : ℕ) → (closed_at h peer q).last_seen ≡ (h q).last_seen
unfolding closed_at close
closed_at-seen h peer q = ground arith

pub closed_at-close : (h : Heap) (peer q : ℕ) → close (closed_at h peer q) ≡ close (h q)
unfolding closed_at close
closed_at-close h peer q = ground arith

pub sweep_step :
    (id : String) (peer : ℕ) (rest : Registry) (h : Heap) (cutoff : ℕ)
    → sweep ((id, peer) ∷ rest) h cutoff ≡ (
        if ltb (h peer).last_seen cutoff
        then (let (kept, h', n) = sweep rest (closed_at h peer) cutoff in (kept, h', n + 1))
        else (let (kept, h', n) = sweep rest h cutoff in ((id, peer) ∷ kept, h', n)))
unfolding sweep closed_at
sweep_step id peer rest h cutoff = elim (Bool-cases (ltb (h peer).last_seen cutoff)) [
  | inl e ↦ rw (e, sweep) refl
  | inr e ↦ rw (e, sweep) refl
]

pub sweep-lookup :
    (r : Registry) (h : Heap) (cutoff : ℕ) (id : String)
    → Distinct r
    → lookup id (sweep r h cutoff).0 ≡ (elim (lookup id r) [
      | none ↦ none
      | some p ↦ if ltb (h p).last_seen cutoff then none else some p
    ])
unfolding lookup
sweep-lookup [] h cutoff id d = unfold sweep in refl
sweep-lookup ((j, peer) ∷ r) h cutoff id (new, d) =
    rw (sweep_step j peer r h cutoff) (elim (Bool-cases (ltb (h peer).last_seen cutoff)) [
      | inl e ↦ elim (Option-cases (lookup id r)) [
        | inl f ↦
            ground (arith, e, f, new, eq_iff j id, sweep-lookup r (closed_at h peer) cutoff id d)
        | inr (p, f) ↦ ground (
          arith,
          e,
          f,
          new,
          eq_iff j id,
          closed_at-seen h peer p,
          sweep-lookup r (closed_at h peer) cutoff id d,
        )
      ]
      | inr e ↦ ground (arith, e, new, eq_iff j id, sweep-lookup r h cutoff id d)
    ])

sweep-heap :
    (r : Registry) (h : Heap) (cutoff q : ℕ)
    → (sweep r h cutoff).1 q
      ≡ (if holds q r && ltb (h q).last_seen cutoff then close (h q) else h q)
unfolding closed_at
sweep-heap [] h cutoff q = unfold sweep in refl
sweep-heap ((j, peer) ∷ r) h cutoff q = ground (
  arith,
  sweep_step j peer r h cutoff,
  closed_at-seen h peer q,
  closed_at-close h peer q,
  sweep-heap r h cutoff q,
  sweep-heap r (closed_at h peer) cutoff q,
)

pub sweep-count :
    (r : Registry) (h : Heap) (cutoff : ℕ)
    → length (sweep r h cutoff).0 + (sweep r h cutoff).2 ≡ length r
sweep-count [] h cutoff = unfold sweep in refl
sweep-count ((j, peer) ∷ r) h cutoff = ground (
  arith,
  sweep_step j peer r h cutoff,
  sweep-count r h cutoff,
  sweep-count r (closed_at h peer) cutoff,
)

-- Where the registry has every ID once, CleanupStale drops exactly the IDs whose peer was last
-- seen before the cutoff, closes exactly the peers in the registry that were, and returns the
-- number of the IDs it dropped.
pub cleanup_stale_lem :
    (r : Registry) (h : Heap) (timeout now : ℕ) (id : String) (q : ℕ)
    → Distinct r
    → let cutoff = now - timeout in
      let (kept, h', removed) = cleanup_stale r h timeout now in
      (lookup id kept ≡ (elim (lookup id r) [
        | none ↦ none
        | some p ↦ if ltb (h p).last_seen cutoff then none else some p
      ]))
      × (h' q ≡ (if holds q r && ltb (h q).last_seen cutoff then close (h q) else h q))
      × (length kept + removed ≡ length r)
unfolding cleanup_stale
cleanup_stale_lem r h timeout now id q d = (
  sweep-lookup r h (now - timeout) id d,
  sweep-heap r h (now - timeout) q,
  sweep-count r h (now - timeout),
)
