-- ===== src/Signaling/Server/Shutdown.antt =====
-- backend/internal/signaling/server.go, `Shutdown`.
use altair.Prelude.{ℕ, ◌≡◌, ◌∙◌, refl, true, false, [], ◌∷◌, arith, if◌then◌else◌}
use altair.Signaling.Peer.{Heap, update, close}
use altair.Signaling.Room.Broadcast.{holds}
use altair.Signaling.Registry.{Registry}
use altair.Signaling.Registry.Cleanup.{closed_at, closed_at-close}
use altair.Signaling.Handler.{State}
use altair.Signaling.Server.{close_all, shutdown}

close_all_at :
    (r : Registry) (h : Heap) (q : ℕ) → close_all r h q ≡ (if holds q r then close (h q) else h q)
unfolding close_all closed_at
close_all_at [] h q = refl
close_all_at ((id, peer) ∷ rest) h q =
    close_all_at rest (update h peer (close (h peer))) q ∙ ground (arith, closed_at-close h peer q)

-- The first Shutdown closes every peer of the registry, however many IDs lead to it, and leaves
-- the others; a second one does nothing.
pub shutdown_closes :
    (s : State) (q : ℕ)
    → let (s', done) = shutdown s false in
      (s'.heap q ≡ (if holds q s.registry then close (s.heap q) else s.heap q))
      × (shutdown s' done ≡ (s', true))
unfolding shutdown
shutdown_closes s q = (close_all_at s.registry s.heap q, refl)
