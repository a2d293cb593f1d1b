-- ===== src/Signaling/Startup/Idle.antt =====
-- backend/internal/signaling/server.go, `cleanupLoop`: nobody is moved, and what is dropped is logged.
use altair.Prelude.{ℕ, ◌+◌, ◌-◌, ◌≡◌, ◌≢◌, refl, String, List, [], ◌∷◌, arith, length}
use altair.Signaling.Protocol.{JoinPayload, Payload}
use altair.Signaling.Registry.{cleanup_stale}
use altair.Signaling.Registry.Cleanup.{sweep-count as registry_sweep-count}
use altair.Signaling.Manager.{cleanup_empty}
use altair.Signaling.Manager.Cleanup.{sweep-count as rooms_sweep-count}
use altair.Signaling.Handler.{State}
use altair.Signaling.Server.{Event, cleaned, step, cleanup}
use altair.Signaling.Spec.{assigns, IsSound, Run, after, is_in}
use altair.Signaling.Spec.Runs.{same_rooms}
use altair.Signaling.Startup.{cleanup_loop}

-- The sums of what the lines say.
abbrev pub stale_logged : List (ℕ × ℕ) → ℕ
stale_logged [] = 0
stale_logged ((stale, empty) ∷ lines) = stale + stale_logged lines

abbrev pub empty_logged : List (ℕ × ℕ) → ℕ
empty_logged [] = 0
empty_logged ((stale, empty) ∷ lines) = empty + empty_logged lines

one_tick :
    (s : State) (stale_timeout now : ℕ)
    → let (s', stale, empty) = cleanup s stale_timeout now in
      (length s'.registry + stale ≡ length s.registry)
      × (length s'.rooms.rooms + empty ≡ length s.rooms.rooms)
unfolding cleanup cleanup_stale cleanup_empty
one_tick s stale_timeout now = (
  registry_sweep-count s.registry s.heap (now - stale_timeout),
  rooms_sweep-count s.rooms.rooms (now - s.rooms.empty_room_ttl),
)

cleanup_loop-accounts :
    (s : State) (stale_timeout : ℕ) (ticks : List ℕ)
    → let (s', lines) = cleanup_loop s stale_timeout ticks in
      (length s'.registry + stale_logged lines ≡ length s.registry)
      × (length s'.rooms.rooms + empty_logged lines ≡ length s.rooms.rooms)
unfolding cleanup_loop
cleanup_loop-accounts s stale_timeout [] = (omega arith, omega arith)
cleanup_loop-accounts s stale_timeout (now ∷ ticks) =
    let (s1, stale, empty) = cleanup s stale_timeout now in
    ground (arith, one_tick s stale_timeout now, cleanup_loop-accounts s1 stale_timeout ticks)

cleaned_up :
    (parse : Payload → JoinPayload) (es : List Event) (s : State) (stale_timeout : ℕ)
    (ticks : List ℕ)
    → Run parse es s
    → (es' : List Event) × Run parse es' (cleanup_loop s stale_timeout ticks).0
      × ((q : ℕ) → assigns es' q ≡ assigns es q)
unfolding cleanup_loop step IsSound
cleaned_up parse es s stale_timeout [] w = (es, w, λ q. refl)
cleaned_up parse es s stale_timeout (now ∷ ticks) w =
    let e = cleaned stale_timeout now in
    cleaned_up parse (e ∷ es) (cleanup s stale_timeout now).0 stale_timeout ticks (after e w tt)

-- After a run of the server from a heap without peers, in which connections get new pointers and
-- IDs that nobody had, any number of ticks of cleanupLoop at any times leave every peer in the
-- room that it knew and every room name that is not empty with the peers that it had, and the
-- numbers that are logged add up to the IDs that the registry has lost and to the rooms that were
-- deleted.
pub cleanup_loop_idle :
    (parse : Payload → JoinPayload) (es : List Event) (s : State) (stale_timeout : ℕ)
    (ticks : List ℕ) (room_id : String) (q : ℕ)
    → Run parse es s
    → room_id ≢ ""
    → let (s', lines) = cleanup_loop s stale_timeout ticks in
      ((s'.heap q).room_id ≡ (s.heap q).room_id)
      × (is_in s'.rooms room_id q ≡ is_in s.rooms room_id q)
      × (length s'.registry + stale_logged lines ≡ length s.registry)
      × (length s'.rooms.rooms + empty_logged lines ≡ length s.rooms.rooms)
cleanup_loop_idle parse es s stale_timeout ticks room_id q w name =
    let (es', w', same) = cleaned_up parse es s stale_timeout ticks w in
    let s' = (cleanup_loop s stale_timeout ticks).0 in
    let (known, held) = same_rooms parse es es' s s' room_id q w w' same name in
    let (stale, empty) = cleanup_loop-accounts s stale_timeout ticks in (known, held, stale, empty)
