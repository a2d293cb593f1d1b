-- ===== src/Scanner.antt =====
-- backend/pkg/netutil/netutil.go, `PortScanner`. Ports are natural numbers; `bindable` says which ports
-- CreateUDPSocket can bind during a call.
pub mod Search
pub mod Tests
use altair.Prelude.{
  ℕ, zero, suc, ◌+◌, ◌-◌, Bool, true, false, not, ◌&&◌, ◌||◌, List, [], ◌∷◌, Option, none, some,
  ltb, ◌==◌, if◌then◌else◌,
}

pub record PortScanner : Type 0 where
  pub used : List ℕ
  pub first : ℕ
  pub last : ℕ

unfoldable pub new_port_scanner : ℕ → ℕ → PortScanner
new_port_scanner start stop =
    let low = if ltb start 1024 then 1024 else start in
    let high = if ltb 65535 stop then 65535 else stop in
    if ltb high low
    then record { used = []; first = high; last = low }
    else record { used = []; first = low; last = high }

-- ps.used[port]
unfoldable pub is_used : ℕ → List ℕ → Bool
is_used port [] = false
is_used port (p ∷ rest) = p == port || is_used port rest

-- The loop: `left` ports from `port` on.
unfoldable pub find_from : (ℕ → Bool) → List ℕ → ℕ → ℕ → Option ℕ
find_from bindable used zero port = none
find_from bindable used (suc left) port =
    let later = find_from bindable used left (port + 1) in
    if not (is_used port used) && bindable port then some port else later

unfoldable pub find_port : PortScanner → (ℕ → Bool) → PortScanner × Option ℕ
find_port ps bindable = elim (find_from bindable ps.used (ps.last + 1 - ps.first) ps.first) [
  | none ↦ (ps, none)
  | some port ↦ (record ps { used = port ∷ ps.used }, some port)
]

without : ℕ → List ℕ → List ℕ
without port [] = []
without port (p ∷ rest) = let kept = without port rest in if p == port then kept else p ∷ kept

unfoldable pub release_port : PortScanner → ℕ → PortScanner
unfolding without
release_port ps port = record ps { used = without port ps.used }
