-- ===== src/Scanner/Search.antt =====
-- backend/pkg/netutil/netutil.go, `PortScanner`: what a search finds, and the range it searches.
use altair.Prelude.{
  ℕ, zero, suc, ◌+◌, ◌-◌, ◌≤◌, ◌<◌, ◌≡◌, Bool, true, false, not, ◌&&◌, List, Option, none, some,
  arith, Bool-cases, inl, inr, ◌⊎◌,
}
use altair.Scanner.{PortScanner, new_port_scanner, is_used, find_from, find_port}

-- What the result of a search of the ports from `low` up to before `high` means.
pub Found : (ℕ → Bool) → List ℕ → ℕ → ℕ → Option ℕ → Type 0
Found bindable used low high none =
    (p : ℕ) → low ≤ p → p < high → (not (is_used p used) && bindable p) ≡ false
Found bindable used low high (some port) =
    (low ≤ port)
    × (port < high)
    × (is_used port used ≡ false)
    × (bindable port ≡ true)
    × ((p : ℕ) → low ≤ p → p < port → (not (is_used p used) && bindable p) ≡ false)

widen :
    (bindable : ℕ → Bool) (used : List ℕ) (low high : ℕ) (found : Option ℕ)
    → (not (is_used low used) && bindable low) ≡ false
    → Found bindable used (low + 1) high found
    → Found bindable used low high found
unfolding Found
widen bindable used low high none taken rest =
    λ p a b. elim (split p a) [ inl e ↦ rw (e) taken | inr lt ↦ rest p lt b ]
  where
    split : (p : ℕ) → low ≤ p → (p ≡ low) ⊎ (low + 1 ≤ p)
    split p a = ground arith
widen bindable used low high (some port) taken (a, b, c, d, rest) = (
  omega (arith, a),
  b,
  c,
  d,
  λ p g l. elim (split p g) [ inl e ↦ rw (e) taken | inr lt ↦ rest p lt l ],
)
  where
    split : (p : ℕ) → low ≤ p → (p ≡ low) ⊎ (low + 1 ≤ p)
    split p a = ground arith

find_from-Found :
    (bindable : ℕ → Bool) (used : List ℕ) (left port high : ℕ)
    → high ≡ port + left
    → Found bindable used port high (find_from bindable used left port)
unfolding find_from Found
find_from-Found bindable used zero port high e = λ p a b. absurd (omega arith)
find_from-Found bindable used (suc left) port high e =
    elim (Bool-cases (not (is_used port used) && bindable port)) [
      | inl suits ↦
          rw (suits, find_from)
            (
              omega arith,
              omega arith,
              ground (arith, suits),
              ground (arith, suits),
              λ p a b. absurd (omega arith),
            )
      | inr taken ↦
          rw (taken, find_from)
            (widen bindable used port high (find_from bindable used left (port + 1)) taken
              (find_from-Found bindable used left (port + 1) high (omega arith)))
    ]

-- FindPort of a range that is not reversed returns the first port of it that is not in use and can
-- be bound, and finds none only if there is no such port in it, its last port included.
pub find_port-Found :
    (ps : PortScanner) (bindable : ℕ → Bool)
    → ps.first ≤ ps.last
    → Found bindable ps.used ps.first (ps.last + 1) (find_port ps bindable).1
unfolding find_port
find_port-Found ps bindable h =
    let v =
      find_from-Found bindable ps.used (ps.last + 1 - ps.first) ps.first (ps.last + 1)
        (omega arith) in
    ground (arith, v)

-- For a start of at most 65535 and an end of at least 1024, in whatever order, NewPortScanner
-- makes a range that is not reversed and lies within 1024 and 65535.
pub new_port_scanner_range :
    (start stop : ℕ)
    → start ≤ 65535
    → 1024 ≤ stop
    → let ps = new_port_scanner start stop in
      (1024 ≤ ps.first) × (ps.first ≤ ps.last) × (ps.last ≤ 65535)
unfolding new_port_scanner
new_port_scanner_range start stop h k = ground arith
