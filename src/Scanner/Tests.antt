-- ===== src/Scanner/Tests.antt =====
-- The theorems on the port scanner at concrete inputs.
use altair.Prelude.{ℕ, ◌+◌, Bool, [], ◌∷◌, ◌==◌, not, arith}
use altair.Scanner.{PortScanner, find_port}
use altair.Scanner.Search.{Found, find_port-Found}

abbrev a_scanner : PortScanner
a_scanner = record { used = 5000 ∷ []; first = 5000; last = 5010 }

abbrev all_but_one : ℕ → Bool
all_but_one p = not (p == 5001)

one_port_taken : Found all_but_one (5000 ∷ []) 5000 (5010 + 1) (find_port a_scanner all_but_one).1
one_port_taken = find_port-Found a_scanner all_but_one (omega arith)
