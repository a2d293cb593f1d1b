-- ===== src/Format.antt =====
-- The verbs %d and %04X of Go's fmt, for what the String methods print.
use Prim.Native.String.{◌++◌ as append}
use altair.Prelude.{
  ℕ, zero, suc, ◌+◌, ◌*◌, ◌/◌, ◌%◌, ◌≤◌, ◌≡◌, ◌∙◌, refl, String, List, [], ◌∷◌, ◌++◌, none, some,
  arith, ltb, if◌then◌else◌, get_elem?, inl, inr, Bool-cases,
}

-- Upper-case digits.
abbrev digit_texts : List String
digit_texts =
    "0" ∷ "1" ∷ "2" ∷ "3" ∷ "4" ∷ "5" ∷ "6" ∷ "7" ∷ "8" ∷ "9" ∷ "A" ∷ "B" ∷ "C" ∷ "D" ∷ "E" ∷ "F"
    ∷ []

abbrev pub digit_text : ℕ → String
digit_text d = elim (get_elem? digit_texts d) [ none ↦ "" | some t ↦ t ]

-- Decimal digits, the highest first, in at most `fuel` divisions.
unfoldable pub digits : ℕ → ℕ → List ℕ
digits zero n = []
digits (suc fuel) n =
    let high = digits fuel (n / 10) in if ltb n 10 then n ∷ [] else high ++ n % 10 ∷ []

abbrev pub joined : List ℕ → String
joined [] = ""
joined (d ∷ ds) = append (digit_text d) (joined ds)

-- %d of a number that is not negative.
unfoldable pub decimal : ℕ → String
decimal n = joined (digits (suc n) n)

-- %04X of a number of 16 bits.
unfoldable pub hex4 : ℕ → String
hex4 n = joined (n / 4096 ∷ n / 256 % 16 ∷ n / 16 % 16 ∷ n % 16 ∷ [])

-- What digits stand for.
abbrev pub from_digits : ℕ → List ℕ → ℕ
from_digits acc [] = acc
from_digits acc (d ∷ ds) = from_digits (10 * acc + d) ds

from_digits-append :
    (acc d : ℕ) (ds : List ℕ) → from_digits acc (ds ++ d ∷ []) ≡ 10 * from_digits acc ds + d
from_digits-append acc d [] = refl
from_digits-append acc d (x ∷ ds) = from_digits-append (10 * acc + x) d ds

-- The fuel is enough: the digits stand for the number.
pub from_digits-digits : (fuel n : ℕ) → suc n ≤ fuel → from_digits 0 (digits fuel n) ≡ n
unfolding digits
from_digits-digits zero n h = absurd (omega arith)
from_digits-digits (suc fuel) n h = elim (Bool-cases (ltb n 10)) [
  | inl e ↦ rw (e, digits) (omega arith)
  | inr e ↦
      let high = from_digits-digits fuel (n / 10) (ground (arith, e)) in
      rw (e, digits) (from_digits-append 0 (n % 10) (digits fuel (n / 10)) ∙ omega (arith, high))
]
