-- ===== src/Chat.antt =====
-- backend/cmd/chat/main.go: the mode that the flags choose, what a line of input does, and the sizes
-- that are printed. Text is a list of code points. The session is in pkg/chat, which the repository
-- does not hold: a line is mapped to the call of it that the loop makes.
mod Bytes
mod Input
mod Session
mod Tests
use altair.Prelude.{
  ℕ, zero, suc, ◌*◌, ◌+◌, ◌-◌, ◌/◌, Bool, true, false, not, ◌&&◌, ◌||◌, List, [], ◌∷◌, ◌++◌, Option,
  none, some, ltb, leb, ◌==◌, if◌then◌else◌, map, get_elem?,
}
use altair.Outcome.{Outcome, ok, err, panic, no_fuel, ◌>>=◌, or_panic}
use altair.Net.{bytes_eq}

unfoldable pub is_empty : List ℕ → Bool
is_empty [] = true
is_empty (c ∷ cs) = false

pub record Flags : Type 0 where
  pub username : List ℕ
  pub listen_addr : List ℕ
  pub peer_addr : List ℕ
  pub room_id : List ℕ
  pub signaling_url : List ℕ

pub data Mode : Type 0 where
  no_username no_mode signaling : Mode
  listens dials : List ℕ → Mode

-- `signaling` is the branch that says that the mode is missing, and exits.
unfoldable pub choose_mode : Flags → Mode
choose_mode f =
    let has_manual = not (is_empty f.listen_addr) || not (is_empty f.peer_addr) in
    let has_signaling = not (is_empty f.room_id) && not (is_empty f.signaling_url) in
    if is_empty f.username
    then no_username
    else if not has_manual && not has_signaling
    then no_mode
    else if has_signaling
    then signaling
    else if not (is_empty f.listen_addr)
    then listens f.listen_addr
    else dials f.peer_addr

-- What a line makes the loop do; `ignored` is the empty line and `usage` the file that is not named.
pub data Action : Type 0 where
  ignored quits clears shows_help shows_status usage unknown_command : Action
  sends_file says : List ℕ → Action

unfoldable pub flush : List ℕ → List (List ℕ) → List (List ℕ)
flush [] words = words
flush (c ∷ cs) words = (c ∷ cs) ∷ words

-- `is_space` is unicode.IsSpace.
module _ (is_space : ℕ → Bool) where
  unfoldable pub trim_left : List ℕ → List ℕ
  trim_left [] = []
  trim_left (c ∷ cs) = let rest = trim_left cs in if is_space c then rest else c ∷ cs

  unfoldable pub trim_right : List ℕ → List ℕ
  trim_right [] = []
  trim_right (c ∷ cs) =
      let rest = trim_right cs in if is_space c && is_empty rest then [] else c ∷ rest

  unfoldable pub trim_space : List ℕ → List ℕ
  trim_space line = trim_right (trim_left line)

  -- The word that the text starts with, and the words after it.
  unfoldable pub words_of : List ℕ → List ℕ × List (List ℕ)
  words_of [] = ([], [])
  words_of (c ∷ cs) =
      let (word, words) = words_of cs in
      if is_space c then ([], flush word words) else (c ∷ word, words)

  unfoldable pub fields : List ℕ → List (List ℕ)
  fields line = let (word, words) = words_of line in flush word words

unfoldable pub is_command : List ℕ → Bool
is_command [] = false
is_command (c ∷ cs) = c == 47

-- The switch on the command, without its slash: quit, exit, q, clear, help, status, send.
unfoldable pub run_command : List ℕ → List (List ℕ) → Action
run_command cmd parts =
    if bytes_eq cmd (47 ∷ 113 ∷ 117 ∷ 105 ∷ 116 ∷ [])
      || (bytes_eq cmd (47 ∷ 101 ∷ 120 ∷ 105 ∷ 116 ∷ []) || bytes_eq cmd (47 ∷ 113 ∷ []))
    then quits
    else if bytes_eq cmd (47 ∷ 99 ∷ 108 ∷ 101 ∷ 97 ∷ 114 ∷ [])
    then clears
    else if bytes_eq cmd (47 ∷ 104 ∷ 101 ∷ 108 ∷ 112 ∷ [])
    then shows_help
    else if bytes_eq cmd (47 ∷ 115 ∷ 116 ∷ 97 ∷ 116 ∷ 117 ∷ 115 ∷ [])
    then shows_status
    else if bytes_eq cmd (47 ∷ 115 ∷ 101 ∷ 110 ∷ 100 ∷ [])
    then (elim (get_elem? parts 1) [ none ↦ usage | some path ↦ sends_file path ])
    else unknown_command

-- `to_lower` is unicode.ToLower; `parts[0]` panics if there is no part.
unfoldable pub handle_line : (ℕ → Bool) → (ℕ → ℕ) → List ℕ → Outcome (Unit {0}) Action
handle_line is_space to_lower line =
    let input = trim_space is_space line in
    if is_empty input
    then ok ignored
    else if is_command input
    then (or_panic (get_elem? (fields is_space input) 0) >>= λ first.
        ok (run_command (map to_lower first) (fields is_space input)))
    else ok (says input)

-- The size that `formatBytes` prints: with no prefix, or divided by `div` and with the letter.
pub data Size : Type 0 where
  plain : ℕ → Size
  scaled : ℕ → ℕ → ℕ → Size

-- "KMGTPE"
abbrev pub prefixes : List ℕ
prefixes = 75 ∷ 77 ∷ 71 ∷ 84 ∷ 80 ∷ 69 ∷ []

-- The loop of `formatBytes`, on fuel; the count is not negative and div stays below 2^63.
unfoldable pub scale : ℕ → ℕ → ℕ → ℕ → Option (ℕ × ℕ)
scale zero n div exp = none
scale (suc fuel) n div exp =
    let rest = scale fuel (n / 1024) (div * 1024) (exp + 1) in
    if leb 1024 n then rest else some (div, exp)

-- 64 rounds are more than a count of 64 bits needs.
unfoldable pub format_bytes : ℕ → Outcome (Unit {0}) Size
format_bytes bytes =
    if ltb bytes 1024 then ok (plain bytes) else elim (scale 64 (bytes / 1024) 1024 0) [
      | none ↦ no_fuel
      | some (div, exp) ↦
          or_panic (get_elem? prefixes exp) >>= λ letter. ok (scaled bytes div letter)
    ]

-- The callback of `handleSendFile`: the count of the last report and whether this one is printed.
unfoldable pub on_progress : ℕ → ℕ → ℕ → ℕ × Bool
on_progress last sent size =
    if ltb (last + 1048576) sent || sent == size then (sent, true) else (last, false)
