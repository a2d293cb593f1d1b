-- ===== src/Demo/Sending.antt =====
-- backend/examples/chat/main.go, `sendMessages`: what the lines of the terminal put on the socket. Text
-- is a list of code points, and a datagram has its UTF-8.
use altair.Prelude.{ℕ, ◌+◌, ◌/◌, ◌%◌, Bool, ◌||◌, List, [], ◌∷◌, ◌++◌, ltb, if◌then◌else◌}
use altair.Net.{UdpAddr, bytes_eq}
use altair.Chat.{is_empty, trim_space}
use altair.Demo.{ChatConnection, send_message}

unfoldable pub encode_char : ℕ → List ℕ
encode_char c =
    if ltb c 128
    then c ∷ []
    else if ltb c 2048
    then (192 + c / 64) ∷ (128 + c % 64) ∷ []
    else if ltb c 65536
    then (224 + c / 4096) ∷ (128 + c / 64 % 64) ∷ (128 + c % 64) ∷ []
    else (240 + c / 262144) ∷ (128 + c / 4096 % 64) ∷ (128 + c / 64 % 64) ∷ (128 + c % 64) ∷ []

unfoldable pub encode : List ℕ → List ℕ
encode [] = []
encode (c ∷ cs) = encode_char c ++ encode cs

-- "%s: %s"
unfoldable pub full_message : List ℕ → List ℕ → List ℕ
full_message username message = username ++ 58 ∷ 32 ∷ message

-- "/quit" and "/exit"
unfoldable pub is_quit : List ℕ → Bool
is_quit message =
    bytes_eq message (47 ∷ 113 ∷ 117 ∷ 105 ∷ 116 ∷ [])
    || bytes_eq message (47 ∷ 101 ∷ 120 ∷ 105 ∷ 116 ∷ [])

-- A line of the terminal, the time at which it is sent, and whether the write succeeds.
pub record Line : Type 0 where
  pub text : List ℕ
  pub now : ℕ
  pub written : Bool

-- The datagrams in order, up to the line that ends the program; an error of one is only shown.
-- `is_space` is unicode.IsSpace.
unfoldable pub send_messages :
    (ℕ → Bool) → ChatConnection → List ℕ → List Line → List (List ℕ × UdpAddr)
send_messages is_space c username [] = []
send_messages is_space c username (line ∷ lines) =
    let later = send_messages is_space c username lines in
    let message = trim_space is_space line.text in
    if is_empty message
    then later
    else if is_quit message
    then []
    else send_message c (encode (full_message username message)) line.now line.written ++ later
