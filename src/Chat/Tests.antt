-- ===== src/Chat/Tests.antt =====
-- The theorems on the chat command at concrete inputs.
use altair.Prelude.{
  ℕ, ◌+◌, ◌*◌, ◌^◌, ◌≤◌, ◌<◌, ◌≡◌, refl, Bool, true, ◌==◌, List, [], ◌∷◌, some, arith, get_elem?,
}
use altair.Outcome.{ok, Meets}
use altair.Chat.{
  Flags, choose_mode, sends_file, scaled, prefixes, format_bytes, handle_line, trim_space,
  trim_left, trim_right, is_empty, is_command, fields, words_of, flush, run_command, scale,
}
use altair.Net.{bytes_eq}
use altair.Chat.Bytes.{format_bytes_scaled}
use altair.Chat.Session.{
  Input, line, interrupt, Network, Ends, main, main-Meets, is_connected, input_loop, is_quits,
}

-- 3 MiB are printed in the unit of 1024 ^ 2 bytes.
format_bytes_scaled_example :
    (k letter : ℕ) × (format_bytes 3145728 ≡ ok (scaled 3145728 (1024 ^ (k + 1)) letter))
    × (get_elem? prefixes k ≡ some letter)
    × (1024 ^ (k + 1) ≤ 3145728)
    × (3145728 < 1024 * 1024 ^ (k + 1))
format_bytes_scaled_example = format_bytes_scaled 3145728 (omega arith) (omega arith)

three_mebibytes : format_bytes 3145728 ≡ ok (scaled 3145728 1048576 77)
unfolding format_bytes scale
three_mebibytes = refl

abbrev a_space : ℕ → Bool
a_space c = c == 32

abbrev same_letter : ℕ → ℕ
same_letter c = c

-- " /send a  "
abbrev send_line : List ℕ
send_line = 32 ∷ 47 ∷ 115 ∷ 101 ∷ 110 ∷ 100 ∷ 32 ∷ 97 ∷ 32 ∷ 32 ∷ []

sends : handle_line a_space same_letter send_line ≡ ok (sends_file (97 ∷ []))
unfolding handle_line trim_space trim_left trim_right is_empty is_command fields words_of flush
    run_command bytes_eq
sends = refl

-- A chat that listens, sends a file and quits; the line after that is not read.
abbrev listening : Flags
listening = record {
  username = 97 ∷ [];
  listen_addr = 58 ∷ 57 ∷ [];
  peer_addr = [];
  room_id = [];
  signaling_url = [];
}

abbrev good_network : Network
good_network = record { listen_ok = true; accept_ok = true; dial_ok = true; start_ok = true }

-- "/q"
abbrev quit_line : List ℕ
quit_line = 47 ∷ 113 ∷ []

abbrev three_lines : List Input
three_lines = line send_line ∷ line quit_line ∷ line send_line ∷ []

main-Meets_example :
    Meets
      (Ends a_space same_letter true three_lines)
      (main a_space same_letter listening good_network three_lines)
unfolding choose_mode is_connected is_empty
main-Meets_example = main-Meets a_space same_letter listening good_network three_lines

-- A file is sent, and a signal ends the program.
interrupted :
    main a_space same_letter listening good_network (line send_line ∷ interrupt ∷ three_lines)
    ≡ ok (0, sends_file (97 ∷ []) ∷ [])
unfolding main input_loop is_connected is_quits choose_mode handle_line trim_space trim_left
    trim_right is_empty is_command fields words_of flush run_command bytes_eq
interrupted = refl
