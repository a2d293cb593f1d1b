-- ===== src/Chat/Session.antt =====
-- backend/cmd/chat/main.go: the connection that the mode asks for, the loop over the lines of the
-- terminal, the signals that end the program, and the exit code.
use altair.Prelude.{
  ℕ, ◌≡◌, inl, inr, refl, Bool, true, false, ◌&&◌, List, [], ◌∷◌, Bool-cases, if◌then◌else◌,
}
use altair.Outcome.{Outcome, ok, Meets, bind-Meets, ◌>>=◌}
use altair.Chat.{
  Flags, Mode, no_username, no_mode, signaling, listens, dials, choose_mode, Action, quits,
  trim_space, handle_line,
}
use altair.Chat.Input.{Allows, handle_line-Meets}

-- Which calls succeed: Listen, Accept, DialTimeout and the start of the session.
pub record Network : Type 0 where
  pub listen_ok : Bool
  pub accept_ok : Bool
  pub dial_ok : Bool
  pub start_ok : Bool

unfoldable pub is_connected : Mode → Network → Bool
is_connected no_username n = false
is_connected no_mode n = false
is_connected signaling n = false
is_connected (listens addr) n = n.listen_ok && n.accept_ok
is_connected (dials addr) n = n.dial_ok

unfoldable pub is_quits : Action → Bool
is_quits quits = true
is_quits _ = false

-- A line of the terminal, or SIGINT or SIGTERM between two lines. A signal that comes while a line
-- is handled is left out.
pub data Input : Type 0 where
  line : List ℕ → Input
  interrupt : Input

abbrev pub OneOf : Bool → Type 0 → Type 0 → Type 0
OneOf true P Q = P
OneOf false P Q = Q

module _ (is_space : ℕ → Bool) (to_lower : ℕ → ℕ) where
  -- A signal stops the session and ends the program, the lines that would follow unread.
  unfoldable pub input_loop : List Input → Outcome (Unit {0}) (List Action)
  input_loop [] = ok []
  input_loop (interrupt ∷ inputs) = ok []
  input_loop (line text ∷ inputs) =
      let later = input_loop inputs in
      handle_line is_space to_lower text >>= λ a.
      if is_quits a then ok (a ∷ []) else (later >>= λ rest. ok (a ∷ rest))

  -- The exit code, and what was done with the lines.
  unfoldable pub main : Flags → Network → List Input → Outcome (Unit {0}) (ℕ × List Action)
  main flags n inputs =
      if is_connected (choose_mode flags) n && n.start_ok
      then (input_loop inputs >>= λ actions. ok (0, actions))
      else ok (1, [])

  -- One action for each line that allows it, up to the line that quits or the signal.
  unfoldable pub Answers : List Input → List Action → Type 0
  Answers [] actions = actions ≡ []
  Answers (interrupt ∷ inputs) actions = actions ≡ []
  Answers (line text ∷ inputs) [] = ⊥
  Answers (line text ∷ inputs) (a ∷ actions) =
      Allows is_space (trim_space is_space text) a
      × OneOf (is_quits a) (actions ≡ []) (Answers inputs actions)

  -- An exit with code 1 before any line is read, or with 0 after the loop.
  abbrev pub Ends : Bool → List Input → ℕ × List Action → Type 0
  Ends true inputs (code, actions) = (code ≡ 0) × Answers inputs actions
  Ends false inputs result = result ≡ (1, [])

  input_loop-Meets : (inputs : List Input) → Meets (Answers inputs) (input_loop inputs)
  unfolding input_loop Answers
  input_loop-Meets [] = refl
  input_loop-Meets (interrupt ∷ inputs) = refl
  input_loop-Meets (line text ∷ inputs) =
      bind-Meets (Allows is_space (trim_space is_space text)) (Answers (line text ∷ inputs))
        (handle_line is_space to_lower text) _ (handle_line-Meets is_space to_lower text)
        (λ a allowed. elim (Bool-cases (is_quits a)) [
          | inl e ↦ rw e (allowed, rw e refl)
          | inr e ↦ rw e (
              bind-Meets (Answers inputs) (Answers (line text ∷ inputs)) (input_loop inputs) _
                (input_loop-Meets inputs) (λ rest v. (allowed, rw e v)))
        ])

  -- With any notion of a space and of lower case, any flags, any network, any lines and any signal
  -- between two of them, the chat command does not panic: it exits with code 1 before it reads a
  -- line if no connection is made or the session does not start, and with 0 otherwise, and then it
  -- does one thing for each line up to one that quits or to the signal and nothing after it. A
  -- line without its outer spaces that is empty does nothing, what is sent to the peer is the line
  -- without its outer spaces and does not start with a slash, the line of any other action starts
  -- with one, and the name of a file to send is not empty and has no spaces.
  pub main-Meets :
      (flags : Flags) (n : Network) (inputs : List Input)
      → Meets (Ends (is_connected (choose_mode flags) n && n.start_ok) inputs) (main flags n inputs)
  unfolding main
  main-Meets flags n inputs = elim (Bool-cases (is_connected (choose_mode flags) n && n.start_ok)) [
    | inl e ↦
        rw (e, main)
          (bind-Meets (Answers inputs) (Ends true inputs) (input_loop inputs) _
            (input_loop-Meets inputs) (λ actions v. (refl, v)))
    | inr e ↦ rw (e, main) refl
  ]
