-- ===== src/Chat/Input.antt =====
-- backend/cmd/chat/main.go: what a line of input can do.
use mathlib.Core.Path.{subst}
use altair.Prelude.{
  ℕ, ◌≡◌, ◌≢◌, ◌⊎◌, inl, inr, refl, Bool, true, false, List, [], ◌∷◌, arith, All, Bool-cases, map,
}
use altair.Outcome.{Meets}
use altair.Chat.{
  Action, ignored, sends_file, says, is_empty, trim_left, trim_right, trim_space, flush, words_of,
  fields, is_command, run_command, handle_line,
}

module _ (is_space : ℕ → Bool) where
  abbrev pub IsWord : List ℕ → Type 0
  IsWord word = (word ≢ []) × All (λ c. is_space c ≡ false) word

  -- What the action says of the line without the spaces around it.
  abbrev pub Allows : List ℕ → Action → Type 0
  Allows input (says text) = (text ≡ input) × (text ≢ []) × (is_command text ≡ false)
  Allows input (sends_file path) = (is_command input ≡ true) × IsWord path
  Allows input ignored = input ≡ []
  Allows input _ = is_command input ≡ true

  flush-IsWord :
      (word : List ℕ) (words : List (List ℕ))
      → All (λ c. is_space c ≡ false) word
      → All IsWord words
      → All IsWord (flush word words)
  unfolding flush
  flush-IsWord [] words v w = w
  flush-IsWord (c ∷ cs) words v w = (((λ e. cc), v), w)

  words_of-IsWord :
      (line : List ℕ)
      → All (λ c. is_space c ≡ false) (words_of is_space line).0
        × All IsWord (words_of is_space line).1
  unfolding words_of
  words_of-IsWord [] = (tt, tt)
  words_of-IsWord (c ∷ cs) =
      let (v, w) = words_of-IsWord cs in
      let (word, words) = words_of is_space cs in
      elim (Bool-cases (is_space c)) [
        | inl e ↦
            rw (e, words_of)
              (tt, flush-IsWord (words_of is_space cs).0 (words_of is_space cs).1 v w)
        | inr e ↦ rw (e, words_of) ((e, v), w)
      ]

  fields-IsWord : (line : List ℕ) → All IsWord (fields is_space line)
  unfolding fields
  fields-IsWord line =
      let (v, w) = words_of-IsWord line in
      flush-IsWord (words_of is_space line).0 (words_of is_space line).1 v w

  trim_left_head :
      (line : List ℕ)
      → (trim_left is_space line ≡ [])
        ⊎ ((c : ℕ) × (cs : List ℕ) × (trim_left is_space line ≡ c ∷ cs) × (is_space c ≡ false))
  unfolding trim_left
  trim_left_head [] = inl refl
  trim_left_head (c ∷ cs) = elim (Bool-cases (is_space c)) [
    | inl e ↦ rw (e, trim_left) (trim_left_head cs)
    | inr e ↦ inr (c, cs, rw (e, trim_left) refl, e)
  ]

  trim_space_head :
      (line : List ℕ)
      → (trim_space is_space line ≡ [])
        ⊎ ((c : ℕ) × (cs : List ℕ) × (trim_space is_space line ≡ c ∷ cs) × (is_space c ≡ false))
  unfolding trim_space trim_right
  trim_space_head line = elim (trim_left_head line) [
    | inl e ↦ inl (rw (e, trim_space, trim_right) refl)
    | inr (c, cs, e, f) ↦ inr (c, trim_right is_space cs, rw (e, f, trim_space, trim_right) refl, f)
  ]

  fields_head :
      (c : ℕ) (cs : List ℕ)
      → is_space c ≡ false
      → (first : List ℕ) × (rest : List (List ℕ)) × (fields is_space (c ∷ cs) ≡ first ∷ rest)
  unfolding fields words_of flush
  fields_head c cs e =
      (c ∷ (words_of is_space cs).0, (words_of is_space cs).1, rw (e, fields, words_of, flush) refl)

  run_command-Allows :
      (input cmd : List ℕ) (parts : List (List ℕ))
      → is_command input ≡ true
      → All IsWord parts
      → Allows input (run_command cmd parts)
  unfolding run_command
  run_command-Allows input cmd [] e v = ground (arith, e)
  run_command-Allows input cmd (p ∷ []) e v = ground (arith, e)
  run_command-Allows input cmd (p ∷ (q ∷ parts)) e (v, (w, vs)) = ground (arith, e, w)

  -- With any notion of a space and of lower case, no line of input panics; a line without its
  -- outer spaces that is empty does nothing, what is sent to the peer is the line without its
  -- outer spaces and does not start with a slash, the line of any other action starts with one,
  -- and the name of a file to send is not empty and has no spaces.
  pub handle_line-Meets :
      (to_lower : ℕ → ℕ) (line : List ℕ)
      → Meets (Allows (trim_space is_space line)) (handle_line is_space to_lower line)
  unfolding handle_line is_empty
  handle_line-Meets to_lower line = elim (trim_space_head line) [
    | inl e ↦ rw (e, handle_line) refl
    | inr (c, cs, e, f) ↦ elim (Bool-cases (is_command (c ∷ cs))) [
      | inl g ↦
          let (first, rest, k) = fields_head c cs f in
          rw (e, g, k, handle_line)
            (run_command-Allows (c ∷ cs) (map to_lower first) (first ∷ rest) g
              (subst (All IsWord) k (fields-IsWord (c ∷ cs))))
      | inr g ↦ rw (e, g, handle_line) (refl, (λ k. cc), g)
    ]
  ]
