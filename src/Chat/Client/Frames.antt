-- ===== src/Chat/Client/Frames.antt =====
-- The bytes of a message in the chat's protocol, and that format_message builds them.
use cryptodev_chat.Common.{
  suc, ℕ, Bool-cases, leb, inl, inr, ◌+◌, ◌-◌, ◌≤◌, ◌<◌, ◌≡◌, refl, ap, List, [], ◌∷◌, ◌++◌, length,
  drop, length-append, length-drop, append_assoc, arith,
}
use cryptodev_chat.Run.{ok, faults}
use cryptodev_chat.Chat.Buffer.{poke_front, poke_seam, poke_overruns, poke_string}
use cryptodev_chat.Chat.Word.{htonl, length-htonl}
use cryptodev_chat.Chat.Client.{buff_size, format_message}

-- What a reader of the chat sees of a typed line.
abbrev pub message_text : List ℕ → List ℕ → List ℕ
message_text prompt line = prompt ++ line ++ b'\n' ∷ []

-- A message: the length of its text in network order, then the text.
abbrev pub message : List ℕ → List ℕ
message text = htonl (length text) ++ text

pub length-message_text :
    (prompt line : List ℕ) → length (message_text prompt line) ≡ length line + length prompt + 1
length-message_text prompt line =
    omega (arith, length-append (prompt ++ line) (b'\n' ∷ []), length-append prompt line)

pub length-message : (text : List ℕ) → length (message text) ≡ length text + 4
length-message text =
    omega (arith, length-append (htonl (length text)) text, length-htonl (length text))

module _ (fresh prompt line : List ℕ) (size : length fresh ≡ buff_size) where
  -- The message is followed by what is left of the buffer.
  pub format_message-message :
      length line + length prompt + 5 ≤ buff_size
      → (rest : List ℕ) × (format_message fresh prompt line
          ≡ ok (message (message_text prompt line) ++ rest))
        × (length rest + length line + length prompt + 5 ≡ buff_size)
  unfolding format_message
  format_message-message fits = (
    b₂,
    rw
        (
          poke_front fresh head 4 (length-htonl _) (omega arith),
          poke_string 4 head b₀ prompt (length-htonl _) (omega (arith, s₀)),
          poke_string (length prompt + 4) (head ++ prompt) (0 ∷ b₁) line
              (omega (arith, h₀, length-append head prompt)) (omega (arith, s₁, s₀)),
          poke_seam (length line + length prompt + 4) (head ++ prompt ++ line) (0 ∷ b₂) (b'\n' ∷ [])
              (omega (arith, h₀, length-append (head ++ prompt) line, length-append head prompt))
              (omega arith),
        )
        (rw (length-message_text prompt line) (ap (λ r. ok (r ++ b₂)) regroup)),
    omega (arith, s₀, s₁, s₂),
  )
    where
      head : List ℕ
      head = htonl (length line + length prompt + 1)

      h₀ : length head ≡ 4
      h₀ = length-htonl (length line + length prompt + 1)

      regroup : head ++ prompt ++ line ++ b'\n' ∷ [] ≡ head ++ (prompt ++ line ++ b'\n' ∷ [])
      regroup = simp append_assoc

      b₀ : List ℕ
      b₀ = drop 4 fresh

      b₁ : List ℕ
      b₁ = drop (length prompt + 1) b₀

      b₂ : List ℕ
      b₂ = drop (length line + 1) (0 ∷ b₁)

      s₀ : length b₀ ≡ length fresh - 4
      s₀ = length-drop 4 fresh

      s₁ : length b₁ ≡ length b₀ - (length prompt + 1)
      s₁ = length-drop (length prompt + 1) b₀

      s₂ : length b₂ ≡ suc (length b₁) - (length line + 1)
      s₂ = length-drop (length line + 1) (0 ∷ b₁)

  -- The NUL of the line, or of the prompt, is stored behind the buffer.
  pub format_message-faults :
      buff_size < length line + length prompt + 5 → format_message fresh prompt line ≡ faults
  unfolding format_message
  format_message-faults over = elim (Bool-cases (leb (length prompt + 5) buff_size)) [
    | inl fits ↦
        rw
          (
            poke_front fresh head 4 h₀ (omega arith),
            poke_string 4 head b₀ prompt h₀ (ground (arith, s₀)),
            poke_overruns (head ++ prompt ++ (0 ∷ b₁)) (length prompt + 4) (line ++ 0 ∷ []) (
                ground (
                  arith,
                  s₀,
                  s₁,
                  h₀,
                  length-append (head ++ prompt) (0 ∷ b₁),
                  length-append head prompt,
                  length-append line (0 ∷ []),
                )),
          )
          refl
    | inr long ↦
        rw
          (
            poke_front fresh head 4 h₀ (omega arith),
            poke_overruns (head ++ b₀) 4 (prompt ++ 0 ∷ [])
                (ground (arith, s₀, h₀, length-append head b₀, length-append prompt (0 ∷ []))),
          )
          refl
  ]
    where
      head : List ℕ
      head = htonl (length line + length prompt + 1)

      h₀ : length head ≡ 4
      h₀ = length-htonl (length line + length prompt + 1)

      b₀ : List ℕ
      b₀ = drop 4 fresh

      b₁ : List ℕ
      b₁ = drop (length prompt + 1) b₀

      s₀ : length b₀ ≡ length fresh - 4
      s₀ = length-drop 4 fresh

      s₁ : length b₁ ≡ length b₀ - (length prompt + 1)
      s₁ = length-drop (length prompt + 1) b₀
