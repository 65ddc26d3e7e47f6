-- ===== src/Chat/Buffer.antt =====
-- Arrays of the chat: a buffer is the list of its bytes, its size is the length of the list, and an
-- access that does not lie inside is a fault.
use cryptodev_chat.Common.{
  refl, append_assoc, ℕ, ◌+◌, ◌≤◌, ◌≡◌, List, [], ◌∷◌, ◌++◌, length, take, drop, leb, if◌then◌else◌,
  take-append, drop-append, drop-add, le→leb, lt→leb-false, ◌<◌, ap, ◌∙◌, length-append, arith,
}
use cryptodev_chat.Run.{Run, ok, faults}

-- the n bytes from offset `off` on
unfoldable pub peek : List ℕ → ℕ → ℕ → Run (List ℕ)
peek buf off n = if leb (off + n) (length buf) then ok (take n (drop off buf)) else faults

-- memcpy(buf + off, bs, length bs)
unfoldable pub poke : List ℕ → ℕ → List ℕ → Run (List ℕ)
poke buf off bs =
    if leb (off + length bs) (length buf)
    then ok (take off buf ++ bs ++ drop (off + length bs) buf)
    else faults

pub peek_fits :
    (buf : List ℕ) (off n : ℕ) → off + n ≤ length buf → peek buf off n ≡ ok (take n (drop off buf))
unfolding peek
peek_fits buf off n h = rw (le→leb _ _ h)

pub peek_overruns : (buf : List ℕ) (off n : ℕ) → length buf < off + n → peek buf off n ≡ faults
unfolding peek
peek_overruns buf off n h = rw (lt→leb-false _ _ h)

pub poke_fits :
    (buf : List ℕ) (off : ℕ) (bs : List ℕ)
    → off + length bs ≤ length buf
    → poke buf off bs ≡ ok (take off buf ++ bs ++ drop (off + length bs) buf)
unfolding poke
poke_fits buf off bs h = rw (le→leb _ _ h)

pub poke_overruns :
    (buf : List ℕ) (off : ℕ) (bs : List ℕ) → length buf < off + length bs → poke buf off bs ≡ faults
unfolding poke
poke_overruns buf off bs h = rw (lt→leb-false _ _ h)

-- At the start of the buffer, with the length as a variable.
pub peek_front : (buf : List ℕ) (n : ℕ) → n ≤ length buf → peek buf 0 n ≡ ok (take n buf)
peek_front buf n h = peek_fits buf 0 n (omega arith)

pub poke_front :
    (buf bs : List ℕ) (n : ℕ)
    → length bs ≡ n
    → n ≤ length buf
    → poke buf 0 bs ≡ ok (bs ++ drop n buf)
poke_front buf bs n e h =
    poke_fits buf 0 bs (omega arith) ∙ ap (λ k. ok (bs ++ drop k buf)) (omega arith)

-- A write at the seam of two parts.
pub poke_seam :
    (off : ℕ) (front back bs : List ℕ)
    → length front ≡ off
    → length bs ≤ length back
    → poke (front ++ back) off bs ≡ ok (front ++ bs ++ drop (length bs) back)
poke_seam off front back bs e h =
    poke_fits (front ++ back) off bs (omega (arith, length-append front back))
    ∙ rw
        (
          take-append off front back e,
          ← drop-add off (length bs) (front ++ back),
          drop-append off front back e,
        )
        refl

pub peek_front_append :
    (front back : List ℕ) (n : ℕ) → length front ≡ n → peek (front ++ back) 0 n ≡ ok front
peek_front_append front back n e =
    peek_front (front ++ back) n (omega (arith, length-append front back))
    ∙ ap ok (take-append n front back e)

-- strcpy(buf + off, str) at the seam: the NUL behind the string starts the new second part.
pub poke_string :
    (off : ℕ) (front back str : List ℕ)
    → length front ≡ off
    → length str + 1 ≤ length back
    → poke (front ++ back) off (str ++ 0 ∷ [])
      ≡ ok ((front ++ str) ++ 0 ∷ drop (length str + 1) back)
poke_string off front back str e h =
    poke_seam off front back (str ++ 0 ∷ []) e (omega (arith, size))
    ∙ rw (size, append_assoc, append_assoc, append_assoc) refl
  where
    size : length (str ++ 0 ∷ []) ≡ length str + 1
    size = length-append str (0 ∷ [])

pub peek_middle :
    (front text back : List ℕ) (off n : ℕ)
    → length front ≡ off
    → length text ≡ n
    → peek (front ++ text ++ back) off n ≡ ok text
peek_middle front text back off n e h =
    peek_fits (front ++ text ++ back) off n
      (omega (arith, length-append (front ++ text) back, length-append front text))
    ∙ rw (append_assoc, drop-append off front (text ++ back) e, take-append n text back h) refl
