-- ===== src/Chat/Client/Session/Ending.antt =====
-- A session to its end: the rounds in which the lines are typed, those in which lines arrive, and the
-- one in which the end of the stream arrives.
use cryptodev_chat.Common.{
  ℕ, ◌≡◌, refl, ◌∙◌, List, [], ◌∷◌, ◌++◌, map, Bool, true, false, none, length, inl, inr,
  Bool-cases, ◌==◌,
}
use cryptodev_chat.Io.{Steady}
use cryptodev_chat.Io.Calm.{Sent}
use cryptodev_chat.Run.{Run, ok, exits, faults, spins, ◌>>=◌}
use cryptodev_chat.Cryptodev.{Cryptodev}
use cryptodev_chat.Chat.Cipher.{Frame}
use cryptodev_chat.Chat.Client.{World, buff_size}
use cryptodev_chat.Chat.Client.Receive.{get_and_print-closed}
use cryptodev_chat.Chat.Client.Session.{Round, ready, round, rounds, unless_gone}
use cryptodev_chat.Chat.Client.Session.Rounds.{
  Line, typing, arriving, texts, messages, Fits, rounds-typing, rounds-arriving,
}

-- The stream of the connection is at its end.
abbrev pub hang_up : Round
hang_up = ready none true

module _ (d : Cryptodev) (frame : Frame) (encrypted : Bool) (malloc prompt : List ℕ) where
  open d use {State}

  abbrev all : List Round → World State → Run (ℕ × World State)
  all rs w = rounds d frame encrypted malloc prompt rs w

  abbrev and_then : List Round → ℕ × World State → Run (ℕ × World State)
  and_then rs result = unless_gone d frame encrypted malloc prompt result (all rs)

  and_then-append :
      (rs rs' : List Round)
      → ((w : World State) → all (rs ++ rs') w ≡ (all rs w >>= and_then rs'))
      → (result : Run (ℕ × World State))
      → (result >>= and_then (rs ++ rs')) ≡ (result >>= and_then rs >>= and_then rs')
  and_then-append rs rs' ih (ok (gone, w)) = elim (Bool-cases (gone == 1)) [
    | inl e ↦ rw e refl
    | inr e ↦ rw e (ih w)
  ]
  and_then-append rs rs' ih (exits n) = refl
  and_then-append rs rs' ih faults = refl
  and_then-append rs rs' ih spins = refl

  -- The rounds of two lists are those of the first, and those of the second unless the peer is gone.
  pub rounds-append :
      (rs rs' : List Round) (w : World State) → all (rs ++ rs') w ≡ (all rs w >>= and_then rs')
  unfolding rounds
  rounds-append [] rs' w = refl
  rounds-append (r ∷ rs) rs' w =
      and_then-append rs rs' (rounds-append rs rs') (round d frame encrypted malloc prompt r w)

module _ (d : Cryptodev) (frame : Frame) (malloc : List ℕ) (size : length malloc ≡ buff_size)
    (own_prompt prompt : List ℕ) (heard : List Line) where
  open d use {State}

  -- Lines arrive and are shown, and the end of the stream ends the session.
  pub rounds-heard :
      (w : World State)
      → Fits prompt heard
      → length w.buf ≡ buff_size
      → w.sock.incoming ≡ messages prompt heard
      → Steady w.sock.turns
      → Steady w.term.turns
      → (w' : World State) × (rounds d frame false malloc own_prompt
            (map arriving heard ++ hang_up ∷ [])
            w
          ≡ ok (1, w'))
        × Sent w.term (texts prompt heard) w'.term
        × (w'.sock.outgoing ≡ w.sock.outgoing)
        × (length w'.buf ≡ buff_size)
  unfolding rounds round
  rounds-heard w fits buf_size arrives st shows =
      let (u, received, shown, took, long) =
        rounds-arriving prompt d frame malloc size own_prompt heard w fits buf_size arrives st
          shows in
      let (q, closed, out) = get_and_print-closed d frame u took.incoming took.steady in
      (
        record u { sock = q },
        rounds-append d frame false malloc own_prompt (map arriving heard) (hang_up ∷ []) w
            ∙ rw (received, closed) refl,
        shown,
        out ∙ took.outgoing,
        long,
      )

  -- Lines are typed and sent before that.
  pub rounds-talked :
      (said : List Line) (w : World State)
      → Fits own_prompt said
      → Fits prompt heard
      → length w.buf ≡ buff_size
      → w.sock.incoming ≡ messages prompt heard
      → Steady w.sock.turns
      → Steady w.term.turns
      → (w' : World State) × (rounds d frame false malloc own_prompt
            (map typing said ++ (map arriving heard ++ hang_up ∷ []))
            w
          ≡ ok (1, w'))
        × Sent w.term (texts prompt heard) w'.term
        × (w'.sock.outgoing ≡ w.sock.outgoing ++ messages own_prompt said)
  rounds-talked said w says fits buf_size arrives st shows =
      let (q, sent, wire) = rounds-typing own_prompt d frame malloc size said w says st in
      let (u, heard_all, shown, out, long) =
        rounds-heard (record w { sock = q }) fits buf_size (wire.incoming ∙ arrives) wire.steady
          shows in
      (
        u,
        rounds-append d frame false malloc own_prompt (map typing said)
              (map arriving heard ++ hang_up ∷ []) w
            ∙ rw (sent, heard_all) refl,
        shown,
        out ∙ wire.outgoing,
      )
