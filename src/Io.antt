-- ===== src/Io.antt =====
-- socket-common.c, insist_write and insist_read, over the read(2) and write(2) of a stream.
--
-- A `Port` is one descriptor: the bytes that its peer has sent and that are not read yet, the
-- bytes written so far, and what the operating system decides at each coming call: how much it
-- transfers at most, or that the call fails. A list of turns that has run out stands for calls
-- that transfer all they can. An exhausted `incoming` is the end of the stream: read returns 0.
pub mod Turns
pub mod Write
pub mod Read
pub mod Calm
use cryptodev_chat.Common.{
  ℕ, zero, suc, ◌-◌, min, List, [], ◌∷◌, ◌++◌, Option, none, some, ℤ, pos, negsuc, length, take,
  drop,
}

-- `upto n` lets a call transfer at most n + 1 bytes; a call that may transfer makes progress.
pub data Turn : Type 0 where
  upto : ℕ → Turn
  failing : Turn

pub record Port : Type 0 where
  pub incoming : List ℕ
  pub outgoing : List ℕ
  pub turns : List Turn

-- A transfer of `k` bytes at most out of the `cnt` that the caller asks for.
abbrev pub grant : Turn → ℕ → Option ℕ
grant (upto n) cnt = some (min (suc n) cnt)
grant failing cnt = none

abbrev pub next_grant : List Turn → ℕ → Option ℕ
next_grant [] cnt = some cnt
next_grant (t ∷ ts) cnt = grant t cnt

abbrev pub rest_turns : List Turn → List Turn
rest_turns [] = []
rest_turns (t ∷ ts) = ts

-- No call of this schedule fails.
abbrev pub Steady : List Turn → Type 0
Steady [] = Unit {0}
Steady (upto n ∷ ts) = Steady ts
Steady (failing ∷ ts) = ⊥

abbrev emit : Option ℕ → List ℕ → Port → ℤ × Port
emit none buf p = (negsuc 0, p)
emit (some k) buf p = (pos k, record p { outgoing = p.outgoing ++ take k buf })

-- write(fd, buf, cnt), where `buf` holds the cnt bytes: it fails, or transfers a byte at least
unfoldable pub write : List ℕ → Port → ℤ × Port
write buf p = emit (next_grant p.turns (length buf)) buf (record p { turns = rest_turns p.turns })

abbrev absorb : Option ℕ → Port → ℤ × List ℕ × Port
absorb none p = (negsuc 0, [], p)
absorb (some k) p =
    (pos (length (take k p.incoming)), take k p.incoming, record p { incoming = drop k p.incoming })

-- read(fd, buf, cnt): the result, the bytes put at `buf`, the descriptor
unfoldable pub read : ℕ → Port → ℤ × List ℕ × Port
read cnt p = absorb (next_grant p.turns cnt) (record p { turns = rest_turns p.turns })

-- What the loop does with the result of one write. `none` is a loop that has used up its fuel.
abbrev pub after_write : ℤ × Port → (ℕ → Port → Option ℤ × Port) → Option ℤ × Port
after_write (negsuc e, p) again = (some (negsuc e), p)
after_write (pos k, p) again = again k p

unfoldable pub insist_write_loop : ℕ → List ℕ → ℕ → Port → Option ℤ × Port
insist_write_loop fuel [] orig_cnt p = (some (pos orig_cnt), p)
insist_write_loop zero (b ∷ bs) orig_cnt p = (none, p)
insist_write_loop (suc fuel) (b ∷ bs) orig_cnt p =
    after_write (write (b ∷ bs) p) (λ k q. insist_write_loop fuel (drop k (b ∷ bs)) orig_cnt q)

-- Each round writes a byte at least, so as many rounds as bytes are enough.
unfoldable pub insist_write : List ℕ → Port → Option ℤ × Port
insist_write buf p = insist_write_loop (length buf) buf (length buf) p

-- The result of one read: a failure, the end of the stream, or a positive count.
abbrev pub after_read :
    ℤ × List ℕ × Port
    → List ℕ
    → (ℕ → List ℕ → Port → Option ℤ × List ℕ × Port)
    → Option ℤ × List ℕ × Port
after_read (negsuc e, bs, p) got again = (some (negsuc e), got, p)
after_read (pos zero, bs, p) got again = (some (pos zero), got, p)
after_read (pos (suc k), bs, p) got again = again (suc k) (got ++ bs) p

-- `got` is what stands at the start of the buffer so far.
unfoldable pub insist_read_loop : ℕ → ℕ → ℕ → List ℕ → Port → Option ℤ × List ℕ × Port
insist_read_loop fuel zero orig_cnt got p = (some (pos orig_cnt), got, p)
insist_read_loop zero (suc cnt) orig_cnt got p = (none, got, p)
insist_read_loop (suc fuel) (suc cnt) orig_cnt got p =
    after_read (read (suc cnt) p) got
      (λ k got' q. insist_read_loop fuel (suc cnt - k) orig_cnt got' q)

-- The result, the bytes stored from the start of the buffer on, and the descriptor.
unfoldable pub insist_read : ℕ → Port → Option ℤ × List ℕ × Port
insist_read cnt p = insist_read_loop cnt cnt cnt [] p
