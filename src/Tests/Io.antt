-- ===== src/Tests/Io.antt =====
-- socket-common.c, insist_read and insist_write at given schedules.
use cryptodev_chat.Common.{◌≡◌, refl, [], ◌∷◌, some, negsuc}
use cryptodev_chat.Io.{
  Port, upto, failing, read, write, insist_read, insist_read_loop, insist_write, insist_write_loop,
}
use cryptodev_chat.Io.Read.{Fetched, insist_read-Fetched}
use cryptodev_chat.Io.Write.{Written, insist_write-Written}

-- Five bytes to come; the first read may take two, the second three.
abbrev trickle : Port
trickle = record {
  incoming = 1 ∷ 2 ∷ 3 ∷ 4 ∷ 5 ∷ [];
  outgoing = [];
  turns = upto 1 ∷ upto 2 ∷ failing ∷ [];
}

reads_four : (insist_read 4 trickle).1 ≡ 1 ∷ 2 ∷ 3 ∷ 4 ∷ []
unfolding insist_read insist_read_loop read
reads_four = refl

write_fails : (insist_write (1 ∷ 2 ∷ 3 ∷ 4 ∷ 5 ∷ 6 ∷ []) trickle).0 ≡ some (negsuc 0)
unfolding insist_write insist_write_loop write
write_fails = refl

insist_read-Fetched_example : Fetched 4 4 [] trickle (insist_read 4 trickle)
insist_read-Fetched_example = insist_read-Fetched 4 trickle

insist_write-Written_example :
    Written (7 ∷ 8 ∷ 9 ∷ []) trickle 3 (insist_write (7 ∷ 8 ∷ 9 ∷ []) trickle)
insist_write-Written_example = insist_write-Written (7 ∷ 8 ∷ 9 ∷ []) trickle
