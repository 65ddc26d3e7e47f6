-- ===== src/Chat/Start.antt =====
-- socket-client.c, socket-server.c and socket-server-irc.c, main up to its loop: the arguments, the
-- question for the prompt, and the set-up of the socket.
--
-- argv is a list of strings; `memory` is what malloc(100) has returned for the prompt. The calls of the
-- network are fields of `Sockets`.
pub mod Args
pub mod Network
pub mod Outcome
use cryptodev_chat.Common.{
  ℕ, zero, suc, ◌/◌, ◌%◌, ◌-◌, List, [], ◌∷◌, ◌++◌, Option, none, some, Bool, true, false, ℤ, pos,
  negsuc, is_neg, is_equal,
}
use cryptodev_chat.Run.{Run, ok, exits, faults, ◌>>=◌, ◌>>◌, exit_if}
use cryptodev_chat.Chat.Buffer.{poke}

abbrev pub tcp_port : ℕ
tcp_port = 35001

abbrev pub tcp_backlog : ℕ
tcp_backlog = 5

abbrev pub prompt_size : ℕ
prompt_size = 100

-- The fields that main sets, in network byte order.
pub record SockAddr : Type 0 where
  pub sin_port : List ℕ
  pub sin_addr : List ℕ

-- `gethostbyname` gives the four bytes of h_addr, `listen` takes the backlog.
pub record Sockets : Type 0 where
  pub socket : ℤ
  pub bind : SockAddr → ℤ
  pub listen : ℕ → ℤ
  pub gethostbyname : List ℕ → Option (List ℕ)
  pub connect : SockAddr → ℤ
  pub atoi : List ℕ → ℤ

-- htons(port) for an int, as its two bytes
abbrev pub htons : ℤ → List ℕ
htons (pos n) = (n / 256 % 256) ∷ (n % 256) ∷ []
htons (negsuc n) = (255 - n / 256 % 256) ∷ (255 - n % 256) ∷ []

abbrev pub any_address : SockAddr
any_address = record { sin_port = htons (pos tcp_port); sin_addr = 0 ∷ 0 ∷ 0 ∷ 0 ∷ [] }

abbrev pub encrypted_option : List ℕ
encrypted_option = b'-' ∷ b'-' ∷ b'e' ∷ b'n' ∷ b'c' ∷ b'r' ∷ b'y' ∷ b'p' ∷ b't' ∷ b'e' ∷ b'd' ∷ []

-- argv of the two servers: is `encrypted` set?
unfoldable pub server_option : List (List ℕ) → Run Bool
server_option [] = exits 1
server_option (name ∷ []) = ok false
server_option (name ∷ arg ∷ []) = ok (is_equal arg encrypted_option)
server_option (name ∷ arg ∷ arg' ∷ args) = exits 1

pub record ClientArgs : Type 0 where
  pub hostname : List ℕ
  pub port : List ℕ
  pub encrypted : Bool

unfoldable pub client_option : List (List ℕ) → Run ClientArgs
client_option (name ∷ host ∷ port ∷ []) =
    ok (record { hostname = host; port = port; encrypted = false })
client_option (name ∷ host ∷ port ∷ arg ∷ []) =
    ok (record { hostname = host; port = port; encrypted = is_equal arg encrypted_option })
client_option (name ∷ host ∷ port ∷ arg ∷ arg' ∷ args) = exits 1
client_option (name ∷ host ∷ []) = exits 1
client_option (name ∷ []) = exits 1
client_option [] = exits 1

-- scanf("%s", prompt), where `none` is the end of the input
unfoldable pub scan_prompt : List ℕ → Option (List ℕ) → Run (List ℕ)
scan_prompt prompt none = ok prompt
scan_prompt prompt (some word) = poke prompt 0 (word ++ 0 ∷ [])

-- The string at the start of an array, which ends before the first NUL.
unfoldable pub c_string : List ℕ → Run (List ℕ)
c_string [] = faults
c_string (zero ∷ bs) = ok []
c_string (suc b ∷ bs) = c_string bs >>= λ str. ok (suc b ∷ str)

abbrev found_host : Option (List ℕ) → Run (List ℕ)
found_host none = exits 1
found_host (some h_addr) = ok h_addr

module _ (net : Sockets) where
  unfoldable pub open_server : Run (Unit {0})
  open_server = do
    exit_if (is_neg net.socket)
    exit_if (is_neg (net.bind any_address))
    exit_if (is_neg (net.listen tcp_backlog))

  unfoldable pub open_client : ClientArgs → Run (Unit {0})
  open_client args = do
    exit_if (is_neg net.socket)
    h_addr ← found_host (net.gethostbyname args.hostname)
    exit_if
        (is_neg (net.connect (record { sin_port = htons (net.atoi args.port); sin_addr = h_addr })))

  -- socket-server.c: `encrypted` and the array of the prompt
  unfoldable pub one_start : List (List ℕ) → List ℕ → Option (List ℕ) → Run (Bool × List ℕ)
  one_start argv memory word = do
    encrypted ← server_option argv
    prompt ← scan_prompt memory word
    open_server
    ok (encrypted, prompt)

  -- socket-server-irc.c: `encrypted`
  unfoldable pub irc_start : List (List ℕ) → Run Bool
  irc_start argv = do encrypted ← server_option argv; open_server; ok encrypted

  -- socket-client.c: `encrypted` and the array of the prompt
  unfoldable pub client_start : List (List ℕ) → List ℕ → Option (List ℕ) → Run (Bool × List ℕ)
  client_start argv memory word = do
    args ← client_option argv
    prompt ← scan_prompt memory word
    open_client args
    ok (args.encrypted, prompt)
