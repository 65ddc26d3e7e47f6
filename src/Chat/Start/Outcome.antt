-- ===== src/Chat/Start/Outcome.antt =====
-- Which of its outcomes the start of a program has.
use cryptodev_chat.Common.{
  ℕ, ◌+◌, ◌≤◌, ◌<◌, ◌≡◌, ◌⊎◌, inl, inr, refl, ap, ◌∙◌, List, [], ◌∷◌, ◌++◌, Option, none, some,
  Bool, length, drop, arith, length-append, Bool-cases, append_assoc, leb, leb→le,
}
use cryptodev_chat.Run.{Run, ok, exits, faults, ◌>>=◌, ◌>>◌}
use cryptodev_chat.Chat.Buffer.{poke_front, poke_overruns}
use cryptodev_chat.Chat.Start.{
  Sockets, ClientArgs, prompt_size, server_option, client_option, scan_prompt, open_server,
  open_client, one_start, irc_start, client_start,
}
use cryptodev_chat.Chat.Start.Args.{
  ServerArgs, IsClientArgs, server_option-cases, client_option-cases, server_option-ServerArgs,
  client_option-IsClientArgs,
}
use cryptodev_chat.Chat.Start.Network.{Listens, Connects, open_server-Listens, open_client-Connects}

-- The array of the prompt after the question: unchanged at the end of the input, else the word with
-- its NUL at the start.
pub data Asked (memory : List ℕ) : Option (List ℕ) → List ℕ → Type 0 where
  no_answer : Asked memory none memory
  answer :
      (word : List ℕ)
      → length word < prompt_size
      → Asked memory (some word) (word ++ 0 ∷ drop (length word + 1) memory)

-- The outcomes of a start with the arguments `Args` asks for and the calls `Opens` asks for.
pub data Outcome {A : Type 0} (Args : A → Type 0) (Opens : A → Type 0) (flag : A → Bool)
    (memory : List ℕ) (word : Option (List ℕ)) (r : Run (Bool × List ℕ)) : Type 0 where
  usage : ((a : A) → ¬ Args a) → r ≡ exits 1 → Outcome Args Opens flag memory word r
  overrun :
      (a : A) (w : List ℕ)
      → Args a
      → word ≡ some w
      → prompt_size ≤ length w
      → r ≡ faults
      → Outcome Args Opens flag memory word r
  refused :
      (a : A) (prompt : List ℕ)
      → Args a
      → Asked memory word prompt
      → ¬ Opens a
      → r ≡ exits 1
      → Outcome Args Opens flag memory word r
  ready :
      (a : A) (prompt : List ℕ)
      → Args a
      → Asked memory word prompt
      → Opens a
      → r ≡ ok (flag a, prompt)
      → Outcome Args Opens flag memory word r

pub scan_prompt-answer :
    (memory word : List ℕ)
    → length memory ≡ prompt_size
    → length word < prompt_size
    → scan_prompt memory (some word) ≡ ok (word ++ 0 ∷ drop (length word + 1) memory)
unfolding scan_prompt
scan_prompt-answer memory word size lt =
    let long = length-append word (0 ∷ []) in
    poke_front memory (word ++ 0 ∷ []) (length word + 1) (omega arith) (omega arith)
    ∙ ap ok (append_assoc word (0 ∷ []) (drop (length word + 1) memory))

scan_prompt-cases :
    (memory : List ℕ) (word : Option (List ℕ))
    → length memory ≡ prompt_size
    → ((w : List ℕ) × (word ≡ some w)
        × (prompt_size ≤ length w)
        × (scan_prompt memory word ≡ faults))
      ⊎ ((prompt : List ℕ) × Asked memory word prompt × (scan_prompt memory word ≡ ok prompt))
unfolding scan_prompt
scan_prompt-cases memory none size = inr (memory, no_answer, refl)
scan_prompt-cases memory (some w) size =
    let long = length-append w (0 ∷ []) in
    elim (Bool-cases (leb prompt_size (length w))) [
      | inl e ↦
          let le = leb→le prompt_size (length w) e in
          inl (w, refl, le, poke_overruns memory 0 (w ++ 0 ∷ []) (omega arith))
      | inr e ↦
          let lt : length w < prompt_size = ground arith in
          inr (_, answer w lt, scan_prompt-answer memory w size lt)
    ]

-- The option, the question and the socket, in this order.
start-Outcome :
    {A : Type 0} (Args Opens : A → Type 0) (flag : A → Bool) (parsed : Run A)
    (open_net : A → Run (Unit {0})) (memory : List ℕ) (word : Option (List ℕ))
    → ((a : A) × Args a × (parsed ≡ ok a)) ⊎ (((a : A) → ¬ Args a) × (parsed ≡ exits 1))
    → ((a : A) → (Opens a × (open_net a ≡ ok tt)) ⊎ ((¬ Opens a) × (open_net a ≡ exits 1)))
    → length memory ≡ prompt_size
    → Outcome Args Opens flag memory word
        (parsed >>= λ a. scan_prompt memory word >>= λ prompt. open_net a >> ok (flag a, prompt))
start-Outcome Args Opens flag parsed open_net memory word args opens size = elim args [
  | inr (none_fits, e) ↦ usage none_fits (rw e refl)
  | inl (a, fit, e) ↦ elim (scan_prompt-cases memory word size) [
    | inl (w, is_word, long, f) ↦ overrun a w fit is_word long (rw (e, f) refl)
    | inr (prompt, asked, f) ↦ elim (opens a) [
      | inr (fails, g) ↦ refused a prompt fit asked fails (rw (e, f, g) refl)
      | inl (opened, g) ↦ ready a prompt fit asked opened (rw (e, f, g) refl)
    ]
  ]
]

module _ (net : Sockets) (argv : List (List ℕ)) (memory : List ℕ) (word : Option (List ℕ))
    (size : length memory ≡ prompt_size) where
  -- socket-server.c has one of four outcomes before its loop, where the array of the prompt has 100
  -- bytes: with no or more than one argument behind the name it exits with 1; else, where the answer
  -- to the question has 100 bytes or more, it writes behind the array; else, where socket, bind or
  -- listen fails, it exits with 1; else `encrypted` is set exactly if the argument is --encrypted, and
  -- the array holds the answer and a NUL, or what it held where the input was at its end.
  pub one_start-Outcome :
      Outcome
        (ServerArgs argv)
        (λ e. Listens net)
        (λ e. e)
        memory
        word
        (one_start net argv memory word)
  unfolding one_start
  one_start-Outcome =
      start-Outcome (ServerArgs argv) (λ e. Listens net) (λ e. e) (server_option argv)
        (λ e. open_server net) memory word (server_option-cases argv) (λ e. open_server-Listens net)
        size

  -- socket-client.c, with an array of 100 bytes for the prompt, before its loop: exit 1 on other than two
  -- or three arguments, else a write behind the array on an answer of 100 bytes or more, else exit 1
  -- where socket, the lookup of the host name or the connect to its address and to the port of the
  -- second argument fails, else the option, which is the third argument, is set and the array holds
  -- the answer and a NUL, or what it held where the input was at its end.
  pub client_start-Outcome :
      Outcome
        (IsClientArgs argv)
        (Connects net)
        (λ args. args.encrypted)
        memory
        word
        (client_start net argv memory word)
  unfolding client_start
  client_start-Outcome =
      start-Outcome (IsClientArgs argv) (Connects net) (λ args. args.encrypted) (client_option argv)
        (open_client net) memory word (client_option-cases argv) (open_client-Connects net) size

module _ (net : Sockets) (argv : List (List ℕ)) (memory : List ℕ)
    (size : length memory ≡ prompt_size) where
  -- socket-server-irc.c starts as socket-server.c does where the question changes nothing.
  irc_start-one_start :
      one_start net argv memory none ≡ (irc_start net argv >>= λ e. ok (e, memory))
  unfolding one_start irc_start scan_prompt
  irc_start-one_start = elim (server_option-cases argv) [
    | inr (fails, e) ↦ rw e refl
    | inl (flag, args, e) ↦ elim (open_server-Listens net) [
      | inr (fails, f) ↦ rw (e, f) refl
      | inl (opened, f) ↦ rw (e, f) refl
    ]
  ]

  -- A start in which nothing goes wrong, with an answer that fits.
  pub one_start-ready :
      {e : Bool} (word : List ℕ)
      → ServerArgs argv e
      → Listens net
      → length word < prompt_size
      → one_start net argv memory (some word) ≡ ok (e, word ++ 0 ∷ drop (length word + 1) memory)
  unfolding one_start
  one_start-ready word args listens lt = elim (open_server-Listens net) [
    | inl (l, e) ↦
        rw (server_option-ServerArgs args, scan_prompt-answer memory word size lt, e) refl
    | inr (fails, e) ↦ absurd (fails listens)
  ]

  pub client_start-ready :
      (args : ClientArgs) (word : List ℕ)
      → IsClientArgs argv args
      → Connects net args
      → length word < prompt_size
      → client_start net argv memory (some word)
        ≡ ok (args.encrypted, word ++ 0 ∷ drop (length word + 1) memory)
  unfolding client_start
  client_start-ready args word h connects lt = elim (open_client-Connects net args) [
    | inl (l, e) ↦ rw (client_option-IsClientArgs h, scan_prompt-answer memory word size lt, e) refl
    | inr (fails, e) ↦ absurd (fails connects)
  ]
