-- ===== src/Chat/Start/Network.antt =====
-- The set-up of the socket: it succeeds exactly if each call does.
use cryptodev_chat.Common.{
  ℕ, ◌≡◌, ◌⊎◌, inl, inr, refl, List, Option, none, some, ℤ, pos, negsuc, is_neg,
}
use cryptodev_chat.Run.{ok, exits, exit_if}
use cryptodev_chat.Chat.Start.{
  SockAddr, Sockets, ClientArgs, any_address, tcp_backlog, htons, open_server, open_client,
}

abbrev pub Succeeds : ℤ → Type 0
Succeeds z = (n : ℕ) × (z ≡ pos n)

unfoldable pub Listens : Sockets → Type 0
Listens net =
    Succeeds net.socket × Succeeds (net.bind any_address) × Succeeds (net.listen tcp_backlog)

unfoldable pub Connects : Sockets → ClientArgs → Type 0
Connects net args =
    Succeeds net.socket
    × ((h_addr : List ℕ) × (net.gethostbyname args.hostname ≡ some h_addr)
        × Succeeds
            (net.connect (record { sin_port = htons (net.atoi args.port); sin_addr = h_addr })))

Succeeds-cases :
    (z : ℤ)
    → (Succeeds z × (exit_if (is_neg z) ≡ ok tt))
      ⊎ ((¬ Succeeds z) × (exit_if (is_neg z) ≡ exits 1))
Succeeds-cases (pos n) = inl ((n, refl), refl)
Succeeds-cases (negsuc n) = inr (λ (m, e). cc, refl)

none_or_some : (o : Option (List ℕ)) → (o ≡ none) ⊎ ((bs : List ℕ) × (o ≡ some bs))
none_or_some none = inl refl
none_or_some (some bs) = inr (bs, refl)

pub open_server-Listens :
    (net : Sockets)
    → (Listens net × (open_server net ≡ ok tt)) ⊎ ((¬ Listens net) × (open_server net ≡ exits 1))
unfolding open_server Listens
open_server-Listens net = elim (Succeeds-cases net.socket) [
  | inr (fails, e) ↦ inr (λ (a, b, c). fails a, rw e refl)
  | inl (first, e) ↦ elim (Succeeds-cases (net.bind any_address)) [
    | inr (fails, f) ↦ inr (λ (a, b, c). fails b, rw (e, f) refl)
    | inl (second, f) ↦ elim (Succeeds-cases (net.listen tcp_backlog)) [
      | inr (fails, g) ↦ inr (λ (a, b, c). fails c, rw (e, f, g) refl)
      | inl (third, g) ↦ inl ((first, second, third), rw (e, f, g) refl)
    ]
  ]
]

pub open_client-Connects :
    (net : Sockets) (args : ClientArgs)
    → (Connects net args × (open_client net args ≡ ok tt))
      ⊎ ((¬ Connects net args) × (open_client net args ≡ exits 1))
unfolding open_client Connects
open_client-Connects net args = elim (Succeeds-cases net.socket) [
  | inr (fails, e) ↦ inr (λ h. fails h.0, rw e refl)
  | inl (first, e) ↦ elim (none_or_some (net.gethostbyname args.hostname)) [
    | inl unknown ↦ inr (λ (s, (h_addr, found, c)). cc, rw (e, unknown) refl)
    | inr (h_addr, found) ↦
        let sa : SockAddr = record { sin_port = htons (net.atoi args.port); sin_addr = h_addr } in
        elim (Succeeds-cases (net.connect sa)) [
          | inr (fails, g) ↦ inr (
            λ (s, (h_addr', found', c)). let same : h_addr' ≡ h_addr = cc in fails (rw same at c),
            rw (e, found, g) refl,
          )
          | inl (third, g) ↦ inl ((first, (h_addr, found, third)), rw (e, found, g) refl)
        ]
  ]
]
