-- ===== src/Chat/Start/Args.antt =====
-- What the arguments of a program say.
use mathlib.Core.Bool.{false≢true}
use cryptodev_chat.Common.{
  ℕ, ◌≤◌, ◌≡◌, ◌≢◌, ◌⊎◌, inl, inr, refl, sym, subst, ap, ◌∙◌, List, [], ◌∷◌, Bool, true, false,
  is_equal, is_equal_refl, is_equal→≡, length, arith, Bool-cases,
}
use cryptodev_chat.Run.{ok, exits}
use cryptodev_chat.Chat.Start.{ClientArgs, encrypted_option, server_option, client_option}

-- The last argument: absent, the option, or another string, which is ignored.
pub data OptionArg : List (List ℕ) → Bool → Type 0 where
  absent : OptionArg [] false
  given : OptionArg (encrypted_option ∷ []) true
  ignored : (arg : List ℕ) → arg ≢ encrypted_option → OptionArg (arg ∷ []) false

pub data ServerArgs : List (List ℕ) → Bool → Type 0 where
  server_args :
      (name : List ℕ) (last : List (List ℕ)) (e : Bool)
      → OptionArg last e
      → ServerArgs (name ∷ last) e

pub data IsClientArgs : List (List ℕ) → ClientArgs → Type 0 where
  client_args :
      (name host port : List ℕ) (last : List (List ℕ)) (e : Bool)
      → OptionArg last e
      → IsClientArgs
          (name ∷ host ∷ port ∷ last)
          (record { hostname = host; port = port; encrypted = e })

last-OptionArg : (arg : List ℕ) → OptionArg (arg ∷ []) (is_equal arg encrypted_option)
last-OptionArg arg = elim (Bool-cases (is_equal arg encrypted_option)) [
  | inl e ↦
      let same = is_equal→≡ arg encrypted_option e in
      rw (same, is_equal_refl encrypted_option) given
  | inr e ↦
      subst (OptionArg (arg ∷ [])) (sym e)
        (ignored arg (λ same. false≢true (sym e ∙ rw (same) (is_equal_refl encrypted_option))))
]

OptionArg-size : {last : List (List ℕ)} {e : Bool} → OptionArg last e → length last ≤ 1
OptionArg-size absent = omega arith
OptionArg-size given = omega arith
OptionArg-size (ignored arg h) = omega arith

ServerArgs-size :
    {argv : List (List ℕ)} {e : Bool} → ServerArgs argv e → (1 ≤ length argv) × (length argv ≤ 2)
ServerArgs-size (server_args name last e h) =
    (omega (arith, OptionArg-size h), omega (arith, OptionArg-size h))

IsClientArgs-size :
    {argv : List (List ℕ)} {args : ClientArgs}
    → IsClientArgs argv args
    → (3 ≤ length argv) × (length argv ≤ 4)
IsClientArgs-size (client_args name host port last e h) =
    (omega (arith, OptionArg-size h), omega (arith, OptionArg-size h))

pub server_option-cases :
    (argv : List (List ℕ))
    → ((e : Bool) × ServerArgs argv e × (server_option argv ≡ ok e))
      ⊎ (((e : Bool) → ¬ ServerArgs argv e) × (server_option argv ≡ exits 1))
unfolding server_option
server_option-cases [] = inr (λ e h. omega (arith, ServerArgs-size h), refl)
server_option-cases (name ∷ []) = inl (_, server_args name [] false absent, refl)
server_option-cases (name ∷ arg ∷ []) =
    inl (_, server_args name (arg ∷ []) _ (last-OptionArg arg), refl)
server_option-cases (name ∷ arg ∷ arg' ∷ args) = inr (λ e h. omega (arith, ServerArgs-size h), refl)

pub client_option-cases :
    (argv : List (List ℕ))
    → ((args : ClientArgs) × IsClientArgs argv args × (client_option argv ≡ ok args))
      ⊎ (((args : ClientArgs) → ¬ IsClientArgs argv args) × (client_option argv ≡ exits 1))
unfolding client_option
client_option-cases [] = inr (λ a h. omega (arith, IsClientArgs-size h), refl)
client_option-cases (name ∷ []) = inr (λ a h. omega (arith, IsClientArgs-size h), refl)
client_option-cases (name ∷ host ∷ []) = inr (λ a h. omega (arith, IsClientArgs-size h), refl)
client_option-cases (name ∷ host ∷ port ∷ []) =
    inl (_, client_args name host port [] false absent, refl)
client_option-cases (name ∷ host ∷ port ∷ arg ∷ []) =
    inl (_, client_args name host port (arg ∷ []) _ (last-OptionArg arg), refl)
client_option-cases (name ∷ host ∷ port ∷ arg ∷ arg' ∷ args) =
    inr (λ a h. omega (arith, IsClientArgs-size h), refl)

-- The other way round: arguments that are well formed are read as they are.
is_equal_other : (arg : List ℕ) → arg ≢ encrypted_option → is_equal arg encrypted_option ≡ false
is_equal_other arg h = elim (Bool-cases (is_equal arg encrypted_option)) [
  | inl e ↦ absurd (h (is_equal→≡ arg encrypted_option e))
  | inr e ↦ e
]

pub server_option-ServerArgs :
    {argv : List (List ℕ)} {e : Bool} → ServerArgs argv e → server_option argv ≡ ok e
unfolding server_option
server_option-ServerArgs (server_args name last e absent) = refl
server_option-ServerArgs (server_args name last e given) = ap ok (is_equal_refl encrypted_option)
server_option-ServerArgs (server_args name last e (ignored arg h)) = ap ok (is_equal_other arg h)

pub client_option-IsClientArgs :
    {argv : List (List ℕ)} {args : ClientArgs}
    → IsClientArgs argv args
    → client_option argv ≡ ok args
unfolding client_option
client_option-IsClientArgs (client_args name host port last e absent) = refl
client_option-IsClientArgs (client_args name host port last e given) =
    ap (λ b. ok (record { hostname = host; port = port; encrypted = b }))
      (is_equal_refl encrypted_option)
client_option-IsClientArgs (client_args name host port last e (ignored arg h)) =
    ap (λ b. ok (record { hostname = host; port = port; encrypted = b })) (is_equal_other arg h)
