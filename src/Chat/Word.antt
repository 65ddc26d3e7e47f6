-- ===== src/Chat/Word.antt =====
-- htonl and ntohl with the memcpy around them: the four bytes, in network order, of a uint32_t.
use cryptodev_chat.Common.{
  ◌++◌, length, refl, ℕ, ◌+◌, ◌*◌, ◌/◌, ◌%◌, ◌^◌, ◌≡◌, List, [], ◌∷◌, arith,
}

abbrev pub u32 : ℕ → ℕ
u32 n = n % 2 ^ 32

-- uint32_t w = htonl(n); memcpy(p, &w, sizeof(w))
unfoldable pub htonl : ℕ → List ℕ
htonl n = u32 n / 0x1000000 ∷ u32 n / 0x10000 % 0x100 ∷ u32 n / 0x100 % 0x100 ∷ u32 n % 0x100 ∷ []

-- memcpy(&w, p, sizeof(w)); ntohl(w)
unfoldable pub ntohl : List ℕ → ℕ
ntohl (a ∷ b ∷ c ∷ d ∷ bs) = a * 0x1000000 + b * 0x10000 + c * 0x100 + d
ntohl _ = 0

pub ntohl-htonl : (n : ℕ) → ntohl (htonl n) ≡ n % 2 ^ 32
unfolding ntohl htonl
ntohl-htonl n = omega arith

pub length-htonl : (n : ℕ) → length (htonl n) ≡ 4
unfolding htonl
length-htonl n = refl

-- Only the first four bytes are read.
pub ntohl-htonl-append : (n : ℕ) (bs : List ℕ) → ntohl (htonl n ++ bs) ≡ n % 2 ^ 32
unfolding ntohl htonl
ntohl-htonl-append n bs = omega arith
