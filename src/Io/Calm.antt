-- ===== src/Io/Calm.antt =====
-- insist_read and insist_write as equations, where no call of the schedule fails.
use cryptodev_chat.Common.{
  take-append, drop-append, length-append, ◌∙◌, ℕ, ◌≤◌, ◌<◌, ◌≡◌, refl, ap, List, [], ◌++◌, Option,
  some, ℤ, pos, length, take, drop, arith,
}
use cryptodev_chat.Io.{Port, Steady, insist_read, insist_write}
use cryptodev_chat.Io.Read.{Fetched, complete, ended, broken, insist_read-Fetched}
use cryptodev_chat.Io.Write.{Written, insist_write-Written}

-- `q` is `p` after the bytes were written.
pub record Sent (p : Port) (bytes : List ℕ) (q : Port) : Type 0 where
  pub outgoing : q.outgoing ≡ p.outgoing ++ bytes
  pub incoming : q.incoming ≡ p.incoming
  pub steady : Steady q.turns

-- `q` is `p` after the bytes of `rest` alone are left on the stream.
pub record Took (p : Port) (rest : List ℕ) (q : Port) : Type 0 where
  pub incoming : q.incoming ≡ rest
  pub outgoing : q.outgoing ≡ p.outgoing
  pub steady : Steady q.turns

Sent-Written :
    (bytes : List ℕ) (n : ℕ) (p : Port) {r : Option ℤ × Port}
    → Steady p.turns
    → Written bytes p n r
    → (r.0 ≡ some (pos n)) × Sent p bytes r.1
Sent-Written bytes n p st (Written.complete e o i t) =
    (e, record { outgoing = o; incoming = i; steady = t st })
Sent-Written bytes n p st (Written.cut k small e o i t) = absurd (t st)

pub insist_write-Sent :
    (bytes : List ℕ) (p : Port)
    → Steady p.turns
    → ((insist_write bytes p).0 ≡ some (pos (length bytes))) × Sent p bytes (insist_write bytes p).1
insist_write-Sent bytes p st = Sent-Written bytes (length bytes) p st (insist_write-Written bytes p)

Took-Fetched :
    (cnt : ℕ) (p : Port) {r : Option ℤ × List ℕ × Port}
    → Steady p.turns
    → cnt ≤ length p.incoming
    → Fetched cnt cnt [] p r
    → (r.0 ≡ some (pos cnt)) × (r.1 ≡ take cnt p.incoming) × Took p (drop cnt p.incoming) r.2
Took-Fetched cnt p st h (complete few e b i o t) =
    (e, b, record { incoming = i; outgoing = o; steady = t st })
Took-Fetched cnt p st h (ended few e b o t) = absurd (omega arith)
Took-Fetched cnt p st h (broken k small e b o t) = absurd (t st)

pub insist_read-Took :
    (cnt : ℕ) (p : Port)
    → Steady p.turns
    → cnt ≤ length p.incoming
    → ((insist_read cnt p).0 ≡ some (pos cnt))
      × ((insist_read cnt p).1 ≡ take cnt p.incoming)
      × Took p (drop cnt p.incoming) (insist_read cnt p).2
insist_read-Took cnt p st h = Took-Fetched cnt p st h (insist_read-Fetched cnt p)

Fetched-short :
    (cnt : ℕ) (p : Port) {r : Option ℤ × List ℕ × Port}
    → Steady p.turns
    → length p.incoming < cnt
    → Fetched cnt cnt [] p r
    → (r.0 ≡ some (pos 0)) × (r.1 ≡ p.incoming) × (r.2.outgoing ≡ p.outgoing)
Fetched-short cnt p st h (complete few e b i o t) = absurd (omega arith)
Fetched-short cnt p st h (ended few e b o t) = (e, b, o)
Fetched-short cnt p st h (broken k small e b o t) = absurd (t st)

-- The stream ends before the count.
pub insist_read-short :
    (cnt : ℕ) (p : Port)
    → Steady p.turns
    → length p.incoming < cnt
    → ((insist_read cnt p).0 ≡ some (pos 0))
      × ((insist_read cnt p).1 ≡ p.incoming)
      × ((insist_read cnt p).2.outgoing ≡ p.outgoing)
insist_read-short cnt p st h = Fetched-short cnt p st h (insist_read-Fetched cnt p)

-- The stream begins with the bytes that are asked for.
pub insist_read-front :
    (front rest : List ℕ) (n : ℕ) (p : Port)
    → length front ≡ n
    → p.incoming ≡ front ++ rest
    → Steady p.turns
    → ((insist_read n p).0 ≡ some (pos n))
      × ((insist_read n p).1 ≡ front)
      × Took p rest (insist_read n p).2
insist_read-front front rest n p size e st =
    let r = insist_read-Took n p st (omega (arith, ap length e, length-append front rest)) in
    (
      r.0,
      r.1 ∙ rw (e, take-append n front rest size) refl,
      record {
        incoming = r.2.incoming ∙ rw (e, drop-append n front rest size) refl;
        outgoing = r.2.outgoing;
        steady = r.2.steady;
      },
    )
