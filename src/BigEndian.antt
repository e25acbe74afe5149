-- ===== src/BigEndian.antt =====
-- encoding/binary's big-endian uint64, as internal/server/useragents.go and persistence.go store counts and
-- times.
use metroserver.Prelude.{
  ℕ, zero, suc, ◌+◌, ◌*◌, ◌/◌, ◌%◌, ◌<◌, ◌≡◌, refl, ◌∙◌, [], ◌∷◌, ◌++◌, length, length-append,
  Bytes, arith,
}

-- The low bytes of a number, as many as asked for, the highest first.
unfoldable pub put_bytes : ℕ → ℕ → Bytes
put_bytes zero n = []
put_bytes (suc k) n = put_bytes k (n / 256) ++ (n % 256 ∷ [])

-- The number that bytes write, from what the earlier ones wrote.
unfoldable pub get_from : ℕ → Bytes → ℕ
get_from acc [] = acc
get_from acc (b ∷ bs) = get_from (acc * 256 + b) bs

unfoldable pub put_uint64 : ℕ → Bytes
unfolding put_bytes
put_uint64 n = put_bytes 8 n

unfoldable pub uint64 : Bytes → ℕ
unfolding get_from
uint64 bs = get_from 0 bs

-- The numbers of k bytes are those below it.
limit : ℕ → ℕ
limit zero = 1
limit (suc k) = 256 * limit k

get_from-append :
    (acc : ℕ) (xs : Bytes) (b : ℕ) → get_from acc (xs ++ b ∷ []) ≡ get_from acc xs * 256 + b
unfolding get_from
get_from-append acc [] b = refl
get_from-append acc (x ∷ xs) b = get_from-append (acc * 256 + x) xs b

get_from-put_bytes : (k n : ℕ) → n < limit k → get_from 0 (put_bytes k n) ≡ n
unfolding get_from put_bytes limit
get_from-put_bytes zero n h = omega (arith, h)
get_from-put_bytes (suc k) n h =
    let high : get_from 0 (put_bytes k (n / 256)) ≡ n / 256 =
      get_from-put_bytes k (n / 256) (omega (arith, h)) in
    get_from-append 0 (put_bytes k (n / 256)) (n % 256) ∙ omega (arith, high)

length-put_bytes : (k n : ℕ) → length (put_bytes k n) ≡ k
unfolding put_bytes
length-put_bytes zero n = refl
length-put_bytes (suc k) n =
    omega
      (arith, length-append (put_bytes k (n / 256)) (n % 256 ∷ []), length-put_bytes k (n / 256))

pub length-put_uint64 : (n : ℕ) → length (put_uint64 n) ≡ 8
unfolding put_uint64
length-put_uint64 n = length-put_bytes 8 n

-- A uint64 is read back from its eight bytes.
pub uint64-put_uint64 : (n : ℕ) → n < 18_446_744_073_709_551_616 → uint64 (put_uint64 n) ≡ n
unfolding uint64 put_uint64 limit
uint64-put_uint64 n h = get_from-put_bytes 8 n h
