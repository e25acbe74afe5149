-- ===== src/Float32.antt =====
-- The conversion of a Go float64 into a float32, as internal/server/codec.go uses it for the volume:
-- to the nearest value that fits, ties to the even mantissa. A float32 is the float64 of its value.
use metroserver.Prelude.{
  ℕ, zero, suc, ◌+◌, ◌-◌, ◌*◌, ◌/◌, ◌%◌, ◌^◌, Bool, if◌then◌else◌, ltb, leb, nat_eq, ◌==◌,
}
use metroserver.Protocol.{Float64, nan, inf, finite}

abbrev pub Float32 : Type 0
Float32 = Float64

-- The number of binary digits of a number, counted up to `fuel`; a mantissa has at most 53.
unfoldable pub digits : ℕ → ℕ → ℕ
digits zero m = 0
digits (suc fuel) m = let rest = digits fuel (m / 2) in if m == 0 then 0 else suc rest

-- m / 2^k to the nearest integer, a tie to the even one.
unfoldable pub round_shift : ℕ → ℕ → ℕ
round_shift m k =
    let q = m / 2 ^ k in
    let twice = 2 * (m % 2 ^ k) in
    if ltb twice (2 ^ k) then q else if ltb (2 ^ k) twice then q + 1 else q + q % 2

-- A value of at least 2^128 is an infinity.
unfoldable pub fit_float32 : Bool → ℕ → ℕ → Float32
unfolding digits
fit_float32 negative m e = if ltb 1202 (digits 64 m + e) then inf negative else finite negative m e

-- The last of the 24 digits, or 2^-149 for a subnormal value.
unfoldable pub last_place : ℕ → ℕ → ℕ
unfolding digits
last_place m e = let place = digits 64 m + e - 24 in if ltb place 925 then 925 else place

unfoldable pub float32 : Float64 → Float32
unfolding round_shift fit_float32 last_place
float32 nan = nan
float32 (inf negative) = inf negative
float32 (finite negative m e) =
    let place = last_place m e in
    if leb place e
    then fit_float32 negative m e
    else fit_float32 negative (round_shift m (place - e)) place
