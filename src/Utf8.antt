-- ===== src/Utf8.antt =====
-- UTF-8 as Go's standard library reads it (unicode/utf8, and strings.Map, strings.TrimSpace and
-- strings.ToValidUTF8): what validation.go calls.
use metroserver.Prelude.{
  ℕ, zero, suc, ◌+◌, ◌-◌, ◌*◌, ◌%◌, Bool, true, false, ◌&&◌, ◌||◌, Option, none, some, List, [],
  ◌∷◌, ◌++◌, map, ltb, leb, if◌then◌else◌, take, filter, Bytes, nat_eq, bytes_eq_instance, ◌==◌,
}

-- A decoded rune with its bytes; no rune marks a byte that starts no valid encoding.
pub record Chunk : Type 0 where
  pub rune : Option ℕ
  pub encoding : Bytes

abbrev in_range : ℕ → ℕ → ℕ → Bool
in_range lo hi b = leb lo b && leb b hi

-- The second byte's range depends on the first: no overlong form, no surrogate, at most U+10FFFF.
abbrev second_range : ℕ → ℕ × ℕ
second_range b =
    if b == 0xE0
    then (0xA0, 0xBF)
    else if b == 0xED
    then (0x80, 0x9F)
    else if b == 0xF0
    then (0x90, 0xBF)
    else if b == 0xF4
    then (0x80, 0x8F)
    else (0x80, 0xBF)

decode_two : ℕ → Bytes → Option (ℕ × ℕ)
decode_two b [] = none
decode_two b (c ∷ rest) = if in_range 0x80 0xBF c then some (b % 32 * 64 + c % 64, 2) else none

decode_three : ℕ → Bytes → Option (ℕ × ℕ)
decode_three b [] = none
decode_three b (c ∷ []) = none
decode_three b (c ∷ d ∷ rest) =
    if in_range (second_range b).0 (second_range b).1 c && in_range 0x80 0xBF d
    then some (b % 16 * 4096 + c % 64 * 64 + d % 64, 3)
    else none

decode_four : ℕ → Bytes → Option (ℕ × ℕ)
decode_four b [] = none
decode_four b (c ∷ []) = none
decode_four b (c ∷ d ∷ []) = none
decode_four b (c ∷ d ∷ e ∷ rest) =
    if in_range (second_range b).0 (second_range b).1 c
      && (in_range 0x80 0xBF d && in_range 0x80 0xBF e)
    then some (b % 8 * 262144 + c % 64 * 4096 + d % 64 * 64 + e % 64, 4)
    else none

-- utf8.DecodeRuneInString at a first byte and what follows: the rune and its width.
pub decode_rune : ℕ → Bytes → Option (ℕ × ℕ)
unfolding decode_two decode_three decode_four
decode_rune b rest =
    if ltb b 0x80
    then some (b, 1)
    else if ltb b 0xC2
    then none
    else if ltb b 0xE0
    then decode_two b rest
    else if ltb b 0xF0
    then decode_three b rest
    else if ltb b 0xF5
    then decode_four b rest
    else none

-- The chunks of a string; the number counts the bytes that belong to the last chunk met.
pub chunks_from : ℕ → Bytes → List Chunk
unfolding decode_rune
chunks_from skip [] = []
chunks_from (suc skip) (b ∷ rest) = chunks_from skip rest
chunks_from zero (b ∷ rest) = elim (decode_rune b rest) [
  | none ↦ record { rune = none; encoding = b ∷ [] } ∷ chunks_from 0 rest
  | some (r, width) ↦
      record { rune = some r; encoding = take width (b ∷ rest) } ∷ chunks_from (width - 1) rest
]

unfoldable pub chunks : Bytes → List Chunk
unfolding chunks_from
chunks s = chunks_from 0 s

unfoldable pub concat : List Chunk → Bytes
concat [] = []
concat (c ∷ cs) = c.encoding ++ concat cs

all_runes : List Chunk → Bool
all_runes [] = true
all_runes (c ∷ cs) = elim c.rune [ none ↦ false | some r ↦ all_runes cs ]

-- utf8.ValidString
unfoldable pub valid_string : Bytes → Bool
unfolding all_runes chunks
valid_string s = all_runes (chunks s)

abbrev has_rune : Chunk → Bool
has_rune c = elim c.rune [ none ↦ false | some r ↦ true ]

-- strings.ToValidUTF8(s, "")
unfoldable pub to_valid_utf8 : Bytes → Bytes
unfolding chunks concat
to_valid_utf8 s = concat (filter has_rune (chunks s))

-- U+FFFD, which strings.Map and a range loop read at an invalid byte.
abbrev pub rune_error : ℕ
rune_error = 65533

abbrev rune_error_encoding : Bytes
rune_error_encoding = 0xEF ∷ 0xBF ∷ 0xBD ∷ []

-- strings.Map with a mapping that drops the runes that fail the test and keeps the others.
keep_rune : (ℕ → Bool) → Chunk → Bytes
keep_rune keep c = elim c.rune [
  | none ↦ if keep rune_error then rune_error_encoding else []
  | some r ↦ if keep r then c.encoding else []
]

map_chunks : (ℕ → Bool) → List Chunk → Bytes
unfolding keep_rune
map_chunks keep [] = []
map_chunks keep (c ∷ cs) = keep_rune keep c ++ map_chunks keep cs

unfoldable pub keep_runes : (ℕ → Bool) → Bytes → Bytes
unfolding map_chunks chunks
keep_runes keep s = map_chunks keep (chunks s)

-- unicode.IsSpace
is_space : ℕ → Bool
is_space r =
    in_range 9 13 r
    || r == 32
    || r == 0x85
    || r == 0xA0
    || r == 0x1680
    || in_range 0x2000 0x200A r
    || r == 0x2028
    || r == 0x2029
    || r == 0x202F
    || r == 0x205F
    || r == 0x3000

is_space_chunk : Chunk → Bool
unfolding is_space
is_space_chunk c = elim c.rune [ none ↦ false | some r ↦ is_space r ]

trim_left : List Chunk → List Chunk
trim_left [] = []
trim_left (c ∷ cs) = elim (is_space_chunk c) [ true ↦ trim_left cs | false ↦ c ∷ cs ]

-- A chunk goes if nothing but space follows it.
trim_right : List Chunk → List Chunk
trim_right [] = []
trim_right (c ∷ cs) = elim (trim_right cs) [
  | [] ↦ if is_space_chunk c then [] else c ∷ []
  | d ∷ ds ↦ c ∷ d ∷ ds
]

-- strings.TrimSpace
unfoldable pub trim_space : Bytes → Bytes
unfolding trim_left trim_right is_space_chunk chunks concat
trim_space s = concat (trim_right (trim_left (chunks s)))

-- The runes that a range loop over a string meets.
unfoldable pub runes : Bytes → List ℕ
unfolding chunks
runes s = map (λ c. elim c.rune [ none ↦ rune_error | some r ↦ r ]) (chunks s)
