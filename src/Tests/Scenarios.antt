-- ===== src/Tests/Scenarios.antt =====
-- What the model computes at concrete inputs.
use metroserver.Prelude.{◌≡◌, refl, false, none, [], nat_eq, bytes_eq_instance}
use metroserver.Protocol.{finite, inf}
use metroserver.Float32.{float32, round_shift, fit_float32, last_place, digits}
use metroserver.Sync.{room_state_hash}
use metroserver.Tests.{idle_state}

-- The checksum of a single newline.
crc_of_newline :
    room_state_hash (record idle_state { current_track = none; queue = [] }) ≡ 0x32D70693
unfolding room_state_hash
crc_of_newline = refl

-- 0.1 as a float64, and as a float32.
float32_of_tenth : float32 (finite false 7_205_759_403_792_794 1018) ≡ finite false 13_421_773 1047
unfolding float32 round_shift fit_float32 last_place digits
float32_of_tenth = refl

-- 2^128 is too large for a float32.
float32_of_large : float32 (finite false 1 1202) ≡ inf false
unfolding float32 round_shift fit_float32 last_place digits
float32_of_large = refl
