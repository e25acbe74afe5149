-- ===== src/Validation/Bounds.antt =====
-- Sizes and ranges that validation.go guarantees.
use metroserver.Prelude.{
  ℕ, zero, suc, ◌-◌, ◌≤◌, ◌≡◌, true, some, arith, length, length-take-le, ℤ, pos, ◌≤ℤ◌, Bytes,
  nat_eq, bytes_eq_instance,
}
use metroserver.Limits.{
  max_username_length, max_track_title_length, max_track_artist_length, max_track_url_length,
  max_track_duration,
}
use metroserver.Protocol.{TrackInfo}
use metroserver.Validation.{
  find_cut, limit_length, sanitize_string, valid_track_id, clamp_duration, sanitize_title,
  sanitize_track_info,
}

find_cut-le : (s : Bytes) (max_len tries i : ℕ) → i ≤ max_len → find_cut s max_len tries i ≤ max_len
unfolding find_cut
find_cut-le s max_len zero i h = omega arith
find_cut-le s max_len (suc tries) i h = ground (arith, find_cut-le s max_len tries (i - 1))

pub length-limit_length : (s : Bytes) (max_len : ℕ) → length (limit_length s max_len) ≤ max_len
unfolding limit_length
length-limit_length s max_len =
    ground (arith, find_cut-le s max_len 4 max_len, length-take-le (find_cut s max_len 4 max_len) s)

-- A sanitized text has at most as many bytes as asked for.
pub length-sanitize_string :
    (s : Bytes) (max_len : ℕ) → length (sanitize_string s max_len) ≤ max_len
unfolding sanitize_string
length-sanitize_string s max_len = length-limit_length _ max_len

-- What every stored track satisfies.
pub record IsClean (t : TrackInfo) : Type 0 where
  pub id_valid : valid_track_id t.id ≡ true
  pub title_bound : length t.title ≤ max_track_title_length
  pub artist_bound : length t.artist ≤ max_track_artist_length
  pub album_bound : length t.album ≤ max_track_artist_length
  pub thumbnail_bound : length t.thumbnail ≤ max_track_url_length
  pub suggested_by_bound : length t.suggested_by ≤ max_username_length
  pub duration_nonneg : pos 0 ≤ℤ t.duration
  pub duration_bound : t.duration ≤ℤ pos max_track_duration

length-sanitize_title : (t : TrackInfo) → length (sanitize_title t) ≤ max_track_title_length
unfolding sanitize_title
length-sanitize_title t = ground (
  arith,
  length-sanitize_string t.title max_track_title_length,
  length-sanitize_string t.id max_track_title_length,
)

clamp_duration_bounds :
    (d : ℤ) → (pos 0 ≤ℤ clamp_duration d) × (clamp_duration d ≤ℤ pos max_track_duration)
unfolding clamp_duration
clamp_duration_bounds d = ground arith

-- A track that sanitizeTrackInfo accepts has a valid ID, which is the one it came with, bounded texts, and
-- a duration between 0 and 24 hours.
pub sanitize_track_info-some :
    (t t' : TrackInfo) → sanitize_track_info t ≡ some t' → IsClean t' × (t'.id ≡ t.id)
unfolding sanitize_track_info
sanitize_track_info-some t t' h = ground (
  arith,
  length-sanitize_title t,
  length-sanitize_string t.artist max_track_artist_length,
  length-sanitize_string t.album max_track_artist_length,
  length-sanitize_string t.thumbnail max_track_url_length,
  length-sanitize_string t.suggested_by max_username_length,
  clamp_duration_bounds t.duration,
)
