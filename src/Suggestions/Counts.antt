-- ===== src/Suggestions/Counts.antt =====
-- The loop of handleSuggestTrack (internal/server/rooms.go) over the pending suggestions.
-- A pending suggestion of the user for the track.
use metroserver.Prelude.{
  ℕ, ◌+◌, ◌≡◌, ap, Bool, false, ◌&&◌, ◌||◌, none, some, [], ◌∷◌, arith, if◌then◌else◌, length,
  filter, Bytes, nat_eq, bytes_eq_instance, ◌==◌, Map,
}
use metroserver.World.{Suggestion}
use metroserver.Suggestions.{count_mine, suggests_track}

abbrev pub has_suggested : Map Bytes Suggestion → Bytes → Bytes → Bool
has_suggested [] user_id track_id = false
has_suggested ((id, p) ∷ rest) user_id track_id =
    p.from_user_id == user_id && suggests_track p track_id || has_suggested rest user_id track_id

-- The loop answers with a duplicate exactly if the user has suggested the track already, and otherwise with
-- the number of their pending suggestions, added to the count it starts from.
pub count_mine_lem :
    (m : Map Bytes Suggestion) (user_id track_id : Bytes) (mine : ℕ)
    → count_mine m user_id track_id mine ≡ (
        if has_suggested m user_id track_id
        then none
        else some (mine + length (filter (λ e. e.1.from_user_id == user_id) m)))
unfolding count_mine
count_mine_lem [] user_id track_id mine = ap some (omega arith)
count_mine_lem ((id, p) ∷ rest) user_id track_id mine = ground (
  arith,
  count_mine_lem rest user_id track_id mine,
  count_mine_lem rest user_id track_id (mine + 1),
)
