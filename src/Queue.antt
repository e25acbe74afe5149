-- ===== src/Queue.antt =====
-- The upcoming queue: the helpers of internal/server/playback.go on lists of tracks.
pub mod Laws
use metroserver.Prelude.{
  ℕ, suc, ◌+◌, ◌≤◌, Bool, false, not, ◌||◌, Option, none, some, List, [], ◌∷◌, if◌then◌else◌,
  length, Bytes, bytes, nat_eq, bytes_eq_instance, ◌==◌,
}
use metroserver.Limits.{max_queue_size, max_queue_bytes}
use metroserver.Protocol.{TrackInfo}
use metroserver.Validation.{sanitize_track_info}

-- The loop of sanitizeQueue; the number counts the tracks kept so far.
unfoldable pub sanitize_from : ℕ → List TrackInfo → List TrackInfo
sanitize_from kept [] = []
sanitize_from kept (track ∷ rest) = elim (sanitize_track_info track) [
  | none ↦ sanitize_from kept rest
  | some t ↦
      let more = sanitize_from (suc kept) rest in
      if suc kept == max_queue_size then t ∷ [] else t ∷ more
]

unfoldable pub sanitize_queue : List TrackInfo → List TrackInfo
unfolding sanitize_from
sanitize_queue queue = sanitize_from 0 queue

abbrev pub track_wire_size : TrackInfo → ℕ
track_wire_size t =
    length t.id
    + length t.title
    + length t.artist
    + length t.album
    + length t.thumbnail
    + length t.suggested_by
    + 32

unfoldable pub queue_wire_size : List TrackInfo → ℕ
queue_wire_size [] = 0
queue_wire_size (t ∷ rest) = track_wire_size t + queue_wire_size rest

unfoldable pub contains_track_id : List TrackInfo → Bytes → Bool
contains_track_id [] id = false
contains_track_id (t ∷ rest) id = t.id == id || contains_track_id rest id

-- The loop of advanceQueue: what follows the first entry with the ID.
unfoldable pub after_track : List TrackInfo → Bytes → Option (List TrackInfo)
after_track [] id = none
after_track (t ∷ rest) id = if t.id == id then some rest else after_track rest id

unfoldable pub advance_queue : List TrackInfo → Bytes → List TrackInfo
unfolding after_track
advance_queue queue id = elim (after_track queue id) [ none ↦ queue | some rest ↦ rest ]

-- The loop of the queue_remove action.
unfoldable pub remove_track : List TrackInfo → Bytes → List TrackInfo
remove_track [] id = []
remove_track (t ∷ rest) id =
    let kept = remove_track rest id in if not (t.id == id) then t ∷ kept else kept

-- The limits that every stored queue keeps.
pub record IsBounded (queue : List TrackInfo) : Type 0 where
  pub size : length queue ≤ max_queue_size
  pub bytes : queue_wire_size queue ≤ max_queue_bytes
