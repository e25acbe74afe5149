-- ===== src/Playback/Queueing.antt =====
-- The queue_add action: what is added, and why nothing is.
use metroserver.Prelude.{
  ◌≤◌, ◌<◌, ◌≡◌, refl, true, false, none, some, List, [], ◌∷◌, ◌++◌, length, length-append, leb,
  ltb, leb→le, leb-false→lt, ltb→lt, ltb-false→le, if◌then◌else◌, if_keeps, some_keeps, ==-refl,
  ||-false, arith, Bytes, nat_eq, bytes_eq_instance, ◌==◌,
}
use metroserver.Limits.{max_queue_size, max_queue_bytes}
use metroserver.Protocol.{TrackInfo, RoomState, PlaybackActionPayload}
use metroserver.Validation.{sanitize_track_info}
use metroserver.Validation.Bounds.{IsClean, sanitize_track_info-some}
use metroserver.Queue.{queue_wire_size, contains_track_id, IsBounded}
use metroserver.Queue.Laws.{other_entries}
use metroserver.Playback.{
  Verdict, applied, refused, silent, is_known_track, enqueue_track, apply_queue_add,
}

-- The track is in the new queue: first or last, the others being the old queue, which had no such entry; and nothing else
-- of the state has changed.
pub record IsAdded (s : RoomState) (p : PlaybackActionPayload) (s' : RoomState) (t : TrackInfo)
    : Type 0 where
  pub clean : IsClean t
  pub unknown : is_known_track s t.id ≡ false
  pub found : contains_track_id s'.queue t.id ≡ true
  pub rest : other_entries t.id s'.queue ≡ s.queue
  pub place : s'.queue ≡ (if p.insert_next then t ∷ s.queue else s.queue ++ t ∷ [])
  pub bounded : IsBounded s'.queue
  pub same : record s' { queue = s.queue } ≡ s

-- Why a track is refused.
pub data Reason (s : RoomState) (p : PlaybackActionPayload) : Type 0 where
  missing : p.track_info ≡ none → Reason s p
  invalid :
      (raw : TrackInfo) → p.track_info ≡ some raw → sanitize_track_info raw ≡ none → Reason s p
  full : max_queue_size ≤ length s.queue → Reason s p
  duplicate :
      (raw t : TrackInfo)
      → p.track_info ≡ some raw
      → sanitize_track_info raw ≡ some t
      → is_known_track s t.id ≡ true
      → Reason s p
  large :
      (raw t : TrackInfo)
      → p.track_info ≡ some raw
      → sanitize_track_info raw ≡ some t
      → max_queue_bytes < queue_wire_size (if p.insert_next then t ∷ s.queue else s.queue ++ t ∷ [])
      → Reason s p

abbrev pub Queues : RoomState → PlaybackActionPayload → Verdict → Type 0
Queues s p (applied s' p') = (t : TrackInfo) × IsAdded s p s' t
Queues s p (refused s' e) = (s' ≡ s) × Reason s p
Queues s p silent = ⊥

other_entries-absent :
    (queue : List TrackInfo) (id : Bytes)
    → contains_track_id queue id ≡ false
    → other_entries id queue ≡ queue
unfolding contains_track_id
other_entries-absent [] id h = refl
other_entries-absent (t ∷ rest) id h = ground (arith, other_entries-absent rest id, h)

other_entries-last :
    (queue : List TrackInfo) (t : TrackInfo)
    → contains_track_id queue t.id ≡ false
    → other_entries t.id (queue ++ t ∷ []) ≡ queue
unfolding contains_track_id
other_entries-last [] t h = rw (==-refl t.id)
other_entries-last (u ∷ rest) t h = ground (arith, other_entries-last rest t, h)

contains_track_id-last :
    (queue : List TrackInfo) (t : TrackInfo) → contains_track_id (queue ++ t ∷ []) t.id ≡ true
unfolding contains_track_id
contains_track_id-last [] t = rw (==-refl t.id)
contains_track_id-last (u ∷ rest) t = ground (arith, contains_track_id-last rest t)

module _ (s : RoomState) (p : PlaybackActionPayload) where
  absent : (id : Bytes) → is_known_track s id ≡ false → contains_track_id s.queue id ≡ false
  unfolding is_known_track
  absent id h =
      (||-false (elim s.current_track [ none ↦ false | some t ↦ t.id == id ])
        (contains_track_id s.queue id) h).1

  added :
      (t : TrackInfo)
      → IsClean t
      → is_known_track s t.id ≡ false
      → length s.queue < max_queue_size
      → queue_wire_size (if p.insert_next then t ∷ s.queue else s.queue ++ t ∷ []) ≤ max_queue_bytes
      → IsAdded s p
          (record s { queue = if p.insert_next then t ∷ s.queue else s.queue ++ t ∷ [] })
          t
  unfolding contains_track_id
  added t clean unknown room fits = record {
    clean = clean;
    unknown = unknown;
    found =
        if_keeps (λ queue. contains_track_id queue t.id ≡ true) p.insert_next
          (λ _. rw (==-refl t.id)) (λ _. contains_track_id-last s.queue t);
    rest =
        if_keeps (λ queue. other_entries t.id queue ≡ s.queue) p.insert_next
          (λ _. rw (==-refl t.id) (other_entries-absent s.queue t.id (absent t.id unknown)))
          (λ _. other_entries-last s.queue t (absent t.id unknown));
    place = refl;
    bounded = record {
      size =
          if_keeps (λ (queue : List TrackInfo). length queue ≤ max_queue_size) p.insert_next
            (λ _. omega (arith, room)) (λ _. omega (arith, room, length-append s.queue (t ∷ [])));
      bytes = fits;
    };
    same = refl;
  }

  enqueue_track-Queues :
      (raw t : TrackInfo)
      → p.track_info ≡ some raw
      → sanitize_track_info raw ≡ some t
      → Queues s p (enqueue_track s p t)
  unfolding enqueue_track
  enqueue_track-Queues raw t e f =
      let queue = if p.insert_next then t ∷ s.queue else s.queue ++ t ∷ [] in
      if_keeps (Queues s p) (leb max_queue_size (length s.queue)) (λ h. (refl, full (leb→le _ _ h)))
        (λ room.
          if_keeps (Queues s p) (is_known_track s t.id) (λ h. (refl, duplicate raw t e f h))
            (λ unknown.
              if_keeps (Queues s p) (ltb max_queue_bytes (queue_wire_size queue))
                (λ h. (refl, large raw t e f (ltb→lt _ _ h)))
                (λ fits. (
                  t,
                  added t (sanitize_track_info-some raw t f).0 unknown (leb-false→lt _ _ room)
                      (ltb-false→le _ _ fits),
                ))))

  -- What a queue_add does. Applied, it puts a clean track that was neither playing nor queued first or last in the queue,
  -- as the payload asks; the other entries are those of the old queue, in their order, the new queue is within its
  -- limits, and nothing else of the state changes. Refused, it keeps the whole state, and there is a reason: no
  -- track, an invalid one, a full queue, a track that is playing or queued, or a new queue that would be too large.
  pub apply_queue_add_lem : Queues s p (apply_queue_add s p)
  unfolding apply_queue_add
  apply_queue_add_lem =
      some_keeps (Queues s p) p.track_info (λ e. (refl, missing e))
        (λ raw e.
          some_keeps (Queues s p) (sanitize_track_info raw) (λ f. (refl, invalid raw e f))
            (λ t f. enqueue_track-Queues raw t e f))
