-- ===== src/Suggestions.antt =====
-- internal/server/rooms.go: the suggestions that guests make and the host decides about. A payload that
-- does not decode is none.
pub mod Counts
use metroserver.Prelude.{
  ℕ, ◌+◌, Bool, true, false, not, ◌&&◌, Option, none, some, List, [], ◌∷◌, ◌++◌, ltb, leb,
  if◌then◌else◌, length, Bytes, bytes, nat_eq, bytes_eq_instance, ◌==◌, Map, lookup, insert, delete,
}
use metroserver.Limits.{
  max_pending_suggestions, max_suggestions_per_user, max_queue_size, max_queue_bytes,
}
use metroserver.Protocol.{
  TrackInfo, RoomState, PlaybackActionPayload, zero_playback, SuggestTrackPayload,
  ApproveSuggestionPayload, RejectSuggestionPayload, Message, sync_playback, suggestion_received,
  suggestion_approved, suggestion_rejected, suggestion_submitted, feature_suggestion_ack,
  action_name, queue_add,
}
use metroserver.Validation.{sanitize_string, sanitize_track_info}
use metroserver.Queue.{queue_wire_size}
use metroserver.Playback.{is_known_track, next_revision}
use metroserver.World.{
  Env, Server, Room, Suggestion, set_room, points_to, is_some, has_feature, send_message, reply,
  send_error, send_message_to_clients, room_clients,
}
use metroserver.Rooms.{is_active_host}

-- queueNoticeLocked: a message for a member who is away, ten at most.
unfoldable pub queue_notice : Room → Bytes → Message → Room
queue_notice room user_id notice =
    let waiting : List Message = elim (lookup user_id room.pending_notices) [
      | none ↦ []
      | some ms ↦ ms
    ] in
    if is_some (lookup user_id room.disconnected_users)
    then if ltb (length waiting) max_suggestions_per_user
      then record room {
        pending_notices = insert user_id (waiting ++ notice ∷ []) room.pending_notices;
      }
      else room
    else room

unfoldable pub suggests_track : Suggestion → Bytes → Bool
suggests_track suggestion track_id = elim suggestion.track [
  | none ↦ false
  | some t ↦ t.id == track_id
]

-- The loop over the pending suggestions: none if the user suggested the track already, and otherwise
-- how many suggestions of theirs are pending.
unfoldable pub count_mine : Map Bytes Suggestion → Bytes → Bytes → ℕ → Option ℕ
unfolding suggests_track
count_mine [] user_id track_id mine = some mine
count_mine ((id, pending) ∷ rest) user_id track_id mine =
    let counted =
      count_mine rest user_id track_id
        (if pending.from_user_id == user_id then mine + 1 else mine) in
    if pending.from_user_id == user_id && suggests_track pending track_id then none else counted

module _ (env : Env) where
  unfoldable pub add_suggestion : Server → ℕ → ℕ → TrackInfo → Server
  add_suggestion s c r t =
      let room = s.room_at r in
      let client = s.client_at c in
      let id = env.fresh_suggestion_id in
      let added = set_room s r (record room {
        pending_suggestions =
            insert id
              (record {
                id = id;
                from_user_id = client.id;
                from_username = client.username;
                track = some t;
              })
              room.pending_suggestions;
      }) in
      let notification = suggestion_received (record {
        suggestion_id = id;
        from_user_id = client.id;
        from_username = client.username;
        track_info = some t;
      }) in
      let told : Server = elim room.host [
        | none ↦ added
        | some h ↦
            if is_some room.host_disconnected_at
            then added
            else send_message env added h notification
      ] in
      if has_feature s c feature_suggestion_ack
      then reply env told c
          (suggestion_submitted (record { suggestion_id = id; track_info = some t }))
      else told

  unfoldable pub suggest_in_room : Server → ℕ → ℕ → TrackInfo → Server
  suggest_in_room s c r t =
      let room = s.room_at r in
      let client = s.client_at c in
      if not (points_to (lookup client.id room.clients) c)
      then send_error env s c (bytes "not_in_room") (bytes "You are not in a room")
      else if room.state.host_id == client.id
      then s
      else if leb max_pending_suggestions (length room.pending_suggestions)
      then send_error env s c (bytes "suggestions_full") (bytes "Too many pending suggestions")
      else elim (count_mine room.pending_suggestions client.id t.id 0) [
        | none ↦
            send_error env s c (bytes "duplicate_suggestion")
              (bytes "You already suggested this track")
        | some mine ↦
            if leb max_suggestions_per_user mine
            then send_error env s c (bytes "too_many_suggestions")
                (bytes "You have too many pending suggestions")
            else add_suggestion s c r t
      ]

  unfoldable pub handle_suggest_track : Server → ℕ → Option SuggestTrackPayload → Server
  handle_suggest_track s c payload = elim payload [
    | none ↦ send_error env s c (bytes "invalid_payload") (bytes "Invalid suggest track payload")
    | some p ↦ elim (s.client_at c).room [
      | none ↦ send_error env s c (bytes "not_in_room") (bytes "You are not in a room")
      | some r ↦ elim p.track_info [
        | none ↦ send_error env s c (bytes "missing_track_info") (bytes "Track info is required")
        | some raw ↦ elim (sanitize_track_info raw) [
          | none ↦
              send_error env s c (bytes "invalid_track_info") (bytes "Track must have ID and title")
          | some t ↦ suggest_in_room s c r t
        ]
      ]
    ]
  ]

  -- Tells the guest, or keeps the notice while they are away.
  abbrev notify_guest : Server → ℕ → Bytes → Message → Server
  notify_guest s r user_id notice = elim (lookup user_id (s.room_at r).clients) [
    | none ↦ set_room s r (queue_notice (s.room_at r) user_id notice)
    | some d ↦ send_message env s d notice
  ]

  -- The broadcast of an approved suggestion.
  unfoldable pub approval_action : RoomState → Option TrackInfo → PlaybackActionPayload
  approval_action state track = record zero_playback {
    action = action_name queue_add;
    track_info = track;
    insert_next = true;
    queue = state.queue;
    server_time = env.now_ms;
    revision = next_revision state;
  }

  -- The room after an approval; the notice to a guest who is away comes with it.
  unfoldable pub approved_room : Room → Bytes → Bytes → Option TrackInfo → List TrackInfo → Room
  approved_room room id from track queue =
      let added = record room {
        pending_suggestions = delete id room.pending_suggestions;
        state = record room.state { queue = queue; revision = next_revision room.state };
      } in
      if is_some (lookup from room.clients)
      then added
      else queue_notice added from
          (suggestion_approved (record { suggestion_id = id; track_info = track }))

  unfoldable pub accept_suggestion :
      Server → ℕ → Bytes → Suggestion → Option TrackInfo → List TrackInfo → Server
  accept_suggestion s r id suggestion track queue =
      let room = s.room_at r in
      let from = suggestion.from_user_id in
      let told =
        send_message_to_clients env (set_room s r (approved_room room id from track queue))
          (room_clients room)
          (sync_playback (approval_action (record room.state { queue = queue }) track)) in
      elim (lookup from room.clients) [
        | none ↦ told
        | some d ↦
            send_message env told d
              (suggestion_approved (record { suggestion_id = id; track_info = track }))
      ]

  -- The suggested track is named after the guest even if the queue turns out too large.
  unfoldable pub credit_suggestion : Room → Bytes → Suggestion → TrackInfo → Room
  credit_suggestion room id suggestion t = record room {
    pending_suggestions = insert id (record suggestion { track = some t }) room.pending_suggestions;
  }

  unfoldable pub approve_track : Server → ℕ → ℕ → Bytes → Suggestion → TrackInfo → Server
  approve_track s c r id suggestion raw =
      let room = s.room_at r in
      let t = record raw { suggested_by = suggestion.from_username } in
      let queue = t ∷ room.state.queue in
      if leb max_queue_size (length room.state.queue)
      then send_error env s c (bytes "queue_full") (bytes "Queue is full")
      else if is_known_track room.state raw.id
      then send_error env s c (bytes "duplicate_track") (bytes "Track is already playing or queued")
      else if ltb max_queue_bytes (queue_wire_size queue)
      then send_error env (set_room s r (credit_suggestion room id suggestion t)) c
          (bytes "queue_too_large") (bytes "Queue is too large")
      else accept_suggestion s r id suggestion (some t) queue

  unfoldable pub approve_in_room : Server → ℕ → ℕ → Bytes → Server
  approve_in_room s c r id =
      let room = s.room_at r in
      if not (is_active_host room c)
      then send_error env s c (bytes "not_host") (bytes "Only the host can approve suggestions")
      else elim (lookup id room.pending_suggestions) [
        | none ↦ send_error env s c (bytes "suggestion_not_found") (bytes "Suggestion not found")
        | some suggestion ↦ elim suggestion.track [
          | none ↦ accept_suggestion s r id suggestion none room.state.queue
          | some raw ↦ approve_track s c r id suggestion raw
        ]
      ]

  unfoldable pub handle_approve_suggestion : Server → ℕ → Option ApproveSuggestionPayload → Server
  handle_approve_suggestion s c payload = elim payload [
    | none ↦
        send_error env s c (bytes "invalid_payload") (bytes "Invalid approve suggestion payload")
    | some p ↦
        if p.suggestion_id == []
        then send_error env s c (bytes "missing_suggestion_id") (bytes "Suggestion ID is required")
        else elim (s.client_at c).room [
          | none ↦ send_error env s c (bytes "not_in_room") (bytes "You are not in a room")
          | some r ↦ approve_in_room s c r p.suggestion_id
        ]
  ]

  unfoldable pub reject_in_room : Server → ℕ → ℕ → Bytes → Bytes → Server
  reject_in_room s c r id text =
      let room = s.room_at r in
      if not (is_active_host room c)
      then send_error env s c (bytes "not_host") (bytes "Only the host can reject suggestions")
      else elim (lookup id room.pending_suggestions) [
        | none ↦ send_error env s c (bytes "suggestion_not_found") (bytes "Suggestion not found")
        | some suggestion ↦
            let dropped = record room {
              pending_suggestions = delete id room.pending_suggestions;
            } in
            notify_guest (set_room s r dropped) r suggestion.from_user_id (
              suggestion_rejected
                (record { suggestion_id = id; reason = sanitize_string text 200 }))
      ]

  unfoldable pub handle_reject_suggestion : Server → ℕ → Option RejectSuggestionPayload → Server
  handle_reject_suggestion s c payload = elim payload [
    | none ↦
        send_error env s c (bytes "invalid_payload") (bytes "Invalid reject suggestion payload")
    | some p ↦
        if p.suggestion_id == []
        then send_error env s c (bytes "missing_suggestion_id") (bytes "Suggestion ID is required")
        else elim (s.client_at c).room [
          | none ↦ send_error env s c (bytes "not_in_room") (bytes "You are not in a room")
          | some r ↦ reject_in_room s c r p.suggestion_id p.reason
        ]
  ]
