-- ===== src/Dispatch/Suggesting.antt =====
-- The handlers of suggestions of internal/server/rooms.go keep, in every room, a property that is closed
-- under the operations on rooms.
use metroserver.Prelude.{
  ℕ, ◌<◌, ◌≡◌, not, Option, none, some, List, [], ◌∷◌, ltb, leb, leb-false→lt, ltb-false→le,
  if_keeps, some_keeps, length, Bytes, nat_eq, bytes_eq_instance, ◌==◌, lookup, insert, delete,
}
use metroserver.Protocol.{
  Message, TrackInfo, SuggestTrackPayload, ApproveSuggestionPayload, RejectSuggestionPayload,
  feature_suggestion_ack,
}
use metroserver.Limits.{
  max_queue_size, max_queue_bytes, max_pending_suggestions, max_suggestions_per_user,
}
use metroserver.Queue.{queue_wire_size}
use metroserver.Playback.{is_known_track}
use metroserver.Validation.{sanitize_track_info}
use metroserver.World.{Suggestion, has_feature, room_clients}
use metroserver.Suggestions.{
  queue_notice, count_mine, add_suggestion, suggest_in_room, handle_suggest_track, approved_room,
  accept_suggestion, approve_track, approve_in_room, handle_approve_suggestion, reject_in_room,
  handle_reject_suggestion,
}
use metroserver.World.{send_error}
use metroserver.World.{set_room, Env, Server, Room, is_some, points_to}
use metroserver.Rooms.{is_active_host}
use metroserver.Dispatch.Operations.{IsClosed}
use metroserver.Dispatch.Closure.{
  RoomsHave, either-RoomsHave, set_room-RoomsHave, send_error-RoomsHave, send_message-RoomsHave,
  reply-RoomsHave, send_message_to_clients-RoomsHave,
}

module _ {P : ℕ → Room → Type 0} (k : IsClosed P) (env : Env) where
  add_suggestion-RoomsHave :
      {s : Server} (c r : ℕ) (t : TrackInfo)
      → RoomsHave P s
      → length (s.room_at r).pending_suggestions < max_pending_suggestions
      → RoomsHave P (add_suggestion env s c r t)
  unfolding add_suggestion
  add_suggestion-RoomsHave {s} c r t h few =
      let room = s.room_at r in
      let client = s.client_at c in
      let id = env.fresh_suggestion_id in
      let suggestion : Suggestion = record {
        id = id;
        from_user_id = client.id;
        from_username = client.username;
        track = some t;
      } in
      let added : RoomsHave P (
          set_room s r
            (record room { pending_suggestions = insert id suggestion room.pending_suggestions })) =
        set_room-RoomsHave r _ h (k.suggest r room id suggestion (h.at r) few) in
      let told =
        some_keeps (RoomsHave P) room.host (λ _. added)
          λ t _.
            either-RoomsHave (is_some room.host_disconnected_at) added
              (send_message-RoomsHave env t _ added) in
      either-RoomsHave (has_feature s c feature_suggestion_ack) (reply-RoomsHave env c _ told) told

  suggest_in_room-RoomsHave :
      {s : Server} (c r : ℕ) (t : TrackInfo)
      → RoomsHave P s
      → RoomsHave P (suggest_in_room env s c r t)
  unfolding suggest_in_room
  suggest_in_room-RoomsHave {s} c r t h =
      let no : (a b : Bytes) → RoomsHave P (send_error env s c a b) =
        λ a b. send_error-RoomsHave env c a b h in
      let room = s.room_at r in
      let client = s.client_at c in
      either-RoomsHave (not (points_to (lookup client.id room.clients) c)) (no _ _) (
        either-RoomsHave (room.state.host_id == client.id) h (
          if_keeps (RoomsHave P) (leb max_pending_suggestions (length room.pending_suggestions))
            (λ _. no _ _)
            λ e.
              some_keeps (RoomsHave P) (count_mine room.pending_suggestions client.id t.id 0)
                (λ _. no _ _)
                λ mine _.
                  either-RoomsHave (leb max_suggestions_per_user mine) (no _ _)
                    (add_suggestion-RoomsHave c r t h (leb-false→lt _ _ e))))

  pub handle_suggest_track-RoomsHave :
      {s : Server} (c : ℕ) (p : Option SuggestTrackPayload)
      → RoomsHave P s
      → RoomsHave P (handle_suggest_track env s c p)
  unfolding handle_suggest_track
  handle_suggest_track-RoomsHave {s} c payload h =
      let no : (a b : Bytes) → RoomsHave P (send_error env s c a b) =
        λ a b. send_error-RoomsHave env c a b h in
      some_keeps (RoomsHave P) payload (λ _. no _ _)
        λ p _.
          some_keeps (RoomsHave P) (s.client_at c).room (λ _. no _ _)
            λ r _.
              some_keeps (RoomsHave P) p.track_info (λ _. no _ _)
                λ raw _.
                  some_keeps (RoomsHave P) (sanitize_track_info raw) (λ _. no _ _)
                    (λ t _. suggest_in_room-RoomsHave c r t h)

  accept_suggestion-RoomsHave :
      {s : Server} (r : ℕ) (id : Bytes) (suggestion : Suggestion) (track : Option TrackInfo)
      (queue : List TrackInfo)
      → RoomsHave P s
      → P r (approved_room env (s.room_at r) id suggestion.from_user_id track queue)
      → RoomsHave P (accept_suggestion env s r id suggestion track queue)
  unfolding accept_suggestion
  accept_suggestion-RoomsHave {s} r id suggestion track queue h hq =
      let told =
        send_message_to_clients-RoomsHave env (room_clients (s.room_at r)) _
          (set_room-RoomsHave r _ h hq) in
      some_keeps (RoomsHave P) (lookup suggestion.from_user_id (s.room_at r).clients) (λ _. told)
        (λ d _. send_message-RoomsHave env d _ told)

  approve_track-RoomsHave :
      {s : Server} (c r : ℕ) (id : Bytes) (suggestion : Suggestion) (raw : TrackInfo)
      → RoomsHave P s
      → lookup id (s.room_at r).pending_suggestions ≡ some suggestion
      → RoomsHave P (approve_track env s c r id suggestion raw)
  unfolding approve_track
  approve_track-RoomsHave {s} c r id suggestion raw h found =
      let no : (a b : Bytes) → RoomsHave P (send_error env s c a b) =
        λ a b. send_error-RoomsHave env c a b h in
      let room = s.room_at r in
      let t = record raw { suggested_by = suggestion.from_username } in
      let queue = t ∷ room.state.queue in
      if_keeps (RoomsHave P) (leb max_queue_size (length room.state.queue)) (λ _. no _ _)
        λ short. either-RoomsHave (is_known_track room.state raw.id) (no _ _) (
          if_keeps (RoomsHave P) (ltb max_queue_bytes (queue_wire_size queue))
            (λ _.
              send_error-RoomsHave env c _ _
                (set_room-RoomsHave r _ h (k.credit env r room id suggestion t (h.at r) found)))
            λ light. accept_suggestion-RoomsHave r id suggestion (some t) queue h (
              k.accept env r room id suggestion.from_user_id t (h.at r) (leb-false→lt _ _ short)
                (ltb-false→le _ _ light)))

  approve_in_room-RoomsHave :
      {s : Server} (c r : ℕ) (id : Bytes)
      → RoomsHave P s
      → RoomsHave P (approve_in_room env s c r id)
  unfolding approve_in_room
  approve_in_room-RoomsHave {s} c r id h =
      let no : (a b : Bytes) → RoomsHave P (send_error env s c a b) =
        λ a b. send_error-RoomsHave env c a b h in
      let room = s.room_at r in
      either-RoomsHave (not (is_active_host room c)) (no _ _) (
        some_keeps (RoomsHave P) (lookup id room.pending_suggestions) (λ _. no _ _)
          λ suggestion found.
            some_keeps (RoomsHave P) suggestion.track
              (λ _.
                accept_suggestion-RoomsHave r id suggestion none room.state.queue h
                  (k.accept_untitled env r room id suggestion.from_user_id (h.at r)))
              (λ raw _. approve_track-RoomsHave c r id suggestion raw h found))

  queue_notice_keeps :
      (r : ℕ) (room : Room) (id : Bytes) (notice : Message)
      → P r room
      → P r (queue_notice room id notice)
  unfolding queue_notice
  queue_notice_keeps r room id notice h =
      let waiting : List Message = elim (lookup id room.pending_notices) [
        | none ↦ []
        | some ms ↦ ms
      ] in
      if_keeps (P r) (is_some (lookup id room.disconnected_users))
        (λ _.
          if_keeps (P r) (ltb (length waiting) max_suggestions_per_user) (λ _. k.notices r room _ h)
            (λ _. h))
        (λ _. h)

  pub handle_approve_suggestion-RoomsHave :
      {s : Server} (c : ℕ) (p : Option ApproveSuggestionPayload)
      → RoomsHave P s
      → RoomsHave P (handle_approve_suggestion env s c p)
  unfolding handle_approve_suggestion
  handle_approve_suggestion-RoomsHave {s} c payload h =
      let no : (a b : Bytes) → RoomsHave P (send_error env s c a b) =
        λ a b. send_error-RoomsHave env c a b h in
      some_keeps (RoomsHave P) payload (λ _. no _ _)
        λ p _. either-RoomsHave (p.suggestion_id == []) (no _ _) (
          some_keeps (RoomsHave P) (s.client_at c).room (λ _. no _ _)
            (λ r _. approve_in_room-RoomsHave c r p.suggestion_id h))

  reject_in_room-RoomsHave :
      {s : Server} (c r : ℕ) (id text : Bytes)
      → RoomsHave P s
      → RoomsHave P (reject_in_room env s c r id text)
  unfolding reject_in_room
  reject_in_room-RoomsHave {s} c r id text h =
      let no : (a b : Bytes) → RoomsHave P (send_error env s c a b) =
        λ a b. send_error-RoomsHave env c a b h in
      let room = s.room_at r in
      let dropped = record room { pending_suggestions = delete id room.pending_suggestions } in
      let hd = k.unsuggest r room id (h.at r) in
      let set : RoomsHave P (set_room s r dropped) = set_room-RoomsHave r dropped h hd in
      either-RoomsHave (not (is_active_host room c)) (no _ _) (
        some_keeps (RoomsHave P) (lookup id room.pending_suggestions) (λ _. no _ _)
          λ suggestion _.
            some_keeps (RoomsHave P)
              (lookup suggestion.from_user_id ((set_room s r dropped).room_at r).clients)
              (λ _. set_room-RoomsHave r _ set (queue_notice_keeps r _ _ _ (set.at r)))
              (λ d _. send_message-RoomsHave env d _ set))

  pub handle_reject_suggestion-RoomsHave :
      {s : Server} (c : ℕ) (p : Option RejectSuggestionPayload)
      → RoomsHave P s
      → RoomsHave P (handle_reject_suggestion env s c p)
  unfolding handle_reject_suggestion
  handle_reject_suggestion-RoomsHave {s} c payload h =
      let no : (a b : Bytes) → RoomsHave P (send_error env s c a b) =
        λ a b. send_error-RoomsHave env c a b h in
      some_keeps (RoomsHave P) payload (λ _. no _ _)
        λ p _. either-RoomsHave (p.suggestion_id == []) (no _ _) (
          some_keeps (RoomsHave P) (s.client_at c).room (λ _. no _ _)
            (λ r _. reject_in_room-RoomsHave c r p.suggestion_id p.reason h))
