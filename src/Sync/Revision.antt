-- ===== src/Sync/Revision.antt =====
-- What handlePlaybackAction (internal/server/playback.go) does to the revision of the rooms.
use metroserver.Prelude.{
  ℕ, ◌+◌, ◌%◌, ◌≡◌, refl, sym, ap, subst, ◌⊎◌, inl, inr, Bool, true, false, not, ◌&&◌, Option, none,
  some, [], arith, leb, if_keeps, some_keeps, ℤ, Bytes, nat_eq, bytes_eq_instance, ◌==◌, ==-refl,
}
use metroserver.Protocol.{
  RoomState, PlaybackActionPayload, Action, play, pause, seek, skip_next, skip_prev, change_track,
  queue_add, queue_remove, queue_clear, sync_queue, set_volume, update_track, action_of,
}
use metroserver.Validation.{sanitize_track_info}
use metroserver.World.{Env, Server, Room, points_to, set_room, send_error}
use metroserver.Playback.{
  Verdict, applied, refused, silent, next_revision, apply_action, apply_play, apply_pause,
  apply_seek, apply_change_track, start_track, retitle, apply_queue_add, enqueue_track,
  apply_queue_remove, apply_sync_queue, apply_update_track, apply_set_volume,
}
use metroserver.Playback.Invariant.{Leaves}
use metroserver.Sync.{
  controls_playback, publish_action, settle_action, run_action, sequence_action,
  handle_playback_action,
}
use metroserver.Dispatch.Closure.{
  RoomsHave, either-RoomsHave, set_room-RoomsHave, send_error-RoomsHave,
  send_message_to_clients-RoomsHave,
}

KeepsRevision : RoomState → RoomState → Type 0
KeepsRevision s t = t.revision ≡ s.revision

apply_action-KeepsRevision :
    (a : Option Action) (s : RoomState) (p : PlaybackActionPayload) (now_ms : ℤ) (rtt_ms : ℕ)
    → Leaves (KeepsRevision s) (apply_action a s p now_ms rtt_ms)
unfolding KeepsRevision apply_action apply_play apply_pause apply_seek apply_change_track
    start_track retitle apply_queue_add enqueue_track apply_queue_remove apply_sync_queue
    apply_update_track apply_set_volume
apply_action-KeepsRevision none s p now_ms rtt_ms = refl
apply_action-KeepsRevision (some play) s p now_ms rtt_ms = ground arith
apply_action-KeepsRevision (some pause) s p now_ms rtt_ms = ground arith
apply_action-KeepsRevision (some seek) s p now_ms rtt_ms = ground arith
apply_action-KeepsRevision (some change_track) s p now_ms rtt_ms =
    some_keeps (Leaves (KeepsRevision s)) p.track_info (λ _. refl)
      λ raw _.
        some_keeps (Leaves (KeepsRevision s)) (sanitize_track_info raw) (λ _. refl)
          (λ t _. ground arith)
apply_action-KeepsRevision (some skip_next) s p now_ms rtt_ms = tt
apply_action-KeepsRevision (some skip_prev) s p now_ms rtt_ms = tt
apply_action-KeepsRevision (some queue_add) s p now_ms rtt_ms =
    some_keeps (Leaves (KeepsRevision s)) p.track_info (λ _. refl)
      λ raw _.
        some_keeps (Leaves (KeepsRevision s)) (sanitize_track_info raw) (λ _. refl)
          (λ t _. ground arith)
apply_action-KeepsRevision (some queue_remove) s p now_ms rtt_ms = ground arith
apply_action-KeepsRevision (some queue_clear) s p now_ms rtt_ms = refl
apply_action-KeepsRevision (some sync_queue) s p now_ms rtt_ms = ground arith
apply_action-KeepsRevision (some update_track) s p now_ms rtt_ms = ground arith
apply_action-KeepsRevision (some set_volume) s p now_ms rtt_ms = ground arith

-- The room has the revision that it has in the given server, or the next one.
abbrev pub IsAdvanced : Server → ℕ → Room → Type 0
IsAdvanced s r room =
    (room.state.revision ≡ (s.room_at r).state.revision)
    ⊎ (room.state.revision ≡ next_revision (s.room_at r).state)

-- The room is the one that the client is in and controls; any other is as it was.
abbrev pub IsUntouched : Server → ℕ → ℕ → Room → Type 0
IsUntouched s c q room =
    (points_to (s.client_at c).room q && controls_playback s c (s.room_at q) ≡ true)
    ⊎ (room ≡ s.room_at q)

abbrev pub Outcome : Server → ℕ → ℕ → Room → Type 0
Outcome s c q room = IsAdvanced s q room × IsUntouched s c q room

module _ (env : Env) (s : Server) (c r : ℕ)
    (h : points_to (s.client_at c).room r && controls_playback s c (s.room_at r) ≡ true) where
  settle_action-Outcome :
      (t : Server) (a : Option Action) (v : Verdict)
      → RoomsHave (Outcome s c) t
      → Leaves (KeepsRevision (s.room_at r).state) v
      → RoomsHave (Outcome s c) (settle_action env t c r a v)
  unfolding settle_action publish_action KeepsRevision
  settle_action-Outcome t a (applied state p) ht hv = send_message_to_clients-RoomsHave env _ _ (
      set_room-RoomsHave r _ ht
        (inr (ap (λ (n : ℕ). (n + 1) % 18_446_744_073_709_551_616) hv), inl h))
  settle_action-Outcome t a (refused state e) ht hv =
      send_error-RoomsHave env c _ _ (set_room-RoomsHave r _ ht (inl hv, inl h))
  settle_action-Outcome t a silent ht hv = ht

  run_action-Outcome :
      (t : Server) (p : PlaybackActionPayload)
      → RoomsHave (Outcome s c) t
      → (t.room_at r).state ≡ (s.room_at r).state
      → RoomsHave (Outcome s c) (run_action env t c r p)
  unfolding run_action
  run_action-Outcome t p ht e = settle_action-Outcome t (action_of p.action) _ ht (
      subst
        (λ st.
          Leaves (KeepsRevision (s.room_at r).state)
            (apply_action (action_of p.action) st p env.now_ms (t.client_at c).rtt_ms))
        (sym e)
        (apply_action-KeepsRevision (action_of p.action) (s.room_at r).state p env.now_ms
          (t.client_at c).rtt_ms))

unchanged : (s : Server) (c : ℕ) → RoomsHave (Outcome s c) s
unchanged s c = record { at = λ q. (inl refl, inr refl) }

sequence_action-Outcome :
    (env : Env) (s : Server) (c r : ℕ) (p : PlaybackActionPayload)
    → points_to (s.client_at c).room r && controls_playback s c (s.room_at r) ≡ true
    → RoomsHave (Outcome s c) (sequence_action env s c r p)
unfolding sequence_action
sequence_action-Outcome env s c r p h =
    let room = s.room_at r in
    let noted : Room = record room { last_host_sequence = p.host_sequence } in
    either-RoomsHave (p.host_sequence == 0)
      (run_action-Outcome env s c r h s p (unchanged s c) refl)
      (either-RoomsHave (leb p.host_sequence room.last_host_sequence)
        (send_error-RoomsHave env c _ _ (unchanged s c))
        (run_action-Outcome env s c r h (set_room s r noted) p
          (set_room-RoomsHave r noted (unchanged s c) (inl refl, inl h)) (rw (==-refl r) refl)))

not-false : (b : Bool) → not b ≡ false → b ≡ true
not-false b h = ground arith

-- Whoever sends a playback action, and whatever it says, every room is left as it was unless it is the one
-- the sender is in and controls; and no room's revision changes but by one step.
pub handle_playback_action-Outcome :
    (env : Env) (s : Server) (c : ℕ) (payload : Option PlaybackActionPayload)
    → RoomsHave (Outcome s c) (handle_playback_action env s c payload)
unfolding handle_playback_action points_to
handle_playback_action-Outcome env s c payload =
    let no : (a b : Bytes) → RoomsHave (Outcome s c) (send_error env s c a b) =
      λ a b. send_error-RoomsHave env c a b (unchanged s c) in
    some_keeps (RoomsHave (Outcome s c)) (s.client_at c).room (λ _. no _ _)
      λ r e.
        if_keeps (RoomsHave (Outcome s c)) (not (controls_playback s c (s.room_at r))) (λ _. no _ _)
          λ f.
            some_keeps (RoomsHave (Outcome s c)) payload (λ _. no _ _)
              λ p _.
                either-RoomsHave (p.action == []) (no _ _)
                  (sequence_action-Outcome env s c r _ (rw (e, ==-refl r) (not-false _ f)))
