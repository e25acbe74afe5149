-- ===== src/Dispatch/HostFlags.antt =====
-- The host flags of a room's user list, internal/server/hosts.go, in every reachable state.
-- Only the user whose ID is the host's may be flagged as the host.
use metroserver.Prelude.{
  ℕ, ◌≡◌, refl, sym, subst, Bool, true, false, not, ◌&&◌, Option, none, some, List, [], ◌∷◌, map,
  arith, if_keeps, some_keeps, All, All-append, All-filter, ℤ, Bytes, nat_eq, bytes_eq_instance,
  ◌==◌, ==-refl, lookup,
}
use metroserver.Protocol.{
  Message, RoomState, TrackInfo, UserInfo, PlaybackActionPayload, Action, play, pause, seek,
  skip_next, skip_prev, change_track, queue_add, queue_remove, queue_clear, sync_queue, set_volume,
  update_track,
}
use metroserver.Validation.{sanitize_track_info}
use metroserver.World.{Env, Room, is_some, remove_user_suggestions, without_user, set_connected}
use metroserver.Playback.{
  Verdict, applied, refused, silent, apply_action, apply_play, apply_pause, apply_seek,
  apply_change_track, start_track, retitle, apply_queue_add, enqueue_track, apply_queue_remove,
  apply_sync_queue, apply_update_track, apply_set_volume,
}
use metroserver.Playback.Invariant.{Leaves}
use metroserver.Hosts.{seat_host, mark_host, host_id_of}
use metroserver.Lifecycle.{forget_user, park_member}
use metroserver.Reconnect.{reseat}
use metroserver.Members.{admitted_room}
use metroserver.Suggestions.{queue_notice, credit_suggestion, approved_room}
use metroserver.Rooms.{new_room}
use metroserver.Connections.{new_server}
use metroserver.Dispatch.{Event, run}
use metroserver.Dispatch.Operations.{IsClosed}
use metroserver.Dispatch.Closure.{RoomsHave}
use metroserver.Dispatch.Steps.{run-RoomsHave}

abbrev pub IsFlaggedFor : Bytes → UserInfo → Type 0
IsFlaggedFor host_id u = u.is_host && not (u.user_id == host_id) ≡ false

abbrev pub HasHostFlags : ℕ → Room → Type 0
HasHostFlags r room = All (IsFlaggedFor room.state.host_id) room.state.users

set_connected-flags :
    (users : List UserInfo) (id host_id : Bytes) (b : Bool)
    → All (IsFlaggedFor host_id) users
    → All (IsFlaggedFor host_id) (set_connected users id b)
unfolding set_connected
set_connected-flags [] id host_id b h = tt
set_connected-flags (u ∷ rest) id host_id b (h, hs) =
    if_keeps (All (IsFlaggedFor host_id)) (u.user_id == id) (λ _. (h, hs))
      (λ _. (h, set_connected-flags rest id host_id b hs))

mark_host-flags :
    (users : List UserInfo) (host_id : Bytes)
    → All (IsFlaggedFor host_id) (map (mark_host host_id) users)
mark_host-flags [] host_id = tt
mark_host-flags (u ∷ rest) host_id = (ground arith, mark_host-flags rest host_id)

-- No action touches the users or the host.
abbrev KeepsUsers : RoomState → RoomState → Type 0
KeepsUsers s t = (t.users ≡ s.users) × (t.host_id ≡ s.host_id)

apply_action-KeepsUsers :
    (a : Option Action) (s : RoomState) (p : PlaybackActionPayload) (now_ms : ℤ) (rtt_ms : ℕ)
    → Leaves (KeepsUsers s) (apply_action a s p now_ms rtt_ms)
unfolding apply_action apply_play apply_pause apply_seek apply_change_track start_track retitle
    apply_queue_add enqueue_track apply_queue_remove apply_sync_queue apply_update_track
    apply_set_volume
apply_action-KeepsUsers none s p now_ms rtt_ms = (refl, refl)
apply_action-KeepsUsers (some play) s p now_ms rtt_ms = ground arith
apply_action-KeepsUsers (some pause) s p now_ms rtt_ms = ground arith
apply_action-KeepsUsers (some seek) s p now_ms rtt_ms = ground arith
apply_action-KeepsUsers (some change_track) s p now_ms rtt_ms =
    some_keeps (Leaves (KeepsUsers s)) p.track_info (λ _. (refl, refl))
      λ raw _.
        some_keeps (Leaves (KeepsUsers s)) (sanitize_track_info raw) (λ _. (refl, refl))
          (λ t _. ground arith)
apply_action-KeepsUsers (some skip_next) s p now_ms rtt_ms = tt
apply_action-KeepsUsers (some skip_prev) s p now_ms rtt_ms = tt
apply_action-KeepsUsers (some queue_add) s p now_ms rtt_ms =
    some_keeps (Leaves (KeepsUsers s)) p.track_info (λ _. (refl, refl))
      λ raw _.
        some_keeps (Leaves (KeepsUsers s)) (sanitize_track_info raw) (λ _. (refl, refl))
          (λ t _. ground arith)
apply_action-KeepsUsers (some queue_remove) s p now_ms rtt_ms = ground arith
apply_action-KeepsUsers (some queue_clear) s p now_ms rtt_ms = (refl, refl)
apply_action-KeepsUsers (some sync_queue) s p now_ms rtt_ms = ground arith
apply_action-KeepsUsers (some update_track) s p now_ms rtt_ms = ground arith
apply_action-KeepsUsers (some set_volume) s p now_ms rtt_ms = ground arith

keeps_flags :
    (s t : RoomState)
    → KeepsUsers s t
    → All (IsFlaggedFor s.host_id) s.users
    → All (IsFlaggedFor t.host_id) t.users
keeps_flags s t (u, i) h =
    subst (λ x. All (IsFlaggedFor x) t.users) (sym i)
      (subst (All (IsFlaggedFor s.host_id)) (sym u) h)

play-flags :
    (r : ℕ) (room : Room) (v : Verdict)
    → HasHostFlags r room
    → Leaves (KeepsUsers room.state) v
    → Leaves (λ state. HasHostFlags r (record room { state = state })) v
play-flags r room (applied state p) h k = keeps_flags room.state state k h
play-flags r room (refused state e) h k = keeps_flags room.state state k h
play-flags r room silent h k = k

queue_notice-state :
    (room : Room) (id : Bytes) (m : Message) → (queue_notice room id m).state ≡ room.state
unfolding queue_notice
queue_notice-state room id m = ground arith

approved-flags :
    (r : ℕ) (env : Env) (room : Room) (id from : Bytes) (track : Option TrackInfo)
    (queue : List TrackInfo)
    → HasHostFlags r room
    → HasHostFlags r (approved_room env room id from track queue)
unfolding approved_room
approved-flags r env room id from track queue h =
    if_keeps (HasHostFlags r) (is_some (lookup from room.clients)) (λ _. h)
      (λ _. subst (λ st. All (IsFlaggedFor st.host_id) st.users) (sym (queue_notice-state _ _ _)) h)

pub HasHostFlags-IsClosed : IsClosed HasHostFlags
unfolding forget_user remove_user_suggestions without_user seat_host park_member reseat
    admitted_room new_room credit_suggestion
HasHostFlags-IsClosed = record {
  pend = λ r room id c h few. h;
  unpend = λ r room id h. h;
  unpend_all = λ r room h. h;
  mark_empty = λ r room since h. h;
  shut = λ r room h. h;
  seat = λ r s room c h. mark_host-flags room.state.users (host_id_of s c);
  own = λ r room id h. h;
  forget = λ r room id h. All-filter _ _ room.state.users h;
  drop_member = λ r room id h. h;
  drop_away = λ r room id h. h;
  park = λ env r room c id session h found. set_connected-flags room.state.users id _ false h;
  retake = λ env r room c id session h found. set_connected-flags room.state.users id _ true h;
  admit = λ env s r joining id h few. All-append _ (s.room_at r).state.users _ h (refl, tt);
  notices = λ r room m h. h;
  found = λ env r code id username c. (rw (==-refl id) refl, tt);
  sequence = λ r room n h. h;
  play = λ r room a p now_ms rtt_ms h.
      play-flags r room (apply_action a room.state p now_ms rtt_ms) h
        (apply_action-KeepsUsers a room.state p now_ms rtt_ms);
  publish = λ r room state revision track_revision h. h;
  suggest = λ r room id suggestion h few. h;
  unsuggest = λ r room id h. h;
  credit = λ env r room id suggestion t h found. h;
  accept_untitled =
      λ env r room id from h. approved-flags r env room id from none room.state.queue h;
  accept = λ env r room id from t h short light.
      approved-flags r env room id from (some t) (t ∷ room.state.queue) h;
}

-- Whatever happens to a server that starts without rooms, in every room only entries of the user list with
-- the host's ID are flagged as the host.
pub run-HasHostFlags :
    (start_time : ℕ) (events : List (Env × Event))
    → RoomsHave HasHostFlags (run (new_server start_time) events)
unfolding new_server
run-HasHostFlags start_time events =
    run-RoomsHave HasHostFlags-IsClosed events (new_server start_time) (record { at = λ r. tt })
