-- ===== src/Dispatch/Limits.antt =====
-- The limits of a room, internal/server/server.go, in every reachable state.
use metroserver.Prelude.{
  ℕ, refl, none, some, List, ◌∷◌, arith, nat_eq, bytes_eq_instance, length-insert_known,
  length-delete-le,
}
use metroserver.Queue.{queue_wire_size}
use metroserver.Playback.Invariant.{apply_action-IsSound}
use metroserver.World.{Env}
use metroserver.Suggestions.{credit_suggestion}
use metroserver.Connections.{new_server}
use metroserver.Dispatch.{Event, run}
use metroserver.Dispatch.Operations.{IsClosed}
use metroserver.Dispatch.Closure.{RoomsHave}
use metroserver.Dispatch.Steps.{run-RoomsHave}
use metroserver.Playback.{apply_action}
use metroserver.Dispatch.Tables.{
  IsWithinLimits, within, same_queue, forget_user-within, seat_host-within, park_member-within,
  reseat-within, approved_room-within, play-within, new_room-within, within_pend, within_suggest,
  admitted_room-within,
}

new_server-within : (start_time : ℕ) → RoomsHave IsWithinLimits (new_server start_time)
unfolding new_server queue_wire_size
new_server-within start_time = record {
  at = λ r. record {
    sound = record {
      size = omega arith;
      bytes = omega arith;
      position_nonneg = ground arith;
      position_bound = ground arith;
    };
    members = omega arith;
    applicants = omega arith;
    suggestions = omega arith;
  };
}

-- Every operation on a room keeps it within its limits: the playback state, the members and those away,
-- the applicants and the suggestions.
pub IsWithinLimits-IsClosed : IsClosed IsWithinLimits
unfolding credit_suggestion
IsWithinLimits-IsClosed = record {
  pend = λ r room id c h few. within_pend r room id c h few;
  unpend = λ r room id h.
      within room _ h h.sound (omega arith) (length-delete-le id room.pending_joins) (omega arith);
  unpend_all = λ r room h. within room _ h h.sound (omega arith) (omega arith) (omega arith);
  mark_empty = λ r room since h. within room _ h h.sound (omega arith) (omega arith) (omega arith);
  shut = λ r room h. within room _ h h.sound (omega arith) (omega arith) (omega arith);
  seat = λ r s room c h. seat_host-within r room h s c;
  own = λ r room id h. within room _ h h.sound (omega arith) (omega arith) (omega arith);
  forget = λ r room id h. forget_user-within r room h id;
  drop_member = λ r room id h.
      within room _ h h.sound (omega (arith, length-delete-le id room.clients)) (omega arith)
        (omega arith);
  drop_away = λ r room id h.
      within room _ h h.sound (omega (arith, length-delete-le id room.disconnected_users))
        (omega arith) (omega arith);
  park = λ env r room c id session h found. park_member-within r room h env c id session found;
  retake = λ env r room c id session h found. reseat-within r room h env c id session found;
  admit = λ env s r joining id h few. admitted_room-within env s r joining id h few;
  notices = λ r room m h. within room _ h h.sound (omega arith) (omega arith) (omega arith);
  found = new_room-within;
  sequence = λ r room n h. within room _ h h.sound (omega arith) (omega arith) (omega arith);
  play = λ r room a p now_ms rtt_ms h.
      play-within r room (apply_action a room.state p now_ms rtt_ms) h
        (apply_action-IsSound a room.state p now_ms rtt_ms h.sound);
  publish = λ r room state revision track_revision h.
      within (record room { state = state }) _ h (same_queue state _ h.sound refl refl)
        (omega arith) (omega arith) (omega arith);
  suggest = λ r room id suggestion h few. within_suggest r room id suggestion h few;
  unsuggest = λ r room id h.
      within room _ h h.sound (omega arith) (omega arith)
        (length-delete-le id room.pending_suggestions);
  credit = λ env r room id suggestion t h found.
      within room _ h h.sound (omega arith) (omega arith)
        (length-insert_known id suggestion _ room.pending_suggestions found);
  accept_untitled = λ env r room id from h.
      approved_room-within r env room id from none room.state.queue h h.sound.size h.sound.bytes;
  accept = λ env r room id from t h short light.
      approved_room-within r env room id from (some t) (t ∷ room.state.queue) h (omega arith) light;
}

-- Whatever happens to a server that starts without rooms, every room is within its limits at every time:
-- at most 100 members with those away, 100 applicants and 100 suggestions, and a sound playback state.
pub run-IsWithinLimits :
    (start_time : ℕ) (events : List (Env × Event))
    → RoomsHave IsWithinLimits (run (new_server start_time) events)
run-IsWithinLimits start_time events =
    run-RoomsHave IsWithinLimits-IsClosed events (new_server start_time)
      (new_server-within start_time)
