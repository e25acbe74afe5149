-- ===== src/World/Boxes.antt =====
-- What the send queue of a connection holds (internal/server/client.go).
use metroserver.Prelude.{
  ◌+◌, ◌≤◌, ◌≡◌, refl, ◌⊎◌, inl, inr, true, false, ◌&&◌, [], ◌∷◌, ◌++◌, arith, ltb, leb, Bool-cases,
  if_keeps, length, length-append, nat_eq, bytes_eq_instance,
}
use metroserver.Limits.{send_queue_size, max_queued_bytes}
use metroserver.World.{Outbox, Outgoing, push_outgoing}

pub record IsBounded (o : Outbox) : Type 0 where
  pub queue : length o.send ≤ send_queue_size
  pub bytes : o.queued_bytes ≤ max_queued_bytes

push_outgoing-IsBounded : (o : Outbox) (m : Outgoing) → IsBounded o → IsBounded (push_outgoing o m)
unfolding push_outgoing
push_outgoing-IsBounded o m h =
    if_keeps IsBounded o.closed (λ _. h)
      λ _.
        if_keeps IsBounded
          (leb (o.queued_bytes + m.size) max_queued_bytes && ltb (length o.send) send_queue_size)
          (λ fits. record {
            queue = ground (arith, length-append o.send (m ∷ []));
            bytes = ground arith;
          })
          (λ _. record { queue = h.queue; bytes = h.bytes })

-- Queueing a message keeps the queue within 256 messages and the byte limit, and either the connection is
-- open and the message is the last one of the queue, or the connection is closed and the queue is as before.
pub push_outgoing_lem :
    (o : Outbox) (m : Outgoing)
    → IsBounded o
    → IsBounded (push_outgoing o m)
      × (((push_outgoing o m).closed ≡ false) × ((push_outgoing o m).send ≡ o.send ++ m ∷ [])
          ⊎ ((push_outgoing o m).closed ≡ true) × ((push_outgoing o m).send ≡ o.send))
unfolding push_outgoing
push_outgoing_lem o m h = (
  push_outgoing-IsBounded o m h,
  elim (Bool-cases o.closed) [
    | inl e ↦ inr (ground arith, rw e refl)
    | inr e ↦
        elim (Bool-cases
          (leb (o.queued_bytes + m.size) max_queued_bytes && ltb (length o.send) send_queue_size)) [
            | inl f ↦ inl (ground arith, ground arith)
            | inr f ↦ inr (ground arith, ground arith)
          ]
  ],
)
