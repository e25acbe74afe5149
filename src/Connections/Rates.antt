-- ===== src/Connections/Rates.antt =====
-- The limits that internal/server/server.go and client.go put on connections and messages.
use metroserver.Prelude.{
  ℕ, suc, ◌+◌, ◌-◌, ◌≤◌, ◌<◌, ◌≡◌, refl, ◌⊎◌, inl, inr, true, false, some, List, [], ◌∷◌, arith,
  leb, if◌then◌else◌, leb-false→lt, Bool-cases, All, Bytes, nat_eq, bytes_eq_instance, ◌==◌, ==-iff,
  ==-refl, Map, insert, delete, lookup-insert, lookup-delete,
}
use metroserver.Limits.{max_connections_per_source, message_rate_window, max_messages_per_window}
use metroserver.World.{RateWindow}
use metroserver.Connections.{
  begin_window, allow_message, source_count, acquire_source, release_source,
}

-- How many of the messages that arrive at the times are let through.
unfoldable pub admitted_messages : RateWindow → List ℕ → ℕ
admitted_messages w [] = 0
admitted_messages w (now ∷ rest) =
    let (allowed, v) = allow_message w now in
    let more = admitted_messages v rest in if allowed then suc more else more

allow_message_inside :
    (w : RateWindow) (t now : ℕ)
    → w.start ≡ some t
    → now < t + message_rate_window
    → w.count ≤ max_messages_per_window
    → ((allow_message w now).1.start ≡ some t)
      × ((allow_message w now).1.count ≤ max_messages_per_window)
      × ((if (allow_message w now).0 then 1 else 0) + w.count ≡ (allow_message w now).1.count)
unfolding allow_message begin_window
allow_message_inside w t now e early few = ground arith

-- Of the messages that arrive before a window is over, whatever their number, at most 60 are let through
-- with those that the window has counted already.
pub admitted_messages-le :
    (w : RateWindow) (t : ℕ) (times : List ℕ)
    → w.start ≡ some t
    → All (λ now. now < t + message_rate_window) times
    → w.count ≤ max_messages_per_window
    → admitted_messages w times + w.count ≤ max_messages_per_window
unfolding admitted_messages
admitted_messages-le w t [] e early few = omega arith
admitted_messages-le w t (now ∷ rest) e (h, hs) few =
    let (e', few', q) = allow_message_inside w t now e h few in
    let more = admitted_messages-le (allow_message w now).1 t rest e' hs few' in ground arith

source_count-insert :
    (sources : Map Bytes ℕ) (k j : Bytes) (n : ℕ)
    → source_count (insert k n sources) j ≡ (if k == j then n else source_count sources j)
unfolding source_count
source_count-insert sources k j n = ground (arith, lookup-insert k j n sources)

source_count-delete :
    (sources : Map Bytes ℕ) (k j : Bytes)
    → source_count (delete k sources) j ≡ (if k == j then 0 else source_count sources j)
unfolding source_count
source_count-delete sources k j = ground (arith, lookup-delete k j sources)

-- Releasing a source takes one from its count and leaves every other source alone.
release_source_lem :
    (sources : Map Bytes ℕ) (source j : Bytes)
    → source_count (release_source sources source) j
      ≡ (if source == j then source_count sources source - 1 else source_count sources j)
unfolding release_source
release_source_lem sources source j = ground (
  arith,
  source_count-delete sources source j,
  source_count-insert sources source j (source_count sources source - 1),
)

-- A source below its limit of 32 connections gets one more, no other source is touched, and releasing it
-- again gives every count back; at the limit the request is refused and nothing changes.
pub acquire_source_lem :
    (sources : Map Bytes ℕ) (source other : Bytes)
    → ((source_count sources source < max_connections_per_source)
        × ((acquire_source sources source).0 ≡ true)
        × (source_count (acquire_source sources source).1 other ≡ (
            if source == other
            then source_count sources source + 1
            else source_count sources other))
        × (source_count (release_source (acquire_source sources source).1 source) other
            ≡ source_count sources other))
      ⊎ ((max_connections_per_source ≤ source_count sources source)
          × (acquire_source sources source ≡ (false, sources)))
unfolding acquire_source
acquire_source_lem sources source other =
    let n = source_count sources source + 1 in
    let more = insert source n sources in
    elim (Bool-cases (leb max_connections_per_source (source_count sources source))) [
      | inl full ↦ inr (ground arith, rw full refl)
      | inr room ↦ inl (
        leb-false→lt _ _ room,
        rw room refl,
        ground (arith, source_count-insert sources source other n),
        ground (
          arith,
          release_source_lem more source other,
          source_count-insert sources source other n,
          source_count-insert sources source source n,
          ==-refl source,
          ==-iff source other,
        ),
      )
    ]
