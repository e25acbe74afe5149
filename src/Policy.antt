-- ===== src/Policy.antt =====
-- internal/server/uapolicy.go: what the server does with a client, by its User-Agent, and how it
-- rewrites what such a client receives. The Unicode case tables of strings.ToLower are a parameter.
pub mod Laws
use metroserver.Prelude.{
  ℕ, ◌+◌, ◌*◌, ◌/◌, ◌%◌, Bool, true, false, ◌&&◌, ◌||◌, Option, none, some, List, [], ◌∷◌, ◌++◌,
  ltb, if◌then◌else◌, length, take, drop, pos, Bytes, bytes, nat_eq, bytes_eq_instance, ◌==◌,
}
use Prim.Native.Nat.{bit_xor}
use metroserver.Protocol.{
  TrackInfo, RoomState, Message, sync_playback, sync_state, join_approved, reconnected,
}
use metroserver.Utf8.{trim_space}

-- uaTier
pub data UaTier : Type 0 where
  allow advert rickroll block : UaTier

abbrev pub tier_index : UaTier → ℕ
tier_index allow = 0
tier_index advert = 1
tier_index rickroll = 2
tier_index block = 3

abbrev pub tier_beq : UaTier → UaTier → Bool
tier_beq a b = tier_index a == tier_index b

-- uaPolicy: lowercased substrings for each tier, and the title of the advert.
pub record UaPolicy : Type 0 where
  pub block : List Bytes
  pub rickroll : List Bytes
  pub advert : List Bytes
  pub advert_title : Bytes

starts_with : Bytes → Bytes → Bool
starts_with [] s = true
starts_with (x ∷ xs) [] = false
starts_with (x ∷ xs) (y ∷ ys) = x == y && starts_with xs ys

-- strings.Contains
unfoldable pub contains : Bytes → Bytes → Bool
unfolding starts_with
contains [] pattern = starts_with pattern []
contains (x ∷ xs) pattern = starts_with pattern (x ∷ xs) || contains xs pattern

unfoldable pub ua_matches : Bytes → List Bytes → Bool
ua_matches ua [] = false
ua_matches ua (pattern ∷ rest) = contains ua pattern || ua_matches ua rest

module _ (to_lower : Bytes → Bytes) where
  unfoldable pub lower_patterns : List Bytes → List Bytes
  lower_patterns [] = []
  lower_patterns (pattern ∷ rest) =
      let lowered = to_lower (trim_space pattern) in
      let more = lower_patterns rest in if lowered == [] then more else lowered ∷ more

  -- A nil policy is none.
  unfoldable pub resolve : Option UaPolicy → Bytes → UaTier
  resolve none user_agent = allow
  resolve (some p) user_agent =
      if ua_matches (to_lower user_agent) p.block
      then block
      else if ua_matches (to_lower user_agent) p.rickroll
      then rickroll
      else if ua_matches (to_lower user_agent) p.advert
      then advert
      else allow

unfoldable pub rick_track : TrackInfo
rick_track = record {
  id = bytes "dQw4w9WgXcQ";
  title = bytes "Never Gonna Give You Up";
  artist = bytes "Rick Astley";
  album = bytes "Whenever You Need Somebody";
  duration = pos 213000;
  thumbnail = bytes "https://i.ytimg.com/vi/dQw4w9WgXcQ/hqdefault.jpg";
  suggested_by = [];
}

-- hash/fnv's 32-bit FNV-1a.
fnv_write : ℕ → Bytes → ℕ
fnv_write hash [] = hash
fnv_write hash (b ∷ rest) = fnv_write (bit_xor hash b * 16777619 % 4294967296) rest

fnv_queue : ℕ → List TrackInfo → ℕ
unfolding fnv_write
fnv_queue hash [] = hash
fnv_queue hash (t ∷ rest) = fnv_queue (fnv_write hash (t.id ++ 0 ∷ [])) rest

unfoldable pub rick_position : List TrackInfo → ℕ
unfolding fnv_queue
rick_position queue = fnv_queue 2166136261 queue % (length queue + 1)

-- Where the place is past the end the slices of the code panic; take and drop stop there.
unfoldable pub with_rick : List TrackInfo → List TrackInfo
with_rick queue = take (rick_position queue) queue ++ rick_track ∷ drop (rick_position queue) queue

unfoldable pub policy_state : RoomState → Bytes → Bool → RoomState
policy_state state advert_title rickrolled = record state {
  queue_title = advert_title;
  queue = if rickrolled then with_rick state.queue else state.queue;
}

abbrev pub is_rickroll : UaTier → Bool
is_rickroll rickroll = true
is_rickroll _ = false

rewrite_queues : Bool → Bytes → Message → Message
unfolding policy_state
rewrite_queues rickrolled title (sync_playback v) = sync_playback (record v {
  queue_title = title;
  queue = if rickrolled && ltb 0 (length v.queue) then with_rick v.queue else v.queue;
})
rewrite_queues rickrolled title (sync_state v) =
    sync_state
      (record v { queue_title = title; queue = if rickrolled then with_rick v.queue else v.queue })
rewrite_queues rickrolled title (join_approved v) =
    join_approved (record v { state = policy_state v.state title rickrolled })
rewrite_queues rickrolled title (reconnected v) =
    reconnected (record v { state = policy_state v.state title rickrolled })
rewrite_queues rickrolled title m = m

unfoldable pub rewrite_for_ua_tier : UaTier → Bytes → Message → Message
unfolding rewrite_queues
rewrite_for_ua_tier allow title m = m
rewrite_for_ua_tier advert title m = rewrite_queues false title m
rewrite_for_ua_tier rickroll title m = rewrite_queues true title m
rewrite_for_ua_tier block title m = m
