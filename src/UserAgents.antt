-- ===== src/UserAgents.antt =====
-- internal/server/useragents.go: the counts of the User-Agents, kept in a bucket of the database, and the
-- handler that serves them.
pub mod Counting
pub mod Access
use metroserver.Prelude.{
  ℕ, ◌+◌, not, ◌||◌, Option, none, some, [], ◌∷◌, length, ltb, leb, Bytes, bytes, Map, lookup,
  insert, if◌then◌else◌, nat_eq, bytes_eq_instance, ◌==◌,
}
use metroserver.BigEndian.{put_uint64, uint64}
use metroserver.Validation.{sanitize_string}

abbrev pub max_user_agent_length : ℕ
max_user_agent_length = 512

abbrev pub max_tracked_user_agents : ℕ
max_tracked_user_agents = 10000

abbrev pub max_uint64 : ℕ
max_uint64 = 18_446_744_073_709_551_615

-- A bucket of the database: its entries, and its sequence.
pub record Bucket : Type 0 where
  pub entries : Map Bytes Bytes
  pub sequence : ℕ

-- The count with one more, which stops at the largest uint64.
unfoldable pub bump : ℕ → ℕ
bump count = if ltb count max_uint64 then count + 1 else count

-- The transaction of recordUserAgent for a key; none is an error.
unfoldable pub count_user_agent : Bytes → Bucket → Option Bucket
unfolding bump
count_user_agent key bucket = elim (lookup key bucket.entries) [
  | none ↦
      if leb max_tracked_user_agents bucket.sequence
      then some bucket
      else some (record {
        entries = insert key (put_uint64 1) bucket.entries;
        sequence = bucket.sequence + 1;
      })
  | some value ↦
      if not (length value == 8)
      then none
      else some
          (record bucket { entries = insert key (put_uint64 (bump (uint64 value))) bucket.entries })
]

unfoldable pub record_user_agent : Bytes → Bucket → Option Bucket
unfolding count_user_agent
record_user_agent user_agent bucket =
    let key = sanitize_string user_agent max_user_agent_length in
    if key == [] then some bucket else count_user_agent key bucket

-- The loop of userAgentCounts over the entries; none is an error.
unfoldable pub read_counts : Map Bytes Bytes → Option (Map Bytes ℕ)
read_counts [] = some []
read_counts ((key, value) ∷ rest) =
    let others = read_counts rest in
    if not (length value == 8)
    then none
    else elim others [ none ↦ none | some counts ↦ some ((key, uint64 value) ∷ counts) ]

-- Without a database there are no counts.
unfoldable pub user_agent_counts : Option Bucket → Option (Map Bytes ℕ)
unfolding read_counts
user_agent_counts none = some []
user_agent_counts (some bucket) = read_counts bucket.entries

-- strings.CutPrefix without its second result: the text after the prefix, or the whole text.
unfoldable pub after_prefix : Bytes → Bytes → Option Bytes
after_prefix [] text = some text
after_prefix (p ∷ ps) [] = none
after_prefix (p ∷ ps) (b ∷ bs) = let rest = after_prefix ps bs in if p == b then rest else none

unfoldable pub cut_prefix : Bytes → Bytes → Bytes
unfolding after_prefix
cut_prefix text prefix = elim (after_prefix prefix text) [ none ↦ text | some rest ↦ rest ]

-- What the handler answers.
pub data Answer : Type 0 where
  method_not_allowed unauthorized internal_server_error : Answer
  counted : Map Bytes ℕ → Answer

-- The handler of /user-agents, for SHA-256.
unfoldable pub user_agents_handler :
    (Bytes → Bytes) → Bytes → Option Bucket → Bytes → Bytes → Answer
unfolding cut_prefix user_agent_counts
user_agents_handler sha256 admin_token database method authorization =
    let provided = cut_prefix authorization (bytes "Bearer ") in
    if not (method == bytes "GET")
    then method_not_allowed
    else if admin_token == [] || not (sha256 admin_token == sha256 provided)
    then unauthorized
    else elim (user_agent_counts database) [
      | none ↦ internal_server_error
      | some counts ↦ counted counts
    ]
