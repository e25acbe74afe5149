-- ===== src/Limits.antt =====
-- The limits of internal/server/server.go and validation.go. Times are in nanoseconds, as Go's
-- time.Duration, unless the name says otherwise.
use metroserver.Prelude.{ℕ, ◌*◌, nat_eq, bytes_eq_instance}

abbrev pub second : ℕ
second = 1_000_000_000

abbrev pub minute : ℕ
minute = 60 * second

abbrev pub reconnect_grace_period : ℕ
reconnect_grace_period = 15 * minute

abbrev pub host_failover_timeout : ℕ
host_failover_timeout = 30 * second

abbrev pub empty_room_cleanup_timeout : ℕ
empty_room_cleanup_timeout = 5 * minute

abbrev pub min_room_retention_after_restart : ℕ
min_room_retention_after_restart = 2 * minute

abbrev pub max_username_length : ℕ
max_username_length = 50

abbrev pub max_room_code_length : ℕ
max_room_code_length = 10

abbrev pub max_track_title_length : ℕ
max_track_title_length = 200

abbrev pub max_track_artist_length : ℕ
max_track_artist_length = 200

abbrev pub max_track_url_length : ℕ
max_track_url_length = 2048

-- 24 hours in milliseconds.
abbrev pub max_track_duration : ℕ
max_track_duration = 24 * 60 * 60 * 1000

abbrev pub max_track_id_length : ℕ
max_track_id_length = 200

abbrev pub max_queue_size : ℕ
max_queue_size = 1000

abbrev pub max_pending_joins : ℕ
max_pending_joins = 100

abbrev pub max_pending_suggestions : ℕ
max_pending_suggestions = 100

abbrev pub max_suggestions_per_user : ℕ
max_suggestions_per_user = 10

abbrev pub max_queue_bytes : ℕ
max_queue_bytes = 400 * 1024

abbrev pub max_rooms : ℕ
max_rooms = 10000

abbrev pub max_clients_per_room : ℕ
max_clients_per_room = 100

abbrev pub max_connections_per_source : ℕ
max_connections_per_source = 32

abbrev pub max_room_creates_per_source : ℕ
max_room_creates_per_source = 10

abbrev pub room_create_window : ℕ
room_create_window = minute

abbrev pub message_rate_window : ℕ
message_rate_window = second

abbrev pub max_messages_per_window : ℕ
max_messages_per_window = 60

abbrev pub sync_response_interval : ℕ
sync_response_interval = second

-- client.go: the capacity of the send channel, of the pong channel, and the byte limit of a backlog.
abbrev pub send_queue_size : ℕ
send_queue_size = 256

abbrev pub pong_queue_size : ℕ
pong_queue_size = 8

abbrev pub max_queued_bytes : ℕ
max_queued_bytes = 8 * 1024 * 1024

abbrev pub max_clients : ℕ
max_clients = 10000

-- codec.go, and the largest message that a connection reads (server.go).
abbrev pub max_envelope_type_length : ℕ
max_envelope_type_length = 64

abbrev pub max_decoded_payload_size : ℕ
max_decoded_payload_size = 2 * 1024 * 1024

abbrev pub max_queue_input_size : ℕ
max_queue_input_size = max_queue_size * 2

abbrev pub max_client_features : ℕ
max_client_features = 32

abbrev pub max_feature_name_length : ℕ
max_feature_name_length = 64

abbrev pub max_read_message_size : ℕ
max_read_message_size = 512 * 1024
