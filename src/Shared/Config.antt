-- ===== src/Shared/Config.antt =====
-- The constants of src/shared/config.ts that the modelled code reads.
use pi_mesh.Prelude.{ℕ, String, ◌*◌}

abbrev pub max_peers_per_room : ℕ
max_peers_per_room = 64

abbrev pub default_room : String
default_room = "default"

abbrev pub default_rate_msg_per_min : ℕ
default_rate_msg_per_min = 30

abbrev pub default_rate_urgent_per_min : ℕ
default_rate_urgent_per_min = 15

abbrev pub default_rate_force_per_min : ℕ
default_rate_force_per_min = 1

abbrev pub rate_bucket_window_ms : ℕ
rate_bucket_window_ms = 60000

abbrev pub proto_version : ℕ
proto_version = 2

abbrev pub min_lease_ttl_ms : ℕ
min_lease_ttl_ms = 1000

abbrev pub max_lease_ttl_ms : ℕ
max_lease_ttl_ms = 24 * 60 * 60 * 1000

abbrev pub default_lease_ttl_ms : ℕ
default_lease_ttl_ms = 6 * 60 * 60 * 1000

abbrev pub ctl_pending_ttl_ms : ℕ
ctl_pending_ttl_ms = 60000

abbrev pub default_max_frame_bytes : ℕ
default_max_frame_bytes = 65536

abbrev pub max_caps : ℕ
max_caps = 16

abbrev pub max_cap_chars : ℕ
max_cap_chars = 32

abbrev pub max_body_bytes : ℕ
max_body_bytes = 32768

abbrev pub max_frame_id_chars : ℕ
max_frame_id_chars = 64

abbrev pub max_refs : ℕ
max_refs = 8

abbrev pub max_ref_chars : ℕ
max_ref_chars = 256

abbrev pub max_reply_targets : ℕ
max_reply_targets = 8

abbrev pub max_task_package_bytes : ℕ
max_task_package_bytes = 4096

abbrev pub max_task_paths : ℕ
max_task_paths = 32

abbrev pub max_ctl_target_chars : ℕ
max_ctl_target_chars = 128

abbrev pub max_reminds : ℕ
max_reminds = 2

abbrev pub transcript_ring_size : ℕ
transcript_ring_size = 200
