-- ===== src/Broker/State.antt =====
-- src/broker/state.ts: the broker's tables, all in memory. A socket is its number.
use pi_mesh.Prelude.{ℕ, ◌*◌, String, Bool, List, [], Option}
use pi_mesh.Dict.{Dict}
use pi_mesh.Protocol.Frame.{MeshFrame, MeshRole, FileReservation, Activity}
use pi_mesh.Shared.Config.{rate_bucket_window_ms}

pub record PeerRecord : Type 0 where
  pub alias : String
  pub socket : ℕ
  pub rooms : Dict MeshRole
  pub client_version : Option String
  pub connected_at : ℕ
  pub last_seen_at : ℕ
  pub hello_done : Bool
  pub reservations : List FileReservation
  pub activity : Option Activity
  pub via : Option String
  pub caps : Option (List String)
  pub proto : Option ℕ

pub record StoredMsg : Type 0 where
  pub frame : MeshFrame
  pub enqueued_at : ℕ

-- A fraction of a token counts: `tokens` is in units of 1 / `rate_bucket_window_ms`.
pub record TokenBucket : Type 0 where
  pub tokens : ℕ
  pub last_refill_at : ℕ

pub record PeerRates : Type 0 where
  pub msg : TokenBucket
  pub urgent : TokenBucket
  pub force : TokenBucket

pub record BrokerStats : Type 0 where
  pub started_at : ℕ
  pub relayed : ℕ
  pub refused : ℕ
  pub mailbox_delivered : ℕ
  pub mailbox_dropped : ℕ

-- A `Set<string>`.
abbrev pub Members : Type 0
Members = Dict (Unit {0})

pub record BrokerState : Type 0 where
  pub peers : Dict PeerRecord
  pub rooms : Dict Members
  pub mailbox : Dict (List StoredMsg)
  pub rates : Dict PeerRates
  pub known_aliases : Dict ℕ
  pub stats : BrokerStats

-- `new BrokerState()` at a time.
abbrev pub new_state : ℕ → BrokerState
new_state now = record {
  peers = [];
  rooms = [];
  mailbox = [];
  rates = [];
  known_aliases = [];
  stats = record {
    started_at = now;
    relayed = 0;
    refused = 0;
    mailbox_delivered = 0;
    mailbox_dropped = 0;
  };
}

abbrev pub new_bucket : ℕ → ℕ → TokenBucket
new_bucket tokens now = record { tokens = tokens * rate_bucket_window_ms; last_refill_at = now }

-- The fields of `MeshConfig` that the broker reads.
pub record MeshConfig : Type 0 where
  pub max_rooms_per_peer : ℕ
  pub mailbox_cap : ℕ
  pub mailbox_ttl_ms : ℕ
  pub max_frame_bytes : ℕ
  pub broker_token : Option String
  pub broker_silence_ms : ℕ
  pub reservation_ttl_ms : ℕ
