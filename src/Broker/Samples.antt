-- ===== src/Broker/Samples.antt =====
-- Concrete tables for the tests of the broker: ann and bob share the room `default`.
use pi_mesh.Prelude.{ℕ, String, true, List, [], ◌∷◌, none, some}
use pi_mesh.Protocol.Frame.{MeshFrame, build_frame, hello, msg, claim, ctl, ctl_ack, member}
use pi_mesh.Broker.State.{BrokerState, PeerRecord, MeshConfig, new_state}
use pi_mesh.Broker.Lease.{empty_table}
use pi_mesh.Broker.Policy.{MeshPolicy, default_policy}
use pi_mesh.Broker.World.{Env, World}

abbrev pub sample_config : MeshConfig
sample_config = record {
  max_rooms_per_peer = 2;
  mailbox_cap = 2;
  mailbox_ttl_ms = 1000;
  max_frame_bytes = 4096;
  broker_token = none;
  broker_silence_ms = 45000;
  reservation_ttl_ms = 0;
}

abbrev pub sample_env : Env
sample_env = record { now = 5000; msg_id = "m_5"; frame_bytes = λ _. 100; sha256 = λ s. s }

abbrev pub sample_peer : String → ℕ → PeerRecord
sample_peer alias socket = record {
  alias = alias;
  socket = socket;
  rooms = ("default", member) ∷ [];
  client_version = none;
  connected_at = 0;
  last_seen_at = 0;
  hello_done = true;
  reservations = [];
  activity = none;
  via = none;
  caps = some [];
  proto = some 2;
}

abbrev pub two_peers : BrokerState
two_peers = record (new_state 0) {
  peers = ("ann", sample_peer "ann" 1) ∷ ("bob", sample_peer "bob" 2) ∷ [];
  rooms = ("default", ("ann", tt) ∷ ("bob", tt) ∷ []) ∷ [];
  known_aliases = ("ann", 0) ∷ ("bob", 0) ∷ [];
}

abbrev pub world_of : List ℕ → BrokerState → World
world_of dead s = record {
  state = s;
  destroyed = dead;
  half_closed = [];
  token_sockets = [];
  writes = [];
  pending_ctl = [];
  batches = [];
  leases = empty_table 1;
}

abbrev pub sample_msg : String → MeshFrame
sample_msg id = record (build_frame msg id) { from = some "ann"; to = some "cat" }

abbrev pub hello_frame : String → List String → MeshFrame
hello_frame alias rooms = record (build_frame hello "h_1") {
  from = some alias;
  rooms = some rooms;
  proto = some 2;
}

abbrev pub claim_frame : String → String → MeshFrame
claim_frame alias room = record (build_frame claim "c_1") {
  from = some alias;
  room = some room;
  task = some "build";
  paths = some ("src/" ∷ []);
}

-- Ann asks bob to abort his turn, and bob says that he did.
abbrev pub abort_frame : MeshFrame
abort_frame = record (build_frame ctl "x_1") {
  from = some "ann";
  to = some "bob";
  action = some "abort";
}

abbrev pub aborted_frame : MeshFrame
aborted_frame = record (build_frame ctl_ack "x_2") {
  from = some "bob";
  to = some "ann";
  reply_to = some "x_1";
  action = some "abort";
}

abbrev pub force_policy : MeshPolicy
force_policy = record default_policy { force_allowed_from = "ann" ∷ [] }
