-- ===== src/Broker/Dispatch/Strangers.antt =====
-- A socket that has not said hello under the alias that its frame names changes nothing.
use pi_mesh.Prelude.{
  ℕ, ◌≡◌, ◌≢◌, ◌⊎◌, inl, inr, [], ◌∷◌, ◌++◌, refl, String, Bool, false, ◌||◌, Option, none, some,
  ltb, arith, if-both,
}
use pi_mesh.Protocol.Frame.{MeshFrame, MeshErrorCode, FrameType, hello_required}
use pi_mesh.Broker.State.{PeerRecord, MeshConfig}
use pi_mesh.Broker.Policy.{MeshPolicy}
use pi_mesh.Broker.World.{
  Env, World, Write, cannot_write, send_error, error_frame, write_quiet, write_frame,
}
use pi_mesh.Broker.Dispatch.{authed, sender_of, is_hello, dispatch}

-- The two differ at most in the writes in flight.
abbrev pub SameButWrites : World → World → Type 0
SameButWrites v w =
    (v.state ≡ w.state)
    × (v.destroyed ≡ w.destroyed)
    × (v.pending_ctl ≡ w.pending_ctl)
    × (v.batches ≡ w.batches)
    × (v.leases ≡ w.leases)

pub send_error-SameButWrites :
    (env : Env) (config : MeshConfig) (socket : ℕ) (code : MeshErrorCode) (id : String) (w : World)
    → SameButWrites (send_error env config socket code id w) w
unfolding send_error write_quiet write_frame
send_error-SameButWrites env config socket code id w =
    if-both (λ (v : World). SameButWrites v w)
      (ltb config.max_frame_bytes (env.frame_bytes (error_frame env config code id))
        || cannot_write socket w)
      (refl, refl, refl, refl, refl) (refl, refl, refl, refl, refl)

-- An error goes to its socket, or nowhere.
send_error-writes :
    (env : Env) (config : MeshConfig) (socket : ℕ) (code : MeshErrorCode) (id : String) (w : World)
    → let w' = send_error env config socket code id w in
      (w'.writes ≡ w.writes)
      ⊎ ((write : Write) × (w'.writes ≡ w.writes ++ write ∷ [])
          × (write.socket ≡ socket)
          × (write.frame.type ≡ FrameType.error)
          × (write.frame.code ≡ some code)
          × (write.frame.id ≡ id))
unfolding send_error write_quiet write_frame
send_error-writes env config socket code id w =
    if-both
      (λ (v : World).
        (v.writes ≡ w.writes)
        ⊎ ((write : Write) × (v.writes ≡ w.writes ++ write ∷ [])
            × (write.socket ≡ socket)
            × (write.frame.type ≡ FrameType.error)
            × (write.frame.code ≡ some code)
            × (write.frame.id ≡ id)))
      (ltb config.max_frame_bytes (env.frame_bytes (error_frame env config code id))
        || cannot_write socket w)
      (inl refl) (inr (_, refl, refl, refl, refl, refl))

module _ (env : Env) (config : MeshConfig) (policy : MeshPolicy) (le : String → String → Bool) where
  authed-other :
      (socket : ℕ) (o : Option PeerRecord)
      → ((p : PeerRecord) → o ≡ some p → p.socket ≢ socket)
      → authed env config policy le socket o ≡ none
  authed-other socket none other = refl
  authed-other socket (some p) other = let h = other p refl in ground arith

  -- If no record, or one on another socket, stands under the alias that a frame names (or it names
  -- none), and the frame is no hello, then it changes no table, closes no socket and touches no
  -- lease, whatever its type; nothing is written, or one error frame with its id that asks for a
  -- hello, and that to its own socket.
  pub dispatch-stranger :
      (socket : ℕ) (via : Option String) (frame : MeshFrame) (w : World)
      → ((p : PeerRecord)
          → sender_of env config policy le frame.from w ≡ some p
          → p.socket ≢ socket)
      → is_hello env config policy le frame.type ≡ false
      → let w' = dispatch env config policy le socket via frame w in
        SameButWrites w' w
        × ((w'.writes ≡ w.writes)
            ⊎ ((write : Write) × (w'.writes ≡ w.writes ++ write ∷ [])
                × (write.socket ≡ socket)
                × (write.frame.type ≡ FrameType.error)
                × (write.frame.code ≡ some hello_required)
                × (write.frame.id ≡ frame.id)))
  unfolding dispatch
  dispatch-stranger socket via frame w unknown other =
      rw (authed-other socket (sender_of env config policy le frame.from w) unknown, other)
        (
          send_error-SameButWrites env config socket hello_required frame.id w,
          send_error-writes env config socket hello_required frame.id w,
        )
