-- ===== src/Client/Pending.antt =====
-- `PendingReplies` of src/client/pending.ts: the messages whose replies are awaited, with the timers
-- of each. Times are counted in quarters of a millisecond, so that those of the reminders, which
-- come after a half and three quarters of the time to wait, are exact.
pub mod Counts
pub mod Sound
pub mod Register
pub mod Fire
pub mod Runs
pub mod Tests
use pi_mesh.Prelude.{
  ℕ, zero, suc, ◌+◌, ◌-◌, ◌*◌, String, Bool, true, false, not, List, [], ◌∷◌, ◌++◌, Option, none,
  some, if◌then◌else◌, ltb, leb, eqb, select,
}
use pi_mesh.Dict
use pi_mesh.Dict.{Dict}
use pi_mesh.Shared.Config.{max_reminds}
use pi_mesh.Protocol.Frame.{MeshFrame}

pub data PendingResolution : Type 0 where
  reply : MeshFrame → PendingResolution
  expired : PendingResolution
  failed : String → PendingResolution

-- What an entry keeps but its timers and its `remindCount`. A promise is told by the number of the
-- registration that made it.
pub record PendingEntry : Type 0 where
  pub promise : ℕ
  pub expires_at : ℕ
  pub launch : Bool

pub data TimerKind : Type 0 where
  reminder expiry : TimerKind

-- A timer that is armed: the names that its callback has captured, and when it is due.
pub record Timer : Type 0 where
  pub msg_id : String
  pub promise : ℕ
  pub kind : TimerKind
  pub due : ℕ

-- The table, the counters of the entries that were ever made, the armed timers, and the calls that
-- were made of the functions `resolve` and `onRemind`, in order.
pub record PendingReplies : Type 0 where
  pub entries : Dict PendingEntry
  pub remind_count : ℕ → ℕ
  pub armed : List Timer
  pub registered : ℕ
  pub unmatched : ℕ
  pub resolved : List (ℕ × PendingResolution)
  pub reminded : List String

abbrev pub new_pending : PendingReplies
new_pending = record {
  entries = [];
  remind_count = λ n. 0;
  armed = [];
  registered = 0;
  unmatched = 0;
  resolved = [];
  reminded = [];
}

-- `entry.timers.forEach(clearTimeout)`
abbrev pub clear_timers : ℕ → List Timer → List Timer
clear_timers promise armed = select (λ t. not (eqb t.promise promise)) armed

-- An entry leaves the table, its timers are cleared, and its promise is resolved.
unfoldable pub settle : String → ℕ → PendingResolution → PendingReplies → PendingReplies
settle msg_id promise resolution p = record p {
  entries = Dict.delete msg_id p.entries;
  armed = clear_timers promise p.armed;
  resolved = p.resolved ++ (promise, resolution) ∷ [];
}

unfoldable pub cancel : String → String → PendingReplies → PendingReplies
cancel msg_id reason p = elim (Dict.get msg_id p.entries) [
  | none ↦ p
  | some entry ↦ settle msg_id entry.promise (failed reason) p
]

-- The timers of a registration: a reminder after a half and one after three quarters of the time
-- left, if any is left, and the expiry.
abbrev pub timers_of : String → ℕ → ℕ → ℕ → List Timer
timers_of msg_id promise now total =
    let at : TimerKind → ℕ → Timer = λ kind quarters. record {
      msg_id = msg_id;
      promise = promise;
      kind = kind;
      due = 4 * now + quarters * total;
    } in
    if eqb total 0 then at expiry 4 ∷ [] else at reminder 2 ∷ at reminder 3 ∷ at expiry 4 ∷ []

-- A registration supersedes one under the same id.
unfoldable pub register : String → ℕ → Bool → ℕ → PendingReplies → PendingReplies
register msg_id expires_at launch now p =
    let q = cancel msg_id "superseded" p in
    let entry : PendingEntry = record {
      promise = q.registered;
      expires_at = expires_at;
      launch = launch;
    } in
    record q {
      entries = Dict.set msg_id entry q.entries;
      armed = q.armed ++ timers_of msg_id q.registered now (expires_at - now);
      registered = suc q.registered;
    }

unfoldable pub is_launch : String → PendingReplies → Bool
is_launch msg_id p = elim (Dict.get msg_id p.entries) [ none ↦ false | some entry ↦ entry.launch ]

abbrev pub unmatched_reply : PendingReplies → PendingReplies
unmatched_reply p = record p { unmatched = suc p.unmatched }

-- A reply resolves the message that it names; every other reply is counted.
unfoldable pub handle_reply : MeshFrame → PendingReplies → PendingReplies × Bool
handle_reply frame p = elim frame.reply_to [
  | none ↦ (unmatched_reply p, false)
  | some reply_to ↦ elim (Dict.get reply_to p.entries) [
    | none ↦ (unmatched_reply p, false)
    | some entry ↦ (settle reply_to entry.promise (reply frame) p, true)
  ]
]

-- The loop of `cancelAll` over a copy of the keys.
cancel_each : List String → String → PendingReplies → PendingReplies
cancel_each [] reason p = p
cancel_each (k ∷ ks) reason p = cancel_each ks reason (cancel k reason p)

unfoldable pub cancel_all : String → PendingReplies → PendingReplies
unfolding cancel_each
cancel_all reason p = cancel_each (Dict.keys p.entries) reason p

-- The callback of a timer, which is not armed any more.
unfoldable pub remind : Timer → PendingReplies → PendingReplies
remind t p =
    if not (Dict.has t.msg_id p.entries)
    then p
    else if leb max_reminds (p.remind_count t.promise)
    then p
    else record p {
      remind_count = λ n. if eqb n t.promise then suc (p.remind_count n) else p.remind_count n;
      reminded = p.reminded ++ t.msg_id ∷ [];
    }

unfoldable pub expire : Timer → PendingReplies → PendingReplies
expire t p = if Dict.has t.msg_id p.entries then settle t.msg_id t.promise expired p else p

abbrev pub call_back : Timer → PendingReplies → PendingReplies
call_back t p = elim t.kind [ reminder ↦ remind t p | expiry ↦ expire t p ]

-- One of the armed timers, and the others.
unfoldable pub pick : ℕ → List Timer → Option (Timer × List Timer)
pick n [] = none
pick zero (t ∷ ts) = some (t, ts)
pick (suc n) (t ∷ ts) = elim (pick n ts) [ none ↦ none | some (u, us) ↦ some (u, t ∷ us) ]

-- One of the armed timers fires.
unfoldable pub fire : ℕ → PendingReplies → PendingReplies
fire n p = elim (pick n p.armed) [
  | none ↦ p
  | some (t, others) ↦ call_back t (record p { armed = others })
]

-- What happens to the table: the calls of the client, and the timers.
pub data PendingEvent : Type 0 where
  registering : String → ℕ → Bool → ℕ → PendingEvent
  replying : MeshFrame → PendingEvent
  cancelling : String → String → PendingEvent
  cancelling_all : String → PendingEvent
  firing : ℕ → PendingEvent

unfoldable pub step : PendingEvent → PendingReplies → PendingReplies
step (registering msg_id expires_at launch now) p = register msg_id expires_at launch now p
step (replying frame) p = (handle_reply frame p).0
step (cancelling msg_id reason) p = cancel msg_id reason p
step (cancelling_all reason) p = cancel_all reason p
step (firing n) p = fire n p

unfoldable pub run : List PendingEvent → PendingReplies → PendingReplies
run [] p = p
run (e ∷ es) p = run es (step e p)
