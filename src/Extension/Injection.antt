-- ===== src/Extension/Injection.antt =====
-- `InjectionGuard` of src/extension/injection-guard.ts: batches that may have been lost are sent
-- again, a bounded number of times. What src/extension/index.ts does with its answers is
-- `injection_step`.
pub mod Tests
pub mod Keys
pub mod Bounded
use Prim.Native.String as Text
use pi_mesh.Prelude.{
  ℕ, suc, ◌+◌, String, Bool, true, false, ◌||◌, List, [], ◌∷◌, ◌++◌, Option, none, some, ◌==◌,
  if◌then◌else◌, ltb, leb, is_some,
}
use pi_mesh.Dict
use pi_mesh.Dict.{Dict}
use pi_mesh.Protocol.Frame.{MeshFrame}
use pi_mesh.Extension.Batcher.{DeliverAs}

abbrev pub tries_cap : ℕ
tries_cap = 32

-- `batchKey`: the ids, joined by commas.
unfoldable pub batch_key : List MeshFrame → String
batch_key [] = ""
batch_key (f ∷ []) = f.id
batch_key (f ∷ g ∷ fs) = Text.◌++◌ f.id (Text.◌++◌ "," (batch_key (g ∷ fs)))

pub record InjectionGuardTuning : Type 0 where
  pub max_tries : ℕ
  pub confirm_after_ms : ℕ
  pub settled_grace_ms : ℕ

abbrev pub default_tuning : InjectionGuardTuning
default_tuning = record { max_tries = 2; confirm_after_ms = 8000; settled_grace_ms = 2000 }

pub data GuardDecision : Type 0 where
  resend confirmed hold nothing : GuardDecision

pub record Unconfirmed : Type 0 where
  pub frames : List MeshFrame
  pub deliver_as : DeliverAs
  pub sent_at : ℕ
  pub tries : ℕ
  pub key : String

pub record InjectionGuard : Type 0 where
  pub unconfirmed : Option Unconfirmed
  pub tries_by_key : Dict ℕ

abbrev pub new_injection_guard : InjectionGuard
new_injection_guard = record { unconfirmed = none; tries_by_key = [] }

-- A batch that is to be sent again.
pub record Resend : Type 0 where
  pub frames : List MeshFrame
  pub deliver_as : DeliverAs
  pub tries : ℕ

-- `this.triesByKey.get(key) ?? 0`
unfoldable pub tries_of : String → Dict ℕ → ℕ
tries_of key m = elim (Dict.get key m) [ none ↦ 0 | some n ↦ n ]

-- A batch sent while no turn runs is safe.
unfoldable pub note : List MeshFrame → DeliverAs → Bool → ℕ → InjectionGuard → InjectionGuard
note frames deliver_as busy_at_send now g =
    if busy_at_send
    then record g {
      unconfirmed = some (record {
        frames = frames;
        deliver_as = deliver_as;
        sent_at = now;
        tries = tries_of (batch_key frames) g.tries_by_key;
        key = batch_key frames;
      });
    }
    else record { unconfirmed = none; tries_by_key = Dict.delete (batch_key frames) g.tries_by_key }

unfoldable pub take_from : ℕ → Unconfirmed → InjectionGuard → InjectionGuard × Option Resend
take_from max_tries u g = if leb max_tries u.tries then (g, none) else (
  record {
    unconfirmed = none;
    tries_by_key = Dict.drop_oldest tries_cap (Dict.set u.key (suc u.tries) g.tries_by_key);
  },
  some (record { frames = u.frames; deliver_as = u.deliver_as; tries = suc u.tries }),
)

abbrev pub take_pending : ℕ → Option Unconfirmed → InjectionGuard → InjectionGuard × Option Resend
take_pending max_tries none g = (g, none)
take_pending max_tries (some u) g = take_from max_tries u g

abbrev pub take_for_resend : InjectionGuardTuning → InjectionGuard → InjectionGuard × Option Resend
take_for_resend t g = take_pending t.max_tries g.unconfirmed g

abbrev pub is_failure : Option String → Bool
is_failure none = false
is_failure (some reason) = reason == "aborted" || reason == "error"

abbrev pub resend_if_left : ℕ → Unconfirmed → GuardDecision
resend_if_left max_tries u = if ltb u.tries max_tries then resend else confirmed

unfoldable pub on_turn_end :
    InjectionGuardTuning → Option String → ℕ → InjectionGuard → InjectionGuard × GuardDecision
on_turn_end t stop_reason now g = elim g.unconfirmed [
  | none ↦ (g, nothing)
  | some u ↦
      if is_failure stop_reason
      then (g, resend_if_left t.max_tries u)
      else if leb (u.sent_at + t.confirm_after_ms) now
      then (record g { unconfirmed = none }, confirmed)
      else (g, hold)
]

unfoldable pub on_settled : InjectionGuardTuning → ℕ → InjectionGuard → GuardDecision
on_settled t now g = elim g.unconfirmed [
  | none ↦ nothing
  | some u ↦ if ltb now (u.sent_at + t.settled_grace_ms) then hold else resend_if_left t.max_tries u
]

-- `clear`
abbrev pub clear_injections : InjectionGuard → InjectionGuard
clear_injections g = new_injection_guard

-- A batch is sent, a turn ends, the session settles, and the timer fires that the end of a failed
-- turn has set.
pub data InjectionEvent : Type 0 where
  noting : List MeshFrame → DeliverAs → Bool → ℕ → InjectionEvent
  turn_ending : Option String → ℕ → InjectionEvent
  settling : ℕ → InjectionEvent
  timer_firing : InjectionEvent

abbrev pub resend_on :
    GuardDecision → InjectionGuardTuning → InjectionGuard → InjectionGuard × Option Resend
resend_on resend t g = take_for_resend t g
resend_on confirmed t g = (g, none)
resend_on hold t g = (g, none)
resend_on nothing t g = (g, none)

-- What a step does, and the batch that it sends again.
unfoldable pub injection_step :
    InjectionGuardTuning → InjectionEvent → InjectionGuard → InjectionGuard × Option Resend
injection_step t (noting frames deliver_as busy now) g = (note frames deliver_as busy now g, none)
injection_step t (turn_ending reason now) g = ((on_turn_end t reason now g).0, none)
injection_step t (settling now) g = resend_on (on_settled t now g) t g
injection_step t timer_firing g = take_for_resend t g

abbrev pub add_resend : Option Resend → List Resend → List Resend
add_resend none log = log
add_resend (some r) log = r ∷ log

-- The batches that are sent again, the last one first.
unfoldable pub run_injections :
    InjectionGuardTuning
    → List InjectionEvent
    → InjectionGuard
    → List Resend
    → InjectionGuard × List Resend
run_injections t [] g log = (g, log)
run_injections t (e ∷ es) g log =
    let (g', sent) = injection_step t e g in run_injections t es g' (add_resend sent log)
