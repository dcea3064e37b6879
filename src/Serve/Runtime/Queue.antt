-- ===== src/Serve/Runtime/Queue.antt =====
-- src/serve/runtime.rs: requests that are checked, and those that wait for a permit in between.
use mockinx.Common.{ℕ, Option, List, [], ◌∷◌, ◌++◌}
use mockinx.Error.{Result, ok, err, panicked}
use mockinx.Float.{FloatOps}
use mockinx.Units.{Rng}
use mockinx.Serve.Behavior.{BehaviorSpec}
use mockinx.Serve.Runtime.{
  SemaphoreApi, BehaviorResult, proceed, rejected, waits, BehaviorRuntime, new_runtime, check,
  resume,
}

-- The instant, if the request goes on.
abbrev pub admit : ℕ → Result BehaviorResult → List ℕ → List ℕ
admit now (ok (proceed permit)) admitted = now ∷ admitted
admit now (ok (rejected r)) admitted = admitted
admit now (ok waits) admitted = admitted
admit now (err e) admitted = admitted
admit now panicked admitted = admitted

-- The queue of the requests that wait, the first to wait first.
abbrev pub enqueue : ℕ → Result BehaviorResult → List ℕ → List ℕ
enqueue now (ok (proceed permit)) waiting = waiting
enqueue now (ok (rejected r)) waiting = waiting
enqueue now (ok waits) waiting = waiting ++ now ∷ []
enqueue now (err e) waiting = waiting
enqueue now panicked waiting = waiting

-- A request: the instant at which it is checked, the semaphore that it finds (responses end in
-- between), and the generator that it draws from.
pub record Arrival (api : SemaphoreApi) : Type 0 where
  pub now : ℕ
  pub semaphore : Option api.Semaphore
  pub rng : Rng

-- A request is checked, or the first that waits is polled again and finds this semaphore.
pub data Visit (api : SemaphoreApi) : Type 0 where
  enters : Arrival api → Visit api
  retries : Option api.Semaphore → Visit api

abbrev pub instants : {api : SemaphoreApi} → List (Visit api) → List ℕ
instants [] = []
instants (enters a ∷ rest) = a.now ∷ instants rest
instants (retries sem ∷ rest) = instants rest

module _ (api : SemaphoreApi) (ops : FloatOps) (spec : BehaviorSpec) where
  -- The runtime, and the instants at which the requests were checked that wait and that have gone on.
  pub record Log : Type 0 where
    pub runtime : BehaviorRuntime api
    pub waiting : List ℕ
    pub admitted : List ℕ

  abbrev pub woken : Log → Result BehaviorResult × BehaviorRuntime api → List ℕ → Log
  woken log retried [] = log
  woken log (res, runtime') (at ∷ rest) = record {
    runtime = runtime';
    waiting = enqueue at res [] ++ rest;
    admitted = admit at res log.admitted;
  }

  unfoldable pub visit : Log → Visit api → Log
  visit log (enters a) =
      let found = record log.runtime { semaphore = a.semaphore } in
      let (res, runtime', _) = check api ops found spec a.now a.rng in
      record {
        runtime = runtime';
        waiting = enqueue a.now res log.waiting;
        admitted = admit a.now res log.admitted;
      }
  visit log (retries sem) =
      woken log (resume api (record log.runtime { semaphore = sem })) log.waiting

  unfoldable pub visit_all : Log → List (Visit api) → Log
  unfolding visit
  visit_all log [] = log
  visit_all log (v ∷ rest) = visit_all (visit log v) rest

  unfoldable pub new_log : Log
  unfolding new_runtime
  new_log = record { runtime = new_runtime api spec; waiting = []; admitted = [] }
