-- ===== src/Manager/Wait.antt =====
-- piceli/k8s/utils/utils_wait.py: the waits on the events of a watch.
pub mod Met
pub mod Watch
use pyceli.Base.{
  ℕ, ltb, ◌==◌, String, str_eq, Bool, true, false, not, ◌&&◌, ◌||◌, List, [], ◌∷◌, any, Option,
  none, some, if◌then◌else◌,
}
use pyceli.Objects.{option_eq}
use pyceli.Manager.Client.{
  ClientLib, Raised, wait_exception, pull_image_error, http_error, type_error, attribute_error,
  Outcome, ok, err, Act, ◌>>=◌, return, raise,
}

-- An attribute of an object of the client library: it may be missing, `None` or there.
pub data Attr (A : Type 0) : Type 0 where
  missing null : Attr A
  there : A → Attr A

pub record Condition : Type 0 where
  pub kind : String
  pub status : String

-- A container's `ready`, and the reason of `state.waiting`
pub record ContainerStatus : Type 0 where
  pub ready : Bool
  pub waiting : Option String

-- The parts of a `V1ReplicaSetStatus` or a `V1StatefulSetStatus`
pub record Replicas : Type 0 where
  pub replicas : Option ℕ
  pub available_replicas : Option ℕ
  pub ready_replicas : Option ℕ

-- `event["object"].status`, with `replicas` for the two classes that `check_replica_status` looks for
pub record Status : Type 0 where
  pub conditions : Attr (List Condition)
  pub phase : Attr String
  pub failed : Attr ℕ
  pub container_statuses : Attr (List ContainerStatus)
  pub replicas : Option Replicas

-- `event["object"]`, with the name and the namespace of its `metadata`
pub record Watched : Type 0 where
  pub kind : Attr String
  pub metadata : Option (Option String × Option String)
  pub status : Attr Status

pub record Event : Type 0 where
  pub kind : Option String
  pub object : Watched

pub record Pod : Type 0 where
  pub container_statuses : Option (List ContainerStatus)

pub data WaitResult : Type 0 where
  conditions_ok phase_ok readiness_ok all_replicas_ok enough_replicas_ok exists_ok : WaitResult

-- What is waited for: the arguments of `wait` with these names
pub record Criteria : Type 0 where
  pub condition : Option String
  pub phases : List String
  pub check_readiness : Bool
  pub check_replicas : Bool

-- `check_condition`: the status of a condition is a text, and every text but the empty one is true.
unfoldable pub first_status : String → List Condition → Bool
first_status wanted [] = false
first_status wanted (c ∷ cs) =
    if str_eq c.kind wanted then not (str_eq c.status "") else first_status wanted cs

unfoldable pub check_condition : String → Attr (List Condition) → Outcome Bool
unfolding first_status
check_condition wanted missing = err attribute_error
check_condition wanted null = ok false
check_condition wanted (there cs) = ok (first_status wanted cs)

-- `phase_met`, for a list that is not empty
unfoldable pub phase_met : Attr String → List String → Bool
phase_met (there phase) phases = any (str_eq phase) phases
phase_met _ phases = false

-- `check_failure`
unfoldable pub check_failure : Attr ℕ → Outcome Bool
check_failure missing = ok false
check_failure null = err type_error
check_failure (there n) = ok (ltb 0 n)

-- `readiness_met`
unfoldable pub readiness_met : Attr (List ContainerStatus) → Outcome Bool
readiness_met missing = ok false
readiness_met null = err type_error
readiness_met (there cs) = ok (any (λ c. c.ready) cs)

-- `==` on two numbers that may be `None`, and `> 1` on one
unfoldable pub same_number : Option ℕ → Option ℕ → Bool
same_number none none = true
same_number (some a) (some b) = a == b
same_number _ _ = false

unfoldable pub above_one : Option ℕ → Outcome Bool
above_one none = err type_error
above_one (some n) = ok (ltb 1 n)

abbrev pub and_then : {A B : Type 0} → Outcome A → (A → Outcome B) → Outcome B
and_then (ok a) f = f a
and_then (err r) f = err r

-- `check_replica_status`
unfoldable pub check_replica_status : Option Replicas → Outcome (Option WaitResult)
unfolding same_number above_one
check_replica_status none = ok none
check_replica_status (some r) =
    if same_number r.replicas r.available_replicas
    then ok (some all_replicas_ok)
    else and_then (above_one r.available_replicas) (λ available.
      if available
      then and_then (above_one r.ready_replicas)
          (λ ready. ok (if ready then some enough_replicas_ok else none))
      else ok none)

abbrev is_nil : {A : Type 0} → List A → Bool
is_nil [] = true
is_nil (x ∷ xs) = false

abbrev is_none : {A : Type 0} → Option A → Bool
is_none none = true
is_none (some a) = false

-- The last test of `process_event`: `check_readiness` is not among what it looks at.
unfoldable pub nothing_asked : Criteria → Bool
nothing_asked c = is_none c.condition && (is_nil c.phases && not c.check_replicas)

-- `if test: return result`, and what follows it
unfoldable pub decide :
    Outcome Bool
    → Outcome (Option WaitResult)
    → Outcome (Option WaitResult)
    → Outcome (Option WaitResult)
decide (ok true) result after = result
decide (ok false) result after = after
decide (err r) result after = err r

unfoldable pub condition_met : Option String → Attr (List Condition) → Outcome Bool
unfolding check_condition
condition_met none cs = ok false
condition_met (some wanted) cs = check_condition wanted cs

unfoldable pub when_asked : {A : Type 0} → Bool → Outcome A → A → Outcome A
when_asked asked test other = if asked then test else ok other

-- The end of `process_event`, from the result of `check_replica_status`
unfoldable pub after_replicas : Criteria → Option WaitResult → Outcome (Option WaitResult)
unfolding nothing_asked
after_replicas c (some r) = ok (some r)
after_replicas c none = ok (if nothing_asked c then some exists_ok else none)

-- `process_event`, behind its test of the type
unfoldable pub process_status : Criteria → Status → Outcome (Option WaitResult)
unfolding decide condition_met phase_met check_failure readiness_met when_asked check_replica_status
    after_replicas
process_status c s = decide (condition_met c.condition s.conditions) (ok (some conditions_ok)) (
    decide (ok (phase_met s.phase c.phases)) (ok (some phase_ok)) (
      decide (check_failure s.failed) (err wait_exception) (
        decide (when_asked c.check_readiness (readiness_met s.container_statuses) false)
          (ok (some readiness_ok))
          (and_then (when_asked c.check_replicas (check_replica_status s.replicas) none)
            (after_replicas c)))))

-- A status that is `None` has none of the attributes.
abbrev pub no_status : Status
no_status = record {
  conditions = missing;
  phase = missing;
  failed = missing;
  container_statuses = missing;
  replicas = none;
}

-- `event["object"].status`: an object without the attribute, as a ConfigMap, raises.
unfoldable pub status_of : Attr Status → Outcome Status
status_of missing = err attribute_error
status_of null = ok no_status
status_of (there s) = ok s

-- `process_event`
unfoldable pub process_event : Criteria → Event → Outcome (Option WaitResult)
unfolding process_status status_of
process_event c e =
    if option_eq e.kind (some "ADDED")
    then ok (some exists_ok)
    else and_then (status_of e.object.status) (process_status c)

-- The texts that `check_for_image_pull_error` looks for
unfoldable pub is_pull_error : Option String → Bool
is_pull_error none = false
is_pull_error (some reason) = str_eq reason "ErrImagePull" || str_eq reason "ImagePullBackOff"

unfoldable pub pod_fails : Pod → Bool
unfolding is_pull_error
pod_fails p = elim p.container_statuses [
  | none ↦ false
  | some cs ↦ any (λ c. is_pull_error c.waiting) cs
]

-- What a watch brings: its events, and whether it then breaks off with an `HTTPError`
pub record Stream (E : Type 0) : Type 0 where
  pub events : List E
  pub breaks : Bool

-- The endpoints of a service: each subset has its addresses, or none, and an address may have no `target_ref`.
pub record Address : Type 0 where
  pub has_target : Bool

pub record Endpoints : Type 0 where
  pub subsets : Attr (List (Option (List Address)))

-- The watch of the client library, the endpoints of a service, the pods with the label `<kind>-name=<name>`
-- in a namespace, and the decorator of tenacity for `HTTPError`
pub record WatchLib (S : Type 0) : Type 1 where
  pub watch : String → Option String → String → S → Stream Event × S
  pub watch_endpoints : String → String → S → Stream Endpoints × S
  pub list_pods : String → String → Option String → Act S (List Pod)
  pub retry_http : {A : Type 0} → Act S A → Act S A

module _ {S : Type 0} (lib : WatchLib S) where
  -- `explore_object_pods`: a namespace that is empty counts as none.
  unfoldable pub pods_of : Attr String → Option (Option String × Option String) → Act S (List Pod)
  pods_of null metadata = raise attribute_error
  pods_of missing metadata = return []
  pods_of (there kind) none = return []
  pods_of (there kind) (some (name, none)) = return []
  pods_of (there kind) (some (name, some namespace)) =
      if str_eq namespace "" then return [] else lib.list_pods namespace kind name

  -- `check_for_image_pull_error`
  unfoldable pub check_for_image_pull_error : Event → Act S Bool
  unfolding pods_of pod_fails
  check_for_image_pull_error e =
      pods_of e.object.kind e.object.metadata >>= λ pods. return (any pod_fails pods)

  -- The body of the loop of `wait` behind `process_event`, with what follows the event as `rest`
  unfoldable pub on_event :
      Event → Outcome (Option WaitResult) → Act S WaitResult → Act S WaitResult
  unfolding check_for_image_pull_error
  on_event e (err r) rest = raise r
  on_event e (ok (some result)) rest = return result
  on_event e (ok none) rest =
      check_for_image_pull_error e >>= λ failed. if failed then raise pull_image_error else rest

  -- The loop of `wait`, over the events of the watch
  unfoldable pub wait_events : Criteria → List Event → Bool → Act S WaitResult
  unfolding process_event on_event
  wait_events c [] true = raise http_error
  wait_events c [] false = raise wait_exception
  wait_events c (e ∷ es) breaks = on_event e (process_event c e) (wait_events c es breaks)

  -- One attempt of `wait`
  unfoldable pub wait_once : Criteria → String → Option String → String → Act S WaitResult
  unfolding wait_events
  wait_once c kind namespace name s =
      let (stream, s') = lib.watch kind namespace name s in
      wait_events c stream.events stream.breaks s'

  -- `utils_wait.wait`, for the objects of the kind that `list_func` lists
  unfoldable pub wait_for : Criteria → String → Option String → String → Act S WaitResult
  unfolding wait_once
  wait_for c kind namespace name = lib.retry_http (wait_once c kind namespace name)
