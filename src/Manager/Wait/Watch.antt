-- ===== src/Manager/Wait/Watch.antt =====
-- What a wait that returns has seen in the events of its watch.
use pyceli.Base.{
  String, ◌≡◌, refl, sym, subst, ◌⊎◌, inl, inr, Bool, true, false, List, [], ◌∷◌, Any, Option, none,
  some, arith, if◌then◌else◌,
}
use pyceli.Objects.{option_eq_iff}
use pyceli.Manager.Client.{pull_image_error, Outcome, ok, err, Act, continue, raise}
use pyceli.Manager.Wait.{
  Event, WaitResult, exists_ok, Criteria, process_event, WatchLib, check_for_image_pull_error,
  on_event, wait_events, wait_once, wait_for,
}
use pyceli.Manager.Wait.Met.{Met, process_event-Met}

module _ {S : Type 0} (lib : WatchLib S) (c : Criteria) where
  -- A round of the loop returns for its event, or goes on.
  on_event-Met :
      (e : Event) (rest : Act S WaitResult) (s t : S) (r : WaitResult)
      → on_event lib e (process_event c e) rest s ≡ (ok r, t)
      → Met c e r ⊎ ((u : S) × (rest u ≡ (ok r, t)))
  unfolding on_event
  on_event-Met e rest s t r h = from (process_event c e) refl h
    where
      pulled :
          (failed : Bool) (u : S)
          → (if failed then raise pull_image_error else rest) u ≡ (ok r, t)
          → (u : S) × (rest u ≡ (ok r, t))
      pulled true u h = absurd (ground arith)
      pulled false u h = (u, h)

      checked :
          (o : Outcome Bool × S)
          → continue o (λ failed. if failed then raise pull_image_error else rest) ≡ (ok r, t)
          → (u : S) × (rest u ≡ (ok r, t))
      checked (ok failed, u) h = pulled failed u h
      checked (err x, u) h = absurd (ground arith)

      from :
          (found : Outcome (Option WaitResult))
          → process_event c e ≡ found
          → on_event lib e found rest s ≡ (ok r, t)
          → Met c e r ⊎ ((u : S) × (rest u ≡ (ok r, t)))
      from (err x) same h = absurd (ground arith)
      from (ok (some q)) same h =
          let e' : q ≡ r = ground arith in inl (subst (Met c e) e' (process_event-Met c e q same))
      from (ok none) same h = inr (checked (check_for_image_pull_error lib e s) h)

  wait_events-Met :
      (es : List Event) (breaks : Bool) (s t : S) (r : WaitResult)
      → wait_events lib c es breaks s ≡ (ok r, t)
      → Any (λ e. Met c e r) es
  unfolding wait_events
  wait_events-Met [] true s t r h = absurd (ground arith)
  wait_events-Met [] false s t r h = absurd (ground arith)
  wait_events-Met (e ∷ es) breaks s t r h =
      elim (on_event-Met e (wait_events lib c es breaks) s t r h) [
        | inl met ↦ inl met
        | inr (u, later) ↦ inr (wait_events-Met es breaks u t r later)
      ]

-- What the decorator gives came out of an attempt.
abbrev pub RetryOnly : {S : Type 0} → WatchLib S → Type 1
RetryOnly {S} lib =
    (A : Type 0) (act : Act S A) (s t : S) (a : A)
    → lib.retry_http act s ≡ (ok a, t)
    → (u : S) × (act u ≡ (ok a, t))

-- When a wait returns, some event of the watch is a reason for its result: the condition stands in the status
-- with a text that is not empty, the phase is one of those asked for, a container is ready, the replicas are
-- all or enough, or, for `EXISTS_OK`, the event is an `ADDED` one or neither a condition nor phases nor
-- replicas were asked for. The decorator of tenacity gives nothing that no attempt gave.
pub wait_for-Met :
    {S : Type 0} (lib : WatchLib S)
    → RetryOnly lib
    → (c : Criteria) (kind : String) (namespace : Option String) (name : String) (s t : S)
      (r : WaitResult)
    → wait_for lib c kind namespace name s ≡ (ok r, t)
    → (u : S) × Any (λ e. Met c e r) (lib.watch kind namespace name u).0.events
unfolding wait_for wait_once
wait_for-Met lib only c kind namespace name s t r h =
    let (u, attempt) = only WaitResult (wait_once lib c kind namespace name) s t r h in
    let (stream, u') = lib.watch kind namespace name u in
    (u, wait_events-Met lib c stream.events stream.breaks u' t r attempt)

-- A wait that an attempt ends is over.
abbrev pub RetryEnds : {S : Type 0} → WatchLib S → Type 1
RetryEnds {S} lib =
    (A : Type 0) (act : Act S A) (s t : S) (a : A)
    → act s ≡ (ok a, t)
    → lib.retry_http act s ≡ (ok a, t)

-- Whatever is waited for, a condition, phases, readiness or replicas, the wait returns `EXISTS_OK` at the
-- first event of the watch if that is an `ADDED` one, as it is for an object that is there when the
-- watch begins. The decorator of tenacity returns what an attempt returns.
pub wait_for_added :
    {S : Type 0} (lib : WatchLib S)
    → RetryEnds lib
    → (c : Criteria) (kind : String) (namespace : Option String) (name : String) (s : S) (e : Event)
      (more : List Event)
    → (lib.watch kind namespace name s).0.events ≡ e ∷ more
    → e.kind ≡ some "ADDED"
    → wait_for lib c kind namespace name s ≡ (ok exists_ok, (lib.watch kind namespace name s).1)
unfolding wait_for wait_once wait_events on_event process_event
wait_for_added lib ends c kind namespace name s e more at added =
    let (stream, s') = lib.watch kind namespace name s in
    ends WaitResult (wait_once lib c kind namespace name) s s' exists_ok (
      subst (λ es. wait_events lib c es stream.breaks s' ≡ (ok exists_ok, s')) (sym at)
        (subst
          (λ found.
            on_event lib e found (wait_events lib c more stream.breaks) s' ≡ (ok exists_ok, s'))
          (sym first) refl))
  where
    first : process_event c e ≡ ok (some exists_ok)
    first = rw ((option_eq_iff e.kind (some "ADDED")).1 added) refl
