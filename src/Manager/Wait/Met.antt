-- ===== src/Manager/Wait/Met.antt =====
-- What `process_event` has seen in an event when it gives a result.
use pyceli.Base.{
  ℕ, ◌<◌, String, str_eq, ◌≡◌, refl, sym, subst, ◌⊎◌, inl, inr, Bool, Bool-cases, true, false, List,
  [], ◌∷◌, any, Any, Option, none, some, arith, eq_iff, if◌then◌else◌,
}
use pyceli.Objects.{option_eq, option_eq_iff}
use pyceli.Manager.Client.{Outcome, ok, err}
use pyceli.Manager.Wait.{
  Attr, missing, null, there, Condition, ContainerStatus, Replicas, Event, WaitResult,
  conditions_ok, phase_ok, readiness_ok, all_replicas_ok, enough_replicas_ok, exists_ok, Criteria,
  first_status, check_condition, phase_met, check_failure, readiness_met, same_number, above_one,
  and_then, check_replica_status, nothing_asked, decide, condition_met, when_asked, after_replicas,
  process_status, process_event, Status, no_status, status_of,
}

-- The status that the object of an event shows
abbrev pub shown : Attr Status → Status
shown (there s) = s
shown _ = no_status

-- The reason of a result in the event that gave it
abbrev pub Met : Criteria → Event → WaitResult → Type 0
Met c e conditions_ok =
    (wanted : String) × (cs : List Condition) × (c.condition ≡ some wanted)
    × ((shown e.object.status).conditions ≡ there cs)
    × Any (λ k. (k.kind ≡ wanted) × (str_eq k.status "" ≡ false)) cs
Met c e phase_ok =
    (phase : String) × ((shown e.object.status).phase ≡ there phase)
    × (any (str_eq phase) c.phases ≡ true)
Met c e readiness_ok =
    (cs : List ContainerStatus) × (c.check_readiness ≡ true)
    × ((shown e.object.status).container_statuses ≡ there cs)
    × (any (λ k. k.ready) cs ≡ true)
Met c e all_replicas_ok =
    (r : Replicas) × (c.check_replicas ≡ true)
    × ((shown e.object.status).replicas ≡ some r)
    × (same_number r.replicas r.available_replicas ≡ true)
Met c e enough_replicas_ok =
    (r : Replicas) × (a b : ℕ) × (c.check_replicas ≡ true)
    × ((shown e.object.status).replicas ≡ some r)
    × (r.available_replicas ≡ some a)
    × (r.ready_replicas ≡ some b)
    × (1 < a)
    × (1 < b)
Met c e exists_ok = (e.kind ≡ some "ADDED") ⊎ (nothing_asked c ≡ true)

decide-inv :
    (test : Outcome Bool) (now after : Outcome (Option WaitResult)) {r : WaitResult}
    → decide test now after ≡ ok (some r)
    → ((test ≡ ok true) × (now ≡ ok (some r))) ⊎ (after ≡ ok (some r))
unfolding decide
decide-inv (ok true) now after h = inl (refl, h)
decide-inv (ok false) now after h = inr h
decide-inv (err x) now after h = absurd (ground arith)

first_status-Any :
    (wanted : String) (cs : List Condition)
    → first_status wanted cs ≡ true
    → Any (λ k. (k.kind ≡ wanted) × (str_eq k.status "" ≡ false)) cs
unfolding first_status
first_status-Any wanted [] h = absurd (ground arith)
first_status-Any wanted (c ∷ cs) h = elim (Bool-cases (str_eq c.kind wanted)) [
  | inl same ↦ inl ((eq_iff c.kind wanted).0 same, ground arith)
  | inr other ↦ inr (first_status-Any wanted cs (rw other at h))
]

condition_met-inv :
    (wanted : Option String) (cs : Attr (List Condition))
    → condition_met wanted cs ≡ ok true
    → (w : String) × (ks : List Condition) × (wanted ≡ some w)
      × (cs ≡ there ks)
      × Any (λ k. (k.kind ≡ w) × (str_eq k.status "" ≡ false)) ks
unfolding condition_met check_condition
condition_met-inv none cs h = absurd (ground arith)
condition_met-inv (some w) missing h = absurd (ground arith)
condition_met-inv (some w) null h = absurd (ground arith)
condition_met-inv (some w) (there ks) h = (w, ks, refl, refl, first_status-Any w ks (ground arith))

phase_met-inv :
    (at : Attr String) (phases : List String)
    → phase_met at phases ≡ true
    → (phase : String) × (at ≡ there phase) × (any (str_eq phase) phases ≡ true)
unfolding phase_met
phase_met-inv (there phase) phases h = (phase, refl, h)
phase_met-inv missing phases h = absurd (ground arith)
phase_met-inv null phases h = absurd (ground arith)

when_asked-inv :
    (asked : Bool) (at : Attr (List ContainerStatus))
    → when_asked asked (readiness_met at) false ≡ ok true
    → (cs : List ContainerStatus) × (asked ≡ true)
      × (at ≡ there cs)
      × (any (λ k. k.ready) cs ≡ true)
unfolding when_asked readiness_met
when_asked-inv false at h = absurd (ground arith)
when_asked-inv true missing h = absurd (ground arith)
when_asked-inv true null h = absurd (ground arith)
when_asked-inv true (there cs) h = (cs, refl, refl, ground arith)

-- What `check_replica_status` can answer
abbrev Replied : Option Replicas → WaitResult → Type 0
Replied at all_replicas_ok =
    (r : Replicas) × (at ≡ some r) × (same_number r.replicas r.available_replicas ≡ true)
Replied at enough_replicas_ok =
    (r : Replicas) × (a b : ℕ) × (at ≡ some r)
    × (r.available_replicas ≡ some a)
    × (r.ready_replicas ≡ some b)
    × (1 < a)
    × (1 < b)
Replied at _ = ⊥

-- The replicas by their numbers
enough :
    (available ready : Option ℕ) (r : WaitResult)
    → and_then (above_one available) (λ up.
      if up
      then and_then (above_one ready) (λ done. ok (if done then some enough_replicas_ok else none))
      else ok none)
      ≡ ok (some r)
    → (r ≡ enough_replicas_ok)
      × ((a : ℕ) × (b : ℕ) × (available ≡ some a) × (ready ≡ some b) × (1 < a) × (1 < b))
unfolding above_one
enough none ready r h = absurd (ground arith)
enough (some a) none r h = absurd (ground arith)
enough (some a) (some b) r h = (ground arith, (a, b, refl, refl, ground arith, ground arith))

check_replica_status-Replied :
    (at : Option Replicas) (r : WaitResult) → check_replica_status at ≡ ok (some r) → Replied at r
unfolding check_replica_status
check_replica_status-Replied none r h = absurd (ground arith)
check_replica_status-Replied (some n) r h =
    elim (Bool-cases (same_number n.replicas n.available_replicas)) [
      | inl same ↦
          let e : r ≡ all_replicas_ok = ground (arith, rw same at h) in
          subst (Replied (some n)) (sym e) (n, refl, same)
      | inr differ ↦
          let (e, (a, b, at_a, at_b, lt_a, lt_b)) =
            enough n.available_replicas n.ready_replicas r (rw differ at h) in
          subst (Replied (some n)) (sym e) (n, a, b, refl, at_a, at_b, lt_a, lt_b)
    ]

-- The end of `process_event`
replicas-Met :
    (c : Criteria) (e : Event) (asked : Bool) (r : WaitResult)
    → c.check_replicas ≡ asked
    → and_then
        (when_asked asked (check_replica_status (shown e.object.status).replicas) none)
        (after_replicas c)
      ≡ ok (some r)
    → Met c e r
unfolding when_asked after_replicas
replicas-Met c e false r off h = last (Bool-cases (nothing_asked c))
  where
    last : ((nothing_asked c) ≡ true) ⊎ ((nothing_asked c) ≡ false) → Met c e r
    last (inl free) =
        let same : r ≡ exists_ok = ground (arith, rw free at h) in
        subst (Met c e) (sym same) (inr free)
    last (inr asked) = absurd (ground (arith, rw asked at h))
replicas-Met c e true r on h = from (check_replica_status (shown e.object.status).replicas) refl h
  where
    met : (r : WaitResult) → Replied (shown e.object.status).replicas r → Met c e r
    met all_replicas_ok (n, at, same) = (n, on, at, same)
    met enough_replicas_ok (n, a, b, at, at_a, at_b, lt_a, lt_b) =
        (n, a, b, on, at, at_a, at_b, lt_a, lt_b)
    met conditions_ok h = absurd h
    met phase_ok h = absurd h
    met readiness_ok h = absurd h
    met exists_ok h = absurd h

    last :
        ((nothing_asked c) ≡ true) ⊎ ((nothing_asked c) ≡ false)
        → and_then (ok none) (after_replicas c) ≡ ok (some r)
        → Met c e r
    last (inl free) h =
        let same : r ≡ exists_ok = ground (arith, rw free at h) in
        subst (Met c e) (sym same) (inr free)
    last (inr asked) h = absurd (ground (arith, rw asked at h))

    from :
        (found : Outcome (Option WaitResult))
        → check_replica_status (shown e.object.status).replicas ≡ found
        → and_then found (after_replicas c) ≡ ok (some r)
        → Met c e r
    from (err x) same h = absurd (ground arith)
    from (ok none) same h = last (Bool-cases (nothing_asked c)) h
    from (ok (some q)) same h =
        let e' : q ≡ r = ground arith in
        subst (Met c e) e'
          (met q (check_replica_status-Replied (shown e.object.status).replicas q same))

status_of-process_status :
    (c : Criteria) (at : Attr Status) (r : WaitResult)
    → and_then (status_of at) (process_status c) ≡ ok (some r)
    → process_status c (shown at) ≡ ok (some r)
unfolding status_of
status_of-process_status c missing r h = absurd (ground arith)
status_of-process_status c null r h = h
status_of-process_status c (there s) r h = h

pub process_event-Met :
    (c : Criteria) (e : Event) (r : WaitResult) → process_event c e ≡ ok (some r) → Met c e r
unfolding process_event process_status
process_event-Met c e r h = elim (Bool-cases (option_eq e.kind (some "ADDED"))) [
  | inl added ↦
      let same : r ≡ exists_ok = ground (arith, rw added at h) in
      subst (Met c e) (sym same) (inl ((option_eq_iff e.kind (some "ADDED")).0 added))
  | inr other ↦
      let s = shown e.object.status in
      elim (decide-inv (condition_met c.condition s.conditions) _ _
        (status_of-process_status c e.object.status r (rw other at h))) [
          | inl (test, now) ↦
              let same : r ≡ conditions_ok = ground arith in
              subst (Met c e) (sym same) (condition_met-inv c.condition s.conditions test)
          | inr h ↦ elim (decide-inv (ok (phase_met s.phase c.phases)) _ _ h) [
            | inl (test, now) ↦
                let same : r ≡ phase_ok = ground arith in
                subst (Met c e) (sym same) (phase_met-inv s.phase c.phases (ground arith))
            | inr h ↦ elim (decide-inv (check_failure s.failed) _ _ h) [
              | inl (test, now) ↦ absurd (ground arith)
              | inr h ↦
                  elim (decide-inv
                    (when_asked c.check_readiness (readiness_met s.container_statuses) false) _ _
                    h) [
                      | inl (test, now) ↦
                          let same : r ≡ readiness_ok = ground arith in
                          subst (Met c e) (sym same)
                            (when_asked-inv c.check_readiness s.container_statuses test)
                      | inr h ↦ replicas-Met c e c.check_replicas r refl h
                    ]
            ]
          ]
        ]
]
