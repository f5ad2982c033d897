-- ===== src/Deploy/Executor/Liveness.antt =====
-- `deploy` never gets stuck: until its end, a task or `deploy` itself can go on.
use pyceli.Base.{
  ℕ, suc, zero, ◌<◌, ◌≡◌, refl, sym, subst, ◌⊎◌, inl, inr, true, List, [], ◌∷◌, Option, none, some,
  arith, All, List-cases,
}
use pyceli.Objects.{Identifier, has_id, id_eq_self}
use pyceli.Deploy.Graph.{Nodes}
use pyceli.Manager.Client.{Raised, ok, err}
use pyceli.Deploy.Executor.{NodeOps, Executor, Phase, ready, gathering, ended, Task}
use pyceli.Deploy.Executor.Machine.{
  Main, deploying, rolling_back, returned, raised, Machine, EndedOk, EndedErr, new_executor,
  start_deploy, Move, begin, wait, resume, CanResume, Work, here, there, Step, work, level_done,
  level_failed, rollback_done, rollback_failed, Reach, start, later, Deploys, IsFinal,
}
use pyceli.Deploy.Executor.Settled.{Failing}
use pyceli.Deploy.Executor.Costs.{weigh}
use pyceli.Deploy.Executor.Termination.{measure, Weighs, Step-cost}

-- A task has come to its end, with an exception or without, or can move.
data CanMove {S : Type 0} (ops : NodeOps S) (e : Executor S) (t : Task) : Type 0 where
  over : EndedOk t → CanMove ops e t
  failed : (r : Raised) → EndedErr r t → CanMove ops e t
  moves : {e' : Executor S} {t' : Task} → Move ops e t e' t' → CanMove ops e t

-- The same for the tasks of a `gather`
data CanWork {S : Type 0} (ops : NodeOps S) (e : Executor S) (ts : List Task) : Type 0 where
  over : All EndedOk ts → CanWork ops e ts
  failed : Failing ts → CanWork ops e ts
  works : {e' : Executor S} {ts' : List Task} → Work ops e ts e' ts' → CanWork ops e ts

module _ {S : Type 0} (ops : NodeOps S) where
  CanMove-gathering :
      (e : Executor S) (t : Task) (failure : Option Raised)
      → t.phase ≡ gathering failure
      → CanMove ops e t
  unfolding has_id
  CanMove-gathering e t failure at = elim (List-cases t.todo) [
    | inl empty ↦ CanMove.moves (resume failure at (ready_to failure empty))
    | inr (id, more, left) ↦
        CanMove.moves (
          wait id
            (subst (λ todo. has_id id todo ≡ true) (sym left) (ground (arith, id_eq_self id))))
  ]
    where
      ready_to : (failure : Option Raised) → t.todo ≡ [] → CanResume failure t.todo
      ready_to none empty = empty
      ready_to (some r) empty = tt

  CanMove-of_phase : (e : Executor S) (t : Task) (p : Phase) → t.phase ≡ p → CanMove ops e t
  CanMove-of_phase e t ready at = CanMove.moves (begin at)
  CanMove-of_phase e t (gathering failure) at = CanMove-gathering e t failure at
  CanMove-of_phase e t (ended (ok done)) at = CanMove.over at
  CanMove-of_phase e t (ended (err r)) at = CanMove.failed r at

  tasks-CanWork : (e : Executor S) (ts : List Task) → CanWork ops e ts
  tasks-CanWork e [] = CanWork.over tt
  tasks-CanWork e (t ∷ ts) = elim (CanMove-of_phase e t t.phase refl) [
    | CanMove.failed r at ↦ CanWork.failed (r, inl at)
    | CanMove.moves move ↦ CanWork.works (here move)
    | CanMove.over now ↦ elim (tasks-CanWork e ts) [
      | CanWork.over all ↦ CanWork.over (now, all)
      | CanWork.failed (r, at) ↦ CanWork.failed (r, inr at)
      | CanWork.works w ↦ CanWork.works (there w)
    ]
  ]

  -- Where `deploy` has not come to its end, there is a step.
  Step-exists :
      (m : Machine S) (main : Main)
      → m.main ≡ main
      → IsFinal main ⊎ ((m' : Machine S) × Step ops m m')
  Step-exists m (deploying level now more) at = elim (tasks-CanWork m.executor m.tasks) [
    | CanWork.over all ↦ inr (_, level_done at all)
    | CanWork.failed (r, failing) ↦ inr (_, level_failed r at failing)
    | CanWork.works w ↦ inr (_, work w)
  ]
  Step-exists m (rolling_back r ls) at = elim (tasks-CanWork m.executor m.tasks) [
    | CanWork.over all ↦ inr (_, rollback_done at all)
    | CanWork.failed (r', failing) ↦ inr (_, rollback_failed r' at failing)
    | CanWork.works w ↦ inr (_, work w)
  ]
  Step-exists m returned at = inl tt
  Step-exists m (raised r) at = inl tt

  -- From each machine, steps lead to the end.
  ends :
      (w : Identifier → ℕ) (n : ℕ) (from m : Machine S)
      → Weighs w m.executor
      → (measure w m < n)
      → Reach ops from m
      → (m' : Machine S) × Reach ops from m' × IsFinal m'.main
  ends w zero from m h lt r = absurd (omega arith)
  ends w (suc n) from m h lt r = elim (Step-exists m m.main refl) [
    | inl final ↦ (m, r, final)
    | inr (m', step) ↦
        let (less, h') = Step-cost w h step in
        ends w n from m' h' (omega (arith, less)) (later r step)
  ]

Reach-Weighs :
    {S : Type 0} {ops : NodeOps S} {from m : Machine S} (w : Identifier → ℕ)
    → Weighs w from.executor
    → Reach ops from m
    → Weighs w m.executor
Reach-Weighs w h start = h
Reach-Weighs w h (later r step) = (Step-cost w (Reach-Weighs w h r) step).1

Reach-trans :
    {S : Type 0} {ops : NodeOps S} {a b c : Machine S}
    → Reach ops a b
    → Reach ops b c
    → Reach ops a c
Reach-trans r start = r
Reach-trans r (later s step) = later (Reach-trans r s) step

-- Whatever has happened in `deploy`, it can go on to its end: there are steps that lead from each
-- point that it comes to, to one at which it has returned or raised.
pub deploy_ends :
    {S : Type 0} (ops : NodeOps S) (nodes : Nodes) (s : S) (m : Machine S)
    → Deploys ops nodes s m
    → (m' : Machine S) × Deploys ops nodes s m' × Reach ops m m' × IsFinal m'.main
deploy_ends ops nodes s m r =
    let w : Identifier → ℕ = weigh (start_deploy (new_executor nodes s)).executor.nodes in
    let h : Weighs w m.executor = Reach-Weighs w (λ id. refl) r in
    let (m', onward, final) = ends ops w (suc (measure w m)) m m h (omega arith) start in
    (m', Reach-trans r onward, onward, final)
