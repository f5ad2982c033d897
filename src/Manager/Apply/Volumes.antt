-- ===== src/Manager/Apply/Volumes.antt =====
-- What `_apply_node` never does to a volume: it never deletes one.
use pyceli.Base.{
  ℕ, ◌≡◌, refl, ap, sym, subst, Bool, Bool-cases, inl, inr, true, false, Option, some, String,
}
use pyceli.Objects.{K8sObject}
use pyceli.Compare.Value.{Value, dict, Fields}
use pyceli.Compare.Comparer.{QuantityLib, Result}
use pyceli.Compare.Comparer
use pyceli.Compare.Action.{CompareResult, determine_update_action, no_action_needed, needs_a_patch}
use pyceli.Compare.Patch.{patch_document}
use pyceli.Manager.Client.{
  ClientLib, Method, create, delete, patch, read, Args, Reply, answer, failure, Raised, api,
  already_exists, is_being_deleted, Outcome, ok, err, runtime_error, Act, continue, ◌>>=◌, return,
  raise, try_except, handle, not_found, outcome_of,
}
use pyceli.Manager.{
  ManagerKind, replace_base, volume, get_manager, prepare_args, invoke_api, read_object,
  patch_object, replace_object, create_object, create_once, create_failed,
}
use pyceli.Manager.Kinds.{IsVolume, IsVolume-get_manager}
use pyceli.Manager.Apply.{
  compare, new_obj, World, in_cluster, compared, as_document, note, patch_node, act_on, update_node,
  create_missing, apply_node,
}

-- Whatever comes out of the call, the predicate holds behind it.
abbrev pub Keeps : {S A : Type 0} → (S → Type 0) → Act S A → Type 0
Keeps {S} P act = (s : S) → P s → P (act s).1

module _ {S : Type 0} (P : S → Type 0) where
  continue_keeps :
      {A B : Type 0} (r : Outcome A × S) (f : A → Act S B)
      → P r.1
      → ((a : A) → Keeps P (f a))
      → P (continue r f).1
  continue_keeps (ok a, s) f p h = h a s p
  continue_keeps (err e, s) f p h = p

  pub then-Keeps :
      {A B : Type 0} (act : Act S A) (f : A → Act S B)
      → Keeps P act
      → ((a : A) → Keeps P (f a))
      → Keeps P (act >>= f)
  then-Keeps act f k h s p = continue_keeps (act s) f (k s p) h

  handle_keeps :
      {A : Type 0} (r : Outcome A × S) (f : Raised → Act S A)
      → P r.1
      → ((e : Raised) → Keeps P (f e))
      → P (handle r f).1
  handle_keeps (ok a, s) f p h = p
  handle_keeps (err e, s) f p h = h e s p

  try-Keeps :
      {A : Type 0} (act : Act S A) (f : Raised → Act S A)
      → Keeps P act
      → ((e : Raised) → Keeps P (f e))
      → Keeps P (try_except act f)
  try-Keeps act f k h s p = handle_keeps (act s) f (k s p) h

abbrev pub is_delete : Method → Bool
is_delete delete = true
is_delete _ = false

module _ (quantities : QuantityLib) (lib : ClientLib) (P : lib.State → Type 0) where
  -- The calls of the api other than `delete` keep the predicate, and so does the decorator of `create`.
  abbrev pub Spares : Type 0
  Spares =
      (m : Method) (kind : String) (args : Args) (dry_run : Bool) (s : lib.State)
      → is_delete m ≡ false
      → P s
      → P (lib.call m kind args dry_run s).1

  abbrev pub RetryKeeps : Type 1
  RetryKeeps = (A : Type 0) (act : Act lib.State A) → Keeps P act → Keeps P (lib.retry act)

  abbrev InWorld : World lib.State → Type 0
  InWorld w = P w.cluster

  outcome_keeps : {S : Type 0} (Q : S → Type 0) (r : Reply × S) → Q r.1 → Q (outcome_of r).1
  outcome_keeps Q (answer fs, s) q = q
  outcome_keeps Q (failure f, s) q = q

  module _ (spares : Spares) (o : K8sObject) (namespace : Option String) where
    invoke-Keeps :
        (m : Method) (args : Args) → is_delete m ≡ false → Keeps P (invoke_api lib o m args false)
    unfolding invoke_api
    invoke-Keeps m args other s p =
        outcome_keeps P (lib.call m o.kind args false s) (spares m o.kind args false s other p)

    create_failed-Keeps : (e : Raised) → Keeps P (create_failed lib e)
    unfolding create_failed
    create_failed-Keeps (api f) s p = elim (Bool-cases (already_exists f)) [
      | inr other ↦ rw other p
      | inl exists ↦ elim (Bool-cases (is_being_deleted f)) [
        | inl leaving ↦ rw (exists, leaving) p
        | inr staying ↦ rw (exists, staying) p
      ]
    ]
    create_failed-Keeps _ s p = p

    create_once-Keeps : Keeps P (create_once lib o namespace false)
    unfolding create_once
    create_once-Keeps s p =
        let made = invoke_api lib o create (prepare_args lib o namespace false true) false s in
        handle_keeps P (continue made (λ fs. return (some fs))) (create_failed lib)
          (continue_keeps P made (λ fs. return (some fs)) (invoke-Keeps create _ refl s p)
            (λ fs t q. q))
          create_failed-Keeps

    compared-Keeps : {A : Type 0} (r : Result A) → Keeps InWorld (compared r)
    compared-Keeps (Comparer.ok a) w p = p
    compared-Keeps (Comparer.err e) w p = p

    document-Keeps : (v : Value) → Keeps InWorld (as_document v)
    document-Keeps (dict fs) w p = p
    document-Keeps _ w p = p

    cluster-Keeps :
        {A : Type 0} (act : Act lib.State A) → Keeps P act → Keeps InWorld (in_cluster act)
    cluster-Keeps act k w p = k w.cluster p

    module _ (delete_timeout n : ℕ) where
      patch_node-Keeps :
          (r : CompareResult)
          → Keeps InWorld (patch_node quantities lib delete_timeout n o namespace r)
      unfolding patch_node patch_object
      patch_node-Keeps r w p =
          let patching : Fields → Act (World lib.State) (Option Fields) = λ doc.
            in_cluster (patch_object lib o namespace false (some doc)) >>= λ fs. return (some fs) in
          continue_keeps InWorld (continue (compared (patch_document r) w) as_document) patching
            (continue_keeps InWorld (compared (patch_document r) w) as_document
              (compared-Keeps (patch_document r) w p) document-Keeps)
            (λ doc v q.
              continue_keeps InWorld (in_cluster (patch_object lib o namespace false (some doc)) v)
                (λ fs. return (some fs)) (invoke-Keeps patch _ refl v.cluster q) (λ fs u k. k))

      replace_volume :
          get_manager o ≡ volume
          → replace_object lib delete_timeout n o namespace false ≡ raise runtime_error
      unfolding replace_object
      replace_volume e =
          ap {A = ManagerKind}
            (λ m. elim m [
              | volume ↦ raise runtime_error
              | _ ↦ replace_base lib delete_timeout n o namespace false
            ])
            e

      module _ (is_volume : get_manager o ≡ volume) where
        act_on-Keeps :
            (r : CompareResult)
            → Keeps InWorld (act_on quantities lib delete_timeout n o namespace r)
        unfolding act_on
        act_on-Keeps r w p = elim (Bool-cases (no_action_needed r)) [
          | inl equal ↦ rw equal p
          | inr differ ↦ elim (Bool-cases (needs_a_patch r)) [
            | inl patched ↦ rw (differ, patched) (patch_node-Keeps r w p)
            | inr replaced ↦
                rw (differ, replaced)
                  (subst {A = Act lib.State (Option Fields)} (λ act. P (act w.cluster).1)
                    (sym (replace_volume is_volume)) p)
          ]
        ]

        update_node-Keeps : Keeps InWorld (update_node quantities lib delete_timeout n o namespace)
        unfolding update_node read_object
        update_node-Keeps w p =
            let found = in_cluster (read_object lib o namespace) w in
            let decide : Fields → Act (World lib.State) CompareResult =
              λ existing. compared (determine_update_action quantities o.kind o.spec existing) in
            let acting : CompareResult → Act (World lib.State) (Option Fields) =
              λ r. note (compare r) >>= λ _. act_on quantities lib delete_timeout n o namespace r in
            continue_keeps InWorld found (λ existing. decide existing >>= acting)
              (invoke-Keeps read _ refl w.cluster p)
              (λ existing v q.
                continue_keeps InWorld (decide existing v) acting
                  (compared-Keeps (determine_update_action quantities o.kind o.spec existing) v q)
                  (λ r u k. act_on-Keeps r _ k))

        create_missing-Keeps :
            RetryKeeps
            → (e : Raised)
            → Keeps InWorld (create_missing quantities lib delete_timeout n o namespace e)
        unfolding create_missing create_object
        create_missing-Keeps retries (api f) w p = elim (Bool-cases (not_found f)) [
          | inr other ↦ rw other p
          | inl missing ↦ rw missing (
              continue_keeps InWorld (in_cluster (create_object lib o namespace false) w)
                (λ made. note new_obj >>= λ _. return made)
                (retries (Option Fields) (create_once lib o namespace false) create_once-Keeps
                  w.cluster p)
                (λ made v q. q))
        ]
        create_missing-Keeps retries _ w p = p

-- For an object of the kind PersistentVolume or PersistentVolumeClaim, `_apply_node` makes no `delete` call:
-- what all the other calls of the api keep holds behind it, if it holds before and the decorator of
-- `create` keeps what it decorates keeps.
pub apply_node-Keeps :
    (quantities : QuantityLib) (lib : ClientLib) (P : lib.State → Type 0)
    → Spares quantities lib P
    → RetryKeeps quantities lib P
    → (delete_timeout n : ℕ) (o : K8sObject) (namespace : Option String) → IsVolume o
    → Keeps (λ w. P w.cluster) (apply_node quantities lib delete_timeout n o namespace)
unfolding apply_node
apply_node-Keeps quantities lib P spares retries delete_timeout n o namespace of_kind w p =
    let is_volume = IsVolume-get_manager o of_kind in
    handle_keeps (λ w. P w.cluster) (update_node quantities lib delete_timeout n o namespace w)
      (create_missing quantities lib delete_timeout n o namespace)
      (update_node-Keeps quantities lib P spares o namespace delete_timeout n is_volume w p)
      (create_missing-Keeps quantities lib P spares o namespace delete_timeout n is_volume retries)
