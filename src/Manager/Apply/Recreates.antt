-- ===== src/Manager/Apply/Recreates.antt =====
-- What `_apply_node` comes to where the object is missing or has to be replaced: it is created anew.
use pyceli.Base.{ℕ, ◌≡◌, false, List, ◌++◌, Option, some, String}
use pyceli.Objects.{K8sObject}
use pyceli.Compare.Value.{Fields}
use pyceli.Compare.Comparer.{QuantityLib, Result, equals, needs_patch, needs_replacement}
use pyceli.Compare.Comparer
use pyceli.Compare.Action.{CompareResult, determine_update_action, no_action_needed, needs_a_patch}
use pyceli.Manager.Client.{ClientLib, ok}
use pyceli.Manager.Apply.{ApplyEvent, World, apply_node}
use pyceli.Manager.Apply.Serves.{Serves, Removes, RetryReturns}

module _ (lib : ClientLib) (o : K8sObject) (namespace : Option String)
    (view : lib.State → Option Fields) (Stored : Fields → Fields → Type 0) where
  module _ (serves : Serves lib o namespace view Stored)
      (retries : RetryReturns lib o namespace view Stored) where
    module _ (quantities : QuantityLib) (delete_timeout n : ℕ) where
      -- The call returns, the cluster behind it has what it makes of the spec, and these events were noted.
      abbrev pub Recreated : World lib.State → List ApplyEvent → Type 0
      Recreated w events =
          (a : Option Fields) × (v : World lib.State) × (apply_node quantities lib delete_timeout n
              o namespace w
            ≡ (ok a, v))
          × ((kept : Fields) × (view v.cluster ≡ some kept) × Stored o.spec kept)
          × (v.progress ≡ w.progress ++ events)

      -- The object is in the cluster, and the comparison says that it is to be replaced.
      pub record IsReplaced (w : World lib.State) (r : CompareResult) : Type 0 where
        pub existing : Fields
        pub found : view w.cluster ≡ some existing
        pub result : determine_update_action quantities o.kind o.spec existing ≡ Comparer.ok r
        pub changed : no_action_needed r ≡ false
        pub unpatched : needs_a_patch r ≡ false
        pub removed : Removes lib o namespace view Stored delete_timeout n w.cluster
