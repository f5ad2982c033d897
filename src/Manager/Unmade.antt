-- ===== src/Manager/Unmade.antt =====
-- What `apply` never does to a volume: it makes none.
use pyceli.Base.{ℕ, ◌≡◌, refl, sym, subst, Bool, true, false, Option, none, if-cases}
use pyceli.Objects.{K8sObject}
use pyceli.Compare.Value.{Fields}
use pyceli.Manager.Client.{
  ClientLib, Method, patch, read, Args, Reply, answer, failure, Outcome, ok, err, outcome_of,
}
use pyceli.Base.{String}
use pyceli.Manager.{ManagerKind, volume, invoke_api, read_object, patch_object}
use pyceli.Manager.Kinds.{IsVolume, IsVolume-get_manager}
use pyceli.Manager.Apply.Volumes.{Keeps, then-Keeps}
use pyceli.Manager.Waits.{
  SizeLib, get_storage, parsed, lift, apply_base, apply_volume_to, apply_volume, apply_object,
}

-- The two calls of the api that `apply` makes for a volume
abbrev pub is_gentle : Method → Bool
is_gentle read = true
is_gentle patch = true
is_gentle _ = false

module _ (lib : ClientLib) (P : lib.State → Type 0) where
  abbrev pub Gentle : Type 0
  Gentle =
      (m : Method) (kind : String) (args : Args) (dry_run : Bool) (s : lib.State)
      → is_gentle m ≡ true
      → P s
      → P (lib.call m kind args dry_run s).1

  invoke_gentle-Keeps :
      Gentle
      → (o : K8sObject) (m : Method) (args : Args) (dry_run : Bool) → is_gentle m ≡ true
      → Keeps P (invoke_api lib o m args dry_run)
  unfolding invoke_api
  invoke_gentle-Keeps gentle o m args dry_run is s p =
      outcome (lib.call m o.kind args dry_run s) (gentle m o.kind args dry_run s is p)
    where
      outcome : (r : Reply × lib.State) → P r.1 → P (outcome_of r).1
      outcome (answer fs, s) q = q
      outcome (failure f, s) q = q

  lift-Keeps : {A : Type 0} (out : Outcome A) → Keeps P (lift out)
  lift-Keeps (ok a) s p = p
  lift-Keeps (err r) s p = p

  module _ (gentle : Gentle) (sizes : SizeLib) (o : K8sObject) (namespace : Option String)
      (dry_run : Bool) (delete_timeout n : ℕ) where
    apply_volume_to-Keeps :
        (existing : Fields)
        → Keeps P (apply_volume_to lib sizes delete_timeout n o namespace dry_run existing)
    unfolding apply_volume_to patch_object
    apply_volume_to-Keeps existing =
        then-Keeps P (lift (get_storage o.kind existing)) _ (lift-Keeps _) (λ current.
          then-Keeps P (lift (parsed sizes current)) _ (lift-Keeps _) (λ size.
            then-Keeps P (lift (get_storage o.kind o.spec)) _ (lift-Keeps _) (λ wanted.
              then-Keeps P (lift (parsed sizes wanted)) _ (lift-Keeps _) (λ wanted_size.
                if-cases (Keeps P) (sizes.above size wanted_size) (λ _ s p. p)
                  (λ _.
                    then-Keeps P (patch_object lib o namespace dry_run none) _
                      (invoke_gentle-Keeps gentle o patch _ dry_run refl) (λ fs s p. p))))))

-- For an object of the kind PersistentVolume or PersistentVolumeClaim, `apply` makes only `read` and `patch`
-- calls, on every branch and also when the volume is missing: what these two calls keep holds behind it, if
-- it holds before.
pub apply_object-Keeps :
    (lib : ClientLib) (P : lib.State → Type 0)
    → Gentle lib P
    → (sizes : SizeLib) (o : K8sObject) (namespace : Option String) (dry_run : Bool)
      (delete_timeout n : ℕ)
    → IsVolume o
    → Keeps P (apply_object lib sizes delete_timeout n o namespace dry_run)
unfolding apply_object apply_volume read_object
apply_object-Keeps lib P gentle sizes o namespace dry_run delete_timeout n of_kind =
    subst {A = ManagerKind}
      (λ kind. Keeps P (elim kind [
        | volume ↦ apply_volume lib sizes delete_timeout n o namespace dry_run
        | _ ↦ apply_base lib sizes delete_timeout n o namespace dry_run
      ]))
      (sym (IsVolume-get_manager o of_kind))
      (then-Keeps P (read_object lib o namespace) _
        (invoke_gentle-Keeps lib P gentle o read _ false refl)
        (apply_volume_to-Keeps lib P gentle sizes o namespace dry_run delete_timeout n))
