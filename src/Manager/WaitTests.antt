-- ===== src/Manager/WaitTests.antt =====
-- Waits on concrete events, and the theorems on them and on `apply` at concrete inputs.
use pyceli.Base.{ℕ, suc, arith, inr, String, ◌≡◌, refl, true, false, List, [], ◌∷◌, Any, none, some}
use pyceli.Objects.{K8sObject}
use pyceli.Compare.Value.{Value, end}
use pyceli.Manager.Client.{
  ClientLib, Method, read, create, patch, delete, list, failure, ok, err, attribute_error,
}
use pyceli.Manager.Kinds.{IsVolume}
use pyceli.Manager.Wait.{
  Condition, Status, Watched, Event, Pod, WaitResult, exists_ok, conditions_ok, Criteria, Stream,
  Address, Endpoints, WatchLib, process_event, wait_for,
}
use pyceli.Manager.Wait
use pyceli.Manager.Wait.Met.{Met}
use pyceli.Manager.Wait.Watch.{wait_for-Met, wait_for_added}
use pyceli.Manager.Waits.{SizeLib, apply_object}
use pyceli.Manager.Unmade.{is_gentle, apply_object-Keeps}

-- A watch with fixed events, of an object without pods
abbrev watching : List Event → WatchLib ℕ
watching es = record {
  watch = λ kind namespace name s. (record { events = es; breaks = false }, s);
  watch_endpoints = λ namespace name s. (record { events = []; breaks = false }, s);
  list_pods = λ namespace kind name s. (ok [], s);
  retry_http = λ act. act;
}

-- A deployment that is not available
abbrev unavailable : Status
unavailable = record {
  conditions = Wait.there (record { kind = "Available"; status = "" } ∷ []);
  phase = Wait.missing;
  failed = Wait.missing;
  container_statuses = Wait.missing;
  replicas = none;
}

abbrev available : Status
available = record unavailable {
  conditions = Wait.there (record { kind = "Available"; status = "True" } ∷ []);
}

abbrev event : String → Status → Event
event kind status = record {
  kind = some kind;
  object = record { kind = Wait.there "Deployment"; metadata = none; status = Wait.there status };
}

abbrev until_available : Criteria
until_available = record {
  condition = some "Available";
  phases = [];
  check_readiness = false;
  check_replicas = false;
}

abbrev changes : List Event
changes = event "MODIFIED" unavailable ∷ event "MODIFIED" available ∷ []

wait_for-changes :
    wait_for (watching changes) until_available "Deployment" none "web" 7 ≡ (ok conditions_ok, 7)
unfolding wait_for process_event
wait_for-changes = refl

wait_for-Met_example : (u : ℕ) × Any (λ e. Met until_available e conditions_ok) changes
wait_for-Met_example =
    wait_for-Met (watching changes) (λ A act s t a h. (s, h)) until_available "Deployment" none
      "web" 7 7 conditions_ok wait_for-changes

-- A change of an object whose class has no status, as that of a ConfigMap
abbrev config_change : Event
config_change = record {
  kind = some "MODIFIED";
  object = record { kind = Wait.there "ConfigMap"; metadata = none; status = Wait.missing };
}

no_status_raises :
    wait_for (watching (config_change ∷ [])) until_available "ConfigMap" none "web" 7
    ≡ (err attribute_error, 7)
unfolding wait_for process_event
no_status_raises = refl

wait_for_added_example :
    wait_for (watching (event "ADDED" unavailable ∷ [])) until_available "Deployment" none "web" 7
    ≡ (ok exists_ok, 7)
wait_for_added_example =
    wait_for_added (watching (event "ADDED" unavailable ∷ [])) (λ A act s t a h. h) until_available
      "Deployment" none "web" 7 (event "ADDED" unavailable) [] refl refl

-- A cluster without volumes, that counts the calls of `create` and `delete`
abbrev counted : Method → ℕ → ℕ
counted create s = suc s
counted delete s = suc s
counted _ s = s

abbrev no_volumes : ClientLib
no_volumes = record {
  State = ℕ;
  call = λ m kind args dry_run s.
      (failure (record { reason = "NotFound"; message = "" }), counted m s);
  namespaced = λ kind. true;
  now = λ s. 0;
  sleep = λ s. s;
  retry = λ act. act;
}

abbrev whole_sizes : SizeLib
whole_sizes = record { Amount = Value; parse_quantity = λ v. some v; above = λ a b. false }

abbrev data_claim : K8sObject
data_claim = record { spec = end; name = "data"; kind = "PersistentVolumeClaim"; namespace = none }

data_claim-IsVolume : IsVolume data_claim
data_claim-IsVolume = inr refl

counted_gentle : (m : Method) (s : ℕ) → is_gentle m ≡ true → s ≡ 0 → counted m s ≡ 0
counted_gentle read s g h = h
counted_gentle patch s g h = h
counted_gentle create s g h = absurd (ground arith)
counted_gentle delete s g h = absurd (ground arith)
counted_gentle list s g h = absurd (ground arith)

apply_object-Keeps_example :
    (apply_object no_volumes whole_sizes 60 5 data_claim none false 0).1 ≡ 0
apply_object-Keeps_example =
    apply_object-Keeps no_volumes (λ s. s ≡ 0) (λ m kind args dry_run s. counted_gentle m s)
      whole_sizes data_claim none false 60 5 data_claim-IsVolume 0 refl
