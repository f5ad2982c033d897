-- ===== src/Manager/Tests.antt =====
-- A cluster in memory, and the theorems of the folder at concrete inputs.
use pyceli.Base.{
  ℕ, zero, suc, inr, String, true, false, [], ◌∷◌, Option, none, some, ◌≡◌, refl, arith,
}
use pyceli.Objects.{K8sObject}
use pyceli.Compare.Value.{Fields, end, field, text, dict, value_eq, Value}
use pyceli.Compare.KeyPath.{dict_key}
use pyceli.Compare.Comparer
use pyceli.Compare.Comparer.{QuantityLib, needs_replacement}
use pyceli.Compare.Action.{CompareResult}
use pyceli.Manager.Client.{
  Method, create, delete, list, patch, read, Args, Failure, Reply, answer, failure, ClientLib,
}
use pyceli.Manager.Kinds.{IsVolume}
use pyceli.Manager.Apply.{World, apply_node}
use pyceli.Manager.Apply.Volumes.{is_delete, apply_node-Keeps}
use pyceli.Manager.Apply.Serves.{Serves}

-- One object, or none, how often it was deleted, the seconds until it is gone, if it is being deleted, and
-- the clock
record Memory : Type 0 where
  held : Option Fields
  deletions : ℕ
  leaving : ℕ
  clock : ℕ

abbrev missing : Failure
missing = record { reason = "NotFound"; message = "secrets not found" }

abbrev existing : Failure
existing = record { reason = "AlreadyExists"; message = "secrets already exists" }

abbrev spec_of : Option Fields → Fields
spec_of none = end
spec_of (some fs) = fs

-- The server adds an id of its own to what it stores.
abbrev with_uid : Fields → Fields
with_uid fs = field "uid" (text "1") fs

abbrev stored : Option Fields → Option Fields
stored none = none
stored (some fs) = some (with_uid fs)

-- A second later
abbrev later : ℕ → Memory → Memory
later zero s = record s { clock = suc s.clock }
later (suc zero) s = record s { held = none; leaving = 0; clock = suc s.clock }
later (suc (suc k)) s = record s { leaving = suc k; clock = suc s.clock }

abbrev serve : Method → Option Fields → Args → Memory → Reply × Memory
serve read none args s = (failure missing, s)
serve read (some fs) args s = (answer fs, s)
serve create none args s =
    (answer (spec_of (stored args.body)), record s { held = stored args.body })
serve create (some fs) args s = (failure existing, s)
serve delete none args s = (failure missing, s)
serve delete (some fs) args s = (answer fs, record s { deletions = suc s.deletions; leaving = 2 })
serve patch none args s = (failure missing, s)
serve patch (some fs) args s = (answer (spec_of args.body), record s { held = args.body })
serve list held args s = (answer end, s)

abbrev in_memory : ClientLib
in_memory = record {
  State = Memory;
  call = λ m kind args dry_run s. serve m s.held args s;
  namespaced = λ kind. true;
  now = λ s. s.clock;
  sleep = λ s. later s.leaving s;
  retry = λ act. act;
}

abbrev verbatim : QuantityLib
verbatim = record { Amount = Value; parse_quantity = λ v. some v; amount_eq = value_eq }

abbrev claim : K8sObject
claim = record { spec = end; name = "data"; kind = "PersistentVolumeClaim"; namespace = none }

abbrev labels : String → Fields
labels app = field "spec" (dict (field "selector" (dict (field "app" (text app) end)) end)) end

abbrev web : K8sObject
web = record { spec = labels "web"; name = "web"; kind = "Deployment"; namespace = none }

abbrev empty_world : World Memory
empty_world = record {
  cluster = record { held = none; deletions = 0; leaving = 0; clock = 0 };
  progress = [];
}

abbrev Undeleted : Memory → Type 0
Undeleted s = s.deletions ≡ 0

serve-Undeleted :
    (m : Method) (held : Option Fields) (args : Args) (s : Memory)
    → is_delete m ≡ false
    → Undeleted s
    → Undeleted (serve m held args s).1
serve-Undeleted read none args s other p = p
serve-Undeleted read (some fs) args s other p = p
serve-Undeleted create none args s other p = p
serve-Undeleted create (some fs) args s other p = p
serve-Undeleted delete held args s other p = absurd (ground arith)
serve-Undeleted patch none args s other p = p
serve-Undeleted patch (some fs) args s other p = p
serve-Undeleted list held args s other p = p

claim-IsVolume : IsVolume claim
claim-IsVolume = inr refl

apply_node-Keeps_example :
    Undeleted (apply_node verbatim in_memory 60 5 claim none empty_world).1.cluster
apply_node-Keeps_example =
    apply_node-Keeps verbatim in_memory Undeleted
      (λ m kind args dry_run s. serve-Undeleted m s.held args s) (λ A act keeps. keeps) 60 5 claim
      none claim-IsVolume empty_world refl

abbrev held_spec : Memory → Option Fields
held_spec s = s.held

abbrev AddsUid : Fields → Fields → Type 0
AddsUid body kept = kept ≡ with_uid body

abbrev old_world : World Memory
old_world = record {
  cluster = record { held = some (labels "old"); deletions = 0; leaving = 0; clock = 0 };
  progress = [];
}

abbrev selector_result : CompareResult
selector_result = record {
  desired_spec = labels "web";
  existing_spec = labels "old";
  update_action = needs_replacement;
  differences = record {
    considered =
        record {
          path = dict_key "spec" ∷ dict_key "selector" ∷ dict_key "app" ∷ [];
          existing = text "old";
          desired = text "web";
        }
        ∷ [];
    ignored = [];
    defaults = [];
  };
}
