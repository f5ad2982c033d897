-- ===== src/Manager/Client.antt =====
-- The client library that piceli/k8s/object_manager calls, as a parameter, and the failures of its calls
-- as piceli/k8s/exceptions/api_exceptions.py reads them.
use pyceli.Base.{ℕ, String, str_eq, Bool, true, false, ◌||◌, ◌&&◌, ◌==◌, Option}
use Prim.Native.Char.{code}
use pyceli.Compare.Value.{Fields}
use pyceli.Compare.Comparer.{Error}

-- The calls of an api, `utils_api.get_available_api_methods`
pub data Method : Type 0 where
  create delete list patch read : Method

-- The arguments of a call: each is left out where it is `none`.
pub record Args : Type 0 where
  pub name : Option String
  pub namespace : Option String
  pub body : Option Fields

-- `ApiOperationException`, with the parts that the code looks at
pub record Failure : Type 0 where
  pub reason : String
  pub message : String

unfoldable pub starts_with : String → String → Bool
starts_with String.[] s = true
starts_with (String.◌∷◌ c p) String.[] = false
starts_with (String.◌∷◌ c p) (String.◌∷◌ d s) = code c == code d && starts_with p s

-- `part in s`
unfoldable pub has_text : String → String → Bool
unfolding starts_with
has_text part String.[] = starts_with part String.[]
has_text part (String.◌∷◌ c s) = starts_with part (String.◌∷◌ c s) || has_text part s

abbrev pub not_found : Failure → Bool
not_found f = str_eq f.reason "NotFound"

abbrev pub already_exists : Failure → Bool
already_exists f = str_eq f.reason "AlreadyExists"

unfoldable pub is_being_deleted : Failure → Bool
unfolding has_text
is_being_deleted f = has_text "object is being deleted" f.message

unfoldable pub is_immutable_field_error : Failure → Bool
unfolding has_text
is_immutable_field_error f = has_text "Forbidden:" f.message && has_text "is immutable" f.message

-- What the api answers: the object of the call, or a failure
pub data Reply : Type 0 where
  answer : Fields → Reply
  failure : Failure → Reply

-- What the managers and the executor raise. `out_of_fuel` belongs to the model only.
pub data Raised : Type 0 where
  api : Failure → Raised
  comparison : Error → Raised
  retry_exception retry_error runtime_error no_action key_error type_error attribute_error
        value_error :
      Raised
  wait_exception pull_image_error http_error out_of_fuel : Raised

pub data Outcome (A : Type 0) : Type 0 where
  ok : A → Outcome A
  err : Raised → Outcome A

-- A call of the code: from the state before it to what comes out and the state behind it
abbrev pub Act : Type 0 → Type 0 → Type 0
Act S A = S → Outcome A × S

abbrev pub continue : {S A B : Type 0} → Outcome A × S → (A → Act S B) → Outcome B × S
continue (ok a, s) f = f a s
continue (err e, s) f = (err e, s)

infixl 5 ◌>>=◌
abbrev pub ◌>>=◌ : {S A B : Type 0} → Act S A → (A → Act S B) → Act S B
(act >>= f) s = continue (act s) f

abbrev pub return : {S A : Type 0} → A → Act S A
return a s = (ok a, s)

abbrev pub raise : {S A : Type 0} → Raised → Act S A
raise e s = (err e, s)

abbrev pub handle : {S A : Type 0} → Outcome A × S → (Raised → Act S A) → Outcome A × S
handle (ok a, s) handler = (ok a, s)
handle (err e, s) handler = handler e s

-- `try: act` with `except ... as ex: handler(ex)`
abbrev pub try_except : {S A : Type 0} → Act S A → (Raised → Act S A) → Act S A
try_except act handler s = handle (act s) handler

-- The cluster behind the client library. `retry` is the decorator of tenacity.
pub record ClientLib : Type 1 where
  pub State : Type 0
  pub call : Method → String → Args → Bool → State → Reply × State
  pub namespaced : String → Bool
  pub now : State → ℕ
  pub sleep : State → State
  pub retry : {A : Type 0} → Act State A → Act State A

abbrev pub outcome_of : {S : Type 0} → Reply × S → Outcome Fields × S
outcome_of (answer fs, s) = (ok fs, s)
outcome_of (failure f, s) = (err (api f), s)
