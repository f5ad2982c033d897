-- ===== src/Manager/Apply/Serves.antt =====
-- What the api is taken to do on the calls of piceli/k8s/object_manager/base.py for an object, and how its loop
-- of `replace` ends on such an api.
use pyceli.Base.{ℕ, suc, ◌+◌, ◌≤◌, ltb, arith, ◌≡◌, refl, true, false, Option, none, some, String}
use pyceli.Objects.{K8sObject}
use pyceli.Compare.Value.{Fields}
use pyceli.Manager.Client.{
  ClientLib, Args, create, delete, read, answer, failure, Failure, api, ok, err, Act, not_found,
}
use pyceli.Manager.{prepare_args, invoke_api, read_object, wait_deleted}

module _ (lib : ClientLib) (o : K8sObject) (namespace : Option String)
    (view : lib.State → Option Fields) (Stored : Fields → Fields → Type 0) where
  -- What the api does on calls for the object, where `view` is what it has: it stores what it makes of the body
  -- of a `create`, and takes a `delete`, which is not to say that the object is gone behind it.
  pub record Serves : Type 0 where
    pub reads :
        (s : lib.State) (fs : Fields)
        → view s ≡ some fs
        → lib.call read o.kind (prepare_args lib o namespace true false) false s ≡ (answer fs, s)
    pub misses :
        (s : lib.State)
        → view s ≡ none
        → (f : Failure) × (not_found f ≡ true)
          × (lib.call read o.kind (prepare_args lib o namespace true false) false s
              ≡ (failure f, s))
    pub creates :
        (s : lib.State) (args : Args) (body : Fields)
        → view s ≡ none
        → args.body ≡ some body
        → args.namespace ≡ (prepare_args lib o namespace true false).namespace
        → (fs : Fields) × (t : lib.State) × (kept : Fields) × (lib.call create o.kind args false s
            ≡ (answer fs, t))
          × (view t ≡ some kept)
          × Stored body kept
    pub deletes :
        (s : lib.State) (fs : Fields)
        → view s ≡ some fs
        → (last : Fields) × (t : lib.State) × (lib.call delete o.kind
              (prepare_args lib o namespace true false)
              false
              s
            ≡ (answer last, t))

  -- The object is gone at one of the next reads, at most so many, between which the code sleeps, and before the
  -- limit of the time.
  pub data Going (limit : ℕ) : ℕ → lib.State → lib.State → Type 0 where
    gone : {n : ℕ} {s : lib.State} → view s ≡ none → Going limit (suc n) s s
    still :
        {n : ℕ} {s t : lib.State} (fs : Fields)
        → view s ≡ some fs
        → lib.now s ≤ limit
        → Going limit n (lib.sleep s) t
        → Going limit (suc n) s t

  -- The cluster removes an object that is deleted in time.
  abbrev pub Removes : ℕ → ℕ → lib.State → Type 0
  Removes delete_timeout n s =
      (last : Fields) (t : lib.State)
      → lib.call delete o.kind (prepare_args lib o namespace true false) false s ≡ (answer last, t)
      → (u : lib.State) × Going (lib.now t + delete_timeout) n t u

  -- The decorator of `create` hands on what the first attempt returns.
  abbrev pub RetryReturns : Type 0
  RetryReturns =
      (act : Act lib.State (Option Fields)) (s t : lib.State) (a : Option Fields)
      → act s ≡ (ok a, t)
      → lib.retry act s ≡ (ok a, t)

  module _ (serves : Serves) where
    -- The loop ends with the read that misses the object.
    pub wait_deleted-Going :
        (limit n : ℕ) (s t : lib.State)
        → Going limit n s t
        → (f : Failure) × (not_found f ≡ true)
          × (wait_deleted lib o namespace limit n s ≡ (err (api f), t))
          × (view t ≡ none)
    unfolding wait_deleted read_object invoke_api
    wait_deleted-Going limit _ s _ (gone free) =
        let (f, missing, fails) = serves.misses s free in (f, missing, rw fails refl, free)
    wait_deleted-Going limit (suc n) s t (still fs there early later) =
        let reads = serves.reads s fs there in
        let in_time : ltb limit (lib.now s) ≡ false = ground (arith, early) in
        let (f, missing, ends, free) = wait_deleted-Going limit n (lib.sleep s) t later in
        (f, missing, rw (reads, in_time) ends, free)
