-- ===== src/Templates/Container/Mounts.antt =====
-- What a container mounts, and the volumes it asks for.
use pyceli.Base.{
  String, List, [], ◌∷◌, All, Any, none, ◌≡◌, refl, ap, subst, All-map, inl, inr, arith,
}
use pyceli.Manager.Client.{Outcome, ok}
use pyceli.Templates.Raise.{bind_returns, ok-injective}
use pyceli.Templates.Volume.{
  VolumeMount, pvc, pvc_template, config_map, secret, empty_dir, unsupported, PodVolume, Mount,
  secret_keys, volume_claim, volume_mount,
}
use pyceli.Templates.Container.{collect}

-- Each argument has a result, which is in the list.
pub collect-All :
    {A B : Type 0} (f : A → Outcome B) (xs : List A) (ys : List B)
    → collect f xs ≡ ok ys
    → All (λ x. (y : B) × (f x ≡ ok y) × Any (λ z. z ≡ y) ys) xs
unfolding collect
collect-All f [] ys h = tt
collect-All f (x ∷ xs) ys h =
    let (y, first, then_) = bind_returns (f x) _ h in
    let (zs, rest, last) = bind_returns (collect f xs) _ then_ in
    let e : y ∷ zs ≡ ys = ok-injective last in
    (
      (y, first, subst (Any (λ z. z ≡ y)) e (inl refl)),
      subst (λ l. All (λ x. (y : _) × (f x ≡ ok y) × Any (λ z. z ≡ y) l) xs) e
          (All-map xs (λ x (y, p, m). (y, p, inr m)) (collect-All f xs zs rest)),
    )

-- Each result is that of an argument.
pub collect-Any :
    {A B : Type 0} (f : A → Outcome B) (xs : List A) (ys : List B)
    → collect f xs ≡ ok ys
    → All (λ y. Any (λ x. f x ≡ ok y) xs) ys
unfolding collect
collect-Any f [] ys h = subst (All (λ y. Any (λ x. f x ≡ ok y) [])) (ok-injective h) tt
collect-Any f (x ∷ xs) ys h =
    let (y, first, then_) = bind_returns (f x) _ h in
    let (zs, rest, last) = bind_returns (collect f xs) _ then_ in
    subst (All (λ y. Any (λ x. f x ≡ ok y) (x ∷ xs))) (ok-injective last)
      (inl first, All-map zs (λ z m. inr m) (collect-Any f xs zs rest))

-- Where a mount asks for a volume, the container mounts it by its name.
pub volume_claim-volume_mount :
    (name : String) (v : VolumeMount) (w : PodVolume)
    → volume_claim name v ≡ ok w
    → (m : Mount) × (volume_mount name v ≡ ok m) × (m.name ≡ w.name)
volume_claim-volume_mount name (pvc path c sub) w h = (
  record { name = name; mount_path = path; sub_path = sub },
  refl,
  ap (λ v. v.name) (ok-injective h),
)
volume_claim-volume_mount name (pvc_template path t sub) w h = (
  record { name = t.name; mount_path = path; sub_path = sub },
  refl,
  ap (λ v. v.name) (ok-injective h),
)
volume_claim-volume_mount name (config_map path c mode) w h = (
  record { name = name; mount_path = path; sub_path = none },
  refl,
  ap (λ v. v.name) (ok-injective h),
)
volume_claim-volume_mount name (secret path s mode) w h =
    let (found, e, last) = bind_returns (secret_keys s) _ h in
    (
      record { name = name; mount_path = path; sub_path = none },
      refl,
      ap (λ v. v.name) (ok-injective last),
    )
volume_claim-volume_mount name (empty_dir path own) w h = (
  record { name = name; mount_path = path; sub_path = none },
  refl,
  ap (λ v. v.name) (ok-injective h),
)
volume_claim-volume_mount name (unsupported path) w h = absurd (ground arith)
