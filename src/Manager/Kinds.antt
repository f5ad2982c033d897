-- ===== src/Manager/Kinds.antt =====
-- The kinds of piceli/k8s/object_manager/factory.py that have the manager of the volumes.
use pyceli.Base.{◌≡◌, ◌⊎◌, arith, eq_iff}
use pyceli.Objects.{K8sObject}
use pyceli.Manager.{volume, get_manager}

-- A persistent volume, or a claim on one
abbrev pub IsVolume : K8sObject → Type 0
IsVolume o = (o.kind ≡ "PersistentVolume") ⊎ (o.kind ≡ "PersistentVolumeClaim")

pub IsVolume-get_manager : (o : K8sObject) → IsVolume o → get_manager o ≡ volume
unfolding get_manager
IsVolume-get_manager o h =
    ground (arith, eq_iff o.kind "PersistentVolume", eq_iff o.kind "PersistentVolumeClaim")

pub get_manager-IsVolume : (o : K8sObject) → get_manager o ≡ volume → IsVolume o
unfolding get_manager
get_manager-IsVolume o h =
    ground (arith, eq_iff o.kind "PersistentVolume", eq_iff o.kind "PersistentVolumeClaim")
