-- ===== src/Compare/Comparer/Tables.antt =====
-- The tables of paths of piceli/k8s/ops/compare/object_comparer.py. They are sets there; the order
-- of a set is not used.
use pyceli.Base.{String, List, [], ◌∷◌}
use pyceli.Compare.KeyPath.{dict_key, wildcard, KeyPath}

-- `IGNORED_PATHS`
unfoldable pub ignored_paths : List KeyPath
ignored_paths =
    (dict_key "metadata" ∷ dict_key "creationTimestamp" ∷ [])
    ∷ (dict_key "metadata" ∷ dict_key "finalizers" ∷ [])
    ∷ (dict_key "metadata" ∷ dict_key "labels" ∷ dict_key "kubernetes.io/metadata.name" ∷ [])
    ∷ (dict_key "metadata" ∷ dict_key "managedFields" ∷ [])
    ∷ (dict_key "metadata" ∷ dict_key "resourceVersion" ∷ [])
    ∷ (dict_key "metadata" ∷ dict_key "uid" ∷ [])
    ∷ (dict_key "metadata" ∷ dict_key "namespace" ∷ [])
    ∷ (dict_key "metadata" ∷ dict_key "annotations" ∷ [])
    ∷ (dict_key "metadata" ∷ dict_key "generation" ∷ [])
    ∷ (dict_key "spec" ∷ dict_key "finalizers" ∷ [])
    ∷ (dict_key "status" ∷ [])
    ∷ []

-- `DEFAULTED_PATHS`
unfoldable pub defaulted_paths : List KeyPath
defaulted_paths =
    (dict_key "spec" ∷ dict_key "storageClassName" ∷ [])
    ∷ (dict_key "spec" ∷ dict_key "volumeMode" ∷ [])
    ∷ (dict_key "spec" ∷ dict_key "volumeName" ∷ [])
    ∷ (dict_key "reclaimPolicy" ∷ [])
    ∷ (dict_key "volumeBindingMode" ∷ [])
    ∷ (wildcard
        ∷ dict_key "spec"
        ∷ dict_key "containers"
        ∷ wildcard
        ∷ dict_key "terminationMessagePath"
        ∷ [])
    ∷ (wildcard
        ∷ dict_key "spec"
        ∷ dict_key "containers"
        ∷ wildcard
        ∷ dict_key "terminationMessagePolicy"
        ∷ [])
    ∷ (wildcard
        ∷ dict_key "spec"
        ∷ dict_key "containers"
        ∷ wildcard
        ∷ dict_key "imagePullPolicy"
        ∷ [])
    ∷ (dict_key "spec" ∷ dict_key "template" ∷ dict_key "spec" ∷ dict_key "schedulerName" ∷ [])
    ∷ (dict_key "spec" ∷ dict_key "template" ∷ dict_key "spec" ∷ dict_key "restartPolicy" ∷ [])
    ∷ (dict_key "spec"
        ∷ dict_key "template"
        ∷ dict_key "spec"
        ∷ dict_key "terminationGracePeriodSeconds"
        ∷ [])
    ∷ (dict_key "spec" ∷ dict_key "template" ∷ dict_key "spec" ∷ dict_key "dnsPolicy" ∷ [])
    ∷ (dict_key "spec" ∷ dict_key "strategy" ∷ dict_key "type" ∷ [])
    ∷ (dict_key "spec" ∷ dict_key "strategy" ∷ dict_key "rollingUpdate" ∷ dict_key "maxSurge" ∷ [])
    ∷ (dict_key "spec"
        ∷ dict_key "strategy"
        ∷ dict_key "rollingUpdate"
        ∷ dict_key "maxUnavailable"
        ∷ [])
    ∷ (dict_key "spec" ∷ dict_key "revisionHistoryLimit" ∷ [])
    ∷ (dict_key "spec" ∷ dict_key "progressDeadlineSeconds" ∷ [])
    ∷ (dict_key "spec" ∷ dict_key "type" ∷ [])
    ∷ (dict_key "spec" ∷ dict_key "ipFamilies" ∷ [])
    ∷ (dict_key "spec" ∷ dict_key "clusterIP" ∷ [])
    ∷ (dict_key "spec" ∷ dict_key "sessionAffinity" ∷ [])
    ∷ (dict_key "spec" ∷ dict_key "clusterIPs" ∷ [])
    ∷ (dict_key "spec" ∷ dict_key "ipFamilyPolicy" ∷ [])
    ∷ (dict_key "spec" ∷ dict_key "internalTrafficPolicy" ∷ [])
    ∷ (dict_key "spec" ∷ dict_key "failedJobsHistoryLimit" ∷ [])
    ∷ (dict_key "spec"
        ∷ dict_key "jobTemplate"
        ∷ dict_key "spec"
        ∷ dict_key "template"
        ∷ dict_key "spec"
        ∷ dict_key "terminationGracePeriodSeconds"
        ∷ [])
    ∷ (dict_key "spec"
        ∷ dict_key "jobTemplate"
        ∷ dict_key "spec"
        ∷ dict_key "template"
        ∷ dict_key "spec"
        ∷ dict_key "schedulerName"
        ∷ [])
    ∷ (dict_key "spec"
        ∷ dict_key "jobTemplate"
        ∷ dict_key "spec"
        ∷ dict_key "template"
        ∷ dict_key "spec"
        ∷ dict_key "dnsPolicy"
        ∷ [])
    ∷ (dict_key "spec" ∷ dict_key "successfulJobsHistoryLimit" ∷ [])
    ∷ (dict_key "spec" ∷ dict_key "concurrencyPolicy" ∷ [])
    ∷ (dict_key "spec" ∷ dict_key "suspend" ∷ [])
    ∷ []

-- `IMMUTABLE_FIELDS`
unfoldable pub immutable_fields : List KeyPath
immutable_fields =
    (dict_key "spec" ∷ dict_key "selector" ∷ [])
    ∷ (dict_key "spec" ∷ dict_key "template" ∷ [])
    ∷ (dict_key "spec" ∷ dict_key "completions" ∷ [])
    ∷ []

-- `PATH_WITH_ID_LIST`
unfoldable pub path_with_id_list : List (KeyPath × String)
path_with_id_list =
    ((dict_key "spec" ∷ dict_key "template" ∷ dict_key "spec" ∷ dict_key "containers" ∷ []), "name")
    ∷ (
      (dict_key "spec"
          ∷ dict_key "jobTemplate"
          ∷ dict_key "spec"
          ∷ dict_key "template"
          ∷ dict_key "spec"
          ∷ dict_key "containers"
          ∷ []),
      "name",
    )
    ∷ []

-- `RESOURCE_KEYS`
unfoldable pub resource_keys : List String
resource_keys = "memory" ∷ "cpu" ∷ "ephemeral-storage" ∷ "storage" ∷ []
