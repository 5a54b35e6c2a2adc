-- ===== src/Lib.antt =====
-- Verification library of the OpenSearch operator, a Kubernetes operator that generates the objects
-- of an OpenSearch cluster from a custom resource and keeps its TLS secrets.
--
-- The parts, and the code that each file models (paths from the repository's root):
--   Common        shared names, lists, Go's outcomes (value, error, panic), actions on a state, maps
--   Api/Kubernetes  the fields of the Kubernetes objects that the code sets or reads
--   Api/Types     api/v1alpha1/opensearch_types.go, api/shared/image.go: the custom resource
--   Api/Names     api/v1alpha1/opensearch_func.go, GetNodeNames to GetContainerImage
--   Api/Compute   api/v1alpha1/opensearch_internal.go, with IsMasterRole
--   Generate      api/v1alpha1/opensearch_func.go: Services (GenerateServices), LoadBalancer
--                 (GenerateLoadbalancer), Ingress (GenerateIngress), ConfigMaps (GenerateConfigMaps),
--                 Budgets (GeneratePodDisruptionBudget), Common (what these share), and StatefulSets
--                 (GenerateStatefullsets) over Builder, the interface of the external builders:
--                 Containers has the container, Template the pod template; Wiring says which pods the
--                 generated objects reach
--   Helper        pkg/helper: Merge (merge.go), Settings (config.go)
--   Pki           pkg/pki: the certificates
--   Controllers   controllers/: State (secrets, the data map, the calls of Kubernetes) and
--                 TransportTls (opensearch_controller_transport_tls.go: Secrets has generateSecret
--                 and renewSecret, Steps has Read, Diff, Create and Update; Rounds has one round of
--                 Read, Diff and what the difference asks for, Pods sets the node names against
--                 the pods of the stateful sets) and ApiTls
--                 (opensearch_controller_api_tls.go: Steps has generateSecret, Read, Diff, Create
--                 and Update, Status has Configure, OnError, OnSuccess and Delete), Conditions (the
--                 code of these four, which the reconcilers repeat; Calls has the sequences of their
--                 calls on one resource), and Shared (controllers.go);
--                 Phases has the runs of a reconciler: its phases in any order, the cluster changing
--                 between them
--   Main          main.go and controllers/opensearch_controller.go: the start of the program
--   Funk          the functions of go-funk that the code calls
--   Tests         runs on a sample cluster, and the theorems at concrete data
--
-- How they interact: the generators read the resource (Api), compose names (Api/Names) and merge
-- settings (Helper). A reconciler's steps call the PKI and Kubernetes, and hand their results on in
-- the data map, from Read to Diff, and from Diff to Create or Update.
--
-- How code is translated: a function of Go becomes a function of the same name in snake case. A call
-- that may fail returns an Outcome: a value, an error, or a run-time panic (a negative capacity, a
-- write to a nil map, a failed type assertion). Code that acts on the cluster or reads the clock is an
-- Action on a world; a step of a reconciler acts on a Store, the world with the data map. A pointer is
-- an Option, a map of texts a GoMap: nil, or a list of entries in some order (Helper/Settings/Order has
-- the maps without their order); the order in which Diff goes through the map of the node certificates
-- is a parameter, range_nodes, which may depend on the world, and the mounts of a config map's keys are
-- made in the order of the list. A nil map and a nil element of a list of
-- pointers panic where Go's do. An int32 is a number or the negation of a number's successor. A loop
-- is recursion on the list or on the number of rounds that are left, so no fuel runs out; the decimal
-- digits of a number n have fuel n + 1, and decimal_injective rests on its being enough.
--
-- Code outside the repository is a parameter: go-funk (Funk, with its documented behaviour in
-- IsLawful), mergo (Mergo; each use states what it needs of it), go-ucfg and yaml.v3 (Yaml), goca,
-- crypto/x509, net and the clock (Goca), k8sbuilder (Builder), client-go and operator-sdk-extra (Kube),
-- apimachinery's functions on conditions (Meta, with IsMeta), the manager of controller-runtime
-- (Runtime). The module Tests has an instance of each that satisfies what is assumed of it.
--
-- A builder of k8sbuilder is the object that it holds, and copies what it is given: that one shares
-- memory with the resource is not modelled. What its methods do is assumed by name, where a theorem
-- needs it (SetsOneField, MergesEnv, AddsMounts, MergesTemplates).
--
-- Not modelled: logging, and the parsing of flags; pkg/helper/diff.go, one call of go-cmp for the Go
-- tests, and pkg/test, which are helpers of these tests; the deep copies and the registration of the
-- API group, which controller-gen makes; the manifests under config.
pub mod Common
pub mod Api
pub mod Funk
pub mod Helper
pub mod Generate
pub mod Pki
pub mod Controllers
pub mod Main
mod Tests
