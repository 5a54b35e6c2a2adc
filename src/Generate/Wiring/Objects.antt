-- ===== src/Generate/Wiring/Objects.antt =====
-- The objects that the generators make for one cluster reach the right pods.
use opensearch_operator.Common.{[], ◌∷◌, [], ◌∷◌}
use opensearch_operator.Funk.{Funk}
use opensearch_operator.Api.Kubernetes.{Ingress}
use opensearch_operator.Generate.Ingress.Result as Ingresses
use opensearch_operator.Generate.Ingress.Result.{IsIngress}
use opensearch_operator.Generate.Builder.{Builder}
