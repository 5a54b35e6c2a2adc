-- ===== src/Controllers/Shared.antt =====
-- controllers/controllers.go: the parts that the reconcilers embed, and the metrics they share.
use opensearch_operator.Common.{
  ◌≡◌, ◌↔◌, refl, sym, ap, ◌∙◌, ℕ, ◌+◌, String, ◌<>◌, Option, none, some, List, [], ◌∷◌,
}
use opensearch_operator.Common.Outcome.{Outcome, ok, panic}
use text.Mathlib.TextLemmas.{append_assoc, append_cancel_left}
use opensearch_operator.Common.Text.{decimal}
use opensearch_operator.Api.Types.{Int32, pos, negsuc, Opensearch}
use opensearch_operator.Api.Names.{get_node_group_name}
use opensearch_operator.Api.Names.Distinct.{node_name_injective}
use opensearch_operator.Controllers.State.{Diff}

abbrev pub opensearch_annotation_key : String
opensearch_annotation_key = "opensearch.k8s.webcenter.fr"

-- The recorder of events, the logger and the reconciler of operator-sdk-extra are interfaces or
-- pointers, so they may be nil.
module _ (EventRecorder Entry Other : Type 0) where
  pub record Reconciler : Type 0 where
    pub recorder : Option EventRecorder
    pub log : Option Entry
    pub reconciler : Option Other

  unfoldable pub set_logger : Option Entry → Reconciler → Reconciler
  set_logger log r = record r { log = log }

  unfoldable pub set_recorder : Option EventRecorder → Reconciler → Outcome Reconciler
  set_recorder none r = panic "Recorder can't be nil"
  set_recorder (some recorder) r = ok (record r { recorder = some recorder })

  unfoldable pub set_reconsiler : Option Other → Reconciler → Reconciler
  set_reconsiler reconciler r = record r { reconciler = reconciler }

-- `client.Object` is an interface of controller-runtime.
pub record CompareResource (Object : Type 0) : Type 0 where
  pub current : Object
  pub expected : Object
  pub diff : Option Diff

-- A metric: its name and help, and the names of its labels.
pub record Collector : Type 0 where
  pub name : String
  pub help : String
  pub label_names : List String

abbrev pub total_errors : Collector
total_errors = record {
  name = "total_errors";
  help = "Number of errors from all controllers";
  label_names = [];
}

abbrev pub controller_metrics : Collector
controller_metrics = record {
  name = "resource_total";
  help = "Total number of resource handled per controller";
  label_names = "controller" ∷ [];
}

-- `init`: both metrics go to the registry of controller-runtime.
unfoldable pub init :
    {Registry : Type 0}
    → (List Collector → Registry → Outcome Registry)
    → Registry
    → Outcome Registry
init must_register r = must_register (total_errors ∷ controller_metrics ∷ []) r

-- `%d` of a signed number.
abbrev pub decimal_of : Int32 → String
decimal_of (pos n) = decimal n
decimal_of (negsuc n) = "-" <> decimal (n + 1)

unfoldable pub get_node_name : (cluster_name group_name : String) → Int32 → String
get_node_name cluster_name group_name index =
    cluster_name <> ("-" <> (group_name <> ("-" <> decimal_of index)))

-- GetNodeName gives the name of a node that GetNodeGroupNodeNames lists exactly if the index is the
-- node's and the group name is that of the node's group followed by -os.
pub get_node_name_iff :
    (h : Opensearch) (given group : String) (i j : ℕ)
    → (get_node_name h.meta.name given (pos i) ≡ get_node_group_name h group <> ("-" <> decimal j))
      ↔ ((given ≡ group <> "-os") × (i ≡ j))
unfolding get_node_name get_node_group_name
get_node_name_iff h given group i j =
    let cluster = h.meta.name in
    let shape : cluster <> ("-" <> (given <> ("-" <> decimal i)))
        ≡ (cluster <> ("-" <> given)) <> ("-" <> decimal i) =
      ap (λ (t : String). cluster <> t) (sym (append_assoc "-" given ("-" <> decimal i)))
      ∙ sym (append_assoc cluster ("-" <> given) ("-" <> decimal i)) in
    (
      λ e.
          let (groups, index) = node_name_injective _ _ i j (sym shape ∙ e) in
          (append_cancel_left "-" _ _ (append_cancel_left cluster _ _ groups), index),
      λ (e, e'). shape ∙ rw (e, e') refl,
    )
