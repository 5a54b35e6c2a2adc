-- ===== src/Controllers/State.antt =====
-- What the steps of a reconciler share: secrets, the `data` map that the steps hand on, and the
-- calls of Kubernetes and of operator-sdk-extra.
use opensearch_operator.Common.{
  ◌<>◌, ◌≡◌, ◌↔◌, In, ℕ, ◌*◌, String, ◌=?◌, Bool, Option, none, some, List, [], ◌∷◌, if◌then◌else◌,
}
use opensearch_operator.Common.Outcome.{Error, Outcome, ok, err, panic, wrap}
use opensearch_operator.Common.Action.{Action, next}
use opensearch_operator.Api.Kubernetes.{ObjectMeta}
use opensearch_operator.Api.Types.{Opensearch}
use opensearch_operator.Pki.{Goca, Bytes}

-- A secret's `Data` may be nil. A missing key reads as nil, so a map is its reading function.
pub record Secret : Type 0 where
  pub meta : ObjectMeta
  pub secret_type : String
  pub owner : Option String
  pub contents : Option (String → Bytes)

-- `s.Data[key]`.
abbrev pub read_entry : String → Secret → Bytes
read_entry k s = elim s.contents [ none ↦ none | some m ↦ m k ]

abbrev pub set_bytes : String → Bytes → (String → Bytes) → String → Bytes
set_bytes k v m j = if k =? j then v else m j

-- `s.Data[key] = value`, for each pair in turn. A write to a nil map is a run-time panic.
abbrev pub write_map : List (String × Bytes) → (String → Bytes) → String → Bytes
write_map [] m = m
write_map ((k, v) ∷ kvs) m = write_map kvs (set_bytes k v m)

abbrev pub write_entries : List (String × Bytes) → Secret → Outcome Secret
write_entries kvs s = elim s.contents [
  | none ↦ panic "assignment to entry in nil map"
  | some m ↦ ok (record s { contents = some (write_map kvs m) })
]

-- `controller.Diff`.
pub record Diff : Type 0 where
  pub need_create : Bool
  pub need_update : Bool
  pub text : String

-- `ctrl.Result`: the time after which the resource is to be looked at again, if any.
abbrev pub RequeueAfter : Type 0
RequeueAfter = Option ℕ

-- One minute, in nanoseconds.
abbrev pub requeued_duration : ℕ
requeued_duration = 60 * 1000000000 * 1

module _ (goca : Goca) where
  -- What the steps store in `data`, by its type; pointers may be nil.
  pub data Value : Type 0 where
    secret : Option Secret → Value
    authority : Option goca.Ca → Value
    certificate : Option goca.Cert → Value
    certificates : List (String × Option goca.Cert) → Value

  -- `data map[string]any`.
  abbrev pub Data : Type 0
  Data = String → Option Value

  abbrev pub set_data : String → Value → Data → Data
  set_data k v d j = if k =? j then some v else d j

  -- The calls of client-go, controller-runtime and operator-sdk-extra.
  pub record Kube : Type 0 where
    pub get_secret : String → String → Action goca.World Secret
    -- The pointer that is handed over may be nil.
    pub update_secret : Option Secret → Action goca.World (Unit {0})
    pub is_not_found : Error → Bool
    pub set_controller_reference : Opensearch → Secret → Outcome Secret
    -- `helper.Get(data, key)`.
    pub get_data : Data → String → Outcome Value
    -- Go's runtime: the order in which a `range` goes through the map of the node certificates,
    -- which differs from one time to the next.
    pub range_nodes :
        List (String × Option goca.Cert) → goca.World → List (String × Option goca.Cert)

  -- What the language documents: a `range` goes through the entries of the map, and no others.
  abbrev pub RangesNodes : Kube → Type 0
  RangesNodes kube =
      (nodes : List (String × Option goca.Cert)) (w : goca.World) (e : String × Option goca.Cert)
      → In e (kube.range_nodes nodes w) ↔ In e nodes

  pub record Store : Type 0 where
    pub world : goca.World
    pub entries : Data

  abbrev pub on_world : {A : Type 0} → Action goca.World A → Action Store A
  on_world m s = let r = m s.world in (r.0, record s { world = r.1 })

  abbrev pub put : String → Value → Action Store (Unit {0})
  put k v s = (ok tt, record s { entries = set_data k v s.entries })

  -- `d.(*corev1.Secret)` and its like: another type is a run-time panic.
  abbrev pub as_secret : Value → Outcome (Option Secret)
  as_secret (secret s) = ok s
  as_secret _ = panic "interface conversion"

  abbrev pub as_authority : Value → Outcome (Option goca.Ca)
  as_authority (authority c) = ok c
  as_authority _ = panic "interface conversion"

  abbrev pub as_certificate : Value → Outcome (Option goca.Cert)
  as_certificate (certificate c) = ok c
  as_certificate _ = panic "interface conversion"

  abbrev pub as_certificates : Value → Outcome (List (String × Option goca.Cert))
  as_certificates (certificates cs) = ok cs
  as_certificates _ = panic "interface conversion"

  -- `helper.Get`, and the type assertion on what it gives.
  abbrev pub fetch : {A : Type 0} → Kube → String → (Value → Outcome A) → Action Store A
  fetch kube k as_type s = next (kube.get_data s.entries k, s) λ v t. (as_type v, t)

  -- What `helper.Get` documents: it gives the value of the key, and an error without one.
  pub record ReadsData (kube : Kube) : Type 0 where
    pub found : (d : Data) (k : String) (v : Value) → d k ≡ some v → kube.get_data d k ≡ ok v
    pub missing : (d : Data) (k : String) → d k ≡ none → (e : Error) × (kube.get_data d k ≡ err e)

  -- The error of the client, under a message that names the secret: a nil pointer cannot be asked
  -- for its name.
  abbrev pub save_error : (verb layer : String) → Option Secret → Error → Outcome RequeueAfter
  save_error verb layer none e = panic "invalid memory address or nil pointer dereference"
  save_error verb layer (some s) e =
      err (wrap ("Error when " <> (verb <> (" secret " <> (s.meta.name <> layer)))) e)

  abbrev pub saved :
      (verb layer : String) → Option Secret → Outcome (Unit {0}) → Outcome RequeueAfter
  saved verb layer s (ok _) = ok none
  saved verb layer s (err e) = save_error verb layer s e
  saved verb layer s (panic p) = panic p

  -- What `Create` and `Update` have in common.
  unfoldable pub save : Kube → (verb layer : String) → Option Secret → Action Store RequeueAfter
  save kube verb layer s t =
      let r = on_world (kube.update_secret s) t in (saved verb layer s r.0, r.1)
