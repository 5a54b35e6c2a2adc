-- ===== src/Main.antt =====
-- main.go and controllers/opensearch_controller.go: the start of the program, and the reconciler
-- that it registers.
pub mod Order
use opensearch_operator.Common.{
  ◌≡◌, ℕ, String, Bool, true, false, Option, none, some, List, [], ◌∷◌,
}
use opensearch_operator.Common.Outcome.{Error, Outcome, ok, err, panic, ◌>>=◌}
use opensearch_operator.Common.Action.{Action, pure}
use opensearch_operator.Controllers.State.{RequeueAfter}

-- The flags, with their default values.
pub record Flags : Type 0 where
  pub metrics_addr : String
  pub probe_addr : String
  pub enable_leader_election : Bool

abbrev pub default_flags : Flags
default_flags = record {
  metrics_addr = ":8080";
  probe_addr = ":8081";
  enable_leader_election = false;
}

-- `ctrl.Options`, as far as main sets them.
pub record Options (Scheme : Type 0) : Type 0 where
  pub scheme : Scheme
  pub metrics_bind_address : String
  pub port : ℕ
  pub health_probe_bind_address : String
  pub leader_election : Bool
  pub leader_election_id : String

-- What controller-runtime and client-go do: the configuration of the client, a manager, the
-- controller for the resource on it, its checks, and its run, which ends when the manager stops.
pub record Runtime : Type 1 where
  pub World : Type 0
  pub Scheme : Type 0
  pub Config : Type 0
  pub Manager : Type 0
  pub error_text : Error → String
  -- The registration of the types of client-go, and of this API, in a scheme.
  pub add_client_go : Scheme → Outcome Scheme
  pub add_opensearch : Scheme → Outcome Scheme
  pub get_config_or_die : Action World Config
  pub new_manager : Config → Options Scheme → Action World Manager
  -- `NewControllerManagedBy(mgr).For(&Opensearch{}).Complete(r)`.
  pub complete : Manager → Action World (Unit {0})
  pub add_healthz_check : Manager → String → Action World (Unit {0})
  pub add_readyz_check : Manager → String → Action World (Unit {0})
  pub start : Manager → Action World (Unit {0})

-- How the program ends: by itself, by os.Exit, or by a panic.
pub data End : Type 0 where
  finished : End
  exited : ℕ → End
  crashed : String → End

-- `if err != nil { setupLog.Error(...); os.Exit(1) }`, and else the rest.
unfoldable pub or_exit : {W A : Type 0} → Outcome A × W → (A → W → End × W) → End × W
or_exit (ok a, w) rest = rest a w
or_exit (err e, w) rest = (exited 1, w)
or_exit (panic p, w) rest = (crashed p, w)

module _ (r : Runtime) where
  -- `utilruntime.Must`.
  abbrev pub must : {A : Type 0} → Outcome A → Outcome A
  must (ok a) = ok a
  must (err e) = panic (r.error_text e)
  must (panic p) = panic p

  unfoldable pub init : r.Scheme → Outcome r.Scheme
  init scheme = must (r.add_client_go scheme) >>= λ s. must (r.add_opensearch s)

  abbrev pub manager_options : r.Scheme → Flags → Options r.Scheme
  manager_options scheme flags = record {
    scheme = scheme;
    metrics_bind_address = flags.metrics_addr;
    port = 9443;
    health_probe_bind_address = flags.probe_addr;
    leader_election = flags.enable_leader_election;
    leader_election_id = "baa95990.k8s.webcenter.fr";
  }

  unfoldable pub setup_with_manager : r.Manager → Action r.World (Unit {0})
  setup_with_manager mgr = r.complete mgr

  -- Reconcile of the registered reconciler: it gives an empty result at once.
  unfoldable pub reconcile : Action r.World RequeueAfter
  reconcile = pure none

  -- From the parsed flags on, with the scheme that init has filled.
  unfoldable pub main : r.Scheme → Flags → r.World → End × r.World
  unfolding setup_with_manager or_exit
  main scheme flags w = or_exit (r.get_config_or_die w) λ config w.
      or_exit (r.new_manager config (manager_options scheme flags) w) λ mgr w.
        or_exit (setup_with_manager mgr w) λ _ w.
          or_exit (r.add_healthz_check mgr "healthz" w) λ _ w.
            or_exit (r.add_readyz_check mgr "readyz" w)
              λ _ w. or_exit (r.start mgr w) λ _ w. (finished, w)
