-- ===== src/Main/Order.antt =====
-- In which order main makes its calls.
use opensearch_operator.Common.{◌≡◌, ◌⊎◌, inl, inr, refl, String, List, [], ◌∷◌, ◌++◌}
use opensearch_operator.Common.Outcome.{Outcome, ok, err, panic}
use opensearch_operator.Common.Action.{Action}
use opensearch_operator.Main.{
  Flags, Runtime, End, finished, exited, crashed, or_exit, manager_options, setup_with_manager,
  main,
}

pub data Call : Type 0 where
  got_config made_manager built_controller added_healthz added_readyz started : Call

-- All calls, in the order in which they are to be made.
abbrev pub every_call : List Call
every_call =
    got_config ∷ made_manager ∷ built_controller ∷ added_healthz ∷ added_readyz ∷ started ∷ []

-- The call is noted before it is made.
abbrev pub noting : {W A : Type 0} → Call → Action W A → Action (W × List Call) A
noting c m (w, done) = let s = m w in (s.0, (s.1, done ++ (c ∷ [])))

-- A runtime that notes the calls.
abbrev pub noted : Runtime → Runtime
noted r = record {
  World = r.World × List Call;
  Scheme = r.Scheme;
  Config = r.Config;
  Manager = r.Manager;
  error_text = r.error_text;
  add_client_go = r.add_client_go;
  add_opensearch = r.add_opensearch;
  get_config_or_die = noting got_config r.get_config_or_die;
  new_manager = λ config options. noting made_manager (r.new_manager config options);
  complete = λ mgr. noting built_controller (r.complete mgr);
  add_healthz_check = λ mgr name. noting added_healthz (r.add_healthz_check mgr name);
  add_readyz_check = λ mgr name. noting added_readyz (r.add_readyz_check mgr name);
  start = λ mgr. noting started (r.start mgr);
}

-- How main ends, with the calls that it has made: by itself after all of them, or with status 1 or
-- a panic at one of them, after those before it.
pub data MainEnds (e : End) (made : List Call) : Type 0 where
  ran : e ≡ finished → made ≡ every_call → MainEnds e made
  stopped :
      (before : List Call) (c : Call) (rest : List Call)
      → every_call ≡ before ++ (c ∷ rest)
      → made ≡ before ++ (c ∷ [])
      → (e ≡ exited 1) ⊎ ((p : String) × (e ≡ crashed p))
      → MainEnds e made

module _ {W : Type 0} where
  -- A run that notes its calls, and the run that does not.
  abbrev pub Agrees : End × (W × List Call) → End × W → Type 0
  Agrees x y = (x.0 ≡ y.0) × (x.1.0 ≡ y.1) × MainEnds x.0 x.1.1

  module _ {A : Type 0} (before : List Call) (c : Call) (rest : List Call)
      (next : A → W × List Call → End × (W × List Call)) (plain : A → W → End × W) where
    step-Agrees :
        (s : Outcome A × W)
        → every_call ≡ before ++ (c ∷ rest)
        → ((a : A) (w : W) → Agrees (next a (w, before ++ (c ∷ []))) (plain a w))
        → Agrees (or_exit (s.0, (s.1, before ++ (c ∷ []))) next) (or_exit s plain)
    unfolding or_exit
    step-Agrees (ok a, w) place later = later a w
    step-Agrees (err e, w) place later = (refl, refl, stopped before c rest place refl (inl refl))
    step-Agrees (panic p, w) place later =
        (refl, refl, stopped before c rest place refl (inr (p, refl)))

-- Whatever the calls of controller-runtime give, main makes them in one order: the configuration,
-- the manager, the controller, the health check, the ready check, the start. It ends by itself
-- only after all of them, and else with status 1 or a panic at the first one that fails, after
-- those before it, so the manager is never started without its controller and its checks. A
-- runtime that notes the calls leads to the same end and the same world.
pub main-MainEnds :
    (r : Runtime) (scheme : r.Scheme) (flags : Flags) (w : r.World)
    → Agrees (main (noted r) scheme flags (w, [])) (main r scheme flags w)
unfolding main setup_with_manager
main-MainEnds r scheme flags w =
    step-Agrees [] got_config _ _ _ (r.get_config_or_die w) refl λ config w.
      step-Agrees (got_config ∷ []) made_manager _ _ _
        (r.new_manager config (manager_options r scheme flags) w) refl
        λ mgr w.
          step-Agrees (got_config ∷ made_manager ∷ []) built_controller _ _ _ (r.complete mgr w)
            refl
            λ _ w.
              step-Agrees (got_config ∷ made_manager ∷ built_controller ∷ []) added_healthz _ _ _
                (r.add_healthz_check mgr "healthz" w) refl
                λ _ w.
                  step-Agrees (got_config ∷ made_manager ∷ built_controller ∷ added_healthz ∷ [])
                    added_readyz _ _ _ (r.add_readyz_check mgr "readyz" w) refl
                    λ _ w.
                      step-Agrees
                        (got_config ∷ made_manager ∷ built_controller ∷ added_healthz ∷ added_readyz
                          ∷ [])
                        started _ _ _ (r.start mgr w) refl λ _ w. (refl, refl, ran refl refl)
