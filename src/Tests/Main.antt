-- ===== src/Tests/Main.antt =====
-- A start of the program at which the health check cannot be added.
use opensearch_operator.Common.{◌≡◌, refl, String, [], ◌∷◌}
use opensearch_operator.Common.Outcome.{ok, err, new}
use opensearch_operator.Main.{Runtime, exited, default_flags, or_exit, main, setup_with_manager}
use opensearch_operator.Main.Order.{
  got_config, made_manager, built_controller, added_healthz, noted, Agrees, main-MainEnds,
}

abbrev blocked : Runtime
blocked = record {
  World = Unit {0};
  Scheme = String;
  Config = Unit {0};
  Manager = Unit {0};
  error_text = λ e. "error";
  add_client_go = λ s. ok s;
  add_opensearch = λ s. ok s;
  get_config_or_die = λ w. (ok tt, w);
  new_manager = λ config options w. (ok tt, w);
  complete = λ mgr w. (ok tt, w);
  add_healthz_check = λ mgr name w. (err (new "address in use"), w);
  add_readyz_check = λ mgr name w. (ok tt, w);
  start = λ mgr w. (ok tt, w);
}

blocked_end :
    main (noted blocked) "scheme" default_flags (tt, [])
    ≡ (exited 1, (tt, got_config ∷ made_manager ∷ built_controller ∷ added_healthz ∷ []))
unfolding main setup_with_manager or_exit
blocked_end = refl

main-MainEnds_example :
    Agrees
      (main (noted blocked) "scheme" default_flags (tt, []))
      (main blocked "scheme" default_flags tt)
main-MainEnds_example = main-MainEnds blocked "scheme" default_flags tt
