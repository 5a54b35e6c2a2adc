-- ===== src/Controllers/Phases.antt =====
-- The runs of a reconciler: operator-sdk-extra calls its four phases, with the cluster changing
-- between any two of them.
pub mod Typed
use opensearch_operator.Common.{none}
use opensearch_operator.Common.Action.{Action}
use opensearch_operator.Pki.{Goca}
use opensearch_operator.Controllers.State.{Store, Data, Diff, RequeueAfter}

module _ (goca : Goca) where
  -- The phases that a reconciler has to offer.
  pub record Phases : Type 0 where
    pub read : Action (Store goca) RequeueAfter
    pub diff : Action (Store goca) Diff
    pub create : Action (Store goca) RequeueAfter
    pub update : Action (Store goca) RequeueAfter

  abbrev pub empty_data : Data goca
  empty_data k = none

  -- One step of a run. A phase may follow any other, whether or not it gave an error.
  pub data Step (p : Phases) : Store goca → Store goca → Type 0 where
    read_step : (s : Store goca) → Step p s (p.read s).1
    diff_step : (s : Store goca) → Step p s (p.diff s).1
    create_step : (s : Store goca) → Step p s (p.create s).1
    update_step : (s : Store goca) → Step p s (p.update s).1
    -- Others act on the cluster, and time goes by.
    world_step :
        (s : Store goca) (w : goca.World) → Step p s (record { world = w; entries = s.entries })
    -- A new round begins with a new map.
    round_step : (s : Store goca) → Step p s (record { world = s.world; entries = empty_data })

  -- A store that some run leads to.
  pub data Reachable (p : Phases) : Store goca → Type 0 where
    start : (w : goca.World) → Reachable p (record { world = w; entries = empty_data })
    continue : {s t : Store goca} → Reachable p s → Step p s t → Reachable p t

  -- An action leaves a property of the map as it was, whatever it gives.
  abbrev pub Keeps : {A : Type 0} → (Data goca → Type 0) → Action (Store goca) A → Type 0
  Keeps I m = (s : Store goca) → I s.entries → I (m s).1.entries

  pub record PhasesKeep (I : Data goca → Type 0) (p : Phases) : Type 0 where
    pub by_read : Keeps I p.read
    pub by_diff : Keeps I p.diff
    pub by_create : Keeps I p.create
    pub by_update : Keeps I p.update

  module _ (I : Data goca → Type 0) (p : Phases) (initial : I empty_data)
      (kept : PhasesKeep I p) where
    Step-invariant : {s t : Store goca} → Step p s t → I s.entries → I t.entries
    Step-invariant (read_step s) i = kept.by_read s i
    Step-invariant (diff_step s) i = kept.by_diff s i
    Step-invariant (create_step s) i = kept.by_create s i
    Step-invariant (update_step s) i = kept.by_update s i
    Step-invariant (world_step s w) i = i
    Step-invariant (round_step s) i = initial

    pub Reachable-invariant : {s : Store goca} → Reachable p s → I s.entries
    Reachable-invariant (start w) = initial
    Reachable-invariant (continue r step) = Step-invariant step (Reachable-invariant r)
