-- ===== src/WorkloadHint.antt =====
-- src/workload_hint.h and src/workload_hint.cpp: the hint of a thread, and the scope that restores
-- it. `g_workload_hint` is `thread_local`: a function takes the thread's hint and returns the new
-- one.
use adaptive_query_accelerat.Common.{◌≡◌, refl}

pub data WorkloadHint : Type 0 where
  point_lookup scan : WorkloadHint

-- The initialiser of `g_workload_hint`.
abbrev pub initial_hint : WorkloadHint
initial_hint = point_lookup

abbrev pub set_workload_hint : WorkloadHint → WorkloadHint → WorkloadHint
set_workload_hint hint g = hint

abbrev pub get_workload_hint : WorkloadHint → WorkloadHint
get_workload_hint g = g

pub record ScanScope : Type 0 where
  pub previous : WorkloadHint

-- The constructor: the object, and the hint that it leaves.
unfoldable pub enter : WorkloadHint → ScanScope × WorkloadHint
enter g = (record { previous = get_workload_hint g }, set_workload_hint scan g)

-- The destructor.
unfoldable pub leave : ScanScope → WorkloadHint → WorkloadHint
leave s g = set_workload_hint s.previous g

-- What a thread does with its hint: it sets it, or runs a block under a `ScanScope`.
mutual
  pub data Action : Type 0 where
    set_to : WorkloadHint → Action
    in_scope : Block → Action

  pub data Block : Type 0 where
    done : Block
    next : Action → Block → Block

unfoldable mutual
  unfolding enter leave

  pub run_action : Action → WorkloadHint → WorkloadHint
  run_action (set_to h) g = set_workload_hint h g
  run_action (in_scope b) g = let (s, g') = enter g in leave s (run_block b g')

  pub run_block : Block → WorkloadHint → WorkloadHint
  run_block done g = g
  run_block (next a b) g = run_block b (run_action a g)

-- A block under a `ScanScope` starts with the scan hint, and whatever it does, nested scopes
-- included, the hint after it is the one before it.
pub scope_restores :
    (b : Block) (g : WorkloadHint) → ((enter g).1 ≡ scan) × (run_action (in_scope b) g ≡ g)
unfolding run_action
scope_restores b g = (unfold enter in refl, refl)
