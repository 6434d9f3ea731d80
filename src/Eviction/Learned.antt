-- ===== src/Eviction/Learned.antt =====
-- `LearnedPageEvictionPolicy` and `LoadedLearnedPageEvictionPolicy`: a linear score of three
-- features, with weights that feedback moves or that a file gives.
use adaptive_query_accelerat.Common.{
  ℕ, ◌+◌, ◌-◌, ◌&&◌, ◌||◌, Bool, true, Option, none, some, List, [], ◌∷◌, ◌==◌, if◌then◌else◌, ltb,
  leb, u32, u64,
}
use adaptive_query_accelerat.Observer.{
  AccessObserver, get_access_count, get_capacity, get_last_index_in_recent, get_total_recorded,
}
use adaptive_query_accelerat.Eviction.{contains, in_run, recent_set}
use adaptive_query_accelerat.Eviction.Doubles.{Doubles}

pub record Features (D : Type 0) : Type 0 where
  pub recency : D
  pub count : D
  pub scan : D

pub record Weights (D : Type 0) : Type 0 where
  pub w_recency : D
  pub w_count : D
  pub w_scan : D

pub record LearnedPolicy (D : Type 0) : Type 0 where
  pub feedback_horizon : ℕ
  pub learning_rate : D
  pub weights : Weights D
  pub last_evicted_page_id : Option ℕ
  pub last_evicted_features : Features D
  pub last_eviction_total : ℕ

module _ (doubles : Doubles) where
  open doubles use {Double, of_nat, neg, add, mul, div, less}

  -- `Features f;`
  abbrev pub no_features : Features Double
  no_features = record { recency = of_nat 0; count = of_nat 0; scan = of_nat 0 }

  -- The initialisers `1.0`, `1.0` and `-1.0`.
  abbrev pub default_weights : Weights Double
  default_weights = record { w_recency = of_nat 1; w_count = of_nat 1; w_scan = neg (of_nat 1) }

  pub init_learned : ℕ → Double → LearnedPolicy Double
  init_learned feedback_horizon learning_rate = record {
    feedback_horizon = feedback_horizon;
    learning_rate = learning_rate;
    weights = default_weights;
    last_evicted_page_id = none;
    last_evicted_features = no_features;
    last_eviction_total = 0;
  }

  -- `std::min(a, b)` is `b < a ? b : a`.
  abbrev pub smaller : Double → Double → Double
  smaller a b = if less b a then b else a

  unfoldable pub extract_features : Option AccessObserver → ℕ → Features Double
  extract_features none page_id = no_features
  extract_features (some o) page_id = record {
    recency = div (of_nat 1) (add (of_nat 1) (of_nat (get_last_index_in_recent o page_id)));
    count =
        smaller (of_nat 1)
          (div (of_nat (get_access_count o page_id)) (add (of_nat 1) (of_nat (get_capacity o))));
    scan = if in_run (recent_set o) page_id then of_nat 1 else of_nat 0;
  }

  unfoldable pub score : Weights Double → Features Double → Double
  score w f = add (add (mul w.w_recency f.recency) (mul w.w_count f.count)) (mul w.w_scan f.scan)

  -- `2 * label - 1`, for a label that is 0 or 1.
  abbrev pub sign_of : ℕ → Double
  sign_of label = if label == 0 then neg (of_nat 1) else of_nat 1

  unfoldable pub update_weights : Double → Weights Double → Features Double → ℕ → Weights Double
  update_weights learning_rate w f label =
      let delta = mul learning_rate (sign_of label) in
      record {
        w_recency = add w.w_recency (mul delta f.recency);
        w_count = add w.w_count (mul delta f.count);
        w_scan = add w.w_scan (mul delta f.scan);
      }

  -- The reward for the last eviction: 1 if the page is in the ring again.
  abbrev pub label_of : AccessObserver → ℕ → ℕ
  label_of o page_id = if ltb (get_last_index_in_recent o page_id) (get_capacity o) then 1 else 0

  unfoldable pub feedback_for :
      Option ℕ → AccessObserver → LearnedPolicy Double → LearnedPolicy Double
  unfolding update_weights
  feedback_for none o p = p
  feedback_for (some page_id) o p =
      if leb (u64 (p.last_eviction_total + p.feedback_horizon)) (get_total_recorded o)
      then record p {
        weights =
            update_weights p.learning_rate p.weights p.last_evicted_features (label_of o page_id);
        last_evicted_page_id = none;
      }
      else p

  -- The block of `choose_victim` before the choice.
  unfoldable pub feedback : AccessObserver → LearnedPolicy Double → LearnedPolicy Double
  unfolding feedback_for
  feedback o p = feedback_for p.last_evicted_page_id o p

  -- The loop behind the first candidate: the victim so far, its features, and its score.
  unfoldable pub lowest_from :
      AccessObserver → Weights Double → ℕ → Features Double → Double → List ℕ → ℕ × Features Double
  unfolding extract_features score
  lowest_from o w victim features min_score [] = (victim, features)
  lowest_from o w victim features min_score (pid ∷ pids) =
      let f = extract_features (some o) pid in
      let s = score w f in
      let kept = lowest_from o w victim features min_score pids in
      let better = lowest_from o w pid f s pids in if less s min_score then better else kept

  -- The choice, noted in the state.
  abbrev pub note :
      AccessObserver → LearnedPolicy Double → ℕ × Features Double → ℕ × LearnedPolicy Double
  note o p (victim, features) = (
    victim,
    record p {
      last_evicted_page_id = some victim;
      last_evicted_features = features;
      last_eviction_total = get_total_recorded o;
    },
  )

  abbrev pub choose_lowest :
      AccessObserver → LearnedPolicy Double → ℕ → List ℕ → ℕ × LearnedPolicy Double
  choose_lowest o p pid pids =
      let f = extract_features (some o) pid in
      note o p (lowest_from o p.weights pid f (score p.weights f) pids)

  unfoldable pub learned :
      Option AccessObserver → LearnedPolicy Double → List ℕ → ℕ × LearnedPolicy Double
  unfolding feedback lowest_from
  learned observer p [] = (0, p)
  learned none p (pid ∷ pids) = (pid, p)
  learned (some o) p (pid ∷ pids) = choose_lowest o (feedback o p) pid pids

  pub get_weights : LearnedPolicy Double → Weights Double
  get_weights p = p.weights

  -- The methods of `LoadedLearnedPageEvictionPolicy`, which has its own copies.
  unfoldable pub loaded_features : Option AccessObserver → ℕ → Features Double
  unfolding contains
  loaded_features none page_id = no_features
  loaded_features (some o) page_id = record {
    recency = div (of_nat 1) (add (of_nat 1) (of_nat (get_last_index_in_recent o page_id)));
    count =
        smaller (of_nat 1)
          (div (of_nat (get_access_count o page_id)) (add (of_nat 1) (of_nat (get_capacity o))));
    scan =
        if contains (u32 (page_id + 1)) (recent_set o)
          || (ltb 0 page_id && contains (page_id - 1) (recent_set o))
        then of_nat 1
        else of_nat 0;
  }

  unfoldable pub loaded_score : Weights Double → Features Double → Double
  loaded_score w f =
      add (add (mul w.w_recency f.recency) (mul w.w_count f.count)) (mul w.w_scan f.scan)

  -- Its loop, which keeps no features.
  unfoldable pub lowest_score_from : AccessObserver → Weights Double → ℕ → Double → List ℕ → ℕ
  unfolding loaded_features loaded_score
  lowest_score_from o w victim min_score [] = victim
  lowest_score_from o w victim min_score (pid ∷ pids) =
      let s = loaded_score w (loaded_features (some o) pid) in
      let kept = lowest_score_from o w victim min_score pids in
      let better = lowest_score_from o w pid s pids in if less s min_score then better else kept

  unfoldable pub loaded_learned : Option AccessObserver → Weights Double → List ℕ → ℕ
  unfolding lowest_score_from
  loaded_learned observer w [] = 0
  loaded_learned none w (pid ∷ pids) = pid
  loaded_learned (some o) w (pid ∷ pids) =
      lowest_score_from o w pid (loaded_score w (loaded_features (some o) pid)) pids

  -- `load_weights_from_file`, over the lines of the file (`none` if it does not open) and over what
  -- the stream extraction of three numbers from a line gives.
  module _ (extract_three : List ℕ → Option (Weights Double)) where
    abbrev pub is_skipped : List ℕ → Bool
    is_skipped [] = true
    is_skipped (c ∷ cs) = c == b'#'

    unfoldable pub weights_of_lines : List (List ℕ) → Option (Weights Double)
    weights_of_lines [] = none
    weights_of_lines (line ∷ lines) =
        let rest = weights_of_lines lines in if is_skipped line then rest else extract_three line

    abbrev pub weights_or_default : Option (Weights Double) → Weights Double
    weights_or_default none = default_weights
    weights_or_default (some w) = w

    -- The constructor's weights.
    unfoldable pub load_weights : Option (List (List ℕ)) → Weights Double
    unfolding weights_of_lines
    load_weights none = default_weights
    load_weights (some lines) = weights_or_default (weights_of_lines lines)
