-- ===== src/Execution/Slippage.antt =====
-- execution/slippage.py: the slippage of each fill against its decision-time price, by symbol.
use binbot.Base.{
  ℕ, ◌+◌, Option, none, some, String, List, [], ◌∷◌, ◌++◌, pos, map, length, if◌then◌else◌,
}
use binbot.Float.{sum, Float, ◌*F◌, ◌/F◌, ◌<F◌, lit}
use binbot.Dict.{Dict, put, get_or}
use binbot.Core.Events.{ExecutionEvent, slippage}

pub record SlippageStats (F : Type 0) : Type 0 where
  pub symbol : String
  pub fill_count : ℕ
  pub total_quantity : ℕ
  pub mean_slippage : F
  pub worst_slippage : F
  pub total_slippage_cost : F

pub record SlippageTracker (F : Type 0) : Type 0 where
  pub records : Dict (List (ℕ × F))

abbrev sum_ℕ : List ℕ → ℕ
sum_ℕ [] = 0
sum_ℕ (n ∷ ns) = n + sum_ℕ ns

module _ {F : Type 0} ⦃f : Float F⦄ where
  -- The end of `record`, by the slippage of the event.
  unfoldable pub record_with : Option F → ExecutionEvent F → SlippageTracker F → SlippageTracker F
  record_with none e t = t
  record_with (some s) e t = record t {
    records = put t.records e.symbol (get_or t.records e.symbol [] ++ (e.fill_quantity, s) ∷ []);
  }

  -- `SlippageTracker.record`
  unfoldable pub record_fill : ExecutionEvent F → SlippageTracker F → SlippageTracker F
  unfolding record_with
  record_fill e t = record_with (slippage e) e t

  abbrev pub abs : F → F
  abs x = if x <F lit 0 then f.minus x else x

  -- `max(slippages, key=abs)` after its first element: the first of the largest.
  unfoldable pub worst : F → List F → F
  worst best [] = best
  worst best (x ∷ xs) = worst (if abs best <F abs x then x else best) xs

  unfoldable pub stats_of : String → List (ℕ × F) → Option (SlippageStats F)
  stats_of symbol [] = none
  stats_of symbol ((q, s) ∷ rest) =
      let records = (q, s) ∷ rest in
      some (record {
        symbol = symbol;
        fill_count = length records;
        total_quantity = sum_ℕ (map (λ r. r.0) records);
        mean_slippage = sum (map (λ r. r.1) records) /F f.of_int (pos (length records));
        worst_slippage = worst s (map (λ r. r.1) rest);
        total_slippage_cost = sum (map (λ r. f.of_int (pos r.0) *F r.1) records);
      })

  unfoldable pub stats : String → SlippageTracker F → Option (SlippageStats F)
  unfolding stats_of worst
  stats symbol t = stats_of symbol (get_or t.records symbol [])

  abbrev stats_entry : String → Option (SlippageStats F) → Dict (SlippageStats F)
  stats_entry symbol none = []
  stats_entry symbol (some x) = (symbol, x) ∷ []

  unfoldable pub all_stats_of : Dict (List (ℕ × F)) → SlippageTracker F → Dict (SlippageStats F)
  all_stats_of [] t = []
  all_stats_of ((symbol, records) ∷ rest) t =
      stats_entry symbol (stats symbol t) ++ all_stats_of rest t

  unfoldable pub all_stats : SlippageTracker F → Dict (SlippageStats F)
  unfolding all_stats_of
  all_stats t = all_stats_of t.records t
