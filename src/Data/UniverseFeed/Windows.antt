-- ===== src/Data/UniverseFeed/Windows.antt =====
-- The histories of the feed against all that came in.
use binbot.Base.{
  ℕ, ◌+◌, ◌≤◌, ◌≡◌, refl, sym, ap, ◌∙◌, [], ◌∷◌, ◌++◌, filter, filter-append, arith, leb, if-cases,
}
use binbot.Core.Events.{DateTime}
use binbot.Data.UniverseFeed.{History, trim, append_trimmed}

module _ {F : Type 0} where
  -- The points that lie within the window before ts.
  abbrev pub recent : ℕ → DateTime → History F → History F
  recent window ts = filter (λ p. leb ts (p.0 + window))

  -- The times do not fall from `lo` on, and end at `hi` at the latest.
  abbrev pub IsRising : DateTime → DateTime → History F → Type 0
  IsRising lo hi [] = lo ≤ hi
  IsRising lo hi (p ∷ history) = (lo ≤ p.0) × IsRising p.0 hi history

  pub IsRising-append :
      (lo hi ts : DateTime) (v : F) (history : History F)
      → IsRising lo hi history
      → hi ≤ ts
      → IsRising lo ts (history ++ (ts, v) ∷ [])
  IsRising-append lo hi ts v [] h k = (omega arith, omega arith)
  IsRising-append lo hi ts v (p ∷ history) h k = (h.0, IsRising-append p.0 hi ts v history h.1 k)

  all_recent :
      (window lo hi ts : ℕ) (history : History F)
      → IsRising lo hi history
      → ts ≤ lo + window
      → recent window ts history ≡ history
  all_recent window lo hi ts [] h k = refl
  all_recent window lo hi ts (p ∷ history) h k =
      let q : ts ≤ p.0 + window = omega arith in
      ground (arith, all_recent window p.0 hi ts history h.1 q)

  trim-eq-recent :
      (window lo hi ts : ℕ) (history : History F)
      → IsRising lo hi history
      → trim window ts history ≡ recent window ts history
  unfolding trim
  trim-eq-recent window lo hi ts [] h = refl
  trim-eq-recent window lo hi ts (p ∷ history) h =
      ground (
        arith,
        trim-eq-recent window p.0 hi ts history h.1,
        all_recent window p.0 hi ts history h.1,
      )

  recent_later :
      (window t ts : ℕ) (history : History F)
      → t ≤ ts
      → recent window ts (recent window t history) ≡ recent window ts history
  recent_later window t ts [] h = refl
  recent_later window t ts (p ∷ history) h = ground (arith, recent_later window t ts history h)

  IsRising-weaken :
      (lo mid hi : ℕ) (history : History F)
      → lo ≤ mid
      → IsRising mid hi history
      → IsRising lo hi history
  IsRising-weaken lo mid hi [] k h = omega arith
  IsRising-weaken lo mid hi (p ∷ history) k h = (omega arith, h.1)

  IsRising-recent :
      (window t lo hi : ℕ) (history : History F)
      → IsRising lo hi history
      → IsRising lo hi (recent window t history)
  IsRising-recent window t lo hi [] h = h
  IsRising-recent window t lo hi (p ∷ history) h =
      let later = IsRising-recent window t p.0 hi history h.1 in
      if-cases (λ (xs : History F). IsRising lo hi xs) (leb t (p.0 + window))
        (p ∷ recent window t history) (recent window t history) (λ kept. (h.0, later))
        (λ gone. IsRising-weaken lo p.0 hi (recent window t history) h.0 later)

  -- One more point: the window of all that came before and of it.
  pub append_trimmed-eq-recent :
      (window t ts : ℕ) (v : F) (all : History F)
      → IsRising 0 t all
      → t ≤ ts
      → append_trimmed window ts v (recent window t all) ≡ recent window ts (all ++ (ts, v) ∷ [])
  unfolding append_trimmed
  append_trimmed-eq-recent window t ts v all h k =
      let point = (ts, v) ∷ [] in
      let fresh = λ (p : DateTime × F). leb ts (p.0 + window) in
      trim-eq-recent window 0 ts ts (recent window t all ++ point)
        (IsRising-append 0 t ts v (recent window t all) (IsRising-recent window t 0 t all h) k)
      ∙ filter-append fresh (recent window t all) point
      ∙ ap (λ xs. xs ++ filter fresh point) (recent_later window t ts all k)
      ∙ sym (filter-append fresh all point)
