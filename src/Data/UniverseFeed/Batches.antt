-- ===== src/Data/UniverseFeed/Batches.antt =====
-- The pacing of a backfill's requests.
use binbot.Base.{
  take, drop, ℕ, zero, suc, ◌+◌, ◌≤◌, ◌≡◌, refl, sym, ap, ◌∙◌, Bool, true, false, not, String, List,
  [], ◌∷◌, ◌++◌, arith, ltb, leb, length, if-cases, ◌&&◌,
}
use binbot.Data.UniverseFeed.{Step, requests, pause, batches}

-- The symbols of all requests, in order.
unfoldable pub requested : List Step → List String
requested [] = []
requested (requests symbols ∷ steps) = symbols ++ requested steps
requested (pause ∷ steps) = requested steps

-- No batch is larger than `size`, and between two batches there is a pause.
unfoldable pub is_paced : ℕ → Bool → List Step → Bool
is_paced size ready [] = true
is_paced size ready (requests symbols ∷ steps) =
    ready && (leb (length symbols) size && is_paced size false steps)
is_paced size ready (pause ∷ steps) = not ready && is_paced size true steps

length-take-le : (n : ℕ) (xs : List String) → length (take n xs) ≤ n
length-take-le zero xs = omega arith
length-take-le (suc n) [] = omega arith
length-take-le (suc n) (x ∷ xs) = omega (arith, length-take-le n xs)

length-drop-le : (n : ℕ) (xs : List String) → length (drop n xs) ≤ length xs
length-drop-le zero xs = omega arith
length-drop-le (suc n) [] = omega arith
length-drop-le (suc n) (x ∷ xs) = omega (arith, length-drop-le n xs)

append-take-drop : (n : ℕ) (xs : List String) → take n xs ++ drop n xs ≡ xs
append-take-drop zero xs = refl
append-take-drop (suc n) [] = refl
append-take-drop (suc n) (x ∷ xs) = ap (λ ys. x ∷ ys) (append-take-drop n xs)

nil_of_length : (xs : List String) → length xs ≤ 0 → xs ≡ []
nil_of_length [] h = refl
nil_of_length (x ∷ xs) h = ground arith

requested-batches :
    (rounds n : ℕ) (symbols : List String)
    → length symbols ≤ rounds
    → requested (batches rounds n symbols) ≡ symbols
unfolding requested batches
requested-batches zero n symbols h = sym (nil_of_length symbols h)
requested-batches (suc rounds) n [] h = refl
requested-batches (suc rounds) n (s ∷ symbols) h =
    let more = drop n symbols in
    let q = length-drop-le n symbols in
    let rest = requested-batches rounds n more (omega (arith, q)) in
    if-cases (λ (steps : List Step). s ∷ take n symbols ++ requested steps ≡ s ∷ symbols)
      (ltb 0 (length more)) (pause ∷ batches rounds n more) []
      (λ t.
        ap (λ ys. s ∷ take n symbols ++ ys) rest ∙ ap (λ ys. s ∷ ys) (append-take-drop n symbols))
      (λ f.
        ap (λ ys. s ∷ take n symbols ++ ys) (sym (nil_of_length more (ground (arith, f))))
        ∙ ap (λ ys. s ∷ ys) (append-take-drop n symbols))

is_paced-batches :
    (rounds n : ℕ) (symbols : List String) → is_paced (n + 1) true (batches rounds n symbols) ≡ true
unfolding is_paced batches
is_paced-batches zero n symbols = refl
is_paced-batches (suc rounds) n [] = refl
is_paced-batches (suc rounds) n (s ∷ symbols) =
    ground (arith, length-take-le n symbols, is_paced-batches rounds n (drop n symbols))

-- On as many rounds as there are symbols, the backfill asks for every symbol once and in order, in batches of at most
-- the batch size n + 1, with a pause between any two batches.
pub backfill_paced :
    (n : ℕ) (symbols : List String)
    → (requested (batches (length symbols) n symbols) ≡ symbols)
      × (is_paced (n + 1) true (batches (length symbols) n symbols) ≡ true)
backfill_paced n symbols = (
  requested-batches (length symbols) n symbols (omega arith),
  is_paced-batches (length symbols) n symbols,
)
