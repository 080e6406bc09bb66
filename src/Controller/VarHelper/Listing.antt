-- ===== src/Controller/VarHelper/Listing.antt =====
-- Lists of observations given by their places, and the removal of the newest match.
use vss.Prelude.{
  ℕ, zero, suc, ◌≤◌, ◌<◌, List, [], ◌∷◌, ◌≡◌, refl, ap, ap₂, Bool, true, false, ◌&&◌, str_eq, ◌==◌,
  if◌then◌else◌, arith, Bool-cases, inl, inr,
}
use vss.Controller.VarHelper.{Observation}

abbrev pub observation_eq : Observation → Observation → Bool
observation_eq a b = str_eq a.client_id b.client_id && str_eq a.metadata b.metadata

-- Without the first entry that is the observation, if there is one.
unfoldable pub erase_first : Observation → List Observation → List Observation
erase_first o [] = []
erase_first o (e ∷ es) = let rest = erase_first o es in if observation_eq e o then es else e ∷ rest

-- e(n-1), …, e(1), e(0)
unfoldable pub newest_first : (ℕ → Observation) → ℕ → List Observation
newest_first e zero = []
newest_first e (suc n) = e n ∷ newest_first e n

pub newest_first_ext :
    {e d : ℕ → Observation} (n : ℕ)
    → ((i : ℕ) → i < n → e i ≡ d i)
    → newest_first e n ≡ newest_first d n
unfolding newest_first
newest_first_ext zero h = refl
newest_first_ext (suc n) h =
    ap₂ (λ x xs. x ∷ xs) (h n (omega arith)) (newest_first_ext n λ i k. h i (omega arith))

-- If `d` is `e` without the place `i`, which holds `o` while the places above it do not, then its
-- list is the list of `e` without the first `o`.
pub erase_first-newest_first :
    (o : Observation) (e d : ℕ → Observation) (n i : ℕ)
    → i ≤ n
    → observation_eq (e i) o ≡ true
    → ((j : ℕ) → i < j → j ≤ n → observation_eq (e j) o ≡ false)
    → ((j : ℕ) → j < i → d j ≡ e j)
    → ((j : ℕ) → i ≤ j → j < n → d j ≡ e (suc j))
    → newest_first d n ≡ erase_first o (newest_first e (suc n))
unfolding newest_first erase_first
erase_first-newest_first o e d zero i le here above low high =
    let p : i ≡ 0 = omega arith in rw (rw p at here)
erase_first-newest_first o e d (suc n) i le here above low high = elim (Bool-cases (i == suc n)) [
  | inl q ↦
      let p : i ≡ suc n = ground arith in
      rw (rw p at here) (
        ap₂ (λ x xs. x ∷ xs) (low n (omega arith)) (newest_first_ext n λ j lt. low j (omega arith)))
  | inr q ↦
      let lt : i ≤ n = ground arith in
      rw (above (suc n) (omega arith) (omega arith)) (
        ap₂ (λ x xs. x ∷ xs) (high n lt (omega arith))
          (erase_first-newest_first o e d n i lt here (λ j a b. above j a (omega arith)) low
            (λ j a b. high j a (omega arith))))
]

-- A list that does not hold the observation stays as it is.
pub erase_first_none :
    (o : Observation) (e : ℕ → Observation) (n : ℕ)
    → ((j : ℕ) → j < n → observation_eq (e j) o ≡ false)
    → erase_first o (newest_first e n) ≡ newest_first e n
unfolding newest_first erase_first
erase_first_none o e zero h = refl
erase_first_none o e (suc n) h =
    rw (h n (omega arith)) (ap (λ xs. e n ∷ xs) (erase_first_none o e n λ j lt. h j (omega arith)))
