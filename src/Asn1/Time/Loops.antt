-- ===== src/Asn1/Time/Loops.antt =====
-- The loop `locate` of src/asn1/asn1time.c, and sums.
use slim_data_crypt.Common.{
  ℕ, zero, suc, ◌+◌, ◌-◌, ◌*◌, ◌≤◌, ◌<◌, ◌≡◌, ap, ◌∙◌, false, ltb, Bool-cases, inl, inr, arith,
}
use slim_data_crypt.Asn1.Time.{locate, add_up}

module _ (size : ℕ → ℕ) where
  -- size i + size (i + 1) + ..., `n` of them.
  unfoldable pub total : ℕ → ℕ → ℕ
  total i zero = 0
  total i (suc n) = size i + total (i + 1) n

  pub add_up-total : (n i days : ℕ) → add_up size n i days ≡ days + total i n
  unfolding add_up total
  add_up-total zero i days = omega arith
  add_up-total (suc n) i days = omega (arith, add_up-total n (i + 1) (days + size i))

  pub total-suc : (n i : ℕ) → total i (suc n) ≡ total i n + size (i + n)
  unfolding total
  total-suc zero i = omega (arith, ap size (let e : i + 0 ≡ i = omega arith in e))
  total-suc (suc n) i =
      omega (arith, total-suc n (i + 1), ap size (let e : i + 1 + n ≡ i + suc n = omega arith in e))

  pub locate-total :
      (n rounds i r : ℕ)
      → n < rounds
      → r < size (i + n)
      → locate size rounds i (total i n + r) ≡ (i + n, r)
  unfolding locate total
  locate-total n zero i r h l = absurd (omega arith)
  locate-total zero (suc rounds) i r h l =
      ground (arith, ap size (let e : i + 0 ≡ i = omega arith in e))
  locate-total (suc n) (suc rounds) i r h l =
      let place : i + 1 + n ≡ i + suc n = omega arith in
      let further : ltb (size i + total (i + 1) n + r) (size i) ≡ false = ground arith in
      let left : size i + total (i + 1) n + r - size i ≡ total (i + 1) n + r = omega arith in
      rw (further, left)
        (locate-total n rounds (i + 1) r (omega arith) (omega (arith, ap size place))
          ∙ ap (λ j. (j, r)) place)

  -- `t` as so many whole sizes and a part of the next one.
  pub record Located (i n t : ℕ) : Type 0 where
    pub steps : ℕ
    pub rest : ℕ
    pub few : steps < n
    pub within : rest < size (i + steps)
    pub adds_up : total i steps + rest ≡ t

  pub located : (n i t : ℕ) → t < total i n → Located i n t
  unfolding total
  located zero i t h = absurd (omega arith)
  located (suc n) i t h = elim (Bool-cases (ltb t (size i))) [
    | inl e ↦ record {
      steps = 0;
      rest = t;
      few = omega arith;
      within = ground (arith, ap size (let e : i + 0 ≡ i = omega arith in e));
      adds_up = omega arith;
    }
    | inr e ↦
        let later = located n (i + 1) (t - size i) (ground arith) in
        record {
          steps = suc later.steps;
          rest = later.rest;
          few = omega (arith, later.few);
          within = omega (
            arith,
            later.within,
            ap size (let e : i + 1 + later.steps ≡ i + suc later.steps = omega arith in e),
          );
          adds_up = ground (arith, later.adds_up);
        }
  ]

  pub le-total : ((j : ℕ) → 0 < size j) → (n i : ℕ) → n ≤ total i n
  unfolding total
  le-total pos zero i = omega arith
  le-total pos (suc n) i = omega (arith, pos i, le-total pos n (i + 1))

  pub total-ge : (m : ℕ) → ((j : ℕ) → m ≤ size j) → (n i : ℕ) → m * n ≤ total i n
  unfolding total
  total-ge m bound zero i = omega arith
  total-ge m bound (suc n) i = omega (arith, bound i, total-ge m bound n (i + 1))

  pub total-le : (m : ℕ) → ((j : ℕ) → size j ≤ m) → (n i : ℕ) → total i n ≤ m * n
  unfolding total
  total-le m bound zero i = omega arith
  total-le m bound (suc n) i = omega (arith, bound i, total-le m bound n (i + 1))

  pub total-add : (m n i : ℕ) → total i (m + n) ≡ total i m + total (i + m) n
  unfolding total
  total-add zero n i =
      ap (total i) (let e : 0 + n ≡ n = omega arith in e)
      ∙ omega (arith, ap (λ j. total j n) (let e : i + 0 ≡ i = omega arith in e))
  total-add (suc m) n i =
      ap (total i) (let e : suc m + n ≡ suc (m + n) = omega arith in e)
      ∙ omega (
        arith,
        total-add m n (i + 1),
        ap (λ j. total j n) (let e : i + 1 + m ≡ i + suc m = omega arith in e),
      )
