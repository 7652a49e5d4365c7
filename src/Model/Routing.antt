-- ===== src/Model/Routing.antt =====
-- The routing of rows to experts in `MlpOrMoe::forward` of `src/quantized_llama.rs`.
use neural_swarm_ai.Common.{
  ℕ, zero, suc, ◌+◌, ◌<◌, ◌≤◌, ◌≡◌, refl, sym, ap, ◌∙◌, Bool, get_elem?, Bool-cases, inl, inr, some,
  List, [], ◌∷◌, ◌++◌, length, take, range, count_up, ◌-◌, All, arith, length-append,
}
use neural_swarm_ai.Float.{F32, zero_f}
use neural_swarm_ai.Model.Tensors.{Candle}
use neural_swarm_ai.Model.Experts.{
  push_at, stays_before, insert_expert, sort_experts, push_rows, push_shares, route_row, route_rows,
}

-- How much each expert has got.
unfoldable pub lengths {ℓ} : {A : Type ℓ} → List (List A) → List ℕ
lengths [] = []
lengths (l ∷ ls) = length l ∷ lengths ls

-- One more for an expert, and for each of some experts.
bump : ℕ → List ℕ → List ℕ
bump i [] = []
bump zero (n ∷ ns) = suc n ∷ ns
bump (suc i) (n ∷ ns) = n ∷ bump i ns

bumps : List ℕ → List ℕ → List ℕ
bumps [] ns = ns
bumps (i ∷ is) ns = bumps is (bump i ns)

push_at-lengths {ℓ} :
    {A : Type ℓ} (i : ℕ) (x : A) (ls : List (List A))
    → i < length ls
    → (ls' : List (List A)) × (push_at i x ls ≡ some ls')
      × (length ls' ≡ length ls)
      × (lengths ls' ≡ bump i (lengths ls))
unfolding push_at lengths bump
push_at-lengths i x [] h = absurd (omega arith)
push_at-lengths zero x (l ∷ ls) h =
    let longer : length (l ++ (x ∷ [])) ≡ suc (length l) =
      omega (arith, length-append l (x ∷ [])) in
    (_, refl, refl, ap (λ n. n ∷ lengths ls) longer)
push_at-lengths (suc i) x (l ∷ ls) h =
    let (ls', e, n, k) = push_at-lengths i x ls (omega arith) in
    (l ∷ ls', rw (push_at, e) refl, ap suc n, ap (λ ns. length l ∷ ns) k)

count_below : (lo n m : ℕ) → lo + n ≤ m → All (λ i. i < m) (count_up lo n)
count_below lo zero m h = tt
count_below lo (suc n) m h = (omega arith, count_below (suc lo) n m (omega arith))

range_below : (n m : ℕ) → n ≤ m → All (λ i. i < m) (range 0 n)
range_below n m h = count_below 0 (n - 0) m (omega arith)

take_below : (n k : ℕ) (is : List ℕ) → All (λ i. i < n) is → All (λ i. i < n) (take k is)
take_below n zero is h = tt
take_below n (suc k) [] h = tt
take_below n (suc k) (i ∷ is) h = (h.0, take_below n k is h.1)

get_elem?-some {ℓ} :
    {A : Type ℓ} (xs : List A) (i : ℕ) → i < length xs → (x : A) × (get_elem? xs i ≡ some x)
get_elem?-some [] i h = absurd (omega arith)
get_elem?-some (x ∷ xs) zero h = (x, refl)
get_elem?-some (x ∷ xs) (suc i) h = get_elem?-some xs i (omega arith)

module _ {T Q M N B F E : Type 0} ⦃f : F32 F⦄ (c : Candle T Q M N B F E) where
  stays_before-some :
      (rw' : List F) (j i : ℕ)
      → j < length rw'
      → i < length rw'
      → (b : Bool) × (stays_before c rw' j i ≡ some b)
  unfolding stays_before
  stays_before-some rw' j i hj hi =
      let (w_j, e_j) = get_elem?-some rw' j hj in
      let (w_i, e_i) = get_elem?-some rw' i hi in rw (stays_before, e_j, e_i) (_, refl)

  insert_expert-some :
      (rw' : List F) (i : ℕ) (js : List ℕ)
      → i < length rw'
      → All (λ j. j < length rw') js
      → (js' : List ℕ) × (insert_expert c rw' i js ≡ some js') × All (λ j. j < length rw') js'
  unfolding insert_expert
  insert_expert-some rw' i [] p h = (i ∷ [], refl, (p, tt))
  insert_expert-some rw' i (j ∷ js) p h =
      let (b, e) = stays_before-some rw' j i h.0 p in
      let (js', e', h') = insert_expert-some rw' i js p h.1 in
      elim (Bool-cases b) [
        | inl t ↦ (j ∷ js', rw (insert_expert, e, t, e') refl, (h.0, h'))
        | inr t ↦ (i ∷ j ∷ js, rw (insert_expert, e, t) refl, (p, h))
      ]

  sort_experts-some :
      (rw' : List F) (is : List ℕ)
      → All (λ j. j < length rw') is
      → (js : List ℕ) × (sort_experts c rw' is ≡ some js) × All (λ j. j < length rw') js
  unfolding sort_experts
  sort_experts-some rw' [] h = ([], refl, tt)
  sort_experts-some rw' (i ∷ is) h =
      let (js, e, below) = sort_experts-some rw' is h.1 in
      let (js', e', below') = insert_expert-some rw' i js h.0 below in
      (js', rw (sort_experts, e) e', below')

  push_rows-some :
      (rw' : List F) (row n : ℕ) (is : List ℕ) (sum : F) (top_x : List (List ℕ))
      → length rw' ≤ n
      → length top_x ≡ n
      → All (λ i. i < length rw') is
      → (sum' : F) × (top_x' : List (List ℕ)) × (push_rows c rw' row is (sum, top_x)
          ≡ some (sum', top_x'))
        × (length top_x' ≡ n)
        × (lengths top_x' ≡ bumps is (lengths top_x))
  unfolding push_rows bumps
  push_rows-some rw' row n [] sum top_x fit size h = (sum, top_x, refl, size, refl)
  push_rows-some rw' row n (i ∷ is) sum top_x fit size (within, h) =
      let (w, found) = get_elem?-some rw' i within in
      let (next, e, same, bumped) = push_at-lengths i row top_x (omega arith) in
      let (sum', top', e', size', bumped') =
        push_rows-some rw' row n is (f.add sum w) next fit (same ∙ size) h in
      (sum', top', rw (push_rows, found, e) e', size', bumped' ∙ ap (bumps is) bumped)

  push_shares-some :
      (rw' : List F) (sum : F) (n : ℕ) (is : List ℕ) (selected : List (List F))
      → length rw' ≤ n
      → length selected ≡ n
      → All (λ i. i < length rw') is
      → (selected' : List (List F)) × (push_shares c rw' sum is selected ≡ some selected')
        × (length selected' ≡ n)
        × (lengths selected' ≡ bumps is (lengths selected))
  unfolding push_shares bumps
  push_shares-some rw' sum n [] selected fit size h = (selected, refl, size, refl)
  push_shares-some rw' sum n (i ∷ is) selected fit size (within, h) =
      let (w, found) = get_elem?-some rw' i within in
      let (next, e, same, bumped) = push_at-lengths i (f.div w sum) selected (omega arith) in
      let (selected', e', size', bumped') =
        push_shares-some rw' sum n is next fit (same ∙ size) h in
      (selected', rw (push_shares, found, e) e', size', bumped' ∙ ap (bumps is) bumped)

  -- The lists for `n` experts, with a share for each row of an expert.
  abbrev pub AreAligned : ℕ → List (List ℕ) × List (List F) → Type 0
  AreAligned n acc = (length acc.0 ≡ n) × (length acc.1 ≡ n) × (lengths acc.0 ≡ lengths acc.1)

  route_row-some :
      (n_expert_used row n : ℕ) (rw' : List F) (acc : List (List ℕ) × List (List F))
      → length rw' ≤ n
      → AreAligned n acc
      → (acc' : List (List ℕ) × List (List F)) × (route_row c n_expert_used row rw' acc ≡ some acc')
        × AreAligned n acc'
  unfolding route_row
  route_row-some n_expert_used row n rw' acc within (size₁, size₂, aligned) =
      let (dst, e₀, within_row) =
        sort_experts-some rw' (range 0 (length rw'))
          (range_below (length rw') (length rw') (omega arith)) in
      let top = take n_expert_used dst in
      let below = take_below (length rw') n_expert_used dst within_row in
      let (sum, top_x, e₁, n₁, b₁) = push_rows-some rw' row n top zero_f acc.0 within size₁ below in
      let (selected, e₂, n₂, b₂) = push_shares-some rw' sum n top acc.1 within size₂ below in
      (
        (top_x, selected),
        rw (route_row, e₀, e₁, e₂) refl,
        (n₁, n₂, b₁ ∙ ap (bumps top) aligned ∙ sym b₂),
      )

  -- The routing of rows with a weight for each of at most `n` experts reads no weight of a row and
  -- writes to no list of an expert out of bounds, and every expert gets as many shares as rows.
  pub route_rows-AreAligned :
      (n_expert_used row n : ℕ) (rws : List (List F)) (acc : List (List ℕ) × List (List F))
      → All (λ r. length r ≤ n) rws
      → AreAligned n acc
      → (acc' : List (List ℕ) × List (List F)) × (route_rows c n_expert_used row rws acc
          ≡ some acc')
        × AreAligned n acc'
  unfolding route_rows
  route_rows-AreAligned n_expert_used row n [] acc within h = (acc, refl, h)
  route_rows-AreAligned n_expert_used row n (r ∷ rws) acc within h =
      let (next, e, h') = route_row-some n_expert_used row n r acc within.0 h in
      let (acc', e', h'') = route_rows-AreAligned n_expert_used (row + 1) n rws next within.1 h' in
      (acc', rw (route_rows, e) e', h'')
