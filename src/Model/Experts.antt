-- ===== src/Model/Experts.antt =====
-- The feed-forward part of a layer: `QMatMul`, `Mlp` and `MlpOrMoe` of `src/quantized_llama.rs`.
-- Spans of `tracing` are left out.
use Prim.Native.Nat.{Ordering}
use mathlib.Core.Option
use neural_swarm_ai.Common.{
  ℕ, zero, suc, ◌+◌, Bool, true, false, if◌then◌else◌, Option, none, some, List, [], ◌∷◌, ◌++◌,
  length, get_elem?, take, range, is_empty, Result, ok, ok_or, ◌>>=◌,
}
use neural_swarm_ai.Float.{F32, zero_f}
use neural_swarm_ai.Model.Tensors.{Candle}

pub record QMatMul (M : Type 0) : Type 0 where
  pub inner : M

pub record Mlp (M : Type 0) : Type 0 where
  pub feed_forward_w1 : QMatMul M
  pub feed_forward_w2 : QMatMul M
  pub feed_forward_w3 : QMatMul M

pub data MlpOrMoe (M : Type 0) : Type 0 where
  mlp : Mlp M → MlpOrMoe M
  moe :
      (n_expert_used : ℕ) (feed_forward_gate_inp : QMatMul M) (experts : List (Mlp M)) → MlpOrMoe M

abbrev pub is_greater : Ordering → Bool
is_greater Ordering.gt = true
is_greater _ = false

-- `v[i].push(x)`; `none` where the index is out of bounds, a panic.
unfoldable pub push_at {ℓ} : {A : Type ℓ} → ℕ → A → List (List A) → Option (List (List A))
push_at i x [] = none
push_at zero x (l ∷ ls) = some ((l ++ (x ∷ [])) ∷ ls)
push_at (suc i) x (l ∷ ls) =
    let rest = push_at i x ls in elim rest [ none ↦ none | some ls' ↦ some (l ∷ ls') ]

-- `vec![vec![]; n]`
unfoldable pub empties {ℓ} : {A : Type ℓ} → ℕ → List (List A)
empties zero = []
empties (suc n) = [] ∷ empties n

module _ {T Q M N B F E : Type 0} ⦃f : F32 F⦄ (c : Candle T Q M N B F E) where
  unfoldable pub qmatmul_from_qtensor : Q → Result E (QMatMul M)
  qmatmul_from_qtensor q = do inner ← c.matmul_of q; ok (record { inner = inner })

  unfoldable pub qmatmul_forward : QMatMul M → T → Result E T
  qmatmul_forward m xs = c.matmul_forward m.inner xs

  unfoldable pub mlp_forward : Mlp M → T → Result E T
  unfolding qmatmul_forward
  mlp_forward m xs = do
    w1 ← qmatmul_forward m.feed_forward_w1 xs
    w3 ← qmatmul_forward m.feed_forward_w3 xs
    gate ← c.silu w1
    gated ← c.mul gate w3
    qmatmul_forward m.feed_forward_w2 gated

  -- `rw[i]`; `none` where the index is out of bounds, a panic.
  abbrev pub weight_at : List F → ℕ → Option F
  weight_at rw i = get_elem? rw i

  -- Whether the expert `j` stays before `i`: `rw[j].total_cmp(&rw[i])` is greater.
  unfoldable pub stays_before : List F → ℕ → ℕ → Option Bool
  stays_before rw j i = elim (weight_at rw j) [
    | none ↦ none
    | some w_j ↦ elim (weight_at rw i) [
      | none ↦ none
      | some w_i ↦ some (is_greater (c.total_cmp w_j w_i))
    ]
  ]

  -- The experts of a row by falling weight: a stable sort.
  unfoldable pub insert_expert : List F → ℕ → List ℕ → Option (List ℕ)
  unfolding stays_before
  insert_expert rw i [] = some (i ∷ [])
  insert_expert rw i (j ∷ js) =
      let rest = insert_expert rw i js in
      elim (stays_before rw j i) [
        | none ↦ none
        | some true ↦ Option.map (λ js'. j ∷ js') rest
        | some false ↦ some (i ∷ j ∷ js)
      ]

  unfoldable pub sort_experts : List F → List ℕ → Option (List ℕ)
  unfolding insert_expert
  sort_experts rw [] = some []
  sort_experts rw (i ∷ is) =
      let rest = sort_experts rw is in
      elim rest [ none ↦ none | some sorted ↦ insert_expert rw i sorted ]

  -- The first loop over the experts of a row: the sum of their weights, and the row for each.
  unfoldable pub push_rows : List F → ℕ → List ℕ → F × List (List ℕ) → Option (F × List (List ℕ))
  push_rows rw row_idx [] acc = some acc
  push_rows rw row_idx (i ∷ is) (sum, top_x) = elim (weight_at rw i) [
    | none ↦ none
    | some routing_weight ↦ elim (push_at i row_idx top_x) [
      | none ↦ none
      | some top_x' ↦ push_rows rw row_idx is (f.add sum routing_weight, top_x')
    ]
  ]

  -- The second loop: the share of each in the sum.
  unfoldable pub push_shares : List F → F → List ℕ → List (List F) → Option (List (List F))
  push_shares rw sum [] selected_rws = some selected_rws
  push_shares rw sum (i ∷ is) selected_rws = elim (weight_at rw i) [
    | none ↦ none
    | some routing_weight ↦ elim (push_at i (f.div routing_weight sum) selected_rws) [
      | none ↦ none
      | some selected_rws' ↦ push_shares rw sum is selected_rws'
    ]
  ]

  -- One row of the routing weights.
  unfoldable pub route_row :
      ℕ → ℕ → List F → List (List ℕ) × List (List F) → Option (List (List ℕ) × List (List F))
  unfolding push_rows push_shares sort_experts
  route_row n_expert_used row_idx rw (top_x, selected_rws) =
      elim (sort_experts rw (range 0 (length rw))) [
        | none ↦ none
        | some dst ↦
            let top = take n_expert_used dst in
            elim (push_rows rw row_idx top (zero_f, top_x)) [
              | none ↦ none
              | some (sum, top_x') ↦ elim (push_shares rw sum top selected_rws) [
                | none ↦ none
                | some selected_rws' ↦ some (top_x', selected_rws')
              ]
            ]
      ]

  unfoldable pub route_rows :
      ℕ → ℕ → List (List F) → List (List ℕ) × List (List F) → Option (List (List ℕ) × List (List F))
  unfolding route_row
  route_rows n_expert_used row_idx [] acc = some acc
  route_rows n_expert_used row_idx (rw ∷ rws) acc = elim (route_row n_expert_used row_idx rw acc) [
    | none ↦ none
    | some acc' ↦ route_rows n_expert_used (row_idx + 1) rws acc'
  ]

  -- The rows of one expert, weighed and added to the output.
  unfoldable pub add_expert : T → ℕ → Mlp M → List ℕ → List F → T → Result E T
  unfolding mlp_forward
  add_expert xs hidden_dim expert top_x selected_rws ys = do
    top ← c.of_u32s top_x
    weights ← c.of_f32s selected_rws
    column ← c.rows weights 1
    selected ← c.index_select xs top 0
    current_state ← c.rows selected hidden_dim
    states ← mlp_forward expert current_state
    weighed ← c.broadcast_mul states column
    c.index_add ys top weighed 0

  unfoldable pub add_experts : T → ℕ → List (Mlp M) → List (List ℕ) → List (List F) → T → Result E T
  unfolding add_expert
  add_experts xs hidden_dim (expert ∷ experts) (top_x ∷ tops) (rws ∷ selected) ys =
      if is_empty top_x
      then add_experts xs hidden_dim experts tops selected ys
      else (add_expert xs hidden_dim expert top_x rws ys >>= λ ys'.
          add_experts xs hidden_dim experts tops selected ys')
  add_experts xs hidden_dim _ _ _ ys = ok ys

  unfoldable pub mlp_or_moe_forward : MlpOrMoe M → T → Result E T
  unfolding mlp_forward qmatmul_forward route_rows add_experts
  mlp_or_moe_forward (mlp m) xs = mlp_forward m xs
  mlp_or_moe_forward (moe n_expert_used feed_forward_gate_inp experts) xs = do
    (b_size, seq_len, hidden_dim) ← c.dims3 xs
    flat ← c.rows xs hidden_dim
    router_logits ← qmatmul_forward feed_forward_gate_inp flat
    softened ← c.softmax_last_dim router_logits
    routing_weights ← c.to_vec2 softened
    routed ← ok_or c.panic (
        route_rows n_expert_used 0 routing_weights
          (empties (length experts), empties (length experts)))
    zeros ← c.zeros_like flat
    ys ← add_experts flat hidden_dim experts routed.0 routed.1 zeros
    c.reshape ys (b_size ∷ seq_len ∷ hidden_dim ∷ [])
