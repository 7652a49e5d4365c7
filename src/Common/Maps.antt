-- ===== src/Common/Maps.antt =====
-- `HashMap<String, V>` as an association list: the order of the list is the order of iteration,
-- which the source leaves open.
use Prim.Native.String.{String}
use mathlib.Core.Path.{◌≡◌, refl, sym, subst, subst₂}
use mathlib.Core.Logic.{inl, inr}
use mathlib.Core.Bool.{false}
use mathlib.Core.Option.{Option, none, some, some-injective}
use mathlib.Core.Option
use mathlib.Core.List.{List, [], ◌∷◌}
use native.Mathlib.Omega.{arith}
use text.Mathlib.Text.{◌==◌}
use text.Mathlib.TextEquality.{eq_iff}
use neural_swarm_ai.Common.Tests.{if◌then◌else◌, Bool-cases}
use neural_swarm_ai.Common.Lists.{length}

module _ {ℓ} {V : Type ℓ} where
  -- `HashMap::get`
  unfoldable pub lookup : String → List (String × V) → Option V
  lookup k [] = none
  lookup k ((j, v) ∷ m) = if j == k then some v else lookup k m

  -- `HashMap::insert`
  unfoldable pub insert : String → V → List (String × V) → List (String × V)
  insert k v [] = (k, v) ∷ []
  insert k v ((j, w) ∷ m) = if j == k then (k, v) ∷ m else (j, w) ∷ insert k v m

  -- A write through `HashMap::get_mut`; nothing happens where the key is missing.
  unfoldable pub adjust : String → (V → V) → List (String × V) → List (String × V)
  adjust k f [] = []
  adjust k f ((j, w) ∷ m) = if j == k then (j, f w) ∷ m else (j, w) ∷ adjust k f m

  -- `HashMap::remove`
  unfoldable pub remove : String → List (String × V) → List (String × V)
  remove k [] = []
  remove k ((j, w) ∷ m) = if j == k then m else (j, w) ∷ remove k m

  pub lookup-insert :
      (key other : String) (value : V) (entries : List (String × V))
      → lookup other (insert key value entries)
        ≡ (if key == other then some value else lookup other entries)
  unfolding lookup insert
  lookup-insert key other value [] = refl
  lookup-insert key other value ((k, w) ∷ rest) =
      let ih = lookup-insert key other value rest in
      ground (arith, ih, eq_iff k key, eq_iff k other, eq_iff key other)

  pub lookup-adjust :
      (k j : String) (f : V → V) (m : List (String × V))
      → lookup j (adjust k f m) ≡ (if k == j then Option.map f (lookup j m) else lookup j m)
  unfolding lookup adjust
  lookup-adjust k j f [] = ground arith
  lookup-adjust k j f ((i, w) ∷ m) =
      ground (arith, eq_iff k j, eq_iff i k, eq_iff i j, lookup-adjust k j f m)

  pub length-adjust :
      (k : String) (f : V → V) (m : List (String × V)) → length (adjust k f m) ≡ length m
  unfolding adjust
  length-adjust k f [] = refl
  length-adjust k f ((i, w) ∷ m) = ground (arith, length-adjust k f m)

  abbrev pub keys : List (String × V) → List String
  keys [] = []
  keys ((k, v) ∷ m) = k ∷ keys m

  pub keys-adjust : (k : String) (f : V → V) (m : List (String × V)) → keys (adjust k f m) ≡ keys m
  unfolding adjust
  keys-adjust k f [] = refl
  keys-adjust k f ((i, w) ∷ m) = ground (arith, keys-adjust k f m)

  -- No entry has the key.
  abbrev pub Absent : String → List (String × V) → Type 0
  Absent k [] = Unit
  Absent k ((j, w) ∷ m) = ((j == k) ≡ false) × Absent k m

  -- What a `HashMap` gives by its representation: a key stands once.
  abbrev pub IsDistinct : List (String × V) → Type 0
  IsDistinct [] = Unit
  IsDistinct ((k, v) ∷ m) = Absent k m × IsDistinct m

  pub lookup-Absent : (k : String) (m : List (String × V)) → Absent k m → lookup k m ≡ none
  unfolding lookup
  lookup-Absent k [] a = refl
  lookup-Absent k ((j, w) ∷ m) a = ground (arith, lookup-Absent k m)

  pub lookup-remove :
      (k j : String) (m : List (String × V))
      → IsDistinct m
      → lookup j (remove k m) ≡ (if k == j then none else lookup j m)
  unfolding lookup remove
  lookup-remove k j [] d = ground arith
  lookup-remove k j ((i, w) ∷ m) d =
      ground (arith, eq_iff k j, eq_iff i k, eq_iff i j, lookup-Absent j m, lookup-remove k j m d.1)

  Absent-insert :
      (j k : String) (v : V) (m : List (String × V))
      → Absent j m
      → (k == j) ≡ false
      → Absent j (insert k v m)
  unfolding insert
  Absent-insert j k v [] a h = (h, tt)
  Absent-insert j k v ((i, w) ∷ m) a h = ground (arith, eq_iff i k, Absent-insert j k v m)

  pub Absent-adjust :
      (j k : String) (f : V → V) (m : List (String × V)) → Absent j m → Absent j (adjust k f m)
  unfolding adjust
  Absent-adjust j k f [] a = tt
  Absent-adjust j k f ((i, w) ∷ m) a = ground (arith, Absent-adjust j k f m)

  pub Absent-remove : (j k : String) (m : List (String × V)) → Absent j m → Absent j (remove k m)
  unfolding remove
  Absent-remove j k [] a = tt
  Absent-remove j k ((i, w) ∷ m) a = ground (arith, Absent-remove j k m)

  pub IsDistinct-insert :
      (k : String) (v : V) (m : List (String × V)) → IsDistinct m → IsDistinct (insert k v m)
  unfolding insert
  IsDistinct-insert k v [] d = (tt, tt)
  IsDistinct-insert k v ((j, w) ∷ m) d =
      ground (arith, eq_iff j k, eq_iff k j, Absent-insert j k v m, IsDistinct-insert k v m)

  pub IsDistinct-adjust :
      (k : String) (f : V → V) (m : List (String × V)) → IsDistinct m → IsDistinct (adjust k f m)
  unfolding adjust
  IsDistinct-adjust k f [] d = tt
  IsDistinct-adjust k f ((j, w) ∷ m) d =
      ground (arith, Absent-adjust j k f m, IsDistinct-adjust k f m)

  pub IsDistinct-remove :
      (k : String) (m : List (String × V)) → IsDistinct m → IsDistinct (remove k m)
  unfolding remove
  IsDistinct-remove k [] d = tt
  IsDistinct-remove k ((j, w) ∷ m) d = ground (arith, Absent-remove j k m, IsDistinct-remove k m)

  -- Every entry satisfies a relation between its key and its value.
  abbrev pub Entries {κ} : (String → V → Type κ) → List (String × V) → Type κ
  Entries P [] = Unit
  Entries P ((k, v) ∷ m) = P k v × Entries P m

  pub Entries-insert {κ} :
      (P : String → V → Type κ) (k : String) (v : V) (m : List (String × V))
      → Entries P m
      → P k v
      → Entries P (insert k v m)
  unfolding insert
  Entries-insert P k v [] h p = (p, tt)
  Entries-insert P k v ((j, w) ∷ m) h p = elim (Bool-cases (j == k)) [
    | inl e ↦ rw e (p, h.1)
    | inr e ↦ rw e (h.0, Entries-insert P k v m h.1 p)
  ]

  pub Entries-adjust {κ} :
      (P : String → V → Type κ) (k : String) (f : V → V) (m : List (String × V))
      → Entries P m
      → ((w : V) → P k w → P k (f w))
      → Entries P (adjust k f m)
  unfolding adjust
  Entries-adjust P k f [] h p = tt
  Entries-adjust P k f ((j, w) ∷ m) h p = elim (Bool-cases (j == k)) [
    | inl e ↦
        let q : j ≡ k = (eq_iff j k).0 e in
        rw e (subst (λ i. P i (f w)) (sym q) (p w (subst (λ i. P i w) q h.0)), h.1)
    | inr e ↦ rw e (h.0, Entries-adjust P k f m h.1 p)
  ]

  pub Entries-remove {κ} :
      (P : String → V → Type κ) (k : String) (m : List (String × V))
      → Entries P m
      → Entries P (remove k m)
  unfolding remove
  Entries-remove P k [] h = tt
  Entries-remove P k ((j, w) ∷ m) h = elim (Bool-cases (j == k)) [
    | inl e ↦ rw e h.1
    | inr e ↦ rw e (h.0, Entries-remove P k m h.1)
  ]

  pub Entries-lookup {κ} :
      (P : String → V → Type κ) (k : String) (m : List (String × V)) {v : V}
      → Entries P m
      → lookup k m ≡ some v
      → P k v
  unfolding lookup
  Entries-lookup P k [] h e = absurd (cc)
  Entries-lookup P k ((j, w) ∷ m) {v} h e = elim (Bool-cases (j == k)) [
    | inl t ↦ subst₂ P ((eq_iff j k).0 t) (some-injective _ _ (rw (t) at e)) h.0
    | inr t ↦ Entries-lookup P k m h.1 (rw t at e)
  ]
