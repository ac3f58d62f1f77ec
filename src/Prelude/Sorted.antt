-- ===== src/Prelude/Sorted.antt =====
-- The order of byte strings, and the maps whose keys ascend by it, as those of `std::map` do.
use tinkoff_invest_sdkv.Prelude.Lists.{All}
use tinkoff_invest_sdkv.Prelude.Tests.{Bytes, bytes_eq, bytes_eq_iff, bytes_lt, Bool-cases}
use tinkoff_invest_sdkv.Prelude.Dict.{Dict, lookup, insert, erase}
use mathlib.Core.Path.{◌≡◌, refl, subst}
use mathlib.Core.Logic.{inl, inr}
use mathlib.Core.Bool.{true, false}
use mathlib.Core.Option.{none}
use mathlib.Core.List.{[], ◌∷◌}
use native.Mathlib.Omega.{arith}

bytes_lt_irrefl : (s : Bytes) → bytes_lt s s ≡ false
unfolding bytes_lt
bytes_lt_irrefl [] = refl
bytes_lt_irrefl (a ∷ s) = ground (arith, bytes_lt_irrefl s)

bytes_lt_trans : (s t u : Bytes) → bytes_lt s t ≡ true → bytes_lt t u ≡ true → bytes_lt s u ≡ true
unfolding bytes_lt
bytes_lt_trans s [] u h k = cc
bytes_lt_trans s (b ∷ t) [] h k = cc
bytes_lt_trans [] (b ∷ t) (c ∷ u) h k = refl
bytes_lt_trans (a ∷ s) (b ∷ t) (c ∷ u) h k = ground (arith, bytes_lt_trans s t u)

bytes_lt-total : (s t : Bytes) → bytes_eq s t ≡ false → bytes_lt t s ≡ false → bytes_lt s t ≡ true
unfolding bytes_lt bytes_eq
bytes_lt-total [] [] h k = cc
bytes_lt-total [] (b ∷ t) h k = refl
bytes_lt-total (a ∷ s) [] h k = cc
bytes_lt-total (a ∷ s) (b ∷ t) h k = ground (arith, bytes_lt-total s t)

module _ {ℓ} {V : Type ℓ} where
  -- Every key of the map comes after `k`.
  abbrev pub Above : Bytes → Dict V → Type 0
  Above k = All (λ e. bytes_lt k e.0 ≡ true)

  -- Keys ascend, and so none stands twice.
  abbrev pub IsSorted : Dict V → Type 0
  IsSorted [] = Unit
  IsSorted ((k, v) ∷ m) = Above k m × IsSorted m

  Above-trans : (j k : Bytes) (m : Dict V) → bytes_lt j k ≡ true → Above k m → Above j m
  Above-trans j k [] h a = tt
  Above-trans j k ((i, v) ∷ m) h (a, rest) = (bytes_lt_trans j k i h a, Above-trans j k m h rest)

  insert-Above :
      (j k : Bytes) (v : V) (m : Dict V) → bytes_lt j k ≡ true → Above j m → Above j (insert k v m)
  unfolding insert
  insert-Above j k v [] h a = (h, tt)
  insert-Above j k v ((i, w) ∷ m) h (a, rest) = ground (arith, insert-Above j k v m h rest)

  pub insert-IsSorted : (k : Bytes) (v : V) (m : Dict V) → IsSorted m → IsSorted (insert k v m)
  unfolding insert
  insert-IsSorted k v [] s = (tt, tt)
  insert-IsSorted k v ((j, w) ∷ m) (a, s) = elim (Bool-cases (bytes_eq j k)) [
    | inl e ↦ rw e (subst (λ i. Above i m) ((bytes_eq_iff j k).0 e) a, s)
    | inr e ↦ rw e (elim (Bool-cases (bytes_lt k j)) [
      | inl h ↦ rw h ((h, Above-trans k j m h a), (a, s))
      | inr h ↦ rw h (insert-Above j k v m (bytes_lt-total j k e h) a, insert-IsSorted k v m s)
    ])
  ]

  erase-Above : (j k : Bytes) (m : Dict V) → Above j m → Above j (erase k m)
  unfolding erase
  erase-Above j k [] a = tt
  erase-Above j k ((i, w) ∷ m) (a, rest) = ground (arith, erase-Above j k m rest)

  pub erase-IsSorted : (k : Bytes) (m : Dict V) → IsSorted m → IsSorted (erase k m)
  unfolding erase
  erase-IsSorted k [] s = tt
  erase-IsSorted k ((j, w) ∷ m) (a, s) = ground (arith, erase-IsSorted k m s, erase-Above j k m a)

  -- A key that comes before all others is not in the map.
  pub lookup_below : (k : Bytes) (m : Dict V) → Above k m → lookup k m ≡ none
  unfolding lookup
  lookup_below k [] a = refl
  lookup_below k ((j, w) ∷ m) (a, rest) =
      ground (arith, lookup_below k m rest, bytes_eq_iff j k, bytes_lt_irrefl k)
