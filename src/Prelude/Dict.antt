-- ===== src/Prelude/Dict.antt =====
-- Python's `dict` with text keys, as the function that `d.get` computes. The code never depends on
-- the order of a dict that is modelled so.
use Prim.Native.String.{String}
use mathlib.Core.Path.{◌≡◌, refl}
use mathlib.Core.Bool.{Bool}
use mathlib.Core.Option.{Option, none, some}
use text.Mathlib.Text.{◌==◌ as str_eq}
use text.Mathlib.TextPositions.{eq_refl}
use inherent.Prelude.Tests.{if◌then◌else◌}

abbrev pub Dict {ℓ} : Type ℓ → Type ℓ
Dict V = String → Option V

module _ {ℓ} {V : Type ℓ} where
  -- `{}`
  abbrev pub empty : Dict V
  empty k = none

  -- `d.get(k)`
  unfoldable pub get : String → Dict V → Option V
  get k d = d k

  -- `d[k] = v`
  unfoldable pub insert : String → V → Dict V → Dict V
  insert k v d j = if str_eq k j then some v else d j

  -- `{k: v for k, v in d.items() if keep(v)}`
  unfoldable pub retain : (V → Bool) → Dict V → Dict V
  retain keep d k = elim (d k) [ none ↦ none | some v ↦ if keep v then some v else none ]

  pub get-insert :
      (k j : String) (v : V) (d : Dict V)
      → get j (insert k v d) ≡ (if str_eq k j then some v else get j d)
  unfolding get insert
  get-insert k j v d = refl

  pub get-insert_self : (k : String) (v : V) (d : Dict V) → get k (insert k v d) ≡ some v
  unfolding get insert
  get-insert_self k v d = rw eq_refl

  pub get-retain :
      (k : String) (keep : V → Bool) (d : Dict V)
      → get k (retain keep d)
        ≡ elim (get k d) [ none ↦ none | some v ↦ if keep v then some v else none ]
  unfolding get retain
  get-retain k keep d = refl

pub ruleset dict_laws = (get-insert, get-insert_self)
