-- ===== src/Spikes/Rows.antt =====
-- The cells and rows that a database gives to run_spike.py and run_thelook.py, and the prices of a run.
-- `Values` stands for Python's numbers and its comparison of values; `Floats` is its arithmetic of floats.
use chat_chart.Base.{
  ℕ, Bool, true, false, ◌&&◌, Option, none, some, List, [], ◌∷◌, Result, ok, ◌>>=◌, require, map,
  Text,
}
use chat_chart.Spikes.Expected.{Floats, ExpectedError}
use chat_chart.Spikes.Seed.{SeedError}

-- What ends a run: an exception by its name, or what the expected answers raise.
pub data RunError : Type 0 where
  key_error value_error type_error index_error zero_division attribute_error : RunError
  driver_error : RunError
  in_seed : SeedError → RunError
  in_expected : ExpectedError → RunError

pub record Values : Type 1 where
  pub floats : Floats
  pub Value : Type 0
  pub of_nat : ℕ → Value
  pub of_text : Text → Value
  pub of_float : floats.Float → Value
  -- The value as a float, if it is one; and whether it is an int or a float.
  pub float_in : Value → Option floats.Float
  pub is_number : Value → Bool
  -- `float(c)`
  pub to_float : Value → Result RunError floats.Float
  -- `round(x, places)`
  pub round_to : ℕ → floats.Float → floats.Float
  -- `abs(x - y) <= n / 100`
  pub is_near : ℕ → floats.Float → floats.Float → Bool
  -- `==`
  pub same : Value → Value → Bool
  pub sorted_rows : List (List Value) → Result RunError (List (List Value))
  -- `n / 10 ** places` as it is written in the source, and the arithmetic of the costs
  pub literal : ℕ → ℕ → floats.Float
  pub plus : floats.Float → floats.Float → floats.Float
  pub times : floats.Float → floats.Float → floats.Float
  pub over : floats.Float → floats.Float → floats.Float

-- `u` of `cost_jpy`
pub record Usage : Type 0 where
  pub input_tokens : ℕ
  pub output_tokens : ℕ
  pub cache_read : ℕ
  pub cache_write : ℕ

module _ (V : Values) where
  rounded : ℕ → V.Value → Option V.floats.Float → V.Value
  rounded places c none = c
  rounded places c (some x) = V.of_float (V.round_to places x)

  -- `_norm_cell` and `_norm`
  norm : ℕ → V.Value → V.Value
  unfolding rounded
  norm places c = rounded places c (V.float_in c)

  unfoldable pub norm_rows : ℕ → List (List V.Value) → List (List V.Value)
  unfolding norm
  norm_rows places rows = map (map (norm places)) rows

  -- The cell of a result of one row and one column.
  abbrev pub single : List (List V.Value) → Option V.Value
  single ((c ∷ []) ∷ []) = some c
  single rows = none

  unfoldable pub same_row : List V.Value → List V.Value → Bool
  same_row [] [] = true
  same_row [] (d ∷ r) = false
  same_row (c ∷ q) [] = false
  same_row (c ∷ q) (d ∷ r) = V.same c d && same_row q r

  unfoldable pub same_rows : List (List V.Value) → List (List V.Value) → Bool
  unfolding same_row
  same_rows [] [] = true
  same_rows [] (r ∷ rows) = false
  same_rows (q ∷ got) [] = false
  same_rows (q ∷ got) (r ∷ rows) = same_row q r && same_rows got rows

  -- `abs(float(got) - float(want)) <= n / 100`
  unfoldable pub are_near : ℕ → V.Value → V.Value → Result RunError Bool
  are_near n got want = do x ← V.to_float got; y ← V.to_float want; ok (V.is_near n x y)

  -- `cost_jpy` with the prices of the model, `PRICING[model]`.
  unfoldable pub cost_jpy :
      Option (V.floats.Float × V.floats.Float) → Usage → Result RunError V.floats.Float
  cost_jpy prices u = require prices key_error >>= λ (pin, pout).
      ok (V.times (V.over (tokens pin pout) (V.literal 1000000 0)) (V.literal 155 0))
    where
      count : ℕ → V.floats.Float
      count n = V.literal n 0

      tokens : V.floats.Float → V.floats.Float → V.floats.Float
      tokens pin pout =
          V.plus
            (V.plus
              (V.plus (V.times (count u.input_tokens) pin)
                (V.times (V.times (count u.cache_write) pin) (V.literal 125 2)))
              (V.times (V.times (count u.cache_read) pin) (V.literal 1 1)))
            (V.times (count u.output_tokens) pout)
