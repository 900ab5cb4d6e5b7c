-- ===== src/Schema/Rows.antt =====
-- What the database asks of a row: NOT NULL, the types with a range, the CHECK and the UNIQUE
-- constraints.
use mikrotik_cpe_cloud.Base.{
  ℕ, Bool, true, false, ◌&&◌, ◌||◌, List, [], ◌∷◌, none, some, leb, ◌==◌, length, ◌^◌, ◌-◌,
  if◌then◌else◌,
}
use mikrotik_cpe_cloud.Base.Text.{Text, text_eq}
use mikrotik_cpe_cloud.Base.Int.{ℤ, pos, negsuc}
use mikrotik_cpe_cloud.AutoEnroll.Rows.{same_ip}
use mikrotik_cpe_cloud.Wireguard.{coerce_ip}
use mikrotik_cpe_cloud.Schema.{
  ColumnType, big_integer, small_integer, integer, text, boolean, date_time, macaddr, inet, jsonb,
  string, Column, Unique, Check, Cell, text_cell, number_cell, flag_cell, inet_cell, time_cell,
  Given, omitted, null, value, Row, has_text,
}

unfoldable pub cell : Text → Row → Given
cell name [] = omitted
cell name ((k, v) ∷ row) = let later = cell name row in if text_eq k name then v else later

-- A signed integer of a width of `bits + 1`.
abbrev pub fits : ℕ → ℤ → Bool
fits bits (pos n) = leb n (2 ^ bits - 1)
fits bits (negsuc n) = leb n (2 ^ bits - 1)

module _ (is_macaddr : Text → Bool) where
  -- The value is one of the type. Texts for INET and JSONB are not looked into.
  abbrev pub has_type : ColumnType → Cell → Bool
  has_type small_integer (number_cell n) = fits 15 n
  has_type integer (number_cell n) = fits 31 n
  has_type big_integer (number_cell n) = fits 63 n
  has_type text (text_cell s) = true
  has_type (string n) (text_cell s) = leb (length s) n
  has_type macaddr (text_cell s) = is_macaddr s
  has_type boolean (flag_cell b) = true
  has_type inet (inet_cell i) = true
  has_type jsonb (text_cell s) = true
  has_type date_time (time_cell t) = true
  has_type _ _ = false

  -- A column that is left out takes its default, the next key, or NULL.
  abbrev pub accepts_cell : Column → Given → Bool
  accepts_cell c (value v) = has_type c.type v
  accepts_cell c null = c.nullable
  accepts_cell c omitted = elim c.server_default [
    | some d ↦ true
    | none ↦ c.nullable || c.primary_key
  ]

  unfoldable pub accepts_columns : List Column → Row → Bool
  unfolding cell
  accepts_columns [] row = true
  accepts_columns (c ∷ cs) row = accepts_cell c (cell c.name row) && accepts_columns cs row

-- A CHECK constraint passes where it is not false: NULL passes.
abbrev pub passes : Check → Given → Bool
passes check omitted = true
passes check null = true
passes check (value (text_cell s)) = has_text s check.values
passes check (value (number_cell n)) = false
passes check (value (flag_cell b)) = false
passes check (value (inet_cell i)) = false
passes check (value (time_cell t)) = false

unfoldable pub accepts_checks : List Check → Row → Bool
unfolding cell
accepts_checks [] row = true
accepts_checks (check ∷ checks) row =
    passes check (cell check.column row) && accepts_checks checks row

abbrev pub same_cell : Given → Given → Bool
same_cell (value (text_cell s)) (value (text_cell t)) = text_eq s t
same_cell (value (number_cell (pos m))) (value (number_cell (pos n))) = m == n
same_cell (value (number_cell (negsuc m))) (value (number_cell (negsuc n))) = m == n
same_cell (value (inet_cell i)) (value (inet_cell j)) = same_ip (coerce_ip i) (coerce_ip j)
same_cell (value (time_cell m)) (value (time_cell n)) = m == n
same_cell _ _ = false

-- Two rows with the same values, none of them NULL, in all of the columns.
unfoldable pub same_key : List Text → Row → Row → Bool
unfolding cell
same_key [] r q = true
same_key (name ∷ names) r q = same_cell (cell name r) (cell name q) && same_key names r q

unfoldable pub conflict : List Unique → Row → Row → Bool
unfolding same_key
conflict [] r q = false
conflict (u ∷ us) r q = same_key u.columns r q || conflict us r q

unfoldable pub conflicts : List Unique → Row → List Row → Bool
unfolding conflict
conflicts us r [] = false
conflicts us r (q ∷ qs) = conflict us r q || conflicts us r qs
