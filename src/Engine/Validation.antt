-- ===== src/Engine/Validation.antt =====
-- engine/validation.py: every check returns the value that the caller goes on with, or raises.
use hftbacktest_tw.Prelude.{
  ◌-◌, ◌^◌, Bool, ◌||◌, Option, none, some, List, [], ◌∷◌, nat_eq, ◌==◌, list_eq, if◌then◌else◌,
}
use hftbacktest_tw.Prelude.Int.{ℤ, pos, ltb_ℤ, eqb_ℤ}
use hftbacktest_tw.Errors.{
  Result, ok, raise, slim_configuration_error, unsupported_capability_error,
}
use hftbacktest_tw.Enums.{Side, TimeInForce, fok, ioc, side_of_value, tif_of_value}
use hftbacktest_tw.Floats.{Floats}
use hftbacktest_tw.Values.{Value, Text, codes, int, text, strip, upper, equal_integer}

module _ (f : Floats) where
  -- `none` stands for an entry that is no AssetConfig.
  unfoldable pub validate_assets {ℓ} : {A : Type ℓ} → List (Option A) → Result (A × A)
  validate_assets (some left ∷ some right ∷ []) = ok (left, right)
  validate_assets (a ∷ b ∷ []) =
      raise slim_configuration_error "neutral SlimEngine assets must be AssetConfig instances"
  validate_assets _ = raise slim_configuration_error "slim engine requires exactly two assets"

  unfoldable pub validate_asset_no : Value f → Result ℤ
  validate_asset_no (int z) =
      if eqb_ℤ z (pos 0) || eqb_ℤ z (pos 1)
      then ok z
      else raise slim_configuration_error "asset_no must be 0 or 1"
  validate_asset_no _ = raise slim_configuration_error "asset_no must be 0 or 1"

  unfoldable pub validate_nanoseconds : Value f → Result ℤ
  validate_nanoseconds (int z) =
      if ltb_ℤ z (pos 0)
      then raise slim_configuration_error "must be a non-negative integer number of nanoseconds"
      else ok z
  validate_nanoseconds _ =
      raise slim_configuration_error "must be a non-negative integer number of nanoseconds"

  unfoldable pub validate_order_id : Value f → Result ℤ
  validate_order_id (int z) =
      if ltb_ℤ z (pos 0) || ltb_ℤ (pos (2 ^ 64 - 1)) z
      then raise slim_configuration_error "order_id must be an unsigned 64-bit integer"
      else ok z
  validate_order_id _ = raise slim_configuration_error "order_id must be an unsigned 64-bit integer"

  unfoldable pub side_member : Option ℤ → Option Side
  unfolding side_of_value
  side_member none = none
  side_member (some z) = side_of_value z

  -- `Side(value)`, and its error as the package's.
  unfoldable pub supported_side : Value f → Result Side
  unfolding side_member
  supported_side value = elim (side_member (equal_integer f value)) [
    | some side ↦ ok side
    | none ↦ raise unsupported_capability_error "slim engine supports only BUY or SELL side"
  ]

  -- `TimeInForce[key]`
  unfoldable pub tif_of_name : Text → Option TimeInForce
  tif_of_name key =
      if key == codes "FOK" then some fok else if key == codes "IOC" then some ioc else none

  unfoldable pub tif_member : Option ℤ → Option TimeInForce
  unfolding tif_of_value
  tif_member none = none
  tif_member (some z) = tif_of_value z

  -- The key or the value that `supported_time_in_force` looks up, with its parameter `strip`.
  unfoldable pub requested_tif : Bool → Value f → Option TimeInForce
  unfolding tif_of_name tif_member
  requested_tif stripping (text s) = tif_of_name (if stripping then upper (strip s) else upper s)
  requested_tif stripping (int z) = tif_member (equal_integer f (int z))
  requested_tif stripping value = tif_member (equal_integer f value)

  unfoldable pub supported_time_in_force : Bool → Value f → Result TimeInForce
  unfolding requested_tif
  supported_time_in_force stripping value = elim (requested_tif stripping value) [
    | some tif ↦ ok tif
    | none ↦ raise unsupported_capability_error "slim engine supports only immediate FOK/IOC"
  ]
