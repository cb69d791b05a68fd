-- ===== src/Enums.antt =====
-- enums.py: the integer enums, by their values, and `Enum(value)` as a lookup by value.
use hftbacktest_tw.Prelude.{Option, none, some, if◌then◌else◌}
use hftbacktest_tw.Prelude.Int.{ℤ, pos, negsuc, eqb_ℤ}

pub data Side : Type 0 where
  buy sell : Side

pub data TimeInForce : Type 0 where
  fok ioc : TimeInForce

pub data OrderStatus : Type 0 where
  new expired filled : OrderStatus

pub data OrderType : Type 0 where
  limit : OrderType

unfoldable pub side_value : Side → ℤ
side_value buy = pos 1
side_value sell = negsuc 0

unfoldable pub tif_value : TimeInForce → ℤ
tif_value fok = pos 2
tif_value ioc = pos 3

unfoldable pub status_value : OrderStatus → ℤ
status_value new = pos 1
status_value expired = pos 2
status_value filled = pos 3

unfoldable pub type_value : OrderType → ℤ
type_value limit = pos 0

unfoldable pub side_of_value : ℤ → Option Side
unfolding side_value
side_of_value z =
    if eqb_ℤ z (side_value buy)
    then some buy
    else if eqb_ℤ z (side_value sell)
    then some sell
    else none

unfoldable pub tif_of_value : ℤ → Option TimeInForce
unfolding tif_value
tif_of_value z =
    if eqb_ℤ z (tif_value fok) then some fok else if eqb_ℤ z (tif_value ioc) then some ioc else none

unfoldable pub status_of_value : ℤ → Option OrderStatus
unfolding status_value
status_of_value z =
    if eqb_ℤ z (status_value new)
    then some new
    else if eqb_ℤ z (status_value expired)
    then some expired
    else if eqb_ℤ z (status_value filled)
    then some filled
    else none
