-- ===== src/Amm.antt =====
-- The automated market maker of mini-defi-crosschain/src/amm_swap.c: the constant-product pool. All
-- arithmetic is in 64 bits and wraps round; where a wrapped divisor is 0, at which the code divides by
-- 0, the quotient is 0.
pub mod Product
mod Tests
use mini_security_crypto_web.Prelude.{
  ℕ, ◌+◌, ◌-◌, ◌*◌, ◌/◌, Bool, true, false, Option, none, some, ◌||◌, leb, ltb, ◌==◌, add64, sub64,
  mul64, if◌then◌else◌,
}

abbrev pub fee_denom : ℕ
fee_denom = 10000

abbrev pub precision : ℕ
precision = 1000000000

pub data AmmVersion : Type 0 where
  v2_constant_product v3_concentrated stable_swap : AmmVersion

pub record AmmPool : Type 0 where
  pub reserve0 : ℕ
  pub reserve1 : ℕ
  pub total_supply : ℕ
  pub fee_bps : ℕ
  pub version : AmmVersion

pub record SwapResult : Type 0 where
  pub input_amount : ℕ
  pub output_amount : ℕ
  pub price_impact_bps : ℕ
  pub fee_amount : ℕ

pub record LiquidityResult : Type 0 where
  pub lp_tokens : ℕ
  pub amount0 : ℕ
  pub amount1 : ℕ

unfoldable pub mul_div : ℕ → ℕ → ℕ → ℕ
mul_div a b c = if c == 0 then 0 else mul64 a b / c

abbrev pub amm_pool_init : ℕ → ℕ → ℕ → AmmPool
amm_pool_init r0 r1 fee_bps = record {
  reserve0 = r0;
  reserve1 = r1;
  total_supply = add64 r0 r1;
  fee_bps = if ltb 0 fee_bps then fee_bps else 30;
  version = v2_constant_product;
}

unfoldable pub get_amount_out : ℕ → ℕ → ℕ → ℕ → ℕ
get_amount_out amount_in reserve_in reserve_out fee_bps =
    if (amount_in == 0) || (reserve_in == 0) || (reserve_out == 0)
    then 0
    else (let with_fee = mul64 amount_in (sub64 fee_denom fee_bps) in
        let denominator = add64 (mul64 reserve_in fee_denom) with_fee in
        mul64 with_fee reserve_out / denominator)

unfoldable pub price_impact : ℕ → ℕ → ℕ → ℕ → ℕ
price_impact amount_in reserve_in reserve_out fee_bps =
    if (amount_in == 0) || (reserve_in == 0) || (reserve_out == 0)
    then 0
    else (let spot_price = mul64 reserve_out precision / reserve_in in
        let amount_out = get_amount_out amount_in reserve_in reserve_out fee_bps in
        if amount_out == 0
        then fee_denom
        else (let exec_price = mul64 amount_out precision / amount_in in
            if leb spot_price exec_price
            then 0
            else mul64 (sub64 spot_price exec_price) fee_denom / spot_price))

abbrev pub no_swap : SwapResult
no_swap = record { input_amount = 0; output_amount = 0; price_impact_bps = 0; fee_amount = 0 }

-- The slippage bound is computed and dropped by the code, and is no argument here.
unfoldable pub amm_swap : AmmPool → ℕ → Bool → SwapResult × AmmPool
amm_swap pool amount_in zero_for_one =
    let reserve_in = if zero_for_one then pool.reserve0 else pool.reserve1 in
    let reserve_out = if zero_for_one then pool.reserve1 else pool.reserve0 in
    let out = get_amount_out amount_in reserve_in reserve_out pool.fee_bps in
    if out == 0 then (no_swap, pool) else (
      record {
        input_amount = amount_in;
        output_amount = out;
        price_impact_bps = price_impact amount_in reserve_in reserve_out pool.fee_bps;
        fee_amount = mul64 amount_in pool.fee_bps / fee_denom;
      },
      if zero_for_one
          then record pool {
            reserve0 = add64 pool.reserve0 amount_in;
            reserve1 = sub64 pool.reserve1 out;
          }
          else record pool {
            reserve1 = add64 pool.reserve1 amount_in;
            reserve0 = sub64 pool.reserve0 out;
          },
    )

unfoldable pub get_amount_in : ℕ → ℕ → ℕ → ℕ → ℕ
get_amount_in amount_out reserve_in reserve_out fee_bps =
    if (amount_out == 0) || (reserve_in == 0) || leb reserve_out amount_out
    then 0
    else (let numerator = mul64 (mul64 reserve_in amount_out) fee_denom in
        let denominator = mul64 (sub64 reserve_out amount_out) (sub64 fee_denom fee_bps) in
        add64 (numerator / denominator) 1)

abbrev pub no_liquidity : LiquidityResult
no_liquidity = record { lp_tokens = 0; amount0 = 0; amount1 = 0 }

-- The amounts that are taken in, from what is wanted; `none` is an early return. The result that the
-- code then returns has no tokens and no amounts.
abbrev pub amounts_taken : AmmPool → ℕ → ℕ → ℕ → ℕ → Option (ℕ × ℕ)
amounts_taken pool amount0 amount1 min0 min1 =
    let optimal1 = mul_div amount0 pool.reserve1 pool.reserve0 in
    let optimal0 = mul_div amount1 pool.reserve0 pool.reserve1 in
    if leb optimal1 amount1
    then (if ltb optimal1 min1 then none else some (amount0, optimal1))
    else if ltb optimal0 min0
    then none
    else some (optimal0, amount1)

unfoldable pub add_liquidity : AmmPool → ℕ → ℕ → ℕ → ℕ → LiquidityResult × AmmPool
add_liquidity pool amount0 amount1 min0 min1 =
    if pool.total_supply == 0
    then (
      record { lp_tokens = add64 amount0 amount1; amount0 = amount0; amount1 = amount1 },
      record pool { reserve0 = amount0; reserve1 = amount1; total_supply = add64 amount0 amount1 },
    )
    else elim (amounts_taken pool amount0 amount1 min0 min1) [
      | none ↦ (no_liquidity, pool)
      | some (taken0, taken1) ↦
          let tokens = mul_div taken0 pool.total_supply pool.reserve0 in
          (
            record { lp_tokens = tokens; amount0 = taken0; amount1 = taken1 },
            record pool {
              reserve0 = add64 pool.reserve0 taken0;
              reserve1 = add64 pool.reserve1 taken1;
              total_supply = add64 pool.total_supply tokens;
            },
          )
    ]

unfoldable pub remove_liquidity : AmmPool → ℕ → ℕ × AmmPool
remove_liquidity pool lp_amount =
    if (lp_amount == 0) || (pool.total_supply == 0)
    then (0, pool)
    else (let amount0 = mul_div lp_amount pool.reserve0 pool.total_supply in
        let amount1 = mul_div lp_amount pool.reserve1 pool.total_supply in
        (
          add64 amount0 amount1,
          record pool {
            reserve0 = sub64 pool.reserve0 amount0;
            reserve1 = sub64 pool.reserve1 amount1;
            total_supply = sub64 pool.total_supply lp_amount;
          },
        ))

unfoldable pub get_price : AmmPool → Bool → ℕ
get_price pool zero_for_one =
    if (pool.reserve0 == 0) || (pool.reserve1 == 0)
    then 0
    else if zero_for_one
    then mul64 pool.reserve1 precision / pool.reserve0
    else mul64 pool.reserve0 precision / pool.reserve1
