-- ===== src/Amm/Tests.antt =====
-- The theorem on the swaps of amm_swap.c (mini-defi-crosschain/src) at a concrete pool.
use mini_security_crypto_web.Prelude.{◌*◌, ◌≤◌, true, arith}
use mini_security_crypto_web.Amm.{AmmPool, amm_pool_init, amm_swap}
use mini_security_crypto_web.Amm.Product.{amm_swap-product}

abbrev opened_pool : AmmPool
opened_pool = amm_pool_init 1000 2000 30

amm_swap-product_example :
    let (result, pool') = amm_swap opened_pool 50 true in
    (1000 * 2000 ≤ pool'.reserve0 * pool'.reserve1) × (result.output_amount ≤ 2000)
amm_swap-product_example =
    amm_swap-product opened_pool 50 true (omega arith) (omega arith) (omega arith) (omega arith)
      (omega arith)
