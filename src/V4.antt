-- ===== src/V4.antt =====
-- packages/uniswap-v4-adapter/src/index.ts: what the adapter computes of a pool and of a position
-- before anything is encoded or sent. ABI encoding, hashing and RPC calls are not modelled; a
-- percentage of a requested range is a double, of which only its validity is used.
pub mod Errors
pub mod Price
pub mod Division
pub mod Pool
pub mod Plan
pub mod PriceBounds
pub mod RatioOrder
pub mod PriceOrder
pub mod Blockers
pub mod Funding
pub mod Exposure
mod Tests
