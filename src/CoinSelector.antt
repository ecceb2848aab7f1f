-- ===== src/CoinSelector.antt =====
-- src/coinselector.cpp and coinselector.h: choosing the coins, the change and the fee of a
-- transaction. What the code takes from Bitcoin Core is the record `Bitcoin`.
pub mod Bitcoin
pub mod Pool
pub mod Choose
pub mod Step
pub mod Pay
pub mod Pass
pub mod Select
pub mod Totals
pub mod Funded
pub mod PayTotal
pub mod Built
pub mod Settled
pub mod Balance
pub mod Terminates
pub mod Covered
mod Examples
