-- ===== src/Sim.antt =====
-- include/itchbook/sim: the money of the simulator. Money counts it, Fees charges for a fill, Mid
-- reads the mid price from the two sides of a book, Ledger keeps the account of the fills.
pub mod Money
pub mod Fees
pub mod Mid
pub mod Ledger
