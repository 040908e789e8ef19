-- ===== src/Risk.antt =====
-- The risk checks on outbound orders: risk/ of the include directory.
pub mod RateWindow
pub mod KillSwitch
