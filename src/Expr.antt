-- ===== src/Expr.antt =====
-- Storage expressions such as `reserves[asset].configuration`: their syntax, parser and printer.
pub mod Syntax
pub mod Scan
pub mod Parse
pub mod Print
pub mod Access
mod Bounds
pub mod RoundTrip
pub mod Total
pub mod Junk
pub mod Reprint
mod Examples
