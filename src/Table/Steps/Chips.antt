-- ===== src/Table/Steps/Chips.antt =====
-- The chips of a table along any sequence of operations of Server/src/lib.rs.
use rust_poker.Game.{Game}
use rust_poker.Player.{Player}
use rust_poker.Table.{Table, Result}
use rust_poker.Table
use rust_poker.Table.Safe.{Safe}
