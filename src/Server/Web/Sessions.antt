-- ===== src/Server/Web/Sessions.antt =====
-- All that browsers and the watching thread of Server/src/web.rs do to a table, from its creation on.
use rust_poker.Base.{ℕ, ◌+◌, ◌≡◌}
use rust_poker.Game.{Game}
use rust_poker.Player.{Addr}
use rust_poker.Table
use rust_poker.Table.{Table, Players}
use rust_poker.Server.Web.Steps.{Request}

module _ {G : Game} (insert : ℕ → Addr → Players → Players) where
  -- A table with the requests that it has answered, and a bound on the chips that they have brought.
  pub data Session : ℕ → Table G → Type 0 where
    opens : {n : ℕ} → n ≡ 0 → Session n Table.new
    asks :
        {n brought k : ℕ} {t u : Table G}
        → Session n t
        → Request insert t brought u
        → k ≡ n + brought
        → Session k u
