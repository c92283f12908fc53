-- ===== src/Server.antt =====
-- The server around the tables: Server/src/web.rs, Server/src/clienthandler.rs and
-- Server/src/servermanager.rs, one child for each part. A request finds the locks that it takes free.
pub mod Cookie
pub mod Commands
pub mod Web
pub mod Clients
pub mod Manager
