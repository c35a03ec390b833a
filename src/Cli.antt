-- ===== src/Cli.antt =====
-- syntropy-cli: the local web server, its turns and what it shows of them.
pub mod Sanitize
pub mod Turn
pub mod Http
