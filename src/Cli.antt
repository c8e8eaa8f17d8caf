-- ===== src/Cli.antt =====
-- src/link/main.py: the commands of the command line.
pub mod Reset
pub mod Start
