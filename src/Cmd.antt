-- ===== src/Cmd.antt =====
-- The commands of src/cmd.c: the list of commands, and the arguments of the command at hand.
pub mod Table
pub mod Refine
pub mod Tokens
pub mod Start
pub mod Pool
pub mod Bounds
pub mod Args
pub mod Nesting
pub mod Printed
pub mod Argsv
pub mod RoundTrip
mod Tests
