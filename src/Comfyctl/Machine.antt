-- ===== src/Comfyctl/Machine.antt =====
-- What comfyctl/cli.py runs on: files, processes, the clock and the output of one run of the
-- program, and actions on them.
pub mod FileTree
pub mod Outside
pub mod Printed
pub mod Run
pub mod Under
pub use FileTree.*
pub use Outside.*
unfoldable pub use Run.*
