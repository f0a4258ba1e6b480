-- ===== src/Injector.antt =====
-- injector: the Python scripts that put fault logic into the modules of the generated Verilog. Texts
-- are lists of ASCII codes.
pub mod Paths
pub mod Instances
pub mod Routing
pub mod Traversal
pub mod Driver
pub mod Scanning
pub mod Substitution
pub mod Injecting
pub mod Building
mod Tests
