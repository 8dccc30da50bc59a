-- ===== src/Chain.antt =====
-- service/evm.go
pub mod Bytes
pub mod Signed
pub mod Types
pub mod PoolAddress
pub mod Logs
pub mod Slices
pub mod Scan
pub mod ErrorText
pub mod Watch
