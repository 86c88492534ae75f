-- ===== src/Rpc.antt =====
-- The FastRPC file server of the sensors domain, design/nextboot-impl/hexrpcd.py.
pub mod Vfs
pub mod Frames
pub mod Apps
