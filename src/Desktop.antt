-- ===== src/Desktop.antt =====
-- The desktop service, design/desktop-service-20260919/desktop-service.py.
pub mod Recovery
pub mod Screen
pub mod Ctl
