-- ===== src/Plugins.antt =====
-- The plugins of pkg/framework/plugins.
pub mod Priority
pub mod ResourceQuota
pub mod Registry
