-- ===== src/Core.antt =====
-- packages/core: configuration, contexts and actions, events, plugins, the native bridge and trace ids.
pub mod Config
pub mod Schema
pub mod Context
pub mod Events
pub mod Native
pub mod Plugins
pub mod Sockets
pub mod Trace
pub mod Logger
