-- ===== src/Ws.antt =====
-- The websocket side: ws.go, ws_write_message.go, ws_read_pump.go, ws_write_pump.go,
-- ws_connection_cleanup.go and ws_config.go.
pub mod Buffer
pub mod Connection
pub mod Manager
pub mod Pump
pub mod Session
