-- ===== src/Weather.antt =====
-- The weather part of the service: what `GET /v1/weather` computes from the stored forecasts.
pub mod Horizon
pub mod Values
pub mod Rows
pub mod Item
pub mod Short
pub mod Mid
pub mod Bounds
pub mod Endpoint
