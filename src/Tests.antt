-- ===== src/Tests.antt =====
-- The theorems applied to concrete inputs.
mod Numbers
mod Kma
mod Budget
mod Weather
mod Store
mod Rules
mod Polling
mod Provider
mod Sealing
mod Guards
mod Transit
