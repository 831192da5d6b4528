-- ===== src/Scenarios.antt =====
-- What the theorems say of a small installation, and of single breakers and principals.
mod Installation
mod Delivery
mod Deferral
mod Outbox
mod Rules
mod Polling
mod Tenants
mod Upstream
mod Advisories
mod Secrets
mod Routes
mod Identity
