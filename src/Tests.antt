-- ===== src/Tests.antt =====
-- Concrete runs of the definitions, and the theorems at concrete inputs.
mod Codec
mod Storage
mod RateLimiter
mod ZooKeeper
mod BookieHandler
mod Schedules
mod EndToEnd
mod BookiePipeline
mod Metrics
mod PerfClient
mod Durability
mod Bookie
mod Tables
mod Logging
