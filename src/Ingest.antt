-- ===== src/Ingest.antt =====
-- The ingest API: the serializers of server/django/sensordata/serializers/ store what the gateway
-- posts. Their input is the validated data. `is_float` says which texts `float` reads, and
-- `parse_time` is `dateutil.parser.parse`.
pub mod Resource
pub mod Serializers
pub mod Registration
pub mod Order
pub mod Refines
pub mod Newest
pub mod Stored
pub mod Closed
pub mod Frame
pub mod Stores
pub mod OneEvent
pub mod Logged
